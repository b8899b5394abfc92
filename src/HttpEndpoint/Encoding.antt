-- ===== src/HttpEndpoint/Encoding.antt =====
-- sockets/live/HTTPLiveEndpoint.hpp: the text of a body in chunks, and its lines.
use medici.Prelude.{
  ℕ, ◌+◌, ◌*◌, ◌≤◌, ◌≡◌, ◌≢◌, ap, sym, ◌∙◌, arith, Bool, false, ◌==◌, if◌then◌else◌, List, [], ◌∷◌,
  ◌++◌, ok, length, All, append_assoc, append-nil, length-append,
}
use medici.HttpEndpoint.{Stream, getline_from, getline_expected, trim, from_chars, is_empty}

pub record Chunk : Type 0 where
  -- The line with the size, which may go on behind it, and the bytes.
  pub line : List ℕ
  pub bytes : List ℕ

-- The chunks as they are sent, with what follows them.
abbrev pub encoded : List Chunk → List ℕ → List ℕ
encoded [] rest = rest
encoded (c ∷ chunks) rest = c.line ++ (b'\n' ∷ (c.bytes ++ (b'\r' ∷ (b'\n' ∷ encoded chunks rest))))

-- The lines behind the last chunk, and the empty one at their end.
abbrev pub trailer : List (List ℕ) → List ℕ → List ℕ
trailer [] rest = b'\r' ∷ b'\n' ∷ rest
trailer (l ∷ lines) rest = l ++ (b'\n' ∷ trailer lines rest)

abbrev pub contents : List Chunk → List ℕ
contents [] = []
contents (c ∷ chunks) = c.bytes ++ contents chunks

-- A line that is not empty.
abbrev pub IsLine : List ℕ → Type 0
IsLine l = All (λ c. c ≢ b'\n') l × (is_empty (trim l) ≡ false)

-- A line with a size.
abbrev pub Sizes : List ℕ → ℕ → Type 0
Sizes line n = IsLine line × ((old : ℕ) → from_chars 16 old line ≡ n)

abbrev pub IsChunk : Chunk → Type 0
IsChunk c = Sizes c.line (length c.bytes) × (c.bytes ≢ [])

abbrev pub good : List ℕ → Stream
good rest = record { rest = rest; eof = false; fail = false }

getline_from-line :
    (front line rest : List ℕ)
    → All (λ c. c ≢ b'\n') line
    → getline_from front (line ++ (b'\n' ∷ rest)) ≡ (ok (front ++ line), good rest)
unfolding getline_from
getline_from-line front [] rest no_end = ap (λ l. (ok l, good rest)) (sym (append-nil front))
getline_from-line front (c ∷ line) rest (not_end, no_end) =
    let test : (c == b'\n') ≡ false = ground arith in
    ap
      (λ (b : Bool).
        if b
        then (ok front, good (line ++ (b'\n' ∷ rest)))
        else getline_from (front ++ (c ∷ [])) (line ++ (b'\n' ∷ rest)))
      test
    ∙ getline_from-line (front ++ (c ∷ [])) line rest no_end
    ∙ ap (λ l. (ok l, good rest)) (append_assoc front (c ∷ []) line)

-- A line of a stream.
pub getline_expected-line :
    (line rest : List ℕ)
    → All (λ c. c ≢ b'\n') line
    → getline_expected (good (line ++ (b'\n' ∷ rest))) ≡ (ok line, good rest)
unfolding getline_expected
getline_expected-line line rest no_end = getline_from-line [] line rest no_end

pub length-encoded :
    (chunks : List Chunk) (rest : List ℕ)
    → 2 * length chunks + length rest ≤ length (encoded chunks rest)
length-encoded [] rest = omega arith
length-encoded (c ∷ chunks) rest = omega (
  arith,
  length-encoded chunks rest,
  length-append c.line (b'\n' ∷ (c.bytes ++ (b'\r' ∷ (b'\n' ∷ encoded chunks rest)))),
  length-append c.bytes (b'\r' ∷ (b'\n' ∷ encoded chunks rest)),
)

pub length-trailer : (lines : List (List ℕ)) → length lines + 2 ≤ length (trailer lines [])
length-trailer [] = omega arith
length-trailer (l ∷ lines) =
    omega (arith, length-trailer lines, length-append l (b'\n' ∷ trailer lines []))
