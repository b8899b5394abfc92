-- ===== src/HttpEndpoint/Chunked.antt =====
-- sockets/live/HTTPLiveEndpoint.hpp: a body in chunks, in one read.
use medici.Prelude.{
  ℕ, zero, suc, ◌+◌, ◌*◌, ◌<◌, ◌≤◌, ◌≡◌, ◌≢◌, refl, ap, ap₂, sym, ◌∙◌, arith, Bool, true, false,
  ltb, if◌then◌else◌, List, [], ◌∷◌, ◌++◌, none, some, Result, ok, err, Expected, length, take,
  drop, All, append_assoc, append-nil, take-append, drop-append, length-append,
}
use native.Mathlib.Numerals.{add-one}
use medici.HttpEndpoint.{
  HttpError, HttpState, Stream, reading_chunks, getline_from, getline_expected, trim, from_chars,
  is_empty,
}
use medici.HttpEndpoint.Parse.{handle_loop, on_payload_ready, go_on}
use medici.HttpEndpoint.Content.{loop_end, dispatch_body}
use medici.HttpEndpoint.Body.{
  header, after_message, Handlers, dispatch_payload, read_trailer, read_chunks, put_stream,
  chunk_at, chunk_part, end_chunks, with_stream, prepend_partial_content,
}
use medici.HttpEndpoint.Encoding.{
  Chunk, encoded, trailer, contents, IsLine, Sizes, IsChunk, good, getline_expected-line,
  length-encoded, length-trailer,
}

-- The state in the middle of a message in chunks.
abbrev pub chunking : HttpState → List ℕ → HttpState
chunking st front = record st {
  state = reading_chunks;
  http_body = front;
  chunked_body = [];
  chunk_size = none;
  prepended = [];
}

module _ {S : Type 0} (handlers : Handlers S) where
  abbrev trailer_line :
      ℕ
      → HttpState
      → S
      → Result (List ℕ) (List ℕ) × Stream
      → Expected HttpError × HttpState × Stream × S
  trailer_line fuel st s r = elim r.0 [
    | err partial ↦ with_stream (prepend_partial_content partial st) r.1 s
    | ok line ↦ elim (is_empty (trim line)) [
      | true ↦ put_stream r.1 (dispatch_payload handlers (end_chunks st) s)
      | false ↦ read_trailer handlers fuel st r.1 s
    ]
  ]

  trailer_round :
      (fuel : ℕ) (line rest : List ℕ) (st : HttpState) (s : S)
      → IsLine line
      → read_trailer handlers (suc fuel) st (good (line ++ (b'\n' ∷ rest))) s
        ≡ read_trailer handlers fuel st (good rest) s
  unfolding read_trailer
  trailer_round fuel line rest st s (no_end, filled) =
      ap (λ r. trailer_line fuel st s r) (getline_expected-line line rest no_end)
      ∙ ap
          (λ (b : Bool). elim b as (λ x. Expected HttpError × HttpState × Stream × S) [
            | true ↦ put_stream (good rest) (dispatch_payload handlers (end_chunks st) s)
            | false ↦ read_trailer handlers fuel st (good rest) s
          ])
          filled

  trailer_end :
      (fuel : ℕ) (rest : List ℕ) (st : HttpState) (s : S)
      → read_trailer handlers (suc fuel) st (good (b'\r' ∷ b'\n' ∷ rest)) s
        ≡ put_stream (good rest) (dispatch_payload handlers (end_chunks st) s)
  unfolding read_trailer getline_expected getline_from trim
  trailer_end fuel rest st s = refl

  read_trailer-trailer :
      (lines : List (List ℕ)) (fuel : ℕ) (rest : List ℕ) (st : HttpState) (s : S)
      → All IsLine lines
      → length lines < fuel
      → read_trailer handlers fuel st (good (trailer lines rest)) s
        ≡ put_stream (good rest) (dispatch_payload handlers (end_chunks st) s)
  read_trailer-trailer lines zero rest st s are_lines enough = absurd (omega arith)
  read_trailer-trailer [] (suc fuel) rest st s are_lines enough = trailer_end fuel rest st s
  read_trailer-trailer (l ∷ lines) (suc fuel) rest st s (is_line, are_lines) enough =
      trailer_round fuel l (trailer lines rest) st s is_line
      ∙ read_trailer-trailer lines fuel rest st s are_lines (omega arith)

  abbrev line_or_size :
      ℕ → HttpState → List ℕ → Stream → S → Bool → Expected HttpError × HttpState × Stream × S
  line_or_size fuel st line stream s b = elim b [
    | true ↦ read_chunks handlers fuel st stream s
    | false ↦
        let n = from_chars 16 (handlers.uninitialized s) line in
        chunk_at handlers (read_chunks handlers fuel) fuel n (record st { chunk_size = some n })
          stream s
  ]

  abbrev chunk_line :
      ℕ
      → HttpState
      → S
      → Result (List ℕ) (List ℕ) × Stream
      → Expected HttpError × HttpState × Stream × S
  chunk_line fuel st s r = elim r.0 [
    | err partial ↦ with_stream (prepend_partial_content partial st) r.1 s
    | ok line ↦ line_or_size fuel st line r.1 s (is_empty (trim line))
  ]

  size_round :
      (fuel n : ℕ) (line rest front : List ℕ) (st : HttpState) (s : S)
      → Sizes line n
      → read_chunks handlers (suc fuel) (chunking st front) (good (line ++ (b'\n' ∷ rest))) s
        ≡ chunk_at handlers
            (read_chunks handlers fuel)
            fuel
            n
            (record (chunking st front) { chunk_size = some n })
            (good rest)
            s
  unfolding read_chunks
  size_round fuel n line rest front st s ((no_end, filled), size) =
      ap (λ r. chunk_line fuel (chunking st front) s r) (getline_expected-line line rest no_end)
      ∙ ap (λ (b : Bool). line_or_size fuel (chunking st front) line (good rest) s b) filled
      ∙ ap
          (λ (k : ℕ).
            chunk_at handlers (read_chunks handlers fuel) fuel k
              (record (chunking st front) { chunk_size = some k }) (good rest) s)
          (size (handlers.uninitialized s))

  -- The end of the line behind the bytes of a chunk.
  blank_round :
      (fuel : ℕ) (rest front : List ℕ) (st : HttpState) (s : S)
      → read_chunks handlers (suc fuel) (chunking st front) (good (b'\r' ∷ b'\n' ∷ rest)) s
        ≡ read_chunks handlers fuel (chunking st front) (good rest) s
  unfolding read_chunks getline_expected getline_from trim
  blank_round fuel rest front st s = refl

  bytes_round :
      (fuel : ℕ) (bytes rest front : List ℕ) (st : HttpState) (s : S)
      → bytes ≢ []
      → chunk_at handlers
          (read_chunks handlers fuel)
          fuel
          (length bytes)
          (record (chunking st front) { chunk_size = some (length bytes) })
          (good (bytes ++ rest))
          s
        ≡ read_chunks handlers fuel (chunking st (front ++ bytes)) (good rest) s
  bytes_round fuel [] rest front st s filled = absurd (filled refl)
  bytes_round fuel (x ∷ bytes) rest front st s filled =
      let test : ltb (length ((x ∷ bytes) ++ rest)) (length (x ∷ bytes)) ≡ false =
        ground (arith, length-append (x ∷ bytes) rest) in
      ap
        (λ (b : Bool).
          if b
          then (
            ok tt,
            (chunk_part (length (x ∷ bytes))
                (record (chunking st front) { chunk_size = some (length (x ∷ bytes)) })
                (good ((x ∷ bytes) ++ rest))).0,
            (chunk_part (length (x ∷ bytes))
                (record (chunking st front) { chunk_size = some (length (x ∷ bytes)) })
                (good ((x ∷ bytes) ++ rest))).1,
            s,
          )
          else read_chunks handlers fuel
              (chunking st (front ++ take (length (x ∷ bytes)) ((x ∷ bytes) ++ rest)))
              (good (drop (length (x ∷ bytes)) ((x ∷ bytes) ++ rest))) s)
        test
      ∙ ap₂ (λ (b r : List ℕ). read_chunks handlers fuel (chunking st (front ++ b)) (good r) s)
          (take-append (x ∷ bytes) rest) (drop-append (x ∷ bytes) rest)

  -- The chunks, the last line with a size and the lines behind it.
  read_chunks-encoded :
      (chunks : List Chunk) (end : List ℕ) (lines : List (List ℕ)) (fuel : ℕ) (front rest : List ℕ)
      (st : HttpState) (s : S)
      → All IsChunk chunks
      → Sizes end 0
      → All IsLine lines
      → 2 * length chunks + length lines + 1 < fuel
      → read_chunks handlers fuel
          (chunking st front)
          (good (encoded chunks (end ++ (b'\n' ∷ trailer lines rest))))
          s
        ≡ put_stream
            (good rest)
            (dispatch_payload handlers (end_chunks (chunking st (front ++ contents chunks))) s)
  read_chunks-encoded [] end lines zero front rest st s are_chunks ends are_lines enough =
      absurd (omega arith)
  read_chunks-encoded [] end lines (suc fuel) front rest st s are_chunks ends are_lines enough =
      size_round fuel 0 end (trailer lines rest) front st s ends
      ∙ read_trailer-trailer lines fuel rest (record (chunking st front) { chunk_size = some 0 }) s
          are_lines (omega arith)
      ∙ ap
          (λ (l : List ℕ).
            put_stream (good rest) (dispatch_payload handlers (end_chunks (chunking st l)) s))
          (sym (append-nil front))
  read_chunks-encoded (c ∷ chunks) end lines zero front rest st s are_chunks ends are_lines enough =
      absurd (omega arith)
  read_chunks-encoded (c ∷ chunks) end lines (suc zero) front rest st s are_chunks ends are_lines
        enough =
      absurd (omega arith)
  read_chunks-encoded (c ∷ chunks) end lines (suc (suc fuel)) front rest st s
        ((sizes, filled), are_chunks) ends are_lines enough =
      let next = encoded chunks (end ++ (b'\n' ∷ trailer lines rest)) in
      size_round (suc fuel) (length c.bytes) c.line (c.bytes ++ (b'\r' ∷ b'\n' ∷ next)) front st s
        sizes
      ∙ bytes_round (suc fuel) c.bytes (b'\r' ∷ b'\n' ∷ next) front st s filled
      ∙ blank_round fuel next (front ++ c.bytes) st s
      ∙ read_chunks-encoded chunks end lines fuel (front ++ c.bytes) rest st s are_chunks ends
          are_lines (omega arith)
      ∙ ap
          (λ (l : List ℕ).
            put_stream (good rest) (dispatch_payload handlers (end_chunks (chunking st l)) s))
          (append_assoc front c.bytes (contents chunks))

  -- A read that the chunks end with.
  read_whole :
      (payload front : List ℕ) (st : HttpState) (s : S) (z : Expected HttpError × HttpState × S)
      → payload ≢ []
      → ((fuel : ℕ)
          → length payload < fuel
          → read_chunks handlers fuel (chunking st front) (good payload) s ≡ put_stream (good []) z)
      → on_payload_ready handlers payload (chunking st front) s ≡ z
  unfolding on_payload_ready
  read_whole [] front st s z filled whole = absurd (filled refl)
  read_whole (x ∷ c) front st s z filled whole =
      ap (λ (k : ℕ). handle_loop handlers k (chunking st front) (good (x ∷ c)) s)
        (add-one (suc (length c)))
      ∙ ap (λ r. go_on handlers (handle_loop handlers (suc (length c))) (some (suc (length c))) r)
          (whole (length c + 3) (omega arith))
      ∙ loop_end handlers (length c) z (length c)

  -- A message in chunks that is read at once, without an encoding: the application is handed the bytes of
  -- the chunks in their order, behind what was read before, once and with the headers of the message, and
  -- the read returns what it returns. The text behind a size, and the lines behind the last chunk, are
  -- ignored. A line with a size may be any that `from_chars` reads the size from.
  pub on_payload_ready-encoded :
      (chunks : List Chunk) (end : List ℕ) (lines : List (List ℕ)) (front : List ℕ) (st : HttpState)
      (s : S)
      → All IsChunk chunks
      → Sizes end 0
      → All IsLine lines
      → header st "Content-Encoding" ≡ none
      → on_payload_ready handlers
          (encoded chunks (end ++ (b'\n' ∷ trailer lines [])))
          (chunking st front)
          s
        ≡ handlers.payload_handler st.active_headers
            (front ++ contents chunks)
            (after_message (end_chunks (chunking st (front ++ contents chunks))))
            (handlers.close_compression s)
  on_payload_ready-encoded chunks end lines front st s are_chunks ends are_lines plain =
      let enough : 2 * length chunks + length lines + 1
          ≤ length (encoded chunks (end ++ (b'\n' ∷ trailer lines []))) =
        omega (
          arith,
          length-encoded chunks (end ++ (b'\n' ∷ trailer lines [])),
          length-append end (b'\n' ∷ trailer lines []),
          length-trailer lines,
        ) in
      read_whole (encoded chunks (end ++ (b'\n' ∷ trailer lines []))) front st s
        (dispatch_payload handlers (end_chunks (chunking st (front ++ contents chunks))) s)
        (λ e. omega (arith, enough, ap length e))
        (λ fuel more.
          read_chunks-encoded chunks end lines fuel front [] st s are_chunks ends are_lines
            (omega (arith, enough, more)))
      ∙ dispatch_body handlers (end_chunks (chunking st (front ++ contents chunks))) s plain
