-- ===== src/HttpEndpoint/Line.antt =====
-- sockets/live/HTTPLiveEndpoint.hpp: the words of a request line.
use medici.Prelude.{
  ℕ, ◌≡◌, refl, ap, ◌∙◌, arith, Bool, true, false, if◌then◌else◌, List, [], ◌∷◌, ◌++◌, some, All,
}
use medici.Http.{codes}
use medici.Http.Action.{
  HttpAction, show_action, get, post, put, delete, patch, head, options, trace, connect,
}
use medici.HttpEndpoint.{
  HttpError, HttpState, Stream, is_empty, take_word, skip_spaces, read_word, getline, is_space,
}
use medici.HttpEndpoint.Parse.{action_of, has_full_header_line}
use medici.HttpEndpoint.Encoding.{good}
use medici.HttpEndpoint.Request.{Field, field_lines}

-- A text that is not empty and has no space.
abbrev pub IsWord : List ℕ → Type 0
IsWord w = All (λ c. is_space c ≡ false) w × (is_empty w ≡ false)

abbrev pub request_text : HttpAction → List ℕ → List Field → List ℕ → List ℕ
request_text action uri fields body =
    codes (show_action action)
    ++ (b' ' ∷ (uri ++ (b' ' ∷ (codes "HTTP/1.1" ++ (b'\r' ∷ b'\n' ∷ field_lines fields body)))))

take_word-word :
    (w rest : List ℕ)
    → All (λ c. is_space c ≡ false) w
    → take_word (w ++ (b' ' ∷ rest)) ≡ (w, b' ' ∷ rest)
unfolding take_word
take_word-word [] rest p = refl
take_word-word (c ∷ w) rest (p, ps) =
    ap
      (λ (b : Bool).
        if b
        then ([], c ∷ (w ++ (b' ' ∷ rest)))
        else (c ∷ (take_word (w ++ (b' ' ∷ rest))).0, (take_word (w ++ (b' ' ∷ rest))).1))
      p
    ∙ ap (λ (r : List ℕ × List ℕ). (c ∷ r.0, r.1)) (take_word-word w rest ps)

skip_spaces-word : (w rest : List ℕ) → IsWord w → skip_spaces (w ++ rest) ≡ w ++ rest
unfolding skip_spaces
skip_spaces-word [] rest (p, filled) = absurd (cc)
skip_spaces-word (c ∷ w) rest ((p, ps), filled) =
    ap (λ (b : Bool). if b then skip_spaces (w ++ rest) else c ∷ (w ++ rest)) p

abbrev word_of : List ℕ × List ℕ → List ℕ × Stream
word_of (word, rest) = (word, record { rest = rest; eof = is_empty rest; fail = is_empty word })

pub read_word-word :
    (w rest : List ℕ) → IsWord w → read_word (good (w ++ (b' ' ∷ rest))) ≡ (w, good (b' ' ∷ rest))
unfolding read_word
read_word-word w rest (p, filled) =
    ap (λ l. word_of (take_word l)) (skip_spaces-word w (b' ' ∷ rest) (p, filled))
    ∙ ap (λ r. word_of r) (take_word-word w rest p)
    ∙ ap (λ (b : Bool). (w, record { rest = b' ' ∷ rest; eof = false; fail = b })) filled

-- A word behind a space.
pub read_word-spaced :
    (w rest : List ℕ)
    → IsWord w
    → read_word (good (b' ' ∷ (w ++ (b' ' ∷ rest)))) ≡ (w, good (b' ' ∷ rest))
unfolding read_word skip_spaces
read_word-spaced w rest (p, filled) =
    ap (λ l. word_of (take_word l)) (skip_spaces-word w (b' ' ∷ rest) (p, filled))
    ∙ ap (λ r. word_of r) (take_word-word w rest p)
    ∙ ap (λ (b : Bool). (w, record { rest = b' ' ∷ rest; eof = false; fail = b })) filled

-- The end of a request line.
pub getline-version :
    (rest : List ℕ)
    → getline (good (b' ' ∷ (codes "HTTP/1.1" ++ (b'\r' ∷ b'\n' ∷ rest))))
      ≡ (b' ' ∷ (codes "HTTP/1.1" ++ (b'\r' ∷ [])), good rest)
unfolding getline medici.HttpEndpoint.getline_expected medici.HttpEndpoint.getline_from
getline-version rest = refl

pub method-IsWord :
    (a : HttpAction) → IsWord (codes (show_action a)) × (action_of (codes (show_action a)) ≡ some a)
unfolding action_of show_action
method-IsWord get = (((refl, (refl, (refl, tt))), refl), refl)
method-IsWord post = (((refl, (refl, (refl, (refl, tt)))), refl), refl)
method-IsWord put = (((refl, (refl, (refl, tt))), refl), refl)
method-IsWord delete = (((refl, (refl, (refl, (refl, (refl, (refl, tt)))))), refl), refl)
method-IsWord patch = (((refl, (refl, (refl, (refl, (refl, tt))))), refl), refl)
method-IsWord head = (((refl, (refl, (refl, (refl, tt)))), refl), refl)
method-IsWord options = (((refl, (refl, (refl, (refl, (refl, (refl, (refl, tt))))))), refl), refl)
method-IsWord trace = (((refl, (refl, (refl, (refl, (refl, tt))))), refl), refl)
method-IsWord connect = (((refl, (refl, (refl, (refl, (refl, (refl, (refl, tt))))))), refl), refl)

has_full_header_line-append :
    (xs ys : List ℕ) → has_full_header_line ys ≡ true → has_full_header_line (xs ++ ys) ≡ true
unfolding has_full_header_line
has_full_header_line-append [] ys full = full
has_full_header_line-append (x ∷ []) [] full = absurd (cc)
has_full_header_line-append (x ∷ []) (y ∷ ys) full = ground (arith, full)
has_full_header_line-append (x ∷ y ∷ xs) ys full =
    ground (arith, has_full_header_line-append (y ∷ xs) ys full)

pub request_text-full :
    (action : HttpAction) (uri : List ℕ) (fields : List Field) (body : List ℕ)
    → has_full_header_line (request_text action uri fields body) ≡ true
unfolding has_full_header_line
request_text-full action uri fields body =
    has_full_header_line-append (codes (show_action action))
      (b' ' ∷ (uri ++ (b' ' ∷ (codes "HTTP/1.1" ++ (b'\r' ∷ b'\n' ∷ field_lines fields body)))))
      (has_full_header_line-append (b' ' ∷ uri)
        (b' ' ∷ (codes "HTTP/1.1" ++ (b'\r' ∷ b'\n' ∷ field_lines fields body))) refl)
