-- ===== src/HttpEndpoint/Request.antt =====
-- sockets/live/HTTPLiveEndpoint.hpp: a request with its headers and its content, in one read.
use medici.Prelude.{
  ℕ, zero, suc, ◌+◌, ◌≤◌, ◌≡◌, ◌≢◌, refl, ap, ap₂, ◌∙◌, arith, Bool, true, false, ◌==◌,
  if◌then◌else◌, List, [], ◌∷◌, ◌++◌, Option, none, some, Result, ok, err, Expected, length, All,
  length-append,
}
use medici.Http.Fields.{HttpFields, add_field_value}
use medici.HttpEndpoint.{HttpError, HttpState, Stream, reading_headers, trim, is_empty}
use medici.HttpEndpoint.Body.{Handlers, header, encoding_of, with_stream, prepend_partial_content}
use medici.HttpEndpoint.Parse.{split_colon, begin_body, read_header_lines}
use medici.HttpEndpoint.Encoding.{good, getline_expected-line}

abbrev pub Field : Type 0
Field = List ℕ × List ℕ

abbrev pub field_line : Field → List ℕ
field_line (name, value) = name ++ (b':' ∷ b' ' ∷ (value ++ (b'\r' ∷ [])))

-- The headers, the empty line behind them and what follows.
abbrev pub field_lines : List Field → List ℕ → List ℕ
field_lines [] rest = b'\r' ∷ b'\n' ∷ rest
field_lines (f ∷ fields) rest = field_line f ++ (b'\n' ∷ field_lines fields rest)

-- The table with the headers.
abbrev pub added : HttpFields → List Field → HttpFields
added h [] = h
added h (f ∷ fields) = added (add_field_value h f.0 f.1 false) fields

-- A name and a value that can stand in a line, without spaces around them.
abbrev pub IsField : Field → Type 0
IsField f =
    All (λ c. (c ≢ b':') × (c ≢ b'\n')) f.0
    × (All (λ c. c ≢ b'\n') f.1 × ((trim f.0 ≡ f.0) × (trim (b' ' ∷ (f.1 ++ (b'\r' ∷ []))) ≡ f.1)))

All-append : (P : ℕ → Type 0) (xs ys : List ℕ) → All P xs → All P ys → All P (xs ++ ys)
All-append P [] ys p q = q
All-append P (x ∷ xs) ys (p, ps) q = (p, All-append P xs ys ps q)

no_ends : (name : List ℕ) → All (λ c. (c ≢ b':') × (c ≢ b'\n')) name → All (λ c. c ≢ b'\n') name
no_ends [] p = tt
no_ends (c ∷ name) ((p, q), ps) = (q, no_ends name ps)

split_colon-name :
    (name value : List ℕ)
    → All (λ c. (c ≢ b':') × (c ≢ b'\n')) name
    → split_colon (name ++ (b':' ∷ value)) ≡ some (name, value)
unfolding split_colon
split_colon-name [] value p = refl
split_colon-name (c ∷ name) value ((p, q), ps) =
    let test : (c == b':') ≡ false = ground arith in
    ap
      (λ (b : Bool).
        if b
        then some ([], name ++ (b':' ∷ value))
        else elim (split_colon (name ++ (b':' ∷ value))) as (λ x. Option (List ℕ × List ℕ)) [
          | none ↦ none
          | some (key, v) ↦ some (c ∷ key, v)
        ])
      test
    ∙ ap
        (λ r. elim r as (λ x. Option (List ℕ × List ℕ)) [
          | none ↦ none
          | some (key, v) ↦ some (c ∷ key, v)
        ])
        (split_colon-name name value ps)

field_line-no_end : (f : Field) → IsField f → All (λ c. c ≢ b'\n') (field_line f)
field_line-no_end f (name, (value, trimmed)) =
    All-append (λ c. c ≢ b'\n') f.0 (b':' ∷ b' ' ∷ (f.1 ++ (b'\r' ∷ []))) (no_ends f.0 name)
      (
        (λ e. omega arith),
        (
          (λ e. omega arith),
          All-append (λ c. c ≢ b'\n') f.1 (b'\r' ∷ []) value ((λ e. omega arith), tt),
        ),
      )

module _ {S : Type 0} (handlers : Handlers S) where
  abbrev keyed :
      ℕ
      → HttpState
      → Stream
      → S
      → List ℕ
      → Option (List ℕ × List ℕ)
      → Expected HttpError × HttpState × Stream × S
  keyed fuel st stream s line r = elim r [
    | some (key, value) ↦
        let st1 = record st {
          active_headers = add_field_value st.active_headers (trim key) (trim value) false;
        } in
        elim stream.eof [
          | true ↦ (ok tt, st1, stream, s)
          | false ↦ read_header_lines handlers fuel st1 stream s
        ]
    | none ↦ elim (is_empty (trim line)) [
      | true ↦ begin_body handlers fuel (encoding_of (header st "Content-Encoding")) st stream s
      | false ↦ read_header_lines handlers fuel st stream s
    ]
  ]

  abbrev head_line :
      ℕ
      → HttpState
      → S
      → Result (List ℕ) (List ℕ) × Stream
      → Expected HttpError × HttpState × Stream × S
  head_line fuel st s r = elim r.0 [
    | err partial ↦
        with_stream (prepend_partial_content partial (record st { state = reading_headers })) r.1 s
    | ok line ↦ keyed fuel st r.1 s line (split_colon line)
  ]

  field_round :
      (fuel : ℕ) (f : Field) (rest : List ℕ) (st : HttpState) (s : S)
      → IsField f
      → read_header_lines handlers (suc fuel) st (good (field_line f ++ (b'\n' ∷ rest))) s
        ≡ read_header_lines handlers fuel
            (record st { active_headers = add_field_value st.active_headers f.0 f.1 false })
            (good rest)
            s
  unfolding read_header_lines
  field_round fuel f rest st s p =
      ap (λ r. head_line fuel st s r)
        (getline_expected-line (field_line f) rest (field_line-no_end f p))
      ∙ ap (λ r. keyed fuel st (good rest) s (field_line f) r)
          (split_colon-name f.0 (b' ' ∷ (f.1 ++ (b'\r' ∷ []))) p.0)
      ∙ ap₂
          (λ (name value : List ℕ).
            read_header_lines handlers fuel
              (record st { active_headers = add_field_value st.active_headers name value false })
              (good rest) s)
          p.1.1.0 p.1.1.1

  head_end :
      (fuel : ℕ) (rest : List ℕ) (st : HttpState) (s : S)
      → read_header_lines handlers (suc fuel) st (good (b'\r' ∷ b'\n' ∷ rest)) s
        ≡ begin_body handlers fuel (encoding_of (header st "Content-Encoding")) st (good rest) s
  unfolding read_header_lines medici.HttpEndpoint.getline_expected medici.HttpEndpoint.getline_from
      trim split_colon
  head_end fuel rest st s = refl

  -- The headers of a message, up to its body.
  pub read_header_lines-fields :
      (fields : List Field) (fuel left : ℕ) (rest : List ℕ) (st : HttpState) (s : S)
      → All IsField fields
      → fuel ≡ length fields + suc left
      → read_header_lines handlers fuel st (good (field_lines fields rest)) s
        ≡ begin_body handlers left
            (encoding_of (
              header
                (record st { active_headers = added st.active_headers fields })
                "Content-Encoding"))
            (record st { active_headers = added st.active_headers fields })
            (good rest)
            s
  read_header_lines-fields [] fuel left rest st s are_fields enough =
      let same : fuel ≡ suc left = omega (arith, enough) in
      ap (λ (k : ℕ). read_header_lines handlers k st (good (b'\r' ∷ b'\n' ∷ rest)) s) same
      ∙ head_end left rest st s
  read_header_lines-fields (f ∷ fields) zero left rest st s are_fields enough =
      absurd (omega (arith, enough))
  read_header_lines-fields (f ∷ fields) (suc fuel) left rest st s (is_field, are_fields) enough =
      field_round fuel f (field_lines fields rest) st s is_field
      ∙ read_header_lines-fields fields fuel left rest
          (record st { active_headers = add_field_value st.active_headers f.0 f.1 false }) s
          are_fields (omega (arith, enough))

pub length-field_lines :
    (fields : List Field) (rest : List ℕ) → length fields ≤ length (field_lines fields rest)
length-field_lines [] rest = omega arith
length-field_lines (f ∷ fields) rest = omega (
  arith,
  length-field_lines fields rest,
  length-append (field_line f) (b'\n' ∷ field_lines fields rest),
)
