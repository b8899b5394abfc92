-- ===== src/Http/Headers/Laws.antt =====
-- http/FieldContentUtils.cpp: when a header cannot be made.
use medici.Prelude.{
  ℕ, ◌++◌, ◌≡◌, refl, ap, ◌∙◌, Bool, true, false, List, [], ◌∷◌, Result, ok, err, arith, inl, inr,
  Bool-cases,
}
use medici.Http.Url.{FieldValueEntry, FieldValueMap}
use medici.Http.Fields.Counts.{has_files}
use medici.Http.Headers.{HeaderError, load_header_values, value_start}

load_next :
    (out active_name n : List ℕ) (e : FieldValueEntry) (m : FieldValueMap)
    → e.is_file_path ≡ false
    → load_header_values out active_name ((n, e) ∷ m)
      ≡ load_header_values (out ++ value_start n active_name ++ e.value) n m
unfolding load_header_values
load_next out active_name n e m h = rw (load_header_values, h)

-- Whether a result is the error.
abbrev pub refused : Result HeaderError (List ℕ) → Bool
refused (ok out) = false
refused (err e) = true

-- Values are put into a header unless one of them, wherever it stands, is a file path.
pub load_header_values-refused :
    (out active_name : List ℕ) (m : FieldValueMap)
    → refused (load_header_values out active_name m) ≡ has_files m
unfolding load_header_values has_files
load_header_values-refused out active_name [] = refl
load_header_values-refused out active_name ((n, e) ∷ m) = elim (Bool-cases e.is_file_path) [
  | inl file ↦ ground (arith, file)
  | inr text ↦
      ap refused (load_next out active_name n e m text)
      ∙ load_header_values-refused (out ++ value_start n active_name ++ e.value) n m
      ∙ ground (arith, text)
]
