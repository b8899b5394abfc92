-- ===== src/Http/Fields/Views.antt =====
-- http/HttpFields.hpp and http/HttpFields.cpp: what is made of a field table: the names, the fields with
-- several values, the fields by kind, and the table as JSON. A `std::set` is a list of its elements.
use medici.Prelude.{
  ℕ, ◌+◌, ◌≡◌, refl, inl, inr, Bool, true, false, ◌&&◌, ltb, if◌then◌else◌, List, [], ◌∷◌, ◌++◌,
  Option, none, some, length, Bool-cases, arith,
}
use medici.Http.{codes, same_text}
use medici.Http.Url.{FieldValueMap}
use medici.Http.Fields.{contains}
use medici.Http.Fields.Counts.{has_files}

-- `std::multimap::count`.
unfoldable pub count_of : List ℕ → FieldValueMap → ℕ
count_of name [] = 0
count_of name ((n, e) ∷ m) = (if same_text name n then 1 else 0) + count_of name m

unfoldable pub get_field_names : FieldValueMap → List (List ℕ)
unfolding contains
get_field_names [] = []
get_field_names ((n, e) ∷ m) =
    let rest = get_field_names m in if contains n m then rest else n ∷ rest

unfoldable pub is_array_field : List ℕ → FieldValueMap → Bool
unfolding count_of
is_array_field name m = ltb 1 (count_of name m)

abbrev pub select_arrays : FieldValueMap → List (List ℕ) → List (List ℕ)
select_arrays m [] = []
select_arrays m (n ∷ ns) =
    let rest = select_arrays m ns in if is_array_field n m then n ∷ rest else rest

unfoldable pub get_array_fields : FieldValueMap → List (List ℕ)
unfolding get_field_names is_array_field
get_array_fields m = select_arrays m (get_field_names m)

-- `segregateMultipartFields`: the form fields and the file paths.
unfoldable pub segregate_multipart_fields : FieldValueMap → FieldValueMap × FieldValueMap
segregate_multipart_fields [] = ([], [])
segregate_multipart_fields ((n, e) ∷ m) =
    let (form, files) = segregate_multipart_fields m in
    if e.is_file_path then (form, (n, e) ∷ files) else ((n, e) ∷ form, files)

-- `encodeMember`: the stream, the member, its content, and whether an array starts.
unfoldable pub encode_member : List ℕ → List ℕ → List ℕ → Bool → List ℕ
encode_member out member content start_array =
    (if ltb 1 (length out) then out ++ codes "," else out)
    ++ b'"' ∷ member
    ++ codes "\":"
    ++ (if start_array then codes "[" else [])
    ++ b'"' ∷ content
    ++ codes "\""

abbrev pub is_active : List ℕ → Option (List ℕ) → Bool
is_active name none = false
is_active name (some n) = same_text name n

-- The end of the array that is open, if one is.
abbrev pub close_array : List ℕ → Option (List ℕ) → List ℕ
close_array out none = out
close_array out (some n) = out ++ codes "]"

-- The loop of `encodeAsJSON` over the rest of the table `all`; the third argument is the array field whose
-- values are being written.
unfoldable pub encode_json_from : FieldValueMap → List ℕ → Option (List ℕ) → FieldValueMap → List ℕ
unfolding is_array_field encode_member same_text
encode_json_from all out active [] = close_array out active ++ codes "}\n"
encode_json_from all out active ((n, e) ∷ m) = elim (is_array_field n all) [
  | true ↦ elim (is_active n active) [
    | true ↦ encode_json_from all (out ++ codes ",\"" ++ e.value ++ codes "\"") active m
    | false ↦
        encode_json_from all (encode_member (close_array out active) n e.value true) (some n) m
  ]
  | false ↦ encode_json_from all (encode_member (close_array out active) n e.value false) none m
]

unfoldable pub encode_as_json : FieldValueMap → List ℕ
unfolding encode_json_from
encode_as_json m = encode_json_from m (codes "{") none m

unfoldable pub only_files : FieldValueMap → Bool
only_files [] = true
only_files ((n, e) ∷ m) = e.is_file_path && only_files m

-- The form fields and the file paths are all of the fields: of each name there are as many in the two
-- together as in the table, no form field is a file path, and every other field is one.
pub segregate-count_of :
    (name : List ℕ) (m : FieldValueMap)
    → let (form, files) = segregate_multipart_fields m in
      (count_of name form + count_of name files ≡ count_of name m)
      × (has_files form ≡ false)
      × (only_files files ≡ true)
unfolding segregate_multipart_fields has_files count_of only_files
segregate-count_of name [] = (omega arith, refl, refl)
segregate-count_of name ((n, e) ∷ m) =
    let (count, form, files) = segregate-count_of name m in
    elim (Bool-cases e.is_file_path) [
      | inl file ↦
          (ground (arith, count, file), ground (arith, form, file), ground (arith, files, file))
      | inr text ↦
          (ground (arith, count, text), ground (arith, form, text), ground (arith, files, text))
    ]
