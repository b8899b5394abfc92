-- ===== src/Http/Fields.antt =====
-- http/HttpFields.hpp and http/HttpFields.cpp: the table of the fields of a header or a form. `find` of a
-- `std::multimap` gives the first of the entries with a name.
pub mod Counts
pub mod Insert
pub mod Views
use medici.Prelude.{
  ℕ, ◌+◌, ◌%◌, ◌^◌, Bool, true, false, ◌||◌, not, if◌then◌else◌, List, [], ◌∷◌, map, Option, none,
  some, Result, Expected, ok, err,
}
use medici.Http.{same_text}
use medici.Http.Url.{FieldValueEntry, FieldValueMap, insert_field, parse_url_encoding_to_fields}

pub record HttpFields : Type 0 where
  pub case_transform : ℕ → ℕ
  pub field_value_map : FieldValueMap
  pub field_count : ℕ
  pub has_array_fields : Bool
  pub has_file_path_fields : Bool

-- The error of a field that is not in the table, with its name.
pub data FieldError : Type 0 where
  unknown_field : List ℕ → FieldError

unfoldable pub contains : List ℕ → FieldValueMap → Bool
contains name [] = false
contains name ((n, e) ∷ m) = same_text name n || contains name m

-- The entries from the first one with the name on.
unfoldable pub find : List ℕ → FieldValueMap → FieldValueMap
find name [] = []
find name ((n, e) ∷ m) = if same_text name n then (n, e) ∷ m else find name m

unfoldable pub has_field : HttpFields → List ℕ → Bool
unfolding contains
has_field h name = contains (map h.case_transform name) h.field_value_map

unfoldable pub add_field_value : HttpFields → List ℕ → List ℕ → Bool → HttpFields
unfolding contains
add_field_value h name value is_file_path =
    let field_name = map h.case_transform name in
    let known = contains field_name h.field_value_map in
    record h {
      has_array_fields = known || h.has_array_fields;
      field_count = if known then h.field_count else (h.field_count + 1) % 2 ^ 32;
      field_value_map =
          insert_field field_name (record { value = value; is_file_path = is_file_path })
            h.field_value_map;
      has_file_path_fields = is_file_path || h.has_file_path_fields;
    }

-- `fieldEntry->second.value = value` for the first entry with the name.
unfoldable pub set_first : List ℕ → List ℕ → FieldValueMap → FieldValueMap
set_first name value [] = []
set_first name value ((n, e) ∷ m) =
    let rest = set_first name value m in
    if same_text name n then (n, record e { value = value }) ∷ m else (n, e) ∷ rest

unfoldable pub set_field_value : HttpFields → List ℕ → List ℕ → HttpFields × Expected FieldError
unfolding contains set_first
set_field_value h name value =
    let field_name = map h.case_transform name in
    if contains field_name h.field_value_map
    then (record h { field_value_map = set_first field_name value h.field_value_map }, ok tt)
    else (h, err (unknown_field field_name))

-- `getFieldEntry`.
unfoldable pub get_field_entry : HttpFields → List ℕ → Result FieldError FieldValueMap
unfolding find
get_field_entry h name =
    let field_name = map h.case_transform name in
    elim (find field_name h.field_value_map) [
      | [] ↦ err (unknown_field field_name)
      | x ∷ m ↦ ok (x ∷ m)
    ]

-- `getField`: the name goes through the transform here and in `getFieldEntry`.
unfoldable pub get_field : HttpFields → List ℕ → Result FieldError (List ℕ)
unfolding get_field_entry
get_field h name = elim (get_field_entry h (map h.case_transform name)) [
  | err e ↦ err e
  | ok [] ↦ err (unknown_field name)
  | ok ((n, e) ∷ m) ↦ ok e.value
]

-- The values of the entries with the name, up to the first other one.
unfoldable pub values_from : List ℕ → FieldValueMap → List (List ℕ)
values_from name [] = []
values_from name ((n, e) ∷ m) = if same_text n name then e.value ∷ values_from name m else []

unfoldable pub get_array_field_values : HttpFields → List ℕ → Result FieldError (List (List ℕ))
unfolding get_field_entry values_from
get_array_field_values h name =
    let field_name = map h.case_transform name in
    elim (get_field_entry h field_name) [ err e ↦ err e | ok m ↦ ok (values_from field_name m) ]

-- The loop of `updateFieldCountAndArrayFlags`; the first argument is `lastFieldName`.
unfoldable pub count_fields : List ℕ → FieldValueMap → HttpFields → HttpFields
count_fields last [] h = h
count_fields last ((name, entry) ∷ m) h =
    let files = entry.is_file_path || h.has_file_path_fields in
    elim (same_text name last) [
      | false ↦
          count_fields name m
            (record h { has_file_path_fields = files; field_count = (h.field_count + 1) % 2 ^ 32 })
      | true ↦
          count_fields last m (record h { has_file_path_fields = files; has_array_fields = true })
    ]

unfoldable pub update_field_count_and_array_flags : HttpFields → HttpFields
unfolding count_fields
update_field_count_and_array_flags h =
    count_fields [] h.field_value_map
      (record h { field_count = 0; has_array_fields = false; has_file_path_fields = false })

-- The constructor from a map.
unfoldable pub construct_fields : FieldValueMap → (ℕ → ℕ) → HttpFields
unfolding update_field_count_and_array_flags
construct_fields m f = update_field_count_and_array_flags (record {
  case_transform = f;
  field_value_map = m;
  field_count = 0;
  has_array_fields = false;
  has_file_path_fields = false;
})

unfoldable pub load_from_url_string : HttpFields → List ℕ → HttpFields
unfolding update_field_count_and_array_flags
load_from_url_string h url =
    update_field_count_and_array_flags
      (record h { field_value_map = parse_url_encoding_to_fields url })

unfoldable pub clear : HttpFields → HttpFields
clear h = record h { field_value_map = []; field_count = 0; has_array_fields = false }

-- The loop of `amend`.
unfoldable pub amend_from : HttpFields → FieldValueMap → HttpFields
unfolding add_field_value
amend_from h [] = h
amend_from h ((name, entry) ∷ m) =
    amend_from (add_field_value h name entry.value entry.is_file_path) m

unfoldable pub amend_fields : HttpFields → HttpFields → HttpFields
unfolding amend_from
amend_fields h other = amend_from h other.field_value_map
