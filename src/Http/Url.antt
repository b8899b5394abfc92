-- ===== src/Http/Url.antt =====
-- http/FieldContentUtils.hpp and http/FieldContentUtils.cpp: the URL encoding of texts and of fields.
-- A `char` is its byte; a byte from 128 on is a negative `char`. `std::isalnum` is that of the C locale.
pub mod Text
pub mod Form
use medici.Prelude.{
  ℕ, ◌+◌, ◌-◌, ◌*◌, ◌/◌, ◌%◌, Bool, true, false, ◌&&◌, ◌||◌, not, ltb, leb, ◌==◌, if◌then◌else◌,
  List, [], ◌∷◌, ◌++◌, Option, none, some, Result, ok, err,
}

abbrev pub between : ℕ → ℕ → ℕ → Bool
between low high c = leb low c && leb c high

unfoldable pub is_unreserved : ℕ → Bool
is_unreserved c =
    between b'0' b'9' c
    || between b'A' b'Z' c
    || between b'a' b'z' c
    || c == b'-'
    || c == b'_'
    || c == b'.'
    || c == b'~'

abbrev pub hex_digit : ℕ → ℕ
hex_digit d = if ltb d 10 then b'0' + d else b'A' + (d - 10)

-- A negative `char` is printed as the `int` that it is, with all of its eight digits.
unfoldable pub encode_char : ℕ → List ℕ
unfolding is_unreserved
encode_char c =
    if is_unreserved c
    then c ∷ []
    else if ltb c 128
    then b'%' ∷ hex_digit (c / 16) ∷ hex_digit (c % 16) ∷ []
    else b'%'
      ∷ b'F'
      ∷ b'F'
      ∷ b'F'
      ∷ b'F'
      ∷ b'F'
      ∷ b'F'
      ∷ hex_digit (c / 16)
      ∷ hex_digit (c % 16)
      ∷ []

-- `encodeStringForURL`.
unfoldable pub encode_string_for_url : List ℕ → List ℕ
unfolding encode_char
encode_string_for_url [] = []
encode_string_for_url (c ∷ s) = encode_char c ++ encode_string_for_url s

unfoldable pub digit_value : ℕ → Option ℕ
digit_value c =
    if between b'0' b'9' c
    then some (c - b'0')
    else if between b'A' b'F' c
    then some (c - b'A' + 10)
    else if between b'a' b'f' c
    then some (c - b'a' + 10)
    else none

-- `std::stoi` of two characters in base 16, as a `char`; `none` is its exception. It takes a space or a
-- sign before a digit, and a digit before anything.
unfoldable pub hex_value : ℕ → ℕ → Option ℕ
unfolding digit_value
hex_value d e = elim (digit_value d) [
  | some x ↦ elim (digit_value e) [ some y ↦ some (16 * x + y) | none ↦ some x ]
  | none ↦ elim (digit_value e) [
    | none ↦ none
    | some y ↦
        if d == b' ' || between 9 13 d || d == b'+'
        then some y
        else if d == b'-'
        then some ((256 - y) % 256)
        else none
  ]
]

abbrev pub plain : ℕ → ℕ
plain c = if c == b'+' then b' ' else c

abbrev pub put : ℕ → Option (List ℕ) → Option (List ℕ)
put c none = none
put c (some s) = some (c ∷ s)

-- `decodeStringFromURL`; `none` is an exception.
unfoldable pub decode_string_from_url : List ℕ → Option (List ℕ)
unfolding hex_value
decode_string_from_url [] = some []
decode_string_from_url (c ∷ []) = some (plain c ∷ [])
decode_string_from_url (c ∷ d ∷ []) = some (plain c ∷ plain d ∷ [])
decode_string_from_url (c ∷ d ∷ e ∷ s) = elim (c == b'%') [
  | false ↦ put (plain c) (decode_string_from_url (d ∷ e ∷ s))
  | true ↦ elim (hex_value d e) [ none ↦ none | some v ↦ put v (decode_string_from_url s) ]
]

-- `FieldValueEntry`.
pub record FieldValueEntry : Type 0 where
  pub value : List ℕ
  pub is_file_path : Bool

-- `FieldValueMap`, in the order of its names; equal names in the order of their insertion.
abbrev pub FieldValueMap : Type 0
FieldValueMap = List (List ℕ × FieldValueEntry)

-- `<` on `std::string`.
unfoldable pub before : List ℕ → List ℕ → Bool
before s [] = false
before [] (d ∷ t) = true
before (c ∷ s) (d ∷ t) = ltb c d || c == d && before s t

-- `std::multimap::insert`.
unfoldable pub insert_field : List ℕ → FieldValueEntry → FieldValueMap → FieldValueMap
unfolding before
insert_field name entry [] = (name, entry) ∷ []
insert_field name entry ((n, e) ∷ m) =
    let rest = insert_field name entry m in
    if before name n then (name, entry) ∷ (n, e) ∷ m else (n, e) ∷ rest

-- The locals of `parseURLEncodingToFields`.
pub record Scan : Type 0 where
  pub field_name : List ℕ
  pub field_value : List ℕ
  pub scanning_field : Bool
  pub field_value_map : FieldValueMap

abbrev pub amend : Scan → ℕ → Scan
amend st c =
    if st.scanning_field
    then record st { field_name = st.field_name ++ c ∷ [] }
    else record st { field_value = st.field_value ++ c ∷ [] }

abbrev pub entry_of_value : List ℕ → FieldValueEntry
entry_of_value v = record { value = v; is_file_path = false }

-- One character that is not part of an escape; `none` is the `break`. A run that the expression for
-- field values matches is taken one character at a time.
unfoldable pub scan_char : ℕ → Scan → Option Scan
unfolding is_unreserved insert_field
scan_char c st =
    if is_unreserved c
    then some (amend st c)
    else if c == b'+'
    then some (amend st b' ')
    else if c == b'='
    then some (record st { scanning_field = false })
    else if c == b'&'
    then some (record {
      field_name = [];
      field_value = [];
      scanning_field = true;
      field_value_map =
          insert_field st.field_name (entry_of_value st.field_value) st.field_value_map;
    })
    else none

abbrev pub is_upper_hex : ℕ → Bool
is_upper_hex c = between b'0' b'9' c || between b'A' b'F' c

abbrev pub upper_hex_value : ℕ → ℕ
upper_hex_value c = if between b'A' b'F' c then c - b'A' + 10 else c - b'0'

abbrev pub is_nil : List ℕ → Bool
is_nil [] = true
is_nil (c ∷ s) = false

-- The end of the parse.
unfoldable pub last_field : Scan → FieldValueMap
unfolding insert_field
last_field st =
    if not (is_nil st.field_name) && not (is_nil st.field_value)
    then insert_field st.field_name (entry_of_value st.field_value) st.field_value_map
    else st.field_value_map

-- The loop of `parseURLEncodingToFields`.
unfoldable pub scan : List ℕ → Scan → FieldValueMap
unfolding scan_char last_field
scan [] st = last_field st
scan (c ∷ []) st = elim (scan_char c st) [ none ↦ last_field st | some st' ↦ last_field st' ]
scan (c ∷ d ∷ []) st = elim (scan_char c st) [ none ↦ last_field st | some st' ↦ scan (d ∷ []) st' ]
scan (c ∷ d ∷ e ∷ s) st = elim (c == b'%' && is_upper_hex d && is_upper_hex e) [
  | true ↦ scan s (amend st (16 * upper_hex_value d + upper_hex_value e))
  | false ↦ elim (scan_char c st) [ none ↦ last_field st | some st' ↦ scan (d ∷ e ∷ s) st' ]
]

unfoldable pub parse_url_encoding_to_fields : List ℕ → FieldValueMap
unfolding scan
parse_url_encoding_to_fields content =
    scan content
      (record { field_name = []; field_value = []; scanning_field = true; field_value_map = [] })

pub data UrlError : Type 0 where
  file_path_in_url : UrlError

-- The loop of `encodeFieldsToURL`; the first argument is what the stream holds.
unfoldable pub encode_from : List ℕ → FieldValueMap → Result UrlError (List ℕ)
unfolding encode_string_for_url
encode_from out [] = ok out
encode_from out ((name, entry) ∷ m) = elim entry.is_file_path [
  | true ↦ err file_path_in_url
  | false ↦
      encode_from
        ((if is_nil out then out else out ++ b'&' ∷ [])
          ++ encode_string_for_url name
          ++ b'=' ∷ encode_string_for_url entry.value)
        m
]

unfoldable pub encode_fields_to_url : FieldValueMap → Result UrlError (List ℕ)
unfolding encode_from
encode_fields_to_url values = encode_from [] values
