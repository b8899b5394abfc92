-- ===== src/Tests/Http.antt =====
-- Fields and file names.
use medici.Prelude.{ℕ, ◌≡◌, refl, true, false, List, [], ◌∷◌, none, some, ok, arith}
use medici.Http.{codes, same_text}
use medici.Http.ContentType.{after_last_dot}
use medici.Http.Url.{
  FieldValueEntry, FieldValueMap, before, encode_string_for_url, decode_string_from_url,
  encode_char, is_unreserved, encode_fields_to_url, parse_url_encoding_to_fields,
}
use medici.Http.Url.Text.{AllAscii, decode-encode}
use medici.Http.Url.Form.{Sendable, AllSendable, Below, Sorted, parse-encode}
use medici.Http.Fields.{HttpFields, add_field_value}
use medici.Http.Fields.Views.{
  count_of, encode_as_json, encode_json_from, is_array_field, encode_member,
}
use medici.Http.Fields.Counts.{distinct, repeats, has_files}
use medici.Http.Fields.Insert.{Consistent, InOrder, NoneBefore, AllNamed, add-Consistent}

no_dot : after_last_dot (codes "png") ≡ none
unfolding after_last_dot
no_dot = refl

ascii : AllAscii (codes "a b")
unfolding AllAscii
ascii = (omega arith, (omega arith, (omega arith, tt)))

encoded : encode_string_for_url (codes "a b") ≡ codes "a%20b"
unfolding encode_string_for_url encode_char is_unreserved
encoded = refl

decode-encode_example :
    decode_string_from_url (encode_string_for_url (codes "a b")) ≡ some (codes "a b")
decode-encode_example = decode-encode (codes "a b") ascii

abbrev entry : List ℕ → FieldValueEntry
entry v = record { value = v; is_file_path = false }

-- Two values of the field "a".
abbrev fields : FieldValueMap
fields = (codes "a", entry (codes "=")) ∷ (codes "a", entry (codes "&")) ∷ []

first_Sendable : Sendable (codes "a") (entry (codes "="))
unfolding AllAscii
first_Sendable = record {
  named = refl;
  valued = refl;
  name_ascii = (omega arith, tt);
  value_ascii = (omega arith, tt);
  text = refl;
}

second_Sendable : Sendable (codes "a") (entry (codes "&"))
unfolding AllAscii
second_Sendable = record {
  named = refl;
  valued = refl;
  name_ascii = (omega arith, tt);
  value_ascii = (omega arith, tt);
  text = refl;
}

fields-AllSendable : AllSendable fields
unfolding AllSendable
fields-AllSendable = (first_Sendable, (second_Sendable, tt))

fields-Sorted : Sorted [] fields
unfolding Sorted Below before
fields-Sorted = (tt, ((refl, tt), tt))

parse-encode_example :
    (url : List ℕ) × (encode_fields_to_url fields ≡ ok url)
    × (parse_url_encoding_to_fields url ≡ fields)
parse-encode_example =
    parse-encode (codes "a") (entry (codes "=")) ((codes "a", entry (codes "&")) ∷ [])
      fields-AllSendable fields-Sorted

abbrev table : HttpFields
table = record {
  case_transform = λ c. c;
  field_value_map = (codes "b", entry (codes "1")) ∷ [];
  field_count = 1;
  has_array_fields = false;
  has_file_path_fields = false;
}

table-Consistent : Consistent table
unfolding InOrder NoneBefore distinct repeats has_files same_text
table-Consistent = record {
  counted = record { count = refl; arrays = refl; files = refl };
  in_order = (tt, tt);
}

named : same_text (codes "a") [] ≡ false
unfolding same_text
named = refl

add-Consistent_example : Consistent (add_field_value table (codes "a") (codes "2") true)
add-Consistent_example = add-Consistent table (codes "a") (codes "2") true table-Consistent named

other-AllNamed : AllNamed (λ c. c) fields
unfolding AllNamed same_text
other-AllNamed = (refl, (refl, tt))

json_lem : encode_as_json fields ≡ codes "{\"a\":[\"=\",\"&\"]}\n"
unfolding encode_as_json encode_json_from is_array_field encode_member same_text count_of
json_lem = refl
