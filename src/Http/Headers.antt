-- ===== src/Http/Headers.antt =====
-- http/FieldContentUtils.cpp: the headers of requests and responses, and the comparison of field maps.
pub mod Laws
use medici.Prelude.{
  ℕ, ◌+◌, Bool, true, false, ◌&&◌, ◌||◌, not, if◌then◌else◌, List, [], ◌∷◌, ◌++◌, Result, ok, err,
  ◌==◌, length,
}
use Prim.Native.String.{String}
use medici.Http.{codes, same_text}
use medici.Http.Action.{HttpAction, show_action}
use medici.Http.Url.{FieldValueEntry, FieldValueMap}

pub data HeaderError : Type 0 where
  file_path_in_header : HeaderError

abbrev pub line_end : List ℕ
line_end = 13 ∷ 10 ∷ []

-- The start of a value: the name on a line of its own, or another value of the name before.
unfoldable pub value_start : List ℕ → List ℕ → List ℕ
unfolding same_text
value_start name active_name =
    if same_text name active_name then b';' ∷ b' ' ∷ [] else line_end ++ name ++ b':' ∷ b' ' ∷ []

-- `loadHeaderValues`: the first argument is what the stream holds, the second `activeName`.
unfoldable pub load_header_values : List ℕ → List ℕ → FieldValueMap → Result HeaderError (List ℕ)
unfolding value_start
load_header_values out active_name [] = ok (out ++ line_end ++ line_end)
load_header_values out active_name ((name, entry) ∷ m) = elim entry.is_file_path [
  | true ↦ err file_path_in_header
  | false ↦ load_header_values (out ++ value_start name active_name ++ entry.value) name m
]

unfoldable pub encode_fields_to_request_header :
    HttpAction → List ℕ → List ℕ → FieldValueMap → Result HeaderError (List ℕ)
unfolding load_header_values
encode_fields_to_request_header action uri_path host values =
    load_header_values
      (codes (show_action action)
        ++ b' ' ∷ uri_path
        ++ codes " HTTP/1.1"
        ++ line_end
        ++ codes "Host: "
        ++ host)
      [] values

-- The response code is given as it is printed.
unfoldable pub encode_fields_to_response_header :
    List ℕ → List ℕ → FieldValueMap → Result HeaderError (List ℕ)
unfolding load_header_values
encode_fields_to_response_header response_code message values =
    load_header_values (codes "HTTP/1.1 " ++ response_code ++ b' ' ∷ message) [] values

abbrev pub same_flag : Bool → Bool → Bool
same_flag true b = b
same_flag false b = not b

-- The loop of `operator==` on field maps. The test of the names compares the left one with itself;
-- `to_upper` is `::toupper`.
unfoldable pub same_entries : (List ℕ → List ℕ) → FieldValueMap → FieldValueMap → Bool
unfolding same_text
same_entries to_upper [] rhs = true
same_entries to_upper (l ∷ lhs) [] = true
same_entries to_upper ((name, entry) ∷ lhs) ((name', entry') ∷ rhs) =
    let rest = same_entries to_upper lhs rhs in
    if not (same_text (to_upper name) (to_upper name))
    then false
    else if not (same_flag entry.is_file_path entry'.is_file_path)
    then false
    else if not entry.is_file_path && not (same_text entry.value entry'.value)
    then false
    else rest

unfoldable pub same_fields : (List ℕ → List ℕ) → FieldValueMap → FieldValueMap → Bool
unfolding same_entries
same_fields to_upper lhs rhs = length lhs == length rhs && same_entries to_upper lhs rhs
