-- ===== src/HttpEndpoint/Sent.antt =====
-- sockets/live/HTTPLiveEndpoint.hpp and http/FieldContentUtils.cpp: a request with a content as it is sent.
use medici.Prelude.{
  ℕ, ◌≡◌, refl, ap, ◌∙◌, Bool, true, false, if◌then◌else◌, List, [], ◌∷◌, ◌++◌, none, some, Result,
  ok, err, length, append_assoc,
}
use medici.Http.{codes, same_text}
use medici.Http.Action.{HttpAction, show_action}
use medici.Http.ContentType.{no_compression}
use medici.Http.Fields.{HttpFields}
use medici.Http.Headers.{
  load_header_values, value_start, encode_fields_to_request_header, HeaderError,
}
use medici.Http.Url.{FieldValueMap}
use medici.HttpEndpoint.{HttpState, PayloadOptions}
use medici.HttpEndpoint.Send.{
  Sends, SendEntry, text_content, payload_sent, send_http_data, to_string, add_field, encode_header,
  or_failed, send_payload,
}
use medici.HttpEndpoint.Request.{Field, field_line, field_lines}
use medici.HttpEndpoint.Line.{request_text}

abbrev pub entries : FieldValueMap → List Field
entries [] = []
entries ((name, entry) ∷ m) = (name, entry.value) ∷ entries m

-- Entries that are no files, of which each has another name than the one before.
abbrev pub Single : List ℕ → FieldValueMap → Type 0
Single active [] = Unit
Single active ((name, entry) ∷ m) =
    ((entry.is_file_path ≡ false) × (same_text name active ≡ false)) × Single name m

field_lines-append :
    (fields : List Field) (body : List ℕ) → field_lines fields [] ++ body ≡ field_lines fields body
field_lines-append [] body = refl
field_lines-append (f ∷ fields) body =
    append_assoc (field_line f) (b'\n' ∷ field_lines fields []) body
    ∙ ap (λ (l : List ℕ). field_line f ++ (b'\n' ∷ l)) (field_lines-append fields body)

value_lem :
    (out name value rest : List ℕ)
    → ((out ++ (b'\r' ∷ b'\n' ∷ (name ++ (b':' ∷ b' ' ∷ [])))) ++ value) ++ (b'\r' ∷ b'\n' ∷ rest)
      ≡ out ++ (b'\r' ∷ b'\n' ∷ (field_line (name, value) ++ (b'\n' ∷ rest)))
value_lem out name value rest = simp append_assoc

load_header_values-lines :
    (out active : List ℕ) (m : FieldValueMap)
    → Single active m
    → load_header_values out active m ≡ ok (out ++ (b'\r' ∷ b'\n' ∷ field_lines (entries m) []))
unfolding load_header_values value_start
load_header_values-lines out active [] single =
    ap (λ (l : List ℕ). ok l) (append_assoc out (b'\r' ∷ b'\n' ∷ []) (b'\r' ∷ b'\n' ∷ []))
load_header_values-lines out active ((name, entry) ∷ m) ((no_file, other), single) =
    ap
      (λ (b : Bool). elim b as (λ x. Result HeaderError (List ℕ)) [
        | true ↦ err medici.Http.Headers.file_path_in_header
        | false ↦ load_header_values (out ++ value_start name active ++ entry.value) name m
      ])
      no_file
    ∙ ap
        (λ (b : Bool).
          load_header_values
            (out
              ++ (if b then b';' ∷ b' ' ∷ [] else b'\r' ∷ b'\n' ∷ (name ++ (b':' ∷ b' ' ∷ [])))
              ++ entry.value)
            name m)
        other
    ∙ load_header_values-lines
        ((out ++ (b'\r' ∷ b'\n' ∷ (name ++ (b':' ∷ b' ' ∷ [])))) ++ entry.value) name m single
    ∙ ap (λ l. ok l) (value_lem out name entry.value (field_lines (entries m) []))

pub encode_fields_to_request_header-lines :
    (action : HttpAction) (uri host : List ℕ) (m : FieldValueMap)
    → Single [] m
    → encode_fields_to_request_header action uri host m
      ≡ ok (request_text action uri ((codes "Host", host) ∷ entries m) [])
unfolding encode_fields_to_request_header
encode_fields_to_request_header-lines action uri host m single =
    load_header_values-lines
      (codes (show_action action)
        ++ b' ' ∷ uri
        ++ codes " HTTP/1.1"
        ++ (b'\r' ∷ b'\n' ∷ [])
        ++ codes "Host: "
        ++ host)
      [] m single
    ∙ ap (λ l. ok l) (simp append_assoc)

pub request_text-append :
    (action : HttpAction) (uri : List ℕ) (fields : List Field) (body : List ℕ)
    → request_text action uri fields [] ++ body ≡ request_text action uri fields body
request_text-append action uri fields body = simp (append_assoc, field_lines-append)

-- A client that has sent a request.
abbrev pub requested : HttpState → List ℕ → PayloadOptions → HttpState
requested st uri options = record st {
  server_side = false;
  uri_path_with_query_params = uri;
  compressed_data = [];
  pending_response_options = st.pending_response_options ++ (options ∷ []);
}

module _ {M S : Type 0} (sends : Sends M S) where
  abbrev pub request_entry :
      HttpAction → HttpFields → List ℕ → List ℕ → PayloadOptions → SendEntry M
  request_entry action h body uri options = record {
    action = some action;
    headers_values = h;
    response_header = none;
    content = text_content body;
    compression = no_compression;
    uri = uri;
    options = options;
  }

  pub send_http_data-request_text :
      (action : HttpAction) (h : HttpFields) (c : ℕ) (body uri : List ℕ) (options : PayloadOptions)
      (st : HttpState) (s : S)
      → Single [] (add_field h "Content-Length" (to_string (length (c ∷ body)))).field_value_map
      → send_http_data sends
          (request_entry action h (c ∷ body) uri options)
          (record st { server_side = false })
          s
        ≡ sends.send_async
            (request_text action uri
              ((codes "Host", sends.host)
                ∷ entries
                    (add_field h "Content-Length" (to_string (length (c ∷ body)))).field_value_map)
              (c ∷ body))
            payload_sent
            (requested st uri options)
            s
  unfolding send_http_data encode_header
  send_http_data-request_text action h c body uri options st s single =
      let h1 = add_field h "Content-Length" (to_string (length (c ∷ body))) in
      ap
        (λ r.
          send_payload sends (request_entry action h (c ∷ body) uri options)
            (text_content (c ∷ body)) (or_failed r)
            (record st {
              server_side = false;
              uri_path_with_query_params = uri;
              compressed_data = [];
            })
            s)
        (encode_fields_to_request_header-lines action uri sends.host h1.field_value_map single)
      ∙ ap (λ (l : List ℕ). sends.send_async l payload_sent (requested st uri options) s)
          (request_text-append action uri ((codes "Host", sends.host) ∷ entries h1.field_value_map)
            (c ∷ body))
