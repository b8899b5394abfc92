-- ===== src/HttpEndpoint/Server.antt =====
-- sockets/live/HTTPLiveServerEndpoint.hpp: the responses of a server, and how requests reach its handler.
use medici.Prelude.{
  ℕ, Bool, false, ◌==◌, if◌then◌else◌, List, [], ◌∷◌, Option, none, some, Result, ok, err, Expected,
}
use medici.Http.{codes}
use medici.Http.Action.{HttpAction, get}
use medici.Http.ContentType.{ContentType, SupportedCompression}
use medici.Http.Fields.{HttpFields, get_field, load_from_url_string}
use medici.HttpEndpoint.{HttpError, missing_boundary, no_such_file, PayloadOptions, HttpState}
use medici.HttpEndpoint.Send.{Content, text_content, file_content, SendEntry, Sends, send_http_data}

-- `HttpServerPayloadT`.
pub data ServerPayload : Type 0 where
  form_fields : HttpFields → ServerPayload
  payload_view : List ℕ → ServerPayload

abbrev pub default_options : PayloadOptions
default_options = record {
  accepted_compressions_flag = 0;
  decompress_before_dispatch = false;
  dispatch_partial_payloads = false;
}

-- `QueryFormFields{}`, which keeps the case of names.
abbrev pub no_form_fields : HttpFields
no_form_fields = record {
  case_transform = λ c. c;
  field_value_map = [];
  field_count = 0;
  has_array_fields = false;
  has_file_path_fields = false;
}

-- The text behind a prefix.
unfoldable pub strip : List ℕ → List ℕ → Option (List ℕ)
strip [] s = some s
strip (c ∷ prefix) [] = none
strip (c ∷ prefix) (d ∷ s) = let rest = strip prefix s in if c == d then rest else none

-- `find`, as the text behind the first place.
unfoldable pub behind : List ℕ → List ℕ → Option (List ℕ)
unfolding strip
behind text_ [] = strip text_ []
behind text_ (c ∷ s) =
    let later = behind text_ s in
    elim (strip text_ (c ∷ s)) [ some rest ↦ some rest | none ↦ later ]

-- The path before the first `?`, and the query behind it.
unfoldable pub split_query : List ℕ → Option (List ℕ × List ℕ)
split_query [] = none
split_query (c ∷ s) =
    let rest = split_query s in
    if c == b'?'
    then some ([], s)
    else elim rest [ none ↦ none | some (path, query) ↦ some (c ∷ path, query) ]

module _ {M S : Type 0} (sends : Sends M S) where
  abbrev pub response :
      HttpFields → Bool × ℕ → List ℕ → Content M → SupportedCompression → List ℕ → SendEntry M
  response h response_code message content compression uri = record {
    action = none;
    headers_values = h;
    response_header = some (record { response_code = response_code; message = message });
    content = content;
    compression = compression;
    uri = uri;
    options = default_options;
  }

  -- `sendHttpResponse`, which does not read the content type.
  unfoldable pub send_http_response :
      HttpFields
      → Bool × ℕ
      → List ℕ
      → List ℕ
      → ContentType
      → SupportedCompression
      → HttpState
      → S
      → Expected HttpError × HttpState × S
  unfolding send_http_data
  send_http_response h response_code message content _ compression st s =
      send_http_data sends
        (response h response_code message (text_content content) compression
          st.uri_path_with_query_params)
        st s

  -- `sendFileResponse`; `is_file` is whether the path is one of a regular file.
  unfoldable pub send_file_response :
      (is_file : List ℕ → S → Bool)
      → HttpFields
      → Bool × ℕ
      → List ℕ
      → List ℕ
      → ContentType
      → SupportedCompression
      → HttpState
      → S
      → Expected HttpError × HttpState × S
  unfolding send_http_data
  send_file_response is_file h response_code message path _ compression st s =
      if is_file path s
      then send_http_data sends
          (response h response_code message (file_content path) compression st.uri_path)
          (record st { uri_path_with_query_params = st.uri_path }) s
      else (err no_such_file, st, s)

-- The handler of the application, and the parts of a form as its fields.
pub record ServerHandlers (S : Type 0) : Type 0 where
  pub server_payload_handler :
      HttpAction
      → List ℕ
      → HttpFields
      → ServerPayload
      → HttpState
      → S
      → Expected HttpError × HttpState × S
  pub decode_multipart : List ℕ → List ℕ → S → Result HttpError HttpFields × S

module _ {S : Type 0} (handlers : ServerHandlers S) where
  abbrev pub hand_parts :
      HttpFields → HttpState → Result HttpError HttpFields × S → Expected HttpError × HttpState × S
  hand_parts headers st (err e, s) = (err e, st, s)
  hand_parts headers st (ok form, s) =
      handlers.server_payload_handler st.incoming_action st.incoming_uri_path headers
        (form_fields form) st s

  abbrev pub hand_view : HttpFields → List ℕ → HttpState → S → Expected HttpError × HttpState × S
  hand_view headers payload st s =
      handlers.server_payload_handler st.incoming_action st.incoming_uri_path headers
        (payload_view payload) st s

  -- A request with a content type.
  unfoldable pub demux_content :
      List ℕ → HttpFields → List ℕ → HttpState → S → Expected HttpError × HttpState × S
  unfolding behind load_from_url_string
  demux_content content_type headers payload st s =
      elim (behind (codes "multipart/form-data") content_type) [
        | some _ ↦ elim (behind (codes "boundary=") content_type) [
          | none ↦ (err missing_boundary, st, s)
          | some boundary ↦ hand_parts headers st (handlers.decode_multipart payload boundary s)
        ]
        | none ↦ elim (behind (codes "application/x-www-form-urlencoded") content_type) [
          | some _ ↦
              handlers.server_payload_handler st.incoming_action st.incoming_uri_path headers
                (form_fields (load_from_url_string no_form_fields payload)) st s
          | none ↦ hand_view headers payload st s
        ]
      ]

  -- A request without one: the query of a `GET` is a form.
  unfoldable pub demux_query :
      HttpAction → HttpFields → List ℕ → HttpState → S → Expected HttpError × HttpState × S
  unfolding split_query load_from_url_string
  demux_query get headers payload st s = elim (split_query st.incoming_uri_path) [
    | none ↦ hand_view headers payload st s
    | some (path, query) ↦
        handlers.server_payload_handler get path headers
          (form_fields (load_from_url_string no_form_fields query)) st s
  ]
  demux_query action headers payload st s = hand_view headers payload st s

  -- `demuxPayloadToVariantTypes`.
  unfoldable pub demux_payload_to_variant_types :
      HttpFields → List ℕ → HttpState → S → Expected HttpError × HttpState × S
  unfolding get_field demux_content demux_query
  demux_payload_to_variant_types headers payload st s =
      elim (get_field headers (codes "Content-Type")) [
        | ok content_type ↦ demux_content content_type headers payload st s
        | err e ↦ demux_query st.incoming_action headers payload st s
      ]
