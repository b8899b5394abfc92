-- ===== src/HttpEndpoint/Client.antt =====
-- sockets/live/HTTPLiveClientEndpoint.hpp: the requests of a client.
--
-- `Multipart` is `MultipartPayload`, of which the client makes one from the fields of a form.
use medici.Prelude.{
  ℕ, ◌/◌, ◌%◌, Bool, true, false, not, ◌==◌, if◌then◌else◌, List, [], ◌∷◌, ◌++◌, none, some, ok,
  err, Expected,
}
use medici.Http.{codes}
use medici.Http.Action.{HttpAction, get, post}
use medici.Http.ContentType.{
  ContentType, unspecified, url_encoded_form, SupportedCompression, gzip, http_deflate, brotli,
  to_encoding_value,
}
use medici.Http.Fields.{HttpFields, has_field, add_field_value}
use medici.Http.Url.{encode_fields_to_url}
use medici.HttpEndpoint.{
  HttpError, form_encoding_failed, decompression_not_accepted, form_action, file_in_get,
  user_content_type, PayloadOptions, HttpState, is_empty,
}
use medici.HttpEndpoint.Send.{
  Content, text_content, multipart_content, SendEntry, Sends, add_field, clarify_send_headers,
  send_http_data,
}

pub record Multipart (M : Type 0) : Type 0 where
  pub construct_multipart : HttpFields → M
  pub get_content_type : M → List ℕ

-- `flag & 1`, `flag & 2` and `flag & 8`, the values of the compressions.
abbrev pub accepts : PayloadOptions → ℕ → Bool
accepts o bit = o.accepted_compressions_flag / bit % 2 == 1

abbrev pub add_encoding : Bool → SupportedCompression → List ℕ → List ℕ
add_encoding accepted compression encodings =
    if accepted
    then (if is_empty encodings
        then codes (to_encoding_value compression)
        else encodings ++ codes ", " ++ codes (to_encoding_value compression))
    else encodings

abbrev pub accepted_encodings : PayloadOptions → List ℕ
accepted_encodings o =
    add_encoding (accepts o 8) brotli
      (add_encoding (accepts o 2) http_deflate (add_encoding (accepts o 1) gzip []))

-- `applyAcceptedCompressions`.
unfoldable pub apply_accepted_compressions :
    PayloadOptions → HttpFields → HttpFields × Expected HttpError
unfolding add_field_value to_encoding_value
apply_accepted_compressions o h =
    if not (o.accepted_compressions_flag == 0)
    then (if is_empty (accepted_encodings o)
        then (h, ok tt)
        else (add_field h "Accept-Encoding" (accepted_encodings o), ok tt))
    else if o.decompress_before_dispatch
    then (h, err decompression_not_accepted)
    else (h, ok tt)

module _ {M S : Type 0} (sends : Sends M S) (multipart : Multipart M) where
  -- The entry is sent if the headers were right.
  abbrev pub send_accepted :
      SendEntry M
      → HttpFields × Expected HttpError
      → HttpState
      → S
      → Expected HttpError × HttpState × S
  send_accepted entry (h, err e) st s = (err e, st, s)
  send_accepted entry (h, ok u) st s =
      send_http_data sends (record entry { headers_values = h }) st s

  abbrev pub send_clarified :
      SendEntry M
      → HttpFields × Expected HttpError
      → HttpState
      → S
      → Expected HttpError × HttpState × S
  send_clarified entry (h, err e) st s = (err e, st, s)
  send_clarified entry (h, ok u) st s =
      send_accepted entry (apply_accepted_compressions entry.options h) st s

  abbrev pub request :
      HttpAction
      → Content M
      → SupportedCompression
      → List ℕ
      → PayloadOptions
      → HttpFields
      → SendEntry M
  request action content compression uri options h = record {
    action = some action;
    headers_values = h;
    response_header = none;
    content = content;
    compression = compression;
    uri = uri;
    options = options;
  }

  -- `sendHttpRequest`. The target is set where the headers were right; only `sendHttpData` reads it.
  unfoldable pub send_http_request :
      HttpAction
      → HttpFields
      → List ℕ
      → ContentType
      → SupportedCompression
      → PayloadOptions
      → HttpState
      → S
      → Expected HttpError × HttpState × S
  unfolding clarify_send_headers apply_accepted_compressions send_http_data
  send_http_request action h content content_type compression options st s =
      send_clarified (request action (text_content content) compression st.uri_path options h)
        (clarify_send_headers h content content_type compression) st s

  abbrev pub add_boundary : M → HttpFields × Expected HttpError → HttpFields × Expected HttpError
  add_boundary m (h, err e) = (h, err e)
  add_boundary m (h, ok u) =
      if has_field h (codes "Content-Type")
      then (h, err user_content_type)
      else (add_field h "Content-Type" (multipart.get_content_type m), ok tt)

  abbrev pub with_query : List ℕ → List ℕ → List ℕ
  with_query path query = if is_empty query then path else path ++ b'?' ∷ query

  -- A form with files, as parts.
  abbrev pub send_parts :
      HttpAction
      → HttpFields
      → HttpFields
      → SupportedCompression
      → PayloadOptions
      → HttpState
      → S
      → Expected HttpError × HttpState × S
  send_parts get h form _ options st s = (err file_in_get, st, s)
  send_parts action h form compression options st s =
      let m = multipart.construct_multipart form in
      send_clarified (request action (multipart_content m) compression st.uri_path options h)
        (add_boundary m (clarify_send_headers h [] unspecified compression)) st s

  -- A form as the query of a `GET`, or as the content of a `POST`.
  abbrev pub send_encoded :
      HttpAction
      → HttpFields
      → List ℕ
      → SupportedCompression
      → PayloadOptions
      → HttpState
      → S
      → Expected HttpError × HttpState × S
  send_encoded get h encoded compression options st s =
      send_clarified
        (request get (text_content []) compression (with_query st.uri_path encoded) options h)
        (clarify_send_headers h [] unspecified compression) st s
  send_encoded action h encoded compression options st s =
      send_clarified (request action (text_content encoded) compression st.uri_path options h)
        (clarify_send_headers h [] url_encoded_form compression) st s

  abbrev pub is_form_action : HttpAction → Bool
  is_form_action get = true
  is_form_action post = true
  is_form_action _ = false

  -- `sendFormRequest`.
  unfoldable pub send_form_request :
      HttpAction
      → HttpFields
      → HttpFields
      → SupportedCompression
      → PayloadOptions
      → HttpState
      → S
      → Expected HttpError × HttpState × S
  unfolding clarify_send_headers apply_accepted_compressions send_http_data encode_fields_to_url
      has_field add_field_value
  send_form_request action h form compression options st s =
      let st1 = record st { uri_path_with_query_params = st.uri_path } in
      if not (is_form_action action)
      then (err form_action, st1, s)
      else if form.has_file_path_fields
      then send_parts action h form compression options st1 s
      else elim (encode_fields_to_url form.field_value_map) [
        | err e ↦ (err form_encoding_failed, st1, s)
        | ok encoded ↦ send_encoded action h encoded compression options st1 s
      ]
