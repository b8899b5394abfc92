-- ===== src/HttpEndpoint/Send.antt =====
-- sockets/live/HTTPLiveEndpoint.hpp: the sending of requests and responses.
--
-- `Sends` is what is called: zlib, the file system and the endpoint below; `M` is `MultipartPayload`.
use medici.Prelude.{
  ℕ, zero, suc, ◌+◌, ◌/◌, ◌%◌, Bool, true, false, not, ◌&&◌, ltb, if◌then◌else◌, List, [], ◌∷◌,
  ◌++◌, Option, none, some, Result, ok, err, Expected, length,
}
use Prim.Native.String.{String}
use medici.Http.{codes}
use medici.Http.Action.{HttpAction, get}
use medici.Http.ContentType.{
  ContentType, unspecified, show_content_type, SupportedCompression, no_compression, gzip,
  http_deflate, brotli, to_encoding_value,
}
use medici.Http.Fields.{HttpFields, has_field, add_field_value}
use medici.Http.Headers.{
  HeaderError, encode_fields_to_request_header, encode_fields_to_response_header,
}
use medici.HttpEndpoint.{
  awaiting_client_request, awaiting_response, reading_headers, reading_content, reading_chunks,
  websocket_passthrough, HttpError, ambiguous_content_type, missing_content_type,
  ambiguous_encoding, unsupported_compression, header_encoding_failed, unsupported_content,
  compression_failed, multipart_failed, file_not_open, PayloadOptions, HttpState, is_empty,
}

-- `HttpContentT`.
pub data Content (M : Type 0) : Type 0 where
  text_content file_content : List ℕ → Content M
  form_content : HttpFields → Content M
  multipart_content : M → Content M

pub record ResponseHeader : Type 0 where
  pub response_code : Bool × ℕ
  pub message : List ℕ

pub record SendEntry (M : Type 0) : Type 0 where
  pub action : Option HttpAction
  pub headers_values : HttpFields
  pub response_header : Option ResponseHeader
  pub content : Content M
  pub compression : SupportedCompression
  pub uri : List ℕ
  pub options : PayloadOptions

-- The callbacks that are given to `sendAsync`.
pub data OnSent : Type 0 where
  payload_sent file_chunk : OnSent
  send_file : List ℕ → OnSent

pub record Sends (M S : Type 0) : Type 0 where
  -- Whether it succeeds, and what was appended to the output.
  pub compress : SupportedCompression → List ℕ → S → Expected HttpError × List ℕ × S
  pub compress_file : SupportedCompression → List ℕ → S → Expected HttpError × List ℕ × S
  pub encode_multipart : M → S → Result HttpError (List ℕ) × S
  -- `std::filesystem::file_size`, where it does not throw.
  pub file_size : List ℕ → S → ℕ
  pub open_file : List ℕ → S → Bool × S
  -- The next bytes of the open file, 8192 at most; there are none at its end.
  pub read_file : S → List ℕ × S
  pub host : List ℕ
  pub send_async : List ℕ → OnSent → HttpState → S → Expected HttpError × HttpState × S

-- `std::to_string` of a `size_t`: the digits in front of those already written.
unfoldable pub digits : ℕ → ℕ → List ℕ → List ℕ
digits zero n more = more
digits (suc fuel) n more =
    if ltb n 10 then (b'0' + n) ∷ more else digits fuel (n / 10) ((b'0' + n % 10) ∷ more)

unfoldable pub to_string : ℕ → List ℕ
unfolding digits
to_string n = digits (n + 1) n []

-- Of an `int`, its sign and its size.
abbrev pub int_to_string : Bool × ℕ → List ℕ
int_to_string (negative, n) = if negative then b'-' ∷ to_string n else to_string n

abbrev pub add_field : HttpFields → String → List ℕ → HttpFields
add_field h name value = add_field_value h (codes name) value false

-- The `switch` over the compressions.
abbrev pub encoding_name : SupportedCompression → Option (List ℕ)
encoding_name gzip = some (codes "gzip")
encoding_name http_deflate = some (codes "deflate")
encoding_name brotli = some (codes "br")
encoding_name _ = none

abbrev pub clarify_encoding : SupportedCompression → HttpFields → HttpFields × Expected HttpError
clarify_encoding no_compression h = (h, ok tt)
clarify_encoding compression h =
    if has_field h (codes "Content-Encoding")
    then (h, err ambiguous_encoding)
    else elim (encoding_name compression) [
      | none ↦ (h, err unsupported_compression)
      | some name ↦ (add_field h "Content-Encoding" name, ok tt)
    ]

-- `clarifySendHeaders`.
unfoldable pub clarify_send_headers :
    HttpFields → List ℕ → ContentType → SupportedCompression → HttpFields × Expected HttpError
unfolding has_field add_field_value show_content_type
clarify_send_headers h content unspecified compression =
    if not (is_empty content) && not (has_field h (codes "Content-Type"))
    then (h, err missing_content_type)
    else clarify_encoding compression h
clarify_send_headers h content content_type compression =
    if has_field h (codes "Content-Type")
    then (h, err ambiguous_content_type)
    else clarify_encoding compression
        (add_field h "Content-Type" (codes (show_content_type content_type)))

-- `onPayloadSent`.
unfoldable pub on_payload_sent : HttpState → HttpState
on_payload_sent st = elim st.state [
  | websocket_passthrough ↦ st
  | reading_headers ↦ if st.server_side then st else record st { state = awaiting_response }
  | reading_content ↦ if st.server_side then st else record st { state = awaiting_response }
  | reading_chunks ↦ if st.server_side then st else record st { state = awaiting_response }
  | other ↦
      if st.server_side
      then record st { state = awaiting_client_request }
      else record st { state = awaiting_response }
]

abbrev pub is_none : SupportedCompression → Bool
is_none no_compression = true
is_none _ = false

abbrev pub add_content_encoding : SupportedCompression → HttpFields → HttpFields
add_content_encoding compression h =
    if has_field h (codes "Content-Encoding")
    then h
    else add_field h "Content-Encoding" (codes (to_encoding_value compression))

abbrev pub Prepared : Type 0 → Type 0 → Type 0
Prepared M S = Result HttpError (HttpFields × Content M) × HttpState × S

module _ {M S : Type 0} where
  abbrev pub compressed :
      SupportedCompression
      → Content M
      → HttpFields
      → HttpState
      → Expected HttpError × List ℕ × S
      → Prepared M S
  compressed by content h st (err e, data_, s) =
      (err compression_failed, record st { compressed_data = data_ }, s)
  compressed by content h st (ok u, data_, s) = (
    ok (add_content_encoding by (add_field h "Content-Length" (to_string (length data_))), content),
    record st { compressed_data = data_ },
    s,
  )

abbrev pub or_failed : Result HeaderError (List ℕ) → Result HttpError (List ℕ)
or_failed (err e) = err header_encoding_failed
or_failed (ok payload) = ok payload

module _ {M S : Type 0} (sends : Sends M S) where
  -- A text, or what a form is encoded as, which is not empty.
  abbrev pub prepare_body :
      SupportedCompression → List ℕ → Content M → HttpFields → HttpState → S → Prepared M S
  prepare_body compression body content h st s =
      if is_none compression
      then (ok (add_field h "Content-Length" (to_string (length body)), text_content body), st, s)
      else compressed compression content h st (sends.compress compression body s)

  abbrev pub prepare_text :
      SupportedCompression → List ℕ → Content M → HttpFields → HttpState → S → Prepared M S
  prepare_text by [] content h st s = (ok (h, content), st, s)
  prepare_text by (c ∷ body) content h st s = prepare_body by (c ∷ body) content h st s

  abbrev pub prepare_multipart :
      SupportedCompression
      → M
      → HttpFields
      → HttpState
      → Result HttpError (List ℕ) × S
      → Prepared M S
  prepare_multipart by m h st (err e, s) = (err multipart_failed, st, s)
  prepare_multipart by m h st (ok body, s) = prepare_text by body (multipart_content m) h st s

  -- The content and its headers. The branch of the source for forms is one for `http::HttpFields`, which
  -- `HttpContentT` does not hold: nothing is done for `http::HeaderFields`, which it holds.
  unfoldable pub prepare :
      SupportedCompression → Content M → HttpFields → HttpState → S → Prepared M S
  unfolding has_field add_field_value to_string
  prepare compression (text_content body) h st s =
      prepare_text compression body (text_content body) h st s
  prepare _ (form_content form) h st s = (ok (h, form_content form), st, s)
  prepare compression (multipart_content m) h st s =
      prepare_multipart compression m h st (sends.encode_multipart m s)
  prepare compression (file_content path) h st s =
      let size = sends.file_size path s in
      if is_none compression
      then (
        ok (
          if ltb 0 size then add_field h "Content-Length" (to_string size) else h,
          file_content path,
        ),
        st,
        s,
      )
      else compressed compression (file_content path) h st (sends.compress_file compression path s)

  -- The header of a response, or of a request. `*action`: requests have one.
  unfoldable pub encode_header : SendEntry M → HttpFields → HttpState → Result HttpError (List ℕ)
  unfolding to_string encode_fields_to_request_header encode_fields_to_response_header
  encode_header entry h st = elim entry.response_header [
    | some r ↦ or_failed (
        encode_fields_to_response_header (int_to_string r.response_code) r.message
          h.field_value_map)
    | none ↦ or_failed (
        encode_fields_to_request_header (elim entry.action [ some a ↦ a | none ↦ get ])
          st.uri_path_with_query_params sends.host h.field_value_map)
  ]

  -- What is sent behind the header.
  abbrev pub send_content : List ℕ → Content M → HttpState → S → Expected HttpError × HttpState × S
  send_content payload (text_content body) st s =
      sends.send_async (payload ++ body) payload_sent st s
  send_content payload (file_content path) st s = sends.send_async payload (send_file path) st s
  send_content payload _ st s = (err unsupported_content, st, s)

  abbrev pub send_payload :
      SendEntry M
      → Content M
      → Result HttpError (List ℕ)
      → HttpState
      → S
      → Expected HttpError × HttpState × S
  send_payload entry content (err e) st s = (err e, st, s)
  send_payload entry content (ok payload) st s =
      let st1 = if st.server_side then st else record st {
        pending_response_options = st.pending_response_options ++ (entry.options ∷ []);
      } in
      if is_empty st.compressed_data
      then send_content payload content st1 s
      else sends.send_async (payload ++ st.compressed_data) payload_sent st1 s

  abbrev pub send_prepared : SendEntry M → Prepared M S → Expected HttpError × HttpState × S
  send_prepared entry (err e, st, s) = (err e, st, s)
  send_prepared entry (ok (h, content), st, s) =
      send_payload entry content (encode_header entry h st) st s

  -- `sendHttpData`.
  unfoldable pub send_http_data : SendEntry M → HttpState → S → Expected HttpError × HttpState × S
  unfolding prepare encode_header
  send_http_data entry st s = send_prepared entry (
      prepare entry.compression entry.content entry.headers_values
        (record st { uri_path_with_query_params = entry.uri; compressed_data = [] }) s)

  abbrev pub send_chunk : HttpState → List ℕ × S → Expected HttpError × HttpState × S
  send_chunk st ([], s) = (ok tt, on_payload_sent st, s)
  send_chunk st (c ∷ bytes, s) = sends.send_async (c ∷ bytes) file_chunk st s

  abbrev pub open_then : HttpState → Bool × S → Expected HttpError × HttpState × S
  open_then st (false, s) = (err file_not_open, st, s)
  open_then st (true, s) = send_chunk st (sends.read_file s)

  -- `onPayloadSent`, `sendFileChunk` and `sendFileContent`, as `sendAsync` calls them back.
  unfoldable pub run_sent : OnSent → HttpState → S → Expected HttpError × HttpState × S
  unfolding on_payload_sent
  run_sent payload_sent st s = (ok tt, on_payload_sent st, s)
  run_sent file_chunk st s = send_chunk st (sends.read_file s)
  run_sent (send_file path) st s = open_then st (sends.open_file path s)
