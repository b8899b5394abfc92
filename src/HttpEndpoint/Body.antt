-- ===== src/HttpEndpoint/Body.antt =====
-- sockets/live/HTTPLiveEndpoint.hpp: the reading of bodies and their dispatch.
--
-- `Handlers` is what the endpoint calls: the handler of the application, which may call the endpoint back,
-- zlib and the endpoint below. The loops take fuel; every round takes a byte at least, or ends the stream.
-- A header is there when `getField` finds it: `::toupper`, which names go through, changes nothing twice.
use medici.Prelude.{
  ℕ, zero, suc, ◌+◌, ◌-◌, ◌%◌, ◌^◌, true, false, ◌||◌, ltb, leb, if◌then◌else◌, List, [], ◌∷◌, ◌++◌,
  Option, none, some, Result, ok, err, Expected, length, take, drop,
}
use Prim.Native.String.{String}
use medici.Http.{codes, same_text}
use medici.Http.ContentType.{
  SupportedCompression, no_compression, gzip, http_deflate, brotli, to_encoding_value,
}
use medici.Http.Fields.{HttpFields, get_field, clear}
use medici.HttpEndpoint.{
  awaiting_user_request, awaiting_client_request, awaiting_response, HttpError,
  unsupported_encoding, decompression_failed, buffer_overrun, waiting, PayloadOptions, HttpState,
  Stream, getline_expected, trim, from_chars, is_empty,
}

pub record Handlers (S : Type 0) : Type 0 where
  pub payload_handler : HttpFields → List ℕ → HttpState → S → Expected HttpError × HttpState × S
  pub decompress : SupportedCompression → List ℕ → S → Result HttpError (List ℕ) × S
  pub close_compression : S → S
  -- `closeEndpoint` of the endpoint below; its result is dropped.
  pub close_endpoint : HttpState → S → HttpState × S
  -- What a variable that is not initialized holds.
  pub uninitialized : S → ℕ

abbrev pub Reading : Type 0 → Type 0
Reading S = HttpState → Stream → S → Expected HttpError × HttpState × Stream × S

-- `resetIncomingHttpState`.
unfoldable pub reset_incoming_http_state : HttpState → HttpState
unfolding clear
reset_incoming_http_state st = record st {
  content_size = none;
  compression = none;
  http_body = [];
  chunked_response = false;
  response_code = (false, 0);
  chunk_size = none;
  active_headers = clear st.active_headers;
  state =
      if st.server_side
      then awaiting_client_request
      else if is_empty st.pending_response_options
      then awaiting_user_request
      else awaiting_response;
}

-- `prependPartialContent`.
unfoldable pub prepend_partial_content : List ℕ → HttpState → Expected HttpError × HttpState
prepend_partial_content content st = (
  if ltb st.inbound_size (length content) then err buffer_overrun else ok tt,
  record st { prepended = content },
)

abbrev pub with_stream :
    {S : Type 0}
    → Expected HttpError × HttpState
    → Stream
    → S
    → Expected HttpError × HttpState × Stream × S
with_stream (r, st) stream s = (r, st, stream, s)

abbrev pub put_stream :
    {S : Type 0}
    → Stream
    → Expected HttpError × HttpState × S
    → Expected HttpError × HttpState × Stream × S
put_stream stream (r, st, s) = (r, st, stream, s)

abbrev pub header : HttpState → String → Option (List ℕ)
header st name = elim (get_field st.active_headers (codes name)) [ ok v ↦ some v | err e ↦ none ]

-- The encoding of a body by its name.
abbrev pub encoding_of : Option (List ℕ) → Result HttpError SupportedCompression
encoding_of none = ok no_compression
encoding_of (some v) =
    if same_text v (codes (to_encoding_value gzip))
    then ok gzip
    else if same_text v (codes (to_encoding_value http_deflate))
    then ok http_deflate
    else if same_text v (codes (to_encoding_value brotli))
    then ok brotli
    else err unsupported_encoding

-- The state behind a message; a client goes on to the options of the next response.
abbrev pub take_options : List PayloadOptions → HttpState → HttpState
take_options [] st = record st { state = awaiting_user_request }
take_options (o ∷ more) st = record st {
  response_payload_options = o;
  pending_response_options = more;
  state = if is_empty more then awaiting_user_request else awaiting_response;
}

abbrev pub after_message : HttpState → HttpState
after_message st =
    if st.server_side
    then record st { state = awaiting_client_request }
    else take_options st.pending_response_options st

-- The value of `_contentSize`, which is set where it is used.
abbrev pub size_or_zero : Option ℕ → ℕ
size_or_zero none = 0
size_or_zero (some n) = n

abbrev pub take_content : ℕ → HttpState → Stream → HttpState × Stream
take_content size st stream =
    if leb (length st.http_body + length stream.rest) size
    then (record st { http_body = st.http_body ++ stream.rest }, record stream { rest = [] })
    else (
      record st {
        http_body =
            st.http_body ++ take ((size + 2 ^ 64 - length st.http_body) % 2 ^ 64) stream.rest;
      },
      record stream { rest = drop ((size + 2 ^ 64 - length st.http_body) % 2 ^ 64) stream.rest },
    )

-- The lines behind the last chunk.
abbrev pub end_chunks : HttpState → HttpState
end_chunks st = record st { chunked_body = []; chunk_size = none; chunked_response = false }

-- The content of a chunk: all that there is, or the end of the chunk.
abbrev pub chunk_part : ℕ → HttpState → Stream → HttpState × Stream
chunk_part size st stream = (
  record st {
    chunked_body = st.chunked_body ++ stream.rest;
    chunk_size = some (size - length stream.rest);
  },
  record stream { rest = [] },
)

abbrev pub chunk_end : ℕ → HttpState → Stream → HttpState × Stream
chunk_end size st stream = (
  record st {
    http_body = st.http_body ++ (st.chunked_body ++ take size stream.rest);
    chunked_body = [];
    chunk_size = none;
  },
  record stream { rest = drop size stream.rest },
)

module _ {S : Type 0} (handlers : Handlers S) where
  abbrev pub hand_inflated :
      HttpState → Result HttpError (List ℕ) × S → Expected HttpError × HttpState × S
  hand_inflated st (err e, s) = (err decompression_failed, st, s)
  hand_inflated st (ok body, s) = handlers.payload_handler st.active_headers body st s

  abbrev pub hand_body : SupportedCompression → HttpState → S → Expected HttpError × HttpState × S
  hand_body no_compression st s =
      handlers.payload_handler st.active_headers st.http_body st (handlers.close_compression s)
  hand_body compression st s =
      if st.server_side || st.response_payload_options.decompress_before_dispatch
      then hand_inflated st (handlers.decompress compression st.http_body s)
      else handlers.payload_handler st.active_headers st.http_body st s

  unfoldable pub dispatch_payload : HttpState → S → Expected HttpError × HttpState × S
  unfolding get_field same_text
  dispatch_payload st s = elim (encoding_of (header st "Content-Encoding")) [
    | err e ↦ (err e, st, s)
    | ok compression ↦ hand_body compression (after_message st) s
  ]

  abbrev pub when_complete :
      ℕ → HttpState × Stream → S → Expected HttpError × HttpState × Stream × S
  when_complete size (st, stream) s =
      if leb size (length st.http_body)
      then put_stream stream (dispatch_payload st s)
      else (ok tt, st, stream, s)

  unfoldable pub read_content : Reading S
  unfolding dispatch_payload
  read_content st stream s =
      let size = size_or_zero st.content_size in when_complete size (take_content size st stream) s

  unfoldable pub read_trailer : ℕ → Reading S
  unfolding getline_expected trim dispatch_payload prepend_partial_content
  read_trailer zero st stream s = (err waiting, st, stream, s)
  read_trailer (suc fuel) st stream s = elim (getline_expected stream).0 [
    | err partial ↦ with_stream (prepend_partial_content partial st) (getline_expected stream).1 s
    | ok line ↦ elim (is_empty (trim line)) [
      | true ↦ put_stream (getline_expected stream).1 (dispatch_payload (end_chunks st) s)
      | false ↦ read_trailer fuel st (getline_expected stream).1 s
    ]
  ]

  abbrev pub chunk_at :
      (HttpState → Stream → S → Expected HttpError × HttpState × Stream × S) → ℕ → ℕ → Reading S
  chunk_at more fuel zero st stream s = read_trailer fuel st stream s
  chunk_at more fuel (suc n) st stream s =
      if ltb (length stream.rest) (suc n)
      then (ok tt, (chunk_part (suc n) st stream).0, (chunk_part (suc n) st stream).1, s)
      else more (chunk_end (suc n) st stream).0 (chunk_end (suc n) st stream).1 s

  -- The loop of `readChunks`.
  unfoldable pub read_chunks : ℕ → Reading S
  unfolding getline_expected trim from_chars read_trailer prepend_partial_content
  read_chunks zero st stream s = (err waiting, st, stream, s)
  read_chunks (suc fuel) st stream s = elim (stream.eof) [
    | true ↦ (ok tt, st, stream, s)
    | false ↦ elim st.chunk_size [
      | some n ↦ chunk_at (read_chunks fuel) fuel n st stream s
      | none ↦ elim (getline_expected stream).0 [
        | err partial ↦
            with_stream (prepend_partial_content partial st) (getline_expected stream).1 s
        | ok line ↦ elim (is_empty (trim line)) [
          | true ↦ read_chunks fuel st (getline_expected stream).1 s
          | false ↦
              let n = from_chars 16 (handlers.uninitialized s) line in
              chunk_at (read_chunks fuel) fuel n (record st { chunk_size = some n })
                (getline_expected stream).1 s
        ]
      ]
    ]
  ]
