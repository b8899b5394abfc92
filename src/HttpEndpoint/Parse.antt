-- ===== src/HttpEndpoint/Parse.antt =====
-- sockets/live/HTTPLiveEndpoint.hpp: the reading of headers, of requests and of responses. The loops take
-- fuel; every round takes a byte at least, or ends the stream.
use medici.Prelude.{
  ℕ, zero, suc, ◌+◌, Bool, true, false, ◌&&◌, ◌||◌, ◌==◌, if◌then◌else◌, List, [], ◌∷◌, ◌++◌,
  Option, none, some, Result, ok, err, Expected, length,
}
use medici.Http.{codes, same_text}
use medici.Http.Action.{
  HttpAction, show_action, get, post, put, delete, patch, head, options, trace, connect,
}
use medici.Http.ContentType.{SupportedCompression, no_compression}
use medici.Http.Fields.{get_field, add_field_value}
use medici.HttpEndpoint.{
  EndpointState, awaiting_user_request, awaiting_client_request, awaiting_response, reading_headers,
  reading_chunks, reading_content, websocket_passthrough, HttpError, unexpected_passthrough,
  waiting, HttpState, Stream, getline_expected, getline, read_word, read_int, trim, from_chars,
  is_empty,
}
use medici.HttpEndpoint.Body.{
  Handlers, Reading, reset_incoming_http_state, prepend_partial_content, with_stream, put_stream,
  header, encoding_of, dispatch_payload, read_content, read_chunks,
}

-- The text before the first `:` and behind it.
unfoldable pub split_colon : List ℕ → Option (List ℕ × List ℕ)
split_colon [] = none
split_colon (c ∷ s) =
    let rest = split_colon s in
    if c == b':'
    then some ([], s)
    else elim rest [ none ↦ none | some (key, value) ↦ some (c ∷ key, value) ]

abbrev pub note_compression : SupportedCompression → HttpState → HttpState
note_compression no_compression st = st
note_compression other st = record st { compression = some other }

module _ {S : Type 0} (handlers : Handlers S) where
  -- The empty line behind the headers.
  abbrev pub begin_body : ℕ → Result HttpError SupportedCompression → Reading S
  begin_body fuel (err e) st stream s = (err e, st, stream, s)
  begin_body fuel (ok compression) st stream s =
      let st1 = note_compression compression st in
      elim (header st "Content-Length") [
        | some length_text ↦
            read_content handlers
              (record st1 {
                content_size = some (from_chars 10 (handlers.uninitialized s) length_text);
                state = reading_content;
              })
              stream s
        | none ↦ elim (header st "Transfer-Encoding") [
          | none ↦ put_stream stream (dispatch_payload handlers st1 s)
          | some value ↦
              if same_text value (codes "chunked")
              then read_chunks handlers fuel
                  (record st1 { chunked_response = true; state = reading_chunks }) stream s
              else put_stream stream (dispatch_payload handlers st1 s)
        ]
      ]

  -- A line with a name and a value, an empty line, or another one, which is ignored.
  unfoldable pub read_header_lines : ℕ → Reading S
  unfolding getline_expected trim split_colon add_field_value get_field same_text from_chars
      read_content read_chunks prepend_partial_content
  read_header_lines zero st stream s = (err waiting, st, stream, s)
  read_header_lines (suc fuel) st stream s = elim (getline_expected stream).0 [
    | err partial ↦
        with_stream (prepend_partial_content partial (record st { state = reading_headers }))
          (getline_expected stream).1 s
    | ok line ↦ elim (split_colon line) [
      | some (key, value) ↦
          let st1 = record st {
            active_headers = add_field_value st.active_headers (trim key) (trim value) false;
          } in
          elim (getline_expected stream).1.eof [
            | true ↦ (ok tt, st1, (getline_expected stream).1, s)
            | false ↦ read_header_lines fuel st1 (getline_expected stream).1 s
          ]
      | none ↦ elim (is_empty (trim line)) [
        | true ↦
            begin_body fuel (encoding_of (header st "Content-Encoding")) st
              (getline_expected stream).1 s
        | false ↦ read_header_lines fuel st (getline_expected stream).1 s
      ]
    ]
  ]

  unfoldable pub read_headers : ℕ → Reading S
  unfolding read_header_lines
  read_headers fuel st stream s = read_header_lines fuel (record st { http_body = [] }) stream s

-- `find("\r\n")`.
unfoldable pub has_full_header_line : List ℕ → Bool
has_full_header_line [] = false
has_full_header_line (c ∷ []) = false
has_full_header_line (c ∷ d ∷ s) = (c == b'\r' && d == b'\n') || has_full_header_line (d ∷ s)

-- `to_HTTPAction`, on bytes.
unfoldable pub action_of : List ℕ → Option HttpAction
unfolding same_text show_action
action_of m =
    if same_text m (codes (show_action get))
    then some get
    else if same_text m (codes (show_action post))
    then some post
    else if same_text m (codes (show_action put))
    then some put
    else if same_text m (codes (show_action delete))
    then some delete
    else if same_text m (codes (show_action patch))
    then some patch
    else if same_text m (codes (show_action head))
    then some head
    else if same_text m (codes (show_action options))
    then some options
    else if same_text m (codes (show_action trace))
    then some trace
    else if same_text m (codes (show_action connect))
    then some connect
    else none

-- `tellg`, as what is left; `none` is the end of every position.
abbrev pub tell : Stream → Option ℕ
tell stream = if stream.fail || stream.eof then none else some (length stream.rest)

-- Where the stream has no word left, the text stays as it was.
abbrev pub word_or : List ℕ → Stream → List ℕ
word_or old stream = let word = (read_word stream).0 in if is_empty word then old else word

module _ {S : Type 0} (handlers : Handlers S) where
  -- `closeEndpoint`, which always succeeds.
  abbrev pub close_endpoint : Reading S
  close_endpoint st stream s =
      let (st1, s1) = handlers.close_endpoint st s in
      (ok tt, reset_incoming_http_state st1, stream, s1)

  abbrev pub with_action : ℕ → Option HttpAction → Reading S
  with_action fuel none st stream s = close_endpoint st stream s
  with_action fuel (some action) st stream s =
      read_headers handlers fuel (record st { incoming_action = action }) stream s

  unfoldable pub read_request : ℕ → Reading S
  unfolding read_word getline reset_incoming_http_state action_of read_headers
  read_request fuel st stream s =
      let (method, after_method) = read_word stream in
      let st1 = record (reset_incoming_http_state st) {
        incoming_uri_path = word_or st.incoming_uri_path after_method;
      } in
      let (version, after_line) = getline (read_word after_method).1 in
      if is_empty method || is_empty version
      then close_endpoint st1 after_line s
      else with_action fuel (action_of method) st1 after_line s

  unfoldable pub read_response : ℕ → Reading S
  unfolding read_word getline read_int reset_incoming_http_state read_headers
  read_response fuel st stream s =
      let (response_code, after_code) = read_int (read_word stream).1 in
      read_headers handlers fuel
        (record (reset_incoming_http_state st) { response_code = response_code })
        (getline after_code).1 s

  -- The inner `handleBaseSocketInboundPayload`, by the state.
  unfoldable pub handle_in : EndpointState → ℕ → Reading S
  unfolding has_full_header_line prepend_partial_content read_request read_response read_headers
      read_chunks read_content
  handle_in websocket_passthrough fuel st stream s = (err unexpected_passthrough, st, stream, s)
  handle_in awaiting_user_request fuel st stream s = (ok tt, st, stream, s)
  handle_in awaiting_client_request fuel st stream s =
      if has_full_header_line stream.rest
      then read_request fuel st stream s
      else (ok tt, (prepend_partial_content stream.rest st).1, stream, s)
  handle_in awaiting_response fuel st stream s =
      if has_full_header_line stream.rest
      then read_response fuel st stream s
      else with_stream (prepend_partial_content stream.rest st) stream s
  handle_in reading_headers fuel st stream s = read_headers handlers fuel st stream s
  handle_in reading_chunks fuel st stream s = read_chunks handlers fuel st stream s
  handle_in reading_content fuel st stream s = read_content handlers st stream s

  abbrev pub same_position : Option ℕ → Option ℕ → Bool
  same_position (some a) (some b) = a == b
  same_position none none = true
  same_position _ _ = false

  abbrev pub go_on :
      (HttpState → Stream → S → Expected HttpError × HttpState × S)
      → Option ℕ
      → Expected HttpError × HttpState × Stream × S
      → Expected HttpError × HttpState × S
  go_on more before (err e, st, stream, s) = (err e, st, s)
  go_on more before (ok u, st, stream, s) =
      if same_position (tell stream) before then (ok tt, st, s) else more st stream s

  -- The loop of `handleBaseSocketInboundPayload`, while there is something left to read.
  unfoldable pub handle_loop : ℕ → HttpState → Stream → S → Expected HttpError × HttpState × S
  unfolding handle_in
  handle_loop zero st stream s = (err waiting, st, s)
  handle_loop (suc fuel) st stream s = elim (tell stream) [
    | none ↦ (ok tt, st, s)
    | some zero ↦ (ok tt, st, s)
    | some (suc n) ↦
        go_on (handle_loop fuel) (some (suc n)) (handle_in st.state (n + 3) st stream s)
  ]

  -- `onPayloadReady`: the bytes of a read behind the content that waits.
  unfoldable pub on_payload_ready : List ℕ → HttpState → S → Expected HttpError × HttpState × S
  unfolding handle_loop
  on_payload_ready chunk st s =
      let payload = st.prepended ++ chunk in
      let st1 = record st { prepended = [] } in
      elim st.state [
        | websocket_passthrough ↦ handlers.payload_handler st.active_headers payload st1 s
        | other ↦
            handle_loop (length payload + 1) st1
              (record { rest = payload; eof = false; fail = false }) s
      ]

  abbrev pub read_then :
      (HttpState → S → Expected HttpError × HttpState × S)
      → Expected HttpError × HttpState × S
      → Expected HttpError × HttpState × S
  read_then more (ok u, st, s) = more st s
  read_then more (err e, st, s) = (err e, st, s)

  -- The reads of the poll manager: an error ends them, and the result of the last one is theirs.
  unfoldable pub read_pieces : List (List ℕ) → HttpState → S → Expected HttpError × HttpState × S
  unfolding on_payload_ready
  read_pieces [] st s = (ok tt, st, s)
  read_pieces (c ∷ []) st s = on_payload_ready c st s
  read_pieces (c ∷ d ∷ pieces) st s = read_then (read_pieces (d ∷ pieces)) (on_payload_ready c st s)
