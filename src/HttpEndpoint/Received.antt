-- ===== src/HttpEndpoint/Received.antt =====
-- sockets/live/HTTPLiveEndpoint.hpp: a request with its headers and its content, in one read.
use medici.Prelude.{
  ℕ, suc, ◌+◌, ◌-◌, ◌<◌, ◌≡◌, ◌≢◌, refl, ap, ◌∙◌, arith, Bool, true, false, ◌||◌, leb,
  if◌then◌else◌, List, [], ◌∷◌, ◌++◌, none, some, ok, Expected, length, All, length-append,
}
use native.Mathlib.Numerals.{add-one}
use medici.Http.{codes, same_text}
use medici.Http.Action.{HttpAction, show_action}
use medici.Http.Fields.{clear}
use medici.HttpEndpoint.{
  HttpError, HttpState, Stream, awaiting_client_request, reading_content, reading_chunks, is_empty,
  read_word, getline, from_chars,
}
use medici.HttpEndpoint.Body.{
  Handlers, header, encoding_of, reset_incoming_http_state, read_content, read_chunks, put_stream,
  dispatch_payload,
}
use medici.HttpEndpoint.Parse.{
  begin_body, read_headers, read_request, read_header_lines, action_of, has_full_header_line,
  with_action, word_or, close_endpoint, handle_loop, on_payload_ready, go_on,
}
use medici.HttpEndpoint.Content.{loop_end, dispatch_body, content_lem, reading}
use medici.HttpEndpoint.Encoding.{good}
use medici.HttpEndpoint.Request.{
  Field, field_lines, added, IsField, read_header_lines-fields, length-field_lines,
}
use medici.HttpEndpoint.Line.{
  IsWord, request_text, read_word-word, read_word-spaced, getline-version, method-IsWord,
  request_text-full,
}

-- A server between two requests.
abbrev pub awaiting : HttpState → HttpState
awaiting st = record st { state = awaiting_client_request; server_side = true; prepended = [] }

-- The state with a request line, and with the headers behind it.
abbrev pub started : HttpState → HttpAction → List ℕ → HttpState
started st action uri = record (reset_incoming_http_state (awaiting st)) {
  incoming_uri_path = uri;
  incoming_action = action;
}

abbrev pub headed : HttpState → HttpAction → List ℕ → List Field → HttpState
headed st action uri fields = record (started st action uri) {
  active_headers = added (started st action uri).active_headers fields;
}

module _ {S : Type 0} (handlers : Handlers S) where
  abbrev with_line :
      ℕ
      → HttpState
      → S
      → List ℕ
      → List ℕ
      → List ℕ × Stream
      → Expected HttpError × HttpState × Stream × S
  with_line fuel st s method uri g =
      if is_empty method || is_empty g.0
      then close_endpoint handlers
          (record (reset_incoming_http_state st) { incoming_uri_path = uri }) g.1 s
      else with_action handlers fuel (action_of method)
          (record (reset_incoming_http_state st) { incoming_uri_path = uri }) g.1 s

  abbrev with_method :
      ℕ → HttpState → S → List ℕ × Stream → Expected HttpError × HttpState × Stream × S
  with_method fuel st s r =
      with_line fuel st s r.0 (word_or st.incoming_uri_path r.1) (getline (read_word r.1).1)

  read_request-line :
      (fuel : ℕ) (action : HttpAction) (uri : List ℕ) (fields : List Field) (body : List ℕ)
      (st : HttpState) (s : S)
      → IsWord uri
      → read_request handlers fuel (awaiting st) (good (request_text action uri fields body)) s
        ≡ read_header_lines handlers fuel (started st action uri) (good (field_lines fields body)) s
  unfolding read_request read_headers reset_incoming_http_state
  read_request-line fuel action uri fields body st s is_word =
      let line = b' ' ∷ (codes "HTTP/1.1" ++ (b'\r' ∷ b'\n' ∷ field_lines fields body)) in
      ap (λ r. with_method fuel (awaiting st) s r)
        (read_word-word (codes (show_action action)) (uri ++ line) (method-IsWord action).0)
      ∙ ap
          (λ q.
            with_line fuel (awaiting st) s (codes (show_action action))
              (if is_empty q.0 then st.incoming_uri_path else q.0) (getline q.1))
          (read_word-spaced uri (codes "HTTP/1.1" ++ (b'\r' ∷ b'\n' ∷ field_lines fields body))
            is_word)
      ∙ ap
          (λ (b : Bool).
            with_line fuel (awaiting st) s (codes (show_action action))
              (if b then st.incoming_uri_path else uri) (getline (good line)))
          is_word.1
      ∙ ap (λ g. with_line fuel (awaiting st) s (codes (show_action action)) uri g)
          (getline-version (field_lines fields body))
      ∙ ap
          (λ (b : Bool).
            if b || false
            then close_endpoint handlers
                (record (reset_incoming_http_state (awaiting st)) { incoming_uri_path = uri })
                (good (field_lines fields body)) s
            else with_action handlers fuel (action_of (codes (show_action action)))
                (record (reset_incoming_http_state (awaiting st)) { incoming_uri_path = uri })
                (good (field_lines fields body)) s)
          (method-IsWord action).0.1
      ∙ ap
          (λ a.
            with_action handlers fuel a
              (record (reset_incoming_http_state (awaiting st)) { incoming_uri_path = uri })
              (good (field_lines fields body)) s)
          (method-IsWord action).1

  -- A body whose size is in its headers.
  begin_body-content :
      (fuel : ℕ) (size body : List ℕ) (st : HttpState) (s : S)
      → header st "Content-Encoding" ≡ none
      → header st "Content-Length" ≡ some size
      → ((old : ℕ) → from_chars 10 old size ≡ length body)
      → begin_body handlers fuel
          (encoding_of (header st "Content-Encoding"))
          (record st { http_body = []; prepended = [] })
          (good body)
          s
        ≡ put_stream (good []) (dispatch_payload handlers (reading st body (length body)) s)
  begin_body-content fuel size body st s plain sized read_size =
      let test : leb (length body) (length body) ≡ true = ground arith in
      ap
        (λ h.
          begin_body handlers fuel (encoding_of h) (record st { http_body = []; prepended = [] })
            (good body) s)
        plain
      ∙ ap
          (λ h. elim h as (λ x. Expected HttpError × HttpState × Stream × S) [
            | some length_text ↦
                read_content handlers
                  (record st {
                    http_body = [];
                    prepended = [];
                    content_size = some (from_chars 10 (handlers.uninitialized s) length_text);
                    state = reading_content;
                  })
                  (good body) s
            | none ↦
                elim (header st "Transfer-Encoding")
                  as (λ x. Expected HttpError × HttpState × Stream × S) [
                    | none ↦
                        put_stream (good body) (
                          dispatch_payload handlers (record st { http_body = []; prepended = [] })
                            s)
                    | some value ↦
                        if same_text value (codes "chunked")
                        then read_chunks handlers fuel
                            (record st {
                              http_body = [];
                              prepended = [];
                              chunked_response = true;
                              state = reading_chunks;
                            })
                            (good body) s
                        else put_stream (good body) (
                            dispatch_payload handlers (record st { http_body = []; prepended = [] })
                              s)
                  ]
          ])
          sized
      ∙ ap (λ (n : ℕ). read_content handlers (reading st [] n) (good body) s)
          (read_size (handlers.uninitialized s))
      ∙ content_lem handlers body [] (length body) st (good body) s refl (omega arith)
      ∙ ap
          (λ (b : Bool).
            if b
            then put_stream (good []) (dispatch_payload handlers (reading st body (length body)) s)
            else (ok tt, reading st body (length body), good [], s))
          test

  read_whole :
      (payload : List ℕ) (st : HttpState) (s : S) (z : Expected HttpError × HttpState × S)
      → has_full_header_line payload ≡ true
      → payload ≢ []
      → ((fuel : ℕ)
          → length payload < fuel
          → read_request handlers fuel (awaiting st) (good payload) s ≡ put_stream (good []) z)
      → on_payload_ready handlers payload (awaiting st) s ≡ z
  unfolding on_payload_ready
  read_whole [] st s z full filled whole = absurd (filled refl)
  read_whole (x ∷ c) st s z full filled whole =
      ap (λ (k : ℕ). handle_loop handlers k (awaiting st) (good (x ∷ c)) s)
        (add-one (suc (length c)))
      ∙ ap
          (λ (b : Bool).
            go_on handlers (handle_loop handlers (suc (length c))) (some (suc (length c))) (
              if b
              then read_request handlers (length c + 3) (awaiting st) (good (x ∷ c)) s
              else (ok tt, record (awaiting st) { prepended = x ∷ c }, good (x ∷ c), s)))
          full
      ∙ ap (λ r. go_on handlers (handle_loop handlers (suc (length c))) (some (suc (length c))) r)
          (whole (length c + 3) (omega arith))
      ∙ loop_end handlers (length c) z (length c)

  -- A request that a server reads at once, with any method, a target without spaces, headers in lines of
  -- their own and a `Content-Length` that is the size of its content: the application is handed the
  -- content once, with all the headers, and sees the method and the target; the server awaits the next
  -- request, and the read returns what the application returns. What was left of the requests before is
  -- forgotten. The content has no encoding.
  pub on_payload_ready-request_text :
      (action : HttpAction) (uri : List ℕ) (fields : List Field) (size body : List ℕ)
      (st : HttpState) (s : S)
      → IsWord uri
      → All IsField fields
      → header (headed st action uri fields) "Content-Encoding" ≡ none
      → header (headed st action uri fields) "Content-Length" ≡ some size
      → ((old : ℕ) → from_chars 10 old size ≡ length body)
      → on_payload_ready handlers (request_text action uri fields body) (awaiting st) s
        ≡ handlers.payload_handler
            (added (clear st.active_headers) fields)
            body
            (record (awaiting (headed st action uri fields)) {
              content_size = some (length body);
              http_body = body;
            })
            (handlers.close_compression s)
  unfolding reset_incoming_http_state
  on_payload_ready-request_text action uri fields size body st s is_word are_fields plain sized
        read_size =
      let text = request_text action uri fields body in
      let enough : length fields < length text = omega (
        arith,
        length-field_lines fields body,
        length-append (codes (show_action action)) (
            b' '
            ∷ (uri ++ (b' ' ∷ (codes "HTTP/1.1" ++ (b'\r' ∷ b'\n' ∷ field_lines fields body))))),
        length-append uri (b' ' ∷ (codes "HTTP/1.1" ++ (b'\r' ∷ b'\n' ∷ field_lines fields body))),
      ) in
      read_whole text st s
        (dispatch_payload handlers (reading (headed st action uri fields) body (length body)) s)
        (request_text-full action uri fields body) (λ e. omega (arith, enough, ap length e))
        (λ fuel more.
          read_request-line fuel action uri fields body st s is_word
          ∙ read_header_lines-fields handlers fields fuel (fuel - length fields - 1) body
              (started st action uri) s are_fields (omega (arith, enough, more))
          ∙ begin_body-content (fuel - length fields - 1) size body (headed st action uri fields) s
              plain sized read_size)
      ∙ dispatch_body handlers (reading (headed st action uri fields) body (length body)) s plain
