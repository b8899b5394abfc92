-- ===== src/HttpEndpoint/Content.antt =====
-- sockets/live/HTTPLiveEndpoint.hpp: a body of a given length, in the pieces in which it is read.
use medici.Prelude.{
  ℕ, suc, ◌+◌, ◌<◌, ◌≤◌, ◌≡◌, ◌≢◌, refl, ap, ap₂, sym, ◌∙◌, arith, Bool, true, false, leb, ◌==◌,
  if◌then◌else◌, List, [], ◌∷◌, ◌++◌, none, some, ok, err, Expected, length, All, append_assoc,
  append-nil, length-append,
}
use native.Mathlib.Numerals.{add-one}
use medici.Http.ContentType.{no_compression}
use medici.Http.Fields.{HttpFields}
use medici.HttpEndpoint.{awaiting_client_request, reading_content, HttpError, HttpState, Stream}
use medici.HttpEndpoint.Body.{
  Handlers, header, encoding_of, after_message, take_options, when_complete, dispatch_payload,
  hand_body, read_content, put_stream,
}
use medici.HttpEndpoint.Parse.{handle_loop, on_payload_ready, read_pieces, read_then, go_on}

abbrev pub joined : List (List ℕ) → List ℕ
joined [] = []
joined (c ∷ pieces) = c ++ joined pieces

-- The state in the middle of a body of `n` bytes.
abbrev pub reading : HttpState → List ℕ → ℕ → HttpState
reading st front n = record st {
  state = reading_content;
  content_size = some n;
  http_body = front;
  prepended = [];
}

-- The state behind a message keeps the message.
after_message-active_headers :
    (st : HttpState) → (after_message st).active_headers ≡ st.active_headers
after_message-active_headers st =
    elim st.server_side
      as (λ b.
        (if b
          then record st { state = awaiting_client_request }
          else take_options st.pending_response_options st).active_headers
        ≡ st.active_headers) [
          | true ↦ refl
          | false ↦
              elim st.pending_response_options
                as (λ os. (take_options os st).active_headers ≡ st.active_headers) [
                  | [] ↦ refl
                  | o ∷ more ↦ refl
                ]
        ]

after_message-http_body : (st : HttpState) → (after_message st).http_body ≡ st.http_body
after_message-http_body st =
    elim st.server_side
      as (λ b.
        (if b
          then record st { state = awaiting_client_request }
          else take_options st.pending_response_options st).http_body
        ≡ st.http_body) [
          | true ↦ refl
          | false ↦
              elim st.pending_response_options
                as (λ os. (take_options os st).http_body ≡ st.http_body) [
                  | [] ↦ refl
                  | o ∷ more ↦ refl
                ]
        ]

module _ {S : Type 0} (handlers : Handlers S) where
  -- Without an encoding the body goes to the application as it is.
  dispatch_plain :
      (st : HttpState) (s : S)
      → header st "Content-Encoding" ≡ none
      → dispatch_payload handlers st s ≡ hand_body handlers no_compression (after_message st) s
  unfolding dispatch_payload
  dispatch_plain st s e =
      ap
        (λ h. elim (encoding_of h) as (λ x. Expected HttpError × HttpState × S) [
          | err e ↦ (err e, st, s)
          | ok compression ↦ hand_body handlers compression (after_message st) s
        ])
        e

  pub dispatch_body :
      (st : HttpState) (s : S)
      → header st "Content-Encoding" ≡ none
      → dispatch_payload handlers st s
        ≡ handlers.payload_handler st.active_headers st.http_body
            (after_message st)
            (handlers.close_compression s)
  dispatch_body st s e =
      dispatch_plain st s e
      ∙ ap₂
          (λ (h : HttpFields) (b : List ℕ).
            handlers.payload_handler h b (after_message st) (handlers.close_compression s))
          (after_message-active_headers st) (after_message-http_body st)

  -- A piece that the body ends with, or does not.
  pub content_lem :
      (c front : List ℕ) (n : ℕ) (st : HttpState) (stream : Stream) (s : S)
      → stream.rest ≡ c
      → length front + length c ≤ n
      → read_content handlers (reading st front n) stream s
        ≡ when_complete handlers n (reading st (front ++ c) n, record stream { rest = [] }) s
  unfolding read_content
  content_lem c front n st stream s e fits =
      let test : leb (length front + length stream.rest) n ≡ true = ground (arith, ap length e) in
      rw test (
        ap
          (λ (l : List ℕ).
            when_complete handlers n (reading st (front ++ l) n, record stream { rest = [] }) s)
          e)

  -- The stream is read to its end.
  pub loop_end :
      (fuel : ℕ) (z : Expected HttpError × HttpState × S) (before : ℕ)
      → go_on handlers
          (handle_loop handlers (suc fuel))
          (some (suc before))
          (put_stream (record { rest = []; eof = false; fail = false }) z)
        ≡ z
  unfolding handle_loop
  loop_end fuel (ok u, st, s) before =
      ap (λ (b : Bool). if b then (ok u, st, s) else (ok u, st, s)) test
    where
      test : (0 == suc before) ≡ false
      test = ground arith
  loop_end fuel (err e, st, s) before = refl

  piece_lem :
      (x : ℕ) (c front : List ℕ) (n : ℕ) (st : HttpState) (s : S)
      → length front + length (x ∷ c) ≤ n
      → on_payload_ready handlers (x ∷ c) (reading st front n) s
        ≡ go_on handlers (handle_loop handlers (suc (length c))) (some (suc (length c))) (
            when_complete handlers n
              (reading st (front ++ (x ∷ c)) n, record { rest = []; eof = false; fail = false })
              s)
  unfolding on_payload_ready
  piece_lem x c front n st s fits =
      ap
        (λ (k : ℕ).
          handle_loop handlers k (reading st front n)
            (record { rest = x ∷ c; eof = false; fail = false }) s)
        (add-one (suc (length c)))
      ∙ ap (λ z. go_on handlers (handle_loop handlers (suc (length c))) (some (suc (length c))) z)
          (content_lem (x ∷ c) front n st (record { rest = x ∷ c; eof = false; fail = false }) s
            refl fits)

  -- The body is not complete.
  piece_part :
      (x : ℕ) (c front : List ℕ) (n : ℕ) (st : HttpState) (s : S)
      → length front + length (x ∷ c) < n
      → on_payload_ready handlers (x ∷ c) (reading st front n) s
        ≡ (ok tt, reading st (front ++ (x ∷ c)) n, s)
  piece_part x c front n st s few =
      let test : leb n (length (front ++ (x ∷ c))) ≡ false =
        ground (arith, length-append front (x ∷ c)) in
      piece_lem x c front n st s (omega arith)
      ∙ ap
          (λ (b : Bool).
            go_on handlers (handle_loop handlers (suc (length c))) (some (suc (length c))) (
              if b
              then put_stream (record { rest = []; eof = false; fail = false })
                  (dispatch_payload handlers (reading st (front ++ (x ∷ c)) n) s)
              else (
                ok tt,
                reading st (front ++ (x ∷ c)) n,
                record { rest = []; eof = false; fail = false },
                s,
              )))
          test
      ∙ loop_end (length c) (ok tt, reading st (front ++ (x ∷ c)) n, s) (length c)

  piece_last :
      (x : ℕ) (c front : List ℕ) (n : ℕ) (st : HttpState) (s : S)
      → length front + length (x ∷ c) ≡ n
      → header st "Content-Encoding" ≡ none
      → on_payload_ready handlers (x ∷ c) (reading st front n) s
        ≡ handlers.payload_handler st.active_headers
            (front ++ (x ∷ c))
            (after_message (reading st (front ++ (x ∷ c)) n))
            (handlers.close_compression s)
  piece_last x c front n st s all plain =
      let test : leb n (length (front ++ (x ∷ c))) ≡ true =
        ground (arith, length-append front (x ∷ c)) in
      piece_lem x c front n st s (omega arith)
      ∙ ap
          (λ (b : Bool).
            go_on handlers (handle_loop handlers (suc (length c))) (some (suc (length c))) (
              if b
              then put_stream (record { rest = []; eof = false; fail = false })
                  (dispatch_payload handlers (reading st (front ++ (x ∷ c)) n) s)
              else (
                ok tt,
                reading st (front ++ (x ∷ c)) n,
                record { rest = []; eof = false; fail = false },
                s,
              )))
          test
      ∙ loop_end (length c) (dispatch_payload handlers (reading st (front ++ (x ∷ c)) n) s)
          (length c)
      ∙ dispatch_body (reading st (front ++ (x ∷ c)) n) s plain

  -- A body of a given length without an encoding, cut into any pieces, is handed to the application once,
  -- when its last byte has been read, whole and with the headers of its message; the reads before return
  -- without error, and the last one returns what the application returns. Some of the body may have been
  -- read before; no piece is empty.
  pub read_pieces-body :
      (pieces : List (List ℕ)) (front body : List ℕ) (st : HttpState) (s : S)
      → All (λ c. c ≢ []) pieces
      → pieces ≢ []
      → front ++ joined pieces ≡ body
      → header st "Content-Encoding" ≡ none
      → read_pieces handlers pieces (reading st front (length body)) s
        ≡ handlers.payload_handler st.active_headers body
            (after_message (reading st body (length body)))
            (handlers.close_compression s)
  unfolding read_pieces
  read_pieces-body [] front body st s filled some_pieces whole plain = absurd (some_pieces refl)
  read_pieces-body ([] ∷ pieces) front body st s (some_c, filled) some_pieces whole plain =
      absurd (some_c refl)
  read_pieces-body ((x ∷ c) ∷ []) front body st s filled some_pieces whole plain =
      let last : front ++ (x ∷ c) ≡ body =
        ap (λ l. front ++ l) (sym (append-nil (x ∷ c))) ∙ whole in
      piece_last x c front (length body) st s (sym (length-append front (x ∷ c)) ∙ ap length last)
        plain
      ∙ ap
          (λ (l : List ℕ).
            handlers.payload_handler st.active_headers l
              (after_message (reading st l (length body))) (handlers.close_compression s))
          last
  read_pieces-body ((x ∷ c) ∷ ([] ∷ pieces)) front body st s (some_c, (some_d, filled)) some_pieces
        whole plain =
      absurd (some_d refl)
  read_pieces-body ((x ∷ c) ∷ ((y ∷ d) ∷ pieces)) front body st s (some_c, filled) some_pieces whole
        plain =
      let sizes : length body
          ≡ length front + (length (x ∷ c) + length ((y ∷ d) ++ joined pieces)) =
        ap length (sym whole)
        ∙ length-append front ((x ∷ c) ++ ((y ∷ d) ++ joined pieces))
        ∙ ap (λ k. length front + k) (length-append (x ∷ c) ((y ∷ d) ++ joined pieces)) in
      ap (λ z. read_then handlers (read_pieces handlers ((y ∷ d) ∷ pieces)) z)
        (piece_part x c front (length body) st s (omega arith))
      ∙ read_pieces-body ((y ∷ d) ∷ pieces) (front ++ (x ∷ c)) body st s filled (λ e. cc)
          (append_assoc front (x ∷ c) ((y ∷ d) ++ joined pieces) ∙ whole) plain
