-- ===== src/WebSocket/Stages.antt =====
-- sockets/live/WebSocketLiveEndpoint.hpp: a cycle of `handleWebsocketPayload` where the buffer holds a whole
-- frame, the front of one, or what is left of one.
use medici.Prelude.{
  ℕ, ◌+◌, ◌-◌, ◌^◌, ◌<◌, ◌≤◌, ◌≡◌, ◌≢◌, refl, ap, ap₂, sym, ◌∙◌, arith, Bool, true, false, ltb,
  if◌then◌else◌, List, [], ◌∷◌, ◌++◌, append-nil, some, ok, length, get_or, take, length-append,
  take-append,
}
use medici.WebSocket.{WsOpCode, text, binary, is_content, first_byte}
use medici.WebSocket.Endpoint.{Ws, Host, prepend_partial_content}
use medici.WebSocket.Receive.{
  finished, returned, view, take_view, frame_content, read_frame, read_pending, read_at, dispatch,
  dispatch_content, dispatch_message,
}
use medici.WebSocket.Frames.{base_size, read-incomplete, second-client_header, length-mask}
use medici.WebSocket.Wire.{
  Message, key_bytes, wire, masked, head, frame, IsMessage, length-head, length-frame, first_bits,
  Idle, opened,
}
use medici.WebSocket.Cycle.{
  header_of, view_lem, content_lem, at_header, read_at_start, read_at_rest, begin_whole, begin_part,
  take_final, take_pending, size_le,
}

pub length_pos : (xs : List ℕ) → xs ≢ [] → 0 < length xs
length_pos [] h = absurd (h refl)
length_pos (x ∷ xs) h = omega arith

get_or_front : (xs ys : List ℕ) → 1 < length xs → get_or xs 1 0 ≡ get_or (xs ++ ys) 1 0
get_or_front [] ys h = absurd (omega arith)
get_or_front (x ∷ []) ys h = absurd (omega arith)
get_or_front (x ∷ y ∷ xs) ys h = refl

take_all : (xs : List ℕ) (n : ℕ) → n ≡ length xs → take n xs ≡ xs
take_all xs n e = rw e (ap (λ t. take (length xs) t) (sym (append-nil xs)) ∙ take-append xs [])

module _ {S : Type 0} (host : Host S) (bytes_read : ℕ) where
  pub dispatch_op :
      (op_code : WsOpCode) (payload : List ℕ) (next : ℕ) (ws : Ws) (s : S)
      → is_content op_code ≡ true
      → dispatch host bytes_read (some op_code) payload next ws s
        ≡ dispatch_content host bytes_read payload op_code next ws s
  unfolding dispatch
  dispatch_op text payload next ws s h = refl
  dispatch_op binary payload next ws s h = refl
  dispatch_op _ payload next ws s h = cc

module _ {S : Type 0} (host : Host S) (deflate : List ℕ → List ℕ) (m : Message)
    (im : IsMessage deflate m) (before : List ℕ) (ws : Ws) (s : S) (idle : Idle ws) where
  -- A whole frame is dispatched, and the next one begins behind it.
  pub cycle_whole :
      (rest : List ℕ) (available : ℕ)
      → available ≡ length (head deflate m ++ (masked deflate m ++ rest))
      → length before + available < 2 ^ 32
      → read_at host
          (length before + available)
          (before ++ (head deflate m ++ (masked deflate m ++ rest)))
          (length before)
          ws
          s
        ≡ dispatch_content host
            (length before + available)
            (masked deflate m)
            m.op_code
            (length before + length (frame deflate m))
            (opened m ws)
            s
  unfolding dispatch_message
  cycle_whole rest available size fits =
      let n = length (wire deflate m) in
      let bytes = head deflate m ++ (masked deflate m ++ rest) in
      let read = length before + available in
      let ws1 : Ws = record ws { masking_key = some (key_bytes m) } in
      let masked_size : length (masked deflate m) ≡ n =
        length-mask (key_bytes m) (wire deflate m) 0 in
      let all : available ≡ base_size n + 4 + n + length rest = omega (
        arith,
        length-append (head deflate m) (masked deflate m ++ rest),
        length-append (masked deflate m) rest,
        length-head deflate m im,
        masked_size,
        size,
      ) in
      at_header host deflate m before (masked deflate m ++ rest) available ws s im idle size fits
      ∙ ap (λ z. frame_content host read (header_of m n (base_size n)) bytes z s)
          (begin_whole m n (base_size n) available (length before) ws1 im.short (size_le n)
            (omega arith) fits)
      ∙ content_lem host m n (base_size n) read (length before + (base_size n + 4 + n)) n bytes ws s
          (first_bits m.op_code m.compressed im.content) im.content idle.first_op
      ∙ ap (λ v. take_view host read v (length before + (base_size n + 4 + n)) (opened m ws) s)
          (view_lem (head deflate m) (masked deflate m) rest (base_size n + 4) n
            (sym (length-head deflate m im)) (sym masked_size))
      ∙ take_final host read (length before + (base_size n + 4 + n)) (masked deflate m)
          (opened m ws) s idle.pending refl
      ∙ ap
          (λ kept.
            dispatch_message host read kept (masked deflate m)
              (length before + (base_size n + 4 + n)) (opened m ws) s)
          idle.kept
      ∙ dispatch_op host read m.op_code (masked deflate m) (length before + (base_size n + 4 + n))
          (opened m ws) s im.content
      ∙ ap
          (λ k.
            dispatch_content host read (masked deflate m) m.op_code (length before + k)
              (opened m ws) s)
          (sym (length-frame deflate m im))

  -- Of a frame without its end the content is kept, and what is missing counted.
  pub cycle_part :
      (part left : List ℕ) (available : ℕ)
      → masked deflate m ≡ part ++ left
      → left ≢ []
      → available ≡ length (head deflate m ++ part)
      → length before + available < 2 ^ 32
      → read_at host
          (length before + available)
          (before ++ (head deflate m ++ part))
          (length before)
          ws
          s
        ≡ (
          finished (returned (ok tt)),
          record (opened m ws) {
            pending_ws_frame_content = length left;
            continuation_buffer = part;
          },
          s,
        )
  cycle_part part left available split some_left size fits =
      let n = length (wire deflate m) in
      let bytes = head deflate m ++ part in
      let read = length before + available in
      let ws1 : Ws = record ws { masking_key = some (key_bytes m) } in
      let ws2 : Ws = record ws { pending_ws_frame_content = base_size n + 4 + n - available } in
      let ws3 : Ws = opened m ws2 in
      let counts : (n ≡ length part + length left) × (0 < length left) = (
        sym (length-mask (key_bytes m) (wire deflate m) 0)
            ∙ ap length split
            ∙ length-append part left,
        length_pos left some_left,
      ) in
      let all : available ≡ base_size n + 4 + length part =
        omega (arith, length-append (head deflate m) part, length-head deflate m im, size) in
      at_header host deflate m before part available ws s im idle size fits
      ∙ ap (λ z. frame_content host read (header_of m n (base_size n)) bytes z s)
          (begin_part m n (base_size n) available (length before) ws1 im.short (size_le n)
            (omega arith) (omega arith))
      ∙ content_lem host m n (base_size n) read 0 (available - (base_size n + 4)) bytes ws2 s
          (first_bits m.op_code m.compressed im.content) im.content idle.first_op
      ∙ ap (λ v. take_view host read v 0 ws3 s)
          (ap (λ b. view b (base_size n + 4) (available - (base_size n + 4)))
              (ap (λ t. head deflate m ++ t) (sym (append-nil part)))
            ∙ view_lem (head deflate m) part [] (base_size n + 4) (available - (base_size n + 4))
                (sym (length-head deflate m im)) (omega arith))
      ∙ take_pending host read 0 part ws3 s (omega arith)
      ∙ ap₂
          (λ k c. (
            finished (returned (ok tt)),
            record (opened m ws) { pending_ws_frame_content = k; continuation_buffer = c },
            s,
          ))
          (omega arith) (ap (λ kept. kept ++ part) idle.kept)

  -- A part of the header waits in front of the next read.
  pub cycle_short :
      (part left : List ℕ) (available : ℕ)
      → head deflate m ≡ part ++ left
      → left ≢ []
      → available ≡ length part
      → length before + available < 2 ^ 32
      → 8 ≤ ws.inbound_size
      → read_at host (length before + available) (before ++ part) (length before) ws s
        ≡ (finished (returned (ok tt)), record ws { prepended = part }, s)
  unfolding read_frame prepend_partial_content
  cycle_short part left available split some_left size fits room =
      let n = length (wire deflate m) in
      let few : available < base_size n + 4 = omega (
        arith,
        sym (length-head deflate m im) ∙ ap length split ∙ length-append part left,
        length_pos left some_left,
        size,
      ) in
      let second : 1 < available → get_or part 1 0 ≡ get_or (head deflate m ++ []) 1 0 = λ two.
        get_or_front part left (rw size at two)
        ∙ ap (λ t. get_or t 1 0) (sym split ∙ sym (append-nil (head deflate m))) in
      read_at_start host before part available ws s fits idle.pending
      ∙ ap (λ r. read_frame host (length before + available) r part available (length before) ws s)
          (read-incomplete host.side part n available im.short few (λ two.
            second two
            ∙ second-client_header (first_byte m.compressed m.op_code) n m.key_0 m.key_1 m.key_2
                m.key_3 [] im.short))
      ∙ ground (arith, take_all part available size, idle.pending, few, size_le n)

-- A read that goes on with a frame: `left` is missing of it.
module _ {S : Type 0} (host : Host S) (ws : Ws) (s : S) (left : List ℕ)
    (missing : ws.pending_ws_frame_content ≡ length left) (some_left : left ≢ []) where
  pub rest_part :
      (part more : List ℕ)
      → left ≡ part ++ more
      → more ≢ []
      → length part < 2 ^ 32
      → read_at host (length part) part 0 ws s ≡ (
        finished (returned (ok tt)),
        record ws {
          pending_ws_frame_content = length more;
          continuation_buffer = ws.continuation_buffer ++ part;
        },
        s,
      )
  unfolding read_pending
  rest_part part more split some_more fits =
      let counts : (length left ≡ length part + length more) × (0 < length more) =
        (ap length split ∙ length-append part more, length_pos more some_more) in
      let test : ltb (length part) ws.pending_ws_frame_content ≡ true = ground (arith, missing) in
      let ws1 : Ws = record ws {
        pending_ws_frame_content = ws.pending_ws_frame_content - length part;
      } in
      let whole_part : view part 0 (length part) ≡ some part =
        ap (λ t. view t 0 (length part)) (sym (append-nil part))
        ∙ view_lem [] part [] 0 (length part) refl refl in
      read_at_rest host part (length part) ws s fits (λ e. omega (arith, length_pos left some_left))
      ∙ ap
          (λ (b : Bool).
            if b
            then take_view host (length part) (view part 0 (length part)) 0 ws1 s
            else take_view host (length part) (view part 0 ws.pending_ws_frame_content)
                ws.pending_ws_frame_content (record ws { pending_ws_frame_content = 0 }) s)
          test
      ∙ ap (λ v. take_view host (length part) v 0 ws1 s) whole_part
      ∙ take_pending host (length part) 0 part ws1 s (omega arith)
      ∙ ap
          (λ k. (
            finished (returned (ok tt)),
            record ws {
              pending_ws_frame_content = k;
              continuation_buffer = ws.continuation_buffer ++ part;
            },
            s,
          ))
          (omega arith)

  pub rest_whole :
      (rest : List ℕ)
      → ws.final_frame ≡ true
      → length (left ++ rest) < 2 ^ 32
      → read_at host (length (left ++ rest)) (left ++ rest) 0 ws s
        ≡ dispatch_message host
            (length (left ++ rest))
            ws.continuation_buffer
            left
            (length left)
            (record ws { pending_ws_frame_content = 0 })
            s
  unfolding read_pending
  rest_whole rest final fits =
      let read = length (left ++ rest) in
      let enough : length left ≤ read = omega (arith, length-append left rest) in
      let test : ltb read ws.pending_ws_frame_content ≡ false = ground (arith, missing) in
      let ws1 : Ws = record ws { pending_ws_frame_content = 0 } in
      read_at_rest host (left ++ rest) read ws s fits
        (λ e. omega (arith, length_pos left some_left))
      ∙ ap
          (λ (b : Bool).
            if b
            then take_view host read (view (left ++ rest) 0 read) 0
                (record ws { pending_ws_frame_content = ws.pending_ws_frame_content - read }) s
            else take_view host read (view (left ++ rest) 0 ws.pending_ws_frame_content)
                ws.pending_ws_frame_content ws1 s)
          test
      ∙ ap (λ k. take_view host read (view (left ++ rest) 0 k) k ws1 s) missing
      ∙ ap (λ v. take_view host read v (length left) ws1 s)
          (view_lem [] left rest 0 (length left) refl refl)
      ∙ take_final host read (length left) left ws1 s refl final
