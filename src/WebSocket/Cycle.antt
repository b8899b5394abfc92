-- ===== src/WebSocket/Cycle.antt =====
-- sockets/live/WebSocketLiveEndpoint.hpp: one cycle of `handleWebsocketPayload` on a frame, or on a part of
-- it.
use medici.Prelude.{
  ℕ, ◌+◌, ◌-◌, ◌%◌, ◌^◌, ◌<◌, ◌≤◌, ◌≡◌, ◌≢◌, refl, ap, ◌∙◌, arith, Bool, true, false, not, ◌==◌,
  if◌then◌else◌, List, ◌++◌, none, some, ok, length, get_or, length-append, take-append,
  drop-append,
}
use medici.WebSocket.{WsOpCode, text, binary, is_content, first_byte}
use medici.WebSocket.Endpoint.{Ws, Host}
use medici.WebSocket.Receive.{
  HeaderRead, finished, returned, Header, view, take_payload, take_view, begin_frame, frame_content,
  read_header, read_frame, read_pending, read_at, dispatch_message, note_op,
  update_continuation_payload,
}
use medici.WebSocket.Frames.{base_size, read-client_header}
use medici.WebSocket.Wire.{
  Message, key_bytes, wire, head, IsMessage, length-head, FirstBits, Idle, opened,
}

-- A view that lies in the bytes.
pub view_lem :
    (before part rest : List ℕ) (offset n : ℕ)
    → offset ≡ length before
    → n ≡ length part
    → view (before ++ (part ++ rest)) offset n ≡ some part
unfolding view
view_lem before part rest offset n ho hn =
    rw (ho, hn)
      (let fits : length before + length part ≤ length (before ++ (part ++ rest)) =
          omega (arith, length-append before (part ++ rest), length-append part rest) in
        ground (arith, fits, drop-append before (part ++ rest), take-append part rest))

abbrev pub header_of : Message → ℕ → ℕ → Header
header_of m n size = record {
  expected_frame_payload_length = n;
  header_size = size;
  key = some (key_bytes m);
}

noted :
    (op_code : WsOpCode) (rsv1 : Bool) (ws : Ws)
    → is_content op_code ≡ true
    → ws.first_op ≡ none
    → note_op op_code rsv1 ws ≡ record ws { first_op = some op_code; compressed_message = rsv1 }
noted text rsv1 ws h fresh = ground (arith, fresh)
noted binary rsv1 ws h fresh = ground (arith, fresh)
noted _ rsv1 ws h fresh = cc

module _ {S : Type 0} (host : Host S) where
  -- The bits of the first byte make the frame a final one with content.
  pub content_lem :
      (m : Message) (n size bytes_read next current : ℕ) (bytes : List ℕ) (ws : Ws) (s : S)
      → FirstBits m.op_code m.compressed (get_or bytes 0 0)
      → is_content m.op_code ≡ true
      → ws.first_op ≡ none
      → frame_content host bytes_read
          (header_of m n size)
          bytes
          (record ws { masking_key = some (key_bytes m) }, next, current)
          s
        ≡ take_view host bytes_read (view bytes (size + 4) current) next (opened m ws) s
  content_lem m n size bytes_read next current bytes ws s bits content fresh =
      rw (bits.reserved, bits.op, bits.fin, bits.rsv1)
        (let ws1 : Ws = record ws { masking_key = some (key_bytes m); final_frame = true } in
          let rsv : not ((if m.compressed then 64 else 0) == 0) ≡ m.compressed =
            rsv_lem m.compressed in
          rw rsv (
            ap (λ (w : Ws). take_view host bytes_read (view bytes (size + 4) current) next w s)
              (noted m.op_code m.compressed ws1 content fresh)))
    where
      rsv_lem : (c : Bool) → not ((if c then 64 else 0) == 0) ≡ c
      rsv_lem true = refl
      rsv_lem false = refl

module _ {S : Type 0} (host : Host S) (before bytes : List ℕ) (available : ℕ) (ws : Ws) (s : S)
    (fits : length before + available < 2 ^ 32) where
  size_lem : ((length before + available) + 2 ^ 32 - length before) % 2 ^ 32 ≡ available
  size_lem = omega arith

  pub read_at_start :
      ws.pending_ws_frame_content ≡ 0
      → read_at host (length before + available) (before ++ bytes) (length before) ws s
        ≡ read_frame host
            (length before + available)
            (read_header host.side bytes available)
            bytes
            available
            (length before)
            ws
            s
  unfolding read_at
  read_at_start none_pending =
      let top : (ws.pending_ws_frame_content == 0) ≡ true = ground (arith, none_pending) in
      rw (drop-append before bytes, size_lem, top)

-- Content of a frame that is pending stands at the front of the buffer.
pub read_at_rest :
    {S : Type 0} (host : Host S) (bytes : List ℕ) (available : ℕ) (ws : Ws) (s : S)
    → available < 2 ^ 32
    → ws.pending_ws_frame_content ≢ 0
    → read_at host available bytes 0 ws s ≡ read_pending host available bytes available ws s
unfolding read_at
read_at_rest host bytes available ws s fits some_pending =
    let top : (ws.pending_ws_frame_content == 0) ≡ false = ground (arith, some_pending) in
    let size : (available + 2 ^ 32 - 0) % 2 ^ 32 ≡ available = omega arith in rw (size, top)

module _ {S : Type 0} (host : Host S) (deflate : List ℕ → List ℕ) where
  -- A cycle whose buffer holds what a frame begins with.
  pub at_header :
      (m : Message) (before part : List ℕ) (available : ℕ) (ws : Ws) (s : S)
      → IsMessage deflate m
      → Idle ws
      → available ≡ length (head deflate m ++ part)
      → length before + available < 2 ^ 32
      → read_at host
          (length before + available)
          (before ++ (head deflate m ++ part))
          (length before)
          ws
          s
        ≡ frame_content host
            (length before + available)
            (header_of m (length (wire deflate m)) (base_size (length (wire deflate m))))
            (head deflate m ++ part)
            (begin_frame
              (header_of m (length (wire deflate m)) (base_size (length (wire deflate m))))
              available
              (length before)
              (record ws { masking_key = some (key_bytes m) }))
            s
  unfolding read_frame
  at_header m before part available ws s im idle size fits =
      let n = length (wire deflate m) in
      let all : available ≡ base_size n + 4 + length part =
        omega (arith, length-append (head deflate m) part, length-head deflate m im, size) in
      let got =
        read-client_header host.side (first_byte m.compressed m.op_code) n m.key_0 m.key_1 m.key_2
          m.key_3 (length part) part im.short in
      read_at_start host before (head deflate m ++ part) available ws s fits idle.pending
      ∙ ap
          (λ (r : HeaderRead).
            read_frame host (length before + available) r (head deflate m ++ part) available
              (length before) ws s)
          (rw (← all) at got)

pub begin_whole :
    (m : Message) (n size available offset : ℕ) (ws : Ws)
    → n < 65536
    → size ≤ 4
    → size + 4 + n ≤ available
    → offset + available < 2 ^ 32
    → begin_frame (header_of m n size) available offset ws ≡ (ws, offset + (size + 4 + n), n)
begin_whole m n size available offset ws hn hs all fits = ground arith

pub begin_part :
    (m : Message) (n size available offset : ℕ) (ws : Ws)
    → n < 65536
    → size ≤ 4
    → size + 4 ≤ available
    → available < size + 4 + n
    → begin_frame (header_of m n size) available offset ws ≡ (
      record ws { pending_ws_frame_content = size + 4 + n - available },
      0,
      available - (size + 4),
    )
begin_part m n size available offset ws hn hs some_more part = ground arith

-- The message is dispatched, with what was kept of it in front.
pub take_final :
    {S : Type 0} (host : Host S) (bytes_read next : ℕ) (payload : List ℕ) (ws : Ws) (s : S)
    → ws.pending_ws_frame_content ≡ 0
    → ws.final_frame ≡ true
    → take_payload host bytes_read payload next ws s
      ≡ dispatch_message host bytes_read ws.continuation_buffer payload next ws s
unfolding take_payload
take_final host bytes_read next payload ws s none_pending final =
    ground (arith, none_pending, final)

pub take_pending :
    {S : Type 0} (host : Host S) (bytes_read next : ℕ) (payload : List ℕ) (ws : Ws) (s : S)
    → 0 < ws.pending_ws_frame_content
    → take_payload host bytes_read payload next ws s
      ≡ (finished (returned (ok tt)), update_continuation_payload payload ws, s)
unfolding take_payload
take_pending host bytes_read next payload ws s some_pending = ground (arith, some_pending)

pub size_le : (n : ℕ) → base_size n ≤ 4
size_le n = ground arith
