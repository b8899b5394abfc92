-- ===== src/WebSocket/Receive.antt =====
-- sockets/live/WebSocketLiveEndpoint.hpp: `handleWebsocketPayload`, the reading of frames.
--
-- The buffer is the content that was read; a cycle of the loop begins at an offset in it. A view past the
-- end of the buffer is `undefined`. The loop takes fuel, and `waiting` says that it ran out.
use medici.Prelude.{
  ℕ, zero, suc, ◌+◌, ◌*◌, ◌-◌, ◌%◌, ◌^◌, Bool, true, false, not, ◌||◌, ltb, ◌==◌, if◌then◌else◌,
  List, [], ◌∷◌, ◌++◌, Option, none, some, ok, err, Expected, length, get_or, take, drop,
}
use Prim.Native.Nat.{bit_and}
use medici.Http.{codes}
use medici.WebSocket.{
  WsOpCode, continuation, text, binary, closed_connection, ping, pong, unknown, to_op_code,
  mask_from,
}
use medici.WebSocket.Endpoint.{
  WsError, inflate_failed, reserved_bits, closed_by_remote, unexpected_continuation, unknown_frame,
  Side, client, server, Ws, M, Host, with_bytes, reset_ok, send_framed_payload, on_disconnected,
  prepend_partial_content,
}

pub data Outcome : Type 0 where
  returned : Expected WsError → Outcome
  undefined waiting : Outcome

-- A cycle of the loop ends it, or goes on at an offset.
pub data Step : Type 0 where
  finished : Outcome → Step
  again : ℕ → Step

pub record Header : Type 0 where
  pub expected_frame_payload_length : ℕ
  pub header_size : ℕ
  pub key : Option (List ℕ)

pub data HeaderRead : Type 0 where
  incomplete unmasked : HeaderRead
  header : Header → HeaderRead

-- `__builtin_bswap16` and `__builtin_bswap64`, on bytes in memory.
abbrev pub big_endian : ℕ → List ℕ → ℕ
big_endian n [] = n
big_endian n (b ∷ bytes) = big_endian (n * 256 + b) bytes

-- The length and the size of the header without a key. What the source reads past the end of the buffer
-- it does not use.
unfoldable pub read_length : List ℕ → ℕ × ℕ
read_length frame =
    let short = bit_and (get_or frame 1 0) 0x7f in
    if ltb short 126
    then (short, 2)
    else if short == 126
    then (big_endian 0 (take 2 (drop 2 frame)), 4)
    else (big_endian 0 (take 8 (drop 2 frame)) % 2 ^ 32, 10)

abbrev pub without_mask : Side → ℕ × ℕ → HeaderRead
without_mask server length_size = unmasked
without_mask client (expected, size) =
    header (record { expected_frame_payload_length = expected; header_size = size; key = none })

abbrev pub with_mask : List ℕ → ℕ → ℕ × ℕ → HeaderRead
with_mask frame available (expected, size) =
    if ltb available (size + 4)
    then incomplete
    else header (record {
      expected_frame_payload_length = expected;
      header_size = size;
      key = some (take 4 (drop size frame));
    })

-- `available` is `wsFramePayloadSize`.
unfoldable pub read_header : Side → List ℕ → ℕ → HeaderRead
unfolding read_length
read_header side frame available =
    if ltb available 2
    then incomplete
    else if ltb available (read_length frame).1
    then incomplete
    else if bit_and (get_or frame 1 0) 0x80 == 0
    then without_mask side (read_length frame)
    else with_mask frame available (read_length frame)

abbrev pub key_length : Option (List ℕ) → ℕ
key_length none = 0
key_length (some key) = 4

abbrev pub key_or : Option (List ℕ) → Option (List ℕ) → Option (List ℕ)
key_or none old = old
key_or (some key) old = some key

-- The length of the whole frame: the first sum is of 32 bits, the second of 64.
abbrev pub frame_length : Header → ℕ
frame_length h = (h.expected_frame_payload_length + h.header_size) % 2 ^ 32 + key_length h.key

-- `std::string_view` on `n` bytes from an offset on.
unfoldable pub view : List ℕ → ℕ → ℕ → Option (List ℕ)
view bytes offset n =
    if ltb (length bytes) (offset + n) then none else some (take n (drop offset bytes))

-- `_compressedMessage` and `_firstOp`.
abbrev pub note_compressed : WsOpCode → Bool → Ws → Ws
note_compressed text rsv1 ws = record ws { compressed_message = rsv1 }
note_compressed binary rsv1 ws = record ws { compressed_message = rsv1 }
note_compressed continuation rsv1 ws = ws
note_compressed other rsv1 ws = record ws { compressed_message = false }

abbrev pub op_or : Option WsOpCode → WsOpCode → Option WsOpCode
op_or none op_code = some op_code
op_or (some first) op_code = some first

abbrev pub note_op : WsOpCode → Bool → Ws → Ws
note_op op_code rsv1 ws =
    note_compressed op_code rsv1 (record ws { first_op = op_or ws.first_op op_code })

-- `updateContinuationPayload`.
abbrev pub update_continuation_payload : List ℕ → Ws → Ws
update_continuation_payload payload ws = record ws {
  continuation_buffer = ws.continuation_buffer ++ payload;
}

-- The end of a cycle whose frame ends at an offset: there is more to read in the buffer, or there is not.
abbrev pub at_end : ℕ → ℕ → Bool
at_end next bytes_read = next == 0 || next == bytes_read

abbrev pub unmask : Option (List ℕ) → List ℕ → List ℕ
unmask none payload = payload
unmask (some key) payload = mask_from key 0 payload

-- The payload is unmasked in place, and the kept content is where it stands if there is some.
abbrev pub unmask_kept : List ℕ → List ℕ → List ℕ
unmask_kept [] payload = []
unmask_kept (b ∷ kept) payload = payload

-- A frame whose header has been read, at an offset in the buffer.
abbrev pub begin_frame : Header → ℕ → ℕ → Ws → Ws × ℕ × ℕ
begin_frame h available offset ws =
    if ltb available (frame_length h)
    then (
      record ws { pending_ws_frame_content = (frame_length h - available) % 2 ^ 32 },
      0,
      (available + 2 ^ 32 - h.header_size - key_length h.key) % 2 ^ 32,
    )
    else (ws, (offset + frame_length h) % 2 ^ 32, h.expected_frame_payload_length)

module _ {S : Type 0} where
  abbrev pub go_on : Bool → ℕ → M S Step
  go_on true next ws s = (finished (returned (ok tt)), ws, s)
  go_on false next ws s = (again next, ws, s)

  abbrev pub finish_with : Expected WsError × Ws × S → Step × Ws × S
  finish_with (r, ws, s) = (finished (returned r), ws, s)

module _ {S : Type 0} (host : Host S) (bytes_read : ℕ) where
  -- Behind a dispatch.
  abbrev pub after_dispatch : ℕ → Expected WsError × Ws × S → Step × Ws × S
  after_dispatch next (r, ws, s) =
      let ws' = record ws {
        first_op = none;
        continuation_buffer = [];
        compressed_message = false;
      } in
      elim r [
        | err e ↦ (finished (returned (err e)), ws', s)
        | ok u ↦
            if at_end next bytes_read
            then (finished (returned (ok tt)), record ws' { frame_read_time = none }, s)
            else (again next, record ws' { frame_read_time = some (host.clock s) }, s)
      ]

  unfoldable pub deliver : List ℕ → WsOpCode → ℕ → M S Step
  deliver payload op_code next ws s =
      after_dispatch next (host.incoming payload op_code ws.frame_read_time ws s)

  abbrev pub inflate : Bool → List ℕ → WsOpCode → ℕ → M S Step
  inflate false payload op_code next ws s = deliver payload op_code next ws s
  inflate true payload op_code next ws s =
      with_bytes (host.decompress payload s)
        (λ e s1. (finished (returned (err inflate_failed)), ws, s1))
        (λ bytes s1.
          reset_ok (host.reset_decompression s1) (λ e s2. (finished (returned (err e)), ws, s2))
            (λ s2. deliver bytes op_code next ws s2))

  -- The cases `Text` and `Binary`.
  unfoldable pub dispatch_content : List ℕ → WsOpCode → ℕ → M S Step
  unfolding mask_from deliver
  dispatch_content payload op_code next ws s =
      inflate ws.compressed_message (unmask ws.masking_key payload) op_code next
        (record ws {
          masking_key = none;
          continuation_buffer = unmask_kept ws.continuation_buffer (unmask ws.masking_key payload);
        })
        s

  abbrev pub after_pong : List ℕ → ℕ → Expected WsError × Ws × S → Step × Ws × S
  after_pong payload next (err e, ws, s) = (finished (returned (err e)), ws, s)
  after_pong payload next (ok u, ws, s) = deliver payload ping next ws s

  -- The `switch`, on `*_firstOp`.
  unfoldable pub dispatch : Option WsOpCode → List ℕ → ℕ → M S Step
  unfolding dispatch_content deliver send_framed_payload on_disconnected
  dispatch none payload next ws s = (finished undefined, ws, s)
  dispatch (some text) payload next ws s = dispatch_content payload text next ws s
  dispatch (some binary) payload next ws s = dispatch_content payload binary next ws s
  dispatch (some closed_connection) payload next ws s =
      finish_with (on_disconnected host closed_by_remote ws s)
  dispatch (some continuation) payload next ws s =
      finish_with (on_disconnected host unexpected_continuation ws s)
  dispatch (some ping) payload next ws s =
      after_pong payload next (send_framed_payload host pong payload none ws s)
  dispatch (some pong) payload next ws s = deliver payload pong next ws s
  dispatch (some (unknown n)) payload next ws s = finish_with (
      on_disconnected host unknown_frame (record ws { first_op = none; continuation_buffer = [] })
        s)

  -- A complete message: what was kept of it stands before the payload.
  unfoldable pub dispatch_message : List ℕ → List ℕ → ℕ → M S Step
  unfolding dispatch
  dispatch_message [] payload next ws s = dispatch ws.first_op payload next ws s
  dispatch_message (b ∷ kept) payload next ws s =
      dispatch ws.first_op (b ∷ kept ++ payload) next (update_continuation_payload payload ws) s

  -- What a cycle does with the payload of its frame.
  unfoldable pub take_payload : List ℕ → ℕ → M S Step
  unfolding dispatch_message
  take_payload payload next ws s =
      if ltb 0 ws.pending_ws_frame_content
      then (finished (returned (ok tt)), update_continuation_payload payload ws, s)
      else elim ws.final_frame [
        | false ↦ go_on (at_end next bytes_read) next (update_continuation_payload payload ws) s
        | true ↦ dispatch_message ws.continuation_buffer payload next ws s
      ]

  abbrev pub take_view : Option (List ℕ) → ℕ → M S Step
  take_view none next ws s = (finished undefined, ws, s)
  take_view (some payload) next ws s = take_payload payload next ws s

  abbrev pub frame_content : Header → List ℕ → Ws × ℕ × ℕ → S → Step × Ws × S
  frame_content h frame (ws, next, size) s =
      let first = get_or frame 0 0 in
      let ws' = record ws { final_frame = not (bit_and first 0x80 == 0) } in
      if not (bit_and first 0x30 == 0)
      then (finished (returned (err reserved_bits)), ws', s)
      else take_view (view frame (h.header_size + key_length h.key) size) next
          (note_op (to_op_code (bit_and first 0x0f)) (not (bit_and first 0x40 == 0)) ws') s

  unfoldable pub read_frame : HeaderRead → List ℕ → ℕ → ℕ → M S Step
  unfolding take_payload send_framed_payload prepend_partial_content view to_op_code
  read_frame incomplete frame available offset ws s =
      let (r, ws') =
        prepend_partial_content (take available frame)
          (record ws { pending_ws_frame_content = 0 }) in
      (finished (returned r), ws', s)
  read_frame unmasked frame available offset ws s = finish_with (
      send_framed_payload host closed_connection
        (codes "WebSocket protocol violation: RFC 6455, client-to-server frames MUST be masked")
        none ws s)
  read_frame (header h) frame available offset ws s =
      frame_content h frame
        (begin_frame h available offset (record ws { masking_key = key_or h.key ws.masking_key })) s

  -- The rest of a frame that an earlier read began.
  unfoldable pub read_pending : List ℕ → ℕ → M S Step
  unfolding take_payload view
  read_pending frame available ws s =
      let pending = ws.pending_ws_frame_content in
      if ltb available pending
      then take_view (view frame 0 available) 0
          (record ws { pending_ws_frame_content = pending - available }) s
      else take_view (view frame 0 pending) pending (record ws { pending_ws_frame_content = 0 }) s

  -- A cycle of the loop, at an offset.
  unfoldable pub read_at : List ℕ → ℕ → M S Step
  unfolding read_header read_frame read_pending
  read_at buffer offset ws s =
      let frame = drop offset buffer in
      let available = (bytes_read + 2 ^ 32 - offset) % 2 ^ 32 in
      if ws.pending_ws_frame_content == 0
      then read_frame (read_header host.side frame available) frame available offset ws s
      else read_pending frame available ws s

module _ {S : Type 0} (host : Host S) where
  abbrev pub step_then : (ℕ → M S Outcome) → Step × Ws × S → Outcome × Ws × S
  step_then more (finished r, ws, s) = (r, ws, s)
  step_then more (again next, ws, s) = more next ws s

  abbrev pub read_then : M S Outcome → Outcome × Ws × S → Outcome × Ws × S
  read_then more (returned (ok u), ws, s) = more ws s
  read_then more (r, ws, s) = (r, ws, s)

  unfoldable pub read_loop : ℕ → ℕ → List ℕ → ℕ → M S Outcome
  unfolding read_at
  read_loop zero bytes_read buffer offset ws s = (waiting, ws, s)
  read_loop (suc fuel) bytes_read buffer offset ws s =
      step_then (read_loop fuel bytes_read buffer) (read_at host bytes_read buffer offset ws s)

  -- `networkBytesRead` is of 32 bits. A cycle that does not end the loop takes two bytes at least.
  unfoldable pub handle_websocket_payload : List ℕ → M S Outcome
  unfolding read_loop
  handle_websocket_payload buffer ws s =
      read_loop (suc (length buffer)) (length buffer % 2 ^ 32) buffer 0 ws s

  -- `onPayloadReady` of an upgraded endpoint, when `read` has given a chunk: it is put behind the content
  -- that waits, and the HTTP endpoint passes it through.
  unfoldable pub on_payload_ready : ℕ → List ℕ → M S Outcome
  unfolding handle_websocket_payload
  on_payload_ready read_time chunk ws s =
      handle_websocket_payload (ws.prepended ++ chunk)
        (record ws {
          prepended = [];
          frame_read_time = elim ws.frame_read_time [ none ↦ some read_time | some t ↦ some t ];
        })
        s

  -- The reads of the poll manager, each with its time: an error ends them.
  unfoldable pub read_all : List (ℕ × List ℕ) → M S Outcome
  unfolding on_payload_ready
  read_all [] ws s = (returned (ok tt), ws, s)
  read_all ((read_time, chunk) ∷ chunks) ws s =
      read_then (read_all chunks) (on_payload_ready read_time chunk ws s)
