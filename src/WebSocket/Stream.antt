-- ===== src/WebSocket/Stream.antt =====
-- sockets/live/WebSocketLiveEndpoint.hpp: a stream of frames, read in pieces of any size.
use medici.Prelude.{
  ℕ, suc, ◌%◌, ◌^◌, ◌<◌, ◌≤◌, ◌≡◌, ◌≢◌, refl, ap, sym, subst, ◌∙◌, arith, Bool, true, false, List,
  [], ◌∷◌, ◌++◌, none, some, length, All,
}
use native.Mathlib.Nat.{mod-eq_of_lt, zero-add}
use medici.WebSocket.{WsOpCode}
use medici.WebSocket.Endpoint.{Ws, Host}
use medici.WebSocket.Receive.{
  at_end, read_loop, dispatch_content, on_payload_ready, dispatch, dispatch_message,
  update_continuation_payload,
}
use medici.WebSocket.Wire.{Message, key_bytes, masked, frames, IsMessage, Idle}
use medici.WebSocket.Stages.{dispatch_op}
use medici.WebSocket.Delivery.{Quiet, next_step, dispatch-masked}
use medici.WebSocket.Waiting.{Progress}
use medici.WebSocket.Chunks.{loop_from_start}

-- `onPayloadReady` stores the time of the first read of a message.
abbrev pub note_read : ℕ → Ws → Ws
note_read t ws = record ws {
  prepended = [];
  frame_read_time = elim ws.frame_read_time [ none ↦ some t | some old ↦ some old ];
}

module _ {S : Type 0} (host : Host S) (deflate : List ℕ → List ℕ) (got : WsOpCode → List ℕ → S → S)
    (spent : List ℕ → S → S) (quiet : Quiet host deflate got spent) where
  dispatch_first :
      (m : Message) (payload : List ℕ) (b : Bool) (next bytes_read : ℕ) (ws : Ws) (s : S)
      → IsMessage deflate m
      → masked deflate m ≡ payload
      → at_end next bytes_read ≡ b
      → ws.first_op ≡ some m.op_code
      → ws.masking_key ≡ some (key_bytes m)
      → ws.compressed_message ≡ m.compressed
      → dispatch host bytes_read ws.first_op payload next ws s
        ≡ next_step host deflate got spent quiet b next ws (got m.op_code m.payload s)
  dispatch_first m payload b next bytes_read ws s im whole last op key flag =
      ap (λ o. dispatch host bytes_read o payload next ws s) op
      ∙ dispatch_op host bytes_read m.op_code payload next ws s im.content
      ∙ ap (λ p. dispatch_content host bytes_read p m.op_code next ws s) (sym whole)
      ∙ dispatch-masked host deflate got spent quiet m b next bytes_read ws s im last key flag

  kept_step :
      (b : Bool) (next : ℕ) (left : List ℕ) (ws : Ws) (s : S)
      → next_step host deflate got spent quiet b next (update_continuation_payload left ws) s
        ≡ next_step host deflate got spent quiet b next ws s
  kept_step true next left ws s = refl
  kept_step false next left ws s = refl

  -- The last part of a message is dispatched with what was kept in front of it.
  pub dispatch_rest :
      (m : Message) (kept left : List ℕ) (b : Bool) (next bytes_read : ℕ) (ws : Ws) (s : S)
      → IsMessage deflate m
      → masked deflate m ≡ kept ++ left
      → at_end next bytes_read ≡ b
      → ws.first_op ≡ some m.op_code
      → ws.masking_key ≡ some (key_bytes m)
      → ws.compressed_message ≡ m.compressed
      → dispatch_message host bytes_read kept left next ws s
        ≡ next_step host deflate got spent quiet b next ws (got m.op_code m.payload s)
  unfolding dispatch_message
  dispatch_rest m [] left b next bytes_read ws s im whole last op key flag =
      dispatch_first m left b next bytes_read ws s im whole last op key flag
  dispatch_rest m (k ∷ kept) left b next bytes_read ws s im whole last op key flag =
      dispatch_first m (k ∷ kept ++ left) b next bytes_read (update_continuation_payload left ws) s
        im whole last op key flag
      ∙ kept_step b next left ws (got m.op_code m.payload s)

  -- The buffer of a read.
  pub ready_loop :
      (t : ℕ) (c buffer : List ℕ) (ws : Ws) (s : S)
      → ws.prepended ++ c ≡ buffer
      → length buffer < 2 ^ 32
      → on_payload_ready host t c ws s
        ≡ read_loop host (suc (length buffer)) (length buffer) buffer 0 (note_read t ws) s
  unfolding on_payload_ready
  ready_loop t c buffer ws s e fits =
      ap (λ b. read_loop host (suc (length b)) (length b % 2 ^ 32) b 0 (note_read t ws) s) e
      ∙ ap (λ n. read_loop host (suc (length buffer)) n buffer 0 (note_read t ws) s)
          (mod-eq_of_lt fits)

  -- A read that begins at the start of a frame.
  pub ready_start :
      (messages : List Message) (t : ℕ) (c buffer stream : List ℕ) (ws : Ws) (s : S)
      → All (IsMessage deflate) messages
      → Idle ws
      → 8 ≤ ws.inbound_size
      → ws.prepended ++ c ≡ buffer
      → buffer ≢ []
      → buffer ++ stream ≡ frames deflate messages
      → length buffer < 2 ^ 32
      → Progress deflate got ws.inbound_size messages stream s (on_payload_ready host t c ws s)
  ready_start messages t c buffer stream ws s im idle room e some_bytes whole fits =
      subst (λ z. Progress deflate got ws.inbound_size messages stream s z)
        (ap (λ (n : ℕ). read_loop host (suc (length buffer)) n buffer 0 (note_read t ws) s)
            (zero-add _)
          ∙ sym (ready_loop t c buffer ws s e fits))
        (loop_from_start host deflate got spent quiet messages (suc (length buffer)) [] buffer
          stream (note_read t ws) s im
          (record { pending = idle.pending; first_op = idle.first_op; kept = idle.kept }) refl room
          some_bytes whole (omega arith) (omega arith))
