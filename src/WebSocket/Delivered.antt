-- ===== src/WebSocket/Delivered.antt =====
-- sockets/live/WebSocketLiveEndpoint.hpp: whatever the pieces in which a stream of frames is read, its
-- messages are handed over.
use medici.Prelude.{
  ℕ, ◌+◌, ◌^◌, ◌<◌, ◌≤◌, ◌≡◌, ◌≢◌, inl, inr, refl, ap, ap₂, sym, subst, ◌∙◌, arith, Bool, true,
  false, List, [], ◌∷◌, ◌++◌, none, some, length, append_assoc, append-nil, All, length-append,
}
use medici.WebSocket.{WsOpCode}
use medici.WebSocket.Endpoint.{Ws, Host}
use medici.WebSocket.Receive.{at_end, read_at, read_loop, on_payload_ready}
use medici.WebSocket.Wire.{
  Message, key_bytes, wire, masked, head, frames, IsMessage, frame-head, length-head,
}
use medici.WebSocket.Stages.{length_pos, rest_part, rest_whole}
use medici.WebSocket.Delivery.{Quiet, delivered, next_step}
use medici.WebSocket.Waiting.{split_append, Waiting, at_start, in_header, in_payload, Progress}
use medici.WebSocket.Chunks.{loop_step, loop_from_start, add_message, at_end_whole, at_end_more}
-- `onPayloadReady` stores the time of the first read of a message.
use medici.WebSocket.Cycle.{size_le}
use medici.WebSocket.Stream.{note_read, dispatch_rest, ready_loop, ready_start}

append_nil_right : (xs ys : List ℕ) → xs ++ ys ≡ [] → ys ≡ []
append_nil_right [] ys e = e
append_nil_right (x ∷ xs) ys e = cc

module _ {S : Type 0} (host : Host S) (deflate : List ℕ → List ℕ) (got : WsOpCode → List ℕ → S → S)
    (spent : List ℕ → S → S) (quiet : Quiet host deflate got spent) where
  -- The cycle that ends a payload.
  rest_read :
      (m : Message) (left rest c : List ℕ) (t : ℕ) (ws : Ws) (s : S)
      → IsMessage deflate m
      → ws.pending_ws_frame_content ≡ length left
      → left ≢ []
      → c ≡ left ++ rest
      → length c < 2 ^ 32
      → masked deflate m ≡ ws.continuation_buffer ++ left
      → ws.first_op ≡ some m.op_code
      → ws.masking_key ≡ some (key_bytes m)
      → ws.compressed_message ≡ m.compressed
      → ws.final_frame ≡ true
      → (b : Bool) → at_end (length left) (length c) ≡ b
      → read_at host (length c) c 0 (note_read t ws) s
        ≡ next_step host deflate got spent quiet b
            (length left)
            (record (note_read t ws) { pending_ws_frame_content = 0 })
            (got m.op_code m.payload s)
  rest_read m left rest c t ws s im missing some_left whole fits kept op key flag final b last =
      ap (λ d. read_at host (length d) d 0 (note_read t ws) s) whole
      ∙ rest_whole host (note_read t ws) s left missing some_left rest final
          (subst (λ (d : List ℕ). length d < 2 ^ 32) whole fits)
      ∙ dispatch_rest host deflate got spent quiet m ws.continuation_buffer left b (length left)
          (length (left ++ rest)) (record (note_read t ws) { pending_ws_frame_content = 0 }) s im
          kept (ap (λ d. at_end (length left) (length d)) (sym whole) ∙ last) op key flag

  -- A read inside a payload.
  ready_payload :
      (m : Message) (ms : List Message) (t : ℕ) (c left stream : List ℕ) (ws : Ws) (s : S)
      → All (IsMessage deflate) (m ∷ ms)
      → 8 ≤ ws.inbound_size
      → c ≢ []
      → length c < 2 ^ 32
      → ws.pending_ws_frame_content ≡ length left
      → left ≢ []
      → masked deflate m ≡ ws.continuation_buffer ++ left
      → c ++ stream ≡ left ++ frames deflate ms
      → ws.first_op ≡ some m.op_code
      → ws.masking_key ≡ some (key_bytes m)
      → ws.compressed_message ≡ m.compressed
      → ws.final_frame ≡ true
      → ws.prepended ≡ []
      → Progress deflate got ws.inbound_size (m ∷ ms) stream s (on_payload_ready host t c ws s)
  ready_payload m ms t c left stream ws s (hm, hms) room some_c fits missing some_left kept e op key
        flag final clear =
      let ready =
        ready_loop host deflate got spent quiet t c c ws s (ap (λ p. p ++ c) clear) fits in
      elim (split_append c stream left (frames deflate ms) e) [
        | inl (x, some_x, part, tail) ↦ record {
          done = [];
          left = m ∷ ms;
          after = record (note_read t ws) {
            pending_ws_frame_content = length x;
            continuation_buffer = ws.continuation_buffer ++ c;
          };
          all = refl;
          ended =
              ready
              ∙ loop_step host deflate got spent quiet (length c) (length c) 0 c (note_read t ws) s
                  _ (rest_part host (note_read t ws) s left missing some_left c x part some_x fits);
          waiting =
              in_payload m ms x refl refl some_x
                (kept
                  ∙ ap (λ l. ws.continuation_buffer ++ l) part
                  ∙ sym (append_assoc ws.continuation_buffer c x))
                tail op key flag final refl;
          same_room = refl;
        }
        | inr ([], whole, tail) ↦ record {
          done = m ∷ [];
          left = ms;
          after = delivered none (record (note_read t ws) { pending_ws_frame_content = 0 });
          all = refl;
          ended =
              ready
              ∙ loop_step host deflate got spent quiet (length c) (length c) 0 c (note_read t ws) s
                  _
                  (rest_read m left [] c t ws s hm missing some_left whole fits kept op key flag
                    final true
                    (ap (λ (b : List ℕ). at_end (length left) (length b)) (whole ∙ append-nil left)
                      ∙ at_end_whole (length left)));
          waiting =
              at_start (record { pending = refl; first_op = refl; kept = refl }) refl (sym tail);
          same_room = refl;
        }
        | inr (y ∷ r, whole, tail) ↦
            let rest : List ℕ = y ∷ r in
            let sizes : (length c ≡ length left + length rest) × (0 < length left) =
              (ap length whole ∙ length-append left rest, length_pos left some_left) in
            let s1 = got m.op_code m.payload s in
            let ws1 =
              delivered (some (host.clock s1))
                (record (note_read t ws) { pending_ws_frame_content = 0 }) in
            add_message host deflate got spent quiet m ms ws.inbound_size stream s
              (on_payload_ready host t c ws s)
              (read_loop host (length c) (length left + length rest) (left ++ rest) (length left)
                ws1 s1)
              (ready
                ∙ loop_step host deflate got spent quiet (length c) (length c) 0 c (note_read t ws)
                    s _
                    (rest_read m left rest c t ws s hm missing some_left whole fits kept op key flag
                      final false
                      (at_end_more (length left) (length c) (omega arith) (omega arith)))
                ∙ ap₂ (λ n b. read_loop host (length c) n b (length left) ws1 s1) (omega arith)
                    whole)
              (loop_from_start host deflate got spent quiet ms (length c) left rest stream ws1 s1
                hms (record { pending = refl; first_op = refl; kept = refl }) refl room (λ p. cc)
                (sym tail) (omega arith) (omega arith))
      ]

  -- A read of some bytes, wherever the endpoint stands.
  pub ready-Progress :
      (messages : List Message) (t : ℕ) (c stream : List ℕ) (ws : Ws) (s : S)
      → All (IsMessage deflate) messages
      → 8 ≤ ws.inbound_size
      → c ≢ []
      → length c + 8 < 2 ^ 32
      → Waiting deflate ws messages (c ++ stream)
      → Progress deflate got ws.inbound_size messages stream s (on_payload_ready host t c ws s)
  ready-Progress messages t c stream ws s im room some_c fits (at_start idle clear bytes) =
      ready_start host deflate got spent quiet messages t c c stream ws s im idle room
        (ap (λ p. p ++ c) clear) some_c bytes (omega arith)
  ready-Progress messages t c stream ws s im room some_c fits
        (in_header m ms left same idle front some_left bytes) =
      let hm : IsMessage deflate m × All (IsMessage deflate) ms =
        subst (λ (l : List Message). All (IsMessage deflate) l) same im in
      let sizes : length ws.prepended < 8 = omega (
        arith,
        sym (length-head deflate m hm.0) ∙ ap length front ∙ length-append ws.prepended left,
        length_pos left some_left,
        size_le (length (wire deflate m)),
      ) in
      ready_start host deflate got spent quiet messages t c (ws.prepended ++ c) stream ws s im idle
        room refl (λ e. some_c (append_nil_right ws.prepended c e))
        (append_assoc ws.prepended c stream
          ∙ ap (λ b. ws.prepended ++ b) bytes
          ∙ sym (append_assoc ws.prepended left (masked deflate m ++ frames deflate ms))
          ∙ ap (λ h. h ++ (masked deflate m ++ frames deflate ms)) (sym front)
          ∙ sym (append_assoc (head deflate m) (masked deflate m) (frames deflate ms))
          ∙ ap (λ f. f ++ frames deflate ms) (sym (frame-head deflate m hm.0))
          ∙ ap (frames deflate) (sym same))
        (omega (arith, length-append ws.prepended c))
  ready-Progress messages t c stream ws s im room some_c fits
        (in_payload m ms left same missing some_left kept bytes op key flag final clear) =
      subst
        (λ (l : List Message).
          Progress deflate got ws.inbound_size l stream s (on_payload_ready host t c ws s))
        (sym same)
        (ready_payload m ms t c left stream ws s
          (subst (λ (l : List Message). All (IsMessage deflate) l) same im) room some_c
          (omega arith) missing some_left kept bytes op key flag final clear)
