-- ===== src/WebSocket/Chunks.antt =====
-- sockets/live/WebSocketLiveEndpoint.hpp: the loop of `handleWebsocketPayload` on a stream of frames that
-- arrives in pieces.
use medici.Prelude.{
  ℕ, zero, suc, ◌+◌, ◌^◌, ◌<◌, ◌≤◌, ◌≡◌, ◌≢◌, inl, inr, refl, ap, sym, subst, ◌∙◌, arith, Bool,
  true, false, List, [], ◌∷◌, ◌++◌, none, some, ok, length, append_assoc, append-nil, All,
  length-append,
}
use medici.WebSocket.{WsOpCode}
use medici.WebSocket.Endpoint.{Ws, Host}
use medici.WebSocket.Receive.{
  Outcome, Step, returned, finished, at_end, step_then, read_at, read_loop, dispatch_content,
}
use medici.WebSocket.Wire.{
  Message, masked, head, frame, frames, IsMessage, Idle, opened, frame-head, length-frame,
}
use medici.WebSocket.Stages.{cycle_whole, cycle_part, cycle_short}
use medici.WebSocket.Delivery.{Quiet, delivered, next_step, dispatch-masked}
use medici.WebSocket.Waiting.{split_append, at_start, in_header, in_payload, Progress}

pub at_end_whole : (n : ℕ) → at_end n n ≡ true
at_end_whole n = ground arith

pub at_end_more : (n m : ℕ) → 0 < n → n < m → at_end n m ≡ false
at_end_more n m h k = ground arith

module _ {S : Type 0} (host : Host S) (deflate : List ℕ → List ℕ) (got : WsOpCode → List ℕ → S → S)
    (spent : List ℕ → S → S) (quiet : Quiet host deflate got spent) where
  -- One unit of fuel makes a cycle.
  pub loop_step :
      (fuel bytes_read offset : ℕ) (buffer : List ℕ) (ws : Ws) (s : S) (z : Step × Ws × S)
      → read_at host bytes_read buffer offset ws s ≡ z
      → read_loop host (suc fuel) bytes_read buffer offset ws s
        ≡ step_then host (read_loop host fuel bytes_read buffer) z
  unfolding read_loop
  loop_step fuel bytes_read offset buffer ws s z e =
      ap (λ y. step_then host (read_loop host fuel bytes_read buffer) y) e

  -- The front of a frame ends the loop.
  loop_front :
      (m : Message) (ms : List Message) (fuel : ℕ) (before c stream x : List ℕ) (ws : Ws) (s : S)
      → IsMessage deflate m
      → Idle ws
      → ws.prepended ≡ []
      → 8 ≤ ws.inbound_size
      → x ≢ []
      → frame deflate m ≡ c ++ x
      → stream ≡ x ++ frames deflate ms
      → length before + length c < 2 ^ 32
      → Progress deflate got ws.inbound_size
          (m ∷ ms)
          stream
          s
          (read_loop host (suc fuel) (length before + length c) (before ++ c) (length before) ws s)
  loop_front m ms fuel before c stream x ws s im idle clear room some_x whole tail fits =
      elim (split_append c x (head deflate m) (masked deflate m)
        (sym whole ∙ frame-head deflate m im)) [
          | inl (y, some_y, front, rest) ↦ record {
            done = [];
            left = m ∷ ms;
            after = record ws { prepended = c };
            all = refl;
            ended = loop_step fuel (length before + length c) (length before) (before ++ c) ws s _ (
                cycle_short host deflate m im before ws s idle c y (length c) front some_y refl fits
                  room);
            waiting =
                in_header m ms y refl
                  (record { pending = idle.pending; first_op = idle.first_op; kept = idle.kept })
                  front some_y
                  (tail
                    ∙ ap (λ t. t ++ frames deflate ms) rest
                    ∙ append_assoc y (masked deflate m) (frames deflate ms));
            same_room = refl;
          }
          | inr (part, front, rest) ↦ record {
            done = [];
            left = m ∷ ms;
            after = record (opened m ws) {
              pending_ws_frame_content = length x;
              continuation_buffer = part;
            };
            all = refl;
            ended = loop_step fuel (length before + length c) (length before) (before ++ c) ws s _ (
                subst
                  (λ (b : List ℕ).
                    read_at host (length before + length b) (before ++ b) (length before) ws s ≡ (
                      finished (returned (ok tt)),
                      record (opened m ws) {
                        pending_ws_frame_content = length x;
                        continuation_buffer = part;
                      },
                      s,
                    ))
                  (sym front)
                  (cycle_part host deflate m im before ws s idle part x
                    (length (head deflate m ++ part)) rest some_x refl
                    (subst (λ (b : List ℕ). length before + length b < 2 ^ 32) front fits)));
            waiting = in_payload m ms x refl refl some_x rest tail refl refl refl refl clear;
            same_room = refl;
          }
        ]

  -- What a message adds to the progress behind it.
  pub add_message :
      (m : Message) (ms : List Message) (room : ℕ) (stream : List ℕ) (s : S)
      (z z' : Outcome × Ws × S)
      → z ≡ z'
      → Progress deflate got room ms stream (got m.op_code m.payload s) z'
      → Progress deflate got room (m ∷ ms) stream s z
  add_message m ms room stream s z z' e p = record {
    done = m ∷ p.done;
    left = p.left;
    after = p.after;
    all = ap (λ (t : List Message). m ∷ t) p.all;
    ended = e ∙ p.ended;
    waiting = p.waiting;
    same_room = p.same_room;
  }

  -- A whole frame is handed over; with nothing behind it the loop ends.
  whole_step :
      (m : Message) (fuel : ℕ) (before r : List ℕ) (b : Bool) (ws : Ws) (s : S)
      → IsMessage deflate m
      → Idle ws
      → length before + length (frame deflate m ++ r) < 2 ^ 32
      → at_end
          (length before + length (frame deflate m))
          (length before + length (frame deflate m ++ r))
        ≡ b
      → read_loop host
          (suc fuel)
          (length before + length (frame deflate m ++ r))
          (before ++ (frame deflate m ++ r))
          (length before)
          ws
          s
        ≡ step_then host
            (read_loop host fuel
              (length before + length (frame deflate m ++ r))
              (before ++ (frame deflate m ++ r)))
            (next_step host deflate got spent quiet b
              (length before + length (frame deflate m))
              (opened m ws)
              (got m.op_code m.payload s))
  whole_step m fuel before r b ws s im idle fits last =
      let bytes : frame deflate m ++ r ≡ head deflate m ++ (masked deflate m ++ r) =
        ap (λ f. f ++ r) (frame-head deflate m im)
        ∙ append_assoc (head deflate m) (masked deflate m) r in
      let next = length before + length (frame deflate m) in
      let read = length before + length (frame deflate m ++ r) in
      loop_step fuel read (length before) (before ++ (frame deflate m ++ r)) ws s _ (
        subst
          (λ (c : List ℕ).
            read_at host (length before + length c) (before ++ c) (length before) ws s
            ≡ dispatch_content host (length before + length c) (masked deflate m) m.op_code next
                (opened m ws) s)
          (sym bytes)
          (cycle_whole host deflate m im before ws s idle r
            (length (head deflate m ++ (masked deflate m ++ r))) refl
            (subst (λ (c : List ℕ). length before + length c < 2 ^ 32) bytes fits))
        ∙ dispatch-masked host deflate got spent quiet m b next read (opened m ws) s im last refl
            refl)

  frame_pos : (m : Message) → IsMessage deflate m → 0 < length (frame deflate m)
  frame_pos m im = omega (arith, length-frame deflate m im)

  -- From the start of a frame on, the loop hands over the messages whose frames are complete.
  pub loop_from_start :
      (messages : List Message) (fuel : ℕ) (before c stream : List ℕ) (ws : Ws) (s : S)
      → All (IsMessage deflate) messages
      → Idle ws
      → ws.prepended ≡ []
      → 8 ≤ ws.inbound_size
      → c ≢ []
      → c ++ stream ≡ frames deflate messages
      → length c ≤ fuel
      → length before + length c < 2 ^ 32
      → Progress deflate got ws.inbound_size messages stream s
          (read_loop host fuel (length before + length c) (before ++ c) (length before) ws s)
  loop_from_start [] fuel before [] stream ws s im idle clear room some_c e enough fits =
      absurd (some_c refl)
  loop_from_start [] fuel before (x ∷ c) stream ws s im idle clear room some_c e enough fits = cc
  loop_from_start (m ∷ ms) zero before [] stream ws s im idle clear room some_c e enough fits =
      absurd (some_c refl)
  loop_from_start (m ∷ ms) zero before (x ∷ c) stream ws s im idle clear room some_c e enough fits =
      absurd (omega arith)
  loop_from_start (m ∷ ms) (suc fuel) before c stream ws s (hm, hms) idle clear room some_c e enough
        fits =
      elim (split_append c stream (frame deflate m) (frames deflate ms) e) [
        | inl (x, some_x, whole, tail) ↦
            loop_front m ms fuel before c stream x ws s hm idle clear room some_x whole tail fits
        | inr ([], whole, tail) ↦
            let c_frame : c ≡ frame deflate m ++ [] = whole in
            let fits' : length before + length (frame deflate m ++ []) < 2 ^ 32 =
              subst (λ (t : List ℕ). length before + length t < 2 ^ 32) c_frame fits in
            let last : at_end (length before + length (frame deflate m))
                  (length before + length (frame deflate m ++ []))
                ≡ true =
              ap (λ t. at_end (length before + length (frame deflate m)) (length before + length t))
                (append-nil (frame deflate m))
              ∙ at_end_whole (length before + length (frame deflate m)) in
            record {
              done = m ∷ [];
              left = ms;
              after = delivered none (opened m ws);
              all = refl;
              ended =
                  ap
                    (λ t.
                      read_loop host (suc fuel) (length before + length t) (before ++ t)
                        (length before) ws s)
                    c_frame
                  ∙ whole_step m fuel before [] true ws s hm idle fits' last;
              waiting =
                  at_start (record { pending = idle.pending; first_op = refl; kept = refl }) clear
                    (sym tail);
              same_room = refl;
            }
        | inr (y ∷ r, whole, tail) ↦
            let rest : List ℕ = y ∷ r in
            let f = frame deflate m in
            let sizes : (length c ≡ length f + length rest)
                × (length (before ++ f) ≡ length before + length f)
                × (length (f ++ rest) ≡ length f + length rest) =
              (
                ap length whole ∙ length-append f rest,
                length-append before f,
                length-append f rest,
              ) in
            let pos : 0 < length f = frame_pos m hm in
            let ws1 = delivered (some (host.clock (got m.op_code m.payload s))) (opened m ws) in
            let last : at_end (length before + length f) (length before + length (f ++ rest))
                ≡ false =
              at_end_more (length before + length f) (length before + length (f ++ rest))
                (omega arith) (omega arith) in
            let s1 = got m.op_code m.payload s in
            add_message m ms ws.inbound_size stream s
              (read_loop host (suc fuel) (length before + length c) (before ++ c) (length before) ws
                s)
              (read_loop host fuel (length (before ++ f) + length rest) ((before ++ f) ++ rest)
                (length (before ++ f)) ws1 s1)
              (ap
                  (λ t.
                    read_loop host (suc fuel) (length before + length t) (before ++ t)
                      (length before) ws s)
                  whole
                ∙ whole_step m fuel before rest false ws s hm idle (omega arith) last
                ∙ ap
                    (λ n.
                      read_loop host fuel n (before ++ (f ++ rest)) (length before + length f) ws1
                        s1)
                    (omega arith)
                ∙ ap
                    (λ t.
                      read_loop host fuel (length (before ++ f) + length rest) t
                        (length before + length f) ws1 s1)
                    (sym (append_assoc before f rest))
                ∙ ap
                    (λ n.
                      read_loop host fuel (length (before ++ f) + length rest)
                        ((before ++ f) ++ rest) n ws1 s1)
                    (omega arith))
              (loop_from_start ms fuel (before ++ f) rest stream ws1 s1 hms
                (record { pending = idle.pending; first_op = refl; kept = refl }) clear room
                (λ p. cc) (sym tail) (omega arith) (omega arith))
      ]
