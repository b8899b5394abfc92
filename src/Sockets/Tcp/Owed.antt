-- ===== src/Sockets/Tcp/Owed.antt =====
-- sockets/live/TcpIpLiveEndpoint.hpp: the bytes that an endpoint owes its socket, and one run of
-- `processAsyncSendQueue`.
use medici.Prelude.{
  ℕ, zero, suc, ◌+◌, ◌<◌, ◌≤◌, ◌≡◌, refl, ap, sym, ◌∙◌, arith, Bool, true, false, if◌then◌else◌,
  List, [], ◌∷◌, ◌++◌, Option, none, some, Result, ok, err, length, take, drop, All, append-nil,
}
use native.Mathlib.Nat.{suc-add}
use medici.Sockets.Tcp.{
  TcpError, no_send_in_progress, PendingAsyncSend, Tcp, Net, after_write, send_async_cont,
  next_send, take_next, run_finish, after_cont, then_state, process_async_send_queue,
}

abbrev pub queued : List PendingAsyncSend → List ℕ
queued [] = []
queued (p ∷ sends) = p.payload ++ queued sends

abbrev pub active_bytes : Tcp → List ℕ
active_bytes t = if t.async_send_in_progress then drop t.async_bytes_sent t.outbound_buffer else []

-- What has been accepted and not been written, in order.
abbrev pub owed : Tcp → List ℕ
owed t = active_bytes t ++ queued t.pending_async_sends

abbrev pub callback : Option ℕ → List ℕ
callback none = []
callback (some cb) = cb ∷ []

abbrev pub queued_callbacks : List PendingAsyncSend → List ℕ
queued_callbacks [] = []
queued_callbacks (p ∷ sends) = callback p.finish_cb ++ queued_callbacks sends

-- The finish callbacks that are still to be called, in order.
abbrev pub callbacks : Tcp → List ℕ
callbacks t = callback t.active_finish_cb ++ queued_callbacks t.pending_async_sends

-- A socket that takes some bytes of what it is given, `amount`, and callbacks that leave the endpoint
-- alone: `output` is what was written, `log` which callbacks were called.
pub record Takes {S : Type 0} (net : Net S) (output : S → List ℕ) (log : S → List ℕ)
    (amount : List ℕ → S → ℕ) (put : List ℕ → S → S) (called : ℕ → S → S) : Type 0 where
  pub write :
      (bytes : List ℕ) (s : S)
      → net.send_async bytes s ≡ (ok (amount bytes s), put (take (amount bytes s) bytes) s)
  pub amount_le : (bytes : List ℕ) (s : S) → amount bytes s ≤ length bytes
  pub amount_pos : (bytes : List ℕ) (s : S) → 0 < length bytes → 0 < amount bytes s
  pub call : (cb : ℕ) (t : Tcp) (s : S) → net.call cb t s ≡ (ok tt, t, called cb s)
  pub output-put : (bytes : List ℕ) (s : S) → output (put bytes s) ≡ output s ++ bytes
  pub output-called : (cb : ℕ) (s : S) → output (called cb s) ≡ output s
  pub log-put : (bytes : List ℕ) (s : S) → log (put bytes s) ≡ log s
  pub log-called : (cb : ℕ) (s : S) → log (called cb s) ≡ log s ++ (cb ∷ [])

abbrev pub IsFilled : PendingAsyncSend → Type 0
IsFilled p = 0 < length p.payload

-- A send in progress that has not written everything; no queued payload is empty and no time buffer holds
-- sends back.
pub record Sending (t : Tcp) : Type 0 where
  pub active : t.async_send_in_progress ≡ true
  pub unfinished : t.async_bytes_sent < length t.outbound_buffer
  pub no_buffer : t.active_time_buffer ≡ none
  pub filled : All IsFilled t.pending_async_sends

drop-nil : (m : ℕ) → drop m (let x : List ℕ = [] in x) ≡ []
drop-nil zero = refl
drop-nil (suc m) = refl

pub drop-drop : (n m : ℕ) (xs : List ℕ) → drop m (drop n xs) ≡ drop (n + m) xs
drop-drop zero m xs = ap (λ (k : ℕ). drop k xs) (omega arith)
drop-drop (suc n) m [] = rw suc-add (drop-nil m)
drop-drop (suc n) m (x ∷ xs) = rw suc-add (drop-drop n m xs)

module _ {S : Type 0} (net : Net S) (output : S → List ℕ) (log : S → List ℕ)
    (amount : List ℕ → S → ℕ) (put : List ℕ → S → S) (called : ℕ → S → S)
    (takes : Takes net output log amount put called) where
  -- What a run of the action comes to: it is done and nothing is owed, or it has written some bytes.
  pub data Ran (t : Tcp) (s : S) : Type 0 where
    all_sent :
        (t' : Tcp) (s' : S)
        → process_async_send_queue net t s ≡ (ok true, t', s')
        → t'.async_send_in_progress ≡ false
        → t'.pending_async_sends ≡ []
        → output s' ≡ output s ++ owed t
        → log s' ≡ log s ++ callbacks t
        → Ran t s
    wrote :
        (t' : Tcp) (s' : S)
        → process_async_send_queue net t s ≡ (ok false, t', s')
        → Sending t'
        → output s' ++ owed t' ≡ output s ++ owed t
        → log s' ++ callbacks t' ≡ log s ++ callbacks t
        → length (owed t') < length (owed t)
        → Ran t s

  abbrev pub finish_state : Option ℕ → S → S
  finish_state none s = s
  finish_state (some cb) s = called cb s

  pub output-finish : (cb : Option ℕ) (s : S) → output (finish_state cb s) ≡ output s
  output-finish none s = refl
  output-finish (some cb) s = takes.output-called cb s

  pub log-finish : (cb : Option ℕ) (s : S) → log (finish_state cb s) ≡ log s ++ callback cb
  log-finish none s = sym (append-nil (log s))
  log-finish (some cb) s = takes.log-called cb s

  -- The write of a run: `k` bytes of the rest of the buffer.
  cont_lem :
      (t : Tcp) (s : S)
      → t.async_bytes_sent < length t.outbound_buffer
      → send_async_cont net t s ≡ (
          let rest = drop t.async_bytes_sent t.outbound_buffer in
          after_write net t (ok (amount rest s), put (take (amount rest s) rest) s))
  unfolding send_async_cont
  cont_lem t s h =
      let rest = drop t.async_bytes_sent t.outbound_buffer in
      some_bytes t.outbound_buffer (omega arith)
      ∙ ap (λ z. after_write net t z) (takes.write rest s)
    where
      some_bytes :
          (bytes : List ℕ)
          → 0 < length bytes
          → (elim bytes as (λ x. Result TcpError Bool × Tcp × S) [
            | [] ↦ (err no_send_in_progress, t, s)
            | b ∷ more ↦
                after_write net t (net.send_async (drop t.async_bytes_sent t.outbound_buffer) s)
          ])
            ≡ after_write net t (net.send_async (drop t.async_bytes_sent t.outbound_buffer) s)
      some_bytes [] h = absurd (omega arith)
      some_bytes (b ∷ more) h = refl

  next_lem :
      (t : Tcp) (s : S)
      → t.active_time_buffer ≡ none
      → next_send net t s ≡ take_next net t.pending_async_sends t s
  unfolding next_send
  next_lem t s no_buffer = ground (arith, no_buffer)

  -- The send that is complete is followed by its callback and the next one.
  pub finish_lem :
      (cb : Option ℕ) (t : Tcp) (s : S)
      → t.active_finish_cb ≡ cb
      → t.active_time_buffer ≡ none
      → after_cont net (ok true, t, s)
        ≡ take_next net t.pending_async_sends
            (record t { active_finish_cb = none; async_send_in_progress = false })
            (finish_state cb s)
  finish_lem none t s e no_buffer =
      ap
        (λ (o : Option ℕ).
          then_state (run_finish net o t s)
            λ t1 s1. next_send net (record t1 { async_send_in_progress = false }) s1)
        e
      ∙ next_lem (record t { async_send_in_progress = false }) s no_buffer
      ∙ ap
          (λ (o : Option ℕ).
            take_next net t.pending_async_sends
              (record t { active_finish_cb = o; async_send_in_progress = false }) s)
          e
  finish_lem (some cb) t s e no_buffer =
      ap
        (λ (o : Option ℕ).
          then_state (run_finish net o t s)
            λ t1 s1. next_send net (record t1 { async_send_in_progress = false }) s1)
        e
      ∙ rw (takes.call cb t s) (
          next_lem (record t { async_send_in_progress = false; active_finish_cb = none })
            (called cb s) no_buffer)

  pub step_lem :
      (t : Tcp) (s : S)
      → Sending t
      → process_async_send_queue net t s ≡ (
          let rest = drop t.async_bytes_sent t.outbound_buffer in
          after_cont net
            (after_write net t (ok (amount rest s), put (take (amount rest s) rest) s)))
  unfolding process_async_send_queue
  step_lem t s sending =
      ap
        (λ (b : Bool). elim b as (λ x. Result TcpError Bool × Tcp × S) [
          | true ↦ after_cont net (send_async_cont net t s)
          | false ↦ next_send net t s
        ])
        sending.active
      ∙ ap (λ z. after_cont net z) (cont_lem t s sending.unfinished)
