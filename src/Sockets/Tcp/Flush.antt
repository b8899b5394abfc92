-- ===== src/Sockets/Tcp/Flush.antt =====
-- sockets/live/TcpIpLiveEndpoint.hpp: the runs of `processAsyncSendQueue` until nothing is owed.
use medici.Prelude.{
  ℕ, zero, suc, ◌+◌, ◌-◌, ◌<◌, ◌≤◌, ◌≡◌, refl, ap, ap₂, sym, subst, ◌∙◌, arith, Bool, true, false,
  ◌==◌, if◌then◌else◌, List, [], ◌∷◌, ◌++◌, none, ok, length, take, drop, All, append_assoc,
  append-nil, length-append, length-drop, take-append-drop,
}
use native.Mathlib.Decide.{dec_lt}
use medici.Sockets.Tcp.{
  PendingAsyncSend, Tcp, Net, after_write, take_next, after_cont, process_async_send_queue,
  repeat_until, run_queue,
}
use medici.Sockets.Tcp.Owed.{
  queued, active_bytes, owed, callback, queued_callbacks, callbacks, Takes, IsFilled, Sending,
  drop-drop, Ran, all_sent, wrote, finish_state, output-finish, log-finish, finish_lem, step_lem,
}

owed_pos : (t : Tcp) → Sending t → 0 < length (owed t)
owed_pos t sending =
    let active : active_bytes t ≡ drop t.async_bytes_sent t.outbound_buffer =
      ap (λ (b : Bool). if b then drop t.async_bytes_sent t.outbound_buffer else [])
        sending.active in
    omega (
      arith,
      ap length active,
      length-append (active_bytes t) (queued t.pending_async_sends),
      length-drop t.async_bytes_sent t.outbound_buffer,
      sending.unfinished,
    )

take_whole : (xs : List ℕ) → take (length xs) xs ≡ xs
take_whole [] = refl
take_whole (x ∷ xs) = ap (λ l. x ∷ l) (take_whole xs)

module _ {S : Type 0} (net : Net S) (output : S → List ℕ) (log : S → List ℕ)
    (amount : List ℕ → S → ℕ) (put : List ℕ → S → S) (called : ℕ → S → S)
    (takes : Takes net output log amount put called) where
  -- A write of a part.
  partly_written :
      (t : Tcp) (s : S) (rest : List ℕ) (k : ℕ)
      → Sending t
      → rest ≡ drop t.async_bytes_sent t.outbound_buffer
      → 0 < k
      → k < length rest
      → process_async_send_queue net t s
        ≡ after_cont net (after_write net t (ok k, put (take k rest) s))
      → Ran net output log amount put called takes t s
  partly_written t s rest k sending e pos part step =
      let sizes : length rest ≡ length t.outbound_buffer - t.async_bytes_sent =
        ap length e ∙ length-drop t.async_bytes_sent t.outbound_buffer in
      let more : (t.async_bytes_sent + k == length t.outbound_buffer) ≡ false =
        ground (arith, sizes, sending.unfinished) in
      let t1 : Tcp = record t { async_bytes_sent = t.async_bytes_sent + k } in
      let owed_t : owed t ≡ rest ++ queued t.pending_async_sends =
        ap
          (λ (b : Bool).
            (if b then drop t.async_bytes_sent t.outbound_buffer else [])
            ++ queued t.pending_async_sends)
          sending.active
        ∙ ap (λ l. l ++ queued t.pending_async_sends) (sym e) in
      let owed_t1 : owed t1 ≡ drop k rest ++ queued t.pending_async_sends =
        ap
          (λ (b : Bool).
            (if b then drop (t.async_bytes_sent + k) t.outbound_buffer else [])
            ++ queued t.pending_async_sends)
          sending.active
        ∙ ap (λ l. l ++ queued t.pending_async_sends)
            (sym (drop-drop t.async_bytes_sent k t.outbound_buffer) ∙ ap (drop k) (sym e)) in
      wrote t1 (put (take k rest) s)
        (step
          ∙ ap
              (λ (b : Bool). after_cont net (
                if b
                then (
                  ok true,
                  record t {
                    outbound_buffer = [];
                    async_bytes_sent = 0;
                    last_send_time = net.clock (put (take k rest) s);
                  },
                  put (take k rest) s,
                )
                else (ok false, t1, put (take k rest) s)))
              more)
        (record {
          active = sending.active;
          unfinished = omega (arith, sending.unfinished);
          no_buffer = sending.no_buffer;
          filled = sending.filled;
        })
        (ap₂ (λ a b. a ++ b) (takes.output-put (take k rest) s) owed_t1
          ∙ append_assoc (output s) (take k rest) (drop k rest ++ queued t.pending_async_sends)
          ∙ ap (λ l. output s ++ l)
              (sym (append_assoc (take k rest) (drop k rest) (queued t.pending_async_sends))
                ∙ ap (λ l. l ++ queued t.pending_async_sends) (take-append-drop k rest)
                ∙ sym owed_t))
        (ap (λ l. l ++ callbacks t) (takes.log-put (take k rest) s))
        (omega (
          arith,
          ap length owed_t1,
          ap length owed_t,
          length-append (drop k rest) (queued t.pending_async_sends),
          length-append rest (queued t.pending_async_sends),
          length-drop k rest,
        ))

  -- The write that completes the active send, with what waits behind it.
  completely_written :
      (t : Tcp) (s : S) (rest : List ℕ) (sends : List PendingAsyncSend)
      → Sending t
      → rest ≡ drop t.async_bytes_sent t.outbound_buffer
      → t.pending_async_sends ≡ sends
      → process_async_send_queue net t s
        ≡ after_cont net (after_write net t (ok (length rest), put (take (length rest) rest) s))
      → Ran net output log amount put called takes t s
  completely_written t s rest sends sending e waiting step =
      let sizes : length rest ≡ length t.outbound_buffer - t.async_bytes_sent =
        ap length e ∙ length-drop t.async_bytes_sent t.outbound_buffer in
      let complete : (t.async_bytes_sent + length rest == length t.outbound_buffer) ≡ true =
        ground (arith, sizes, sending.unfinished) in
      let s1 = put (take (length rest) rest) s in
      let t1 : Tcp = record t {
        outbound_buffer = [];
        async_bytes_sent = 0;
        last_send_time = net.clock s1;
      } in
      let t2 : Tcp = record t1 { active_finish_cb = none; async_send_in_progress = false } in
      let s2 = finish_state net output log amount put called takes t.active_finish_cb s1 in
      let owed_t : owed t ≡ rest ++ queued sends =
        ap
          (λ (b : Bool).
            (if b then drop t.async_bytes_sent t.outbound_buffer else [])
            ++ queued t.pending_async_sends)
          sending.active
        ∙ ap₂ (λ l q. l ++ queued q) (sym e) waiting in
      let written : output s2 ≡ output s ++ rest =
        output-finish net output log amount put called takes t.active_finish_cb s1
        ∙ takes.output-put (take (length rest) rest) s
        ∙ ap (λ l. output s ++ l) (take_whole rest) in
      let called_back : log s2 ≡ log s ++ callback t.active_finish_cb =
        log-finish net output log amount put called takes t.active_finish_cb s1
        ∙ ap (λ l. l ++ callback t.active_finish_cb) (takes.log-put (take (length rest) rest) s) in
      let stepped : process_async_send_queue net t s ≡ take_next net sends t2 s2 =
        step
        ∙ ap
            (λ (b : Bool). after_cont net (
              if b then (ok true, t1, s1) else (
                ok false,
                record t { async_bytes_sent = t.async_bytes_sent + length rest },
                s1,
              )))
            complete
        ∙ finish_lem net output log amount put called takes t.active_finish_cb t1 s1 refl
            sending.no_buffer
        ∙ ap (λ q. take_next net q t2 s2) waiting in
      last sends (subst (λ (q : List PendingAsyncSend). All IsFilled q) waiting sending.filled)
        waiting t1 s2 sending.no_buffer waiting (omega (arith, sizes, sending.unfinished)) owed_t
        written called_back stepped
    where
      last :
          (q : List PendingAsyncSend)
          → All IsFilled q
          → t.pending_async_sends ≡ q
          → (t1 : Tcp) (s2 : S) → t1.active_time_buffer ≡ none
          → t1.pending_async_sends ≡ q
          → 0 < length rest
          → owed t ≡ rest ++ queued q
          → output s2 ≡ output s ++ rest
          → log s2 ≡ log s ++ callback t.active_finish_cb
          → process_async_send_queue net t s
            ≡ take_next net q
                (record t1 { active_finish_cb = none; async_send_in_progress = false })
                s2
          → Ran net output log amount put called takes t s
      last [] filled same t1 s2 no_buffer still pos owed_t written called_back stepped =
          all_sent _ s2 stepped refl still
            (written ∙ ap (λ l. output s ++ l) (sym (append-nil rest) ∙ sym owed_t))
            (called_back
              ∙ ap (λ l. log s ++ l) (sym (append-nil (callback t.active_finish_cb)))
              ∙ ap (λ l. log s ++ (callback t.active_finish_cb ++ queued_callbacks l)) (sym same))
      last (p ∷ q) (some_bytes, filled) same t1 s2 no_buffer still pos owed_t written called_back
            stepped =
          wrote _ s2 stepped
            (record {
              active = refl;
              unfinished = some_bytes;
              no_buffer = no_buffer;
              filled = filled;
            })
            (ap (λ l. l ++ (p.payload ++ queued q)) written
              ∙ append_assoc (output s) rest (p.payload ++ queued q)
              ∙ ap (λ l. output s ++ l) (sym owed_t))
            (ap (λ l. l ++ (callback p.finish_cb ++ queued_callbacks q)) called_back
              ∙ append_assoc (log s) (callback t.active_finish_cb)
                  (callback p.finish_cb ++ queued_callbacks q)
              ∙ ap (λ l. log s ++ (callback t.active_finish_cb ++ queued_callbacks l)) (sym same))
            (omega (arith, ap length owed_t, length-append rest (p.payload ++ queued q), pos))

  -- One run of the action.
  ran : (t : Tcp) (s : S) → Sending t → Ran net output log amount put called takes t s
  ran t s sending =
      let rest = drop t.async_bytes_sent t.outbound_buffer in
      let k = amount rest s in
      let size : 0 < length rest =
        omega (arith, length-drop t.async_bytes_sent t.outbound_buffer, sending.unfinished) in
      let step = step_lem net output log amount put called takes t s sending in
      elim (dec_lt k (length rest)) [
        | yes part ↦ partly_written t s rest k sending refl (takes.amount_pos rest s size) part step
        | no whole ↦
            let all : k ≡ length rest = omega (arith, takes.amount_le rest s) in
            completely_written t s rest t.pending_async_sends sending refl refl
              (step ∙ ap (λ n. after_cont net (after_write net t (ok n, put (take n rest) s))) all)
      ]

  -- Where a socket takes some bytes of what it is given, the repeated action ends, after as many runs at most
  -- as there are bytes owed: the bytes of the active send and of all queued sends have been written in the
  -- order of the sends, and each finish callback has been called once, in that order too. A send is in
  -- progress, no queued payload is empty, no time buffer holds sends back, and callbacks leave the endpoint
  -- alone.
  pub run_queue-owed :
      (runs : ℕ) (t : Tcp) (s : S)
      → Sending t
      → length (owed t) ≤ runs
      → (t' : Tcp) × (s' : S) × (run_queue net runs t s ≡ (ok true, t', s'))
        × (output s' ≡ output s ++ owed t)
        × (log s' ≡ log s ++ callbacks t)
        × (owed t' ≡ [])
  unfolding run_queue
  run_queue-owed zero t s sending enough = absurd (omega (arith, owed_pos t sending))
  run_queue-owed (suc runs) t s sending enough = elim (ran t s sending) [
    | all_sent t' s' step done empty written called_back ↦ (
      t',
      s',
      ap (λ z. repeat_until net (run_queue net runs) z) step,
      written,
      called_back,
      ground (arith, done, empty),
    )
    | wrote t' s' step sending' written called_back fewer ↦
        let rest = run_queue-owed runs t' s' sending' (omega arith) in
        (
          rest.0,
          rest.1,
          ap (λ z. repeat_until net (run_queue net runs) z) step ∙ rest.2,
          rest.3 ∙ written,
          rest.4 ∙ called_back,
          rest.5,
        )
  ]
