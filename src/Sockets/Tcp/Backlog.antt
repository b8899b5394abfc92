-- ===== src/Sockets/Tcp/Backlog.antt =====
-- sockets/live/TcpIpLiveEndpoint.hpp: where `sendAsync` puts a buffer, and the limit of what can wait.
use medici.Prelude.{
  ℕ, ◌+◌, ◌-◌, ◌^◌, ◌<◌, ◌≤◌, ◌≡◌, ◌≢◌, refl, ap, ap₂, sym, subst, ◌∙◌, arith, Bool, true, false,
  leb, if◌then◌else◌, List, [], ◌∷◌, ◌++◌, Option, none, ok, err, Expected, length, drop,
  append_assoc, append-nil, length-append, length-drop,
}
use medici.Sockets.Tcp.{
  TcpError, backpressure_limit, PendingAsyncSend, Tcp, Net, max_backpressure_bytes,
  total_backpressure_bytes, active_backpressure_bytes, activate, is_busy, time_buffer_pending,
  queue_or_start, clear_async_send_state, then_state, refuse, send_async, with_state,
}
use medici.Sockets.Tcp.Owed.{queued, active_bytes, owed}

-- The count of queued bytes is their number, and the active send has not written more than there is.
pub record Counted (t : Tcp) : Type 0 where
  pub count : t.queued_backpressure_bytes ≡ length (queued t.pending_async_sends)
  pub within : t.async_bytes_sent ≤ length t.outbound_buffer

-- The handler that sees what is sent, and the event queue, let it pass.
pub record Passes {S : Type 0} (net : Net S) (noted : List ℕ → S → S) (posted : S → S)
    : Type 0 where
  pub on_payload_send :
      (b : List ℕ) (t : Tcp) (s : S) → net.on_payload_send b t s ≡ (ok tt, t, noted b s)
  pub post_async_action : (s : S) → net.post_async_action s ≡ (ok tt, posted s)

queued-append : (ps qs : List PendingAsyncSend) → queued (ps ++ qs) ≡ queued ps ++ queued qs
queued-append [] qs = refl
queued-append (p ∷ ps) qs =
    ap (λ l. p.payload ++ l) (queued-append ps qs)
    ∙ sym (append_assoc p.payload (queued ps) (queued qs))

-- A time buffer changes nothing that is owed.
busy-owed :
    (now : ℕ) (t : Tcp)
    → ((is_busy now t).1.outbound_buffer ≡ t.outbound_buffer)
      × ((is_busy now t).1.async_bytes_sent ≡ t.async_bytes_sent)
      × ((is_busy now t).1.async_send_in_progress ≡ t.async_send_in_progress)
      × ((is_busy now t).1.pending_async_sends ≡ t.pending_async_sends)
      × ((is_busy now t).1.queued_backpressure_bytes ≡ t.queued_backpressure_bytes)
      × ((is_busy now t).0 ≡ false → t.async_send_in_progress ≡ false)
unfolding time_buffer_pending
busy-owed now t = ground arith

-- What the limit is compared with is what is owed, as long as that fits.
total_lem :
    (t : Tcp) (incoming : ℕ)
    → Counted t
    → length (owed t) + incoming < 2 ^ 64
    → total_backpressure_bytes t incoming ≡ length (owed t) + incoming
total_lem t incoming c fits =
    let active : active_backpressure_bytes t ≡ length (active_bytes t) =
      active_lem t.async_send_in_progress t.async_bytes_sent t.outbound_buffer c.within in
    let all : length (owed t) ≡ length (active_bytes t) + length (queued t.pending_async_sends) =
      length-append (active_bytes t) (queued t.pending_async_sends) in
    omega (arith, active, all, c.count)
  where
    active_lem :
        (b : Bool) (n : ℕ) (l : List ℕ)
        → n ≤ length l
        → (if b then (if leb n (length l) then length l - n else 0) else 0)
          ≡ length (if b then drop n l else [])
    active_lem true n l h = ground (arith, length-drop n l)
    active_lem false n l h = refl

start_lem :
    {S : Type 0} (net : Net S) (buffer : List ℕ) (cb : Option ℕ) (t : Tcp) (s : S) (b : Bool)
    (t1 : Tcp) (posted : S → S)
    → net.post_async_action s ≡ (ok tt, posted s)
    → Counted t
    → t1.outbound_buffer ≡ t.outbound_buffer
    → t1.async_bytes_sent ≡ t.async_bytes_sent
    → t1.async_send_in_progress ≡ t.async_send_in_progress
    → t1.pending_async_sends ≡ t.pending_async_sends
    → t1.queued_backpressure_bytes ≡ t.queued_backpressure_bytes
    → length (owed t) + length buffer < 2 ^ 64
    → let after = queue_or_start net buffer cb s (b, t1) in
      (after.0 ≡ ok tt)
      × Counted after.1
      × (owed after.1 ≡ (if b then owed t ++ buffer else buffer ++ queued t.pending_async_sends))
start_lem net buffer cb t s true t1 posted post c out sent progress pending count fits =
    let more : queued (t1.pending_async_sends ++ (record { payload = buffer; finish_cb = cb } ∷ []))
        ≡ queued t.pending_async_sends ++ buffer =
      ap (λ q. queued (q ++ (record { payload = buffer; finish_cb = cb } ∷ []))) pending
      ∙ queued-append t.pending_async_sends (record { payload = buffer; finish_cb = cb } ∷ [])
      ∙ ap (λ l. queued t.pending_async_sends ++ l) (append-nil buffer) in
    let active : active_bytes t1 ≡ active_bytes t =
      ap (λ (b : Bool). if b then drop t1.async_bytes_sent t1.outbound_buffer else []) progress
      ∙ ap₂ (λ n l. if t.async_send_in_progress then drop n l else []) sent out in
    (
      refl,
      record {
        count = omega (
          arith,
          ap length more,
          c.count,
          length-append (queued t.pending_async_sends) buffer,
          length-append (active_bytes t) (queued t.pending_async_sends),
        );
        within = omega (arith, c.within, ap length out);
      },
      ap₂ (λ a q. a ++ q) active more
          ∙ sym (append_assoc (active_bytes t) (queued t.pending_async_sends) buffer),
    )
start_lem net buffer cb t s false t1 posted post c out sent progress pending count fits =
    let t2 : Tcp = activate buffer cb t1 in
    subst
      (λ z.
        ((with_state t2 z).0 ≡ ok tt)
        × Counted (with_state t2 z).1
        × (owed (with_state t2 z).1 ≡ buffer ++ queued t.pending_async_sends))
      (sym post)
      (
        refl,
        record {
          count = count ∙ c.count ∙ ap (λ q. length (queued q)) (sym pending);
          within = omega arith;
        },
        ap (λ q. buffer ++ queued q) pending,
      )

-- The state without its sends and their callbacks; the time of the last send and the time buffer stay.
abbrev pub given_up : Tcp → Tcp
given_up t = record {
  outbound_buffer = [];
  async_bytes_sent = 0;
  queued_backpressure_bytes = 0;
  async_send_in_progress = false;
  active_finish_cb = none;
  pending_async_sends = [];
  last_send_time = t.last_send_time;
  active_time_buffer = t.active_time_buffer;
}

refused_then :
    {S : Type 0} (z : Expected TcpError × Tcp × S) (f : Tcp → S → Expected TcpError × Tcp × S)
    → then_state (refuse z) f ≡ refuse z
refused_then (ok u, t, s) f = refl
refused_then (err e, t, s) f = refl

refused_ne : {S : Type 0} (z : Expected TcpError × Tcp × S) → (refuse z).0 ≢ ok tt
refused_ne (ok u, t, s) e = cc
refused_ne (err x, t, s) e = cc

module _ {S : Type 0} (net : Net S) (noted : List ℕ → S → S) (posted : S → S)
    (passes : Passes net noted posted) (buffer : List ℕ) (cb : Option ℕ) (t : Tcp) (s : S)
    (counted : Counted t) where
  -- A buffer is accepted when it and what is owed make 100 KiB at most. It goes behind everything that is
  -- owed when a send is in progress or the time buffer is pending, and in front of everything that is queued
  -- when not; the count of the queued bytes stays right. The handler that sees the buffer and the event queue
  -- let it pass.
  pub send_async-owed :
      length (owed t) + length buffer ≤ max_backpressure_bytes
      → let after = send_async net buffer cb t s in
        (after.0 ≡ ok tt)
        × Counted after.1
        × (owed after.1 ≡ (
            if (is_busy (net.clock (noted buffer s)) t).0
            then owed t ++ buffer
            else buffer ++ queued t.pending_async_sends))
  unfolding send_async
  send_async-owed few =
      let now = net.clock (noted buffer s) in
      let under : leb (total_backpressure_bytes t (length buffer)) max_backpressure_bytes ≡ true =
        ground (arith, total_lem t (length buffer) counted (omega arith)) in
      let same = busy-owed now t in
      rw (under, passes.on_payload_send buffer t s)
        (start_lem net buffer cb t (noted buffer s) (is_busy now t).0 (is_busy now t).1 posted
          (passes.post_async_action (noted buffer s)) counted same.0 same.1 same.2 same.3 same.4
          (omega arith))

  -- A buffer that would make more than 100 KiB with what is owed is refused, and nothing is sent: the
  -- connection is closed, and the handler is told that the limit is the reason, with a state in which no send
  -- is active, nothing is queued or counted, and the callback of the active send and those of the queued ones
  -- are gone. The result is an error also where the handler's is not. The sum is below 2 ^ 64.
  pub send_async-refused :
      max_backpressure_bytes < length (owed t) + length buffer
      → length (owed t) + length buffer < 2 ^ 64
      → (send_async net buffer cb t s
          ≡ refuse (net.on_disconnected backpressure_limit (given_up t) (net.close s)))
        × (owed (given_up t) ≡ [])
        × ((send_async net buffer cb t s).0 ≢ ok tt)
  unfolding send_async clear_async_send_state
  send_async-refused many fits =
      let over : leb (total_backpressure_bytes t (length buffer)) max_backpressure_bytes ≡ false =
        ground (arith, total_lem t (length buffer) counted fits) in
      let gone = net.on_disconnected backpressure_limit (given_up t) (net.close s) in
      let step : send_async net buffer cb t s ≡ refuse gone = rw over (refused_then gone _) in
      (step, refl, λ e. refused_ne gone (ap (λ z. z.0) (sym step) ∙ e))
