-- ===== src/Tests/Tcp.antt =====
-- The theorems about TCP endpoints at concrete inputs.
use medici.Prelude.{
  ℕ, ◌≡◌, ◌≢◌, refl, arith, true, List, [], ◌∷◌, ◌++◌, none, some, ok, length, length-replicate,
  take, replicate,
}
use Prim.Native.Nat.{min}
use medici.Sockets.Tcp.{Tcp, Net, backpressure_limit, refuse, send_async, run_queue}
use medici.Sockets.Tcp.Owed.{owed, Takes, Sending}
use medici.Sockets.Tcp.Flush.{run_queue-owed}
use medici.Sockets.Tcp.Backlog.{given_up, Counted, Passes, send_async-owed, send_async-refused}

-- A socket that takes three bytes at once: what it has written, and which callbacks were called.
abbrev Socket : Type 0
Socket = List ℕ × List ℕ

abbrev put : List ℕ → Socket → Socket
put bytes s = (s.0 ++ bytes, s.1)

abbrev called : ℕ → Socket → Socket
called cb s = (s.0, s.1 ++ (cb ∷ []))

abbrev net : Net Socket
net = record {
  clock = λ s. 100;
  on_payload_send = λ b t s. (ok tt, t, s);
  send = λ b s. (true, put b s);
  send_async = λ b s. (ok (min 3 (length b)), put (take (min 3 (length b)) b) s);
  post_async_action = λ s. (ok tt, s);
  call = λ cb t s. (ok tt, t, called cb s);
  on_disconnected = λ reason t s. (ok tt, t, s);
  close = λ s. s;
}

net-Takes : Takes net (λ s. s.0) (λ s. s.1) (λ b s. min 3 (length b)) put called
net-Takes = record {
  write = λ b s. refl;
  amount_le = λ b s. omega arith;
  amount_pos = λ b s h. omega arith;
  call = λ cb t s. refl;
  output-put = λ b s. refl;
  output-called = λ cb s. refl;
  log-put = λ b s. refl;
  log-called = λ cb s. refl;
}

-- Of the active send a byte was written; another waits, without a callback.
abbrev busy : Tcp
busy = record {
  outbound_buffer = 1 ∷ 2 ∷ 3 ∷ 4 ∷ 5 ∷ [];
  async_bytes_sent = 1;
  queued_backpressure_bytes = 2;
  async_send_in_progress = true;
  active_finish_cb = some 8;
  pending_async_sends = record { payload = 6 ∷ 7 ∷ []; finish_cb = none } ∷ [];
  last_send_time = 90;
  active_time_buffer = none;
}

busy-Sending : Sending busy
busy-Sending = record {
  active = refl;
  unfinished = omega arith;
  no_buffer = refl;
  filled = omega arith;
}

busy-Counted : Counted busy
busy-Counted = record { count = refl; within = omega arith }

run_queue-owed_example :
    (t' : Tcp) × (s' : Socket) × (run_queue net 6 busy ([], []) ≡ (ok true, t', s'))
    × (s'.0 ≡ 2 ∷ 3 ∷ 4 ∷ 5 ∷ 6 ∷ 7 ∷ [])
    × (s'.1 ≡ 8 ∷ [])
    × (owed t' ≡ [])
run_queue-owed_example =
    run_queue-owed net (λ s. s.0) (λ s. s.1) (λ b s. min 3 (length b)) put called net-Takes 6 busy
      ([], []) busy-Sending (omega arith)

net-Passes : Passes net (λ b s. s) (λ s. s)
net-Passes = record { on_payload_send = λ b t s. refl; post_async_action = λ s. refl }

send_async-owed_example :
    let after = send_async net (9 ∷ []) (some 4) busy ([], []) in
    (after.0 ≡ ok tt) × Counted after.1 × (owed after.1 ≡ 2 ∷ 3 ∷ 4 ∷ 5 ∷ 6 ∷ 7 ∷ 9 ∷ [])
send_async-owed_example =
    send_async-owed net (λ b s. s) (λ s. s) net-Passes (9 ∷ []) (some 4) busy ([], []) busy-Counted
      (omega arith)

-- As many bytes as can wait.
heavy : List ℕ
heavy = replicate 102400 7

heavy_size : length heavy ≡ 102400
unfolding heavy
heavy_size = length-replicate {A = ℕ} 102400 7

send_async-refused_example :
    (send_async net heavy none busy ([], [])
      ≡ refuse (net.on_disconnected backpressure_limit (given_up busy) ([], [])))
    × (owed (given_up busy) ≡ [])
    × ((send_async net heavy none busy ([], [])).0 ≢ ok tt)
send_async-refused_example =
    send_async-refused net (λ b s. s) (λ s. s) net-Passes heavy none busy ([], []) busy-Counted
      (omega (arith, heavy_size)) (omega (arith, heavy_size))
