-- ===== src/Sockets/Tcp.antt =====
-- sockets/live/TcpIpLiveEndpoint.hpp, and the time buffer of sockets/live/EndpointBase.hpp: sends, the queue
-- of asynchronous sends and its limit.
--
-- `Tcp` is the state; `Net` is what the endpoint calls: the connection manager, the event queue and the
-- handlers of the application. A handler or a finish callback may call the endpoint back, so it gets its
-- state and returns it. `processAsyncSendQueue` also copies a time buffer that an entry of the queue does not
-- have; the model leaves that out.

pub mod Owed
pub mod Flush
pub mod Backlog
use medici.Prelude.{
  ℕ, zero, suc, ◌+◌, ◌-◌, ◌*◌, ◌%◌, ◌^◌, Bool, true, false, ◌||◌, ◌==◌, ltb, leb, if◌then◌else◌,
  List, [], ◌∷◌, ◌++◌, Option, none, some, Result, ok, err, Expected, length, drop,
}

pub data TcpError : Type 0 where
  send_in_progress no_send_in_progress backpressure not_open : TcpError
  -- An error of what the endpoint calls.
  net_error : ℕ → TcpError

pub data Drop : Type 0 where
  no_bytes_sent backpressure_limit : Drop
  -- `strerror(errno)`.
  read_failed : ℕ → Drop

abbrev pub max_backpressure_bytes : ℕ
max_backpressure_bytes = 100 * 1024

-- `PendingAsyncSend`. A callback is named by a number, and an empty `CallableT` is `none`.
pub record PendingAsyncSend : Type 0 where
  pub payload : List ℕ
  pub finish_cb : Option ℕ

pub record Tcp : Type 0 where
  pub outbound_buffer : List ℕ
  pub async_bytes_sent : ℕ
  pub queued_backpressure_bytes : ℕ
  pub async_send_in_progress : Bool
  pub active_finish_cb : Option ℕ
  pub pending_async_sends : List PendingAsyncSend
  pub last_send_time : ℕ
  pub active_time_buffer : Option ℕ

pub record Net (S : Type 0) : Type 0 where
  pub clock : S → ℕ
  -- `onPayloadSend` of the event handlers.
  pub on_payload_send : List ℕ → Tcp → S → Expected TcpError × Tcp × S
  pub send : List ℕ → S → Bool × S
  -- What was written, or an error.
  pub send_async : List ℕ → S → Result TcpError ℕ × S
  pub post_async_action : S → Expected TcpError × S
  pub call : ℕ → Tcp → S → Expected TcpError × Tcp × S
  -- `onDisconnected` of the event handlers.
  pub on_disconnected : Drop → Tcp → S → Expected TcpError × Tcp × S
  pub close : S → S

abbrev pub with_state : {S X : Type 0} → Tcp → X × S → X × Tcp × S
with_state t (r, s) = (r, t, s)

abbrev pub then_state :
    {S X : Type 0}
    → Expected TcpError × Tcp × S
    → (Tcp → S → Result TcpError X × Tcp × S)
    → Result TcpError X × Tcp × S
then_state (ok u, t, s) f = f t s
then_state (err e, t, s) f = (err e, t, s)

-- A difference of times is signed; a clock that is behind the last send leaves the time buffer pending.
abbrev pub elapsed : ℕ → ℕ → ℕ → Bool
elapsed now last buffer = leb (last + buffer) now

-- `timeBufferPending`: a buffer that has elapsed is removed.
unfoldable pub time_buffer_pending : ℕ → Tcp → Bool × Tcp
time_buffer_pending now t = elim t.active_time_buffer [
  | none ↦ (false, t)
  | some buffer ↦
      if elapsed now t.last_send_time buffer
      then (false, record t { active_time_buffer = none })
      else (true, t)
]

-- `_asyncSendInProgress || this->timeBufferPending()`.
abbrev pub is_busy : ℕ → Tcp → Bool × Tcp
is_busy now t = elim t.async_send_in_progress [
  | true ↦ (true, t)
  | false ↦ time_buffer_pending now t
]

unfoldable pub clear_async_send_state : Tcp → Tcp
clear_async_send_state t = record t {
  outbound_buffer = [];
  async_bytes_sent = 0;
  queued_backpressure_bytes = 0;
  async_send_in_progress = false;
  active_finish_cb = none;
  pending_async_sends = [];
}

-- `_queuedBackpressureBytes` and its like are `size_t`.
abbrev pub size_mod : ℕ
size_mod = 2 ^ 64

abbrev pub active_backpressure_bytes : Tcp → ℕ
active_backpressure_bytes t =
    if t.async_send_in_progress
    then (if leb t.async_bytes_sent (length t.outbound_buffer)
        then length t.outbound_buffer - t.async_bytes_sent
        else 0)
    else 0

abbrev pub total_backpressure_bytes : Tcp → ℕ → ℕ
total_backpressure_bytes t incoming =
    (t.queued_backpressure_bytes + active_backpressure_bytes t + incoming) % size_mod

-- The entry becomes the active send.
abbrev pub activate : List ℕ → Option ℕ → Tcp → Tcp
activate payload finish_cb t = record t {
  outbound_buffer = payload;
  active_finish_cb = finish_cb;
  async_bytes_sent = 0;
  async_send_in_progress = true;
}

abbrev pub refuse : {S : Type 0} → Expected TcpError × Tcp × S → Expected TcpError × Tcp × S
refuse (err e, t, s) = (err e, t, s)
refuse (ok u, t, s) = (err backpressure, t, s)

module _ {S : Type 0} (net : Net S) where
  unfoldable pub on_disconnected : Drop → Tcp → S → Expected TcpError × Tcp × S
  unfolding clear_async_send_state
  on_disconnected reason t s = net.on_disconnected reason (clear_async_send_state t) (net.close s)

  abbrev pub sent_or_dropped : Tcp → Bool × S → Expected TcpError × Tcp × S
  sent_or_dropped t (true, s) = (ok tt, record t { last_send_time = net.clock s }, s)
  sent_or_dropped t (false, s) = on_disconnected no_bytes_sent t s

  abbrev pub send_when : List ℕ → S → Bool × Tcp → Expected TcpError × Tcp × S
  send_when payload s (true, t) = (err send_in_progress, t, s)
  send_when payload s (false, t) =
      then_state (net.on_payload_send payload t s) λ t1 s1. sent_or_dropped t1 (net.send payload s1)

  unfoldable pub send : List ℕ → Tcp → S → Expected TcpError × Tcp × S
  unfolding time_buffer_pending on_disconnected
  send payload t s = send_when payload s (is_busy (net.clock s) t)

  unfoldable pub verify_backpressure_limit : ℕ → Tcp → S → Expected TcpError × Tcp × S
  unfolding clear_async_send_state on_disconnected
  verify_backpressure_limit incoming t s =
      if leb (total_backpressure_bytes t incoming) max_backpressure_bytes
      then (ok tt, t, s)
      else refuse (on_disconnected backpressure_limit (clear_async_send_state t) s)

  -- The entry waits behind the active send, or becomes it.
  abbrev pub queue_or_start : List ℕ → Option ℕ → S → Bool × Tcp → Expected TcpError × Tcp × S
  queue_or_start buffer finish_cb s (true, t) = (
    ok tt,
    record t {
      queued_backpressure_bytes = (t.queued_backpressure_bytes + length buffer) % size_mod;
      pending_async_sends =
          t.pending_async_sends ++ (record { payload = buffer; finish_cb = finish_cb } ∷ []);
    },
    s,
  )
  queue_or_start buffer finish_cb s (false, t) =
      with_state (activate buffer finish_cb t) (net.post_async_action s)

  unfoldable pub send_async : List ℕ → Option ℕ → Tcp → S → Expected TcpError × Tcp × S
  unfolding verify_backpressure_limit time_buffer_pending
  send_async buffer finish_cb t s =
      then_state (verify_backpressure_limit (length buffer) t s) λ t1 s1.
        then_state (net.on_payload_send buffer t1 s1)
          λ t2 s2. queue_or_start buffer finish_cb s2 (is_busy (net.clock s2) t2)

  abbrev pub after_write : Tcp → Result TcpError ℕ × S → Result TcpError Bool × Tcp × S
  after_write t (err e, s) = (err e, t, s)
  after_write t (ok written, s) =
      if t.async_bytes_sent + written == length t.outbound_buffer
      then (
        ok true,
        record t { outbound_buffer = []; async_bytes_sent = 0; last_send_time = net.clock s },
        s,
      )
      else (ok false, record t { async_bytes_sent = t.async_bytes_sent + written }, s)

  unfoldable pub send_async_cont : Tcp → S → Result TcpError Bool × Tcp × S
  send_async_cont t s = elim t.outbound_buffer [
    | [] ↦ (err no_send_in_progress, t, s)
    | b ∷ bytes ↦ after_write t (net.send_async (drop t.async_bytes_sent t.outbound_buffer) s)
  ]

  -- The next entry of the queue, if the time buffer lets it pass.
  abbrev pub take_next : List PendingAsyncSend → Tcp → S → Result TcpError Bool × Tcp × S
  take_next [] t s = (ok true, t, s)
  take_next (next ∷ sends) t s = (
    ok false,
    activate next.payload next.finish_cb (record t {
      pending_async_sends = sends;
      queued_backpressure_bytes =
          (t.queued_backpressure_bytes + size_mod - length next.payload) % size_mod;
    }),
    s,
  )

  abbrev pub unless_pending : S → Bool × Tcp → Result TcpError Bool × Tcp × S
  unless_pending s (true, t) = (ok false, t, s)
  unless_pending s (false, t) = take_next t.pending_async_sends t s

  unfoldable pub next_send : Tcp → S → Result TcpError Bool × Tcp × S
  unfolding time_buffer_pending
  next_send t s = unless_pending s (time_buffer_pending (net.clock s) t)

  -- The finish callback of the active send, if it has one.
  abbrev pub run_finish : Option ℕ → Tcp → S → Expected TcpError × Tcp × S
  run_finish none t s = (ok tt, t, s)
  run_finish (some cb) t s =
      then_state (net.call cb t s) λ t1 s1. (ok tt, record t1 { active_finish_cb = none }, s1)

  abbrev pub after_cont : Result TcpError Bool × Tcp × S → Result TcpError Bool × Tcp × S
  after_cont (err e, t, s) = (err e, t, s)
  after_cont (ok false, t, s) = (ok false, t, s)
  after_cont (ok true, t, s) =
      then_state (run_finish t.active_finish_cb t s)
        λ t1 s1. next_send (record t1 { async_send_in_progress = false }) s1

  -- The action that the event queue repeats until it is done (`true`).
  unfoldable pub process_async_send_queue : Tcp → S → Result TcpError Bool × Tcp × S
  unfolding send_async_cont next_send
  process_async_send_queue t s = elim t.async_send_in_progress [
    | true ↦ after_cont (send_async_cont t s)
    | false ↦ next_send t s
  ]

  abbrev pub repeat_until :
      (Tcp → S → Result TcpError Bool × Tcp × S)
      → Result TcpError Bool × Tcp × S
      → Result TcpError Bool × Tcp × S
  repeat_until more (err e, t, s) = (err e, t, s)
  repeat_until more (ok true, t, s) = (ok true, t, s)
  repeat_until more (ok false, t, s) = more t s

  -- At most as many runs of the action as the first argument says; `false` if it is not done by then.
  unfoldable pub run_queue : ℕ → Tcp → S → Result TcpError Bool × Tcp × S
  unfolding process_async_send_queue
  run_queue zero t s = (ok false, t, s)
  run_queue (suc runs) t s = repeat_until (run_queue runs) (process_async_send_queue t s)
