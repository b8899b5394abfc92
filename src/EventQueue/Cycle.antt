-- ===== src/EventQueue/Cycle.antt =====
-- event_queue/EventQueue.hpp: `runEventCycle`, `start`, `stop`, `pumpEvents` and `isActive`.
--
-- A stage of the cycle takes the number of events dispatched so far and returns the new one. The loops
-- that fire timed events, and the one of `start`, take fuel; `waiting` says that it ran out.
use medici.Prelude.{
  ℕ, zero, suc, ◌+◌, ◌-◌, ◌%◌, ◌^◌, Bool, true, false, ltb, leb, ◌==◌, if◌then◌else◌, List, [], ◌∷◌,
  Option, none, some, Result, Expected, ok, err, length, get_elem?, set,
}
use medici.EventQueue.{
  Error, already_active, not_active, pump_active, empty_action, Callable, user, async,
  push_precision, push_idle, empty, Deleter, release, destroy, destroy_release, PostEntry, Timed,
  Queue, Exception, bad_function_call, waiting, M, Host,
}
use medici.EventQueue.Threads.{size_mod}
use medici.EventQueue.Post.{push_timed, push_precision_event, push_idle_event, post_async_action}

module _ {A B S : Type 0} where
  abbrev pub pure : {X : Type 0} → X → M A B S X
  pure x q s = (ok x, q, s)

  abbrev pub throw : {X : Type 0} → Exception → M A B S X
  throw e q s = (err e, q, s)

  -- What follows a call that may throw.
  abbrev pub then_do :
      {X Y : Type 0}
      → Result Exception X × Queue A B × S
      → (X → M A B S Y)
      → Result Exception Y × Queue A B × S
  then_do (ok x, q, s) f = f x q s
  then_do (err e, q, s) f = (err e, q, s)

  -- `if (!result) return result;`.
  abbrev pub checked :
      {X Y : Type 0} → (X → M A B S (Result Error Y)) → Result Error X → M A B S (Result Error Y)
  checked f (ok x) = f x
  checked f (err e) = pure (err e)

  -- The result of a post inside a callback.
  abbrev pub posted : Option (Queue A B × Expected Error × Option ℕ) → M A B S (Expected Error)
  posted none q s = (err waiting, q, s)
  posted (some (q', r, cached)) q s = (ok r, q', s)

module _ {A B S : Type 0} (host : Host A B S) (tid : ℕ) where
  -- The wrapper that `postAsyncAction` makes: an action that is not finished is posted again.
  abbrev pub repost : Result Error Bool × B → M A B S (Expected Error)
  repost (err e, b) q s = (ok (err e), q, s)
  repost (ok true, b) q s = (ok (ok tt), q, s)
  repost (ok false, b) q s = posted (post_async_action host.capacity q none tid b) q s

  -- The call of a callable, by the thread `tid`.
  unfoldable pub apply : Callable A B → M A B S (Expected Error)
  unfolding push_timed post_async_action
  apply (user a) q s = host.call a q s
  apply (async b) q s = then_do (host.call_async b q s) repost
  apply (push_precision t a) q s = (ok (ok tt), push_precision_event q t a, s)
  apply (push_idle t a) q s = (ok (ok tt), push_idle_event q t a, s)
  apply empty q s = (err bad_function_call, q, s)

-- The call of a payload delete function.
unfoldable pub delete_payload :
    {A B S : Type 0} → Host A B S → Option Deleter → Queue A B → S → Queue A B × S
delete_payload host none q s = (q, s)
delete_payload host (some release) q s = (
  record q { active_async_store_entries = (q.active_async_store_entries + (2 ^ 32 - 1)) % 2 ^ 32 },
  s,
)
delete_payload host (some (destroy n)) q s = (q, host.destroy n s)
delete_payload host (some (destroy_release n)) q s = (
  record q { active_async_store_entries = (q.active_async_store_entries + (2 ^ 32 - 1)) % 2 ^ 32 },
  host.destroy n s,
)

-- The two queues of timed events.
pub data Timing : Type 0 where
  precision idle : Timing

abbrev pub timed_events : {A B : Type 0} → Timing → Queue A B → List (Timed A B)
timed_events precision q = q.precision_timed_events
timed_events idle q = q.idle_timed_events

abbrev pub without_first : {X : Type 0} → List X → List X
without_first [] = []
without_first (x ∷ xs) = xs

-- `pop`.
abbrev pub pop_timed : {A B : Type 0} → Timing → Queue A B → Queue A B
pop_timed precision q = record q { precision_timed_events = without_first q.precision_timed_events }
pop_timed idle q = record q { idle_timed_events = without_first q.idle_timed_events }

abbrev pub pop_local : {A B : Type 0} → Queue A B → Queue A B
pop_local q = record q { local_event_queue = without_first q.local_event_queue }

abbrev pub deleter_of : {A B : Type 0} → List (PostEntry A B) → Option Deleter
deleter_of [] = none
deleter_of (e ∷ es) = e.payload_delete_function

-- Whether the `std::function` is empty.
abbrev pub is_empty : {A B : Type 0} → Callable A B → Bool
is_empty empty = true
is_empty other = false

-- The queue of the producer `i`.
abbrev pub producer_entries : {A B : Type 0} → Queue A B → ℕ → List (PostEntry A B)
producer_entries q i = elim (get_elem? q.external_producer_queue i) [
  | none ↦ []
  | some p ↦ p.producer_queue.queue
]

abbrev pub pop_producer : {A B : Type 0} → Queue A B → ℕ → Queue A B
pop_producer q i = elim (get_elem? q.external_producer_queue i) [
  | none ↦ q
  | some p ↦ record q {
    external_producer_queue = set q.external_producer_queue i (record p {
      producer_queue = record p.producer_queue { queue = without_first p.producer_queue.queue };
    });
  }
]

module _ {A B S : Type 0} (host : Host A B S) (tid : ℕ) where
  -- The loops that fire the timed events that are ready.
  unfoldable pub fire : Timing → ℕ → ℕ → M A B S (Result Error ℕ)
  unfolding apply
  fire w zero n q s = (err waiting, q, s)
  fire w (suc fuel) n q s = elim (timed_events w q) [
    | [] ↦ (ok (ok n), q, s)
    | e ∷ es ↦
        let (now, s1) = host.clock s in
        elim (leb e.event_time now) [
          | false ↦ (ok (ok n), q, s1)
          | true ↦
              then_do (apply host tid e.action q s1)
                (λ r q2 s2. checked (λ u. fire w fuel ((n + 1) % size_mod)) r (pop_timed w q2) s2)
        ]
  ]

  -- `pollAndDispatchEndpointsEvents`.
  abbrev pub poll_endpoints : ℕ → M A B S (Result Error ℕ)
  poll_endpoints n q s = then_do (host.poll q s) (checked (λ k. pure (ok ((n + k) % size_mod))))

  -- One entry of the local queue, whose entries are the first argument.
  unfoldable pub dispatch_front : List (PostEntry A B) → ℕ → M A B S (Result Error ℕ)
  unfolding apply delete_payload
  dispatch_front [] n q s = (ok (ok n), q, s)
  dispatch_front (e ∷ es) n q s = elim (is_empty e.action) [
    | true ↦ (ok (err empty_action), q, s)
    | false ↦ then_do (apply host tid e.action q s) (λ r q1 s1.
        let (q2, s2) = delete_payload host (deleter_of q1.local_event_queue) q1 s1 in
        checked (λ u. pure (ok ((n + 1) % size_mod))) r (pop_local q2) s2)
  ]

  unfoldable pub dispatch_local : ℕ → M A B S (Result Error ℕ)
  unfolding dispatch_front
  dispatch_local n q s = dispatch_front q.local_event_queue n q s

  -- One entry of the queue of the producer `i`.
  unfoldable pub dispatch_producer : ℕ → ℕ → M A B S (Result Error ℕ)
  unfolding apply delete_payload
  dispatch_producer i n q s = elim (producer_entries q i) [
    | [] ↦ (ok (ok n), q, s)
    | e ∷ es ↦ then_do (apply host tid e.action q s) (λ r q1 s1.
        let (q2, s2) = delete_payload host (deleter_of (producer_entries q1 i)) q1 s1 in
        checked (λ u. pure (ok ((n + 1) % size_mod))) r (pop_producer q2 i) s2)
  ]

  -- The loop over the producers, from `i` on; `k` of the vector's elements are left.
  unfoldable pub dispatch_producers : ℕ → ℕ → ℕ → M A B S (Result Error ℕ)
  unfolding dispatch_producer
  dispatch_producers zero i n q s = (ok (ok n), q, s)
  dispatch_producers (suc k) i n q s = elim (ltb i q.active_producers) [
    | false ↦ (ok (ok n), q, s)
    | true ↦ then_do (dispatch_producer i n q s) (checked (λ m. dispatch_producers k (i + 1) m))
  ]

  -- The idle events, and the sleep of a cycle without events.
  unfoldable pub fire_idle : ℕ → ℕ → M A B S (Expected Error)
  unfolding fire
  fire_idle fuel zero q s =
      then_do (fire idle fuel 0 q s)
        (checked (λ n q1 s1. (ok (ok tt), q1, if n == 0 then host.sleep s1 else s1)))
  fire_idle fuel (suc n) q s = (ok (ok tt), q, s)

  unfoldable pub run_event_cycle : ℕ → M A B S (Expected Error)
  unfolding fire dispatch_local dispatch_producers fire_idle
  run_event_cycle fuel q s = then_do (fire precision fuel 0 q s) (
      checked (λ n1 q1 s1. then_do (poll_endpoints n1 q1 s1) (
        checked (λ n2 q2 s2. then_do (dispatch_local n2 q2 s2) (
          checked (λ n3 q3 s3.
            then_do (dispatch_producers (length q3.external_producer_queue) 0 n3 q3 s3)
              (checked (λ n4. fire_idle fuel n4))))))))

  -- The loop of `start`.
  unfoldable pub run_loop : ℕ → ℕ → M A B S (Expected Error)
  unfolding run_event_cycle
  run_loop zero fuel q s = (err waiting, q, s)
  run_loop (suc cycles) fuel q s = elim q.active_thread_id [
    | none ↦ (ok (ok tt), q, s)
    | some t ↦ then_do (run_event_cycle fuel q s) (checked (λ u. run_loop cycles fuel))
  ]

  unfoldable pub start : ℕ → ℕ → M A B S (Expected Error)
  unfolding run_loop
  start cycles fuel q s = elim q.active_thread_id [
    | some t ↦ (ok (err already_active), q, s)
    | none ↦ run_loop cycles fuel (record q { active_thread_id = some tid; is_active = true }) s
  ]

  unfoldable pub pump_events : ℕ → M A B S (Expected Error)
  unfolding run_event_cycle
  pump_events fuel q s = elim q.active_thread_id [
    | some t ↦ (ok (err pump_active), q, s)
    | none ↦ run_event_cycle fuel q s
  ]

unfoldable pub stop : {A B : Type 0} → Queue A B → Queue A B × Expected Error
stop q = elim q.active_thread_id [
  | none ↦ (q, err not_active)
  | some t ↦ (record q { active_thread_id = none; is_active = false }, ok tt)
]
