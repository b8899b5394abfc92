-- ===== src/Tests/Queue.antt =====
-- An event queue whose callbacks count. A callback of the application is a number that it adds to the
-- time; an asynchronous one is the number of calls that it still needs.
use medici.Prelude.{
  ℕ, zero, suc, ◌+◌, ◌%◌, ◌≡◌, ◌≢◌, refl, Bool, true, false, [], ◌∷◌, ◌++◌, none, Result, ok, err,
  arith, length,
}
use medici.EventQueue.{Error, user, empty, PostEntry, Timed, Queue, M, Host, waiting}
use medici.EventQueue.Post.{get_local_payload}
use medici.EventQueue.Cycle.{precision, timed_events, apply, delete_payload, fire, dispatch_local}
use medici.EventQueue.Timers.{NothingDue, AllUser, fire-NothingDue, fire_terminates}
use medici.EventQueue.Local.{counted, async_entry, dispatch_local_fifo}
use medici.EventQueue.Payloads.{Usable, reserve_all, payload_reused}

-- The callback 0 stops the queue.
abbrev call : ℕ → M ℕ ℕ ℕ (Result Error Unit)
call zero q s = (ok (ok tt), record q { active_thread_id = none; is_active = false }, s)
call (suc n) q s = (ok (ok tt), q, s + suc n)

abbrev call_async : ℕ → M ℕ ℕ ℕ (Result Error Bool × ℕ)
call_async zero q s = (ok (ok true, zero), q, s)
call_async (suc n) q s = (ok (ok false, n), q, s)

abbrev host : Host ℕ ℕ ℕ
host = record {
  capacity = 2;
  clock = λ s. (s, s);
  sleep = λ s. s + 1;
  call = call;
  call_async = call_async;
  poll = λ q s. (ok (ok 0), q, s);
  moved = λ c. empty;
  construct = λ n s. s;
  destroy = λ n s. s;
}

abbrev timed : ℕ → ℕ → Timed ℕ ℕ
timed t n = record { event_time = t; action = user n }

abbrev entry : ℕ → PostEntry ℕ ℕ
entry n = record { action = user n; payload_delete_function = none }

abbrev queue : Queue ℕ ℕ
queue = record {
  external_producer_queue = [];
  precision_timed_events = timed 1 3 ∷ timed 9 1 ∷ [];
  idle_timed_events = [];
  local_event_queue = entry 4 ∷ async_entry 1 ∷ [];
  active_thread_id = none;
  is_active = false;
  active_producers = 0;
  next_action_payload = 0;
  prepared_entry = none;
  active_async_store_entries = 0;
}

-- At time 2 the first event is due; its action takes 3, and the second one is due at 9.
fired :
    fire host 1 precision 3 0 queue 2
    ≡ (ok (ok 1), record queue { precision_timed_events = timed 9 1 ∷ [] }, 5)
unfolding fire apply
fired = refl

fire-NothingDue_example : NothingDue host (timed 9 1 ∷ []) 5
fire-NothingDue_example =
    fire-NothingDue host 1 precision 3 0 queue 2 1
      (record queue { precision_timed_events = timed 9 1 ∷ [] }) 5 fired

all_user : AllUser queue.precision_timed_events
unfolding AllUser
all_user = ((3, refl), ((1, refl), tt))

call-same :
    (a : ℕ) (q : Queue ℕ ℕ) (s : ℕ)
    → timed_events precision (call a q s).1 ≡ timed_events precision q
call-same zero q s = refl
call-same (suc n) q s = refl

call_returns : (a : ℕ) (q : Queue ℕ ℕ) (s : ℕ) → (call a q s).0 ≢ err waiting
call_returns zero q s e = cc
call_returns (suc n) q s e = cc

fire_terminates_example : (fire host 1 precision 3 0 queue 2).0 ≢ err waiting
fire_terminates_example =
    fire_terminates host 1 precision 3 0 queue 2 all_user call-same call_returns (omega arith)

dispatched_4 : apply host 1 (user 4) queue 2 ≡ (ok (ok tt), queue, 6)
unfolding apply
dispatched_4 = refl

dispatch_local_fifo_example :
    let (x, q', s') = dispatch_local host 1 0 queue 2 in
    (x ≡ ok (counted 0 (ok tt)))
    × (q'.local_event_queue ≡ (async_entry 1 ∷ []) ++ [])
    × (q'.active_async_store_entries
        ≡ (delete_payload host none queue 6).0.active_async_store_entries)
    × (s' ≡ (delete_payload host none queue 6).1)
dispatch_local_fifo_example =
    dispatch_local_fifo host 1 0 queue 2 (entry 4) (async_entry 1 ∷ []) [] (ok tt) queue 6 refl refl
      dispatched_4 refl

queue-Usable : Usable 2 queue
queue-Usable = record {
  in_range = omega arith;
  small = omega arith;
  not_engaged = refl;
  has_room = omega arith;
}

payload_reused_example :
    (length (reserve_all 2 (user 5) (1 + 2) queue).local_event_queue ≡ 2 + (1 + 2))
    × ((get_local_payload 2 (reserve_all 2 (user 5) 1 queue)).1
        ≡ ok ((queue.next_action_payload + 1) % 2))
    × ((get_local_payload 2 (reserve_all 2 (user 5) (1 + 2) queue)).1
        ≡ ok ((queue.next_action_payload + 1) % 2))
payload_reused_example = payload_reused 2 1 (user 5) queue queue-Usable
