-- ===== src/Tests/Producers.antt =====
-- The turn of the producer threads at a concrete queue.
use medici.Prelude.{ℕ, ◌+◌, ◌≡◌, refl, true, false, List, [], ◌∷◌, none, some, ok}
use medici.EventQueue.{user, release, destroy, PostEntry, Producer, Queue, Host, empty}
use medici.EventQueue.Cycle.{dispatch_producers}
use medici.EventQueue.Producers.{with_producers, with_entries, dispatch_producers-turns}

-- A callback adds its number to the sum.
abbrev host : Host ℕ ℕ ℕ
host = record {
  capacity = 2;
  clock = λ s. (s, s);
  sleep = λ s. s;
  call = λ a q s. (ok (ok tt), q, s + a);
  call_async = λ b q s. (ok (ok false, b), q, s);
  poll = λ q s. (ok (ok 0), q, s);
  moved = λ c. empty;
  construct = λ n s. s;
  destroy = λ n s. s + 100;
}

abbrev entry : ℕ → PostEntry ℕ ℕ
entry n = record { action = user n; payload_delete_function = some (destroy 0) }

abbrev producer : ℕ → List (PostEntry ℕ ℕ) → Producer ℕ ℕ
producer tid es = record {
  thread_id = tid;
  producer_queue = record { next_action_payload = 0; prepared_entry = none; queue = es };
}

abbrev queue : Queue ℕ ℕ
queue = record {
  external_producer_queue = [];
  precision_timed_events = [];
  idle_timed_events = [];
  local_event_queue = [];
  active_thread_id = some 1;
  is_active = true;
  active_producers = 0;
  next_action_payload = 0;
  prepared_entry = none;
  active_async_store_entries = 0;
}

-- A producer with two entries, one without any, and one that is not in use.
dispatch_producers-turns_example :
    dispatch_producers host 1 3 0 4
      (with_producers queue 2
        (producer 7 (entry 3 ∷ entry 5 ∷ []) ∷ producer 8 [] ∷ producer 9 (entry 6 ∷ []) ∷ []))
      10
    ≡ (
      ok (ok 5),
      with_producers queue 2
          (producer 7 (entry 5 ∷ []) ∷ producer 8 [] ∷ producer 9 (entry 6 ∷ []) ∷ []),
      113,
    )
unfolding medici.EventQueue.Producers.turns medici.EventQueue.Cycle.delete_payload
dispatch_producers-turns_example =
    dispatch_producers-turns host (λ a s. s + a) 1 4 queue
      (producer 7 (entry 3 ∷ entry 5 ∷ []) ∷ producer 8 [] ∷ []) (producer 9 (entry 6 ∷ []) ∷ []) 10
      (λ a q s. refl) ((tt, (tt, tt)), (tt, tt))
