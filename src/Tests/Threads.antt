-- ===== src/Tests/Threads.antt =====
-- A queue for two producer threads, of which thread 2 has registered.
use medici.Prelude.{
  ℕ, zero, suc, ◌≡◌, ◌≤◌, refl, ap, sym, true, false, [], ◌∷◌, ◌++◌, Option, none, some, ok, arith,
  get_elem?,
}
use medici.EventQueue.{Producer, ProducerQueue, Queue, user}
use medici.EventQueue.Threads.{
  get_thread_producer_queue_entry, search_thread, find_thread, cache_hit, register_thread, push,
  push_entry,
}
use medici.EventQueue.Threads.Lookup.{Registered, cached_lookup}
use medici.EventQueue.Threads.Register.{Owns, Looked, lookup-Looked}
use medici.EventQueue.Post.{is_local, on_producer, post_action, with_producer_queue}
use medici.EventQueue.Posts.{post_from_thread, entry_for}

abbrev empty_queue : ProducerQueue ℕ ℕ
empty_queue = record { next_action_payload = 0; prepared_entry = none; queue = [] }

abbrev queue : Queue ℕ ℕ
queue = record {
  external_producer_queue =
      record { thread_id = 2; producer_queue = empty_queue }
      ∷ record { thread_id = 0; producer_queue = empty_queue }
      ∷ [];
  precision_timed_events = [];
  idle_timed_events = [];
  local_event_queue = [];
  active_thread_id = some 1;
  is_active = true;
  active_producers = 1;
  next_action_payload = 0;
  prepared_entry = none;
  active_async_store_entries = 0;
}

spare_lem :
    (n : ℕ) (p : Producer ℕ ℕ)
    → 1 ≤ n
    → get_elem? queue.external_producer_queue n ≡ some p
    → p.thread_id ≡ 0
spare_lem zero p h e = absurd (omega arith)
spare_lem (suc zero) p h e = sym (ap id_of e)
  where
    id_of : Option (Producer ℕ ℕ) → ℕ
    id_of none = 0
    id_of (some x) = x.thread_id
spare_lem (suc (suc n)) p h e = cc

queue-Registered : Registered queue
queue-Registered = record {
  within = omega arith;
  small = omega arith;
  distinct = λ m n p p' lt le e e'. absurd (omega arith);
  spare = spare_lem;
}

-- Thread 3 takes the second entry.
new_thread : (get_thread_producer_queue_entry queue (some 0) 3).1 ≡ ok 1
unfolding get_thread_producer_queue_entry search_thread find_thread cache_hit register_thread
new_thread = refl

cached_lookup_example :
    get_thread_producer_queue_entry queue (some 0) 2 ≡ get_thread_producer_queue_entry queue none 2
cached_lookup_example = cached_lookup queue (some 0) 2 queue-Registered

lookup-Looked_example : Looked 3 (get_thread_producer_queue_entry queue (some 0) 3)
lookup-Looked_example = lookup-Looked queue (some 0) 3 queue-Registered (omega arith)

abbrev posted_queue : Queue ℕ ℕ
posted_queue = record queue {
  external_producer_queue =
      record {
        thread_id = 2;
        producer_queue = record empty_queue {
          queue = record { action = user 5; payload_delete_function = none } ∷ [];
        };
      }
      ∷ record { thread_id = 0; producer_queue = empty_queue }
      ∷ [];
}

posted : post_action 4 queue (some 0) 2 (user 5) ≡ some (posted_queue, ok tt, some 0)
unfolding post_action is_local on_producer get_thread_producer_queue_entry search_thread find_thread
    cache_hit register_thread push push_entry
posted = refl

not_local : is_local queue 2 ≡ false
unfolding is_local
not_local = refl

post_from_thread_example :
    (i : ℕ) × (p : Producer ℕ ℕ) × (pq : ProducerQueue ℕ ℕ) × Owns
      (get_thread_producer_queue_entry queue (some 0) 2).0
      2
      i
    × (get_elem? (get_thread_producer_queue_entry queue (some 0) 2).0.external_producer_queue i
        ≡ some p)
    × (pq.queue ≡ p.producer_queue.queue ++ entry_for p.producer_queue.prepared_entry (user 5) ∷ [])
    × (pq.prepared_entry ≡ none)
    × (posted_queue
        ≡ with_producer_queue (get_thread_producer_queue_entry queue (some 0) 2).0 i p pq)
post_from_thread_example =
    post_from_thread 4 queue (some 0) 2 (user 5) posted_queue (some 0) queue-Registered
      (omega arith) not_local posted
