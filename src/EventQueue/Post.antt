-- ===== src/EventQueue/Post.antt =====
-- event_queue/EventQueue.hpp: `getNextActionPayload`, `getNextActionObject`, `postAction`,
-- `postAsyncAction`, `postPrecisionTimedAction` and `postIdleTimedAction` of `EventQueue`.
--
-- Each takes the calling thread and its cached index. A result `none` is a call that spins until the
-- consumer makes room in the thread's producer queue.
use medici.Prelude.{
  ℕ, ◌+◌, ◌%◌, Bool, true, ltb, leb, ◌==◌, if◌then◌else◌, List, [], ◌∷◌, ◌++◌, Option, none, some,
  Result, Expected, ok, err, get_elem?, set,
}
use medici.EventQueue.{
  Error, payload_engaged, object_engaged, store_full, async_payload, timed_payload, expired,
  Callable, async, push_precision, push_idle, release, destroy_release, Timed, ProducerQueue,
  Producer, Queue, Host,
}
use medici.EventQueue.Threads.{
  no_entry, with_action, push, size_mod, get_thread_producer_queue_entry,
}
use medici.EventQueue.Threads

abbrev pub Posted : Type 0 → Type 0 → Type 0 → Type 0
Posted A B X = Option (Queue A B × Result Error X × Option ℕ)

-- Whether the calling thread uses the local queues.
unfoldable pub is_local : {A B : Type 0} → Queue A B → ℕ → Bool
is_local q tid = elim q.active_thread_id [ none ↦ true | some t ↦ tid == t ]

module _ {A B : Type 0} where
  abbrev pub with_producer_queue : Queue A B → ℕ → Producer A B → ProducerQueue A B → Queue A B
  with_producer_queue q i p pq = record q {
    external_producer_queue = set q.external_producer_queue i (record p { producer_queue = pq });
  }

  -- An operation on the producer queue of the calling thread.
  unfoldable pub on_producer :
      {X : Type 0}
      → Queue A B
      → Option ℕ
      → ℕ
      → (ProducerQueue A B → Option (ProducerQueue A B × Result Error X))
      → Posted A B X
  unfolding get_thread_producer_queue_entry
  on_producer q cached tid f =
      let (q1, r, cached1) = get_thread_producer_queue_entry q cached tid in
      elim r [
        | err e ↦ some (q1, err e, cached1)
        | ok i ↦ elim (get_elem? q1.external_producer_queue i) [
          | none ↦ none
          | some p ↦ elim (f p.producer_queue) [
            | none ↦ none
            | some (pq, x) ↦ some (with_producer_queue q1 i p pq, x, cached1)
          ]
        ]
      ]

  -- The branch of `postAction` for the local queue.
  abbrev pub post_local : Queue A B → Callable A B → Queue A B
  post_local q action = elim q.prepared_entry [
    | some e ↦ record q {
      local_event_queue = q.local_event_queue ++ with_action e action ∷ [];
      prepared_entry = none;
    }
    | none ↦ record q {
      local_event_queue =
          q.local_event_queue ++ record { action = action; payload_delete_function = none } ∷ [];
    }
  ]

module _ {A B : Type 0} (capacity : ℕ) where
  -- The branch of `getNextActionPayload` for the local store; the result is the slot.
  unfoldable pub get_local_payload : Queue A B → Queue A B × Result Error ℕ
  get_local_payload q = elim q.prepared_entry [
    | some e ↦ (q, err payload_engaged)
    | none ↦ if q.active_async_store_entries == capacity then (q, err store_full) else (
      record q {
        next_action_payload = (q.next_action_payload + 1) % size_mod % capacity;
        prepared_entry = some (no_entry (some release));
      },
      ok q.next_action_payload,
    )
  ]

  unfoldable pub get_next_action_payload : Queue A B → Option ℕ → ℕ → Posted A B ℕ
  unfolding get_local_payload is_local on_producer Threads.get_next_action_payload
  get_next_action_payload q cached tid =
      if is_local q tid
      then some ((get_local_payload q).0, (get_local_payload q).1, cached)
      else on_producer q cached tid (Threads.get_next_action_payload capacity)

  -- The branch of `getNextActionObject` for the local store, without the construction of the object.
  unfoldable pub get_local_object : Queue A B → Queue A B × Result Error ℕ
  unfolding get_local_payload
  get_local_object q = elim q.prepared_entry [
    | some e ↦ (q, err object_engaged)
    | none ↦
        if q.active_async_store_entries == capacity
        then (q, err store_full)
        else let (q1, r) = get_local_payload q in
          elim r [
            | err e ↦ (q1, err e)
            | ok slot ↦ (
              record q1 { prepared_entry = some (no_entry (some (destroy_release slot))) },
              ok slot,
            )
          ]
  ]

  unfoldable pub get_next_action_object : Queue A B → Option ℕ → ℕ → Posted A B ℕ
  unfolding get_local_object is_local on_producer Threads.get_next_action_object
  get_next_action_object q cached tid =
      if is_local q tid
      then some ((get_local_object q).0, (get_local_object q).1, cached)
      else on_producer q cached tid (Threads.get_next_action_object capacity)

  -- `push`, as an operation that gives no error.
  abbrev pub push_ok :
      Callable A B → ProducerQueue A B → Option (ProducerQueue A B × Expected Error)
  push_ok action pq = elim (push capacity pq action) [ none ↦ none | some pq' ↦ some (pq', ok tt) ]

  unfoldable pub post_action : Queue A B → Option ℕ → ℕ → Callable A B → Posted A B Unit
  unfolding is_local on_producer push
  post_action q cached tid action =
      if is_local q tid
      then some (post_local q action, ok tt, cached)
      else on_producer q cached tid (push_ok action)

  unfoldable pub post_async_action : Queue A B → Option ℕ → ℕ → B → Posted A B Unit
  unfolding post_action is_local
  post_async_action q cached tid action = elim q.prepared_entry [
    | some e ↦ some (q, err async_payload, cached)
    | none ↦
        if is_local q tid
        then some (
          record q {
            local_event_queue =
                q.local_event_queue
                ++ record { action = async action; payload_delete_function = none } ∷ [];
          },
          ok tt,
          cached,
        )
        else post_action q cached tid (async action)
  ]

-- `priority_queue::push`: the earliest event is on top. Of events with the same time the one that was
-- pushed first comes first here, which the source leaves open.
unfoldable pub push_timed : {A B : Type 0} → Timed A B → List (Timed A B) → List (Timed A B)
push_timed e [] = e ∷ []
push_timed e (x ∷ xs) = if leb x.event_time e.event_time then x ∷ push_timed e xs else e ∷ x ∷ xs

module _ {A B : Type 0} where
  abbrev pub push_precision_event : Queue A B → ℕ → Callable A B → Queue A B
  push_precision_event q t action = record q {
    precision_timed_events =
        push_timed (record { event_time = t; action = action }) q.precision_timed_events;
  }

  abbrev pub push_idle_event : Queue A B → ℕ → Callable A B → Queue A B
  push_idle_event q t action = record q {
    idle_timed_events = push_timed (record { event_time = t; action = action }) q.idle_timed_events;
  }

module _ {A B S : Type 0} (host : Host A B S) where
  unfoldable pub post_precision_timed_action :
      Queue A B → S → Option ℕ → ℕ → ℕ → Callable A B → Posted A B Unit × S
  unfolding post_action is_local push_timed
  post_precision_timed_action q s cached tid t action = elim q.prepared_entry [
    | some e ↦ (some (record q { prepared_entry = none }, err timed_payload, cached), s)
    | none ↦
        let (now, s1) = host.clock s in
        if ltb t now
        then (some (q, err expired, cached), (host.clock s1).1)
        else if is_local q tid
        then (some (push_precision_event q t action, ok tt, cached), s1)
        else (post_action host.capacity q cached tid (push_precision t action), s1)
  ]

  -- The branch for the local queue does not return.
  unfoldable pub post_idle_timed_action :
      Queue A B → S → Option ℕ → ℕ → ℕ → Callable A B → Posted A B Unit × S
  unfolding post_action is_local push_timed
  post_idle_timed_action q s cached tid t action =
      let (now, s1) = host.clock s in
      if ltb t now
      then (some (q, err expired, cached), (host.clock s1).1)
      else if is_local q tid
      then (
        post_action host.capacity (push_idle_event q t action) cached tid
            (push_idle t (host.moved action)),
        s1,
      )
      else (post_action host.capacity q cached tid (push_idle t action), s1)
