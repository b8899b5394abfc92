-- ===== src/EventQueue/Threads.antt =====
-- event_queue/EventQueue.hpp: `ThreadSpecificQueue`, and `getThreadProducerQueueEntry`, by which a
-- thread finds or registers its producer queue. A loop that spins until the consumer makes room is an
-- `Option`: `none` means that it is still spinning. The atomic operations are single steps.
pub mod Lookup
pub mod Register
use medici.Prelude.{
  ℕ, zero, suc, ◌+◌, ◌-◌, ◌%◌, ◌^◌, Bool, true, false, not, ◌&&◌, ltb, leb, ◌==◌, if◌then◌else◌,
  List, [], ◌∷◌, ◌++◌, Option, none, some, Result, Expected, ok, err, length, get_elem?, set,
}
use medici.EventQueue.{
  Error, payload_engaged, no_producers, Callable, Deleter, destroy, PostEntry, ProducerQueue,
  Producer, Queue, empty,
}

abbrev pub size_mod : ℕ
size_mod = 2 ^ 64

module _ {A B : Type 0} where
  -- `PostEntry{{}, {}}`.
  abbrev pub no_entry : Option Deleter → PostEntry A B
  no_entry d = record { action = empty; payload_delete_function = d }

  abbrev pub with_action : PostEntry A B → Callable A B → PostEntry A B
  with_action e action = record e { action = action }

module _ {A B : Type 0} (capacity : ℕ) where
  -- `spsc_queue::push`: at most `capacity` entries.
  unfoldable pub push_entry : ProducerQueue A B → PostEntry A B → Option (ProducerQueue A B)
  push_entry q e =
      if ltb (length q.queue) capacity then some (record q { queue = q.queue ++ e ∷ [] }) else none

  -- `ThreadSpecificQueue::push`.
  unfoldable pub push : ProducerQueue A B → Callable A B → Option (ProducerQueue A B)
  unfolding push_entry
  push q action = elim q.prepared_entry [
    | some e ↦ push_entry (record q { prepared_entry = none }) (with_action e action)
    | none ↦ push_entry q (record { action = action; payload_delete_function = none })
  ]

  -- `ThreadSpecificQueue::getNextActionPayload`: the slot of the local store.
  unfoldable pub get_next_action_payload :
      ProducerQueue A B → Option (ProducerQueue A B × Result Error ℕ)
  get_next_action_payload q =
      if ltb (length q.queue) capacity
      then elim q.prepared_entry [
        | some e ↦ some (record q { prepared_entry = none }, err payload_engaged)
        | none ↦ some (
          record q {
            next_action_payload = (q.next_action_payload + 1) % size_mod % capacity;
            prepared_entry = some (no_entry none);
          },
          ok q.next_action_payload,
        )
      ]
      else none

  -- `ThreadSpecificQueue::getNextActionObject`, without the construction of the object in the slot.
  unfoldable pub get_next_action_object :
      ProducerQueue A B → Option (ProducerQueue A B × Result Error ℕ)
  unfolding get_next_action_payload
  get_next_action_object q = elim (get_next_action_payload q) [
    | none ↦ none
    | some (q', err e) ↦ some (q', err e)
    | some (q', ok slot) ↦
        some (record q' { prepared_entry = some (no_entry (some (destroy slot))) }, ok slot)
  ]

-- `std::ranges::find_if` for the thread's entry, from index `i` on.
unfoldable pub find_thread : {A B : Type 0} → ℕ → List (Producer A B) → ℕ → Option ℕ
find_thread tid [] i = none
find_thread tid (p ∷ ps) i = if p.thread_id == tid then some i else find_thread tid ps (i + 1)

abbrev pub is_thread : {A B : Type 0} → ℕ → Option (Producer A B) → Bool
is_thread tid none = false
is_thread tid (some p) = p.thread_id == tid

-- Whether the `thread_local` index still names the thread's entry.
unfoldable pub cache_hit : {A B : Type 0} → Queue A B → ℕ → ℕ → Bool
cache_hit q tid i =
    ltb i q.active_producers && is_thread tid (get_elem? q.external_producer_queue i)

abbrev pub name_thread : {A B : Type 0} → List (Producer A B) → ℕ → ℕ → List (Producer A B)
name_thread ps i tid = elim (get_elem? ps i) [
  | none ↦ ps
  | some p ↦ set ps i (record p { thread_id = tid })
]

-- The registration of a thread that has no entry: the index that `fetch_add` hands out is given back
-- where it is past the end.
unfoldable pub register_thread : {A B : Type 0} → Queue A B → ℕ → Queue A B × Result Error ℕ
register_thread q tid =
    let n = length q.external_producer_queue in
    if n == q.active_producers
    then (q, err no_producers)
    else if leb n q.active_producers
    then (record q { active_producers = (q.active_producers + 1 - 1) % size_mod }, err no_producers)
    else (
      record q {
        active_producers = (q.active_producers + 1) % size_mod;
        external_producer_queue = name_thread q.external_producer_queue q.active_producers tid;
      },
      ok q.active_producers,
    )

-- The rest of `getThreadProducerQueueEntry`, without a cached index.
unfoldable pub search_thread :
    {A B : Type 0} → Queue A B → ℕ → Queue A B × Result Error ℕ × Option ℕ
unfolding find_thread register_thread
search_thread q tid = elim (find_thread tid q.external_producer_queue 0) [
  | some i ↦ (q, ok i, some i)
  | none ↦
      let (q', r) = register_thread q tid in
      elim r [ ok i ↦ (q', ok i, some i) | err e ↦ (q', err e, none) ]
]

-- `getThreadProducerQueueEntry`. The second argument and the last result are the thread's cached
-- index.
unfoldable pub get_thread_producer_queue_entry :
    {A B : Type 0} → Queue A B → Option ℕ → ℕ → Queue A B × Result Error ℕ × Option ℕ
unfolding cache_hit search_thread
get_thread_producer_queue_entry q none tid = search_thread q tid
get_thread_producer_queue_entry q (some i) tid =
    if cache_hit q tid i then (q, ok i, some i) else search_thread q tid
