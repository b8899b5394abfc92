-- ===== src/EventQueue.antt =====
-- event_queue/EventQueue.hpp and event_queue/concepts.hpp: the state of an event queue.
--
-- Callbacks are the application's. An `A` is a callable of the application and a `B` an asynchronous
-- one; `Host` says what they do to the queue and to the state `S` of everything else. Times are
-- nanoseconds since the epoch. A thread is a number, and 0 is the default `std::thread::id`.
pub mod Threads
pub mod Post
pub mod Cycle
pub mod Steps
pub mod Invariant
pub mod Timers
pub mod Posts
pub mod Producers
pub mod Local
pub mod Payloads
pub mod Lifecycle
use medici.Prelude.{ℕ, ◌+◌, ◌%◌, ◌^◌, Bool, List, [], ◌∷◌, Option, none, Result, Expected}

pub data Error : Type 0 where
  payload_engaged object_engaged store_full : Error
  no_producers : Error
  async_payload timed_payload expired : Error
  already_active not_active pump_active empty_action : Error
  -- an error of the application's
  host_error : ℕ → Error

-- What a `CallableT` in the queue can be: a callable of the application, the wrapper that
-- `postAsyncAction` makes, the action that a timed post from another thread makes, or an empty
-- `std::function`.
pub data Callable (A B : Type 0) : Type 0 where
  user : A → Callable A B
  async : B → Callable A B
  push_precision : ℕ → Callable A B → Callable A B
  push_idle : ℕ → Callable A B → Callable A B
  empty : Callable A B

-- A payload delete function: it gives a slot of the local store back, or destroys the object in it,
-- or both. The number is that of the slot.
pub data Deleter : Type 0 where
  release : Deleter
  destroy destroy_release : ℕ → Deleter

pub record PostEntry (A B : Type 0) : Type 0 where
  pub action : Callable A B
  pub payload_delete_function : Option Deleter

-- `PrioritizedCallable`.
pub record Timed (A B : Type 0) : Type 0 where
  pub event_time : ℕ
  pub action : Callable A B

-- `ThreadSpecificQueue`; `queue` is the `spsc_queue`, oldest entry first.
pub record ProducerQueue (A B : Type 0) : Type 0 where
  pub next_action_payload : ℕ
  pub prepared_entry : Option (PostEntry A B)
  pub queue : List (PostEntry A B)

-- `ThreadQueuePair`.
pub record Producer (A B : Type 0) : Type 0 where
  pub thread_id : ℕ
  pub producer_queue : ProducerQueue A B

pub record Queue (A B : Type 0) : Type 0 where
  pub external_producer_queue : List (Producer A B)
  pub precision_timed_events : List (Timed A B)
  pub idle_timed_events : List (Timed A B)
  pub local_event_queue : List (PostEntry A B)
  pub active_thread_id : Option ℕ
  pub is_active : Bool
  pub active_producers : ℕ
  pub next_action_payload : ℕ
  pub prepared_entry : Option (PostEntry A B)
  pub active_async_store_entries : ℕ

-- A call can throw, where `bad_function_call` is the call of an empty `std::function`, and it can fail
-- to return: `waiting` says that a thread spins on a full producer queue or that a loop is not done.
pub data Exception : Type 0 where
  bad_function_call waiting : Exception
  host_exception : ℕ → Exception

-- A computation on the queue and the rest of the program.
abbrev pub M : Type 0 → Type 0 → Type 0 → Type 0 → Type 0
M A B S X = Queue A B → S → Result Exception X × Queue A B × S

-- What the queue is used with: the clock, the endpoints, the application's callbacks, the largest
-- number of entries of a queue, and what moving from a callable leaves behind.
pub record Host (A B S : Type 0) : Type 0 where
  pub capacity : ℕ
  pub clock : S → ℕ × S
  pub sleep : S → S
  pub call : A → M A B S (Expected Error)
  pub call_async : B → M A B S (Result Error Bool × B)
  -- the number of events as the `size_t` that it is added to
  pub poll : M A B S (Result Error ℕ)
  pub moved : Callable A B → Callable A B
  pub construct : ℕ → S → S
  pub destroy : ℕ → S → S
