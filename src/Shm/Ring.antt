-- ===== src/Shm/Ring.antt =====
-- `FixedConstructLenSPSC` of shm_endpoints/SharedMemPODQueueDefinition.hpp: the ring buffer that a
-- channel of the shared memory queue is. The trailing array `_storage` is a function from indices to
-- entries; `Ring.Bounds` shows which indices are used. Indices are `size_t` and wrap at 2 ^ 64, the
-- capacity is a `uint32_t`.
pub mod Modulo
pub mod Bounds
pub mod Refine
pub mod Interleave
use medici.Prelude.{
  ℕ, ◌+◌, ◌*◌, ◌%◌, ◌^◌, Bool, true, false, not, ◌==◌, if◌then◌else◌, store, Result, Expected, ok,
  err,
}

abbrev pub u32 : ℕ → ℕ
u32 n = n % 2 ^ 32

abbrev pub u64 : ℕ → ℕ
u64 n = n % 2 ^ 64

pub record Ring (A : Type 0) : Type 0 where
  pub head : ℕ
  pub tail : ℕ
  pub queue_size : ℕ
  pub channel_index : ℕ
  pub storage : ℕ → A

-- The constructor; the storage is the memory that the ring is placed on.
unfoldable pub construct : {A : Type 0} → ℕ → ℕ → (ℕ → A) → Ring A
construct queue_size channel_index mem = record {
  head = 0;
  tail = 0;
  queue_size = u32 (queue_size + 1);
  channel_index = channel_index;
  storage = mem;
}

-- `(i + 1) % _queueSize`.
abbrev pub next_index : {A : Type 0} → Ring A → ℕ → ℕ
next_index r i = u64 (i + 1) % r.queue_size

unfoldable pub enqueue : {A : Type 0} → Ring A → A → Ring A × Bool
enqueue r value =
    let target_tail = next_index r r.tail in
    if target_tail == r.head
    then (r, false)
    else (record r { storage = store r.storage r.tail value; tail = target_tail }, true)

unfoldable pub updates_available : {A : Type 0} → Ring A → Bool
updates_available r = not (r.head == r.tail)

-- The handler is the endpoint's: it changes a state of its own and may fail.
abbrev pub Handler : Type 0 → Type 0 → Type 0 → Type 0
Handler E S A = A → S → Expected E × S

-- The head moves on whether or not the handler fails.
unfoldable pub consume_available :
    {A E S : Type 0} → Ring A → Handler E S A → S → Ring A × Expected E × S
consume_available r handler s =
    let (result, s') = handler (r.storage r.head) s in
    (record r { head = next_index r r.head }, result, s')

abbrev pub consumed : {E : Type 0} → Expected E → Result E Bool
consumed (ok _) = ok true
consumed (err e) = err e

unfoldable pub consume : {A E S : Type 0} → Ring A → Handler E S A → S → Ring A × Result E Bool × S
consume r handler s =
    if r.head == r.tail
    then (r, ok false, s)
    else let (result, s') = handler (r.storage r.head) s in
      (record r { head = next_index r r.head }, consumed result, s')

-- The bytes that a ring for `entries` messages of `entry_size` bytes takes, after a header of
-- `header_size` bytes, and the distance from one ring to the next.
unfoldable pub get_queue_size : ℕ → ℕ → ℕ → ℕ
get_queue_size header_size entry_size entries = u64 (header_size + entry_size * u32 (entries + 1))

unfoldable pub next_offset : {A : Type 0} → ℕ → ℕ → Ring A → ℕ
next_offset header_size entry_size r = u64 (header_size + entry_size * r.queue_size)
