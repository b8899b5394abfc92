-- ===== src/Shm/Channels.antt =====
-- shm_endpoints/SharedMemPODQueueDefinition.hpp: the segment with its channels, their allocation by
-- name, and the tags by which one channel carries messages of several types. A message type is a
-- number, a message its type's tag with a payload.
pub mod Names
pub mod Dispatch
pub mod Segment
use medici.Prelude.{
  store, ℕ, zero, suc, ◌+◌, ◌-◌, ◌^◌, Bool, true, false, not, ◌&&◌, ◌||◌, ◌==◌, ltb, if◌then◌else◌,
  List, [], ◌∷◌, Option, none, some, Result, Expected, ok, err, take,
}
use medici.Shm.Ring.{Ring, Handler, u32}

pub data QueueType : Type 0 where
  spmc_queue mpsc_queue full_duplex_queue : QueueType

pub data Error : Type 0 where
  lock_failed name_allocated no_channel : Error
  type_mismatch message_type_mismatch : Error
  not_initialized unknown_type_index type_not_supported invalid_channel : Error
  post_refused : Error
  handler_failed : ℕ → Error

-- `MessageQueueEntry`.
pub record Entry (A : Type 0) : Type 0 where
  pub type_index : ℕ
  pub message_data : A

-- `GetTypeIndex`: -1 is `none`.
unfoldable pub get_type_index : ℕ → List ℕ → ℕ → Option ℕ
get_type_index target [] current = none
get_type_index target (t ∷ types) current =
    if target == t then some current else get_type_index target types (current + 1)

-- `dispatchToHandler<I>` with the types from the I-th on. The handler is overloaded on the type.
unfoldable pub dispatch_to_handler :
    {A S : Type 0} → List ℕ → ℕ → (ℕ → Handler Error S A) → Handler Error S (Entry A)
dispatch_to_handler [] i handler entry s = (err unknown_type_index, s)
dispatch_to_handler (t ∷ types) i handler entry s =
    if entry.type_index == i
    then handler t entry.message_data s
    else dispatch_to_handler types (i + 1) handler entry s

-- A channel: the ring behind the name of its owner. The name is a C string, given by its bytes up
-- to the terminating zero.
pub record Channel (A : Type 0) : Type 0 where
  pub name : List ℕ
  pub ring : Ring (Entry A)

-- `SharedMemoryLayout`.
pub record Layout (A : Type 0) : Type 0 where
  pub queue_type : QueueType
  pub allowed_channels : ℕ
  pub consumer_queue_size : ℕ
  pub message_types_hash : ℕ
  pub active_outgoing_channel : ℕ
  pub active_channels : ℕ
  pub queue_channels : ℕ → Channel A

-- `std::string::c_str` as a C string: the bytes before the first zero.
unfoldable pub c_str : List ℕ → List ℕ
c_str [] = []
c_str (c ∷ s) = if c == 0 then [] else c ∷ c_str s

-- `sizeof(name) - 1`.
abbrev pub name_size : ℕ
name_size = 63

unfoldable pub same_bytes : List ℕ → List ℕ → Bool
same_bytes [] [] = true
same_bytes (c ∷ s) (d ∷ t) = c == d && same_bytes s t
same_bytes _ _ = false

abbrev pub is_empty : List ℕ → Bool
is_empty [] = true
is_empty (c ∷ s) = false

-- The test of the name loop: the channel's name is not empty, and `strncmp` finds it equal to the
-- wanted one up to 63 bytes.
unfoldable pub name_matches : List ℕ → List ℕ → Bool
unfolding same_bytes c_str
name_matches existing wanted =
    not (is_empty existing) && same_bytes (take name_size existing) (take name_size (c_str wanted))

-- The name loop over the channels below `n`.
unfoldable pub name_taken : {A : Type 0} → (ℕ → Channel A) → List ℕ → ℕ → Bool
name_taken channels wanted zero = false
name_taken channels wanted (suc n) =
    name_taken channels wanted n || name_matches ((channels n).name) wanted

-- The end of `AllocQueueChannel`: `count` is the number of channels with the new one.
unfoldable pub claim_channel : {A : Type 0} → Layout A → List ℕ → ℕ → Layout A × Result Error ℕ
unfolding c_str
claim_channel l consumer_name count =
    if ltb l.allowed_channels count
    then (l, err no_channel)
    else let index : ℕ = u32 (count + (2 ^ 32 - 1)) in
      let named : Channel _ = record {
        name = take name_size (c_str consumer_name);
        ring = (l.queue_channels index).ring;
      } in
      (
        record l { queue_channels = store l.queue_channels index named; active_channels = count },
        ok index,
      )

-- `AllocQueueChannel`; the first argument is what `pthread_mutex_lock` returns. The result is the
-- index of the channel.
unfoldable pub alloc_queue_channel :
    {A : Type 0} → ℕ → Layout A → List ℕ → Layout A × Result Error ℕ
unfolding name_taken claim_channel
alloc_queue_channel lock_result l consumer_name =
    if not (lock_result == 0)
    then (l, err lock_failed)
    else if name_taken l.queue_channels consumer_name l.active_channels
    then (l, err name_allocated)
    else claim_channel l consumer_name (u32 (l.active_channels + 1))
