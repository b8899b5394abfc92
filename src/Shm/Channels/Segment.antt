-- ===== src/Shm/Channels/Segment.antt =====
-- `SharedMemoryLayout` of shm_endpoints/SharedMemPODQueueDefinition.hpp: its construction, where its
-- channels lie, and `enqueueMessageToAllChannels`. An offset is counted from the first channel.
pub mod Offsets
pub mod Broadcast
use medici.Prelude.{
  ℕ, zero, suc, ◌+◌, ◌*◌, Bool, true, false, if◌then◌else◌, store, List, [], ◌∷◌, Result, Expected,
  ok, err,
}
use medici.Shm.Ring.{Ring, Handler, construct, enqueue, get_queue_size, next_offset}
use medici.Shm.Channels.{Entry, Channel, Layout, QueueType, Error, dispatch_to_handler}

module _ {A : Type 0} where
  -- The loop of the constructor: the rings below `n` are made, each on the memory that is there.
  unfoldable pub construct_channels : ℕ → (ℕ → ℕ → Entry A) → ℕ → (ℕ → Channel A) → ℕ → Channel A
  unfolding construct
  construct_channels size mem zero channels = channels
  construct_channels size mem (suc n) channels =
      store (construct_channels size mem n channels) n
        (record { name = []; ring = construct size n (mem n) })

  -- The constructor of the layout. The mutex is not part of the model.
  unfoldable pub construct_layout :
      QueueType → ℕ → ℕ → ℕ → (ℕ → ℕ → Entry A) → (ℕ → Channel A) → Layout A
  unfolding construct_channels
  construct_layout queue_type consumer_count consumer_queue_size hash mem channels = record {
    queue_type = queue_type;
    allowed_channels = consumer_count;
    consumer_queue_size = consumer_queue_size;
    message_types_hash = hash;
    active_outgoing_channel = 0;
    active_channels = 0;
    queue_channels = construct_channels consumer_queue_size mem consumer_count channels;
  }

-- Where the constructor's loop puts channel `i`: it goes on by `next` of the ring just made.
unfoldable pub walk_offset : {A : Type 0} → ℕ → ℕ → ℕ → (ℕ → ℕ → A) → ℕ → ℕ
unfolding next_offset construct
walk_offset header_size entry_size size mem zero = 0
walk_offset header_size entry_size size mem (suc i) =
    walk_offset header_size entry_size size mem i
    + next_offset header_size entry_size (construct size i (mem i))

-- Where `getQueueChannel` looks for channel `i`.
unfoldable pub get_queue_channel_offset : ℕ → ℕ → ℕ → ℕ → ℕ
unfolding get_queue_size
get_queue_channel_offset header_size entry_size size i =
    get_queue_size header_size entry_size size * i

module _ {A S : Type 0} (types : List ℕ) (back_off : ℕ → Handler Error S A) where
  -- `enqueueMessageToAllChannels` for one channel.
  unfoldable pub enqueue_message_to_channel :
      Layout A → ℕ → Entry A → S → Layout A × Expected Error × S
  unfolding enqueue
  enqueue_message_to_channel l i entry s =
      let (r, done) = enqueue (l.queue_channels i).ring entry in
      let channel : Channel A = record (l.queue_channels i) { ring = r } in
      let l' : Layout A = record l {
        active_outgoing_channel = i;
        queue_channels = store l.queue_channels i channel;
      } in
      elim done [
        | true ↦ (l', ok tt, s)
        | false ↦
            let (result, s') = dispatch_to_handler types 0 back_off entry s in (l', result, s')
      ]

  -- The loop, from channel `i` on, with `n` channels left.
  unfoldable pub enqueue_message_from :
      ℕ → ℕ → Layout A → Entry A → S → Layout A × Expected Error × S
  unfolding enqueue_message_to_channel
  enqueue_message_from i zero l entry s = (l, ok tt, s)
  enqueue_message_from i (suc n) l entry s =
      let (l', result, s') = enqueue_message_to_channel l i entry s in
      elim result [ ok u ↦ enqueue_message_from (i + 1) n l' entry s' | err e ↦ (l', err e, s') ]

  unfoldable pub enqueue_message_to_all_channels :
      Layout A → Entry A → S → Layout A × Expected Error × S
  unfolding enqueue_message_from
  enqueue_message_to_all_channels l entry s = enqueue_message_from 0 l.active_channels l entry s
