-- ===== src/Tests/Segment.antt =====
-- A segment of two channels of two entries.
use medici.Prelude.{ℕ, ◌+◌, ◌<◌, ◌≡◌, ◌⊎◌, false, List, [], ◌∷◌, ok, err}
use medici.Shm.Ring.{Ring, Handler, enqueue}
use medici.Shm.Channels.{Entry, Channel, Layout, Error, spmc_queue, handler_failed}
use medici.Shm.Channels.Segment.{enqueue_message_to_all_channels}
use medici.Shm.Channels.Segment.Broadcast.{Pushed, broadcast-Pushed}

abbrev entry : Entry ℕ
entry = record { type_index = 0; message_data = 5 }

abbrev memory : ℕ → ℕ → Entry ℕ
memory i j = record { type_index = 0; message_data = j }

abbrev full_ring : Ring (Entry ℕ)
full_ring = record { head = 1; tail = 0; queue_size = 3; channel_index = 0; storage = memory 0 }

abbrev no_channels : ℕ → Channel ℕ
no_channels i = record { name = i ∷ []; ring = full_ring }

abbrev full_layout : Layout ℕ
full_layout = record {
  queue_type = spmc_queue;
  allowed_channels = 2;
  consumer_queue_size = 2;
  message_types_hash = 9;
  active_outgoing_channel = 0;
  active_channels = 2;
  queue_channels = no_channels;
}

abbrev failing : ℕ → Handler Error (List ℕ) ℕ
failing t x seen = (err (handler_failed 1), x ∷ seen)

broadcast-Pushed_example :
    let r = enqueue_message_to_all_channels (4 ∷ []) failing full_layout entry [] in
    ((r.1 ≡ ok tt) × Pushed full_layout entry 2 r.0)
    ⊎ ((e : Error) × (k : ℕ) × (k < 2)
        × (r.1 ≡ err e)
        × ((enqueue (full_layout.queue_channels k).ring entry).1 ≡ false)
        × Pushed full_layout entry (k + 1) r.0)
broadcast-Pushed_example = broadcast-Pushed (4 ∷ []) failing full_layout entry []
