-- ===== src/Tests/Channels.antt =====
-- Segments of two channels, of which one is owned by "a".
use medici.Prelude.{
  ℕ, ◌+◌, ◌≡◌, ◌≢◌, refl, inl, List, [], ◌∷◌, some, ok, err, arith, if◌then◌else◌, ◌==◌,
}
use medici.Shm.Ring.{Ring, Handler}
use medici.Shm.Channels.{
  Entry, Layout, Error, full_duplex_queue, name_allocated, get_type_index, dispatch_to_handler,
  alloc_queue_channel, name_taken, c_str, claim_channel,
}
use medici.Shm.Channels.Names.{IsAllocated, alloc-IsAllocated, alloc_twice}
use medici.Shm.Channels.Dispatch.{dispatch-get_type_index}
use medici.Shm.Consumer.{construct_consumer, is_spmc}
use medici.Shm.Consumer.Delivery.{refused_consumer_keeps_channel}

abbrev ring : Ring (Entry ℕ)
ring = record {
  head = 0;
  tail = 0;
  queue_size = 3;
  channel_index = 0;
  storage = λ i. record { type_index = 0; message_data = 0 };
}

abbrev none_owned : Layout ℕ
none_owned = record {
  queue_type = full_duplex_queue;
  allowed_channels = 2;
  consumer_queue_size = 2;
  message_types_hash = 9;
  active_outgoing_channel = 0;
  active_channels = 0;
  queue_channels = λ i. record { name = []; ring = ring };
}

none_owned-IsAllocated : IsAllocated none_owned
none_owned-IsAllocated = record {
  within = omega arith;
  short = λ i h. absurd (omega arith);
  distinct = λ i j h k. absurd (omega arith);
}

-- The name "a".
abbrev name : List ℕ
name = 97 ∷ []

abbrev one_owned : Layout ℕ
one_owned = record none_owned {
  queue_channels = λ i.
      if 0 == i then record { name = 97 ∷ []; ring = ring } else record { name = []; ring = ring };
  active_channels = 1;
}

alloc_first : alloc_queue_channel 0 none_owned name ≡ (one_owned, ok 0)
unfolding alloc_queue_channel name_taken claim_channel c_str
alloc_first = refl

alloc-IsAllocated_example : IsAllocated (alloc_queue_channel 0 none_owned name).0
alloc-IsAllocated_example = alloc-IsAllocated 0 none_owned name (omega arith) none_owned-IsAllocated

name-ne : c_str name ≢ []
unfolding c_str
name-ne e = cc

alloc_twice_example : alloc_queue_channel 0 one_owned name ≡ (one_owned, err name_allocated)
alloc_twice_example =
    alloc_twice 0 none_owned one_owned name 0 (omega arith) none_owned-IsAllocated name-ne
      alloc_first

refused_consumer_keeps_channel_example :
    (e : Error) × (construct_consumer 0 none_owned name 9 ≡ (one_owned, err e)) × (1 ≡ 0 + 1)
unfolding is_spmc
refused_consumer_keeps_channel_example =
    refused_consumer_keeps_channel none_owned one_owned name 9 0 (omega arith) alloc_first
      (inl refl)

abbrev types : List ℕ
types = 4 ∷ 6 ∷ []

abbrev note_type : ℕ → Handler Error (List ℕ) ℕ
note_type t x seen = (ok tt, t ∷ x ∷ seen)

second_type : get_type_index 6 types 0 ≡ some 1
unfolding get_type_index
second_type = refl

dispatch-get_type_index_example :
    dispatch_to_handler types 0 note_type (record { type_index = 1; message_data = 5 }) []
    ≡ (ok tt, 6 ∷ 5 ∷ [])
dispatch-get_type_index_example = dispatch-get_type_index types 0 6 1 note_type 5 [] second_type
