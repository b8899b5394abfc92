-- ===== src/Tests/Streams.antt =====
-- A producer with two active channels, one of which has a message waiting, and a consumer of one.
use medici.Prelude.{
  ℕ, ◌≡◌, refl, true, false, List, [], ◌∷◌, ◌++◌, some, ok, err, arith, if◌then◌else◌, ◌==◌, map,
  length,
}
use medici.Shm.Ring.{Ring, Handler}
use medici.Shm.Ring.Bounds.{IsValid}
use medici.Shm.Ring.Refine.{contents, capacity}
use medici.Shm.Channels.{Entry, Error, spmc_queue, get_type_index, handler_failed}
use medici.Shm.Producer.{
  Producer, Message, push_message, apply_default_back_pressure_handler, drain, entry_of,
}
use medici.Shm.Producer.Streams.{PushedAll, push_message-PushedAll}
use medici.Shm.Producer.Drain.{drain_lem}
use medici.Shm.Consumer.{poll_and_dispatch, dispatch}
use medici.Shm.Consumer.Delivery.{deliver, Delivers, poll-Delivers}

abbrev types : List ℕ
types = 4 ∷ 6 ∷ []

-- A ring with one free slot.
abbrev ring : Ring (Entry ℕ)
ring = record {
  head = 1;
  tail = 2;
  queue_size = 3;
  channel_index = 0;
  storage = λ i. record { type_index = 1; message_data = i };
}

ring-IsValid : IsValid ring
ring-IsValid = record { head_in = omega arith; tail_in = omega arith; small = omega arith }

abbrev message : ℕ → Message ℕ
message x = record { type = 6; payload = x }

abbrev producer : Producer ℕ
producer = record {
  mapped = true;
  layout = record {
    queue_type = spmc_queue;
    allowed_channels = 2;
    consumer_queue_size = 2;
    message_types_hash = 9;
    active_outgoing_channel = 0;
    active_channels = 2;
    queue_channels = λ i. record { name = i ∷ []; ring = ring };
  };
  back_pressure_channels = λ i. if i == 1 then message 3 ∷ [] else [];
  posted = 1 ∷ [];
  accepts = true;
}

second_type : get_type_index 6 types 0 ≡ some 1
unfolding get_type_index
second_type = refl

push_message-PushedAll_example :
    (p' : Producer ℕ) × (push_message types producer (message 8) apply_default_back_pressure_handler
      ≡ (p', ok tt))
    × PushedAll types producer p' 0 2 (record { type_index = 1; message_data = 8 })
push_message-PushedAll_example =
    push_message-PushedAll types producer (message 8) 1 (λ j. ring-IsValid) refl second_type

drain_lem_example :
    let (r', rest, done) = drain types ring (message 3 ∷ message 4 ∷ []) in
    (contents r' ++ map (entry_of types) rest
      ≡ contents ring ++ map (entry_of types) (message 3 ∷ message 4 ∷ []))
    × IsValid r'
    × (done ≡ true → rest ≡ [])
    × (done ≡ false → length (contents r') ≡ capacity r')
drain_lem_example = drain_lem types ring (message 3 ∷ message 4 ∷ []) ring-IsValid

-- A handler that fails on messages of the second type.
abbrev handler : ℕ → Handler Error (List ℕ) ℕ
handler t x seen = if t == 6 then (err (handler_failed 1), x ∷ seen) else (ok tt, x ∷ seen)

poll-Delivers_example :
    Delivers types handler
      (poll_and_dispatch types handler true 3 ring [])
      (deliver (contents ring) (dispatch types handler) [] 0)
poll-Delivers_example = poll-Delivers types handler ring [] ring-IsValid
