-- ===== src/Shm/Producer.antt =====
-- shm_endpoints/SPMCEndpointsImpl.hpp, the producer endpoint `ServerShmPODProducerEndpoint`: messages
-- for a channel whose ring is full wait in a back pressure queue of that channel, which an
-- asynchronous action on the event queue moves to the ring.
pub mod Streams
pub mod Drain
use medici.Prelude.{
  ℕ, zero, suc, ◌+◌, ◌-◌, ◌^◌, Bool, true, false, not, ltb, if◌then◌else◌, store, List, [], ◌∷◌,
  ◌++◌, Option, none, some, Result, Expected, ok, err,
}
use medici.Shm.Ring.{Ring, enqueue}
use medici.Shm.Channels.{
  Entry, Channel, Layout, Error, not_initialized, type_not_supported, invalid_channel,
  get_type_index,
}

-- A message of one of the types; in a back pressure queue it is a `std::variant`.
pub record Message (A : Type 0) : Type 0 where
  pub type : ℕ
  pub payload : A

pub record Producer (A : Type 0) : Type 0 where
  pub mapped : Bool
  pub layout : Layout A
  pub back_pressure_channels : ℕ → List (Message A)
  -- the channels whose drain action has been posted to the event queue
  pub posted : List ℕ
  -- whether the event queue accepts the next asynchronous action
  pub accepts : Bool

abbrev pub ring_of : {A : Type 0} → Producer A → ℕ → Ring (Entry A)
ring_of p i = (p.layout.queue_channels i).ring

with_ring : {A : Type 0} → Producer A → ℕ → Ring (Entry A) → Producer A
with_ring p i r =
    let channel : Channel _ = record (p.layout.queue_channels i) { ring = r } in
    record p {
      layout = record (p.layout) { queue_channels = store p.layout.queue_channels i channel };
    }

abbrev pub with_queue : {A : Type 0} → Producer A → ℕ → List (Message A) → Producer A
with_queue p i q = record p { back_pressure_channels = store p.back_pressure_channels i q }

abbrev pub is_nil {ℓ} : {A : Type ℓ} → List A → Bool
is_nil [] = true
is_nil (x ∷ xs) = false

-- A back pressure handler: the default one, or the caller's.
abbrev pub BackPressureHandler : Type 0 → Type 0
BackPressureHandler A = Producer A → Message A → Producer A × Expected Error

-- `startBackPressureQueue`: the action for the channel is posted, if the event queue accepts it.
unfoldable pub start_back_pressure_queue : {A : Type 0} → ℕ → BackPressureHandler A
start_back_pressure_queue i p message =
    let q = with_queue p i (p.back_pressure_channels i ++ message ∷ []) in
    if p.accepts
    then (record q { posted = p.posted ++ i ∷ [] }, ok tt)
    else (q, err Error.post_refused)

-- `applyDefaultBackPressureHandler`. It drops the result of `startBackPressureQueue`.
unfoldable pub apply_default_back_pressure_handler : {A : Type 0} → BackPressureHandler A
unfolding start_back_pressure_queue
apply_default_back_pressure_handler p message =
    let i = p.layout.active_outgoing_channel in
    if is_nil (p.back_pressure_channels i)
    then ((start_back_pressure_queue i p message).0, ok tt)
    else (with_queue p i (p.back_pressure_channels i ++ message ∷ []), ok tt)

abbrev pub with_outgoing : {A : Type 0} → Producer A → ℕ → Producer A
with_outgoing p i = record p { layout = record (p.layout) { active_outgoing_channel = i } }

-- `pushMessageToChannel`.
unfoldable pub push_message_to_channel :
    {A : Type 0}
    → Producer A
    → ℕ
    → Entry A
    → Message A
    → BackPressureHandler A
    → Producer A × Expected Error
unfolding with_ring
push_message_to_channel p i entry message handler =
    if not (ltb i p.layout.active_channels)
    then (p, err invalid_channel)
    else let p' = with_outgoing p i in
      if not (is_nil (p.back_pressure_channels i))
      then handler p' message
      else let (r, done) = enqueue (ring_of p i) entry in
        if done then (with_ring p' i r, ok tt) else handler p' message

-- The loop of `pushMessage` over the channels from `i` on, `n` of them.
unfoldable pub push_message_from :
    {A : Type 0}
    → Producer A
    → ℕ
    → ℕ
    → Entry A
    → Message A
    → BackPressureHandler A
    → Producer A × Expected Error
push_message_from p i zero entry message handler = (p, ok tt)
push_message_from p i (suc n) entry message handler =
    let (p', result) = push_message_to_channel p i entry message handler in
    elim result [
      | ok _ ↦ push_message_from p' (i + 1) n entry message handler
      | err e ↦ (p', err e)
    ]

module _ {A : Type 0} (types : List ℕ) where
  -- `pushMessage` to every active channel.
  unfoldable pub push_message :
      Producer A → Message A → BackPressureHandler A → Producer A × Expected Error
  push_message p message handler =
      if not p.mapped
      then (p, err not_initialized)
      else elim (get_type_index message.type types 0) [
        | none ↦ (p, err type_not_supported)
        | some k ↦
            push_message_from p 0 p.layout.active_channels
              (record { type_index = k; message_data = message.payload }) message handler
      ]

  -- `pushMessage` to one channel.
  unfoldable pub push_message_on :
      Producer A → ℕ → Message A → BackPressureHandler A → Producer A × Expected Error
  push_message_on p i message handler =
      if not p.mapped
      then (p, err not_initialized)
      else elim (get_type_index message.type types 0) [
        | none ↦ (p, err type_not_supported)
        | some k ↦
            push_message_to_channel p i (record { type_index = k; message_data = message.payload })
              message handler
      ]

  -- The entry that the drain action makes of a waiting message; -1 becomes a `uint32_t`.
  unfoldable pub entry_of : Message A → Entry A
  entry_of message = record {
    type_index = elim (get_type_index message.type types 0) [ none ↦ 2 ^ 32 - 1 | some k ↦ k ];
    message_data = message.payload;
  }

  -- The drain action's loop: the ring, the messages that still wait, and whether it is finished.
  unfoldable pub drain :
      Ring (Entry A) → List (Message A) → Ring (Entry A) × List (Message A) × Bool
  unfolding entry_of
  drain r [] = (r, [], true)
  drain r (message ∷ q) =
      let (r', done) = enqueue r (entry_of message) in
      elim done [ true ↦ drain r' q | false ↦ (r, message ∷ q, false) ]

  -- One run of the action that `startBackPressureQueue` posted for channel `i`; it is posted again
  -- while it answers `false`.
  unfoldable pub run_drain : Producer A → ℕ → Producer A × Bool
  unfolding with_ring
  run_drain p i =
      let (r, q, done) = drain (ring_of p i) (p.back_pressure_channels i) in
      (with_queue (with_ring p i r) i q, done)

unfoldable pub get_active_consumer_channel_count : {A : Type 0} → Producer A → ℕ
get_active_consumer_channel_count p = if not p.mapped then 0 else p.layout.active_channels
