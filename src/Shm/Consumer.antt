-- ===== src/Shm/Consumer.antt =====
-- shm_endpoints/SPMCEndpointsImpl.hpp, the consumer endpoint `ClientShmPODConsumerEndpoint`: it takes
-- a channel of an existing segment by name, and hands every entry that it finds there to its handler.
pub mod Delivery
use medici.Prelude.{
  ℕ, zero, suc, ◌+◌, Bool, true, false, not, ◌==◌, if◌then◌else◌, List, [], ◌∷◌, Option, none, some,
  Result, ok, err,
}
use medici.Shm.Ring.{Ring, Handler, u32, updates_available, consume_available}
use medici.Shm.Channels.{
  Entry, Layout, QueueType, spmc_queue, mpsc_queue, full_duplex_queue, Error, not_initialized,
  type_mismatch, message_type_mismatch, dispatch_to_handler, alloc_queue_channel,
}

unfoldable pub is_spmc : QueueType → Bool
is_spmc spmc_queue = true
is_spmc mpsc_queue = false
is_spmc full_duplex_queue = false

-- The constructor: the channel is allocated first and the checks come after, so that a check that
-- fails (an exception) leaves the channel allocated. `hash` is that of the endpoint's message types.
unfoldable pub construct_consumer :
    {A : Type 0} → ℕ → Layout A → List ℕ → ℕ → Layout A × Result Error ℕ
unfolding is_spmc
construct_consumer lock_result l consumer_id hash =
    let (l', channel) = alloc_queue_channel lock_result l consumer_id in
    elim channel [
      | err e ↦ (l', err e)
      | ok i ↦
          if not (is_spmc l'.queue_type)
          then (l', err type_mismatch)
          else if not (l'.message_types_hash == hash)
          then (l', err message_type_mismatch)
          else (l', ok i)
    ]

module _ {A S : Type 0} (types : List ℕ) (handler : ℕ → Handler Error S A) where
  -- `onPayloadReady`.
  abbrev pub dispatch : Handler Error S (Entry A)
  dispatch entry s = dispatch_to_handler types 0 handler entry s

  -- The loop of `pollAndDispatch`, on fuel: `none` means that the fuel ran out.
  unfoldable pub poll_from :
      ℕ → Ring (Entry A) → S → ℕ → Option (Ring (Entry A) × S × Result Error ℕ)
  poll_from zero r s n = none
  poll_from (suc fuel) r s n = elim (updates_available r) [
    | false ↦ some (r, s, ok n)
    | true ↦
        let (r', result, s') = consume_available r dispatch s in
        elim result [ ok _ ↦ poll_from fuel r' s' (u32 (n + 1)) | err e ↦ some (r', s', err e) ]
  ]

  unfoldable pub poll_and_dispatch :
      Bool → ℕ → Ring (Entry A) → S → Option (Ring (Entry A) × S × Result Error ℕ)
  unfolding poll_from
  poll_and_dispatch mapped fuel r s =
      if not mapped then some (r, s, err not_initialized) else poll_from fuel r s 0
