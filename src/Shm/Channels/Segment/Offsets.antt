-- ===== src/Shm/Channels/Segment/Offsets.antt =====
-- Where the channels of a segment lie, and the state in which they are made.
use native.Mathlib.Nat.{mul-suc}
use native.Mathlib.Decide.{ℕ_discrete}
use medici.Prelude.{
  ℕ, zero, suc, ◌+◌, ◌^◌, ◌<◌, ◌≡◌, refl, ap, ap₂, sym, subst, ◌∙◌, arith, store_self, store_ne, [],
}
use medici.Shm.Ring.{construct, get_queue_size, next_offset}
use medici.Shm.Ring.Bounds.{IsValid, construct-IsValid, next_offset-construct}
use medici.Shm.Ring.Refine.{contents, contents_empty}
use medici.Shm.Channels.{Entry, Channel, QueueType}
use medici.Shm.Channels.Segment.{
  construct_channels, construct_layout, walk_offset, get_queue_channel_offset,
}

-- The constructor puts every channel where `getQueueChannel` looks for it.
pub walk_offset_lem :
    {A : Type 0} (header_size entry_size size : ℕ) (mem : ℕ → ℕ → A) (i : ℕ)
    → walk_offset header_size entry_size size mem i
      ≡ get_queue_channel_offset header_size entry_size size i
unfolding walk_offset get_queue_channel_offset get_queue_size next_offset construct
walk_offset_lem header_size entry_size size mem zero = omega arith
walk_offset_lem header_size entry_size size mem (suc i) =
    ap₂ (λ x y. x + y) (walk_offset_lem header_size entry_size size mem i)
      (next_offset-construct header_size entry_size size i (mem i))
    ∙ sym (mul-suc (get_queue_size header_size entry_size size) i)

channels_made :
    {A : Type 0} (size : ℕ) (mem : ℕ → ℕ → Entry A) (n : ℕ) (channels : ℕ → Channel A) (i : ℕ)
    → i < n
    → construct_channels size mem n channels i
      ≡ record { name = []; ring = construct size i (mem i) }
unfolding construct_channels
channels_made size mem zero channels i h = absurd (omega arith)
channels_made {A} size mem (suc n) channels i h =
    let made : Channel A = record { name = []; ring = construct size n (mem n) } in
    elim (ℕ_discrete n i) [
      | yes at ↦
          store_self (construct_channels size mem n channels) made n i at
          ∙ ap (λ k. record { name = []; ring = construct size k (mem k) }) at
      | no ne ↦
          store_ne (construct_channels size mem n channels) made n i ne
          ∙ channels_made size mem n channels i (omega arith)
    ]

-- A new segment's channels have no name and a valid ring that is empty, if the size of a ring, plus one,
-- is below 2 ^ 32.
pub construct_layout-empty :
    {A : Type 0} (queue_type : QueueType) (count size hash : ℕ) (mem : ℕ → ℕ → Entry A)
    (channels : ℕ → Channel A) (i : ℕ)
    → size + 1 < 2 ^ 32
    → i < count
    → let channel = (construct_layout queue_type count size hash mem channels).queue_channels i in
      (channel.name ≡ []) × IsValid channel.ring × (contents channel.ring ≡ [])
unfolding construct_layout construct
construct_layout-empty queue_type count size hash mem channels i small h =
    let made = channels_made size mem count channels i h in
    (
      ap (λ c. c.name) made,
      subst (λ c. IsValid c.ring) (sym made) (construct-IsValid size i (mem i) small),
      ap (λ c. contents c.ring) made
          ∙ contents_empty (construct size i (mem i)) (construct-IsValid size i (mem i) small) refl,
    )
