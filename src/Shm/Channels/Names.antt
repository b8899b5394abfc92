-- ===== src/Shm/Channels/Names.antt =====
-- Allocation of channels: no two channels are owned under one name that is not empty, and a segment never has more
-- channels in use than it was made for.
use mathlib.Core.Bool.{false≢true}
use native.Mathlib.Decide.{ℕ_discrete}
use medici.Prelude.{
  store, subst, store_self, store_ne, ℕ, zero, suc, ◌+◌, ◌-◌, ◌^◌, ◌≤◌, ◌<◌, ◌≡◌, ◌≢◌, refl, ap,
  sym, ◌∙◌, ◌⊎◌, inl, inr, true, false, not, ◌==◌, ltb, if◌then◌else◌, List, [], ◌∷◌, ok, err,
  arith, take, Bool-cases,
}
use medici.Shm.Ring.{u32}
use medici.Shm.Channels.{
  Channel, Layout, Error, lock_failed, name_allocated, no_channel, c_str, name_size, same_bytes,
  name_matches, name_taken, claim_channel, alloc_queue_channel,
}

same_bytes_refl : (s : List ℕ) → same_bytes s s ≡ true
unfolding same_bytes
same_bytes_refl [] = refl
same_bytes_refl (c ∷ s) = ground (arith, same_bytes_refl s)

take-take : {A : Type 0} (n : ℕ) (s : List A) → take n (take n s) ≡ take n s
take-take zero s = refl
take-take (suc n) [] = refl
take-take (suc n) (c ∷ s) = ap (◌∷◌ c) (take-take n s)

-- A channel that holds the name is found.
name_matches_self :
    (existing wanted : List ℕ)
    → existing ≢ []
    → take name_size existing ≡ take name_size (c_str wanted)
    → name_matches existing wanted ≡ true
unfolding name_matches
name_matches_self [] wanted ne e = absurd (ne refl)
name_matches_self (c ∷ s) wanted ne e = rw e (same_bytes_refl (take name_size (c_str wanted)))

name_taken_at :
    {A : Type 0} (channels : ℕ → Channel A) (wanted : List ℕ) (n i : ℕ)
    → i < n
    → name_matches ((channels i).name) wanted ≡ true
    → name_taken channels wanted n ≡ true
unfolding name_taken
name_taken_at channels wanted zero i h m = elim h [ ]
name_taken_at channels wanted (suc n) i h m = elim (ℕ_discrete i n) [
  | yes e ↦ ground (arith, ap (λ k. name_matches ((channels k).name) wanted) e)
  | no ne ↦ ground (arith, name_taken_at channels wanted n i (omega arith) m)
]

pub record IsAllocated {A : Type 0} (l : Layout A) : Type 0 where
  pub within : l.active_channels ≤ l.allowed_channels
  pub short :
      (i : ℕ)
      → i < l.active_channels
      → take name_size ((l.queue_channels i).name) ≡ (l.queue_channels i).name
  pub distinct :
      (i j : ℕ)
      → i < j
      → j < l.active_channels
      → (l.queue_channels i).name ≢ []
      → (l.queue_channels i).name ≢ (l.queue_channels j).name

-- The layout with channel `i`, the last one, in the hands of `name`.
abbrev pub with_owner : {A : Type 0} → Layout A → List ℕ → Layout A
with_owner l name = record l {
  queue_channels = store l.queue_channels l.active_channels (record {
    name = take name_size (c_str name);
    ring = (l.queue_channels l.active_channels).ring;
  });
  active_channels = l.active_channels + 1;
}

claim_cases :
    {A : Type 0} (l : Layout A) (name : List ℕ) (count : ℕ)
    → count ≡ l.active_channels + 1
    → count < 2 ^ 32
    → ((l.allowed_channels ≤ l.active_channels)
        × (claim_channel l name count ≡ (l, err no_channel)))
      ⊎ ((l.active_channels < l.allowed_channels)
          × (claim_channel l name count ≡ (with_owner l name, ok l.active_channels)))
unfolding claim_channel
claim_cases l name count e small =
    rw e (elim (Bool-cases (ltb l.allowed_channels (l.active_channels + 1))) [
      | inl full ↦ inl (ground arith, rw full)
      | inr room ↦ inr (ground arith, rw (room, last))
    ])
  where
    last : u32 (l.active_channels + 1 + (2 ^ 32 - 1)) ≡ l.active_channels
    last = omega (arith, e, small)

-- The branches of `AllocQueueChannel`.
pub alloc_cases :
    {A : Type 0} (lock : ℕ) (l : Layout A) (name : List ℕ)
    → l.active_channels + 1 < 2 ^ 32
    → ((e : Error) × (alloc_queue_channel lock l name ≡ (l, err e)))
      ⊎ ((name_taken l.queue_channels name l.active_channels ≡ false)
          × (l.active_channels < l.allowed_channels)
          × (alloc_queue_channel lock l name ≡ (with_owner l name, ok l.active_channels)))
unfolding alloc_queue_channel
alloc_cases lock l name h = elim (Bool-cases (not (lock == 0))) [
  | inl failed ↦ inl (lock_failed, rw failed)
  | inr locked ↦ elim (Bool-cases (name_taken l.queue_channels name l.active_channels)) [
    | inl taken ↦ inl (name_allocated, rw (locked, taken))
    | inr free ↦
        elim (claim_cases l name (u32 (l.active_channels + 1)) (omega arith) (omega arith)) [
          | inl full ↦ inl (no_channel, rw (locked, free) full.1)
          | inr room ↦ inr (free, room.0, rw (locked, free) room.1)
        ]
  ]
]

owner_new :
    {A : Type 0} (l : Layout A) (name : List ℕ) (i : ℕ)
    → l.active_channels ≡ i
    → ((with_owner l name).queue_channels i).name ≡ take name_size (c_str name)
owner_new l name i e =
    ap (λ (c : Channel _). c.name) (store_self l.queue_channels _ l.active_channels i e)

owner_old :
    {A : Type 0} (l : Layout A) (name : List ℕ) (i : ℕ)
    → l.active_channels ≢ i
    → ((with_owner l name).queue_channels i).name ≡ (l.queue_channels i).name
owner_old l name i ne =
    ap (λ (c : Channel _). c.name) (store_ne l.queue_channels _ l.active_channels i ne)

with_owner-IsAllocated :
    {A : Type 0} (l : Layout A) (name : List ℕ)
    → IsAllocated l
    → l.active_channels < l.allowed_channels
    → name_taken l.queue_channels name l.active_channels ≡ false
    → IsAllocated (with_owner l name)
with_owner-IsAllocated l name v h free = record {
  within = omega arith;
  short = λ i hi. elim (ℕ_discrete l.active_channels i) [
    | yes e ↦ rw (owner_new l name i e) (take-take name_size (c_str name))
    | no ne ↦ rw (owner_old l name i ne) (v.short i (omega arith))
  ];
  distinct = λ i j hij hj. elim (ℕ_discrete l.active_channels j) [
    | yes e ↦
        rw (owner_old l name i (omega arith), owner_new l name j e)
          (λ ne same. clash i (omega arith) ne same)
    | no ne ↦
        rw (owner_old l name i (omega arith), owner_old l name j ne)
          (v.distinct i j hij (omega arith))
  ];
}
  where
    clash :
        (i : ℕ)
        → i < l.active_channels
        → (l.queue_channels i).name ≢ []
        → (l.queue_channels i).name ≢ take name_size (c_str name)
    clash i hi ne same = false≢true (
        sym free
        ∙ name_taken_at l.queue_channels name l.active_channels i hi
            (name_matches_self _ name ne (v.short i hi ∙ same)))

-- Every allocation, granted or refused, keeps the count of channels in use within its limit and the names of
-- those channels that are not empty distinct, where they are so before and the names are cut to their size.
-- Channels with the empty name are not told apart. The limit is below the largest 32 bit number.
pub alloc-IsAllocated :
    {A : Type 0} (lock : ℕ) (l : Layout A) (name : List ℕ)
    → l.allowed_channels + 1 < 2 ^ 32
    → IsAllocated l
    → IsAllocated (alloc_queue_channel lock l name).0
alloc-IsAllocated lock l name small v =
    elim (alloc_cases lock l name (omega (arith, v.within, small))) [
      | inl refused ↦ rw refused.1 v
      | inr granted ↦ rw granted.2 (with_owner-IsAllocated l name v granted.1 granted.0)
    ]

take-ne-nil : (n : ℕ) (s : List ℕ) → s ≢ [] → take (suc n) s ≢ []
take-ne-nil n [] ne e = ne refl
take-ne-nil n (c ∷ s) ne e = cc

with_owner_taken :
    {A : Type 0} (l : Layout A) (name : List ℕ)
    → c_str name ≢ []
    → name_taken ((with_owner l name).queue_channels) name (l.active_channels + 1) ≡ true
with_owner_taken l name ne =
    name_taken_at ((with_owner l name).queue_channels) name (l.active_channels + 1)
      l.active_channels (omega arith)
      (name_matches_self _ name
        (λ e. take-ne-nil 62 (c_str name) ne (sym (owner_new l name l.active_channels refl) ∙ e))
        (ap (take name_size) (owner_new l name l.active_channels refl)
          ∙ take-take name_size (c_str name)))

alloc_taken :
    {A : Type 0} (lock : ℕ) (l : Layout A) (name : List ℕ)
    → name_taken l.queue_channels name l.active_channels ≡ true
    → alloc_queue_channel lock l name ≡ (l, err (if lock == 0 then name_allocated else lock_failed))
unfolding alloc_queue_channel
alloc_taken lock l name taken = ground arith

-- Once a name that is not empty has been given a channel of a segment whose other names are distinct, a
-- second allocation under that name is refused and changes nothing. The limit of the segment is below the
-- largest 32 bit number.
pub alloc_twice :
    {A : Type 0} (lock : ℕ) (l l' : Layout A) (name : List ℕ) (i : ℕ)
    → l.allowed_channels + 1 < 2 ^ 32
    → IsAllocated l
    → c_str name ≢ []
    → alloc_queue_channel 0 l name ≡ (l', ok i)
    → alloc_queue_channel lock l' name
      ≡ (l', err (if lock == 0 then name_allocated else lock_failed))
alloc_twice lock l l' name i small v ne e =
    elim (alloc_cases 0 l name (omega (arith, v.within, small))) [
      | inl refused ↦ cc (e, refused.1)
      | inr granted ↦ alloc_taken lock l' name (
          subst (λ k. name_taken k.queue_channels name k.active_channels ≡ true)
            (ap (λ r. r.0) (sym granted.2 ∙ e)) (with_owner_taken l name ne))
    ]
