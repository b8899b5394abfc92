-- ===== src/Shm/Channels/Segment/Broadcast.antt =====
-- `enqueueMessageToAllChannels` reaches the channels in turn.
use native.Mathlib.Decide.{ℕ_discrete}
use medici.Prelude.{
  ℕ, zero, suc, ◌+◌, ◌-◌, ◌<◌, ◌≡◌, ◌≢◌, refl, ap, ◌∙◌, sym, subst, ◌⊎◌, inl, inr, arith, Bool,
  true, false, ltb, ◌==◌, if◌then◌else◌, List, store, store_self, store_ne, Expected, ok, err,
  Bool-cases, Result-cases,
}
use medici.Shm.Ring.{Handler, enqueue}
use medici.Shm.Channels.{Entry, Channel, Layout, Error}
use medici.Shm.Channels.Segment.{
  enqueue_message_to_channel, enqueue_message_from, enqueue_message_to_all_channels,
}

-- A channel with the entry in its ring, if there was room.
abbrev pub pushed : {A : Type 0} → Channel A → Entry A → Channel A
pushed c entry = record c { ring = (enqueue c.ring entry).0 }

-- The first `n` channels have had their turn.
pub record Pushed {A : Type 0} (l : Layout A) (entry : Entry A) (n : ℕ) (l' : Layout A)
    : Type 0 where
  pub channels :
      (j : ℕ)
      → l'.queue_channels j
        ≡ (if ltb j n then pushed (l.queue_channels j) entry else l.queue_channels j)
  pub outgoing : l'.active_outgoing_channel ≡ (if n == 0 then l.active_outgoing_channel else n - 1)
  pub active : l'.active_channels ≡ l.active_channels

module _ {A S : Type 0} (types : List ℕ) (back_off : ℕ → Handler Error S A) where
  -- The layout that one channel's turn leaves.
  abbrev enqueued : Layout A → ℕ → Entry A → Layout A
  enqueued l i entry =
      let channel : Channel A = record (l.queue_channels i) {
        ring = (enqueue (l.queue_channels i).ring entry).0;
      } in
      record l { active_outgoing_channel = i; queue_channels = store l.queue_channels i channel }

  channel_lem :
      (l : Layout A) (i : ℕ) (entry : Entry A) (s : S)
      → (enqueue_message_to_channel types back_off l i entry s).0 ≡ enqueued l i entry
  unfolding enqueue_message_to_channel
  channel_lem l i entry s = elim (Bool-cases (enqueue (l.queue_channels i).ring entry).1) [
    | inl done ↦ rw (enqueue_message_to_channel, done)
    | inr full ↦ rw (enqueue_message_to_channel, full)
  ]

  -- A channel whose turn fails was full.
  full_lem :
      (l : Layout A) (i : ℕ) (entry : Entry A) (s : S) (e : Error)
      → (enqueue_message_to_channel types back_off l i entry s).1 ≡ err e
      → (enqueue (l.queue_channels i).ring entry).1 ≡ false
  unfolding enqueue_message_to_channel
  full_lem l i entry s e failed = elim (Bool-cases (enqueue (l.queue_channels i).ring entry).1) [
    | inl done ↦ absurd (ok_ne e (sym (ap (λ z. z.1) (turn done)) ∙ failed))
    | inr full ↦ full
  ]
    where
      ok_ne : (e : Error) → ok tt ≢ err e
      ok_ne e p = cc

      turn :
          (enqueue (l.queue_channels i).ring entry).1 ≡ true
          → enqueue_message_to_channel types back_off l i entry s ≡ (enqueued l i entry, ok tt, s)
      turn done = rw (enqueue_message_to_channel, done)

  -- A channel that has not had its turn.
  untouched :
      (l0 l : Layout A) (i : ℕ) (entry : Entry A)
      → Pushed l0 entry i l
      → l.queue_channels i ≡ l0.queue_channels i
  untouched l0 l i entry p =
      let behind : ltb i i ≡ false = ground arith in
      p.channels i
      ∙ ap (λ (b : Bool). if b then pushed (l0.queue_channels i) entry else l0.queue_channels i)
          behind

  next-Pushed :
      (l0 l : Layout A) (i : ℕ) (entry : Entry A)
      → Pushed l0 entry i l
      → Pushed l0 entry (i + 1) (enqueued l i entry)
  next-Pushed l0 l i entry p = record {
    channels = λ j. elim (ℕ_discrete i j) [
      | yes at ↦
          let now : true ≡ ltb j (i + 1) = ground (arith, at) in
          store_self l.queue_channels (pushed (l.queue_channels i) entry) i j at
          ∙ ap (λ c. pushed c entry) (untouched l0 l i entry p ∙ ap l0.queue_channels at)
          ∙ ap (λ (b : Bool). if b then pushed (l0.queue_channels j) entry else l0.queue_channels j)
              now
      | no ne ↦
          let same : ltb j i ≡ ltb j (i + 1) = ground (arith, ne) in
          store_ne l.queue_channels (pushed (l.queue_channels i) entry) i j ne
          ∙ p.channels j
          ∙ ap (λ (b : Bool). if b then pushed (l0.queue_channels j) entry else l0.queue_channels j)
              same
    ];
    outgoing = ground arith;
    active = p.active;
  }

  -- How the loop over the channels below `m` ends: behind the last channel, or at a full one.
  abbrev Ends : Layout A → Entry A → ℕ → Layout A × Expected Error × S → Type 0
  Ends l0 entry m r =
      ((r.1 ≡ ok tt) × Pushed l0 entry m r.0)
      ⊎ ((e : Error) × (k : ℕ) × (k < m)
          × (r.1 ≡ err e)
          × ((enqueue (l0.queue_channels k).ring entry).1 ≡ false)
          × Pushed l0 entry (k + 1) r.0)

  from_lem :
      (n i m : ℕ) (l0 l : Layout A) (entry : Entry A) (s : S)
      → m ≡ i + n
      → Pushed l0 entry i l
      → Ends l0 entry m (enqueue_message_from types back_off i n l entry s)
  unfolding enqueue_message_from
  from_lem zero i m l0 l entry s e p =
      inl (refl, subst (λ k. Pushed l0 entry k l) (omega (arith, e)) p)
  from_lem (suc n) i m l0 l entry s e p =
      let turn = enqueue_message_to_channel types back_off l i entry s in
      let p' : Pushed l0 entry (i + 1) turn.0 =
        subst (Pushed l0 entry (i + 1)) (sym (channel_lem l i entry s))
          (next-Pushed l0 l i entry p) in
      elim (Result-cases turn.1) [
        | inl (u, done) ↦
            rw (enqueue_message_from, done)
              (from_lem n (i + 1) m l0 turn.0 entry turn.2 (omega (arith, e)) p')
        | inr (x, failed) ↦
            rw (enqueue_message_from, failed)
              (inr (
                x,
                i,
                omega (arith, e),
                refl,
                ap (λ c. (enqueue c.ring entry).1) (sym (untouched l0 l i entry p))
                    ∙ full_lem l i entry s x failed,
                p',
              ))
      ]

  -- `enqueueMessageToAllChannels` gives each channel in use, from the first on, one turn with the entry,
  -- which its ring takes or is too full for, and returns without error behind the last one; or it ends with
  -- an error at a channel whose ring was full, and the channels behind that one have not been touched. The
  -- outgoing channel is the last one that had its turn. Channels not in use, and their number, stay.
  pub broadcast-Pushed :
      (l : Layout A) (entry : Entry A) (s : S)
      → let r = enqueue_message_to_all_channels types back_off l entry s in
        ((r.1 ≡ ok tt) × Pushed l entry l.active_channels r.0)
        ⊎ ((e : Error) × (k : ℕ) × (k < l.active_channels)
            × (r.1 ≡ err e)
            × ((enqueue (l.queue_channels k).ring entry).1 ≡ false)
            × Pushed l entry (k + 1) r.0)
  unfolding enqueue_message_to_all_channels
  broadcast-Pushed l entry s =
      let none_yet : (j : ℕ) → ltb j 0 ≡ false = λ j. ground arith in
      from_lem l.active_channels 0 l.active_channels l l entry s (omega arith) (record {
        channels = λ j.
            ap (λ (b : Bool). if b then pushed (l.queue_channels j) entry else l.queue_channels j)
              (sym (none_yet j));
        outgoing = refl;
        active = refl;
      })
