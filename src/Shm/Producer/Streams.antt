-- ===== src/Shm/Producer/Streams.antt =====
-- What a channel has in flight: the entries in its ring, then the messages that wait for it. With the
-- default back pressure handler a push adds at the end.
use mathlib.Core.List.{map-append}
use native.Mathlib.Decide.{ℕ_discrete}
use medici.Prelude.{
  ℕ, zero, suc, ◌+◌, ◌≤◌, ◌<◌, ◌≡◌, ◌≢◌, refl, ap, ap₂, sym, ◌∙◌, subst, ◌⊎◌, inl, inr, true, false,
  List, [], ◌∷◌, ◌++◌, map, append_assoc, append-nil, some, ok, arith, store_self, store_ne, lt→ltb,
  Bool-cases,
}
use medici.Shm.Ring.{Ring}
use medici.Shm.Ring.Bounds.{IsValid}
use medici.Shm.Ring.Refine.{contents, enqueue_cases}
use medici.Shm.Channels.{Entry, Channel, get_type_index}
use medici.Shm.Producer.{
  Producer, Message, ring_of, with_ring, with_queue, with_outgoing, is_nil, BackPressureHandler,
  start_back_pressure_queue, apply_default_back_pressure_handler, push_message_to_channel,
  push_message_from, push_message, entry_of,
}

is_nil-cases {ℓ} : {A : Type ℓ} (q : List A) → ((q ≡ []) × (is_nil q ≡ true)) ⊎ (is_nil q ≡ false)
is_nil-cases [] = inl (refl, refl)
is_nil-cases (x ∷ q) = inr refl

module _ {A : Type 0} (p : Producer A) (i j : ℕ) (r : Ring (Entry A)) where
  ring_self : i ≡ j → ring_of (with_ring p i r) j ≡ r
  unfolding with_ring
  ring_self e =
      ap (λ (c : Channel A). c.ring)
        (store_self p.layout.queue_channels (record (p.layout.queue_channels i) { ring = r }) i j e)

  ring_ne : i ≢ j → ring_of (with_ring p i r) j ≡ ring_of p j
  unfolding with_ring
  ring_ne ne =
      ap (λ (c : Channel A). c.ring)
        (store_ne p.layout.queue_channels (record (p.layout.queue_channels i) { ring = r }) i j ne)

module _ {A : Type 0} (types : List ℕ) where
  abbrev pub stream : Producer A → ℕ → List (Entry A)
  stream p i = contents (ring_of p i) ++ map (entry_of types) (p.back_pressure_channels i)

  -- `p'` is `p` with the entry added at the end of channel `i` and every other channel as it was.
  pub record Pushed (p p' : Producer A) (i : ℕ) (entry : Entry A) : Type 0 where
    pub active : p'.layout.active_channels ≡ p.layout.active_channels
    pub valid : (j : ℕ) → IsValid (ring_of p' j)
    pub at : stream p' i ≡ stream p i ++ entry ∷ []
    pub elsewhere : (j : ℕ) → i ≢ j → stream p' j ≡ stream p j

  queued :
      (p : Producer A) (i : ℕ) (message : Message A) (posted : List ℕ)
      → ((j : ℕ) → IsValid (ring_of p j))
      → Pushed p
          (record (with_queue (with_outgoing p i) i (p.back_pressure_channels i ++ message ∷ [])) {
            posted = posted;
          })
          i
          (entry_of types message)
  queued p i message posted v = record {
    active = refl;
    valid = v;
    at =
        ap (λ q. contents (ring_of p i) ++ map (entry_of types) q)
          (store_self p.back_pressure_channels (p.back_pressure_channels i ++ message ∷ []) i i
            refl)
        ∙ ap (◌++◌ (contents (ring_of p i)))
            (map-append (entry_of types) (p.back_pressure_channels i) (message ∷ []))
        ∙ sym (append_assoc (contents (ring_of p i)) _ _);
    elsewhere = λ j ne.
        ap (λ q. contents (ring_of p j) ++ map (entry_of types) q)
          (store_ne p.back_pressure_channels (p.back_pressure_channels i ++ message ∷ []) i j ne);
  }

  stored :
      (p : Producer A) (i : ℕ) (entry : Entry A) (r : Ring (Entry A))
      → ((j : ℕ) → IsValid (ring_of p j))
      → p.back_pressure_channels i ≡ []
      → IsValid r
      → contents r ≡ contents (ring_of p i) ++ entry ∷ []
      → Pushed p (with_ring (with_outgoing p i) i r) i entry
  unfolding with_ring
  stored p i entry r v e vr c = record {
    active = refl;
    valid = λ j. elim (ℕ_discrete i j) [
      | yes same ↦ subst IsValid (sym (ring_self (with_outgoing p i) i j r same)) vr
      | no ne ↦ subst IsValid (sym (ring_ne (with_outgoing p i) i j r ne)) (v j)
    ];
    at =
        ap (λ k. contents k ++ map (entry_of types) (p.back_pressure_channels i))
          (ring_self (with_outgoing p i) i i r refl)
        ∙ ap₂ (λ q m. q ++ map (entry_of types) m) c e
        ∙ append-nil _
        ∙ ap (λ q. q ++ entry ∷ [])
            (sym (ap (λ m. contents (ring_of p i) ++ map (entry_of types) m) e ∙ append-nil _));
    elsewhere = λ j ne.
        ap (λ k. contents k ++ map (entry_of types) (p.back_pressure_channels j))
          (ring_ne (with_outgoing p i) i j r ne);
  }

  -- The default handler queues the message on the channel that is being pushed to.
  default_queues :
      (p : Producer A) (i : ℕ) (message : Message A)
      → ((j : ℕ) → IsValid (ring_of p j))
      → (p' : Producer A) × (apply_default_back_pressure_handler (with_outgoing p i) message
          ≡ (p', ok tt))
        × Pushed p p' i (entry_of types message)
  unfolding apply_default_back_pressure_handler start_back_pressure_queue
  default_queues p i message v = elim (is_nil-cases (p.back_pressure_channels i)) [
    | inl empty ↦ elim (Bool-cases p.accepts) [
      | inl yes' ↦ (_, rw (empty.1, yes'), queued p i message (p.posted ++ i ∷ []) v)
      | inr no' ↦ (_, rw (empty.1, no'), queued p i message p.posted v)
    ]
    | inr busy ↦ (_, rw busy, queued p i message p.posted v)
  ]

  -- A push to one channel, with the default handler.
  channel-Pushed :
      (p : Producer A) (i : ℕ) (message : Message A)
      → ((j : ℕ) → IsValid (ring_of p j))
      → i < p.layout.active_channels
      → (p' : Producer A) × (push_message_to_channel p i
            (entry_of types message)
            message
            apply_default_back_pressure_handler
          ≡ (p', ok tt))
        × Pushed p p' i (entry_of types message)
  unfolding push_message_to_channel
  channel-Pushed p i message v h = elim (is_nil-cases (p.back_pressure_channels i)) [
    | inr busy ↦ (d.0, rw (lt→ltb _ _ h, busy) d.1, d.2)
    | inl empty ↦ elim (enqueue_cases (ring_of p i) (entry_of types message) (v i)) [
      | inl full ↦ (d.0, rw (lt→ltb _ _ h, empty.1, full.0) d.1, d.2)
      | inr room ↦ (
        with_ring (with_outgoing p i) i room.0,
        rw (lt→ltb _ _ h, empty.1, room.1),
        stored p i (entry_of types message) room.0 v empty.0 room.3 room.2,
      )
    ]
  ]
    where
      d :
          (p' : Producer A) × (apply_default_back_pressure_handler (with_outgoing p i) message
            ≡ (p', ok tt))
          × Pushed p p' i (entry_of types message)
      d = default_queues p i message v

  -- `p'` is `p` with the entry at the end of each channel from `i` up to `k`.
  pub record PushedAll (p p' : Producer A) (i k : ℕ) (entry : Entry A) : Type 0 where
    pub active : p'.layout.active_channels ≡ p.layout.active_channels
    pub valid : (j : ℕ) → IsValid (ring_of p' j)
    pub at : (j : ℕ) → i ≤ j → j < k → stream p' j ≡ stream p j ++ entry ∷ []
    pub below : (j : ℕ) → j < i → stream p' j ≡ stream p j
    pub above : (j : ℕ) → k ≤ j → stream p' j ≡ stream p j

  PushedAll-cons :
      {p q p' : Producer A} {i k : ℕ} {entry : Entry A}
      → i < k
      → Pushed p q i entry
      → PushedAll q p' (i + 1) k entry
      → PushedAll p p' i k entry
  PushedAll-cons {p} {q} {p'} {i} {k} {entry} h first rest = record {
    active = rest.active ∙ first.active;
    valid = rest.valid;
    at = λ j hij hjk. elim (ℕ_discrete i j) [
      | yes same ↦
          rest.below j (omega arith)
          ∙ subst (λ n. stream q n ≡ stream p n ++ entry ∷ []) same first.at
      | no ne ↦ rest.at j (omega arith) hjk ∙ ap (λ s. s ++ entry ∷ []) (first.elsewhere j ne)
    ];
    below = λ j hj. rest.below j (omega arith) ∙ first.elsewhere j (omega arith);
    above = λ j hj. rest.above j hj ∙ first.elsewhere j (omega arith);
  }

  push_from_next :
      (p : Producer A) (i n : ℕ) (message : Message A) (p' : Producer A)
      → push_message_to_channel p i
          (entry_of types message)
          message
          apply_default_back_pressure_handler
        ≡ (p', ok tt)
      → push_message_from p i
          (suc n)
          (entry_of types message)
          message
          apply_default_back_pressure_handler
        ≡ push_message_from p'
            (i + 1)
            n
            (entry_of types message)
            message
            apply_default_back_pressure_handler
  unfolding push_message_from
  push_from_next p i n message p' e =
      rw (e, push_message_from)
        (ap
          (λ z.
            push_message_from z.0 (i + 1) n (entry_of types message) message
              apply_default_back_pressure_handler)
          e)

  push_from_zero :
      (p : Producer A) (i : ℕ) (message : Message A)
      → push_message_from p i 0 (entry_of types message) message apply_default_back_pressure_handler
        ≡ (p, ok tt)
  unfolding push_message_from
  push_from_zero p i message = refl

  push_from-PushedAll :
      (p : Producer A) (i n k : ℕ) (message : Message A)
      → ((j : ℕ) → IsValid (ring_of p j))
      → i + n ≡ k
      → k ≤ p.layout.active_channels
      → (p' : Producer A) × (push_message_from p i n
            (entry_of types message)
            message
            apply_default_back_pressure_handler
          ≡ (p', ok tt))
        × PushedAll p p' i k (entry_of types message)
  push_from-PushedAll p i zero k message v e h = (
    p,
    push_from_zero p i message,
    record {
      active = refl;
      valid = v;
      at = λ j hij hjk. absurd (omega arith);
      below = λ j _. refl;
      above = λ j _. refl;
    },
  )
  push_from-PushedAll p i (suc n) k message v e h =
      let first = channel-Pushed p i message v (omega arith) in
      let rest =
        push_from-PushedAll first.0 (i + 1) n k message first.2.valid (omega arith)
          (omega (arith, first.2.active)) in
      (
        rest.0,
        push_from_next p i n message first.0 first.1 ∙ rest.1,
        PushedAll-cons (omega arith) first.2 rest.2,
      )

  tagged :
      (message : Message A) (k : ℕ)
      → get_type_index message.type types 0 ≡ some k
      → entry_of types message ≡ record { type_index = k; message_data = message.payload }
  unfolding entry_of
  tagged message k e = rw e

  supported :
      (p : Producer A) (message : Message A) (k : ℕ) (handler : BackPressureHandler A)
      → p.mapped ≡ true
      → get_type_index message.type types 0 ≡ some k
      → push_message types p message handler
        ≡ push_message_from p 0 p.layout.active_channels
            (record { type_index = k; message_data = message.payload })
            message
            handler
  unfolding push_message
  supported p message k handler m e = ground (arith, m, e)

  -- With the default handler, a mapped segment and valid rings, `pushMessage` never fails on a message
  -- of a supported type: the entry goes to the end of what each active channel has in flight, and what
  -- the other channels have in flight does not change.
  pub push_message-PushedAll :
      (p : Producer A) (message : Message A) (k : ℕ)
      → ((j : ℕ) → IsValid (ring_of p j))
      → p.mapped ≡ true
      → get_type_index message.type types 0 ≡ some k
      → (p' : Producer A) × (push_message types p message apply_default_back_pressure_handler
          ≡ (p', ok tt))
        × PushedAll p p' 0 p.layout.active_channels
            (record { type_index = k; message_data = message.payload })
  push_message-PushedAll p message k v m e =
      let all =
        push_from-PushedAll p 0 p.layout.active_channels p.layout.active_channels message v
          (omega arith) (omega arith) in
      (
        all.0,
        supported p message k apply_default_back_pressure_handler m e
            ∙ ap
                (λ x.
                  push_message_from p 0 p.layout.active_channels x message
                    apply_default_back_pressure_handler)
                (sym (tagged message k e))
            ∙ all.1,
        subst (PushedAll p all.0 0 p.layout.active_channels) (tagged message k e) all.2,
      )
