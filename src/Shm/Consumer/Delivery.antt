-- ===== src/Shm/Consumer/Delivery.antt =====
-- A poll hands over what the ring holds, oldest first, up to the first entry whose handler fails.
use medici.Prelude.{
  ℕ, zero, suc, ◌+◌, ◌^◌, ◌<◌, ◌≡◌, ◌≢◌, refl, ap, sym, ◌∙◌, ◌⊎◌, inl, inr, true, false, List, [],
  ◌∷◌, Option, some, Result, ok, err, arith, length, Result-cases, Bool-cases, subst,
}
use native.Mathlib.Decide.{ℕ_discrete}
use medici.Shm.Ring.{Ring, Handler, u32, updates_available, consume_available, next_index}
use medici.Shm.Ring.Modulo.{distance-lt}
use medici.Shm.Ring.Bounds.{IsValid, next_index-lt}
use medici.Shm.Ring.Refine.{contents, length-contents, contents_empty, contents_shrink}
use medici.Shm.Channels.{
  Entry, Layout, Error, type_mismatch, message_type_mismatch, alloc_queue_channel,
}
use medici.Shm.Channels.Names.{alloc_cases}
use medici.Shm.Consumer.{is_spmc, construct_consumer, dispatch, poll_from, poll_and_dispatch}

-- The specification: what is left, the handler's state, and the number of entries handed over or the
-- handler's error.
pub deliver : {X S : Type 0} → List X → Handler Error S X → S → ℕ → List X × S × Result Error ℕ
deliver [] f s n = ([], s, ok n)
deliver (x ∷ q) f s n =
    let (result, s') = f x s in
    elim result [ ok _ ↦ deliver q f s' (u32 (n + 1)) | err e ↦ (q, s', err e) ]

available_cases :
    {A : Type 0} (r : Ring A)
    → IsValid r
    → ((updates_available r ≡ false) × (contents r ≡ []))
      ⊎ ((updates_available r ≡ true)
          × (contents r ≡ r.storage r.head ∷ contents (record r { head = next_index r r.head })))
unfolding updates_available
available_cases r v = elim (ℕ_discrete r.head r.tail) [
  | yes e ↦ inl (ground arith, contents_empty r v e)
  | no ne ↦ inr (ground arith, contents_shrink r v ne)
]

moved : {A : Type 0} (r : Ring A) → IsValid r → IsValid (record r { head = next_index r r.head })
moved r v = record { head_in = next_index-lt r.head v; tail_in = v.tail_in; small = v.small }

contents-lt : {A : Type 0} (r : Ring A) → IsValid r → length (contents r) < r.queue_size
contents-lt r v =
    omega
      (arith, length-contents r, distance-lt {n = r.queue_size} r.head r.tail v.head_in v.tail_in)

module _ {A S : Type 0} (types : List ℕ) (handler : ℕ → Handler Error S A) where
  poll_none :
      (fuel : ℕ) (r : Ring (Entry A)) (s : S) (n : ℕ)
      → updates_available r ≡ false
      → poll_from types handler (suc fuel) r s n ≡ some (r, s, ok n)
  unfolding poll_from
  poll_none fuel r s n e = rw (e, poll_from)

  poll_ok :
      (fuel : ℕ) (r : Ring (Entry A)) (s s' : S) (n : ℕ)
      → updates_available r ≡ true
      → dispatch types handler (r.storage r.head) s ≡ (ok tt, s')
      → poll_from types handler (suc fuel) r s n
        ≡ poll_from types handler fuel (record r { head = next_index r r.head }) s' (u32 (n + 1))
  unfolding poll_from consume_available
  poll_ok fuel r s s' n e d =
      rw (e, d, poll_from)
        (ap
          (λ z.
            poll_from types handler fuel (record r { head = next_index r r.head }) z.1
              (u32 (n + 1)))
          d)

  poll_err :
      (fuel : ℕ) (r : Ring (Entry A)) (s s' : S) (n : ℕ) (x : Error)
      → updates_available r ≡ true
      → dispatch types handler (r.storage r.head) s ≡ (err x, s')
      → poll_from types handler (suc fuel) r s n
        ≡ some (record r { head = next_index r r.head }, s', err x)
  unfolding poll_from consume_available
  poll_err fuel r s s' n x e d =
      rw (e, d, poll_from) (ap (λ z. some (record r { head = next_index r r.head }, z.1, err x)) d)

  deliver_ok :
      (x : Entry A) (q : List (Entry A)) (s s' : S) (n : ℕ)
      → dispatch types handler x s ≡ (ok tt, s')
      → deliver (x ∷ q) (dispatch types handler) s n
        ≡ deliver q (dispatch types handler) s' (u32 (n + 1))
  unfolding deliver
  deliver_ok x q s s' n d =
      rw (d, deliver) (ap (λ z. deliver q (dispatch types handler) z.1 (u32 (n + 1))) d)

  deliver_err :
      (x : Entry A) (q : List (Entry A)) (s s' : S) (n : ℕ) (e : Error)
      → dispatch types handler x s ≡ (err e, s')
      → deliver (x ∷ q) (dispatch types handler) s n ≡ (q, s', err e)
  unfolding deliver
  deliver_err x q s s' n e d = rw (d, deliver) (ap (λ z. (q, z.1, err e)) d)

  deliver_nil : (s : S) (n : ℕ) → deliver [] (dispatch types handler) s n ≡ ([], s, ok n)
  unfolding deliver
  deliver_nil s n = refl

  -- What a poll does to the ring, against what the specification makes of its contents.
  abbrev pub Delivers :
      Option (Ring (Entry A) × S × Result Error ℕ) → List (Entry A) × S × Result Error ℕ → Type 0
  Delivers polled d =
      (r' : Ring (Entry A)) × (polled ≡ some (r', d.1, d.2)) × (contents r' ≡ d.0) × IsValid r'

  poll_from-Delivers :
      (fuel : ℕ) (r : Ring (Entry A)) (s : S) (n : ℕ)
      → IsValid r
      → length (contents r) < fuel
      → Delivers
          (poll_from types handler fuel r s n)
          (deliver (contents r) (dispatch types handler) s n)
  poll_from-Delivers zero r s n v h = absurd (omega arith)
  poll_from-Delivers (suc fuel) r s n v h = elim (available_cases r v) [
    | inl none' ↦ rw (none'.1, deliver_nil s n) (r, poll_none fuel r s n none'.0, none'.1, v)
    | inr some' ↦ elim (Result-cases (dispatch types handler (r.storage r.head) s).0) [
      | inl done ↦
          let s' = (dispatch types handler (r.storage r.head) s).1 in
          let d : dispatch types handler (r.storage r.head) s ≡ (ok tt, s') =
            ap (λ res. (res, s')) done.1 in
          let rest =
            poll_from-Delivers fuel (record r { head = next_index r r.head }) s' (u32 (n + 1))
              (moved r v) (omega (arith, ap length some'.1)) in
          subst (Delivers (poll_from types handler (suc fuel) r s n))
            (sym
              (ap (λ q. deliver q (dispatch types handler) s n) some'.1 ∙ deliver_ok _ _ s s' n d))
            (rest.0, poll_ok fuel r s s' n some'.0 d ∙ rest.1, rest.2, rest.3)
      | inr failed ↦
          let s' = (dispatch types handler (r.storage r.head) s).1 in
          let d : dispatch types handler (r.storage r.head) s ≡ (err failed.0, s') =
            ap (λ res. (res, s')) failed.1 in
          subst (Delivers (poll_from types handler (suc fuel) r s n))
            (sym (
              ap (λ q. deliver q (dispatch types handler) s n) some'.1
              ∙ deliver_err _ _ s s' n failed.0 d))
            (
              record r { head = next_index r r.head },
              poll_err fuel r s s' n failed.0 some'.0 d,
              refl,
              moved r v,
            )
    ]
  ]

  -- With fuel for every slot of a valid ring, in a mapped segment, a poll ends. It hands over what the ring holds, oldest first, and leaves
  -- the ring empty; if a handler fails, it stops behind that entry and reports the handler's error.
  pub poll-Delivers :
      (r : Ring (Entry A)) (s : S)
      → IsValid r
      → Delivers
          (poll_and_dispatch types handler true r.queue_size r s)
          (deliver (contents r) (dispatch types handler) s 0)
  unfolding poll_and_dispatch
  poll-Delivers r s v = poll_from-Delivers r.queue_size r s 0 v (contents-lt r v)

construct_refused :
    {A : Type 0} (l l' : Layout A) (consumer_id : List ℕ) (hash i : ℕ)
    → alloc_queue_channel 0 l consumer_id ≡ (l', ok i)
    → (is_spmc l'.queue_type ≡ false) ⊎ (l'.message_types_hash ≢ hash)
    → (e : Error) × (construct_consumer 0 l consumer_id hash ≡ (l', err e))
unfolding construct_consumer
construct_refused l l' consumer_id hash i e (inl q) = (type_mismatch, ground arith)
construct_refused l l' consumer_id hash i e (inr ne) = elim (Bool-cases (is_spmc l'.queue_type)) [
  | inl q ↦ (message_type_mismatch, ground arith)
  | inr q ↦ (type_mismatch, ground arith)
]

-- A consumer that is refused for its queue type or its message types keeps the channel that it was
-- given: the constructor fails, and one more channel is active, which nobody reads.
pub refused_consumer_keeps_channel :
    {A : Type 0} (l l' : Layout A) (consumer_id : List ℕ) (hash i : ℕ)
    → l.active_channels + 1 < 2 ^ 32
    → alloc_queue_channel 0 l consumer_id ≡ (l', ok i)
    → (is_spmc l'.queue_type ≡ false) ⊎ (l'.message_types_hash ≢ hash)
    → (e : Error) × (construct_consumer 0 l consumer_id hash ≡ (l', err e))
      × (l'.active_channels ≡ l.active_channels + 1)
refused_consumer_keeps_channel l l' consumer_id hash i h e w =
    let refused = construct_refused l l' consumer_id hash i e w in
    (
      refused.0,
      refused.1,
      elim (alloc_cases 0 l consumer_id h) [
        | inl failed ↦ cc (e, failed.1)
        | inr granted ↦ ap (λ r. r.0.active_channels) (sym e ∙ granted.2)
      ],
    )
