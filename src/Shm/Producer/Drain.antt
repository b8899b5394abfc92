-- ===== src/Shm/Producer/Drain.antt =====
-- One run of the drain action keeps the stream of its channel.
use medici.Prelude.{
  ℕ, ◌≡◌, refl, ap, ◌∙◌, inl, inr, true, false, List, [], ◌∷◌, ◌++◌, map, append_assoc, length,
}
use medici.Shm.Ring.{Ring, enqueue}
use medici.Shm.Ring.Bounds.{IsValid}
use medici.Shm.Ring.Refine.{contents, capacity, enqueue_cases}
use medici.Shm.Channels.{Entry}
use medici.Shm.Producer.{Message, entry_of, drain}

module _ {A : Type 0} (types : List ℕ) where
  drain_nil : (r : Ring (Entry A)) → drain types r [] ≡ (r, [], true)
  unfolding drain
  drain_nil r = refl

  drain_full :
      (r : Ring (Entry A)) (message : Message A) (q : List (Message A))
      → enqueue r (entry_of types message) ≡ (r, false)
      → drain types r (message ∷ q) ≡ (r, message ∷ q, false)
  unfolding drain
  drain_full r message q e = rw (e, drain)

  drain_next :
      (r r' : Ring (Entry A)) (message : Message A) (q : List (Message A))
      → enqueue r (entry_of types message) ≡ (r', true)
      → drain types r (message ∷ q) ≡ drain types r' q
  unfolding drain
  drain_next r r' message q e = rw (e, drain) (ap (λ z. drain types z.0 q) e)

  -- On a valid ring the drain action keeps what the channel has in flight and its order. It answers
  -- `true` only when nothing waits any more, and `false` only when the ring is full.
  pub drain_lem :
      (r : Ring (Entry A)) (q : List (Message A))
      → IsValid r
      → let (r', rest, done) = drain types r q in
        (contents r' ++ map (entry_of types) rest ≡ contents r ++ map (entry_of types) q)
        × IsValid r'
        × (done ≡ true → rest ≡ [])
        × (done ≡ false → length (contents r') ≡ capacity r')
  drain_lem r [] v = rw (drain_nil r) (refl, v, λ _. refl, λ e. cc)
  drain_lem r (message ∷ q) v = elim (enqueue_cases r (entry_of types message) v) [
    | inl full ↦ rw (drain_full r message q full.0) (refl, v, λ e. cc, λ _. full.1)
    | inr room ↦
        let rest = drain_lem room.0 q room.3 in
        rw (drain_next r room.0 message q room.1) (
          rest.0 ∙ ap (λ k. k ++ map (entry_of types) q) room.2 ∙ append_assoc (contents r) _ _,
          rest.1,
          rest.2,
          rest.3,
        )
  ]
