-- ===== src/EventQueue/Threads/Lookup.antt =====
-- `getThreadProducerQueueEntry` finds the entry of a thread, and the cached index is no more than a
-- shortcut.
use native.Mathlib.Decide.{ℕ_discrete}
use medici.Prelude.{
  ℕ, zero, suc, ◌+◌, ◌^◌, ◌≤◌, ◌<◌, ◌≡◌, ◌≢◌, refl, ap, sym, ◌∙◌, inl, inr, true, List, [], ◌∷◌,
  Option, none, some, ok, arith, length, get_elem?, Bool-cases, Option-cases,
}
use medici.EventQueue.{Producer, Queue}
use medici.EventQueue.Threads.{
  find_thread, cache_hit, search_thread, get_thread_producer_queue_entry,
}

-- The entries in use come first, and each belongs to another thread. The rest have the default thread id.
pub record Registered {A B : Type 0} (q : Queue A B) : Type 0 where
  pub within : q.active_producers ≤ length q.external_producer_queue
  pub small : length q.external_producer_queue < 2 ^ 32
  pub distinct :
      (m n : ℕ) (p p' : Producer A B)
      → m < n
      → n < q.active_producers
      → get_elem? q.external_producer_queue m ≡ some p
      → get_elem? q.external_producer_queue n ≡ some p'
      → p.thread_id ≢ p'.thread_id
  pub spare :
      (n : ℕ) (p : Producer A B)
      → q.active_producers ≤ n
      → get_elem? q.external_producer_queue n ≡ some p
      → p.thread_id ≡ 0

module _ {A B : Type 0} (tid : ℕ) where
  -- The search finds the first entry of the thread.
  find_first :
      (ps : List (Producer A B)) (k n : ℕ) (p : Producer A B)
      → get_elem? ps n ≡ some p
      → p.thread_id ≡ tid
      → ((m : ℕ) (p' : Producer A B) → m < n → get_elem? ps m ≡ some p' → p'.thread_id ≢ tid)
      → find_thread tid ps k ≡ some (k + n)
  unfolding find_thread
  find_first [] k n p e t before = cc
  find_first (x ∷ ps) k zero p e t before = ground arith
  find_first (x ∷ ps) k (suc n) p e t before = ground (
    arith,
    before 0 x,
    find_first ps (k + 1) n p e t (λ m p' lt. before (suc m) p' (omega arith)),
  )

  -- A search that fails has looked at every entry.
  pub find_none :
      (ps : List (Producer A B)) (k n : ℕ) (p : Producer A B)
      → find_thread tid ps k ≡ none
      → get_elem? ps n ≡ some p
      → p.thread_id ≢ tid
  unfolding find_thread
  find_none [] k n p f e = cc
  find_none (x ∷ ps) k zero p f e = ground arith
  find_none (x ∷ ps) k (suc n) p f e = ground (arith, find_none ps (k + 1) n p)

  -- The search finds an entry of the thread.
  pub find_some :
      (ps : List (Producer A B)) (k i : ℕ)
      → find_thread tid ps k ≡ some i
      → (n : ℕ) × (i ≡ k + n) × (p : Producer A B) × (get_elem? ps n ≡ some p) × (p.thread_id ≡ tid)
  unfolding find_thread
  find_some [] k i f = cc
  find_some (x ∷ ps) k i f = elim (ℕ_discrete x.thread_id tid) [
    | yes here ↦ (0, ground (arith, here), x, refl, here)
    | no other ↦
        let (n, e, p, at, own) = find_some ps (k + 1) i (ground (arith, other)) in
        (suc n, omega (arith, e), p, at, own)
  ]

hit_entry :
    {A B : Type 0} (q : Queue A B) (tid i : ℕ)
    → cache_hit q tid i ≡ true
    → (p : Producer A B) × (get_elem? q.external_producer_queue i ≡ some p)
      × (p.thread_id ≡ tid)
      × (i < q.active_producers)
unfolding cache_hit
hit_entry q tid i h = elim (Option-cases (get_elem? q.external_producer_queue i)) [
  | inl e ↦ absurd (ground (arith, e))
  | inr (p, e) ↦ (p, e, ground (arith, e), ground (arith, e))
]

search_hit :
    {A B : Type 0} (q : Queue A B) (tid i : ℕ)
    → Registered q
    → cache_hit q tid i ≡ true
    → search_thread q tid ≡ (q, ok i, some i)
unfolding search_thread
search_hit q tid i v h =
    let (p, e, t, lt) = hit_entry q tid i h in
    let found : find_thread tid q.external_producer_queue 0 ≡ some i =
      find_first tid q.external_producer_queue 0 i p e t
        (λ m p' hm em same. v.distinct m i p' p hm lt em e (same ∙ sym t))
      ∙ ap some (omega arith) in
    rw (found, search_thread)

-- Where the entries of the threads are distinct, a thread gets the same entry with or without a cached
-- index: the cache is a shortcut.
pub cached_lookup :
    {A B : Type 0} (q : Queue A B) (cached : Option ℕ) (tid : ℕ)
    → Registered q
    → get_thread_producer_queue_entry q cached tid ≡ get_thread_producer_queue_entry q none tid
unfolding get_thread_producer_queue_entry
cached_lookup q none tid v = refl
cached_lookup q (some i) tid v = elim (Bool-cases (cache_hit q tid i)) [
  | inr miss ↦ rw miss
  | inl hit ↦ rw hit (sym (search_hit q tid i v hit))
]
