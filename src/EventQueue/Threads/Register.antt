-- ===== src/EventQueue/Threads/Register.antt =====
-- Registration: a thread without a producer queue gets the next free one, and a lookup keeps the queues
-- of the threads apart.
use native.Mathlib.Decide.{ℕ_discrete, dec_lt}
use medici.Prelude.{
  ℕ, zero, suc, ◌+◌, ◌<◌, ◌≡◌, ◌≢◌, refl, subst, ap, sym, ◌∙◌, ◌⊎◌, inl, inr, List, [], ◌∷◌, Option,
  none, some, Result, ok, err, arith, length, get_elem?, set, length-set, get_elem?-set_self,
  get_elem?-set_ne, Option-cases,
}
use medici.EventQueue.{Producer, Queue, Error, no_producers}
use medici.EventQueue.Threads.{
  find_thread, name_thread, register_thread, search_thread, get_thread_producer_queue_entry,
  size_mod,
}
use medici.EventQueue.Threads.Lookup.{Registered, find_none, find_some, cached_lookup}

-- What `name_thread` does to the entry at `i`.
name_thread_lem :
    {A B : Type 0} (ps : List (Producer A B)) (i tid : ℕ) (p : Producer A B)
    → get_elem? ps i ≡ some p
    → name_thread ps i tid ≡ set ps i (record p { thread_id = tid })
name_thread_lem ps i tid p e = rw (e, name_thread)

get_elem?-lt :
    {X : Type 0} (xs : List X) (i : ℕ) → i < length xs → (x : X) × (get_elem? xs i ≡ some x)
get_elem?-lt [] i h = absurd (omega arith)
get_elem?-lt (x ∷ xs) zero h = (x, refl)
get_elem?-lt (x ∷ xs) (suc i) h = get_elem?-lt xs i (omega arith)

-- The queue with the next free entry in the hands of `tid`.
abbrev pub with_thread : {A B : Type 0} → Queue A B → ℕ → Queue A B
with_thread q tid = record q {
  active_producers = q.active_producers + 1;
  external_producer_queue = name_thread q.external_producer_queue q.active_producers tid;
}

register_full :
    {A B : Type 0} (q : Queue A B) (tid : ℕ)
    → length q.external_producer_queue ≡ q.active_producers
    → register_thread q tid ≡ (q, err no_producers)
unfolding register_thread
register_full q tid e = ground arith

register_room :
    {A B : Type 0} (q : Queue A B) (tid : ℕ)
    → q.active_producers < length q.external_producer_queue
    → q.active_producers + 1 < size_mod
    → register_thread q tid ≡ (with_thread q tid, ok q.active_producers)
unfolding register_thread
register_room q tid h k = ground arith

-- What is left of a search that fails, once the registration is known.
abbrev registered :
    {A B : Type 0} → Queue A B × Result Error ℕ → Queue A B × Result Error ℕ × Option ℕ
registered (q', ok i) = (q', ok i, some i)
registered (q', err e) = (q', err e, none)

search_new :
    {A B : Type 0} (q : Queue A B) (tid : ℕ) (r : Queue A B × Result Error ℕ)
    → find_thread tid q.external_producer_queue 0 ≡ none
    → register_thread q tid ≡ r
    → search_thread q tid ≡ registered r
unfolding search_thread
search_new {A} {B} q tid r f e =
    rw (f, search_thread)
      (ap
          (λ (z : Queue A B × Result Error ℕ).
            elim z.1 as (λ x. Queue A B × Result Error ℕ × Option ℕ) [
              | ok i ↦ (z.0, ok i, some i)
              | err x ↦ (z.0, err x, none)
            ])
          e
        ∙ registered_lem r)
  where
    registered_lem :
        (z : Queue A B × Result Error ℕ)
        → elim z.1 as (λ x. Queue A B × Result Error ℕ × Option ℕ) [
          | ok i ↦ (z.0, ok i, some i)
          | err x ↦ (z.0, err x, none)
        ]
          ≡ registered z
    registered_lem (q', ok i) = refl
    registered_lem (q', err x) = refl

-- The branches of the search: the thread's entry, a new one, or a refusal that changes nothing.
search_cases :
    {A B : Type 0} (q : Queue A B) (tid : ℕ)
    → Registered q
    → ((i : ℕ) × (find_thread tid q.external_producer_queue 0 ≡ some i)
        × (search_thread q tid ≡ (q, ok i, some i)))
      ⊎ ((find_thread tid q.external_producer_queue 0 ≡ none)
          × ((q.active_producers < length q.external_producer_queue)
                × (search_thread q tid
                    ≡ (with_thread q tid, ok q.active_producers, some q.active_producers))
              ⊎ (q.active_producers ≡ length q.external_producer_queue)
                × (search_thread q tid ≡ (q, err no_producers, none))))
unfolding search_thread
search_cases q tid v = elim (Option-cases (find_thread tid q.external_producer_queue 0)) [
  | inr (i, e) ↦ inl (i, e, rw (e, search_thread))
  | inl e ↦ inr (
    e,
    elim (ℕ_discrete (length q.external_producer_queue) q.active_producers) [
      | yes full ↦
          inr (sym full, search_new q tid (q, err no_producers) e (register_full q tid full))
      | no room ↦ inl (
        omega (arith, v.within),
        search_new q tid (with_thread q tid, ok q.active_producers) e
            (register_room q tid (omega (arith, v.within)) (omega (arith, v.within, v.small))),
      )
    ],
  )
]

abbrev id_or : {A B : Type 0} → ℕ → Option (Producer A B) → ℕ
id_or tid none = tid
id_or tid (some p) = p.thread_id

-- Two entries of which the later one may be the new one.
named_distinct :
    {A B : Type 0} (q : Queue A B) (tid : ℕ) (p : Producer A B) (m n : ℕ) (p1 p2 : Producer A B)
    → Registered q
    → q.active_producers < length q.external_producer_queue
    → find_thread tid q.external_producer_queue 0 ≡ none
    → m < n
    → n < q.active_producers + 1
    → get_elem? (set q.external_producer_queue q.active_producers (record p { thread_id = tid })) m
      ≡ some p1
    → get_elem? (set q.external_producer_queue q.active_producers (record p { thread_id = tid })) n
      ≡ some p2
    → p1.thread_id ≢ p2.thread_id
named_distinct q tid p m n p1 p2 v h unseen lt le e1 e2 =
    let old : get_elem? q.external_producer_queue m ≡ some p1 =
      sym (get_elem?-set_ne q.external_producer_queue _ (omega arith)) ∙ e1 in
    elim (dec_lt n q.active_producers) [
      | yes before ↦
          v.distinct m n p1 p2 lt before old
            (sym (get_elem?-set_ne q.external_producer_queue _ (omega arith)) ∙ e2)
      | no last ↦ λ same.
          let last_index : n ≡ q.active_producers = omega (arith, last, le) in
          find_none tid q.external_producer_queue 0 m p1 unseen old (
            same
            ∙ ap (id_or tid) (
                sym e2
                ∙ ap (get_elem? _) last_index
                ∙ get_elem?-set_self q.external_producer_queue q.active_producers _ h))
    ]

with_thread-Registered :
    {A B : Type 0} (q : Queue A B) (tid : ℕ)
    → Registered q
    → q.active_producers < length q.external_producer_queue
    → find_thread tid q.external_producer_queue 0 ≡ none
    → Registered (with_thread q tid)
with_thread-Registered {A} {B} q tid v h unseen =
    let (p, e) = get_elem?-lt q.external_producer_queue q.active_producers h in
    let named = name_thread_lem q.external_producer_queue q.active_producers tid p e in
    let same : length (name_thread q.external_producer_queue q.active_producers tid)
        ≡ length q.external_producer_queue =
      ap length named ∙ length-set q.external_producer_queue q.active_producers _ in
    record {
      within = omega (arith, same);
      small = omega (arith, same, v.small);
      distinct = λ m n p1 p2 lt le e1 e2.
          named_distinct q tid p m n p1 p2 v h unseen lt le
            (ap (λ z. get_elem? z m) (sym named) ∙ e1) (ap (λ z. get_elem? z n) (sym named) ∙ e2);
      spare = λ n p1 le e1. v.spare n p1 (omega (arith, le)) (
          sym (get_elem?-set_ne q.external_producer_queue _ (omega (arith, le)))
          ∙ ap (λ z. get_elem? z n) (sym named)
          ∙ e1);
    }

-- The entry at `i` is in use and is the thread's.
unfoldable pub Owns : {A B : Type 0} → Queue A B → ℕ → ℕ → Type 0
Owns {A} {B} q tid i =
    (p : Producer A B) × (get_elem? q.external_producer_queue i ≡ some p)
    × (p.thread_id ≡ tid)
    × (i < q.active_producers)

-- A lookup leaves the entries in order, and where it succeeds its index is that of the thread's entry.
unfoldable pub Looked : {A B : Type 0} → ℕ → Queue A B × Result Error ℕ × Option ℕ → Type 0
Looked tid (q, r, cached) = Registered q × ((i : ℕ) → r ≡ ok i → Owns q tid i)

Looked-ok :
    {A B : Type 0} (q : Queue A B) (tid i : ℕ)
    → Registered q
    → Owns q tid i
    → Looked tid (q, ok i, some i)
unfolding Looked
Looked-ok q tid i v own = (v, λ j e. let same : i ≡ j = cc in subst (Owns q tid) same own)

found-Owns :
    {A B : Type 0} (q : Queue A B) (tid i : ℕ)
    → Registered q
    → tid ≢ 0
    → find_thread tid q.external_producer_queue 0 ≡ some i
    → Owns q tid i
unfolding Owns
found-Owns q tid i v real f =
    let (n, e, p, at, own) = find_some tid q.external_producer_queue 0 i f in
    let same : i ≡ n = omega (arith, e) in
    let at_i : get_elem? q.external_producer_queue i ≡ some p =
      ap (get_elem? q.external_producer_queue) same ∙ at in
    elim (dec_lt i q.active_producers) [
      | yes lt ↦ (p, at_i, own, lt)
      | no past ↦ absurd (real (sym own ∙ v.spare i p (omega (arith, past)) at_i))
    ]

with_thread-Owns :
    {A B : Type 0} (q : Queue A B) (tid : ℕ)
    → q.active_producers < length q.external_producer_queue
    → Owns (with_thread q tid) tid q.active_producers
unfolding Owns
with_thread-Owns q tid h =
    let (p, e) = get_elem?-lt q.external_producer_queue q.active_producers h in
    (
      record p { thread_id = tid },
      ap (λ ps. get_elem? ps q.active_producers)
            (name_thread_lem q.external_producer_queue q.active_producers tid p e)
          ∙ get_elem?-set_self q.external_producer_queue q.active_producers _ h,
      refl,
      omega arith,
    )

search-Looked :
    {A B : Type 0} (q : Queue A B) (tid : ℕ)
    → Registered q
    → tid ≢ 0
    → Looked tid (search_thread q tid)
unfolding Looked
search-Looked q tid v real = elim (search_cases q tid v) [
  | inl (i, f, e) ↦ subst (Looked tid) (sym e) (Looked-ok q tid i v (found-Owns q tid i v real f))
  | inr (f, inl (h, e)) ↦ subst (Looked tid) (sym e) (
      Looked-ok (with_thread q tid) tid q.active_producers (with_thread-Registered q tid v h f)
        (with_thread-Owns q tid h))
  | inr (f, inr (h, e)) ↦ subst (Looked tid) (sym e) (v, λ j no. let wrong : ⊥ = cc in absurd wrong)
]

-- Looking up a producer queue, with or without a cached index, keeps the entries of the threads
-- distinct, and an index that it returns is in use and is that of the thread. The thread is not the
-- default thread id.
pub lookup-Looked :
    {A B : Type 0} (q : Queue A B) (cached : Option ℕ) (tid : ℕ)
    → Registered q
    → tid ≢ 0
    → Looked tid (get_thread_producer_queue_entry q cached tid)
unfolding get_thread_producer_queue_entry
lookup-Looked q cached tid v real =
    subst (Looked tid) (sym (cached_lookup q cached tid v)) (search-Looked q tid v real)
