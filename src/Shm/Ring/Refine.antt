-- ===== src/Shm/Ring/Refine.antt =====
-- A valid ring behaves as a bounded queue of the entries between its head and its tail.
use medici.Prelude.{
  store, ◌⊎◌, ℕ, zero, suc, ◌+◌, ◌-◌, ◌%◌, ◌≤◌, ◌<◌, ◌≡◌, ◌≢◌, refl, ap, ap₂, sym, ◌∙◌, inl, inr,
  Bool, true, false, ◌==◌, if◌then◌else◌, List, [], ◌∷◌, ◌++◌, Result, ok, arith, length,
}
use native.Mathlib.Decide.{ℕ_discrete}
use native.Mathlib.Numerals.{add-one}
use medici.Shm.Ring.{Ring, Handler, enqueue, consume, next_index, consumed}
use medici.Shm.Ring.Modulo.{
  distance, distance-lt, distance_self, distance-next, next-distance, add-distance, add-mod_cases,
  next-add-mod, add-mod-ne,
}
use medici.Shm.Ring.Bounds.{IsValid, next_index-lt}

-- The specification: a queue of at most `capacity` entries, oldest first.
pub push : {A : Type 0} → ℕ → List A → A → List A × Bool
push capacity q x = if length q == capacity then (q, false) else (q ++ x ∷ [], true)

pub pop : {A E S : Type 0} → List A → Handler E S A → S → List A × Result E Bool × S
pop [] f s = ([], ok false, s)
pop (x ∷ q) f s = let (result, s') = f x s in (q, consumed result, s')

-- The `k` entries from index `h` on, in a storage of `n` slots.
abbrev pub items : {A : Type 0} → (ℕ → A) → ℕ → ℕ → ℕ → List A
items mem n h zero = []
items mem n h (suc k) = mem h ∷ items mem n ((h + 1) % n) k

pub length-items : {A : Type 0} (mem : ℕ → A) (n h k : ℕ) → length (items mem n h k) ≡ k
length-items mem n h zero = refl
length-items mem n h (suc k) = ap suc (length-items mem n ((h + 1) % n) k)

next_lt : {n : ℕ} (h : ℕ) → h < n → (h + 1) % n < n
next_lt {n} h hh = omega (arith, add-mod_cases {n = n} h 1 hh (omega arith))

items-snoc :
    {A : Type 0} (mem : ℕ → A) (n h k : ℕ)
    → h < n
    → k < n
    → items mem n h (suc k) ≡ items mem n h k ++ mem ((h + k) % n) ∷ []
items-snoc mem n h zero hh hk =
    ap (λ i. mem i ∷ []) (omega (arith, add-mod_cases {n = n} h 0 hh (omega arith)))
items-snoc mem n h (suc k) hh hk = ap (◌∷◌ (mem h)) (
    items-snoc mem n ((h + 1) % n) k (next_lt h hh) (omega arith)
    ∙ ap (λ i. items mem n ((h + 1) % n) k ++ mem i ∷ []) (next-add-mod n h k))

-- A store ahead of the entries leaves them alone.
items-store :
    {A : Type 0} (mem : ℕ → A) (x : A) (n h k d i : ℕ)
    → h < n
    → k ≤ d
    → d < n
    → i ≡ (h + d) % n
    → items (store mem i x) n h k ≡ items mem n h k
items-store mem x n h zero d i hh hk hd e = refl
items-store mem x n h (suc k) zero i hh hk hd e = absurd (omega arith)
items-store mem x n h (suc k) (suc d) i hh hk hd e =
    ap₂ ◌∷◌ (ground (arith, add-mod-ne {n = n} h d hh hd)) (
      items-store mem x n ((h + 1) % n) k d i (next_lt h hh) (omega arith) (omega arith)
        (e ∙ sym (next-add-mod n h d)))

-- The store behind the last entry adds an entry.
pub items-store_snoc :
    {A : Type 0} (mem : ℕ → A) (x : A) (n h k i : ℕ)
    → h < n
    → k < n
    → i ≡ (h + k) % n
    → items (store mem i x) n h (suc k) ≡ items mem n h k ++ x ∷ []
items-store_snoc mem x n h k i hh hk e =
    items-snoc (store mem i x) n h k hh hk
    ∙ ap₂ (λ (q : List _) (y : _). q ++ y ∷ []) (items-store mem x n h k k i hh (omega arith) hk e)
        (ground (arith, e))

abbrev pub count : {A : Type 0} → Ring A → ℕ
count r = distance r.queue_size r.head r.tail

-- What the ring holds, oldest first.
abbrev pub contents : {A : Type 0} → Ring A → List A
contents r = items r.storage r.queue_size r.head (count r)

pub length-contents : {A : Type 0} (r : Ring A) → length (contents r) ≡ count r
length-contents r = length-items r.storage r.queue_size r.head (count r)

-- One slot stays free.
abbrev pub capacity : {A : Type 0} → Ring A → ℕ
capacity r = r.queue_size - 1

no_wrap :
    {A : Type 0} {r : Ring A} (i : ℕ)
    → IsValid r
    → i < r.queue_size
    → next_index r i ≡ (i + 1) % r.queue_size
no_wrap {r = r} i v h = ap (λ j. j % r.queue_size) (omega arith)

enqueue_full :
    {A : Type 0} (r : Ring A) (x : A) → next_index r r.tail ≡ r.head → enqueue r x ≡ (r, false)
unfolding enqueue
enqueue_full r x e = ground arith

pub enqueue_room :
    {A : Type 0} (r : Ring A) (x : A)
    → next_index r r.tail ≢ r.head
    → enqueue r x
      ≡ (record r { storage = store r.storage r.tail x; tail = next_index r r.tail }, true)
unfolding enqueue
enqueue_room r x ne = ground arith

push_full : {A : Type 0} (n : ℕ) (q : List A) (x : A) → length q ≡ n → push n q x ≡ (q, false)
unfolding push
push_full n q x e = ground arith

push_room :
    {A : Type 0} (n : ℕ) (q : List A) (x : A) → length q < n → push n q x ≡ (q ++ x ∷ [], true)
unfolding push
push_room n q x h = ground arith

contents_grow :
    {A : Type 0} (r : Ring A) (x : A)
    → IsValid r
    → distance r.queue_size r.head ((r.tail + 1) % r.queue_size) ≡ count r + 1
    → count r + 1 < r.queue_size
    → items
        (store r.storage r.tail x)
        r.queue_size
        r.head
        (distance r.queue_size r.head (next_index r r.tail))
      ≡ contents r ++ x ∷ []
contents_grow r x v longer fits =
    ap (items (store r.storage r.tail x) r.queue_size r.head)
      (ap (distance r.queue_size r.head) (no_wrap r.tail v v.tail_in) ∙ longer ∙ add-one (count r))
    ∙ items-store_snoc r.storage x r.queue_size r.head (count r) r.tail v.head_in (omega arith)
        (sym (add-distance r.head r.tail v.head_in v.tail_in))

-- On a valid ring `enqueue` answers as the bounded queue does, and leaves the ring holding that queue.
pub enqueue_refines :
    {A : Type 0} (r : Ring A) (x : A)
    → IsValid r
    → let (r', done) = enqueue r x in (contents r', done) ≡ push (capacity r) (contents r) x
enqueue_refines r x v = elim (distance-next r.head r.tail v.head_in v.tail_in) [
  | inl full ↦ rw (
    enqueue_full r x (no_wrap r.tail v v.tail_in ∙ full.0),
    push_full (capacity r) (contents r) x
        (omega (arith, full.1, length-items r.storage r.queue_size r.head (count r))),
  )
  | inr room ↦
      rw
        (
          enqueue_room r x (λ e. room.0 (sym (no_wrap r.tail v v.tail_in) ∙ e)),
          push_room (capacity r) (contents r) x
              (omega (arith, room.2, length-items r.storage r.queue_size r.head (count r))),
        )
        (ap (λ q. (q, true)) (contents_grow r x v room.1 room.2))
]

consume_empty :
    {A E S : Type 0} (r : Ring A) (f : Handler E S A) (s : S)
    → r.head ≡ r.tail
    → consume r f s ≡ (r, ok false, s)
unfolding consume
consume_empty r f s e = ground arith

pub consume_some :
    {A E S : Type 0} (r : Ring A) (f : Handler E S A) (s : S)
    → r.head ≢ r.tail
    → consume r f s ≡ (
      record r { head = next_index r r.head },
      consumed (f (r.storage r.head) s).0,
      (f (r.storage r.head) s).1,
    )
unfolding consume
consume_some r f s ne = ground arith

pub contents_empty : {A : Type 0} (r : Ring A) → IsValid r → r.head ≡ r.tail → contents r ≡ []
contents_empty r v e =
    ap (items r.storage r.queue_size r.head) ((distance_self r.head r.tail v.head_in v.tail_in).1 e)

pub contents_shrink :
    {A : Type 0} (r : Ring A)
    → IsValid r
    → r.head ≢ r.tail
    → contents r ≡ r.storage r.head ∷ contents (record r { head = next_index r r.head })
contents_shrink r v ne =
    ap (items r.storage r.queue_size r.head)
      (next-distance r.head r.tail v.head_in v.tail_in ne ∙ add-one _)
    ∙ ap (λ h. r.storage r.head ∷ items r.storage r.queue_size h (distance r.queue_size h r.tail))
        (sym (no_wrap r.head v v.head_in))

-- On a valid ring `consume` hands the oldest entry to the handler, if there is one, and removes it also
-- when the handler fails.
pub consume_refines :
    {A E S : Type 0} (r : Ring A) (f : Handler E S A) (s : S)
    → IsValid r
    → let (r', result, s') = consume r f s in (contents r', result, s') ≡ pop (contents r) f s
unfolding pop
consume_refines r f s v = elim (ℕ_discrete r.head r.tail) [
  | yes e ↦ rw (consume_empty r f s e, contents_empty r v e)
  | no ne ↦ rw (consume_some r f s ne, contents_shrink r v ne)
]

-- The steps of `enqueue` and `consume`, one store at a time.
module _ {A : Type 0} (r : Ring A) (v : IsValid r) where
  pub contents-store_entry :
      (x : A) → contents (record r { storage = store r.storage r.tail x }) ≡ contents r
  contents-store_entry x =
      items-store r.storage x r.queue_size r.head (count r) (count r) r.tail v.head_in (omega arith)
        (distance-lt r.head r.tail v.head_in v.tail_in)
        (sym (add-distance r.head r.tail v.head_in v.tail_in))

  pub store_tail_lem :
      count r + 1 < r.queue_size
      → let r' = record r { tail = next_index r r.tail } in
        (count r' ≡ count r + 1) × (contents r' ≡ contents r ++ r.storage r.tail ∷ [])
  store_tail_lem fits = (
    longer,
    ap (items r.storage r.queue_size r.head) (longer ∙ add-one (count r))
        ∙ items-snoc r.storage r.queue_size r.head (count r) v.head_in (omega arith)
        ∙ ap (λ i. contents r ++ r.storage i ∷ []) (add-distance r.head r.tail v.head_in v.tail_in),
  )
    where
      longer : distance r.queue_size r.head (next_index r r.tail) ≡ count r + 1
      longer = elim (distance-next r.head r.tail v.head_in v.tail_in) [
        | inl full ↦ absurd (omega (arith, full.1))
        | inr room ↦ ap (distance r.queue_size r.head) (no_wrap r.tail v v.tail_in) ∙ room.1
      ]

  pub store_head_lem :
      0 < count r
      → let r' = record r { head = next_index r r.head } in
        (count r ≡ count r' + 1) × (contents r ≡ r.storage r.head ∷ contents r')
  store_head_lem some = (
    next-distance r.head r.tail v.head_in v.tail_in ne
        ∙ ap (λ h. distance r.queue_size h r.tail + 1) (sym (no_wrap r.head v v.head_in)),
    contents_shrink r v ne,
  )
    where
      ne : r.head ≢ r.tail
      ne e = omega (arith, (distance_self r.head r.tail v.head_in v.tail_in).1 e)

  pub count-pos : r.head ≢ r.tail → 0 < count r
  count-pos ne =
      omega (arith, λ (z : count r ≡ 0). ne ((distance_self r.head r.tail v.head_in v.tail_in).0 z))

  pub count-room : next_index r r.tail ≢ r.head → count r + 1 < r.queue_size
  count-room ne = elim (distance-next r.head r.tail v.head_in v.tail_in) [
    | inl full ↦ absurd (ne (no_wrap r.tail v v.tail_in ∙ full.0))
    | inr room ↦ room.2
  ]

-- What a caller needs to know of `enqueue`.
pub enqueue_cases :
    {A : Type 0} (r : Ring A) (x : A)
    → IsValid r
    → ((enqueue r x ≡ (r, false)) × (length (contents r) ≡ capacity r))
      ⊎ ((r' : Ring A) × (enqueue r x ≡ (r', true))
          × (contents r' ≡ contents r ++ x ∷ [])
          × IsValid r'
          × (length (contents r) < capacity r))
enqueue_cases r x v = elim (distance-next r.head r.tail v.head_in v.tail_in) [
  | inl full ↦ inl (
    enqueue_full r x (no_wrap r.tail v v.tail_in ∙ full.0),
    omega (arith, full.1, length-items r.storage r.queue_size r.head (count r)),
  )
  | inr room ↦ inr (
    record r { storage = store r.storage r.tail x; tail = next_index r r.tail },
    enqueue_room r x (λ e. room.0 (sym (no_wrap r.tail v v.tail_in) ∙ e)),
    contents_grow r x v room.1 room.2,
    record { head_in = v.head_in; tail_in = next_index-lt r.tail v; small = v.small },
    omega (arith, room.2, length-items r.storage r.queue_size r.head (count r)),
  )
]
