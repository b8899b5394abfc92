-- ===== src/Shm/Ring/Modulo.antt =====
-- Arithmetic of indices on a circle of `n` slots.
use native.Mathlib.Nat.{mod-add-mod, mod-eq_of_lt, mod-eq-sub-mod}
use native.Mathlib.Decide.{dec_lt, ℕ_discrete}
use medici.Prelude.{ℕ, ◌+◌, ◌-◌, ◌%◌, ◌≤◌, ◌<◌, suc, ap, ◌∙◌, ◌≡◌, ◌≢◌, ◌⊎◌, ◌↔◌, inl, inr, arith}

-- The slot `d` steps after `a`: either the circle's end is not passed, or it is passed once.
pub add-mod_cases :
    {n : ℕ} (a d : ℕ)
    → a < n
    → d ≤ n
    → ((a + d) % n ≡ a + d) × (a + d < n) ⊎ ((a + d) % n + n ≡ a + d) × (n ≤ a + d)
add-mod_cases {n} a d ha hd = elim (dec_lt (a + d) n) [
  | yes p ↦ inl (mod-eq_of_lt p, p)
  | no p ↦ inr (
    omega (
      arith,
      mod-eq-sub-mod {n = a + d} {m = n} (omega arith),
      mod-eq_of_lt {n = a + d - n} {m = n} (omega arith),
    ),
    omega arith,
  )
]

-- The distance from slot `h` forward to slot `t`.
pub distance : ℕ → ℕ → ℕ → ℕ
distance n h t = (t + (n - h)) % n

pub distance_cases :
    {n : ℕ} (h t : ℕ)
    → h < n
    → t < n
    → (distance n h t + h ≡ t) × (h ≤ t) ⊎ (distance n h t + h ≡ t + n) × (t < h)
unfolding distance
distance_cases {n} h t hh ht = elim (add-mod_cases {n = n} t (n - h) ht (omega arith)) [
  | inl p ↦ inr (omega arith)
  | inr p ↦ inl (omega arith)
]

pub distance-lt : {n : ℕ} (h t : ℕ) → h < n → t < n → distance n h t < n
distance-lt {n} h t hh ht = omega (arith, distance_cases {n = n} h t hh ht)

pub distance_self : {n : ℕ} (h t : ℕ) → h < n → t < n → (distance n h t ≡ 0) ↔ (h ≡ t)
distance_self {n} h t hh ht = (
  λ e. omega (arith, distance_cases {n = n} h t hh ht),
  λ e. omega (arith, distance_cases {n = n} h t hh ht),
)

pub add-distance : {n : ℕ} (h t : ℕ) → h < n → t < n → (h + distance n h t) % n ≡ t
add-distance {n} h t hh ht = omega (
  arith,
  distance_cases {n = n} h t hh ht,
  distance-lt {n = n} h t hh ht,
  add-mod_cases {n = n} h (distance n h t) hh (omega (arith, distance-lt {n = n} h t hh ht)),
)

-- Moving the far end forward by one lengthens the distance, unless the circle is full.
pub distance-next :
    {n : ℕ} (h t : ℕ)
    → h < n
    → t < n
    → (((t + 1) % n ≡ h) × (distance n h t + 1 ≡ n))
      ⊎ (((t + 1) % n ≢ h)
          × (distance n h ((t + 1) % n) ≡ distance n h t + 1)
          × (distance n h t + 1 < n))
distance-next {n} h t hh ht = elim (ℕ_discrete ((t + 1) % n) h) [
  | yes e ↦ inl (e, omega (arith, here, step))
  | no ne ↦ inr (ne, omega (arith, here, step, there), omega (arith, here, step, there))
]
  where
    here : (distance n h t + h ≡ t) × (h ≤ t) ⊎ (distance n h t + h ≡ t + n) × (t < h)
    here = distance_cases {n = n} h t hh ht

    step : ((t + 1) % n ≡ t + 1) × (t + 1 < n) ⊎ ((t + 1) % n + n ≡ t + 1) × (n ≤ t + 1)
    step = add-mod_cases {n = n} t 1 ht (omega arith)

    there :
        (distance n h ((t + 1) % n) + h ≡ (t + 1) % n) × (h ≤ (t + 1) % n)
        ⊎ (distance n h ((t + 1) % n) + h ≡ (t + 1) % n + n) × ((t + 1) % n < h)
    there = distance_cases {n = n} h ((t + 1) % n) hh (omega (arith, step))

-- Moving the near end forward by one shortens it, unless the circle is empty.
pub next-distance :
    {n : ℕ} (h t : ℕ) → h < n → t < n → h ≢ t → distance n h t ≡ distance n ((h + 1) % n) t + 1
next-distance {n} h t hh ht ne = omega (arith, here, step, there, next_lt)
  where
    here : (distance n h t + h ≡ t) × (h ≤ t) ⊎ (distance n h t + h ≡ t + n) × (t < h)
    here = distance_cases {n = n} h t hh ht

    step : ((h + 1) % n ≡ h + 1) × (h + 1 < n) ⊎ ((h + 1) % n + n ≡ h + 1) × (n ≤ h + 1)
    step = add-mod_cases {n = n} h 1 hh (omega arith)

    next_lt : (h + 1) % n < n
    next_lt = omega (arith, step)

    there :
        (distance n ((h + 1) % n) t + (h + 1) % n ≡ t) × ((h + 1) % n ≤ t)
        ⊎ (distance n ((h + 1) % n) t + (h + 1) % n ≡ t + n) × (t < (h + 1) % n)
    there = distance_cases {n = n} ((h + 1) % n) t next_lt ht

-- Steps forward add up.
pub next-add-mod : (n h k : ℕ) → ((h + 1) % n + k) % n ≡ (h + suc k) % n
next-add-mod n h k = mod-add-mod (h + 1) n k ∙ ap (λ i. i % n) (omega arith)

-- A slot ahead of `h` by less than a round is another slot.
pub add-mod-ne : {n : ℕ} (h d : ℕ) → h < n → suc d < n → (h + suc d) % n ≢ h
add-mod-ne {n} h d hh hd e = omega (arith, add-mod_cases {n = n} h (suc d) hh (omega arith))
