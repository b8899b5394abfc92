-- ===== src/Prelude/Results.antt =====
-- `std::expected<T, E>`: a value or an error. Each component has its own type of errors, one
-- constructor for each message; what `std::format` puts into the message is left out.
use mathlib.Core.Path.{◌≡◌, refl}
use mathlib.Core.Logic.{◌⊎◌, inl, inr}

pub data Result (E A : Type 0) : Type 0 where
  ok : A → Result E A
  err : E → Result E A

-- `std::expected<void, E>`.
abbrev pub Expected : Type 0 → Type 0
Expected E = Result E (Unit {0})

infixl 5 ◌>>=◌ ◌>>◌
abbrev pub ◌>>=◌ : {E A B : Type 0} → Result E A → (A → Result E B) → Result E B
ok a >>= f = f a
err e >>= f = err e

abbrev pub ◌>>◌ : {E B : Type 0} → Expected E → Result E B → Result E B
m >> k = m >>= λ _. k

pub Result-cases :
    {E A : Type 0} (r : Result E A) → ((a : A) × (r ≡ ok a)) ⊎ ((e : E) × (r ≡ err e))
Result-cases (ok a) = inl (a, refl)
Result-cases (err e) = inr (e, refl)
