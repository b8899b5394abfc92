-- ===== src/Http/Names.antt =====
-- Equality and order of texts: `==` and `<` on `std::string`.
use medici.Prelude.{
  ℕ, ◌≡◌, ◌≢◌, refl, ap, sym, ◌∙◌, inl, inr, true, false, List, [], ◌∷◌, arith, Bool-cases,
}
use medici.Http.{same_text}
use medici.Http.Url.{before}

pub same_text_path : (s t : List ℕ) → same_text s t ≡ true → s ≡ t
unfolding same_text
same_text_path [] [] e = refl
same_text_path [] (d ∷ t) e = cc
same_text_path (c ∷ s) [] e = cc
same_text_path (c ∷ s) (d ∷ t) e = ground (arith, e, same_text_path s t)

pub same_text_refl : (s : List ℕ) → same_text s s ≡ true
unfolding same_text
same_text_refl [] = refl
same_text_refl (c ∷ s) = ground (arith, same_text_refl s)

pub before_irrefl : (s : List ℕ) → before s s ≡ false
unfolding before
before_irrefl [] = refl
before_irrefl (c ∷ s) = ground (arith, before_irrefl s)

pub before_antisym : (s t : List ℕ) → before s t ≡ false → before t s ≡ false → s ≡ t
unfolding before
before_antisym [] [] h k = refl
before_antisym [] (d ∷ t) h k = cc
before_antisym (c ∷ s) [] h k = cc
before_antisym (c ∷ s) (d ∷ t) h k = ground (arith, h, k, before_antisym s t)

pub before_asym : (s t : List ℕ) → before s t ≡ true → before t s ≡ false
unfolding before
before_asym [] [] h = cc
before_asym [] (d ∷ t) h = refl
before_asym (c ∷ s) [] h = cc
before_asym (c ∷ s) (d ∷ t) h = ground (arith, h, before_asym s t)

pub before_trans : (s t u : List ℕ) → before s t ≡ true → before u t ≡ false → before u s ≡ false
unfolding before
before_trans [] [] u h k = cc
before_trans [] (d ∷ t) [] h k = refl
before_trans [] (d ∷ t) (x ∷ u) h k = refl
before_trans (c ∷ s) [] u h k = cc
before_trans (c ∷ s) (d ∷ t) [] h k = cc
before_trans (c ∷ s) (d ∷ t) (x ∷ u) h k = ground (arith, h, k, before_trans s t u)

-- A text is not the same as one that it is before.
pub before_differ :
    (s t : List ℕ) → before s t ≡ true → (same_text s t ≡ false) × (same_text t s ≡ false)
before_differ s t h =
    (apart s t (λ e. clash (ap (before s) (sym e))), apart t s (λ e. clash (ap (before s) e)))
  where
    clash : before s t ≢ before s s
    clash e = let wrong : true ≡ false = sym h ∙ e ∙ before_irrefl s in cc

    apart : (a b : List ℕ) → a ≢ b → same_text a b ≡ false
    apart a b ne = elim (Bool-cases (same_text a b)) [
      | inl same ↦ absurd (ne (same_text_path a b same))
      | inr other ↦ other
    ]

pub before_empty : (s : List ℕ) → before s [] ≡ false
unfolding before
before_empty [] = refl
before_empty (c ∷ s) = refl
