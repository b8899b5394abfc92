-- ===== src/HttpEndpoint/Numbers.antt =====
-- sockets/live/HTTPLiveEndpoint.hpp: the sizes of contents, written and read.
use medici.Prelude.{
  ℕ, zero, suc, ◌+◌, ◌*◌, ◌/◌, ◌%◌, ◌^◌, ◌<◌, ◌≡◌, refl, ap, ◌∙◌, arith, Bool, true, false, ltb,
  if◌then◌else◌, List, [], ◌∷◌, Option, none, some,
}
use medici.HttpEndpoint.{digit, digits_from, from_chars}
use medici.HttpEndpoint.Send.{digits, to_string}

digit_lem : (v : ℕ) → v < 10 → digit 10 (b'0' + v) ≡ some v
digit_lem v small = ground arith

digits_from-digit :
    (n : Option ℕ) (v : ℕ) (more : List ℕ)
    → v < 10
    → digits_from 10 n ((b'0' + v) ∷ more)
      ≡ digits_from 10 (some (elim n [ none ↦ v | some m ↦ m * 10 + v ])) more
unfolding digits_from
digits_from-digit n v more small =
    ap
      (λ d. elim d as (λ x. Option ℕ) [
        | none ↦ n
        | some w ↦
            digits_from 10 (some (elim n as (λ x. ℕ) [ none ↦ w | some m ↦ m * 10 + w ])) more
      ])
      (digit_lem v small)

digits_from-digits :
    (fuel n : ℕ) (more : List ℕ)
    → n < fuel
    → digits_from 10 none (digits fuel n more) ≡ digits_from 10 (some n) more
unfolding digits
digits_from-digits zero n more enough = absurd (omega (arith, enough))
digits_from-digits (suc fuel) n more enough =
    elim (ltb n 10)
        as (λ b.
          ltb n 10 ≡ b
          → digits_from 10 none
              (if b then (b'0' + n) ∷ more else digits fuel (n / 10) ((b'0' + n % 10) ∷ more))
            ≡ digits_from 10 (some n) more) [
              | true ↦ λ e. digits_from-digit none n more (ground (arith, e))
              | false ↦ λ e.
                  digits_from-digits fuel (n / 10) ((b'0' + n % 10) ∷ more)
                    (ground (arith, e, enough))
                  ∙ digits_from-digit (some (n / 10)) (n % 10) more (omega arith)
                  ∙ ap (λ (k : ℕ). digits_from 10 (some k) more) (omega arith)
            ]
      refl

-- A size that is written is read again.
pub from_chars-to_string : (n old : ℕ) → n < 2 ^ 64 → from_chars 10 old (to_string n) ≡ n
unfolding from_chars to_string digits_from
from_chars-to_string n old small =
    let test : ltb n (2 ^ 64) ≡ true = ground (arith, small) in
    ap (λ d. elim d as (λ x. ℕ) [ none ↦ old | some m ↦ if ltb m (2 ^ 64) then m else old ])
      (digits_from-digits (n + 1) n [] (omega arith))
    ∙ ap (λ (b : Bool). if b then n else old) test
