-- ===== src/Prelude/Bits.antt =====
-- Operations on the bits of a byte as arithmetic, by tables that evaluation checks.
use Prim.Native.Nat.{ℕ, zero, suc, ◌+◌, ◌*◌, ◌/◌, ◌%◌, ◌<◌, bit_and, bit_or, bit_xor}
use mathlib.Core.Path.{◌≡◌, refl}
use mathlib.Core.Bool.{Bool, true, false}
use mathlib.Core.Logic.{ite}
use native.Mathlib.Decide.{ℕ_discrete}
use native.Mathlib.Omega.{arith}
use medici.Prelude.Tests.{if◌then◌else◌}

module _ (f g : ℕ → ℕ) where
  agree_below : ℕ → Bool
  unfolding ℕ_discrete
  agree_below zero = true
  agree_below (suc n) = ite (ℕ_discrete (f n) (g n)) (agree_below n) false

  agree_below→eq : (n : ℕ) → agree_below n ≡ true → (i : ℕ) → i < n → f i ≡ g i
  unfolding agree_below
  agree_below→eq zero e i h = absurd (omega arith)
  agree_below→eq (suc n) e i h = ground (arith, agree_below→eq n (ground arith) i)

-- The top bit of a byte, the bits below it, and a byte with the top bit set.
pub low_bits : (b : ℕ) → b < 256 → bit_and b 0x7f ≡ b % 128
unfolding agree_below
low_bits = agree_below→eq _ _ 256 refl

pub top_bit : (b : ℕ) → b < 256 → bit_and b 0x80 ≡ b / 128 * 128
unfolding agree_below
top_bit = agree_below→eq _ _ 256 refl

pub set_top_bit : (b : ℕ) → b < 128 → bit_or 0x80 b ≡ b + 128
unfolding agree_below
set_top_bit = agree_below→eq _ _ 128 refl

pub whole_byte : (b : ℕ) → b < 65536 → bit_and b 0xff ≡ b % 256
unfolding agree_below
whole_byte = agree_below→eq _ _ 65536 refl

twice_by : ℕ → ℕ → ℕ
unfolding agree_below
twice_by k n = if agree_below (λ a. bit_xor (bit_xor a k) k) (λ a. a) n then 1 else 0

twice_table : (k : ℕ) → k < 256 → twice_by k 256 ≡ 1
unfolding twice_by agree_below
twice_table = agree_below→eq _ _ 256 refl

-- A byte that is masked twice is what it was.
pub bit_xor_twice : (a k : ℕ) → a < 256 → k < 256 → bit_xor (bit_xor a k) k ≡ a
unfolding twice_by
bit_xor_twice a k ha hk =
    agree_below→eq (λ a. bit_xor (bit_xor a k) k) (λ a. a) 256 (ground (arith, twice_table k hk)) a
      ha
