-- ===== src/Prelude/Store.antt =====
-- A memory as a function from indices, and a store to it.
use Prim.Native.Nat.{ℕ}
use mathlib.Core.Path.{◌≡◌}
use mathlib.Core.Logic.{◌≢◌}
use native.Mathlib.Omega.{arith}
use medici.Prelude.Tests.{◌==◌, if◌then◌else◌}

abbrev pub store : {A : Type 0} → (ℕ → A) → ℕ → A → ℕ → A
store mem i v j = if i == j then v else mem j

pub store_self : {A : Type 0} (mem : ℕ → A) (v : A) (i j : ℕ) → i ≡ j → store mem i v j ≡ v
store_self mem v i j e = ground arith

pub store_ne : {A : Type 0} (mem : ℕ → A) (v : A) (i j : ℕ) → i ≢ j → store mem i v j ≡ mem j
store_ne mem v i j e = ground arith
