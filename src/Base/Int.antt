-- ===== src/Base/Int.antt =====
-- C's signed `int` values, as integers over the native numbers. `negsuc n` is -(n + 1).
use Prim.Native.Nat.{ℕ, suc}
use mathlib.Core.Bool.{Bool, true, false}

pub data ℤ : Type 0 where
  pos : ℕ → ℤ
  negsuc : ℕ → ℤ

-- `x < 0`
abbrev pub is_neg : ℤ → Bool
is_neg (pos n) = false
is_neg (negsuc n) = true

-- `x`, as a test
abbrev pub is_nonzero : ℤ → Bool
is_nonzero (pos n) = elim n [ ℕ.zero ↦ false | suc k ↦ true ]
is_nonzero (negsuc n) = true

-- `-e` of a positive constant
abbrev pub minus : ℕ → ℤ
minus e = elim e [ ℕ.zero ↦ pos 0 | suc k ↦ negsuc k ]
