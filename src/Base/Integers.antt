-- ===== src/Base/Integers.antt =====
-- Python's `int`, over the native numbers, as far as the scripts compute with it.
use Prim.Native.Nat.{ℕ, zero, suc, ◌+◌, ◌-◌}
use mathlib.Core.Path.{◌≡◌}
use mathlib.Core.Logic.{◌↔◌}
use mathlib.Core.Bool.{Bool, true, false}
use native.Mathlib.Omega.{arith}
use public_endorsement_servi.Base.Tests.{leb, ◌==◌, if◌then◌else◌}

-- `negsuc n` is -(n + 1).
pub data ℤ : Type 0 where
  pos : ℕ → ℤ
  negsuc : ℕ → ℤ

-- i == j
unfoldable pub int_eq : ℤ → ℤ → Bool
int_eq (pos m) (pos n) = m == n
int_eq (negsuc m) (negsuc n) = m == n
int_eq (pos m) (negsuc n) = false
int_eq (negsuc m) (pos n) = false

pub int_eq_iff : (i j : ℤ) → (int_eq i j ≡ true) ↔ (i ≡ j)
unfolding int_eq
int_eq_iff (pos m) (pos n) = ground arith
int_eq_iff (negsuc m) (negsuc n) = ground arith
int_eq_iff (pos m) (negsuc n) = ground arith
int_eq_iff (negsuc m) (pos n) = ground arith

-- i <= j
unfoldable pub int_le : ℤ → ℤ → Bool
int_le (pos m) (pos n) = leb m n
int_le (negsuc m) (negsuc n) = leb n m
int_le (pos m) (negsuc n) = false
int_le (negsuc m) (pos n) = true

-- i + 1
unfoldable pub int_suc : ℤ → ℤ
int_suc (pos n) = pos (suc n)
int_suc (negsuc zero) = pos 0
int_suc (negsuc (suc n)) = negsuc n

-- m - n, of two natural numbers
unfoldable pub sub_ℕ : ℕ → ℕ → ℤ
sub_ℕ m n = if leb n m then pos (m - n) else negsuc (n - m - 1)

-- i - j
unfoldable pub int_sub : ℤ → ℤ → ℤ
unfolding sub_ℕ
int_sub (pos m) (pos n) = sub_ℕ m n
int_sub (pos m) (negsuc n) = pos (m + suc n)
int_sub (negsuc m) (pos n) = negsuc (m + n)
int_sub (negsuc m) (negsuc n) = sub_ℕ n m
