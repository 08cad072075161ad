-- ===== src/Base/Int.antt =====
-- Signed counters: what a JavaScript counter holds once it has been decremented below zero.
use Prim.Native.Nat.{ℕ, zero, suc, ◌+◌, ◌≤◌}
use mathlib.Core.Path.{◌≡◌}
use mathlib.Core.Bool.{Bool, true, false}
use native.Mathlib.Omega.{arith}

-- `negsuc n` is -(n + 1).
pub data ℤ : Type 0 where
  pos : ℕ → ℤ
  negsuc : ℕ → ℤ

-- `x - 1`
abbrev pub pred_ℤ : ℤ → ℤ
pred_ℤ (pos zero) = negsuc 0
pred_ℤ (pos (suc n)) = pos n
pred_ℤ (negsuc n) = negsuc (suc n)

-- `x === 0`
abbrev pub is_zero : ℤ → Bool
is_zero (pos zero) = true
is_zero (pos (suc n)) = false
is_zero (negsuc n) = false

abbrev pub is_pos : ℤ → Bool
is_pos (pos zero) = false
is_pos (pos (suc n)) = true
is_pos (negsuc n) = false

-- `z` is `a - b`.
abbrev pub IsDiff : ℤ → ℕ → ℕ → Type 0
IsDiff (pos n) a b = n + b ≡ a
IsDiff (negsuc n) a b = suc n + a ≡ b

pub pred_ℤ-IsDiff : (z : ℤ) (a b : ℕ) → IsDiff z a b → IsDiff (pred_ℤ z) a (suc b)
pred_ℤ-IsDiff (pos zero) a b h = omega arith
pred_ℤ-IsDiff (pos (suc n)) a b h = omega arith
pred_ℤ-IsDiff (negsuc n) a b h = omega arith

pub is_zero-IsDiff : (z : ℤ) (a b : ℕ) → IsDiff z a b → is_zero z ≡ true → a ≡ b
is_zero-IsDiff (pos zero) a b h e = omega arith
is_zero-IsDiff (pos (suc n)) a b h e = cc
is_zero-IsDiff (negsuc n) a b h e = cc

pub not_pos-IsDiff : (z : ℤ) (a b : ℕ) → IsDiff z a b → is_pos z ≡ false → a ≤ b
not_pos-IsDiff (pos zero) a b h e = omega arith
not_pos-IsDiff (pos (suc n)) a b h e = cc
not_pos-IsDiff (negsuc n) a b h e = omega arith
