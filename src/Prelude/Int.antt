-- ===== src/Prelude/Int.antt =====
-- Signed results of the C functions: `pos n` is n and `negsuc n` is -(n + 1).
use Prim.Native.Nat.{ℕ}
use mathlib.Core.Bool.{Bool, true, false}
use mathlib.Core.Path.{◌≡◌, refl}
use mathlib.Core.Logic.{◌⊎◌, inl, inr}

pub data ℤ : Type 0 where
  pos : ℕ → ℤ
  negsuc : ℕ → ℤ

-- The test `r < 0`.
abbrev pub is_neg : ℤ → Bool
is_neg (pos n) = false
is_neg (negsuc n) = true

-- A result is an error, or passes the test `r < 0`.
pub is_neg-cases : (z : ℤ) → ((e : ℕ) × (z ≡ negsuc e)) ⊎ (is_neg z ≡ false)
is_neg-cases (pos n) = inr refl
is_neg-cases (negsuc e) = inl (e, refl)
