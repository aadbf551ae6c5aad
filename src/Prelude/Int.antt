-- ===== src/Prelude/Int.antt =====
-- Integers over the native numbers, with their order.
use Prim.Native.Nat.{ℕ}
use mathlib.Core.Path.{◌≡◌}
use mathlib.Core.Logic.{◌⊎◌}
use mathlib.Core.Bool.{Bool, true, false}
use native.Mathlib.Omega.{arith}
use csoj_judger.Prelude.Tests.{leb}
use csoj_judger.Prelude.Order.{Ord}

-- `negsuc n` is -(n + 1).
pub data ℤ : Type 0 where
  pos : ℕ → ℤ
  negsuc : ℕ → ℤ

abbrev pub int_leb : ℤ → ℤ → Bool
int_leb (pos a) (pos b) = leb a b
int_leb (pos a) (negsuc b) = false
int_leb (negsuc a) (pos b) = true
int_leb (negsuc a) (negsuc b) = leb b a

pub int_total : (a b : ℤ) → (int_leb a b ≡ true) ⊎ (int_leb b a ≡ true)
int_total a b = ground arith

pub int_trans : (a b c : ℤ) → int_leb a b ≡ true → int_leb b c ≡ true → int_leb a c ≡ true
int_trans a b c h k = ground arith

pub int_antisym : (a b : ℤ) → int_leb a b ≡ true → int_leb b a ≡ true → a ≡ b
int_antisym a b h k = ground arith

instance abbrev pub int_ord : Ord ℤ
int_ord = record { le? = int_leb; total = int_total; trans = int_trans; antisym = int_antisym }

-- The value of a positive integer; `none` for zero and below.
abbrev pub positive? : ℤ → Bool
positive? (pos n) = leb 1 n
positive? (negsuc n) = false
