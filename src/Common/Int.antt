-- ===== src/Common/Int.antt =====
-- Signed integers over the native numbers, with the order that the program tests.
use Prim.Native.Nat.{ℕ}
use mathlib.Core.Path.{◌≡◌}
use mathlib.Core.Bool.{Bool, true, false}
use native.Mathlib.Omega.{arith}
use apigw.Common.Tests.{ltb}

-- `negsuc n` is -(n + 1).
pub data ℤ : Type 0 where
  pos : ℕ → ℤ
  negsuc : ℕ → ℤ

abbrev pub ltb_ℤ : ℤ → ℤ → Bool
ltb_ℤ (pos a) (pos b) = ltb a b
ltb_ℤ (pos a) (negsuc b) = false
ltb_ℤ (negsuc a) (pos b) = true
ltb_ℤ (negsuc a) (negsuc b) = ltb b a

pub ltb_ℤ-irrefl : (a : ℤ) → ltb_ℤ a a ≡ false
ltb_ℤ-irrefl (pos a) = ground arith
ltb_ℤ-irrefl (negsuc a) = ground arith

pub ltb_ℤ-asymm : (a b : ℤ) → ltb_ℤ a b ≡ true → ltb_ℤ b a ≡ false
ltb_ℤ-asymm (pos a) (pos b) h = ground arith
ltb_ℤ-asymm (pos a) (negsuc b) h = ground arith
ltb_ℤ-asymm (negsuc a) (pos b) h = ground arith
ltb_ℤ-asymm (negsuc a) (negsuc b) h = ground arith

-- If `b` is not below `a` and `c` is not below `b`, then `c` is not below `a`.
pub ltb_ℤ-trans_ge : (a b c : ℤ) → ltb_ℤ b a ≡ false → ltb_ℤ c b ≡ false → ltb_ℤ c a ≡ false
ltb_ℤ-trans_ge (pos a) (pos b) (pos c) h k = ground arith
ltb_ℤ-trans_ge (pos a) (pos b) (negsuc c) h k = ground arith
ltb_ℤ-trans_ge (pos a) (negsuc b) (pos c) h k = ground arith
ltb_ℤ-trans_ge (pos a) (negsuc b) (negsuc c) h k = ground arith
ltb_ℤ-trans_ge (negsuc a) (pos b) (pos c) h k = ground arith
ltb_ℤ-trans_ge (negsuc a) (pos b) (negsuc c) h k = ground arith
ltb_ℤ-trans_ge (negsuc a) (negsuc b) (pos c) h k = ground arith
ltb_ℤ-trans_ge (negsuc a) (negsuc b) (negsuc c) h k = ground arith
