-- ===== src/Common/Int.antt =====
-- Signed integers over the native numbers, for the differences that the code compares with 0.
-- The operations stay shut: the lemmas carry each test and each sum over to natural numbers.
use Prim.Native.Nat.{ℕ, suc, ◌+◌, ◌-◌, ◌≤◌}
use mathlib.Core.Path.{◌≡◌}
use mathlib.Core.Bool.{Bool}
use native.Mathlib.Omega.{arith}
use teamspeak_js.Common.Tests.{ltb, leb, if◌then◌else◌}

-- `negsuc n` is -(n + 1).
pub data ℤ : Type 0 where
  pos : ℕ → ℤ
  negsuc : ℕ → ℤ

abbrev pub pos_part : ℤ → ℕ
pos_part (pos n) = n
pos_part (negsuc n) = 0

abbrev pub neg_part : ℤ → ℕ
neg_part (pos n) = 0
neg_part (negsuc n) = suc n

-- a - b, as an integer.
unfoldable pub sub_ℕ : ℕ → ℕ → ℤ
sub_ℕ a b = if leb b a then pos (a - b) else negsuc (b - a - 1)

infixl 65 ◌+ℤ◌ ◌-ℤ◌
unfoldable pub ◌+ℤ◌ : ℤ → ℤ → ℤ
unfolding sub_ℕ
a +ℤ b = sub_ℕ (pos_part a + pos_part b) (neg_part a + neg_part b)

unfoldable pub ◌-ℤ◌ : ℤ → ℤ → ℤ
unfolding sub_ℕ
a -ℤ b = sub_ℕ (pos_part a + neg_part b) (neg_part a + pos_part b)

abbrev pub ltb_ℤ : ℤ → ℤ → Bool
ltb_ℤ a b = ltb (pos_part a + neg_part b) (pos_part b + neg_part a)

abbrev pub leb_ℤ : ℤ → ℤ → Bool
leb_ℤ a b = leb (pos_part a + neg_part b) (pos_part b + neg_part a)

pub pos_part-sub_ℕ : (a b : ℕ) → pos_part (sub_ℕ a b) ≡ a - b
unfolding sub_ℕ
pos_part-sub_ℕ a b = ground arith

pub neg_part-sub_ℕ : (a b : ℕ) → neg_part (sub_ℕ a b) ≡ b - a
unfolding sub_ℕ
neg_part-sub_ℕ a b = ground arith

-- Two differences are equal when the sums across are.
pub sub_ℕ_eq : (a b c d : ℕ) → a + d ≡ c + b → sub_ℕ a b ≡ sub_ℕ c d
unfolding sub_ℕ
sub_ℕ_eq a b c d h = ground arith

pub sub_ℕ_pos : (a b : ℕ) → b ≤ a → sub_ℕ a b ≡ pos (a - b)
unfolding sub_ℕ
sub_ℕ_pos a b h = ground arith

pub +ℤ_sub_ℕ : (a b c : ℕ) → sub_ℕ a b +ℤ pos c ≡ sub_ℕ (a + c) b
unfolding ◌+ℤ◌
+ℤ_sub_ℕ a b c = ground arith

pub -ℤ_sub_ℕ : (a b c : ℕ) → sub_ℕ a b -ℤ pos c ≡ sub_ℕ a (b + c)
unfolding ◌-ℤ◌
-ℤ_sub_ℕ a b c = ground arith

-- Tests of differences, as tests of sums.
pub ltb_ℤ_sub_pos : (a b c : ℕ) → ltb_ℤ (sub_ℕ a b) (pos c) ≡ ltb a (b + c)
unfolding sub_ℕ
ltb_ℤ_sub_pos a b c = ground arith

pub ltb_ℤ_pos_sub : (a b c : ℕ) → ltb_ℤ (pos a) (sub_ℕ b c) ≡ ltb (a + c) b
unfolding sub_ℕ
ltb_ℤ_pos_sub a b c = ground arith

pub leb_ℤ_pos_sub : (a b c : ℕ) → leb_ℤ (pos a) (sub_ℕ b c) ≡ leb (a + c) b
unfolding sub_ℕ
leb_ℤ_pos_sub a b c = ground arith

pub leb_ℤ_sub_pos : (a b c : ℕ) → leb_ℤ (sub_ℕ a b) (pos c) ≡ leb a (b + c)
unfolding sub_ℕ
leb_ℤ_sub_pos a b c = ground arith

pub leb_ℤ_sub_sub : (a b c d : ℕ) → leb_ℤ (sub_ℕ a b) (sub_ℕ c d) ≡ leb (a + d) (c + b)
unfolding sub_ℕ
leb_ℤ_sub_sub a b c d = ground arith
