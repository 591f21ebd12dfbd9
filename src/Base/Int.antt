-- ===== src/Base/Int.antt =====
-- Signed integers over the native numbers, under the library's names: Go's int64 values and
-- durations, without their wrap-around. Sums and orders go through the two parts of an integer.
use Prim.Native.Nat.{ℕ, suc, ◌+◌, ◌-◌, ◌*◌, ◌/◌, ◌%◌, ◌^◌, ◌≤◌, ◌<◌}
use mathlib.Core.Path.{◌≡◌}
use mathlib.Core.Bool.{Bool, true}
use mathlib.Core.Logic.{◌↔◌}
use native.Mathlib.Omega.{arith}
use tsa_bench.Base.Tests.{ltb, leb, ◌==◌, if◌then◌else◌}

-- `negsuc n` is -(n + 1).
pub data ℤ : Type 0 where
  pos : ℕ → ℤ
  negsuc : ℕ → ℤ

abbrev pub pos_part : ℤ → ℕ
pos_part (pos n) = n
pos_part (negsuc n) = 0

abbrev pub neg_part : ℤ → ℕ
neg_part (pos n) = 0
neg_part (negsuc n) = suc n

-- a - b, as an integer.
abbrev pub sub_ℕ : ℕ → ℕ → ℤ
sub_ℕ a b = if leb b a then pos (a - b) else negsuc (b - a - 1)

infixl 65 ◌+ℤ◌ ◌-ℤ◌
infix 50 ◌≤ℤ◌ ◌<ℤ◌
unfoldable pub ◌+ℤ◌ : ℤ → ℤ → ℤ
a +ℤ b = sub_ℕ (pos_part a + pos_part b) (neg_part a + neg_part b)

unfoldable pub ◌-ℤ◌ : ℤ → ℤ → ℤ
a -ℤ b = sub_ℕ (pos_part a + neg_part b) (neg_part a + pos_part b)

abbrev pub ◌≤ℤ◌ : ℤ → ℤ → Type 0
a ≤ℤ b = pos_part a + neg_part b ≤ pos_part b + neg_part a

abbrev pub ◌<ℤ◌ : ℤ → ℤ → Type 0
a <ℤ b = pos_part a + neg_part b < pos_part b + neg_part a

abbrev pub ltb_ℤ : ℤ → ℤ → Bool
ltb_ℤ a b = ltb (pos_part a + neg_part b) (pos_part b + neg_part a)

abbrev pub leb_ℤ : ℤ → ℤ → Bool
leb_ℤ a b = leb (pos_part a + neg_part b) (pos_part b + neg_part a)

abbrev pub eqb_ℤ : ℤ → ℤ → Bool
eqb_ℤ a b = pos_part a + neg_part b == pos_part b + neg_part a

pub +ℤ_parts :
    (a b : ℤ)
    → pos_part (a +ℤ b) + neg_part a + neg_part b ≡ neg_part (a +ℤ b) + pos_part a + pos_part b
unfolding ◌+ℤ◌
+ℤ_parts a b = ground arith

pub -ℤ_parts :
    (a b : ℤ)
    → pos_part (a -ℤ b) + neg_part a + pos_part b ≡ neg_part (a -ℤ b) + pos_part a + neg_part b
unfolding ◌-ℤ◌
-ℤ_parts a b = ground arith

pub eq_of_parts : (a b : ℤ) → pos_part a + neg_part b ≡ pos_part b + neg_part a → a ≡ b
eq_of_parts a b h = ground arith

pub +ℤ_assoc : (a b c : ℤ) → (a +ℤ b) +ℤ c ≡ a +ℤ (b +ℤ c)
unfolding ◌+ℤ◌
+ℤ_assoc a b c = ground arith

pub eqb_ℤ_iff : (a b : ℤ) → (eqb_ℤ a b ≡ true) ↔ (a ≡ b)
eqb_ℤ_iff a b = (λ h. ground (arith, eq_of_parts a b), λ h. ground (arith, h))

pub ruleset int_laws = (arith, +ℤ_parts, -ℤ_parts, eq_of_parts)

-- Go's division of integers by a positive number: towards zero.
unfoldable pub quot : ℤ → ℕ → ℤ
quot (pos n) d = pos (n / d)
quot (negsuc n) d = sub_ℕ 0 (suc n / d)

-- An int64 sum: the result leaves the range at most once.
unfoldable pub add64 : ℤ → ℤ → ℤ
unfolding ◌+ℤ◌ ◌-ℤ◌
add64 a b =
    let s = a +ℤ b in
    if leb_ℤ (pos (2 ^ 63)) s
    then s -ℤ pos (2 ^ 64)
    else if ltb_ℤ s (negsuc (2 ^ 63 - 1))
    then s +ℤ pos (2 ^ 64)
    else s

-- An int64 from any integer.
pub wrap64 : ℤ → ℤ
wrap64 (pos n) = let r = n % 2 ^ 64 in if ltb r (2 ^ 63) then pos r else negsuc (2 ^ 64 - 1 - r)
wrap64 (negsuc n) = let r = n % 2 ^ 64 in if ltb r (2 ^ 63) then negsuc r else pos (2 ^ 64 - 1 - r)

pub scale : ℕ → ℤ → ℤ
scale k (pos n) = pos (k * n)
scale k (negsuc n) = sub_ℕ 0 (k * suc n)

abbrev pub Fits64 : ℤ → Type 0
Fits64 a = (a <ℤ pos (2 ^ 63)) × (negsuc (2 ^ 63 - 1) ≤ℤ a)

-- A sum that fits is exact.
pub add64_exact : (a b : ℤ) → Fits64 (a +ℤ b) → add64 a b ≡ a +ℤ b
unfolding add64
add64_exact a b f = ground arith
