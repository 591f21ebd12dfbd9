-- ===== src/Base/Bits.antt =====
-- Bits of machine words as arithmetic: a low mask under `|` and `&`, and the bit length.
use Prim.Native.Nat.{
  ℕ, zero, suc, ◌+◌, ◌*◌, ◌/◌, ◌%◌, ◌^◌, ◌≤◌, ◌<◌, min, max, bit_and, bit_or, digits,
  bit_and-bitwise, bit_or-bitwise,
}
use mathlib.Core.Path.{◌≡◌, refl, ap}
use mathlib.Core.Bool.{true, false}
use native.Mathlib.Nat.{
  zero-add, suc-add, pow-succ', one-le-pow, pow-le-pow_right, div-div-eq-div-mul, div-add-mod,
}
use native.Mathlib.Decide.{dec_lt}
use native.Mathlib.Omega.{arith}
use tsa_bench.Base.Tests.{◌==◌}

abbrev or_digits : ℕ → ℕ → ℕ → ℕ
or_digits fuel a b = digits (λ b. b) max fuel a b

abbrev and_digits : ℕ → ℕ → ℕ → ℕ
and_digits fuel a b = digits (λ b. zero) min fuel a b

-- More fuel than the number has digits changes nothing.
or_digits_enough : (n m a b : ℕ) → a ≤ n → a ≤ m → or_digits n a b ≡ or_digits m a b
or_digits_enough zero zero a b p q = refl
or_digits_enough zero (suc m) zero b p q = refl
or_digits_enough zero (suc m) (suc a) b p q = absurd (omega arith)
or_digits_enough (suc n) zero zero b p q = refl
or_digits_enough (suc n) zero (suc a) b p q = absurd (omega arith)
or_digits_enough (suc n) (suc m) zero b p q = refl
or_digits_enough (suc n) (suc m) (suc a) b p q =
    omega (arith, or_digits_enough n m (suc a / 2) (b / 2) (omega arith) (omega arith))

and_digits_enough : (n m a b : ℕ) → a ≤ n → a ≤ m → and_digits n a b ≡ and_digits m a b
and_digits_enough zero zero a b p q = refl
and_digits_enough zero (suc m) zero b p q = refl
and_digits_enough zero (suc m) (suc a) b p q = absurd (omega arith)
and_digits_enough (suc n) zero zero b p q = refl
and_digits_enough (suc n) zero (suc a) b p q = absurd (omega arith)
and_digits_enough (suc n) (suc m) zero b p q = refl
and_digits_enough (suc n) (suc m) (suc a) b p q =
    omega (arith, and_digits_enough n m (suc a / 2) (b / 2) (omega arith) (omega arith))

-- The lowest digit of `a | (2 b + 1)` and of `a & (2 b + 1)`.
bit_or-odd : (a b : ℕ) → bit_or a (2 * b + 1) ≡ bit_or (a / 2) b * 2 + 1
bit_or-odd zero b = omega (arith, bit_or-bitwise 0 (2 * b + 1), bit_or-bitwise 0 b)
bit_or-odd (suc a) b =
    let half : (2 * b + 1) / 2 ≡ b = omega arith in
    omega (
      arith,
      bit_or-bitwise (suc a) (2 * b + 1),
      ap (λ (t : ℕ). or_digits a (suc a / 2) t) half,
      bit_or-bitwise (suc a / 2) b,
      or_digits_enough a (suc a / 2) (suc a / 2) b (omega arith) (omega arith),
    )

bit_and-odd : (a b : ℕ) → bit_and a (2 * b + 1) ≡ bit_and (a / 2) b * 2 + a % 2
bit_and-odd zero b = omega (arith, bit_and-bitwise 0 (2 * b + 1), bit_and-bitwise 0 b)
bit_and-odd (suc a) b =
    let half : (2 * b + 1) / 2 ≡ b = omega arith in
    omega (
      arith,
      bit_and-bitwise (suc a) (2 * b + 1),
      ap (λ (t : ℕ). and_digits a (suc a / 2) t) half,
      bit_and-bitwise (suc a / 2) b,
      and_digits_enough a (suc a / 2) (suc a / 2) b (omega arith) (omega arith),
    )

bit_or-zero_fuel : (n a : ℕ) → a ≤ n → or_digits n a 0 ≡ a
bit_or-zero_fuel zero zero h = refl
bit_or-zero_fuel zero (suc a) h = absurd (omega arith)
bit_or-zero_fuel (suc n) zero h = refl
bit_or-zero_fuel (suc n) (suc a) h = omega (arith, bit_or-zero_fuel n (suc a / 2) (omega arith))

bit_and-zero_fuel : (n a : ℕ) → and_digits n a 0 ≡ 0
bit_and-zero_fuel zero a = refl
bit_and-zero_fuel (suc n) zero = refl
bit_and-zero_fuel (suc n) (suc a) = omega (arith, bit_and-zero_fuel n (suc a / 2))

bit_or-zero : (a : ℕ) → bit_or a 0 ≡ a
bit_or-zero a = omega (arith, bit_or-bitwise a 0, bit_or-zero_fuel a a (omega arith))

bit_and-zero : (a : ℕ) → bit_and a 0 ≡ 0
bit_and-zero a = omega (arith, bit_and-bitwise a 0, bit_and-zero_fuel a a)

-- The mask of k ones.
abbrev pub ones : ℕ → ℕ
ones zero = 0
ones (suc k) = 2 * ones k + 1

-- A number without its last k + 1 digits is its half without the last k.
double-block : (k a : ℕ) → a / 2 ^ suc k * 2 ^ suc k ≡ 2 * (a / 2 / 2 ^ k * 2 ^ k)
double-block k a =
    let power : 2 ^ suc k ≡ 2 * 2 ^ k = pow-succ' 2 k in
    rw (power, div-div-eq-div-mul a 2 (2 ^ k)) (grind arith)

pub bit_or-ones : (k a : ℕ) → bit_or a (ones k) ≡ a / 2 ^ k * 2 ^ k + ones k
bit_or-ones zero a = omega (arith, bit_or-zero a)
bit_or-ones (suc k) a =
    omega (arith, bit_or-odd a (ones k), bit_or-ones k (a / 2), double-block k a)

pub bit_and-ones : (k a : ℕ) → bit_and a (ones k) ≡ a % 2 ^ k
bit_and-ones zero a = omega (arith, bit_and-zero a)
bit_and-ones (suc k) a = omega (
  arith,
  bit_and-odd a (ones k),
  bit_and-ones k (a / 2),
  double-block k a,
  div-add-mod a (2 ^ suc k),
  div-add-mod (a / 2) (2 ^ k),
)

-- `bits.Len64`: the number of binary digits, on as much fuel as the word has bits.
unfoldable pub bit_length : ℕ → ℕ → ℕ
bit_length zero x = 0
bit_length (suc f) x = elim (x == 0) [ true ↦ 0 | false ↦ suc (bit_length f (x / 2)) ]

bit_length-zero : (f : ℕ) → bit_length f 0 ≡ 0
unfolding bit_length
bit_length-zero zero = refl
bit_length-zero (suc f) = refl

-- A number of k + 1 digits lies between two powers of two.
pub bit_length_bounds : (f x k : ℕ) → x < 2 ^ f → 2 ^ k ≤ x → x < 2 ^ suc k → bit_length f x ≡ suc k
unfolding bit_length
bit_length_bounds zero x k p q r = absurd (omega (arith, one-le-pow k 2))
bit_length_bounds (suc f) x zero p q r =
    let half : x / 2 ≡ 0 = omega arith in
    ground (arith, ap (λ (t : ℕ). bit_length f t) half, bit_length-zero f)
bit_length_bounds (suc f) x (suc k) p q r =
    let half : bit_length f (x / 2) ≡ suc k =
      bit_length_bounds f (x / 2) k (omega (arith, pow-succ' 2 f)) (omega (arith, pow-succ' 2 k))
        (omega (arith, pow-succ' 2 (suc k))) in
    ground (arith, half, one-le-pow (suc k) 2)

pub two-pow-add : (b k : ℕ) → 2 ^ (b + k) ≡ 2 ^ b * 2 ^ k
two-pow-add zero k = rw zero-add (omega arith)
two-pow-add (suc b) k =
    rw (suc-add, pow-succ' 2 (b + k), pow-succ' 2 b, two-pow-add b k) (omega arith)

-- An exponent is below another if the powers are.
pub two-pow-lt : (b k : ℕ) → 2 ^ b < 2 ^ k → b < k
two-pow-lt b k p = elim (dec_lt b k) [
  | yes q ↦ q
  | no q ↦
      absurd (omega (arith, pow-le-pow_right {n = 2} (omega arith) {i = k} {j = b} (omega arith)))
]
