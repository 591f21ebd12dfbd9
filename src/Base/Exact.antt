-- ===== src/Base/Exact.antt =====
-- Fractions without rounding: a concrete value of the parameter `Float64`, for the tests.
use Prim.Native.Nat.{ℕ, suc, ◌+◌, ◌*◌, ◌/◌, ◌-◌, ◌^◌, min}
use tsa_bench.Base.Int.{ℤ, pos, negsuc, pos_part, neg_part, sub_ℕ, ltb_ℤ, leb_ℤ}
use tsa_bench.Base.Float.{Float64}

-- Numerator and denominator.
abbrev Fraction : Type 0
Fraction = ℤ × ℕ

abbrev times : ℤ → ℤ → ℤ
times a b =
    sub_ℕ (pos_part a * pos_part b + neg_part a * neg_part b)
      (pos_part a * neg_part b + neg_part a * pos_part b)

-- a / b + c / d
abbrev plus : Fraction → Fraction → Fraction
plus (a, b) (c, d) =
    (sub_ℕ (pos_part a * d + pos_part c * b) (neg_part a * d + neg_part c * b), b * d)

abbrev over : Fraction → Fraction → Fraction
over (a, b) (pos n, d) = (times a (pos d), b * n)
over (a, b) (negsuc n, d) = (times a (sub_ℕ 0 d), b * suc n)

-- Fractions outside the int64 values become the nearest one.
abbrev truncate : Fraction → ℤ
truncate (pos n, d) = pos (min (n / d) (2 ^ 63 - 1))
truncate (negsuc n, d) = sub_ℕ 0 (min (suc n / d) (2 ^ 63))

abbrev pub exact : Float64
exact = record {
  F = Fraction;
  of_int = λ n. (n, 1);
  decimal = λ n k. (pos n, 10 ^ k);
  add = plus;
  mul = λ x y. (times x.0 y.0, x.1 * y.1);
  div = over;
  lt_F = λ x y. ltb_ℤ (times x.0 (pos y.1)) (times y.0 (pos x.1));
  le_F = λ x y. leb_ℤ (times x.0 (pos y.1)) (times y.0 (pos x.1));
  trunc = truncate;
}
