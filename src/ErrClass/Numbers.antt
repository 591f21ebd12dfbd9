-- ===== src/ErrClass/Numbers.antt =====
-- `itoa` writes decimal digits that read back.
use native.Mathlib.Nat.{one-le-pow, pow-succ'}
use tsa_bench.Base.{
  ℕ, zero, suc, ◌+◌, ◌-◌, ◌*◌, ◌/◌, ◌%◌, ◌^◌, ◌≤◌, ◌<◌, ◌≡◌, ap, ◌∙◌, inl, inr, none, some, [], ◌∷◌,
  arith, Text, codes, Bool-cases, ◌==◌,
}
use tsa_bench.ErrClass.{itoa, itoa_loop}

-- The number that decimal digits stand for, continuing from `n`.
abbrev pub read_digits : ℕ → Text → ℕ
read_digits n [] = n
read_digits n (c ∷ s) = read_digits (10 * n + (c - 48)) s

-- With room for the digits, the loop writes the digits of `i` before `out`.
itoa_loop_reads :
    (room i : ℕ) (out : Text)
    → i < 10 ^ room
    → (t : Text) × (itoa_loop room i out ≡ some t) × (read_digits 0 t ≡ read_digits i out)
unfolding itoa_loop
itoa_loop_reads zero i out p = let e : i ≡ 0 = omega arith in (out, rw e, rw e)
itoa_loop_reads (suc room) i out p = elim (Bool-cases (i == 0)) [
  | inl e ↦ (out, rw (e, itoa_loop), ground (arith, e))
  | inr e ↦
      let (t, done, reads) =
        itoa_loop_reads room (i / 10) ((48 + i % 10) ∷ out) (omega (arith, pow-succ' 10 room)) in
      let digit : 10 * (i / 10) + (48 + i % 10 - 48) ≡ i = omega arith in
      (t, rw (e, done, itoa_loop), reads ∙ ap (λ (n : ℕ). read_digits n out) digit)
]

itoa_loop_overruns : (room i : ℕ) (out : Text) → 10 ^ room ≤ i → itoa_loop room i out ≡ none
unfolding itoa_loop
itoa_loop_overruns zero i out p = ground arith
itoa_loop_overruns (suc room) i out p = ground (
  arith,
  one-le-pow (suc room) 10,
  itoa_loop_overruns room (i / 10) ((48 + i % 10) ∷ out) (omega (arith, pow-succ' 10 room)),
)

-- `itoa` writes up to 8 digits that read back as the number; from 10^8 on it runs out of its buffer.
pub itoa_roundtrip :
    (i : ℕ)
    → (i < 10 ^ 8 → (t : Text) × (itoa i ≡ some t) × (read_digits 0 t ≡ i))
      × (10 ^ 8 ≤ i → itoa i ≡ none)
unfolding itoa
itoa_roundtrip i = (short, long)
  where
    short : i < 10 ^ 8 → (t : Text) × (itoa i ≡ some t) × (read_digits 0 t ≡ i)
    short p = elim (Bool-cases (i == 0)) [
      | inl e ↦ (codes "0", rw (e, itoa), ground (arith, e))
      | inr e ↦ let (t, done, reads) = itoa_loop_reads 8 i [] p in (t, rw (e, done, itoa), reads)
    ]

    long : 10 ^ 8 ≤ i → itoa i ≡ none
    long p = ground (arith, itoa_loop_overruns 8 i [] p)
