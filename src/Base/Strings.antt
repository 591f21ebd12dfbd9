-- ===== src/Base/Strings.antt =====
-- Go strings as lists of bytes, with the functions of the package `strings` that the program uses.
use Prim.Native.Nat.{ℕ, zero, suc, ◌+◌, ◌-◌, ◌/◌, ◌%◌, ◌≤◌}
use Prim.Native.Char.{code}
use Prim.Native.String.{String}
use mathlib.Core.Path.{◌≡◌, refl}
use mathlib.Core.Bool.{Bool, true, false, ◌&&◌, ◌||◌}
use mathlib.Core.Option.{Option, none, some}
use mathlib.Core.Option
use mathlib.Core.List.{List, [], ◌∷◌, ◌++◌}
use native.Mathlib.Omega.{arith}
use mathlib.Core.Logic.{inl, inr}
use tsa_bench.Base.Tests.{◌==◌, ltb, leb, if◌then◌else◌, is_some, Option-cases}
use tsa_bench.Base.Lists.{length, take, drop}

abbrev pub Text : Type 0
Text = List ℕ

-- The bytes of an ASCII literal.
abbrev pub codes : String → Text
codes String.[] = []
codes (String.◌∷◌ c s) = code c ∷ codes s

abbrev pub text_eq : Text → Text → Bool
text_eq [] [] = true
text_eq [] (y ∷ ys) = false
text_eq (x ∷ xs) [] = false
text_eq (x ∷ xs) (y ∷ ys) = x == y && text_eq xs ys

abbrev pub has_prefix : Text → Text → Bool
has_prefix [] s = true
has_prefix (p ∷ ps) [] = false
has_prefix (p ∷ ps) (c ∷ s) = p == c && has_prefix ps s

-- `strings.Index`.
unfoldable pub index : Text → Text → Option ℕ
index p [] = if has_prefix p [] then some 0 else none
index p (c ∷ s) = if has_prefix p (c ∷ s) then some 0 else Option.map suc (index p s)

pub contains : Text → Text → Bool
unfolding index
contains p s = is_some (index p s)

abbrev pub has_byte : Text → ℕ → Bool
has_byte [] c = false
has_byte (b ∷ bs) c = b == c || has_byte bs c

-- `strings.IndexAny` over single bytes.
unfoldable pub index_any : Text → Text → Option ℕ
index_any cs [] = none
index_any cs (c ∷ s) = if has_byte cs c then some 0 else Option.map suc (index_any cs s)

-- `strings.TrimRight`: the bytes up to the last one that is not cut.
unfoldable pub trim_right : Text → Text → Text
trim_right cs [] = []
trim_right cs (c ∷ s) =
    let rest = trim_right cs s in
    elim rest [ [] ↦ if has_byte cs c then [] else c ∷ [] | d ∷ ds ↦ c ∷ d ∷ ds ]

unfoldable pub trim_left : Text → Text → Text
trim_left cs [] = []
trim_left cs (c ∷ s) = let rest = trim_left cs s in if has_byte cs c then rest else c ∷ s

-- ASCII white space, as `strings.TrimSpace` cuts it.
abbrev pub spaces : Text
spaces = 9 ∷ 10 ∷ 11 ∷ 12 ∷ 13 ∷ 32 ∷ []

unfoldable pub trim_space : Text → Text
unfolding trim_left trim_right
trim_space s = trim_right spaces (trim_left spaces s)

unfoldable pub to_lower : Text → Text
to_lower [] = []
to_lower (c ∷ s) = (if leb 65 c && leb c 90 then c + 32 else c) ∷ to_lower s

unfoldable pub to_upper : Text → Text
to_upper [] = []
to_upper (c ∷ s) = (if leb 97 c && leb c 122 then c - 32 else c) ∷ to_upper s

-- `strings.EqualFold`, on ASCII.
unfoldable pub equal_fold : Text → Text → Bool
unfolding to_lower
equal_fold a b = text_eq (to_lower a) (to_lower b)

-- `strings.HasSuffix` and `strings.TrimSuffix`.
unfoldable pub has_suffix : Text → Text → Bool
has_suffix s t = leb (length t) (length s) && text_eq (drop (length s - length t) s) t

unfoldable pub trim_suffix : Text → Text → Text
unfolding has_suffix
trim_suffix s t = if has_suffix s t then take (length s - length t) s else s

-- `strings.Split` at one byte.
unfoldable pub split : ℕ → Text → List Text
split d [] = [] ∷ []
split d (c ∷ s) =
    let rest = split d s in
    if c == d then [] ∷ rest else elim rest [ [] ↦ (c ∷ []) ∷ [] | t ∷ ts ↦ (c ∷ t) ∷ ts ]

abbrev pub is_empty : Text → Bool
is_empty [] = true
is_empty (c ∷ s) = false

-- `strings.Join`.
abbrev pub join : Text → List Text → Text
join sep [] = []
join sep (t ∷ []) = t
join sep (t ∷ u ∷ ts) = t ++ sep ++ join sep (u ∷ ts)

-- The decimal digits of an int64 that is not negative: 20 of them are enough.
decimal_loop : ℕ → ℕ → Text → Text
decimal_loop zero n out = out
decimal_loop (suc room) n out =
    let rest = decimal_loop room (n / 10) ((48 + n % 10) ∷ out) in
    if ltb n 10 then (48 + n % 10) ∷ out else rest

pub decimal : ℕ → Text
unfolding decimal_loop
decimal n = decimal_loop 20 n []

abbrev pub text_mem : Text → List Text → Bool
text_mem t [] = false
text_mem t (u ∷ us) = text_eq t u || text_mem t us

pub text_eq_refl : (s : Text) → text_eq s s ≡ true
text_eq_refl [] = refl
text_eq_refl (c ∷ s) = ground (arith, text_eq_refl s)

pub text_eq_sound : (s t : Text) → text_eq s t ≡ true → s ≡ t
text_eq_sound [] [] h = refl
text_eq_sound [] (y ∷ ys) h = cc
text_eq_sound (x ∷ xs) [] h = cc
text_eq_sound (x ∷ xs) (y ∷ ys) h = ground (arith, text_eq_sound xs ys)

-- A match starts inside the text.
pub index-le : (p s : Text) {i : ℕ} → index p s ≡ some i → i ≤ length s
unfolding index
index-le p [] h = ground arith
index-le p (c ∷ s) h = elim (Option-cases (index p s)) [
  | inl e ↦ ground (arith, e)
  | inr (j, e) ↦ ground (arith, e, index-le p s e)
]
