-- ===== src/Base/Trim.antt =====
-- What trimming and searching do on texts put together from known pieces.
use Prim.Native.Nat.{ℕ}
use mathlib.Core.Path.{◌≡◌, refl}
use mathlib.Core.Bool.{Bool, true, false, not, ◌&&◌}
use mathlib.Core.List.{[], ◌∷◌, ◌++◌}
use native.Mathlib.Omega.{arith}
use tsa_bench.Base.Tests.{and_true}
use tsa_bench.Base.Strings.{Text, has_byte, spaces, trim_left, trim_right, trim_space, is_empty}

abbrev pub all_bytes : (ℕ → Bool) → Text → Bool
all_bytes t [] = true
all_bytes t (c ∷ s) = t c && all_bytes t s

abbrev pub is_solid : ℕ → Bool
is_solid c = not (has_byte spaces c)

-- A text that trimming on the right does not change.
unfoldable pub EndsSolid : Text → Type 0
unfolding trim_right
EndsSolid s = trim_right spaces s ≡ s

pub all_bytes_imp :
    (t u : ℕ → Bool)
    → ((c : ℕ) → t c ≡ true → u c ≡ true)
    → (s : Text) → all_bytes t s ≡ true
    → all_bytes u s ≡ true
all_bytes_imp t u h [] a = refl
all_bytes_imp t u h (c ∷ s) a =
    let (x, y) = and_true (t c) (all_bytes t s) a in rw (h c x, all_bytes_imp t u h s y) refl

trim_right-cons : (c d : ℕ) (s : Text) → EndsSolid (d ∷ s) → EndsSolid (c ∷ d ∷ s)
unfolding EndsSolid trim_right
trim_right-cons c d s h = rw (h) refl

pub EndsSolid-append : (a : Text) (d : ℕ) (b : Text) → EndsSolid (d ∷ b) → EndsSolid (a ++ d ∷ b)
EndsSolid-append [] d b h = h
EndsSolid-append (c ∷ []) d b h = trim_right-cons c d b h
EndsSolid-append (c ∷ x ∷ a) d b h =
    trim_right-cons c x (a ++ d ∷ b) (EndsSolid-append (x ∷ a) d b h)

pub EndsSolid-after : (a b : Text) → is_empty b ≡ false → EndsSolid b → EndsSolid (a ++ b)
EndsSolid-after a [] h e = cc
EndsSolid-after a (d ∷ b) h e = EndsSolid-append a d b e

pub EndsSolid-all : (s : Text) → all_bytes is_solid s ≡ true → EndsSolid s
unfolding EndsSolid trim_right
EndsSolid-all [] h = refl
EndsSolid-all (c ∷ []) h = ground arith
EndsSolid-all (c ∷ d ∷ s) h =
    trim_right-cons c d s
      (EndsSolid-all (d ∷ s) (and_true (is_solid c) (all_bytes is_solid (d ∷ s)) h).1)

pub trim_space_first :
    (c : ℕ) (s : Text) → is_solid c ≡ true → EndsSolid (c ∷ s) → trim_space (c ∷ s) ≡ c ∷ s
unfolding EndsSolid trim_space trim_left
trim_space_first c s h e = ground (arith, e)

pub trim_space_second :
    (c : ℕ) (s : Text) → is_solid c ≡ true → EndsSolid (c ∷ s) → trim_space (32 ∷ c ∷ s) ≡ c ∷ s
unfolding EndsSolid trim_space trim_left
trim_space_second c s h e = ground (arith, e)
