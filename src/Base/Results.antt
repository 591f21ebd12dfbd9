-- ===== src/Base/Results.antt =====
-- Results of fallible code: an error on the left or a value on the right, with `do`.
use mathlib.Core.Path.{◌≡◌, refl}
use mathlib.Core.Logic.{◌⊎◌, inl, inr}
use mathlib.Core.Bool.{Bool, true, false}
use mathlib.Core.List.{◌++◌}
use mathlib.Core.Option.{Option, none, some}
use tsa_bench.Base.Strings.{Text}

infixl 5 ◌>>=◌ ◌>>◌
abbrev pub ◌>>=◌ {ℓ κ μ} : {E : Type ℓ} {A : Type κ} {B : Type μ} → E ⊎ A → (A → E ⊎ B) → E ⊎ B
inl e >>= f = inl e
inr a >>= f = f a

abbrev pub ◌>>◌ {ℓ μ} : {E : Type ℓ} {B : Type μ} → E ⊎ Unit {0} → E ⊎ B → E ⊎ B
m >> k = m >>= λ _. k

abbrev pub guard {ℓ} : {E : Type ℓ} → Bool → E → E ⊎ Unit {0}
guard true e = inr tt
guard false e = inl e

-- What is absent is an error.
abbrev pub present {ℓ κ} : {E : Type ℓ} {A : Type κ} → Option A → E → E ⊎ A
present none e = inl e
present (some a) e = inr a

-- Another error in place of the given one.
abbrev pub map_error {ℓ κ μ} : {E : Type ℓ} {F : Type κ} {A : Type μ} → (E → F) → E ⊎ A → F ⊎ A
map_error f (inl e) = inl (f e)
map_error f (inr a) = inr a

-- `fmt.Errorf` with `%w` at the end.
abbrev pub label {ℓ} : {A : Type ℓ} → Text → Text ⊎ A → Text ⊎ A
label t m = map_error (λ e. t ++ e) m

-- What a value at the end of a chain says of its steps, for a goal G.
pub from_bind {ℓ κ μ ν} :
    {E : Type ℓ} {A : Type κ} {B : Type μ} {G : Type ν} (m : E ⊎ A) {f : A → E ⊎ B} {b : B}
    → (m >>= f) ≡ inr b
    → ((a : A) → m ≡ inr a → f a ≡ inr b → G)
    → G
from_bind (inl e) h k = cc
from_bind (inr a) h k = k a refl h

pub from_guard {ℓ μ ν} :
    {E : Type ℓ} {B : Type μ} {G : Type ν} (t : Bool) (e : E) {m : E ⊎ B} {b : B}
    → (guard t e >> m) ≡ inr b
    → (t ≡ true → m ≡ inr b → G)
    → G
from_guard true e h k = k refl h
from_guard false e h k = cc

module _ {ℓ κ} {E : Type ℓ} {A : Type κ} where
  pub present-inr : (o : Option A) (e : E) {a : A} → present o e ≡ inr a → o ≡ some a
  present-inr none e h = cc
  present-inr (some x) e h = cc

  pub map_error-inr {μ} :
      {F : Type μ} (f : E → F) (m : E ⊎ A) {a : A} → map_error f m ≡ inr a → m ≡ inr a
  map_error-inr f (inl e) h = cc
  map_error-inr f (inr x) h = cc

pub guard-inr {ℓ} : {E : Type ℓ} (t : Bool) (e : E) {u : Unit {0}} → guard t e ≡ inr u → t ≡ true
guard-inr true e h = refl
guard-inr false e h = cc

-- The other way round: steps that give a value.
pub to_bind {ℓ κ μ} :
    {E : Type ℓ} {A : Type κ} {B : Type μ} (m : E ⊎ A) (f : A → E ⊎ B) {a : A} {r : E ⊎ B}
    → m ≡ inr a
    → f a ≡ r
    → (m >>= f) ≡ r
to_bind m f {a} h k = rw (h) k

pub to_guard {ℓ μ} :
    {E : Type ℓ} {B : Type μ} (t : Bool) (e : E) {m r : E ⊎ B}
    → t ≡ true
    → m ≡ r
    → (guard t e >> m) ≡ r
to_guard true e h k = k
to_guard false e h k = cc
