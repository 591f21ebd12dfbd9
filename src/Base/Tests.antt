-- ===== src/Base/Tests.antt =====
-- Boolean tests on the native numbers, the conditional, and case splits that keep an equation.
use Prim.Native.Nat.{ℕ, ◌≤◌, ◌<◌, compare, Ordering}
use mathlib.Core.Path.{◌≡◌, refl}
use mathlib.Core.Logic.{◌↔◌, ◌⊎◌, inl, inr}
use mathlib.Core.Bool.{Bool, true, false, not, ◌&&◌, ◌||◌}
use mathlib.Core.Option.{Option, none, some}
use native.Mathlib.Omega.{arith}

abbrev pub ltb : ℕ → ℕ → Bool
ltb a b = elim (compare a b) [ Ordering.lt ↦ true | _ ↦ false ]

abbrev pub leb : ℕ → ℕ → Bool
leb a b = elim (compare a b) [ Ordering.gt ↦ false | _ ↦ true ]

infix 50 ◌==◌
abbrev pub ◌==◌ : ℕ → ℕ → Bool
a == b = elim (compare a b) [ Ordering.eq ↦ true | _ ↦ false ]

infix 1 if◌then◌else◌
abbrev pub if◌then◌else◌ {ℓ} : {A : Type ℓ} → Bool → A → A → A
if true then x else y = x
if false then x else y = y

pub ltb→lt : (a b : ℕ) → ltb a b ≡ true → a < b
ltb→lt a b h = ground arith

pub lt→ltb : (a b : ℕ) → a < b → ltb a b ≡ true
lt→ltb a b h = ground arith

pub leb→le : (a b : ℕ) → leb a b ≡ true → a ≤ b
leb→le a b h = ground arith

pub ==_iff : (a b : ℕ) → ((a == b) ≡ true) ↔ (a ≡ b)
==_iff a b = ground arith

pub ruleset tests = (arith, ltb→lt, lt→ltb, leb→le)

pub Bool-cases : (b : Bool) → (b ≡ true) ⊎ (b ≡ false)
Bool-cases true = inl refl
Bool-cases false = inr refl

pub Option-cases {ℓ} : {A : Type ℓ} (o : Option A) → (o ≡ none) ⊎ ((a : A) × (o ≡ some a))
Option-cases none = inl refl
Option-cases (some a) = inr (a, refl)

abbrev pub is_some {ℓ} : {A : Type ℓ} → Option A → Bool
is_some none = false
is_some (some a) = true

-- What holds of both branches of a test, or of all cases of an option, holds of the whole.
pub if_keeps {ℓ κ} :
    {A : Type ℓ} (Q : A → Type κ) (b : Bool) {x y : A} → Q x → Q y → Q (if b then x else y)
if_keeps Q true qx qy = qx
if_keeps Q false qx qy = qy

pub elim_keeps {ℓ κ} :
    {A : Type ℓ} (Q : A → Type κ) (b : Bool) {x y : A}
    → Q x
    → Q y
    → Q (elim b [ true ↦ x | false ↦ y ])
elim_keeps Q true qx qy = qx
elim_keeps Q false qx qy = qy

pub option_keeps {ℓ κ μ} :
    {A : Type ℓ} {B : Type κ} (Q : B → Type μ) (o : Option A) {x : B} {f : A → B}
    → Q x
    → ((a : A) → Q (f a))
    → Q (elim o [ none ↦ x | some a ↦ f a ])
option_keeps Q none qx qf = qx
option_keeps Q (some a) qx qf = qf a

pub sum_keeps {ℓ κ μ ν} :
    {A : Type ℓ} {B : Type κ} {C : Type μ} (Q : C → Type ν) (o : A ⊎ B) {f : A → C} {g : B → C}
    → ((a : A) → Q (f a))
    → ((b : B) → Q (g b))
    → Q (elim o [ inl a ↦ f a | inr b ↦ g b ])
sum_keeps Q (inl a) qf qg = qf a
sum_keeps Q (inr b) qf qg = qg b

-- The same with the equation of the case.
pub sum_cases_keep {ℓ κ μ ν} :
    {A : Type ℓ} {B : Type κ} {C : Type μ} (Q : C → Type ν) (o : A ⊎ B) {f : A → C} {g : B → C}
    → ((a : A) → o ≡ inl a → Q (f a))
    → ((b : B) → o ≡ inr b → Q (g b))
    → Q (elim o [ inl a ↦ f a | inr b ↦ g b ])
sum_cases_keep Q (inl a) qf qg = qf a refl
sum_cases_keep Q (inr b) qf qg = qg b refl

-- Boolean connectives that are true.
pub or_cases : (a b : Bool) → (a || b) ≡ true → (a ≡ true) ⊎ (b ≡ true)
or_cases true b h = inl refl
or_cases false b h = inr h

pub and_true : (a b : Bool) → (a && b) ≡ true → (a ≡ true) × (b ≡ true)
and_true true b h = (refl, h)
and_true false b h = cc

pub not-true : (b : Bool) → not b ≡ true → b ≡ false
not-true true h = cc
not-true false h = refl
