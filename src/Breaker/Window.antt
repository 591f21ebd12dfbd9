-- ===== src/Breaker/Window.antt =====
-- The ring buffer of `Breaker` holds the last outcomes, and its counters count them.
use Prim.Native.Nat.{min}
use tsa_bench.Base.{
  sym, ◌%◌, ◌≢◌, ℕ, zero, suc, ◌+◌, ◌-◌, ◌≤◌, ◌<◌, ◌≡◌, refl, Bool, true, false, List, [], ◌∷◌,
  arith, length, length-set, length-replicate, get_or, set, take, replicate, ltb, ◌==◌, ℤ, Float64,
  if◌then◌else◌,
}
use tsa_bench.Breaker.{Breaker, new, file_outcome}

-- How many outcomes of a list failed.
abbrev pub failed_in : List Bool → ℕ
failed_in [] = 0
failed_in (true ∷ h) = suc (failed_in h)
failed_in (false ∷ h) = failed_in h

-- How many of the newest outcomes failed in a row.
abbrev pub streak : List Bool → ℕ
streak [] = 0
streak (true ∷ h) = suc (streak h)
streak (false ∷ h) = 0

-- The slot that holds the outcome `i` places before the newest.
abbrev pub slot : ℕ → ℕ → ℕ → ℕ
slot w place i = if ltb i place then place - 1 - i else place + w - 1 - i

failed_in-take-suc :
    (n : ℕ) (h : List Bool)
    → failed_in (take (suc n) h) ≡ failed_in (take n h) + (if get_or h n false then 1 else 0)
failed_in-take-suc zero [] = refl
failed_in-take-suc zero (true ∷ h) = refl
failed_in-take-suc zero (false ∷ h) = refl
failed_in-take-suc (suc n) [] = refl
failed_in-take-suc (suc n) (true ∷ h) = omega (arith, failed_in-take-suc n h)
failed_in-take-suc (suc n) (false ∷ h) = failed_in-take-suc n h

get_or-beyond : (h : List Bool) (n : ℕ) → length h ≤ n → get_or h n false ≡ false
get_or-beyond [] n p = refl
get_or-beyond (x ∷ h) zero p = absurd (omega arith)
get_or-beyond (x ∷ h) (suc n) p = get_or-beyond h n (omega arith)

get_or-set :
    (l : List Bool) (i j : ℕ) (v : Bool)
    → i < length l
    → get_or (set l i v) j false ≡ (if i == j then v else get_or l j false)
get_or-set [] i j v p = absurd (omega arith)
get_or-set (x ∷ l) zero zero v p = refl
get_or-set (x ∷ l) zero (suc j) v p = ground arith
get_or-set (x ∷ l) (suc i) zero v p = ground arith
get_or-set (x ∷ l) (suc i) (suc j) v p = ground (arith, get_or-set l i j v (omega arith))

get_or-replicate : (n i : ℕ) → get_or (replicate n false) i false ≡ false
get_or-replicate zero i = refl
get_or-replicate (suc n) zero = refl
get_or-replicate (suc n) (suc i) = get_or-replicate n i

slot_newest : (w place : ℕ) → place < w → slot w ((place + 1) % w) 0 ≡ place
slot_newest w place p = grind arith

slot_older :
    (w place i : ℕ)
    → place < w
    → suc i < w
    → (slot w ((place + 1) % w) (suc i) ≡ slot w place i) × (slot w place i ≢ place)
slot_older w place i p q = (grind arith, grind arith)

slot_oldest : (w place : ℕ) → place < w → slot w place (w - 1) ≡ place
slot_oldest w place p = ground arith

take-zero-failed : (w : ℕ) → failed_in (take w []) ≡ 0
take-zero-failed zero = refl
take-zero-failed (suc w) = refl

-- The window slides: the new outcome comes in and, if the window is full, the oldest goes out.
failed_in-slide :
    (w : ℕ) (h : List Bool) (o : Bool)
    → 1 ≤ w
    → failed_in (take w (o ∷ h)) + (if get_or h (w - 1) false then 1 else 0)
      ≡ (if o then 1 else 0) + failed_in (take w h)
failed_in-slide zero h o p = absurd (omega arith)
failed_in-slide (suc n) h true p =
    let e : suc n - 1 ≡ n = omega arith in rw e (omega (arith, failed_in-take-suc n h))
failed_in-slide (suc n) h false p =
    let e : suc n - 1 ≡ n = omega arith in rw e (omega (arith, failed_in-take-suc n h))

module _ {float : Float64} where
  -- A breaker that has filed the outcomes `h`, newest first.
  pub record Holds (b : Breaker float) (h : List Bool) : Type 0 where
    pub windowed : 1 ≤ b.window
    pub placed : b.place < b.window
    pub sized : length b.recent ≡ b.window
    pub kept :
        (i : ℕ) → i < b.window → get_or b.recent (slot b.window b.place i) false ≡ get_or h i false
    pub filled : b.filled ≡ min b.window (length h)
    pub failures : b.failures ≡ failed_in (take b.window h)
    pub consecutive : b.consecutive ≡ streak h

  -- A new breaker holds no outcome, for every window, also one below 1.
  pub new-Holds : (r : float.F) (w c : ℤ) → Holds (new float r w c) []
  unfolding new
  new-Holds r w c = record {
    windowed = ground arith;
    placed = ground arith;
    sized = length-replicate _ false;
    kept = λ i p.
        get_or-replicate (new float r w c).window
          (slot (new float r w c).window (new float r w c).place i);
    filled = omega arith;
    failures = sym (take-zero-failed _);
    consecutive = refl;
  }

  module _ {b : Breaker float} {h : List Bool} (v : Holds b h) (o : Bool) where
    file_outcome-kept :
        (i : ℕ)
        → i < b.window
        → get_or
            (file_outcome float b o).recent
            (slot b.window (file_outcome float b o).place i)
            false
          ≡ get_or (o ∷ h) i false
    unfolding file_outcome
    file_outcome-kept zero p =
        rw (slot_newest b.window b.place v.placed)
          (ground (arith, v.sized, v.placed, get_or-set b.recent b.place b.place o))
    file_outcome-kept (suc i) p =
        let (same, other) = slot_older b.window b.place i v.placed p in
        rw same (
          ground (
            arith,
            v.sized,
            v.placed,
            other,
            v.kept i,
            get_or-set b.recent b.place (slot b.window b.place i) o,
          ))

    file_outcome-failures : (file_outcome float b o).failures ≡ failed_in (take b.window (o ∷ h))
    unfolding file_outcome
    file_outcome-failures = ground (
      arith,
      v.failures,
      v.filled,
      v.windowed,
      v.placed,
      v.kept (b.window - 1),
      slot_oldest b.window b.place,
      get_or-beyond h (b.window - 1),
      failed_in-slide b.window h o,
    )

    -- Filing an outcome puts it in front of the list that the breaker holds.
    pub file_outcome-Holds : Holds (file_outcome float b o) (o ∷ h)
    unfolding file_outcome
    file_outcome-Holds = record {
      windowed = v.windowed;
      placed = ground (arith, v.windowed);
      sized = ground (arith, v.sized, length-set b.recent b.place o);
      kept = file_outcome-kept;
      filled = ground (arith, v.filled);
      failures = file_outcome-failures;
      consecutive = ground (arith, v.consecutive);
    }
