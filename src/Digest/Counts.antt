-- ===== src/Digest/Counts.antt =====
-- `applyDigest` as the two accesses it makes, a read of the challenge and an atomic increment of
-- the count, in any interleaving with `SetChallenge`: which counts go out with which nonce.
use tsa_bench.Base.{
  true, ℕ, zero, suc, ◌+◌, ◌%◌, ◌^◌, ◌<◌, ◌≡◌, refl, ap, ◌∙◌, List, [], ◌∷◌, ◌++◌, arith, Text,
  length,
}
use tsa_bench.Digest.Reader.{Challenge}
use tsa_bench.Digest.State.{DigestState, store_challenge, count_up, holds_nonce}

-- The shared state, the challenges that requests have read and not yet counted, and the nonces and
-- counts sent, the last one in front.
pub record Shared : Type 0 where
  pub state : DigestState
  pub reading : List Challenge
  pub sent : List (Text × ℕ)
  -- What was sent since the last challenge was stored.
  pub recent : List ℕ

abbrev pub at_rest : DigestState → Shared
at_rest d = record { state = d; reading = []; sent = []; recent = [] }

-- One access of any request.
pub data Access : Shared → Shared → Type 0 where
  read :
      {s : Shared}
      → holds_nonce s.state ≡ true
      → Access s (record s { reading = s.state.challenge ∷ s.reading })
  count :
      {s : Shared} (before : List Challenge) (c : Challenge) (later : List Challenge)
      → s.reading ≡ before ++ (c ∷ later)
      → Access s (record s {
        state = count_up s.state;
        reading = before ++ later;
        sent = (c.nonce, (count_up s.state).nc) ∷ s.sent;
        recent = (count_up s.state).nc ∷ s.recent;
      })
  store :
      {s : Shared} (ha1 : Text) (c : Challenge)
      → Access s (record s { state = store_challenge ha1 c; recent = [] })

pub data Accesses : Shared → Shared → Type 0 where
  done : {s : Shared} → Accesses s s
  then : {s t u : Shared} → Access s t → Accesses t u → Accesses s u

-- n, n - 1 and so on down to 1.
abbrev pub countdown : ℕ → List ℕ
countdown zero = []
countdown (suc n) = suc n ∷ countdown n

-- The same as uint64 values.
abbrev wrapped : ℕ → List ℕ
wrapped zero = []
wrapped (suc n) = suc n % 2 ^ 64 ∷ wrapped n

wrapped_small : (n : ℕ) → n < 2 ^ 64 → wrapped n ≡ countdown n
wrapped_small zero h = refl
wrapped_small (suc n) h =
    let small : suc n % 2 ^ 64 ≡ suc n = omega arith in
    rw (small, wrapped_small n (omega arith)) refl

record Counted (s : Shared) : Type 0 where
  nc_is : s.state.nc ≡ length s.recent % 2 ^ 64
  recent_is : s.recent ≡ wrapped (length s.recent)

Access-Counted : {s t : Shared} → Access s t → Counted s → Counted t
Access-Counted (read h) k = record { nc_is = k.nc_is; recent_is = k.recent_is }
Access-Counted (count {s} before c later e) k =
    let up : (s.state.nc + 1) % 2 ^ 64 ≡ suc (length s.recent) % 2 ^ 64 = omega (arith, k.nc_is) in
    record {
      nc_is = up;
      recent_is = rw (up) (ap (◌∷◌ (suc (length s.recent) % 2 ^ 64)) k.recent_is);
    }
Access-Counted (store ha1 c) k = record { nc_is = refl; recent_is = refl }

Accesses-Counted : {s t : Shared} → Accesses s t → Counted s → Counted t
Accesses-Counted done k = k
Accesses-Counted (then a more) k = Accesses-Counted more (Access-Counted a k)

-- However reads, counts and stored challenges interleave from a state with no answers, the counts
-- sent since the last challenge was stored are exactly 1, 2, 3 and so on in the order of sending,
-- each of them once, as long as they are fewer than 2 ^ 64.
pub recent_counts :
    {d : DigestState} {s : Shared}
    → d.nc ≡ 0
    → Accesses (at_rest d) s
    → length s.recent < 2 ^ 64
    → s.recent ≡ countdown (length s.recent)
recent_counts e more small =
    let k = Accesses-Counted more (record { nc_is = e; recent_is = refl }) in
    k.recent_is ∙ wrapped_small _ small

-- Across a stored challenge a count can repeat: two requests that read the same challenge before
-- another one is stored can both send its nonce with count 1, one of them before and one after the
-- new challenge, whatever the two challenges are.
pub count_repeats :
    {d : DigestState} (ha1 : Text) (c : Challenge)
    → d.nc ≡ 0
    → holds_nonce d ≡ true
    → (s : Shared) × Accesses (at_rest d) s
      × (s.sent ≡ (d.challenge.nonce, 1) ∷ (d.challenge.nonce, 1) ∷ [])
count_repeats {d} ha1 c e h = (
  _,
  then (read h) (
      then (read h) (
        then (count [] d.challenge (d.challenge ∷ []) refl)
          (then (store ha1 c) (then (count [] d.challenge [] refl) done)))),
  rw (e) refl,
)
