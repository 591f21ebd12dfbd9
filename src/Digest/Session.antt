-- ===== src/Digest/Session.antt =====
-- The shared challenge against a reference that keeps only the last challenge accepted and how
-- many requests were answered since.
use tsa_bench.Base.{
  ℕ, ◌+◌, ◌%◌, ◌^◌, ◌≡◌, refl, ap, ◌∙◌, ◌⊎◌, inl, inr, Option, none, some, List, [], ◌∷◌, Text,
  is_empty, not, Bool-cases, if◌then◌else◌, map_error, ◌>>=◌,
}
use tsa_bench.Digest.Reader.{Challenge, ChallengeError, parse_challenge}
use tsa_bench.Digest.Answer.{Hashes, digest_header, hex8}
use tsa_bench.Digest.State.{
  DigestState, no_state, Credentials, Target, asked, with_digest, hash_credential, set_challenge,
  store_challenge, apply_digest, SetError, refused,
}

-- A WWW-Authenticate header that is stored, or a request that is answered.
pub data Move : Type 0 where
  hear : Text → Move
  answer : Target → Move

abbrev keep_or : Credentials → SetError ⊎ Credentials → Credentials
keep_or cr (inl e) = cr
keep_or cr (inr cr') = cr'

pub move : Hashes → Credentials → Move → Credentials
unfolding set_challenge apply_digest
move h cr (hear header) = keep_or cr (set_challenge h cr header)
move h cr (answer t) = (apply_digest h cr t).1

pub moves : Hashes → Credentials → List Move → Credentials
unfolding move
moves h cr [] = cr
moves h cr (m ∷ ms) = moves h (move h cr m) ms

-- The reference.
pub data Session : Type 0 where
  unheard : Session
  heard : Challenge → ℕ → Session

abbrev hear_as : Session → ChallengeError ⊎ Challenge → Session
hear_as s (inl e) = s
hear_as s (inr c) = heard c 0

abbrev pub session_step : Session → Move → Session
session_step s (hear header) = hear_as s (parse_challenge header)
session_step unheard (answer t) = unheard
session_step (heard c n) (answer t) =
    if not (is_empty c.nonce) then heard c ((n + 1) % 2 ^ 64) else heard c n

abbrev pub session : Session → List Move → Session
session s [] = s
session s (m ∷ ms) = session (session_step s m) ms

-- What the reference answers.
abbrev pub session_answer : Hashes → Credentials → Target → Session → Option Text
session_answer h cr t unheard = none
session_answer h cr t (heard c n) =
    if not (is_empty c.nonce)
    then some (
        digest_header h (asked cr t) c (hash_credential h cr c.algorithm c.realm)
          (hex8 ((n + 1) % 2 ^ 64)))
    else none

abbrev state_of : Hashes → Credentials → Session → DigestState
state_of h cr unheard = no_state
state_of h cr (heard c n) = record (store_challenge (hash_credential h cr c.algorithm c.realm) c) {
  nc = n;
}

abbrev stands : Hashes → Credentials → Session → Credentials
stands h cr s = with_digest (state_of h cr s) cr

hear_case :
    (h : Hashes) (cr : Credentials) (s : Session) (r : ChallengeError ⊎ Challenge)
    → keep_or (stands h cr s) (
        map_error refused r >>= λ c. inr (
          with_digest
            (store_challenge (hash_credential h (stands h cr s) c.algorithm c.realm) c)
            (stands h cr s)))
      ≡ stands h cr (hear_as s r)
unfolding hash_credential
hear_case h cr s (inl e) = refl
hear_case h cr s (inr c) = refl

move-stands :
    (h : Hashes) (cr : Credentials) (s : Session) (m : Move)
    → move h (stands h cr s) m ≡ stands h cr (session_step s m)
unfolding move apply_digest set_challenge
move-stands h cr s (hear header) = hear_case h cr s (parse_challenge header)
move-stands h cr unheard (answer t) = refl
move-stands h cr (heard c n) (answer t) = elim (Bool-cases (is_empty c.nonce)) [
  | inl e ↦ rw (e) refl
  | inr e ↦ rw (e) refl
]

moves-stands :
    (h : Hashes) (cr : Credentials) (ms : List Move) (s : Session)
    → moves h (stands h cr s) ms ≡ stands h cr (session s ms)
unfolding moves
moves-stands h cr [] s = refl
moves-stands h cr (m ∷ ms) s =
    ap (λ c. moves h c ms) (move-stands h cr s m) ∙ moves-stands h cr ms (session_step s m)

answer-stands :
    (h : Hashes) (cr : Credentials) (t : Target) (s : Session)
    → (apply_digest h (stands h cr s) t).0 ≡ session_answer h cr t s
unfolding apply_digest
answer-stands h cr t unheard = refl
answer-stands h cr t (heard c n) = elim (Bool-cases (is_empty c.nonce)) [
  | inl e ↦ rw (e) refl
  | inr e ↦ rw (e) refl
]

-- After any headers heard and requests answered, in any order, the header that is set on the
-- request is the one of a reference that keeps only the last accepted challenge and the number of
-- answers since, and computes the hash of the credential anew: no header before a challenge is
-- accepted or for an empty nonce, otherwise an answer to that challenge with the count one above.
pub apply_digest-session :
    (h : Hashes) (cr : Credentials) (ms : List Move) (t : Target)
    → cr.digest ≡ some no_state
    → (apply_digest h (moves h cr ms) t).0 ≡ session_answer h cr t (session unheard ms)
apply_digest-session h cr ms t e =
    let start : cr ≡ stands h cr unheard =
      ap (λ (d : Option DigestState). record cr { digest = d }) e in
    ap (λ c. (apply_digest h (moves h c ms) t).0) start
    ∙ ap (λ c. (apply_digest h c t).0) (moves-stands h cr ms unheard)
    ∙ answer-stands h cr t (session unheard ms)
