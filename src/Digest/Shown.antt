-- ===== src/Digest/Shown.antt =====
-- An answer is a list of shown fields, each of which the reader takes.
use mathlib.Core.List.{append-nil}
use tsa_bench.Base.{
  subst, present, from_guard, from_bind, if_keeps, ltb, ◌%◌, ◌/◌, length, replicate, if◌then◌else◌,
  to_upper, or_cases, text_eq_sound, leb, ◌-◌, ℕ, zero, suc, ◌≡◌, refl, sym, ap, ◌⊎◌, inl, inr,
  true, not, ◌&&◌, ◌||◌, List, [], ◌∷◌, ◌++◌, arith, Text, codes, is_empty, and_true, Bool-cases,
  all_bytes, text_eq,
}
use tsa_bench.Digest.Reader.{
  ChallengeError, param, lookup, is_session, choose_qop, no_realm, no_nonce, is_supported,
  check_challenge, parse_challenge, Params, Challenge, parse_digest_challenge,
}
use tsa_bench.Digest.Answer.{
  Hashes, Asked, hex8, hex_loop, hex_digit, written, quote_digest, response, algorithm_part,
  opaque_part, qop_part, digest_header,
}
use tsa_bench.Digest.Fields.{Field, quoted, bare, shown, is_bare}
use tsa_bench.Digest.Scan.{listed, listed-append, AllFields}

unfoldable pub algorithm_field : Challenge → List Field
algorithm_field c = if is_empty c.algorithm then [] else bare (codes "algorithm") c.algorithm ∷ []

unfoldable pub opaque_field : Challenge → List Field
opaque_field c = if is_empty c.opaque then [] else quoted (codes "opaque") c.opaque ∷ []

unfoldable pub qop_field : Asked → Challenge → Text → List Field
qop_field a c nc_hex =
    if text_eq c.qop (codes "auth")
    then bare (codes "qop") (codes "auth")
      ∷ bare (codes "nc") nc_hex
      ∷ quoted (codes "cnonce") a.cnonce
      ∷ []
    else []

-- The fields behind the user name.
unfoldable pub later_fields : Hashes → Asked → Challenge → Text → Text → List Field
unfolding algorithm_field opaque_field qop_field
later_fields h a c ha1 nc_hex =
    quoted (codes "realm") c.realm
    ∷ quoted (codes "nonce") c.nonce
    ∷ quoted (codes "uri") a.uri
    ∷ quoted (codes "response") (response h a c ha1 nc_hex)
    ∷ (algorithm_field c ++ (opaque_field c ++ qop_field a c nc_hex))

listed-algorithm_field : (c : Challenge) → listed (algorithm_field c) ≡ algorithm_part c
unfolding listed shown algorithm_field algorithm_part
listed-algorithm_field c = elim (Bool-cases (is_empty c.algorithm)) [
  | inl e ↦ rw (e) refl
  | inr e ↦ rw (e) refl
]

listed-opaque_field : (c : Challenge) → listed (opaque_field c) ≡ opaque_part c
unfolding listed shown opaque_field opaque_part
listed-opaque_field c = elim (Bool-cases (is_empty c.opaque)) [
  | inl e ↦ rw (e) refl
  | inr e ↦ rw (e) refl
]

listed-qop_field :
    (a : Asked) (c : Challenge) (nc_hex : Text)
    → listed (qop_field a c nc_hex) ≡ qop_part a c nc_hex
unfolding listed shown qop_field qop_part
listed-qop_field a c nc_hex = elim (Bool-cases (text_eq c.qop (codes "auth"))) [
  | inl e ↦ rw (e) refl
  | inr e ↦ rw (e) refl
]

listed_end :
    (a : Asked) (c : Challenge) (nc_hex : Text)
    → listed (algorithm_field c ++ (opaque_field c ++ qop_field a c nc_hex))
      ≡ written (algorithm_part c ∷ opaque_part c ∷ qop_part a c nc_hex ∷ [])
listed_end a c nc_hex =
    rw
      (
        listed-append (algorithm_field c) (opaque_field c ++ qop_field a c nc_hex),
        listed-append (opaque_field c) (qop_field a c nc_hex),
        listed-algorithm_field c,
        listed-opaque_field c,
        listed-qop_field a c nc_hex,
        append-nil (qop_part a c nc_hex),
      )
      refl

-- The first texts, then the last one.
abbrev onto : List Text → Text → Text
onto [] t = t
onto (x ∷ xs) t = x ++ onto xs t

pub digest_header-listed :
    (h : Hashes) (a : Asked) (c : Challenge) (ha1 nc_hex : Text)
    → digest_header h a c ha1 nc_hex
      ≡ codes "Digest "
        ++ shown (quoted (codes "username") a.username)
        ++ listed (later_fields h a c ha1 nc_hex)
unfolding digest_header later_fields listed shown
digest_header-listed h a c ha1 nc_hex =
    let front : List Text =
      codes "Digest username="
      ∷ quote_digest a.username
      ∷ codes ", realm="
      ∷ quote_digest c.realm
      ∷ codes ", nonce="
      ∷ quote_digest c.nonce
      ∷ codes ", uri="
      ∷ quote_digest a.uri
      ∷ codes ", response="
      ∷ quote_digest (response h a c ha1 nc_hex)
      ∷ [] in
    ap (onto front) (sym (listed_end a c nc_hex))

upper_bare :
    (c : ℕ) → is_bare (if leb 97 c && leb c 122 then c - 32 else c) ≡ true → is_bare c ≡ true
upper_bare c h = ground arith

to_upper_bare : (s : Text) → all_bytes is_bare (to_upper s) ≡ true → all_bytes is_bare s ≡ true
unfolding to_upper
to_upper_bare [] h = refl
to_upper_bare (c ∷ s) h =
    let (x, y) =
      and_true (is_bare (if leb 97 c && leb c 122 then c - 32 else c))
        (all_bytes is_bare (to_upper s)) h in
    rw (upper_bare c x, to_upper_bare s y) refl

is_supported-bare : (algo : Text) → is_supported algo ≡ true → all_bytes is_bare algo ≡ true
unfolding is_supported
is_supported-bare algo h = to_upper_bare algo (elim (or_cases (text_eq (to_upper algo) []) _ h) [
  | inl e ↦ rw (text_eq_sound (to_upper algo) [] e) refl
  | inr g ↦ elim (or_cases (text_eq (to_upper algo) (codes "MD5")) _ g) [
    | inl e ↦ rw (text_eq_sound (to_upper algo) (codes "MD5") e) refl
    | inr k ↦ elim (or_cases (text_eq (to_upper algo) (codes "SHA-256")) _ k) [
      | inl e ↦ rw (text_eq_sound (to_upper algo) (codes "SHA-256") e) refl
      | inr n ↦ cc
    ]
  ]
])

hex_digit-bare : (n : ℕ) → is_bare (hex_digit (n % 16)) ≡ true
hex_digit-bare n = ground arith

hex_loop-bare :
    (room n : ℕ) (out : Text)
    → all_bytes is_bare out ≡ true
    → all_bytes is_bare (hex_loop room n out) ≡ true
unfolding hex_loop
hex_loop-bare zero n out h = h
hex_loop-bare (suc room) n out h =
    let longer : all_bytes is_bare (hex_digit (n % 16) ∷ out) ≡ true = rw (hex_digit-bare n) h in
    if_keeps (λ t. all_bytes is_bare t ≡ true) (ltb n 16) longer
      (hex_loop-bare room (n / 16) (hex_digit (n % 16) ∷ out) longer)

pad-bare :
    (k : ℕ) (t : Text) → all_bytes is_bare t ≡ true → all_bytes is_bare (replicate k 48 ++ t) ≡ true
pad-bare zero t h = h
pad-bare (suc k) t h = pad-bare k t h

pub hex8-bare : (n : ℕ) → all_bytes is_bare (hex8 n) ≡ true
unfolding hex8
hex8-bare n = pad-bare (8 - length (hex_loop 16 n [])) _ (hex_loop-bare 16 n [] refl)

abbrev algorithm_of : ChallengeError ⊎ Challenge → Text
algorithm_of (inl e) = []
algorithm_of (inr c) = c.algorithm

check_challenge-supported :
    (p : Params) {c : Challenge} → check_challenge p ≡ inr c → is_supported c.algorithm ≡ true
unfolding check_challenge
check_challenge-supported p h =
    let algo = param (codes "algorithm") p in
    let offered = param (codes "qop") p in
    from_guard (not (is_session algo)) _ h λ _ h1. from_guard (is_supported algo) _ h1 λ s h2.
      from_bind (present (lookup (codes "realm") p) no_realm) h2 λ realm _ h3.
        from_bind (present (lookup (codes "nonce") p) no_nonce) h3 λ nonce _ h4.
          from_guard (is_empty offered || not (is_empty (choose_qop offered))) _ h4
            λ _ h5. subst (λ t. is_supported t ≡ true) (ap algorithm_of h5) s

pub parse_challenge-supported :
    (header : Text) {c : Challenge}
    → parse_challenge header ≡ inr c
    → is_supported c.algorithm ≡ true
unfolding parse_challenge
parse_challenge-supported header h =
    from_bind (parse_digest_challenge header) h λ p _ k. check_challenge-supported p k

All-append : (fs gs : List Field) → AllFields fs → AllFields gs → AllFields (fs ++ gs)
All-append [] gs h k = k
All-append (f ∷ fs) gs (h, t) k = (h, All-append fs gs t k)

pub fields_fit :
    (h : Hashes) (a : Asked) (c : Challenge) (ha1 nc_hex : Text)
    → is_supported c.algorithm ≡ true
    → all_bytes is_bare nc_hex ≡ true
    → AllFields (later_fields h a c ha1 nc_hex)
unfolding later_fields algorithm_field opaque_field qop_field
fields_fit h a c ha1 nc_hex s b = (
  refl,
  (
    refl,
    (
      refl,
      (
        refl,
        All-append (algorithm_field c) _
            (if_keeps AllFields (is_empty c.algorithm) tt
              ((refl, is_supported-bare c.algorithm s), tt))
            (All-append (opaque_field c) _ (if_keeps AllFields (is_empty c.opaque) tt (refl, tt)) (
              if_keeps AllFields (text_eq c.qop (codes "auth"))
                ((refl, refl), ((refl, b), (refl, tt))) tt)),
      ),
    ),
  ),
)
