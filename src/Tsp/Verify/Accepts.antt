-- ===== src/Tsp/Verify/Accepts.antt =====
-- What a response must satisfy to be a success, and that it does if `Verify` says so.
use tsa_bench.Base.{
  ℕ, ◌≡◌, ◌≢◌, refl, sym, ◌∙◌, ap, subst, Bool, true, false, not, ◌||◌, Option, none, some, List,
  [], ◌∷◌, ◌⊎◌, inl, inr, ℤ, pos, eqb_ℤ, Text, text_eq, text_eq_sound, text_eq_refl, to_lower,
  is_empty, present, map_error, from_bind, from_guard, guard-inr, present-inr, map_error-inr,
  eqb_ℤ_iff, or_cases, and_true, not-true,
}
use tsa_bench.ErrClass.{Error, from_http_status}
use tsa_bench.Tsp.{Libs, Hash, sha1, sha224, sha256, sha384, sha512, Certificate, same_hash}
use tsa_bench.Tsp.Status.{StatusInfo, parse_status_info}
use tsa_bench.Tsp.GenTime.{Timestamp}
use tsa_bench.Tsp.Ess.{EssResult, check_ess_binding}
use tsa_bench.Tsp.Verify.{
  Request, HttpResponse, Verifier, content_type_response, check_http, check_content_type,
  status_accepted, accept_status, check_echo, check_signer, modified_warning, unbound_warning,
  is_empty_list,
}

same_hash_sound : (h k : Hash) → same_hash h k ≡ true → h ≡ k
unfolding same_hash
same_hash_sound sha1 sha1 e = refl
same_hash_sound sha224 sha224 e = refl
same_hash_sound sha256 sha256 e = refl
same_hash_sound sha384 sha384 e = refl
same_hash_sound sha512 sha512 e = refl
same_hash_sound _ _ e = cc

some_cons {ℓ} : {A : Type ℓ} (xs : List A) → is_empty_list xs ≡ false → xs ≢ []
some_cons [] e h = cc
some_cons (x ∷ xs) e h = cc

same_hash_refl : (h : Hash) → same_hash h h ≡ true
unfolding same_hash
same_hash_refl sha1 = refl
same_hash_refl sha224 = refl
same_hash_refl sha256 = refl
same_hash_refl sha384 = refl
same_hash_refl sha512 = refl

nonempty {ℓ} : {A : Type ℓ} (xs : List A) → xs ≢ [] → is_empty_list xs ≡ false
nonempty [] h = absurd (h refl)
nonempty (x ∷ xs) h = refl

bound_true : (p m : Bool) → (p ≡ false) ⊎ (m ≡ true) → (not p || m) ≡ true
bound_true true m h = elim h [ inl e ↦ cc | inr e ↦ e ]
bound_true false m h = refl

required_true : (p r : Bool) → (p ≡ true) ⊎ (r ≡ false) → (p || not r) ≡ true
required_true true r h = refl
required_true false r h = elim h [ inl e ↦ cc | inr e ↦ ap not e ]

module _ (lib : Libs) (v : Verifier lib) where
  -- Steps 1 to 3.
  pub record StatusAccepted (resp : HttpResponse) (status : StatusInfo) : Type 0 where
    pub http : from_http_status resp.status_code ≡ some none
    pub named : is_empty resp.content_type ≡ false
    pub media :
        (mt : Text) × (lib.media_type resp.content_type ≡ some mt)
        × (to_lower mt ≡ to_lower content_type_response)
    pub parsed : parse_status_info lib resp.body ≡ inr status
    pub granted :
        (status.status ≡ pos 0) ⊎ ((status.status ≡ pos 1) × (v.allow_granted_with_mods ≡ true))
    pub token : status.has_token ≡ true

  -- Steps 5 and 6.
  pub record Echoed (req : Request) (ts : Timestamp) : Type 0 where
    pub nonce : ts.nonce ≡ some req.nonce
    pub hash_algorithm : ts.hash_algorithm ≡ req.hash_algorithm
    pub imprint : ts.hashed_message ≡ req.imprint

  -- Steps 7 and 8.
  pub record Trusted (ts : Timestamp) (p7 : lib.Cms) (signer : Certificate) (ess : EssResult)
      : Type 0 where
    pub certificates : ts.certificates ≢ []
    pub signed : lib.only_signer p7 ≡ some signer
    pub binding : check_ess_binding lib p7 (some signer) ≡ ess
    pub bound : (ess.present ≡ false) ⊎ (ess.matched ≡ true)
    pub required : (ess.present ≡ true) ⊎ (v.require_ess ≡ false)

  check_http_sound :
      (status_code : ℕ) {u : Unit {0}}
      → check_http status_code ≡ inr u
      → from_http_status status_code ≡ some none
  unfolding check_http
  check_http_sound status_code h = go (from_http_status status_code) refl
    where
      go :
          (r : Option (Option Error))
          → from_http_status status_code ≡ r
          → from_http_status status_code ≡ some none
      go none e = cc
      go (some none) e = e
      go (some (some x)) e = cc

  check_content_type_sound :
      (given : Text) {u : Unit {0}}
      → check_content_type lib given ≡ inr u
      → (is_empty given ≡ false)
        × ((mt : Text) × (lib.media_type given ≡ some mt)
            × (to_lower mt ≡ to_lower content_type_response))
  unfolding check_content_type
  check_content_type_sound given h = from_guard (not (is_empty given)) _ h λ some_type h1.
      from_bind (present (lib.media_type given) _) h1 λ mt e h2. (
        not-true (is_empty given) some_type,
        (
          mt,
          present-inr (lib.media_type given) _ e,
          text_eq_sound (to_lower mt) (to_lower content_type_response)
              (guard-inr (text_eq (to_lower mt) (to_lower content_type_response)) _ h2),
        ),
      )

  status_accepted_sound :
      (s : ℤ)
      → status_accepted lib v s ≡ true
      → (s ≡ pos 0) ⊎ ((s ≡ pos 1) × (v.allow_granted_with_mods ≡ true))
  unfolding status_accepted
  status_accepted_sound s h = elim (or_cases (eqb_ℤ s (pos 0)) _ h) [
    | inl e ↦ inl ((eqb_ℤ_iff s (pos 0)).0 e)
    | inr e ↦
        let (modified, allowed) = and_true (eqb_ℤ s (pos 1)) v.allow_granted_with_mods e in
        inr ((eqb_ℤ_iff s (pos 1)).0 modified, allowed)
  ]

  pub accept_status_sound :
      (resp : HttpResponse) {st : StatusInfo × List Text}
      → accept_status lib v resp ≡ inr st
      → StatusAccepted resp st.0
  unfolding accept_status
  accept_status_sound resp {st} h = from_bind (check_http resp.status_code) h λ _ http h1.
      from_bind (check_content_type lib resp.content_type) h1 λ _ content h2.
        from_bind (map_error _ (parse_status_info lib resp.body)) h2 λ status parsed h3.
          from_guard (status_accepted lib v status.status) _ h3 λ granted h4.
            from_guard status.has_token _ h4 λ token h5.
              let same : status ≡ st.0 = cc in
              subst (λ s. StatusAccepted resp s) same
                (record {
                  http = check_http_sound resp.status_code http;
                  named = (check_content_type_sound resp.content_type content).0;
                  media = (check_content_type_sound resp.content_type content).1;
                  parsed = map_error-inr _ (parse_status_info lib resp.body) parsed;
                  granted = status_accepted_sound status.status granted;
                  token = token;
                })

  pub check_echo_sound :
      (req : Request) (ts : Timestamp) {u : Unit {0}}
      → check_echo lib v req ts ≡ inr u
      → Echoed req ts
  unfolding check_echo
  check_echo_sound req ts h = from_bind (present ts.nonce _) h λ nonce e h1.
      from_guard (eqb_ℤ nonce req.nonce) _ h1 λ same_nonce h2.
        from_guard (same_hash ts.hash_algorithm req.hash_algorithm) _ h2 λ same_algorithm h3.
          record {
            nonce = present-inr ts.nonce _ e ∙ ap some ((eqb_ℤ_iff nonce req.nonce).0 same_nonce);
            hash_algorithm = same_hash_sound ts.hash_algorithm req.hash_algorithm same_algorithm;
            imprint =
                text_eq_sound ts.hashed_message req.imprint
                  (guard-inr (text_eq ts.hashed_message req.imprint) _ h3);
          }

  pub check_signer_sound :
      (ts : Timestamp) (p7 : lib.Cms) {st : Certificate × EssResult × List Text}
      → check_signer lib v ts p7 ≡ inr st
      → Trusted ts p7 st.0 st.1
  unfolding check_signer
  check_signer_sound ts p7 {st} h =
      from_guard (not (is_empty_list ts.certificates)) _ h λ some_certificate h1.
        from_bind (present (lib.only_signer p7) _) h1 λ signer signed h2.
          let ess = check_ess_binding lib p7 (some signer) in
          from_guard (not ess.present || ess.matched) _ h2 λ bound h3.
            from_guard (ess.present || not v.require_ess) _ h3 λ required h4.
              let same_signer : signer ≡ st.0 = cc in
              let same_ess : ess ≡ st.1 = cc in
              record {
                certificates =
                    some_cons ts.certificates
                      (not-true (is_empty_list ts.certificates) some_certificate);
                signed = present-inr (lib.only_signer p7) _ signed ∙ ap some same_signer;
                binding =
                    ap (λ (c : Certificate). check_ess_binding lib p7 (some c)) (sym same_signer)
                    ∙ same_ess;
                bound =
                    subst (λ (r : EssResult). (r.present ≡ false) ⊎ (r.matched ≡ true)) same_ess
                      (elim (or_cases (not ess.present) ess.matched bound) [
                        | inl e ↦ inl (not-true ess.present e)
                        | inr e ↦ inr e
                      ]);
                required =
                    subst (λ (r : EssResult). (r.present ≡ true) ⊎ (v.require_ess ≡ false)) same_ess
                      (elim (or_cases ess.present (not v.require_ess) required) [
                        | inl e ↦ inl e
                        | inr e ↦ inr (not-true v.require_ess e)
                      ]);
              }

  -- The other way round.
  check_content_type_complete :
      (given mt : Text)
      → is_empty given ≡ false
      → lib.media_type given ≡ some mt
      → to_lower mt ≡ to_lower content_type_response
      → check_content_type lib given ≡ inr tt
  unfolding check_content_type
  check_content_type_complete given mt some_type e same =
      let equal : text_eq (to_lower mt) (to_lower content_type_response) ≡ true =
        ap (λ t. text_eq t (to_lower content_type_response)) same
        ∙ text_eq_refl (to_lower content_type_response) in
      rw (some_type, e, equal, check_content_type) refl

  status_accepted_complete :
      (s : ℤ)
      → (s ≡ pos 0) ⊎ ((s ≡ pos 1) × (v.allow_granted_with_mods ≡ true))
      → status_accepted lib v s ≡ true
  unfolding status_accepted
  status_accepted_complete s (inl e) = rw (e) refl
  status_accepted_complete s (inr (e, allowed)) = rw (e, allowed) refl

  pub accept_status_complete :
      (resp : HttpResponse) (status : StatusInfo)
      → StatusAccepted resp status
      → accept_status lib v resp ≡ inr (status, modified_warning lib status)
  unfolding accept_status
  accept_status_complete resp status a =
      let (mt, e, same) = a.media in
      let http : check_http resp.status_code ≡ inr tt = rw (a.http, check_http) refl in
      let content = check_content_type_complete resp.content_type mt a.named e same in
      let granted = status_accepted_complete status.status a.granted in
      rw (http, content, a.parsed, granted, a.token, accept_status) refl

  pub check_echo_complete :
      (req : Request) (ts : Timestamp) → Echoed req ts → check_echo lib v req ts ≡ inr tt
  unfolding check_echo
  check_echo_complete req ts e =
      let same_nonce = (eqb_ℤ_iff req.nonce req.nonce).1 refl in
      let same_algorithm : same_hash ts.hash_algorithm req.hash_algorithm ≡ true =
        ap (λ h. same_hash h req.hash_algorithm) e.hash_algorithm
        ∙ same_hash_refl req.hash_algorithm in
      let same_imprint : text_eq ts.hashed_message req.imprint ≡ true =
        ap (λ t. text_eq t req.imprint) e.imprint ∙ text_eq_refl req.imprint in
      rw (e.nonce, same_nonce, same_algorithm, same_imprint, check_echo) refl

  pub check_signer_complete :
      (ts : Timestamp) (p7 : lib.Cms) (signer : Certificate) (ess : EssResult)
      → Trusted ts p7 signer ess
      → check_signer lib v ts p7 ≡ inr (signer, ess, unbound_warning lib ess)
  unfolding check_signer
  check_signer_complete ts p7 signer ess t =
      let some_certificate = nonempty ts.certificates t.certificates in
      let bound = bound_true ess.present ess.matched t.bound in
      let required = required_true ess.present v.require_ess t.required in
      rw (some_certificate, t.signed, t.binding, bound, required, check_signer) refl
