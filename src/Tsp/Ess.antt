-- ===== src/Tsp/Ess.antt =====
-- internal/tsp/ess.go: the binding of the signer's certificate by a SigningCertificate attribute. The
-- loop over its entries runs on fuel, one step for each byte and one more.
pub mod Ends
use tsa_bench.Base.{
  ℕ, zero, suc, ◌+◌, Bool, true, false, not, ◌&&◌, Option, none, some, List, [], ◌∷◌, ◌++◌, ◌⊎◌,
  inl, inr, length, ℤ, pos, eqb_ℤ, Text, codes, text_eq, is_empty, decimal, present, ◌>>=◌, ◌>>◌,
  guard, map_error, label, if◌then◌else◌,
}
use tsa_bench.Tsp.{RawValue, Libs, Hash, sha1, sha256, hash_name, Certificate, digest_oid}

pub record EssResult : Type 0 where
  pub present : Bool
  pub version : Text
  pub matched : Bool
  pub reason : Text

-- How the walk over the entries ends: a reason for a failure, or the number of entries seen if none
-- matched, or a match.
pub data Walk : Type 0 where
  failed : Text → Walk
  unmatched : ℕ → Walk
  matched : Walk

module _ (lib : Libs) where
  open lib use {raw_value, oid_value, signed_attribute, available, digest, Cms}

  pub digest_cert : Hash → Text → Text ⊎ Text
  digest_cert sha1 der = inr (digest sha1 der)
  digest_cert h der =
      if available h
      then inr (digest h der)
      else inl (codes "hash " ++ hash_name h ++ codes " is not available in this build")

  -- The part of `essCertIDMatches` on a leading algorithm identifier: the hash and the field behind it.
  pub read_algorithm : RawValue → Text → Text ⊎ (Hash × RawValue)
  unfolding digest_oid
  read_algorithm field rest = do
    alg ← map_error (λ _. codes "cannot decode ESSCertID hash algorithm") (oid_value field.bytes)
    known ← present (digest_oid alg) (codes "ESSCertID uses unsupported hash algorithm " ++ alg)
    (next, _) ← map_error (λ _. codes "cannot decode ESSCertID certHash") (raw_value rest)
    inr (known, next)

  pub ess_cert_id_matches : Text → Certificate → Bool → Text ⊎ Bool
  unfolding digest_cert read_algorithm
  ess_cert_id_matches der signer v2 = do
    (field, rest) ← map_error (λ _. codes "cannot decode ESSCertID body") (raw_value der)
    (h, hash_field) ←
        if v2 && (eqb_ℤ field.tag (pos 16) && field.is_compound)
        then read_algorithm field rest
        else inr (if v2 then sha256 else sha1, field)
    guard (eqb_ℤ hash_field.tag (pos 4)) (codes "ESSCertID certHash is not an OCTET STRING")
    got ← digest_cert h signer.raw
    inr (text_eq hash_field.bytes got)

  -- The loop of `matchESS` over the entries, with the number of those seen.
  pub walk_entries : ℕ → Text → Certificate → Bool → ℕ → Option Walk
  unfolding ess_cert_id_matches
  walk_entries zero rest signer v2 found = none
  walk_entries (suc fuel) rest signer v2 found = elim (is_empty rest) [
    | true ↦ some (unmatched found)
    | false ↦ elim (raw_value rest) [
      | inl e ↦ some (failed (codes "cannot decode ESSCertID: " ++ e))
      | inr (cert_id, rest') ↦ elim (ess_cert_id_matches cert_id.bytes signer v2) [
        | inl e ↦ some (failed e)
        | inr ok ↦ elim ok [
          | true ↦ some matched
          | false ↦ walk_entries fuel rest' signer v2 (found + 1)
        ]
      ]
    ]
  ]

  -- The reason with which the walk fails; none for a match.
  pub walk_reason : Option Walk → Option Text
  walk_reason none = some []
  walk_reason (some (failed e)) = some e
  walk_reason (some (unmatched zero)) =
      some (codes "SigningCertificate attribute contains no ESSCertID")
  walk_reason (some (unmatched (suc n))) = some (
      codes "none of the "
      ++ decimal (suc n)
      ++ codes " ESSCertID entries match the signer certificate")
  walk_reason (some matched) = none

  -- The reason with which `matchESS` fails.
  pub mismatch : RawValue → Certificate → Bool → Option Text
  unfolding walk_entries walk_reason
  mismatch raw signer v2 =
      if not (eqb_ℤ raw.tag (pos 16) && raw.is_compound)
      then some (codes "SigningCertificate attribute is not a SEQUENCE")
      else elim (raw_value raw.bytes) [
        | inl e ↦ some (codes "cannot decode ESSCertID sequence: " ++ e)
        | inr (certs, _) ↦
            if not (eqb_ℤ certs.tag (pos 16) && certs.is_compound)
            then some (codes "ESSCertID container is not a SEQUENCE")
            else walk_reason (walk_entries (length certs.bytes + 1) certs.bytes signer v2 0)
      ]

  pub match_ess : RawValue → Certificate → Text → Bool → EssResult
  unfolding mismatch
  match_ess raw signer version v2 = elim (mismatch raw signer v2) [
    | none ↦ record { present = true; version = version; matched = true; reason = [] }
    | some why ↦ record { present = true; version = version; matched = false; reason = why }
  ]

  -- A signer that is nil is none.
  pub check_ess_binding : Cms → Option Certificate → EssResult
  unfolding match_ess
  check_ess_binding p7 none = record {
    present = false;
    version = [];
    matched = false;
    reason = codes "no signer certificate";
  }
  check_ess_binding p7 (some signer) =
      elim (signed_attribute p7 (codes "1.2.840.113549.1.9.16.2.47")) [
        | some raw ↦ match_ess raw signer (codes "V2") true
        | none ↦ elim (signed_attribute p7 (codes "1.2.840.113549.1.9.16.2.12")) [
          | some raw ↦ match_ess raw signer (codes "V1") false
          | none ↦ record { present = false; version = []; matched = false; reason = [] }
        ]
      ]
