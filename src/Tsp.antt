-- ===== src/Tsp.antt =====
-- internal/tsp: the verification of timestamp responses. The types that its files share, and what they
-- take from the packages encoding/asn1, crypto, crypto/x509, time, mime and pkcs7, which is the
-- parameter `Libs`. A string of bytes is a list of numbers.
pub mod Status
pub mod GenTime
pub mod Ess
pub mod Verify
use tsa_bench.Base.{
  ℕ, ◌≤◌, ◌<◌, ◌≡◌, Bool, true, false, Option, none, some, List, [], ◌∷◌, ◌⊎◌, inl, inr, ◌||◌,
  length, ℤ, Text, codes, text_eq, if◌then◌else◌, leb, ltb, ◌==◌, map,
}

-- `asn1.RawValue`.
pub record RawValue : Type 0 where
  pub class : ℤ
  pub tag : ℤ
  pub is_compound : Bool
  pub bytes : Text
  pub full_bytes : Text

pub record Extension : Type 0 where
  pub id : Text
  pub critical : Bool

-- The fields of `x509.Certificate` that are read; an object identifier is its dotted text.
pub record Certificate : Type 0 where
  pub raw : Text
  pub subject : Text
  pub issuer : Text
  pub not_after : ℤ
  pub ext_key_usage : List ℤ
  pub unknown_ext_key_usage : List Text
  pub extensions : List Extension

-- The values of `crypto.Hash` that the program names.
pub data Hash : Type 0 where
  sha1 : Hash
  sha224 : Hash
  sha256 : Hash
  sha384 : Hash
  sha512 : Hash

-- `lenientAccuracy` and `lenientTSTInfo`, as far as they are read.
pub record TstInfo : Type 0 where
  pub policy : Option Text
  pub hash_oid : Text
  pub hashed_message : Text
  pub serial_number : ℤ
  pub time : RawValue
  pub accuracy_seconds : ℤ
  pub accuracy_milliseconds : ℤ
  pub accuracy_microseconds : ℤ
  pub nonce : Option ℤ

-- An error of `VerifyWithOpts`: whether `errors.As` finds one of the two x509 types, and its text.
pub record TrustError : Type 0 where
  pub is_x509 : Bool
  pub message : Text

pub record Libs : Type 1 where
  -- `asn1.Unmarshal` into a RawValue, an int, an ObjectIdentifier, a BitString, the response and the
  -- TSTInfo: the value and the bytes behind it, or an error.
  pub raw_value : Text → Text ⊎ (RawValue × Text)
  pub int_value : Text → Text ⊎ (ℤ × Text)
  pub oid_value : Text → Text ⊎ Text
  pub bit_string : Text → Text ⊎ List Bool
  pub raw_token : Text → Text ⊎ Text
  pub tst_info : Text → Text ⊎ TstInfo
  -- `time.Parse` in the layout 20060102150405Z0700, in nanoseconds.
  pub parse_time : Text → Text ⊎ ℤ
  -- `mime.ParseMediaType`: the media type.
  pub media_type : Text → Option Text
  -- A parsed CMS token of package pkcs7.
  pub Cms : Type 0
  pub parse_cms : Text → Text ⊎ Cms
  pub content : Cms → Text
  pub certificates : Cms → List Certificate
  pub only_signer : Cms → Option Certificate
  pub signed_attribute : Cms → Text → Option RawValue
  -- `VerifyWithOpts` with the trust anchors, the intermediates and the time.
  pub Roots : Type 0
  pub verify_with : Cms → Roots → List Certificate → ℤ → Option TrustError
  -- `Hash.Available` and the digest of some bytes.
  pub available : Hash → Bool
  pub digest : Hash → Text → Text
  -- What `strings.Map` does to bytes that are not UTF-8; `%q`; a Duration rounded to milliseconds; and one as text.
  pub repair : Text → Text
  pub quote : Text → Text
  pub round_ms : ℤ → ℤ
  pub show_duration : ℤ → Text

-- What the loops over encoded fields rely on: a value takes at least one byte.
abbrev pub Shrinking : Libs → Type 0
Shrinking lib =
    (der : Text) (v : RawValue) (rest : Text)
    → lib.raw_value der ≡ inr (v, rest)
    → length rest < length der

-- `sanitize`: control characters, commas and quotes are blanks.
unfoldable pub blank_out : ℕ → ℕ
blank_out c = if ltb c 32 || (c == 127 || (c == 44 || c == 34)) then 32 else c

pub sanitize : Libs → Text → Text
unfolding blank_out
sanitize lib s = map blank_out (lib.repair s)

unfoldable pub same_hash : Hash → Hash → Bool
same_hash sha1 sha1 = true
same_hash sha224 sha224 = true
same_hash sha256 sha256 = true
same_hash sha384 sha384 = true
same_hash sha512 sha512 = true
same_hash _ _ = false

-- `%v` of a hash.
pub hash_name : Hash → Text
hash_name sha1 = codes "SHA-1"
hash_name sha224 = codes "SHA-224"
hash_name sha256 = codes "SHA-256"
hash_name sha384 = codes "SHA-384"
hash_name sha512 = codes "SHA-512"

-- `digestOIDs`.
unfoldable pub digest_oid : Text → Option Hash
digest_oid t =
    if text_eq t (codes "1.3.14.3.2.26")
    then some sha1
    else if text_eq t (codes "2.16.840.1.101.3.4.2.1")
    then some sha256
    else if text_eq t (codes "2.16.840.1.101.3.4.2.2")
    then some sha384
    else if text_eq t (codes "2.16.840.1.101.3.4.2.3")
    then some sha512
    else if text_eq t (codes "2.16.840.1.101.3.4.2.4")
    then some sha224
    else none
