-- ===== src/Tsp/Status.antt =====
-- internal/tsp/statusinfo.go: PKIStatusInfo. A loop over encoded fields runs on fuel, and none stands
-- for its end; `parse_status_info` gives it one step for each byte and one more.
pub mod Ends
use tsa_bench.Base.{
  ℕ, zero, suc, ◌+◌, ◌≤◌, ◌<◌, ◌≡◌, ◌≢◌, Bool, true, false, not, ◌&&◌, ◌||◌, Option, none, some,
  List, [], ◌∷◌, ◌++◌, ◌⊎◌, inl, inr, length, take, ℤ, pos, negsuc, eqb_ℤ, ltb, ◌==◌, Text, codes,
  is_empty, join, decimal, ◌>>=◌, ◌>>◌, guard, label, if◌then◌else◌, arith, refl, Bool-cases,
  Option-cases,
}
use tsa_bench.Tsp.{RawValue, Libs, Shrinking, sanitize}

abbrev pub granted : ℤ
granted = pos 0

abbrev pub granted_with_mods : ℤ
granted_with_mods = pos 1

abbrev pub lookup {ℓ} : {A : Type ℓ} → ℕ → List (ℕ × A) → Option A
lookup n [] = none
lookup n ((k, a) ∷ table) = if k == n then some a else lookup n table

abbrev pub status_names : List (ℕ × Text)
status_names =
    (0, codes "granted")
    ∷ (1, codes "grantedWithMods")
    ∷ (2, codes "rejection")
    ∷ (3, codes "waiting")
    ∷ (4, codes "revocationWarning")
    ∷ (5, codes "revocationNotification")
    ∷ []

abbrev pub decimal_ℤ : ℤ → Text
decimal_ℤ (pos n) = decimal n
decimal_ℤ (negsuc n) = codes "-" ++ decimal (suc n)

-- `PKIStatus.String`.
pub status_name : ℤ → Text
status_name (pos n) = elim (lookup n status_names) [
  | some t ↦ t
  | none ↦ codes "unknown(" ++ decimal n ++ codes ")"
]
status_name (negsuc n) = codes "unknown(" ++ decimal_ℤ (negsuc n) ++ codes ")"

abbrev pub failure_info_names : List (ℕ × Text)
failure_info_names =
    (0, codes "badAlg")
    ∷ (1, codes "badMessageCheck")
    ∷ (2, codes "badRequest")
    ∷ (3, codes "badTime")
    ∷ (5, codes "badDataFormat")
    ∷ (14, codes "timeNotAvailable")
    ∷ (15, codes "unacceptedPolicy")
    ∷ (16, codes "unacceptedExtension")
    ∷ (17, codes "addInfoNotAvailable")
    ∷ (25, codes "systemFailure")
    ∷ []

pub record StatusInfo : Type 0 where
  pub status : ℤ
  pub status_string : Text
  pub failure_info : List Text
  pub has_token : Bool

pub sub_category : StatusInfo → Text
unfolding status_name
sub_category s = elim s.failure_info [
  | [] ↦ status_name s.status
  | f ∷ fs ↦ join (codes "+") (f ∷ fs)
]

pub max_status_string_len : ℕ
max_status_string_len = 200

-- The names of the bits that are set, the first of which stands at position i.
pub decode_failure_info : ℕ → List Bool → List Text
decode_failure_info i [] = []
decode_failure_info i (b ∷ bs) =
    let rest = decode_failure_info (suc i) bs in
    let name : Text = elim (lookup i failure_info_names) [
      | some t ↦ t
      | none ↦ codes "bit" ++ decimal i
    ] in
    if b then name ∷ rest else rest

module _ (lib : Libs) where
  open lib use {raw_value, int_value, bit_string}

  -- The parts of a PKIFreeText, up to the first that does not decode.
  pub free_text_parts : ℕ → Text → Option (List Text)
  free_text_parts zero der = none
  free_text_parts (suc fuel) der = elim (is_empty der) [
    | true ↦ some []
    | false ↦ elim (raw_value der) [
      | inl e ↦ some []
      | inr (v, rest) ↦ elim (free_text_parts fuel rest) [
        | none ↦ none
        | some parts ↦ some (sanitize lib v.bytes ∷ parts)
      ]
    ]
  ]

  pub decode_free_text : Text → Text
  unfolding free_text_parts max_status_string_len
  decode_free_text der =
      let parts : List Text = elim (free_text_parts (length der + 1) der) [
        | none ↦ []
        | some parts ↦ parts
      ] in
      let s = join (codes "; ") parts in
      if ltb max_status_string_len (length s)
      then take max_status_string_len s ++ codes "..."
      else s

  -- One field behind the status.
  pub read_field : RawValue → StatusInfo → Text ⊎ StatusInfo
  unfolding decode_free_text decode_failure_info
  read_field f out =
      if eqb_ℤ f.tag (pos 16) && f.is_compound
      then inr (record out { status_string = decode_free_text f.bytes })
      else if eqb_ℤ f.tag (pos 3)
      then (do
        bits ← label (codes "decode PKIFailureInfo: ") (bit_string f.full_bytes)
        inr (record out { failure_info = decode_failure_info 0 bits }))
      else inr out

  pub read_fields : ℕ → Text → StatusInfo → Option (Text ⊎ StatusInfo)
  unfolding read_field
  read_fields zero inner out = none
  read_fields (suc fuel) inner out = elim (is_empty inner) [
    | true ↦ some (inr out)
    | false ↦ elim (label (codes "decode PKIStatusInfo field: ") (raw_value inner)) [
      | inl e ↦ some (inl e)
      | inr (f, rest) ↦ elim (read_field f out) [
        | inl e ↦ some (inl e)
        | inr out' ↦ read_fields fuel rest out'
      ]
    ]
  ]

  pub parse_status_info : Text → Text ⊎ StatusInfo
  unfolding read_fields
  parse_status_info der = do
    (resp, trailing) ← label (codes "decode TimeStampResp: ") (raw_value der)
    guard (is_empty trailing) (codes "trailing data after TimeStampResp")
    guard (eqb_ℤ resp.class (pos 0) && (eqb_ℤ resp.tag (pos 16) && resp.is_compound))
        (codes "TimeStampResp is not a SEQUENCE")
    (info, body) ← label (codes "decode PKIStatusInfo: ") (raw_value resp.bytes)
    guard (eqb_ℤ info.tag (pos 16) && info.is_compound) (codes "PKIStatusInfo is not a SEQUENCE")
    (status, inner) ← label (codes "decode PKIStatus: ") (int_value info.bytes)
    let out : StatusInfo = record {
      status = status;
      status_string = [];
      failure_info = [];
      has_token = not (is_empty body);
    }
    elim (read_fields (length inner + 1) inner out) [ none ↦ inl [] | some r ↦ r ]
