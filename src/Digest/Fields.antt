-- ===== src/Digest/Fields.antt =====
-- The fields of an answer, as an independent description, and how the reader takes each of them.
use tsa_bench.Base.{
  ℕ, suc, ◌+◌, ◌-◌, ◌≡◌, refl, ap, ◌∙◌, inl, inr, Bool, true, false, not, ◌&&◌, ◌||◌, some, [], ◌∷◌,
  ◌++◌, arith, Text, codes, index, trim_space, to_lower, take, drop, length, get_or, leb, ◌==◌,
  if◌then◌else◌, and_true, Bool-cases, all_bytes, all_bytes_imp, is_solid, EndsSolid,
  EndsSolid-append, EndsSolid-all, trim_space_first, trim_space_second, trim_right,
}
use tsa_bench.Digest.Reader.{Params, unescape, value_of, read_param}
use tsa_bench.Digest.Answer.{escape, quote_digest}

-- A byte that a bare value may hold, and one that a key may hold.
abbrev pub is_bare : ℕ → Bool
is_bare c = is_solid c && not (c == 34) && not (c == 44)

abbrev pub is_key : ℕ → Bool
is_key c = is_bare c && not (c == 61) && not (leb 65 c && leb c 90)

-- A key and its value, in quotes or bare.
pub data Field : Type 0 where
  quoted : Text → Text → Field
  bare : Text → Text → Field

abbrev pub entry_of : Field → Text × Text
entry_of (quoted k v) = (k, v)
entry_of (bare k v) = (k, v)

unfoldable pub shown : Field → Text
unfolding quote_digest
shown (quoted k v) = k ++ 61 ∷ quote_digest v
shown (bare k v) = k ++ 61 ∷ v

abbrev pub IsKey : Text → Type 0
IsKey [] = ⊥
IsKey (c ∷ k) = all_bytes is_key (c ∷ k) ≡ true

abbrev pub IsField : Field → Type 0
IsField (quoted k v) = IsKey k
IsField (bare k v) = IsKey k × (all_bytes is_bare v ≡ true)

-- The unquoting takes back the quoting.
unescape_other : (c : ℕ) (s : Text) → (c == 92) ≡ false → unescape (c ∷ s) ≡ c ∷ unescape s
unfolding unescape
unescape_other c [] h = refl
unescape_other c (d ∷ s) h = rw (h, unescape) refl

pub unescape-escape : (s : Text) → unescape (escape s) ≡ s
unfolding unescape escape
unescape-escape [] = refl
unescape-escape (c ∷ s) = elim (Bool-cases (c == 92 || c == 34)) [
  | inl e ↦ ground (arith, e, unescape-escape s)
  | inr e ↦
      let plain : unescape (c ∷ escape s) ≡ c ∷ unescape (escape s) =
        unescape_other c (escape s) (ground arith) in
      rw (e, plain, unescape-escape s) refl
]

take_front : (e : Text) (d : ℕ) → take (length e) (e ++ d ∷ []) ≡ e
take_front [] d = refl
take_front (c ∷ e) d = ap (◌∷◌ c) (take_front e d)

last_byte : (e : Text) (d : ℕ) → get_or (e ++ d ∷ []) (length e) 0 ≡ d
last_byte [] d = refl
last_byte (c ∷ e) d = last_byte e d

length_quoted : (e : Text) (d : ℕ) → length (e ++ d ∷ []) ≡ suc (length e)
length_quoted [] d = refl
length_quoted (c ∷ e) d = ap suc (length_quoted e d)

value_of_inner : (e : Text) → value_of (34 ∷ (e ++ 34 ∷ [])) ≡ unescape e
unfolding value_of
value_of_inner e =
    let n : length (34 ∷ (e ++ 34 ∷ [])) - 1 ≡ suc (length e) = omega (arith, length_quoted e 34) in
    let m : length (34 ∷ (e ++ 34 ∷ [])) - 2 ≡ length e = omega (arith, length_quoted e 34) in
    let l : leb 2 (length (34 ∷ (e ++ 34 ∷ []))) ≡ true = ground (arith, length_quoted e 34) in
    rw (n, m, l, last_byte e 34, take_front e 34) refl

value_of-quote_digest : (v : Text) → value_of (quote_digest v) ≡ v
unfolding quote_digest
value_of-quote_digest v = value_of_inner (escape v) ∙ unescape-escape v

value_of_bare : (v : Text) → all_bytes is_bare v ≡ true → value_of v ≡ v
unfolding value_of
value_of_bare [] h = refl
value_of_bare (c ∷ v) h = ground arith

abbrev no_equals : ℕ → Bool
no_equals c = not (c == 61)

-- What stands before the first `=`, and behind it.
index_equals :
    (k v : Text) → all_bytes no_equals k ≡ true → index (codes "=") (k ++ 61 ∷ v) ≡ some (length k)
unfolding index
index_equals [] v h = refl
index_equals (c ∷ k) v h =
    let (x, y) = and_true (no_equals c) (all_bytes no_equals k) h in
    let other : (61 == c) ≡ false = ground arith in rw (other, index_equals k v y) refl

take_key : (k v : Text) → take (length k) (k ++ 61 ∷ v) ≡ k
take_key [] v = refl
take_key (c ∷ k) v = ap (◌∷◌ c) (take_key k v)

drop_key : (k v : Text) → drop (suc (length k)) (k ++ 61 ∷ v) ≡ v
drop_key [] v = refl
drop_key (c ∷ k) v = drop_key k v

read_param_lem :
    (out : Params) (k v : Text)
    → all_bytes no_equals k ≡ true
    → read_param out (k ++ 61 ∷ v) ≡ (to_lower (trim_space k), value_of (trim_space v)) ∷ out
unfolding read_param
read_param_lem out k v h =
    let after : length k + 1 ≡ suc (length k) = omega arith in
    rw (index_equals k v h, read_param, take_key k v, after, drop_key k v) refl

to_lower_key : (k : Text) → all_bytes is_key k ≡ true → to_lower k ≡ k
unfolding to_lower
to_lower_key [] h = refl
to_lower_key (c ∷ k) h =
    let (x, y) = and_true (is_key c) (all_bytes is_key k) h in
    let same : (if leb 65 c && leb c 90 then c + 32 else c) ≡ c = ground arith in
    rw (same, to_lower_key k y) refl

bare_solid : (c : ℕ) → is_bare c ≡ true → is_solid c ≡ true
bare_solid c h = (and_true (is_solid c) (not (c == 34)) ((and_true _ (not (c == 44)) h).0)).0

key_bare : (c : ℕ) → is_key c ≡ true → is_bare c ≡ true
key_bare c h =
    (and_true (is_bare c) (not (c == 61)) ((and_true _ (not (leb 65 c && leb c 90)) h).0)).0

key_no_equals : (c : ℕ) → is_key c ≡ true → no_equals c ≡ true
key_no_equals c h =
    (and_true (is_bare c) (not (c == 61)) ((and_true _ (not (leb 65 c && leb c 90)) h).0)).1

key_solid : (c : ℕ) → is_key c ≡ true → is_solid c ≡ true
key_solid c h = bare_solid c (key_bare c h)

EndsSolid-quote_digest : (v : Text) → EndsSolid (quote_digest v)
unfolding EndsSolid quote_digest trim_right
EndsSolid-quote_digest v = EndsSolid-append (34 ∷ escape v) 34 [] refl

EndsSolid-bare : (v : Text) → all_bytes is_bare v ≡ true → EndsSolid v
EndsSolid-bare v h = EndsSolid-all v (all_bytes_imp is_bare is_solid bare_solid v h)

trim_space-quote_digest : (v : Text) → trim_space (quote_digest v) ≡ quote_digest v
unfolding quote_digest
trim_space-quote_digest v =
    trim_space_first 34 (escape v ++ 34 ∷ []) refl (EndsSolid-quote_digest v)

trim_space_bare : (v : Text) → all_bytes is_bare v ≡ true → trim_space v ≡ v
unfolding trim_space
trim_space_bare [] h = refl
trim_space_bare (c ∷ v) h =
    trim_space_first c v (bare_solid c (and_true (is_bare c) (all_bytes is_bare v) h).0)
      (EndsSolid-bare (c ∷ v) h)

-- A key on its own and behind the blank after a comma.
key_trims :
    (k : Text)
    → IsKey k
    → (to_lower (trim_space k) ≡ k)
      × (to_lower (trim_space (32 ∷ k)) ≡ k)
      × (all_bytes no_equals k ≡ true)
key_trims [] h = absurd h
key_trims (c ∷ k) h =
    let first = (and_true (is_key c) (all_bytes is_key k) h).0 in
    let ends = EndsSolid-all (c ∷ k) (all_bytes_imp is_key is_solid key_solid (c ∷ k) h) in
    let low = to_lower_key (c ∷ k) h in
    (
      rw (trim_space_first c k (key_solid c first) ends) low,
      rw (trim_space_second c k (key_solid c first) ends) low,
      all_bytes_imp is_key no_equals key_no_equals (c ∷ k) h,
    )

-- The reader takes a shown field, behind a blank or not, as the entry it stands for.
pub read_param-shown :
    (out : Params) (f : Field)
    → IsField f
    → (read_param out (shown f) ≡ entry_of f ∷ out)
      × (read_param out (32 ∷ shown f) ≡ entry_of f ∷ out)
unfolding shown
read_param-shown out (quoted k v) h =
    let (a, b, n) = key_trims k h in
    let value = ap value_of (trim_space-quote_digest v) ∙ value_of-quote_digest v in
    (
      read_param_lem out k (quote_digest v) n ∙ rw (a, value) refl,
      read_param_lem out (32 ∷ k) (quote_digest v) n ∙ rw (b, value) refl,
    )
read_param-shown out (bare k v) (h, p) =
    let (a, b, n) = key_trims k h in
    let value = ap value_of (trim_space_bare v p) ∙ value_of_bare v p in
    (
      read_param_lem out k v n ∙ rw (a, value) refl,
      read_param_lem out (32 ∷ k) v n ∙ rw (b, value) refl,
    )

pub EndsSolid-shown : (f : Field) → IsField f → EndsSolid (shown f)
unfolding EndsSolid trim_right shown quote_digest
EndsSolid-shown (quoted k v) h =
    EndsSolid-append k 61 (quote_digest v) (EndsSolid-append (61 ∷ 34 ∷ escape v) 34 [] refl)
EndsSolid-shown (bare k v) (h, p) =
    EndsSolid-append k 61 v (EndsSolid-all (61 ∷ v) (all_bytes_imp is_bare is_solid bare_solid v p))

-- A shown field starts with a byte of its key.
abbrev pub StartsSolid : Text → Type 0
StartsSolid [] = ⊥
StartsSolid (c ∷ s) = is_solid c ≡ true

StartsSolid-key : (k s : Text) → IsKey k → StartsSolid (k ++ s)
StartsSolid-key [] s h = absurd h
StartsSolid-key (c ∷ k) s h = key_solid c (and_true (is_key c) (all_bytes is_key k) h).0

pub StartsSolid-shown : (f : Field) → IsField f → StartsSolid (shown f)
unfolding shown
StartsSolid-shown (quoted k v) h = StartsSolid-key k _ h
StartsSolid-shown (bare k v) (h, p) = StartsSolid-key k _ h

pub IsKey-bare : (k : Text) → IsKey k → all_bytes is_bare k ≡ true
IsKey-bare [] h = refl
IsKey-bare (c ∷ k) h = all_bytes_imp is_key is_bare key_bare (c ∷ k) h
