-- ===== src/ErrClass/Classify.antt =====
-- What `Classify` makes of transport errors, and the names of the classes.
use tsa_bench.Base.{
  ◌≡◌, refl, ◌↔◌, Bool, true, false, Option, none, some, List, [], ◌∷◌, arith, Text, text_eq, ◌≢◌,
  not, if◌then◌else◌,
}
use tsa_bench.Redact.{UrlLib}
use tsa_bench.Redact
use tsa_bench.ErrClass.{
  Class, request_timeout, response_timeout, class_name, all_classes, is_timeout,
  counts_against_provider, Error, GoError, transport_class, find_classified, any_layer, is_canceled,
  classify, new, ok,
}

-- The first class of a list that has the given name.
abbrev pub class_named : Text → List Class → Option Class
class_named t [] = none
class_named t (c ∷ cs) = if text_eq (class_name c) t then some c else class_named t cs

-- `All` lists every class, and the names tell the classes apart: looking the name of a class up in
-- the list finds that class.
pub class_name_roundtrip : (c : Class) → class_named (class_name c) all_classes ≡ some c
unfolding all_classes
class_name_roundtrip ok = refl
class_name_roundtrip _ = refl

transport_class_facts :
    (err : GoError) (written : Bool)
    → (transport_class err written ≢ ok)
      × ((counts_against_provider (transport_class err written) ≡ false)
          ↔ (any_layer is_canceled err.chain ≡ true))
      × (is_timeout (transport_class err written) ≡ true
          → transport_class err written ≡ (if written then response_timeout else request_timeout))
      × (is_timeout (transport_class err written) ≡ false
          → transport_class err (not written) ≡ transport_class err written)
unfolding transport_class counts_against_provider is_timeout
transport_class_facts err written =
    (ground arith, (ground arith, ground arith), ground arith, ground arith)

module _ (lib : UrlLib) (err : GoError) where
  -- An error that `errors.As` finds in the chain passes through unchanged, whatever else is in it.
  pub classify_passes :
      (e : Error) (written : Bool)
      → find_classified err.chain ≡ some e
      → classify lib (some err) written ≡ some e
  unfolding classify
  classify_passes e written h = rw (h, classify)

  module _ (fresh : find_classified err.chain ≡ none) where
    -- An error that carries no class of ours always gets one, never `ok`; its detail is the redacted
    -- text; the class does not count against the provider exactly when the chain holds a
    -- cancellation; and whether the request was written decides between the two timeout classes and
    -- changes no other class.
    pub classify_total :
        (written : Bool)
        → (e : Error) × (classify lib (some err) written ≡ some e)
          × (e.detail ≡ Redact.text lib err.message)
          × (e.class ≢ ok)
          × ((counts_against_provider e.class ≡ false) ↔ (any_layer is_canceled err.chain ≡ true))
          × (is_timeout e.class ≡ true
              → e.class ≡ (if written then response_timeout else request_timeout))
          × (is_timeout e.class ≡ false → classify lib (some err) (not written) ≡ some e)
    unfolding classify
    classify_total written = (
      new (transport_class err written) (Redact.text lib err.message),
      rw (fresh, classify),
      refl,
      class_facts.0,
      class_facts.1,
      class_facts.2,
      λ t. rw (fresh, classify, class_facts.3 t),
    )
      where
        class_facts :
            (transport_class err written ≢ ok)
            × ((counts_against_provider (transport_class err written) ≡ false)
                ↔ (any_layer is_canceled err.chain ≡ true))
            × (is_timeout (transport_class err written) ≡ true
                → transport_class err written
                  ≡ (if written then response_timeout else request_timeout))
            × (is_timeout (transport_class err written) ≡ false
                → transport_class err (not written) ≡ transport_class err written)
        class_facts = transport_class_facts err written
