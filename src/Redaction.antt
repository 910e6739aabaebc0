-- ===== src/Redaction.antt =====
-- binance_th/redaction.py: `redact_params` and `redact_headers`; `redact_query` is in Query.
use mathlib.Core.Option
use binance_th.Prelude.{
  String, ◌≡◌, refl, ◌⊎◌, inl, inr, Bool, true, false, Option, none, some, List, [], ◌∷◌, ◌||◌, map,
  ite, if_pos, if_neg, if◌then◌else◌, arith, ap, Bool-cases,
}
use binance_th.Prelude.Text.{codes, lower, same, String-discrete}
use binance_th.Prelude.Json.{
  Json, Items, Fields, null, bool, int, real, str, array, object, nil, item, end, field, get,
}
mod Logging
mod Query
mod Tests

-- `SENSITIVE_KEYS`
abbrev pub sensitive_keys : List String
sensitive_keys =
    "signature" ∷ "api_secret" ∷ "apisecret" ∷ "secret" ∷ "api_key" ∷ "apikey" ∷ "x-mbx-apikey"
    ∷ "listenkey" ∷ "token" ∷ []

unfoldable pub among : String → List String → Bool
among key [] = false
among key (k ∷ ks) = same (lower (codes key)) (codes k) || among key ks

unfoldable pub is_sensitive : String → Bool
unfolding among
is_sensitive key = among key sensitive_keys

abbrev pub redacted : Json
redacted = str "***REDACTED***"

-- `_redact_value`, over mappings and sequences.
unfoldable mutual
  pub redact_value : Json → Json
  redact_value (object fs) = object (redact_fields fs)
  redact_value (array is) = array (redact_items is)
  redact_value v = v

  pub redact_items : Items → Items
  redact_items nil = nil
  redact_items (item v is) = item (redact_value v) (redact_items is)

  -- `redact_params`
  pub redact_fields : Fields → Fields
  redact_fields end = end
  redact_fields (field k v fs) =
      field k (if is_sensitive k then redacted else redact_value v) (redact_fields fs)

-- `redact_headers`
unfoldable pub redact_headers : List (String × String) → List (String × String)
redact_headers = map λ (k, v). (k, if is_sensitive k then "***REDACTED***" else v)

-- Every field with a sensitive key, at any depth, shows the mask.
abbrev mutual
  pub Masked : Json → Type 0
  Masked (object fs) = MaskedFields fs
  Masked (array is) = MaskedItems is
  Masked v = Unit

  pub MaskedItems : Items → Type 0
  MaskedItems nil = Unit
  MaskedItems (item v is) = Masked v × MaskedItems is

  pub MaskedFields : Fields → Type 0
  MaskedFields end = Unit
  MaskedFields (field k v fs) =
      ((is_sensitive k ≡ false) ⊎ (v ≡ redacted)) × Masked v × MaskedFields fs

mutual
  unfolding redact_value redact_items redact_fields

  value-Masked : (v : Json) → Masked (redact_value v)
  value-Masked (object fs) = fields-Masked fs
  value-Masked (array is) = items-Masked is
  value-Masked null = tt
  value-Masked (bool b) = tt
  value-Masked (int n) = tt
  value-Masked (real s) = tt
  value-Masked (str s) = tt

  items-Masked : (is : Items) → MaskedItems (redact_items is)
  items-Masked nil = tt
  items-Masked (item v is) = (value-Masked v, items-Masked is)

  fields-Masked : (fs : Fields) → MaskedFields (redact_fields fs)
  fields-Masked end = tt
  fields-Masked (field k v fs) = elim (Bool-cases (is_sensitive k)) [
    | inl sensitive ↦ rw sensitive (inr refl, tt, fields-Masked fs)
    | inr public ↦ rw public (inl refl, value-Masked v, fields-Masked fs)
  ]

-- Whatever a body holds, after `redact_params` every field with a sensitive key, at any depth of
-- objects and arrays, shows the mask.
pub redact_fields-Masked : (fs : Fields) → MaskedFields (redact_fields fs)
redact_fields-Masked = fields-Masked

-- `redact_params` keeps every key, hides the value of a sensitive one, and changes the value of
-- another only inside.
pub get-redact_fields :
    (k : String) (fs : Fields)
    → get k (redact_fields fs)
      ≡ Option.map (λ v. if is_sensitive k then redacted else redact_value v) (get k fs)
unfolding get redact_fields
get-redact_fields k end = refl
get-redact_fields k (field j v fs) = elim (String-discrete j k) [
  | yes q ↦ rw (if_pos _ q, if_pos _ q, q) refl
  | no q ↦ rw (if_neg _ q, if_neg _ q) (get-redact_fields k fs)
]

mutual
  unfolding redact_value redact_items redact_fields

  value_twice : (v : Json) → redact_value (redact_value v) ≡ redact_value v
  value_twice (object fs) = ap object (fields_twice fs)
  value_twice (array is) = ap array (items_twice is)
  value_twice null = refl
  value_twice (bool b) = refl
  value_twice (int n) = refl
  value_twice (real s) = refl
  value_twice (str s) = refl

  items_twice : (is : Items) → redact_items (redact_items is) ≡ redact_items is
  items_twice nil = refl
  items_twice (item v is) = cc (value_twice v, items_twice is)

  fields_twice : (fs : Fields) → redact_fields (redact_fields fs) ≡ redact_fields fs
  fields_twice end = refl
  fields_twice (field k v fs) = elim (Bool-cases (is_sensitive k)) [
    | inl sensitive ↦ rw sensitive (ap (field k redacted) (fields_twice fs))
    | inr public ↦ rw public (cc (value_twice v, fields_twice fs))
  ]

-- A body that is redacted already stays as it is.
pub redact_fields_twice : (fs : Fields) → redact_fields (redact_fields fs) ≡ redact_fields fs
redact_fields_twice = fields_twice
