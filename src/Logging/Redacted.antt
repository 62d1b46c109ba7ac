-- ===== src/Logging/Redacted.antt =====
-- What an event is after _redact_sensitive_fields of app/core/logging.py.
use mathlib.Core.Path.{ap₂}
use multimodal_rag.Prelude.{
  ◌≡◌, refl, ap, sym, Bool, true, false, Bool-cases, inl, inr, if◌then◌else◌,
}
use multimodal_rag.Json.{Json, Items, Fields, null, bool, num, str, arr, obj, nil, cons, end, field}
use multimodal_rag.Logging.{
  is_sensitive, has_jwt, redacted, redacted_jwt, redact, redact_items, redact_sensitive_fields,
}

-- No text matches the pattern of a JWT, and the value of a sensitive key is the mask, at every depth.
mutual
  pub IsSafe : Json → Type 0
  IsSafe null = Unit {0}
  IsSafe (bool b) = Unit {0}
  IsSafe (num n) = Unit {0}
  IsSafe (str s) = has_jwt s ≡ false
  IsSafe (arr xs) = AreSafe xs
  IsSafe (obj fs) = AreMasked fs

  pub AreSafe : Items → Type 0
  AreSafe nil = Unit {0}
  AreSafe (cons x xs) = IsSafe x × AreSafe xs

  pub AreMasked : Fields → Type 0
  AreMasked end = Unit {0}
  AreMasked (field k v fs) = (is_sensitive k ≡ true → v ≡ redacted) × IsSafe v × AreMasked fs

redacted-IsSafe : IsSafe redacted
unfolding IsSafe redacted has_jwt
redacted-IsSafe = refl

redacted_jwt-IsSafe : IsSafe redacted_jwt
unfolding IsSafe redacted_jwt has_jwt
redacted_jwt-IsSafe = refl

masked_value :
    (b : Bool) (v : Json)
    → IsSafe v
    → (b ≡ true → (if b then redacted else v) ≡ redacted) × IsSafe (if b then redacted else v)
masked_value true v h = (λ e. refl, redacted-IsSafe)
masked_value false v h = (λ e. cc, h)

mutual
  unfolding IsSafe AreSafe AreMasked redact redact_items redact_sensitive_fields

  redact-IsSafe : (v : Json) → IsSafe (redact v)
  redact-IsSafe null = tt
  redact-IsSafe (bool b) = tt
  redact-IsSafe (num n) = tt
  redact-IsSafe (str s) = elim (Bool-cases (has_jwt s)) [
    | inl e ↦ rw e redacted_jwt-IsSafe
    | inr e ↦ rw e e
  ]
  redact-IsSafe (arr xs) = redact_items-AreSafe xs
  redact-IsSafe (obj fs) = fields-AreMasked fs

  redact_items-AreSafe : (xs : Items) → AreSafe (redact_items xs)
  redact_items-AreSafe nil = tt
  redact_items-AreSafe (cons x xs) = (redact-IsSafe x, redact_items-AreSafe xs)

  fields-AreMasked : (fs : Fields) → AreMasked (redact_sensitive_fields fs)
  fields-AreMasked end = tt
  fields-AreMasked (field k v fs) =
      let (mask, safe) = masked_value (is_sensitive k) (redact v) (redact-IsSafe v) in
      (mask, safe, fields-AreMasked fs)

kept_value :
    (b : Bool) (v w : Json) → (b ≡ true → v ≡ redacted) → w ≡ v → (if b then redacted else w) ≡ v
kept_value true v w h e = sym (h refl)
kept_value false v w h e = e

-- what is safe stays as it is
mutual
  unfolding IsSafe AreSafe AreMasked redact redact_items redact_sensitive_fields

  redact_of_IsSafe : (v : Json) → IsSafe v → redact v ≡ v
  redact_of_IsSafe null h = refl
  redact_of_IsSafe (bool b) h = refl
  redact_of_IsSafe (num n) h = refl
  redact_of_IsSafe (str s) h = rw h refl
  redact_of_IsSafe (arr xs) h = ap arr (redact_items_of_AreSafe xs h)
  redact_of_IsSafe (obj fs) h = ap obj (fields_of_AreMasked fs h)

  redact_items_of_AreSafe : (xs : Items) → AreSafe xs → redact_items xs ≡ xs
  redact_items_of_AreSafe nil h = refl
  redact_items_of_AreSafe (cons x xs) h =
      ap₂ cons (redact_of_IsSafe x h.0) (redact_items_of_AreSafe xs h.1)

  fields_of_AreMasked : (fs : Fields) → AreMasked fs → redact_sensitive_fields fs ≡ fs
  fields_of_AreMasked end h = refl
  fields_of_AreMasked (field k v fs) h =
      ap₂ (field k) (kept_value (is_sensitive k) v (redact v) h.0 (redact_of_IsSafe v h.1))
        (fields_of_AreMasked fs h.2)

-- After the redaction no text in the event matches the pattern of a JWT, and each sensitive key has
-- the mask as its value, at every depth; and a second redaction changes nothing.
pub redact_sensitive_fields-AreMasked :
    (event : Fields)
    → AreMasked (redact_sensitive_fields event)
      × (redact_sensitive_fields (redact_sensitive_fields event) ≡ redact_sensitive_fields event)
redact_sensitive_fields-AreMasked event = (
  fields-AreMasked event,
  fields_of_AreMasked (redact_sensitive_fields event) (fields-AreMasked event),
)
