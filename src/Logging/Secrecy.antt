-- ===== src/Logging/Secrecy.antt =====
-- What the log of app/core/logging.py tells of the values that it masks.
use mathlib.Core.Path.{ap₂}
use multimodal_rag.Prelude.{◌≡◌, refl, ap, true, if◌then◌else◌}
use multimodal_rag.Prelude.Text.{Text}
use multimodal_rag.Json.{Json, Items, Fields, str, arr, obj, nil, cons, end, field}
use multimodal_rag.Logging.{
  is_sensitive, has_jwt, redacted, redact, redact_items, redact_sensitive_fields,
}

-- Two events that differ at most in the values of sensitive keys and in texts with a JWT in them.
mutual
  pub data Alike : Json → Json → Type 0 where
    same : (v : Json) → Alike v v
    tokens : (s t : Text) → has_jwt s ≡ true → has_jwt t ≡ true → Alike (str s) (str t)
    lists : {xs ys : Items} → AlikeItems xs ys → Alike (arr xs) (arr ys)
    objects : {fs gs : Fields} → AlikeFields fs gs → Alike (obj fs) (obj gs)

  pub data AlikeItems : Items → Items → Type 0 where
    no_items : AlikeItems nil nil
    item :
        {x y : Json} {xs ys : Items}
        → Alike x y
        → AlikeItems xs ys
        → AlikeItems (cons x xs) (cons y ys)

  pub data AlikeFields : Fields → Fields → Type 0 where
    no_fields : AlikeFields end end
    hidden :
        (k : Text) (v w : Json) {fs gs : Fields}
        → is_sensitive k ≡ true
        → AlikeFields fs gs
        → AlikeFields (field k v fs) (field k w gs)
    shown :
        (k : Text) {v w : Json} {fs gs : Fields}
        → Alike v w
        → AlikeFields fs gs
        → AlikeFields (field k v fs) (field k w gs)

mutual
  unfolding redact redact_items redact_sensitive_fields

  redact-Alike : {v w : Json} → Alike v w → redact v ≡ redact w
  redact-Alike (same v) = refl
  redact-Alike (tokens s t p q) = rw (p, q) refl
  redact-Alike (lists a) = ap arr (redact_items-Alike a)
  redact-Alike (objects a) = ap obj (fields-Alike a)

  redact_items-Alike : {xs ys : Items} → AlikeItems xs ys → redact_items xs ≡ redact_items ys
  redact_items-Alike no_items = refl
  redact_items-Alike (item a b) = ap₂ cons (redact-Alike a) (redact_items-Alike b)

  fields-Alike :
      {fs gs : Fields} → AlikeFields fs gs → redact_sensitive_fields fs ≡ redact_sensitive_fields gs
  fields-Alike no_fields = refl
  fields-Alike (hidden k v w h a) = rw h (ap (field k redacted) (fields-Alike a))
  fields-Alike (shown k a b) =
      ap₂ (field k) (ap (λ v. if is_sensitive k then redacted else v) (redact-Alike a))
        (fields-Alike b)

-- Events that differ at most in the values of sensitive keys, at any depth, and in texts with a JWT
-- in them, are the same after the redaction: the log tells nothing of these values.
pub redact_sensitive_fields-AlikeFields :
    {event other_event : Fields}
    → AlikeFields event other_event
    → redact_sensitive_fields event ≡ redact_sensitive_fields other_event
redact_sensitive_fields-AlikeFields a = fields-Alike a
