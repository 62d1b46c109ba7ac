-- ===== src/Logging.antt =====
-- app/core/logging.py: the redaction of sensitive values, and the chain of processors it stands in.
pub mod Redacted
pub mod Secrecy
use multimodal_rag.Prelude.{
  ℕ, zero, suc, Bool, true, false, Option, none, some, List, [], ◌∷◌, ◌++◌, map, drop, leb, ◌==◌,
  ◌&&◌, ◌||◌, if◌then◌else◌,
}
use multimodal_rag.Prelude.Text.{Text, text, text_eq, member, starts_with, lower_char}
use multimodal_rag.Json.{Json, Items, Fields, null, bool, num, str, arr, obj, nil, cons, end, field}

abbrev pub sensitive_keys : List Text
sensitive_keys =
    text "password"
    ∷ text "passwd"
    ∷ text "secret"
    ∷ text "token"
    ∷ text "access_token"
    ∷ text "refresh_token"
    ∷ text "jwt"
    ∷ text "api_key"
    ∷ text "apikey"
    ∷ text "authorization"
    ∷ text "x-api-key"
    ∷ text "anthropic_api_key"
    ∷ text "cohere_api_key"
    ∷ text "jina_api_key"
    ∷ text "elastic_password"
    ∷ text "redis_password"
    ∷ text "database_url"
    ∷ text "connection_string"
    ∷ text "private_key"
    ∷ text "secret_key"
    ∷ []

-- `key.lower() in _SENSITIVE_KEYS`
unfoldable pub is_sensitive : Text → Bool
unfolding text member lower_char
is_sensitive key = member (map lower_char key) sensitive_keys

-- `[A-Za-z0-9_-]`
unfoldable pub is_word : ℕ → Bool
is_word c =
    (leb 65 c && leb c 90)
    || (leb 97 c && leb c 122)
    || (leb 48 c && leb c 57)
    || (c == 95)
    || (c == 45)

-- What follows a run `[A-Za-z0-9_-]{n,}` at the start of a text: the run is the longest one, since
-- what the pattern wants next is not of its class.
unfoldable pub after_run : ℕ → Text → Option Text
unfolding is_word
after_run zero [] = some []
after_run (suc n) [] = none
after_run zero (c ∷ s) = if is_word c then after_run zero s else some (c ∷ s)
after_run (suc n) (c ∷ s) = if is_word c then after_run n s else none

-- a dot at the start of what is left
abbrev pub after_dot : Option Text → Option Text
after_dot none = none
after_dot (some []) = none
after_dot (some (c ∷ s)) = if c == 46 then some s else none

abbrev pub after_next : Option Text → Option Text
after_next none = none
after_next (some s) = after_run 10 s

abbrev pub is_some : Option Text → Bool
is_some none = false
is_some (some s) = true

-- `eyJ…{10,}\.…{10,}\.…{10,}` at the start of a text
unfoldable pub matches_here : Text → Bool
unfolding text starts_with after_run
matches_here s =
    starts_with (text "eyJ") s
    && is_some (after_next (after_dot (after_next (after_dot (after_run 10 (drop 3 s))))))

-- `_JWT_PATTERN.search(value)`
unfoldable pub has_jwt : Text → Bool
unfolding matches_here
has_jwt [] = false
has_jwt (c ∷ s) = matches_here (c ∷ s) || has_jwt s

unfoldable pub redacted : Json
unfolding text
redacted = str (text "[REDACTED]")

unfoldable pub redacted_jwt : Json
unfolding text
redacted_jwt = str (text "[REDACTED:JWT]")

-- `_redact_value`, past its test of the key. An item of a list has the key "", which is not sensitive.
unfoldable mutual
  unfolding is_sensitive has_jwt redacted redacted_jwt

  pub redact : Json → Json
  redact null = null
  redact (bool b) = bool b
  redact (num n) = num n
  redact (str s) = if has_jwt s then redacted_jwt else str s
  redact (arr xs) = arr (redact_items xs)
  redact (obj fs) = obj (redact_sensitive_fields fs)

  pub redact_items : Items → Items
  redact_items nil = nil
  redact_items (cons x xs) = cons (redact x) (redact_items xs)

  -- `_redact_sensitive_fields`
  pub redact_sensitive_fields : Fields → Fields
  redact_sensitive_fields end = end
  redact_sensitive_fields (field k v fs) =
      field k (if is_sensitive k then redacted else redact v) (redact_sensitive_fields fs)

-- What structlog's own processors do to an event, the renderers left out.
pub record Processors : Type 0 where
  pub merge_contextvars : Fields → Fields
  pub add_logger_name : Fields → Fields
  pub add_log_level : Fields → Fields
  pub time_stamper : Fields → Fields
  pub dict_tracebacks : Fields → Fields

-- the processors before the renderer, in the order of `setup_logging`
unfoldable pub shared_processors : Processors → Fields → Fields
unfolding redact_sensitive_fields
shared_processors p event =
    redact_sensitive_fields
      (p.time_stamper (p.add_log_level (p.add_logger_name (p.merge_contextvars event))))

-- the event that the renderer is given
unfoldable pub processed : Processors → Bool → Fields → Fields
unfolding shared_processors
processed p is_production event =
    if is_production
    then p.dict_tracebacks (shared_processors p event)
    else shared_processors p event
