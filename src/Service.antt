-- ===== src/Service.antt =====
-- The service around its routes: app/main.py, app/core/middleware.py and the validators of
-- app/config.py.
pub mod Started
pub mod Requests
use multimodal_rag.Prelude.{
  ℕ, zero, suc, Bool, true, false, Option, none, some, List, [], ◌∷◌, ◌++◌, map, keep, length, ltb,
  not, ◌==◌, if◌then◌else◌,
}
use multimodal_rag.Prelude.Text.{Text, text, text_eq, starts_with, strip}
use multimodal_rag.Prelude.Dict.{Dict, put}
use multimodal_rag.Errors.{Exception, value_error}
use multimodal_rag.Exec.{Exec, Result, ok, raised, pure, throw, catch, continue, ◌>>=◌, ◌>>◌}

-- the services that the start connects to, in its order
pub data Dependency : Type 0 where
  postgres : Dependency
  redis : Dependency
  qdrant : Dependency
  elasticsearch : Dependency

-- The calls of the start: opening and using a connection, of which Elasticsearch's `ping` gives a
-- value, and `engine.dispose()`.
pub record Connections (W : Type 0) : Type 0 where
  pub select_one : Exec W (Unit {0})
  pub redis_ping : Exec W (Unit {0})
  pub get_collections : Exec W (Unit {0})
  pub es_ping : Exec W Bool
  pub dispose : Exec W (Unit {0})

-- `RuntimeError("Cannot connect to … — refusing to start.")`
pub data Refusal : Type 0 where
  refusing : Dependency → Refusal

-- how the lifespan ends: the start is refused, or the shutdown is done or raises
pub data Ending : Type 0 where
  refused : Dependency → Ending
  shut_down : Ending
  shutdown_raised : Exception → Ending

module _ {W : Type 0} (c : Connections W) where
  -- what a check gives: nothing, or the refusal to start
  abbrev pub connected : Dependency → Result (Unit {0}) × W → Option Refusal × W
  connected d (ok done, w) = (none, w)
  connected d (raised e, w) = (some (refusing d), w)

  -- the value of the ping is not looked at
  abbrev pub connect : Dependency → W → Option Refusal × W
  connect postgres w = connected postgres (c.select_one w)
  connect redis w = connected redis (c.redis_ping w)
  connect qdrant w = connected qdrant (c.get_collections w)
  connect elasticsearch w = connected elasticsearch (continue (c.es_ping w) (λ alive. pure tt))

  abbrev pub proceed : Option Refusal × W → (W → Option Refusal × W) → Option Refusal × W
  proceed (none, t) rest = rest t
  proceed (some r, t) rest = (some r, t)

  -- the checks in order, up to the first that refuses
  unfoldable pub check_all : List Dependency → W → Option Refusal × W
  check_all [] w = (none, w)
  check_all (d ∷ ds) w = proceed (connect d w) (check_all ds)

  abbrev pub dependencies : List Dependency
  dependencies = postgres ∷ redis ∷ qdrant ∷ elasticsearch ∷ []

  abbrev pub shut : Result (Unit {0}) × W → Ending × W
  shut (ok done, w) = (shut_down, w)
  shut (raised e, w) = (shutdown_raised e, w)

  -- The application runs between the start and the shutdown, and not at all after a refusal.
  abbrev pub after_start : (W → W) → Option Refusal × W → Ending × W
  after_start application (none, w) = shut (c.dispose (application w))
  after_start application (some (refusing d), w) = (refused d, w)

  unfoldable pub lifespan : (W → W) → W → Ending × W
  unfolding check_all
  lifespan application w = after_start application (check_all dependencies w)

-- The documentation is off in production: `docs_url`, `redoc_url` and `openapi_url`.
unfoldable pub docs_urls : Text → List (Option Text)
unfolding text text_eq
docs_urls app_env =
    map (λ url. if not (text_eq app_env (text "production")) then some url else none)
      (text "/docs" ∷ text "/redoc" ∷ text "/openapi.json" ∷ [])

-- The log context of a request and the request's own state.
pub record Request : Type 0 where
  pub context : Dict Text
  pub request_id : Option Text
  pub user_id : Option Text

-- A response with its `X-Request-ID`, over the response of the routes.
pub record Answer (A : Type 0) : Type 0 where
  pub response : A
  pub request_id : Option Text

abbrev pub Handler : Type 0 → Type 0
Handler A = Exec Request (Answer A)

-- the end of AuditContextMiddleware.dispatch
abbrev pub bind_user_id : Option Text → Request → Request
bind_user_id none r = r
bind_user_id (some u) r = record r { context = put (text "user_id") u r.context }

-- The log context after `call_next`, from those before it and at the end of it: Starlette runs the
-- inner application in a task of its own, on a copy of the context.
abbrev pub Task : Type 0
Task = Dict Text → Dict Text → Dict Text

abbrev pub leave : Task → Dict Text → Request → Request
leave task before r = record r { context = task before r.context }

module _ {A : Type 0} (task : Task) where
  abbrev pub left : Dict Text → Result (Answer A) × Request → Result (Answer A) × Request
  left before (outcome, r) = (outcome, leave task before r)

  abbrev pub call_next : Handler A → Handler A
  call_next inner r = left r.context (inner r)

  -- RequestIDMiddleware.dispatch; `fresh` is the new UUID
  unfoldable pub request_id_dispatch : Text → Handler A → Handler A
  unfolding text
  request_id_dispatch fresh inner = do
    bound ← λ r. (
      ok tt,
      record r { request_id = some fresh; context = put (text "request_id") fresh r.context },
    )
    response ← call_next inner
    cleared ← λ r. (ok tt, record r { context = [] })
    pure (record response { request_id = some fresh })

  -- AuditContextMiddleware.dispatch
  unfoldable pub audit_context_dispatch : Handler A → Handler A
  unfolding text
  audit_context_dispatch inner = do
    response ← call_next inner
    bound ← λ r. (ok tt, bind_user_id r.user_id r)
    pure response

  -- The stack of `register_middleware`: what is added last is outermost. `cors` is CORSMiddleware.
  unfoldable pub middleware : Text → (Handler A → Handler A) → Handler A → Handler A
  unfolding request_id_dispatch audit_context_dispatch
  middleware fresh cors routes = audit_context_dispatch (request_id_dispatch fresh (cors routes))

-- `v.split(",")`
abbrev pub extend_first : ℕ → List Text → List Text
extend_first c [] = (c ∷ []) ∷ []
extend_first c (part ∷ parts) = (c ∷ part) ∷ parts

unfoldable pub split_commas : Text → List Text
split_commas [] = [] ∷ []
split_commas (c ∷ s) =
    let rest = split_commas s in if c == 44 then [] ∷ rest else extend_first c rest

abbrev pub is_empty : Text → Bool
is_empty [] = true
is_empty (c ∷ s) = false

-- `[origin.strip() for origin in v.split(",") if origin.strip()]`
unfoldable pub parse_cors_origins : Text → List Text
unfolding split_commas strip
parse_cors_origins v = keep (λ origin. not (is_empty origin)) (map strip (split_commas v))

-- SECRET_KEY and JWT_SECRET: at least 32 characters, and not the placeholder
unfoldable pub secret_not_placeholder : Text → Result Text
unfolding text starts_with
secret_not_placeholder v =
    if ltb (length v) 32
    then raised value_error
    else (if starts_with (text "CHANGE_ME") v then raised value_error else ok v)
