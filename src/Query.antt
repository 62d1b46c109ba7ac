-- ===== src/Query.antt =====
-- app/api/v1/query.py: a question, from the history to the audit trail and the turns.
pub mod Trail
use multimodal_rag.Prelude.{ℕ, ◌≡◌, Bool, true, false, Option, none, some, List, [], ◌∷◌, ◌++◌, map}
use multimodal_rag.Prelude.Text.{Text, text}
use multimodal_rag.Errors.{other}
use multimodal_rag.Exec.{Result, ok, raised, Exec, pure, throw, continue, ◌>>=◌}
use multimodal_rag.Json.{Json, str, Items, nil, cons, Fields, end, field}
use multimodal_rag.Json
use multimodal_rag.Generation.{Turn}
use multimodal_rag.Reranker.{Ranked}
use multimodal_rag.Pipeline.{Response, Settings, Stages, run_query_pipeline}
use multimodal_rag.SessionCache.{Redis, Codec}
use multimodal_rag.Sessions.{Store, NewTurn, SessionTurn, add_turn, get_working_memory}
use multimodal_rag.Audit.{AuditLog, SourceSummary, audit_row, log_row}

-- the databases, the audit trail, and the world of the models
pub record Site (C W : Type 0) : Type 0 where
  pub store : Store C
  pub audit : List AuditLog
  pub world : W

-- New ids, the clock at each write, and SHA-256.
pub record Stamps : Type 0 where
  pub audit_id : Text
  pub audited_at : ℕ
  pub user_turn_id : Text
  pub answer_turn_id : Text
  pub user_turn_at : ℕ
  pub user_pushed_at : ℕ
  pub answer_turn_at : ℕ
  pub answer_pushed_at : ℕ
  pub sha256 : Text → Text

module _ {C W : Type 0} where
  abbrev pub on_store {ℓ} :
      {A : Type ℓ} → (Store C → Result A × Store C) → Site C W → Result A × Site C W
  on_store m s = ((m s.store).0, record { store = (m s.store).1; audit = s.audit; world = s.world })

  abbrev pub on_world {ℓ} : {A : Type ℓ} → (W → Result A × W) → Site C W → Result A × Site C W
  on_world m s = ((m s.world).0, record { store = s.store; audit = s.audit; world = (m s.world).1 })

  abbrev pub on_audit {ℓ} :
      {A : Type ℓ} → (List AuditLog → Result A × List AuditLog) → Site C W → Result A × Site C W
  on_audit m s = ((m s.audit).0, record { store = s.store; audit = (m s.audit).1; world = s.world })

abbrev pub question : Text → NewTurn
question query = record {
  role = text "user";
  content = query;
  sources = none;
  critic_passed = none;
  latency_ms = none;
}

module _ {F : Type 0} where
  abbrev pub summary : Ranked F → SourceSummary
  summary r = record { chunk_id = r.fused.hit.chunk_id; document_id = r.fused.hit.document_id }

  -- `[{"chunk_id": …}, …]`
  abbrev pub source_items : List (Ranked F) → Items
  source_items [] = nil
  source_items (r ∷ rs) =
      cons (Json.obj (field (text "chunk_id") (str r.fused.hit.chunk_id) end)) (source_items rs)

  abbrev pub answer_turn : Response F → NewTurn
  answer_turn result = record {
    role = text "assistant";
    content = result.answer;
    sources = some (Json.arr (source_items result.sources));
    critic_passed = some result.critic_passed;
    latency_ms = some result.latency_ms;
  }

  abbrev pub row_of_query : Stamps → Text → Option Text → Text → Response F → AuditLog
  row_of_query stamps user_id session_id query result =
      audit_row stamps.sha256 stamps.audit_id stamps.audited_at user_id session_id query
        (map summary result.sources) result.critic_passed result.critic_corrections
        result.retry_count result.latency_ms

module _ {C W F : Type 0} (redis : Redis C) (codec : Codec) (context_window_turns ttl_seconds : ℕ)
    (st : Stages W F) (settings : Settings) (stamps : Stamps) where
  abbrev pub history_of : Text → Option Text → Exec (Site C W) (List Turn)
  history_of user_id none = pure []
  history_of user_id (some session_id) =
      on_store (get_working_memory redis codec context_window_turns ttl_seconds user_id session_id)

  -- The pipeline always gives a response: its fuel is enough.
  abbrev pub response_or_raise : Option (Response F) → Exec (Site C W) (Response F)
  response_or_raise none = throw other
  response_or_raise (some result) = pure result

  abbrev pub record_turns : Text → Option Text → Text → Response F → Exec (Site C W) (Unit {0})
  record_turns user_id none query result = pure tt
  record_turns user_id (some session_id) query result = do
    asked ← on_store (
        add_turn redis codec context_window_turns ttl_seconds stamps.user_turn_id
          stamps.user_turn_at stamps.user_pushed_at user_id session_id (question query))
    answered ← on_store (
        add_turn redis codec context_window_turns ttl_seconds stamps.answer_turn_id
          stamps.answer_turn_at stamps.answer_pushed_at user_id session_id (answer_turn result))
    pure tt

  -- the response of the route is the one of the pipeline, with the session's id
  unfoldable pub query_route : Text → Option Text → Text → Exec (Site C W) (Response F)
  unfolding get_working_memory run_query_pipeline add_turn text
  query_route user_id session_id query = do
    history ← history_of user_id session_id
    returned ← on_world (run_query_pipeline st settings query history)
    result ← response_or_raise returned
    logged ← on_audit (log_row (row_of_query stamps user_id session_id query result))
    done ← record_turns user_id session_id query result
    pure result
