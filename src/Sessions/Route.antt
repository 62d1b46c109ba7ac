-- ===== src/Sessions/Route.antt =====
-- The handlers of app/api/v1/sessions.py, and the status update of app/tasks/summarization.py.
use multimodal_rag.Prelude.{
  ℕ, leb, length, Bool, true, false, Option, none, some, List, [], ◌∷◌, ◌++◌, map, keep, head?,
  ◌&&◌, if◌then◌else◌,
}
use multimodal_rag.Prelude.Text.{Text, text, text_eq}
use multimodal_rag.Errors.{http, value_error}
use multimodal_rag.Exec.{Result, ok, raised, Exec, pure, ◌>>=◌}
use multimodal_rag.Sessions.{
  Status, active, summarization_pending, summarized, Session, SessionTurn, Store, is_of,
  create_session, list_sessions, get_history,
}

abbrev pub is_active : Status → Bool
is_active active = true
is_active summarization_pending = false
is_active summarized = false

abbrev pub is_pending : Status → Bool
is_pending active = false
is_pending summarization_pending = true
is_pending summarized = false

abbrev pub set_status : Status → Session → Session
set_status status x = record {
  id = x.id;
  user_id = x.user_id;
  turn_count = x.turn_count;
  ended_at = x.ended_at;
  status = status;
  created_at = x.created_at;
}

abbrev pub update_where : (Session → Bool) → Status → List Session → List Session
update_where p status = map (λ x. if p x then set_status status x else x)

abbrev pub ends : Text → Text → Session → Bool
ends user_id session_id x = is_of user_id session_id x && is_active x.status

-- `context_hint` has at most 500 characters, and is not used
abbrev pub hint_allowed : Option Text → Result (Unit {0})
hint_allowed none = ok tt
hint_allowed (some hint) = if leb (length hint) 500 then ok tt else raised value_error

-- CreateSessionResponse
pub record Created : Type 0 where
  pub session_id : Text
  pub created_at : ℕ
  pub memory_loaded_count : ℕ
  pub working_memory_tokens : ℕ

-- SessionHistoryResponse
pub record History : Type 0 where
  pub turns : List SessionTurn
  pub turn_count : ℕ

module _ {C : Type 0} where
  -- the row that the update returned, if it changed one, and else the status of the row
  abbrev pub transition : Text → Option Session → Option Session → Exec (Store C) Status
  transition session_id (some row) existing s = (
    ok summarization_pending,
    record {
      sessions = s.sessions;
      turns = s.turns;
      cache = s.cache;
      queue = s.queue ++ session_id ∷ [];
    },
  )
  transition session_id none none s = (raised (http 404 (text "session not found")), s)
  transition session_id none (some existing) s = (ok existing.status, s)

  -- POST /v1/sessions/{id}/end, with the status of its response
  unfoldable pub end_route : Text → Text → Exec (Store C) Status
  unfolding text_eq text
  end_route user_id session_id s =
      transition session_id (head? (keep (ends user_id session_id) s.sessions))
        (head? (keep (is_of user_id session_id) s.sessions))
        (record {
          sessions = update_where (ends user_id session_id) summarization_pending s.sessions;
          turns = s.turns;
          cache = s.cache;
          queue = s.queue;
        })

  unfoldable pub create_route : Text → ℕ → Text → Option Text → Exec (Store C) Created
  unfolding create_session
  create_route new_id now user_id context_hint = do
    allowed ← λ s. (hint_allowed context_hint, s)
    session ← create_session new_id user_id now
    pure (record {
      session_id = session.id;
      created_at = session.created_at;
      memory_loaded_count = 0;
      working_memory_tokens = 0;
    })

  unfoldable pub sessions_route : Text → Exec (Store C) (List Session)
  unfolding list_sessions
  sessions_route user_id = list_sessions user_id

  unfoldable pub history_route : Text → Text → Exec (Store C) History
  unfolding get_history
  history_route user_id session_id = do
    turns ← get_history user_id session_id
    pure (record { turns = turns; turn_count = length turns })

  -- the task's update
  unfoldable pub update_session_status : Text → Exec (Store C) (Unit {0})
  unfolding text_eq
  update_session_status session_id s = (
    ok tt,
    record {
      sessions =
          update_where (λ x. text_eq x.id session_id && is_pending x.status) summarized s.sessions;
      turns = s.turns;
      cache = s.cache;
      queue = s.queue;
    },
  )
