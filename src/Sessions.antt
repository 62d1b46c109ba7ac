-- ===== src/Sessions.antt =====
-- app/services/session_service.py over the tables of sessions and turns.
pub mod Route
pub mod Lookup
pub mod Coherence
pub mod Memory
pub mod Ending
pub mod Closing
use multimodal_rag.Prelude.{
  ℕ, suc, ◌+◌, ◌≡◌, Bool, true, false, Option, none, some, List, [], ◌∷◌, ◌++◌, map, length, keep,
  head?, leb, ◌&&◌, if◌then◌else◌,
}
use multimodal_rag.Prelude.Sort.{sort_desc}
use multimodal_rag.Prelude.Text.{Text, text, text_eq}
use multimodal_rag.Errors.{Exception, app, http, conflict, not_found}
use multimodal_rag.Exec.{
  Result, ok, raised, Exec, pure, fail, throw, gets, catch, recover, continue, ◌>>=◌, ◌>>◌,
}
use multimodal_rag.Json.{Json}
use multimodal_rag.Generation.{Turn}
use multimodal_rag.SessionCache.{
  Redis, Codec, tail_slice, push_turn, get_recent_turns, clear_session_cache, warm_cache_from_turns,
}

-- the values that the table's constraint allows
pub data Status : Type 0 where
  active : Status
  summarization_pending : Status
  summarized : Status

-- A row of `sessions`. An id is a UUID's canonical text.
pub record Session : Type 0 where
  pub id : Text
  pub user_id : Text
  pub turn_count : ℕ
  pub ended_at : Option ℕ
  pub status : Status
  pub created_at : ℕ

-- a row of `session_turns`
pub record SessionTurn : Type 0 where
  pub id : Text
  pub session_id : Text
  pub user_id : Text
  pub role : Text
  pub content : Text
  pub sources : Option Json
  pub critic_passed : Option Bool
  pub latency_ms : Option ℕ
  pub created_at : ℕ

abbrev pub is_of : Text → Text → Session → Bool
is_of user_id session_id x = text_eq x.id session_id && text_eq x.user_id user_id

-- the turns of a session, oldest first
unfoldable pub turns_of : Text → List SessionTurn → List SessionTurn
unfolding sort_desc
turns_of session_id turns =
    sort_desc (λ a b. leb b a) (λ t. t.created_at)
      (keep (λ t. text_eq t.session_id session_id) turns)

-- what a caller gives of a turn
pub record NewTurn : Type 0 where
  pub role : Text
  pub content : Text
  pub sources : Option Json
  pub critic_passed : Option Bool
  pub latency_ms : Option ℕ

abbrev pub count_turn : Text → Session → Session
count_turn session_id x =
    if text_eq x.id session_id
    then record {
      id = x.id;
      user_id = x.user_id;
      turn_count = x.turn_count + 1;
      ended_at = x.ended_at;
      status = x.status;
      created_at = x.created_at;
    }
    else x

abbrev pub row_of : Text → Text → Text → ℕ → NewTurn → SessionTurn
row_of new_id user_id session_id now new = record {
  id = new_id;
  session_id = session_id;
  user_id = user_id;
  role = new.role;
  content = new.content;
  sources = new.sources;
  critic_passed = new.critic_passed;
  latency_ms = new.latency_ms;
  created_at = now;
}

-- Postgres, the world of the Redis connection, and the task queue
pub record Store (C : Type 0) : Type 0 where
  pub sessions : List Session
  pub turns : List SessionTurn
  pub cache : C
  -- the sessions whose summarization is enqueued
  pub queue : List Text

module _ {C : Type 0} where
  abbrev pub with_cache : Store C → C → Store C
  with_cache s c = record { sessions = s.sessions; turns = s.turns; cache = c; queue = s.queue }

  -- a call of the Redis connection
  abbrev pub on_cache {ℓ} : {A : Type ℓ} → (C → Result A × C) → Store C → Result A × Store C
  on_cache m s = ((m s.cache).0, with_cache s (m s.cache).1)

  -- `context_hint` is not used
  unfoldable pub create_session : Text → Text → ℕ → Exec (Store C) Session
  create_session new_id user_id now s =
      let session : Session = record {
        id = new_id;
        user_id = user_id;
        turn_count = 0;
        ended_at = none;
        status = active;
        created_at = now;
      } in
      (
        ok session,
        record {
          sessions = s.sessions ++ session ∷ [];
          turns = s.turns;
          cache = s.cache;
          queue = s.queue;
        },
      )

  -- newest first
  unfoldable pub list_sessions : Text → Exec (Store C) (List Session)
  unfolding sort_desc
  list_sessions user_id s =
      (ok (sort_desc leb (λ x. x.created_at) (keep (λ x. text_eq x.user_id user_id) s.sessions)), s)

  abbrev pub found : Option Session → Exec (Store C) Session
  found none = fail (not_found (text "Session"))
  found (some session) = pure session

  unfoldable pub get_session : Text → Text → Exec (Store C) Session
  unfolding text_eq text
  get_session user_id session_id s = found (head? (keep (is_of user_id session_id) s.sessions)) s

  unfoldable pub get_history : Text → Text → Exec (Store C) (List SessionTurn)
  unfolding get_session turns_of
  get_history user_id session_id = do
    session ← get_session user_id session_id
    gets (λ s. turns_of session_id s.turns)

  -- `self.db.add(turn)`, `session.turn_count += 1` and the commit
  abbrev pub insert_turn : SessionTurn → Exec (Store C) SessionTurn
  insert_turn turn s = (
    ok turn,
    record {
      sessions = map (count_turn turn.session_id) s.sessions;
      turns = s.turns ++ turn ∷ [];
      cache = s.cache;
      queue = s.queue;
    },
  )

module _ {C : Type 0} (redis : Redis C) (codec : Codec) (context_window_turns ttl_seconds : ℕ) where
  -- The push is tried, and an exception of it is logged only.
  abbrev pub push_quietly : Text → NewTurn → ℕ → Exec (Store C) (Unit {0})
  push_quietly session_id new pushed_at =
      catch
        (on_cache (
          push_turn redis codec context_window_turns ttl_seconds session_id new.role new.content
            pushed_at))
        (λ e. pure tt)

  abbrev pub accept_turn : Option ℕ → SessionTurn → NewTurn → ℕ → Exec (Store C) SessionTurn
  accept_turn (some ended) turn new pushed_at =
      fail (conflict (text "Cannot add a turn to an ended session."))
  accept_turn none turn new pushed_at = do
    turn ← insert_turn turn
    push_quietly turn.session_id new pushed_at
    pure turn

  -- `now` and `pushed_at` are the clock at the row and at the push.
  unfoldable pub add_turn : Text → ℕ → ℕ → Text → Text → NewTurn → Exec (Store C) SessionTurn
  unfolding get_session text push_turn
  add_turn new_id now pushed_at user_id session_id new = do
    session ← get_session user_id session_id
    accept_turn session.ended_at (row_of new_id user_id session_id now new) new pushed_at

  abbrev pub turn_dict : SessionTurn → Turn
  turn_dict t = record { role = t.role; content = t.content; timestamp = t.created_at }

  abbrev pub cached_or : List Turn → Exec (Store C) (List Turn) → Exec (Store C) (List Turn)
  cached_or [] rebuild = rebuild
  cached_or (t ∷ ts) rebuild = pure (t ∷ ts)

  unfoldable pub rebuild_memory : Text → Text → Exec (Store C) (List Turn)
  unfolding get_history warm_cache_from_turns
  rebuild_memory user_id session_id = do
    turns ← get_history user_id session_id
    on_cache (
        warm_cache_from_turns redis codec context_window_turns ttl_seconds session_id
          (map turn_dict turns))
    pure (tail_slice context_window_turns (map turn_dict turns))

  unfoldable pub get_working_memory : Text → Text → Exec (Store C) (List Turn)
  unfolding get_session get_recent_turns rebuild_memory
  get_working_memory user_id session_id = do
    session ← get_session user_id session_id
    cached ← on_cache (get_recent_turns redis codec context_window_turns ttl_seconds session_id)
    cached_or cached (rebuild_memory user_id session_id)

  abbrev pub mark_ended : Text → ℕ → Session → Session
  mark_ended session_id now x =
      if text_eq x.id session_id
      then record {
        id = x.id;
        user_id = x.user_id;
        turn_count = x.turn_count;
        ended_at = some now;
        status = x.status;
        created_at = x.created_at;
      }
      else x

  abbrev pub close : Option ℕ → Session → ℕ → Exec (Store C) Session
  close (some ended) session now = fail (conflict (text "Session has already ended."))
  close none session now = λ s.
      continue
        (on_cache (clear_session_cache redis codec context_window_turns ttl_seconds session.id)
          (record {
            sessions = map (mark_ended session.id now) s.sessions;
            turns = s.turns;
            cache = s.cache;
            queue = s.queue;
          }))
        (λ done. pure (mark_ended session.id now session))

  unfoldable pub end_session : Text → Text → ℕ → Exec (Store C) Session
  unfolding get_session text clear_session_cache
  end_session user_id session_id now = do
    session ← get_session user_id session_id
    close session.ended_at session now
