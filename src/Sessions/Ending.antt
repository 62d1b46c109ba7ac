-- ===== src/Sessions/Ending.antt =====
-- Ending a session by the service.
use multimodal_rag.Prelude.{ℕ, ◌≡◌, inl, inr, refl, none, some, [], ◌∷◌, ◌++◌, map, Bool-cases}
use multimodal_rag.Prelude.Text.{Text, text, text_eq, text_eq_refl}
use multimodal_rag.Errors.{app, conflict}
use multimodal_rag.Exec.{Result, ok, raised}
use multimodal_rag.SessionCache.{Redis, Codec, push_turn, clear_session_cache}
use multimodal_rag.Sessions.{
  Session, Store, NewTurn, is_of, get_session, row_of, add_turn, end_session, mark_ended,
  count_turn,
}
use multimodal_rag.Sessions.Lookup.{get_session-map}

module _ {C : Type 0} (redis : Redis C) (codec : Codec) (window ttl : ℕ) where
  -- A turn for an open session is accepted, whatever happens to the push into the cache.
  pub add_turn-accepts :
      (new_id user_id session_id : Text) (now pushed_at : ℕ) (new : NewTurn) (session : Session)
      (s : Store C)
      → get_session user_id session_id s ≡ (ok session, s)
      → session.ended_at ≡ none
      → ((add_turn redis codec window ttl new_id now pushed_at user_id session_id new s).0
          ≡ ok (row_of new_id user_id session_id now new))
        × ((add_turn redis codec window ttl new_id now pushed_at user_id session_id new s).1.turns
            ≡ s.turns ++ row_of new_id user_id session_id now new ∷ [])
        × ((add_turn redis codec window ttl new_id now pushed_at user_id session_id new
              s).1.sessions
            ≡ map (count_turn session_id) s.sessions)
  unfolding add_turn
  add_turn-accepts new_id user_id session_id now pushed_at new session s got still =
      go (push_turn redis codec window ttl session_id new.role new.content pushed_at s.cache) refl
    where
      go :
          (r : Result (Unit {0}) × C)
          → push_turn redis codec window ttl session_id new.role new.content pushed_at s.cache ≡ r
          → ((add_turn redis codec window ttl new_id now pushed_at user_id session_id new s).0
              ≡ ok (row_of new_id user_id session_id now new))
            × ((add_turn redis codec window ttl new_id now pushed_at user_id session_id new
                  s).1.turns
                ≡ s.turns ++ row_of new_id user_id session_id now new ∷ [])
            × ((add_turn redis codec window ttl new_id now pushed_at user_id session_id new
                  s).1.sessions
                ≡ map (count_turn session_id) s.sessions)
      go (ok x, d) e = rw (got, still, e) (refl, refl, refl)
      go (raised x, d) e = rw (got, still, e) (refl, refl, refl)

  add_turn-ended :
      (new_id user_id session_id : Text) (now pushed_at ended : ℕ) (new : NewTurn)
      (session : Session) (s : Store C)
      → get_session user_id session_id s ≡ (ok session, s)
      → session.ended_at ≡ some ended
      → add_turn redis codec window ttl new_id now pushed_at user_id session_id new s
        ≡ (raised (app (conflict (text "Cannot add a turn to an ended session."))), s)
  unfolding add_turn
  add_turn-ended new_id user_id session_id now pushed_at ended new session s got done =
      rw (got, done) refl

  end_session-ended :
      (user_id session_id : Text) (now ended : ℕ) (session : Session) (s : Store C)
      → get_session user_id session_id s ≡ (ok session, s)
      → session.ended_at ≡ some ended
      → end_session redis codec window ttl user_id session_id now s
        ≡ (raised (app (conflict (text "Session has already ended."))), s)
  unfolding end_session
  end_session-ended user_id session_id now ended session s got done = rw (got, done) refl

  mark_ended-same :
      (user_id session_id marked : Text) (now : ℕ) (x : Session)
      → is_of user_id session_id (mark_ended redis codec window ttl marked now x)
        ≡ is_of user_id session_id x
  mark_ended-same user_id session_id marked now x = elim (Bool-cases (text_eq x.id marked)) [
    | inl e ↦ rw e refl
    | inr e ↦ rw e refl
  ]

  -- A session that the service ends, while Redis answers, stays ended: a second end is a conflict,
  -- and so is every further turn, and neither changes anything.
  pub end_session_lem :
      (user_id session_id : Text) (now : ℕ) (session : Session) (s : Store C) (d : C)
      → get_session user_id session_id s ≡ (ok session, s)
      → session.ended_at ≡ none
      → clear_session_cache redis codec window ttl session.id s.cache ≡ (ok tt, d)
      → (ended : Session) × (t : Store C) × (end_session redis codec window ttl user_id session_id
            now s
          ≡ (ok ended, t))
        × ((later : ℕ)
            → end_session redis codec window ttl user_id session_id later t
              ≡ (raised (app (conflict (text "Session has already ended."))), t))
        × ((new_id : Text) (at pushed_at : ℕ) (new : NewTurn)
            → add_turn redis codec window ttl new_id at pushed_at user_id session_id new t
              ≡ (raised (app (conflict (text "Cannot add a turn to an ended session."))), t))
  unfolding end_session
  end_session_lem user_id session_id now session s d got still cleared =
      let t : Store C = record {
        sessions = map (mark_ended redis codec window ttl session.id now) s.sessions;
        turns = s.turns;
        cache = d;
        queue = s.queue;
      } in
      let found =
        get_session-map user_id session_id (mark_ended redis codec window ttl session.id now)
          session s t (mark_ended-same user_id session_id session.id now) refl got in
      let done : (mark_ended redis codec window ttl session.id now session).ended_at ≡ some now =
        rw (text_eq_refl session.id) refl in
      (
        mark_ended redis codec window ttl session.id now session,
        t,
        rw (got, still, cleared) refl,
        λ later. end_session-ended user_id session_id later now _ t found done,
        λ new_id at pushed_at new.
            add_turn-ended new_id user_id session_id at pushed_at now new _ t found done,
      )
