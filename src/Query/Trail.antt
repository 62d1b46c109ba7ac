-- ===== src/Query/Trail.antt =====
-- What an answered question leaves behind.
use multimodal_rag.Prelude.{
  ℕ, ◌≡◌, inl, inr, refl, ap, ◌∙◌, none, some, List, [], ◌∷◌, ◌++◌, map, keep, head?, append_assoc,
  Bool-cases,
}
use multimodal_rag.Prelude.Text.{Text, text_eq}
use multimodal_rag.Exec.{ok}
use multimodal_rag.Generation.{Turn}
use multimodal_rag.Pipeline.{Response, Settings, Stages, run_query_pipeline}
use multimodal_rag.SessionCache.{Redis, Codec, RedisLaws, tail_slice}
use multimodal_rag.Sessions.{
  Session, Store, SessionTurn, row_of, get_session, add_turn, turns_of, count_turn, is_of,
}
use multimodal_rag.Sessions.Lookup.{get_session-found, get_session-at, get_session-map}
use multimodal_rag.Sessions.Coherence.{said, said_row, Coherent, Up}
use multimodal_rag.Sessions.Memory.{get_working_memory_lem}
use multimodal_rag.Sessions.Ending.{add_turn-accepts}
use multimodal_rag.Query.{
  Site, Stamps, question, answer_turn, row_of_query, query_route, record_turns,
}

count_turn-same :
    (user_id session_id counted : Text) (x : Session)
    → is_of user_id session_id (count_turn counted x) ≡ is_of user_id session_id x
count_turn-same user_id session_id counted x = elim (Bool-cases (text_eq x.id counted)) [
  | inl e ↦ rw e refl
  | inr e ↦ rw e refl
]

ended_at-count_turn : (counted : Text) (x : Session) → (count_turn counted x).ended_at ≡ x.ended_at
ended_at-count_turn counted x = elim (Bool-cases (text_eq x.id counted)) [
  | inl e ↦ rw e refl
  | inr e ↦ rw e refl
]

module _ {C W F : Type 0} (redis : Redis C) (codec : Codec) (window ttl : ℕ) (st : Stages W F)
    (settings : Settings) (stamps : Stamps) (user_id query : Text) where
  -- the rows of a question and its answer
  abbrev pub new_turns : Text → Response F → List SessionTurn
  new_turns session_id r =
      row_of stamps.user_turn_id user_id session_id stamps.user_turn_at (question query)
      ∷ row_of stamps.answer_turn_id user_id session_id stamps.answer_turn_at (answer_turn r)
      ∷ []

  recorded :
      (session_id : Text) (session : Session) (r : Response F) (s : Site C W)
      → get_session user_id session_id s.store ≡ (ok session, s.store)
      → session.ended_at ≡ none
      → (t : Site C W) × (record_turns redis codec window ttl st settings stamps user_id
            (some session_id)
            query
            r
            s
          ≡ (ok tt, t))
        × (t.store.turns ≡ s.store.turns ++ new_turns session_id r)
        × (t.audit ≡ s.audit)
  recorded session_id session r s got still =
      let (a, turns, sessions) =
        add_turn-accepts redis codec window ttl stamps.user_turn_id user_id session_id
          stamps.user_turn_at stamps.user_pushed_at (question query) session s.store got still in
      let u : Store C =
        (add_turn redis codec window ttl stamps.user_turn_id stamps.user_turn_at
          stamps.user_pushed_at user_id session_id (question query) s.store).1 in
      let found =
        get_session-map user_id session_id (count_turn session_id) session s.store u
          (count_turn-same user_id session_id session_id) sessions got in
      let (b, turns', sessions') =
        add_turn-accepts redis codec window ttl stamps.answer_turn_id user_id session_id
          stamps.answer_turn_at stamps.answer_pushed_at (answer_turn r) _ u found
          (ended_at-count_turn session_id session ∙ still) in
      (
        record {
          store =
              (add_turn redis codec window ttl stamps.answer_turn_id stamps.answer_turn_at
                stamps.answer_pushed_at user_id session_id (answer_turn r) u).1;
          audit = s.audit;
          world = s.world;
        },
        rw (a, b) refl,
        turns'
            ∙ ap
                (λ l.
                  l
                  ++ row_of stamps.answer_turn_id user_id session_id stamps.answer_turn_at
                      (answer_turn r)
                    ∷ [])
                turns
            ∙ append_assoc s.store.turns _ _,
        refl,
      )

  -- In an open session of the user, while Redis answers and the cache is empty or warm, if the
  -- pipeline answers with every history that says what the last durable turns say, then it is given
  -- such a history, and the route returns its response, adds one row to the audit trail, and adds the
  -- question and the answer to the durable turns, in this order.
  pub query_route_lem :
      (laws : RedisLaws redis) (up : Up redis)
      (codec_law : (t : Turn) → codec.loads (codec.dumps t) ≡ ok t) (session_id : Text)
      (session : Session) (s : Site C W)
      → get_session user_id session_id s.store ≡ (ok session, s.store)
      → session.ended_at ≡ none
      → Coherent redis codec window session_id s.store
      → ((history : List Turn)
          → map said history ≡ map said_row (tail_slice window (turns_of session_id s.store.turns))
          → (r : Response F) × (w : W) × (run_query_pipeline st settings query history s.world
              ≡ (ok (some r), w)))
      → (history : List Turn) × (r : Response F) × (w : W) × (t : Site C W) × (map said history
          ≡ map said_row (tail_slice window (turns_of session_id s.store.turns)))
        × (run_query_pipeline st settings query history s.world ≡ (ok (some r), w))
        × (query_route redis codec window ttl st settings stamps user_id (some session_id) query s
            ≡ (ok r, t))
        × (t.audit ≡ s.audit ++ row_of_query stamps user_id (some session_id) query r ∷ [])
        × (t.store.turns ≡ s.store.turns ++ new_turns session_id r)
  unfolding query_route
  query_route_lem laws up codec_law session_id session s got still coherent answers =
      let (history, store, remembers, same, warm, turns, sessions) =
        get_working_memory_lem redis laws up codec codec_law window ttl user_id session_id session
          s.store got coherent in
      let (r, w, answer) = answers history same in
      let found = get_session-at user_id session_id session store (
        ap (λ l. head? (keep (is_of user_id session_id) l)) sessions
        ∙ get_session-found user_id session_id session s.store got) in
      let logged : Site C W = record {
        store = store;
        audit = s.audit ++ row_of_query stamps user_id (some session_id) query r ∷ [];
        world = w;
      } in
      let (t, recorded, kept, audit) = recorded session_id session r logged found still in
      (
        history,
        r,
        w,
        t,
        same,
        answer,
        rw (remembers, answer, recorded) refl,
        audit,
        kept ∙ ap (λ l. l ++ new_turns session_id r) turns,
      )
