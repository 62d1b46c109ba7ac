-- ===== src/Sessions/Memory.antt =====
-- The working memory is the end of the durable history, while the cache stays warm.
use multimodal_rag.Prelude.{
  ℕ, zero, suc, ◌-◌, ◌≤◌, ◌≡◌, inl, inr, refl, sym, ap, ◌∙◌, subst, none, List, [], ◌∷◌, ◌++◌, map,
  keep, head?, All, map-append, arith, Bool-cases, Option-cases,
}
use multimodal_rag.Prelude.Text.{Text, text_eq}
use multimodal_rag.Exec.{Result, ok, raised, ok-pair}
use multimodal_rag.Generation.{Turn}
use multimodal_rag.SessionCache.{
  Redis, Codec, RedisLaws, tail_slice, session_key, push_turn, get_recent_turns,
  warm_cache_from_turns, rebuild,
}
use multimodal_rag.SessionCache.Commands.{contents-push_turn, contents-warm, load_all-map}
use multimodal_rag.Sessions.{
  Session, SessionTurn, Store, NewTurn, get_session, get_history, turns_of, turn_dict, row_of,
  add_turn, get_working_memory, rebuild_memory, count_turn, with_cache, is_of, found,
}
use multimodal_rag.Sessions.Lookup.{get_session-map}
use multimodal_rag.Sessions.Coherence.{
  said, said_row, tail_slice-snoc, map-tail_slice, turns_of-snoc, Warm, Coherent, Up,
}

module _ {C : Type 0} (redis : Redis C) (laws : RedisLaws redis) (up : Up redis) (codec : Codec)
    (codec_law : (t : Turn) → codec.loads (codec.dumps t) ≡ ok t) (window ttl : ℕ) where
  push-returns :
      (session_id role content : Text) (now : ℕ) (c : C)
      → (d : C) × (push_turn redis codec window ttl session_id role content now c ≡ (ok tt, d))
  unfolding push_turn
  push-returns session_id role content now c = up.executes _ c

  warm-returns :
      (session_id : Text) (ts : List Turn) (c : C)
      → (d : C) × (warm_cache_from_turns redis codec window ttl session_id ts c ≡ (ok tt, d))
  unfolding warm_cache_from_turns
  warm-returns session_id ts c = go (tail_slice window ts)
    where
      go :
          (ts : List Turn)
          → (d : C) × (rebuild redis codec window ttl (session_key session_id) ts c ≡ (ok tt, d))
      go [] = (c, refl)
      go (t ∷ ts) = up.executes _ c

  recent-returns :
      (session_id : Text) (ts : List Turn) (c : C)
      → redis.contents (session_key session_id) c ≡ map codec.dumps ts
      → (d : C) × (get_recent_turns redis codec window ttl session_id c ≡ (ok ts, d))
        × ((j : Text) → redis.contents j d ≡ redis.contents j c)
  unfolding get_recent_turns
  recent-returns session_id ts c held =
      let (xs, d, e) = up.ranges (session_key session_id) c in
      let (same, kept) = laws.ranged (session_key session_id) xs c d e in
      (d, rw (e, same, held, load_all-map redis laws codec codec_law window ttl ts) refl, kept)

  -- While Redis answers and the cache is warm, a turn that is added to an open session at a time
  -- not before the other rows is the last of the durable turns, and the cache stays warm.
  pub add_turn-Warm :
      (new_id user_id session_id : Text) (now pushed_at : ℕ) (new : NewTurn) (session : Session)
      (s : Store C)
      → get_session user_id session_id s ≡ (ok session, s)
      → session.ended_at ≡ none
      → All (λ t. t.created_at ≤ now) s.turns
      → Warm redis codec window session_id s
      → (t : Store C) × (add_turn redis codec window ttl new_id now pushed_at user_id session_id new
            s
          ≡ (ok (row_of new_id user_id session_id now new), t))
        × (turns_of session_id t.turns
            ≡ turns_of session_id s.turns ++ row_of new_id user_id session_id now new ∷ [])
        × Warm redis codec window session_id t
  unfolding add_turn
  add_turn-Warm new_id user_id session_id now pushed_at new session s got still newest warm =
      let (d, pushed) = push-returns session_id new.role new.content pushed_at s.cache in
      let row : SessionTurn = row_of new_id user_id session_id now new in
      let turn : Turn = record { role = new.role; content = new.content; timestamp = pushed_at } in
      let last = turns_of-snoc s.turns row newest in
      let at =
        contents-push_turn redis laws codec codec_law window ttl session_id new.role new.content
          pushed_at s.cache d pushed in
      (
        record {
          sessions = map (count_turn session_id) s.sessions;
          turns = s.turns ++ row ∷ [];
          cache = d;
          queue = s.queue;
        },
        rw (got, still, pushed) refl,
        last,
        record {
          cached = tail_slice window (warm.cached ++ turn ∷ []);
          held =
              at
              ∙ ap (λ l. tail_slice window (l ++ codec.dumps turn ∷ [])) warm.held
              ∙ ap (tail_slice window) (sym (map-append codec.dumps warm.cached (turn ∷ [])))
              ∙ sym (map-tail_slice codec.dumps window (warm.cached ++ turn ∷ []));
          recent =
              map-tail_slice said window (warm.cached ++ turn ∷ [])
              ∙ ap (tail_slice window) (map-append said warm.cached (turn ∷ []))
              ∙ ap (λ l. tail_slice window (l ++ said turn ∷ []))
                  (warm.recent ∙ map-tail_slice said_row window (turns_of session_id s.turns))
              ∙ tail_slice-snoc window (map said_row (turns_of session_id s.turns)) (said_row row)
              ∙ ap (tail_slice window)
                  (sym (map-append said_row (turns_of session_id s.turns) (row ∷ [])))
              ∙ sym (map-tail_slice said_row window (turns_of session_id s.turns ++ row ∷ []))
              ∙ ap (λ l. map said_row (tail_slice window l)) (sym last);
        },
      )

  get_session-cache :
      (user_id session_id : Text) (session : Session) (s : Store C) (d : C)
      → get_session user_id session_id s ≡ (ok session, s)
      → get_session user_id session_id (with_cache s d) ≡ (ok session, with_cache s d)
  unfolding get_session
  get_session-cache user_id session_id session s d got =
      elim (Option-cases (head? (keep (is_of user_id session_id) s.sessions))) [
        | inl e ↦
            let bad : ◌≡◌ {A = Result Session × Store C} (raised _, s) (ok session, s) =
              subst (λ o. found o s ≡ (ok session, s)) e got in
            absurd (cc)
        | inr (x, e) ↦
            let good : ◌≡◌ {A = Result Session × Store C} (ok x, s) (ok session, s) =
              subst (λ o. found o s ≡ (ok session, s)) e got in
            rw e (ap (λ y. (ok y, with_cache s d)) (ok-pair x session s s good).0)
      ]

  abbrev Remembers : Text → Text → Store C → Type 0
  Remembers user_id session_id s =
      (xs : List Turn) × (t : Store C) × (get_working_memory redis codec window ttl user_id
          session_id s
        ≡ (ok xs, t))
      × (map said xs ≡ map said_row (tail_slice window (turns_of session_id s.turns)))
      × Warm redis codec window session_id t
      × (t.turns ≡ s.turns)
      × (t.sessions ≡ s.sessions)

  Remembers-cold :
      (user_id session_id : Text) (session : Session) (s : Store C)
      → get_session user_id session_id s ≡ (ok session, s)
      → redis.contents (session_key session_id) s.cache ≡ []
      → Remembers user_id session_id s
  unfolding get_working_memory rebuild_memory get_history
  Remembers-cold user_id session_id session s got cold =
      let (c, empty, kept) = recent-returns session_id [] s.cache cold in
      let turns : List Turn =
        map (turn_dict redis codec window ttl) (turns_of session_id s.turns) in
      let (d, warmed) = warm-returns session_id turns c in
      let dicts : map said (tail_slice window turns)
          ≡ map said_row (tail_slice window (turns_of session_id s.turns)) =
        ap (map said) (
          sym (
            map-tail_slice (turn_dict redis codec window ttl) window (turns_of session_id s.turns)))
        ∙ map-map said (turn_dict redis codec window ttl)
            (tail_slice window (turns_of session_id s.turns)) in
      (
        tail_slice window turns,
        with_cache s d,
        rw (got, empty, get_session-cache user_id session_id session s c got, warmed) refl,
        dicts,
        record {
          cached = tail_slice window turns;
          held =
              contents-warm redis laws codec codec_law window ttl session_id turns c d
                (kept (session_key session_id) ∙ cold) warmed;
          recent = dicts;
        },
        refl,
        refl,
      )
    where
      map-map :
          (f : Turn → Text × Text) (g : SessionTurn → Turn) (xs : List SessionTurn)
          → map f (map g xs) ≡ map (λ x. f (g x)) xs
      map-map f g [] = refl
      map-map f g (x ∷ xs) = ap (λ l. f (g x) ∷ l) (map-map f g xs)

  Remembers-warm :
      (user_id session_id : Text) (session : Session) (s : Store C) (cached : List Turn)
      → get_session user_id session_id s ≡ (ok session, s)
      → redis.contents (session_key session_id) s.cache ≡ map codec.dumps cached
      → map said cached ≡ map said_row (tail_slice window (turns_of session_id s.turns))
      → Remembers user_id session_id s
  unfolding get_working_memory
  Remembers-warm user_id session_id session s [] got held recent =
      Remembers-cold user_id session_id session s got held
  Remembers-warm user_id session_id session s (x ∷ xs) got held recent =
      let (c, hit, kept) = recent-returns session_id (x ∷ xs) s.cache held in
      (
        x ∷ xs,
        with_cache s c,
        rw (got, hit) refl,
        recent,
        record { cached = x ∷ xs; held = kept (session_key session_id) ∙ held; recent = recent },
        refl,
        refl,
      )

  -- While Redis answers, and the cache of a session is empty or warm, the working memory of an
  -- existing session of the user says what its last durable turns say, in order, and the cache is
  -- warm afterwards.
  pub get_working_memory_lem :
      (user_id session_id : Text) (session : Session) (s : Store C)
      → get_session user_id session_id s ≡ (ok session, s)
      → Coherent redis codec window session_id s
      → Remembers user_id session_id s
  get_working_memory_lem user_id session_id session s got (inl cold) =
      Remembers-cold user_id session_id session s got cold
  get_working_memory_lem user_id session_id session s got (inr warm) =
      Remembers-warm user_id session_id session s warm.cached got warm.held warm.recent

  -- A turn that is added to an open session while the list at its key is empty, with Redis up and a
  -- window of at least one turn, becomes the whole working memory, however many durable turns the
  -- session has.
  pub get_working_memory-add_turn :
      (new_id user_id session_id : Text) (now pushed_at : ℕ) (new : NewTurn) (session : Session)
      (s : Store C)
      → 1 ≤ window
      → get_session user_id session_id s ≡ (ok session, s)
      → session.ended_at ≡ none
      → redis.contents (session_key session_id) s.cache ≡ []
      → (t : Store C) × (u : Store C) × (add_turn redis codec window ttl new_id now pushed_at
            user_id session_id new s
          ≡ (ok (row_of new_id user_id session_id now new), t))
        × (t.turns ≡ s.turns ++ row_of new_id user_id session_id now new ∷ [])
        × (get_working_memory redis codec window ttl user_id session_id t ≡ (
          ok (record { role = new.role; content = new.content; timestamp = pushed_at } ∷ []),
          u,
        ))
  unfolding add_turn get_working_memory
  get_working_memory-add_turn new_id user_id session_id now pushed_at new session s one got still
        cold =
      let (c, pushed) = push-returns session_id new.role new.content pushed_at s.cache in
      let turn : Turn = record { role = new.role; content = new.content; timestamp = pushed_at } in
      let t : Store C = record {
        sessions = map (count_turn session_id) s.sessions;
        turns = s.turns ++ row_of new_id user_id session_id now new ∷ [];
        cache = c;
        queue = s.queue;
      } in
      let held : redis.contents (session_key session_id) c ≡ map codec.dumps (turn ∷ []) =
        contents-push_turn redis laws codec codec_law window ttl session_id new.role new.content
          pushed_at s.cache c pushed
        ∙ ap (λ l. tail_slice window (l ++ codec.dumps turn ∷ [])) cold
        ∙ tail_slice-one window (codec.dumps turn) in
      let (d, hit, kept) = recent-returns session_id (turn ∷ []) c held in
      let found =
        get_session-map user_id session_id (count_turn session_id) session s t
          (count_turn-same user_id session_id) refl got in
      (t, with_cache t d, rw (got, still, pushed) refl, refl, rw (found, hit) refl)
    where
      tail_slice-one : (n : ℕ) (x : Text) → tail_slice n (x ∷ []) ≡ x ∷ []
      tail_slice-one zero x = refl
      tail_slice-one (suc n) x = let e : 1 - suc n ≡ 0 = omega arith in rw e refl

      count_turn-same :
          (u i : Text) (x : Session) → is_of u i (count_turn session_id x) ≡ is_of u i x
      count_turn-same u i x = elim (Bool-cases (text_eq x.id session_id)) [
        | inl e ↦ rw e refl
        | inr e ↦ rw e refl
      ]
