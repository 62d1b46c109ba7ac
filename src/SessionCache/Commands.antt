-- ===== src/SessionCache/Commands.antt =====
-- What the cache's operations leave in the list of the session, when the calls return.
use multimodal_rag.Prelude.{
  ℕ, ◌≡◌, refl, sym, ap, ◌∙◌, List, [], ◌∷◌, ◌++◌, map, append_assoc, append-nil,
}
use multimodal_rag.Prelude.Text.{Text, text_eq_refl}
use multimodal_rag.Generation.{Turn}
use multimodal_rag.Exec.{Result, ok, bind-ok, ok-pair}
use multimodal_rag.SessionCache.{
  Redis, Codec, RedisLaws, tail_slice, apply_all, session_key, push_turn, load_all,
  get_recent_turns, pushes, rebuild, warm_cache_from_turns,
}

module _ {C : Type 0} (redis : Redis C) (laws : RedisLaws redis) (codec : Codec)
    (codec_law : (t : Turn) → codec.loads (codec.dumps t) ≡ ok t) (window ttl : ℕ) where
  pub load_all-map : (ts : List Turn) → load_all redis codec window ttl (map codec.dumps ts) ≡ ok ts
  unfolding load_all
  load_all-map [] = refl
  load_all-map (t ∷ ts) = rw (codec_law t, load_all-map ts) refl

  pub contents-push_turn :
      (session_id role content : Text) (now : ℕ) (c d : C)
      → push_turn redis codec window ttl session_id role content now c ≡ (ok tt, d)
      → redis.contents (session_key session_id) d
        ≡ tail_slice window (
            redis.contents (session_key session_id) c
            ++ codec.dumps (record { role = role; content = content; timestamp = now }) ∷ [])
  unfolding push_turn
  contents-push_turn session_id role content now c d e =
      let at = laws.executed _ c d e (session_key session_id) in
      at ∙ rw (text_eq_refl (session_key session_id)) refl

  apply_all-pushes :
      (key : Text) (ts : List Turn) (xs : List Text)
      → apply_all key (pushes redis codec window ttl key ts) xs ≡ xs ++ map codec.dumps ts
  apply_all-pushes key [] xs = sym (append-nil xs)
  apply_all-pushes key (t ∷ ts) xs =
      rw (apply_all, text_eq_refl key)
        (apply_all-pushes key ts (xs ++ codec.dumps t ∷ [])
          ∙ append_assoc xs (codec.dumps t ∷ []) (map codec.dumps ts))

  contents-rebuild :
      (key : Text) (ts : List Turn) (c d : C)
      → redis.contents key c ≡ []
      → rebuild redis codec window ttl key ts c ≡ (ok tt, d)
      → redis.contents key d ≡ map codec.dumps ts
  contents-rebuild key [] c d cold e = ap (redis.contents key) (sym (ok-pair tt tt c d e).1) ∙ cold
  contents-rebuild key (t ∷ ts) c d cold e =
      laws.executed _ c d e key
      ∙ rw (apply_all, text_eq_refl key) (apply_all-pushes key ts (codec.dumps t ∷ []))

  pub contents-warm :
      (session_id : Text) (ts : List Turn) (c d : C)
      → redis.contents (session_key session_id) c ≡ []
      → warm_cache_from_turns redis codec window ttl session_id ts c ≡ (ok tt, d)
      → redis.contents (session_key session_id) d ≡ map codec.dumps (tail_slice window ts)
  unfolding warm_cache_from_turns
  contents-warm session_id ts c d cold e =
      contents-rebuild (session_key session_id) (tail_slice window ts) c d cold e

  -- a read of the list that returns
  pub get_recent_turns_lem :
      (session_id : Text) (ts : List Turn) (c d : C) (xs : List Turn)
      → redis.contents (session_key session_id) c ≡ map codec.dumps ts
      → get_recent_turns redis codec window ttl session_id c ≡ (ok xs, d)
      → (xs ≡ ts) × ((j : Text) → redis.contents j d ≡ redis.contents j c)
  unfolding get_recent_turns
  get_recent_turns_lem session_id ts c d xs held e =
      let (raw, c', e1, e2) = bind-ok (redis.lrange (session_key session_id) c) _ e in
      let (same, kept) = laws.ranged (session_key session_id) raw c c' e1 in
      let all : load_all redis codec window ttl raw ≡ ok ts =
        ap (load_all redis codec window ttl) (same ∙ held) ∙ load_all-map ts in
      let out : ◌≡◌ {A = Result (List Turn) × C} (ok ts, c') (ok xs, d) =
        ap (λ r. (r, c')) (sym all) ∙ e2 in
      (
        sym (ok-pair ts xs c' d out).0,
        λ j. ap (redis.contents j) (sym (ok-pair ts xs c' d out).1) ∙ kept j,
      )
