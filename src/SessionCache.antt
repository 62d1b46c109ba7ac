-- ===== src/SessionCache.antt =====
-- app/cache/session_cache.py: the last turns of a session as a Redis list of JSON texts.
pub mod Commands
use multimodal_rag.Prelude.{
  ℕ, zero, suc, ◌≡◌, Bool, Option, some, List, [], ◌∷◌, ◌++◌, map, last_n, if◌then◌else◌,
}
use multimodal_rag.Prelude.Text.{Text, text, text_eq}
use multimodal_rag.Generation.{Turn}
use multimodal_rag.Exec.{Result, ok, raised, Exec, pure, continue, ◌>>=◌}

-- The commands that a pipeline queues: `ltrim k n` is `LTRIM k -n -1`.
pub data Command : Type 0 where
  rpush : Text → Text → Command
  ltrim : Text → ℕ → Command
  expire : Text → ℕ → Command
  del : Text → Command

-- The connection on a world `C`: a pipeline in one transaction, and two single commands. Each call
-- may raise. `contents` is the list at a key, empty for a key that is not there.
pub record Redis (C : Type 0) : Type 0 where
  pub execute : List Command → Exec C (Unit {0})
  pub lrange : Text → Exec C (List Text)
  pub delete : Text → Exec C (Unit {0})
  pub contents : Text → C → List Text

-- `json.dumps` and `json.loads` on a turn
pub record Codec : Type 0 where
  pub dumps : Turn → Text
  pub loads : Text → Result Turn

-- `xs[-n:]`, also for `n = 0`, which takes all; Redis reads `LTRIM k -n -1` in the same way.
abbrev pub tail_slice {ℓ} : {A : Type ℓ} → ℕ → List A → List A
tail_slice zero xs = xs
tail_slice (suc n) xs = last_n (suc n) xs

-- what a command does to the list at the key `k`
abbrev pub apply : Text → Command → List Text → List Text
apply k (rpush j v) xs = if text_eq k j then xs ++ v ∷ [] else xs
apply k (ltrim j n) xs = if text_eq k j then tail_slice n xs else xs
apply k (expire j n) xs = xs
apply k (del j) xs = if text_eq k j then [] else xs

abbrev pub apply_all : Text → List Command → List Text → List Text
apply_all k [] xs = xs
apply_all k (c ∷ cs) xs = apply_all k cs (apply k c xs)

-- What Redis documents of a call that returns.
pub record RedisLaws {C : Type 0} (redis : Redis C) : Type 0 where
  pub executed :
      (cs : List Command) (c d : C)
      → redis.execute cs c ≡ (ok tt, d)
      → (k : Text) → redis.contents k d ≡ apply_all k cs (redis.contents k c)
  pub ranged :
      (k : Text) (xs : List Text) (c d : C)
      → redis.lrange k c ≡ (ok xs, d)
      → (xs ≡ redis.contents k c) × ((j : Text) → redis.contents j d ≡ redis.contents j c)

abbrev pub session_key : Text → Text
session_key session_id = text "session_turns:" ++ session_id

module _ {C : Type 0} (redis : Redis C) (codec : Codec) (context_window_turns ttl_seconds : ℕ) where
  -- `now` is the clock at the push
  unfoldable pub push_turn : Text → Text → Text → ℕ → Exec C (Unit {0})
  push_turn session_id role content now = redis.execute (
      rpush (session_key session_id)
        (codec.dumps (record { role = role; content = content; timestamp = now }))
      ∷ ltrim (session_key session_id) context_window_turns
      ∷ expire (session_key session_id) ttl_seconds
      ∷ [])

  unfoldable pub load_all : List Text → Result (List Turn)
  load_all [] = ok []
  load_all (t ∷ ts) =
      let rest = load_all ts in
      elim (codec.loads t) [
        | ok turn ↦ elim rest [ ok turns ↦ ok (turn ∷ turns) | raised e ↦ raised e ]
        | raised e ↦ raised e
      ]

  unfoldable pub get_recent_turns : Text → Exec C (List Turn)
  unfolding load_all
  get_recent_turns session_id = do
    raw_turns ← redis.lrange (session_key session_id)
    (λ c. (load_all raw_turns, c))

  unfoldable pub clear_session_cache : Text → Exec C (Unit {0})
  clear_session_cache session_id = redis.delete (session_key session_id)

  abbrev pub pushes : Text → List Turn → List Command
  pushes key [] = expire key ttl_seconds ∷ []
  pushes key (t ∷ ts) = rpush key (codec.dumps t) ∷ pushes key ts

  abbrev pub rebuild : Text → List Turn → Exec C (Unit {0})
  rebuild key [] = pure tt
  rebuild key (t ∷ ts) = redis.execute (del key ∷ pushes key (t ∷ ts))

  unfoldable pub warm_cache_from_turns : Text → List Turn → Exec C (Unit {0})
  warm_cache_from_turns session_id turns =
      rebuild (session_key session_id) (tail_slice context_window_turns turns)
