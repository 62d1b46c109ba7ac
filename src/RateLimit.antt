-- ===== src/RateLimit.antt =====
-- app/core/rate_limiter.py: the sliding window over a Redis sorted set, and the two dependencies.
pub mod Zset
pub mod Window
pub mod Bound
pub mod History
use multimodal_rag.Prelude.{
  ℕ, zero, suc, ◌+◌, ◌-◌, ◌*◌, ◌/◌, ◌≤◌, max, Bool, true, false, Option, none, some, List, [], ◌∷◌,
  ◌++◌, ◌≡◌, ◌≢◌, ◌⊎◌, leb, ltb, ◌==◌, keep, length, All, if◌then◌else◌,
}
use multimodal_rag.Prelude.Text.{Text, text, strip}
use multimodal_rag.Errors.{Exception, app, other, rate_limit_exceeded}
use multimodal_rag.Exec.{Result, ok, raised, Exec, pure, fail, throw, continue, ◌>>=◌}

-- A member of a sorted set and its score, a Unix time in milliseconds.
abbrev pub Entry : Type 0
Entry = ℕ × ℕ

-- The Redis commands that the limiter sends, on the keys' state `R`. `entries` is what a client can
-- read of a key (`zadd_new` makes the new member's UUID), `deadline` the time at which the key goes, and `passes` the state as it is found
-- at a later time.
pub record Zsets (R : Type 0) : Type 0 where
  pub zremrangebyscore : Text → ℕ → R → R
  pub zcard : Text → R → ℕ
  pub zadd_new : Text → ℕ → R → R
  pub expire : Text → ℕ → ℕ → R → R
  pub zpopmax : Text → R → R
  pub zrange_first : Text → R → Option ℕ
  pub zscore : Text → ℕ → R → Option ℕ
  pub entries : Text → R → List Entry
  pub deadline : Text → R → Option ℕ
  pub passes : ℕ → R → R

-- `ys` is `xs` with the entry `e` at one place.
pub record Added (e : Entry) (xs ys : List Entry) : Type 0 where
  pub before : List Entry
  pub after : List Entry
  pub old : xs ≡ before ++ after
  pub new : ys ≡ before ++ e ∷ after

-- What Redis documents of these commands.
pub record ZsetLaws {R : Type 0} (z : Zsets R) : Type 0 where
  pub removed :
      (k : Text) (c : ℕ) (s : R)
      → z.entries k (z.zremrangebyscore k c s) ≡ keep (λ e. ltb c e.1) (z.entries k s)
  pub counted : (k : Text) (s : R) → z.zcard k s ≡ length (z.entries k s)
  pub added :
      (k : Text) (t : ℕ) (s : R)
      → (m : ℕ) × Added (m, t) (z.entries k s) (z.entries k (z.zadd_new k t s))
  pub kept : (k : Text) (n now : ℕ) (s : R) → z.entries k (z.expire k n now s) ≡ z.entries k s
  pub popped :
      (k : Text) (s : R)
      → z.entries k s ≢ []
      → (e : Entry) × Added e (z.entries k (z.zpopmax k s)) (z.entries k s)
        × All (λ x. x.1 ≤ e.1) (z.entries k s)
  pub first :
      (k : Text) (s : R)
      → z.entries k s ≢ []
      → (e : Entry) × (rest : List Entry) × Added e rest (z.entries k s)
        × (z.zrange_first k s ≡ some e.0)
        × (z.zscore k e.0 s ≡ some e.1)
  pub deadline_set :
      (k : Text) (n now : ℕ) (s : R) → z.deadline k (z.expire k n now s) ≡ some (now + n * 1000)
  pub deadline_kept :
      (k : Text) (s : R)
      → z.entries k (z.zpopmax k s) ≢ []
      → z.deadline k (z.zpopmax k s) ≡ z.deadline k s
  pub passed :
      (k : Text) (now : ℕ) (s : R)
      → (z.entries k (z.passes now s) ≡ z.entries k s)
        ⊎ ((z.entries k (z.passes now s) ≡ []) × (d : ℕ) × (z.deadline k s ≡ some d) × (d ≤ now))

module _ {R : Type 0} (z : Zsets R) where
  -- `if oldest_ms`: neither a missing score nor zero
  abbrev pub retry_after : ℕ → ℕ → Option ℕ → ℕ
  retry_after window_seconds now none = window_seconds
  retry_after window_seconds now (some zero) = window_seconds
  retry_after window_seconds now (some (suc oldest)) =
      max 1 ((suc oldest + window_seconds * 1000 - now) / 1000)

  -- `redis.zscore(key, (await redis.zrange(key, 0, 0))[0])`, with the `IndexError` of an empty range
  abbrev pub oldest_score : Text → R → Option ℕ → Result (Option ℕ)
  oldest_score key s none = raised other
  oldest_score key s (some member) = ok (z.zscore key member s)

  abbrev pub oldest : Text → ℕ → ℕ → R → Result (Option ℕ)
  oldest key now count s =
      if ltb 0 count then oldest_score key s (z.zrange_first key s) else ok (some now)

  abbrev pub denied : ℕ → ℕ → Result (Option ℕ) → Result (Bool × ℕ)
  denied window_seconds now (ok o) = ok (false, retry_after window_seconds now o)
  denied window_seconds now (raised e) = raised e

  abbrev pub redis_key : Text → Text
  redis_key key = text "rate:" ++ key

  -- The pipeline runs as one transaction; `now` is the clock in Unix milliseconds, which is past any
  -- window, so that the cutoff is not negative. The answer is whether the request is allowed, and the
  -- seconds to wait if it is not.
  unfoldable pub sliding_window_check : Text → ℕ → ℕ → ℕ → Exec R (Bool × ℕ)
  sliding_window_check key limit window_seconds now s =
      let pruned = z.zremrangebyscore (redis_key key) (now - window_seconds * 1000) s in
      let current_count = z.zcard (redis_key key) pruned in
      let stamped =
        z.expire (redis_key key) (window_seconds + 1) now (z.zadd_new (redis_key key) now pruned) in
      if leb limit current_count
      then (let undone = z.zpopmax (redis_key key) stamped in
          (denied window_seconds now (oldest (redis_key key) now current_count undone), undone))
      else (ok (true, 0), stamped)

  abbrev pub or_default : ℕ → ℕ → ℕ
  or_default zero d = d
  or_default (suc n) d = suc n

  abbrev pub refuse : Bool × ℕ → Exec R (Unit {0})
  refuse (true, seconds) = pure tt
  refuse (false, seconds) = fail (rate_limit_exceeded seconds)

  abbrev pub user_check : Option Text → (Text → Exec R (Bool × ℕ)) → Exec R (Unit {0})
  user_check none check = fail (rate_limit_exceeded 60)
  user_check (some user_id) check = do verdict ← check (text "user:" ++ user_id); refuse verdict

  -- the dependency that `get_rate_limiter(limit, window)` returns
  unfoldable pub rate_limiter : ℕ → ℕ → ℕ → Option Text → ℕ → Exec R (Unit {0})
  unfolding sliding_window_check text
  rate_limiter default_limit limit window user_id now =
      user_check user_id
        (λ key. sliding_window_check key (or_default limit default_limit) window now)

  -- `s.split(",")[0]`
  unfoldable pub up_to_comma : Text → Text
  up_to_comma [] = []
  up_to_comma (c ∷ s) = let rest = up_to_comma s in if c == 44 then [] else c ∷ rest

  abbrev pub host_or_unknown : Option Text → Text
  host_or_unknown none = text "unknown"
  host_or_unknown (some h) = h

  -- the address of the `X-Forwarded-For` header, or else of the client
  abbrev pub client_ip : Option Text → Option Text → Text
  client_ip none host = host_or_unknown host
  client_ip (some []) host = host_or_unknown host
  client_ip (some (c ∷ s)) host = strip (up_to_comma (c ∷ s))

  -- the dependency that `get_ip_rate_limiter(limit, window)` returns
  unfoldable pub ip_rate_limiter : ℕ → ℕ → ℕ → Option Text → Option Text → ℕ → Exec R (Unit {0})
  unfolding sliding_window_check text up_to_comma strip
  ip_rate_limiter default_limit limit window forwarded_for host now = do
    verdict ←
        sliding_window_check (text "ip:" ++ client_ip forwarded_for host)
          (or_default limit default_limit) window now
    refuse verdict

  -- Requests of one key in the order of their arrival, each at its time: the
  -- decisions, and the state behind them.
  abbrev pub verdict_of : Result (Bool × ℕ) → Bool
  verdict_of (ok v) = v.0
  verdict_of (raised e) = false

  unfoldable pub run : Text → ℕ → ℕ → List ℕ → R → List Bool
  unfolding sliding_window_check
  run key limit window_seconds [] s = []
  run key limit window_seconds (now ∷ requests) s =
      let outcome = sliding_window_check key limit window_seconds now (z.passes now s) in
      verdict_of outcome.0 ∷ run key limit window_seconds requests outcome.1
