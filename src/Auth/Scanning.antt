-- ===== src/Auth/Scanning.antt =====
-- logout_all of app/services/auth_service.py: the scan of Redis for the refresh tokens of a user.
use multimodal_rag.Prelude.{
  ℕ, zero, suc, ◌+◌, ◌<◌, ◌≡◌, ◌≢◌, true, Option, none, some, List, [], ◌∷◌, ◌++◌, length, ◌==◌,
  if◌then◌else◌, All,
}
use multimodal_rag.Prelude.Text.{Text, text, member, starts_with}
use multimodal_rag.Auth.{Keys}

-- `SCAN cursor MATCH prefix* COUNT 100`: the next cursor and some keys
abbrev pub Scan : Type 0 → Type 0
Scan K = ℕ → Text → K → ℕ × List Text

-- `refresh:{user_id}:`, which the pattern of the scan ends in a star
unfoldable pub refresh_prefix : Text → Text
unfolding text
refresh_prefix user_id = text "refresh:" ++ user_id ++ text ":"

module _ {K : Type 0} (redis : Keys K) (scan : Scan K) where
  -- `redis.delete(*keys)`
  unfoldable pub delete_keys : List Text → K → K
  delete_keys [] s = s
  delete_keys (k ∷ ks) s = delete_keys ks (redis.delete k s)

  -- The `while True` loop, on fuel, with the count of the deleted keys: none means that the fuel ran
  -- out.
  unfoldable pub scan_loop : ℕ → Text → ℕ → ℕ → K → Option ℕ × K
  unfolding delete_keys
  scan_loop zero prefix cursor deleted s = (none, s)
  scan_loop (suc fuel) prefix cursor deleted s =
      let (next, keys) = scan cursor prefix s in
      let rest = scan_loop fuel prefix next (deleted + length keys) (delete_keys keys s) in
      if next == 0 then (some (deleted + length keys), delete_keys keys s) else rest

  unfoldable pub logout_all : ℕ → Text → K → Option ℕ × K
  unfolding scan_loop refresh_prefix
  logout_all fuel user_id s = scan_loop fuel (refresh_prefix user_id) 0 0 s

  -- no key is in `t` that is not in `s`
  abbrev pub Deleted : K → K → Type 0
  Deleted s t = (k : Text) → redis.exists k t ≡ true → redis.exists k s ≡ true

  -- The cursors of the calls of an iteration, where call `i` meets the state `states i`, and the keys
  -- that each call gives.
  unfoldable pub cursor_at : Text → (ℕ → K) → ℕ → ℕ
  cursor_at prefix states zero = 0
  cursor_at prefix states (suc i) = (scan (cursor_at prefix states i) prefix (states i)).0

  abbrev pub page_at : Text → (ℕ → K) → ℕ → List Text
  page_at prefix states i = (scan (cursor_at prefix states i) prefix (states i)).1

  -- What Redis documents of a full iteration over these states: the cursor comes back to 0, the keys
  -- match, and each matching key that is there from the start to the end is given by some call.
  pub record FullIteration (prefix : Text) (states : ℕ → K) : Type 0 where
    pub calls : ℕ
    pub some_call : 0 < calls
    pub goes_on : (i : ℕ) → suc i < calls → cursor_at prefix states (suc i) ≢ 0
    pub comes_back : cursor_at prefix states calls ≡ 0
    pub matching : (i : ℕ) → All (λ k. starts_with prefix k ≡ true) (page_at prefix states i)
    pub complete :
        (k : Text)
        → starts_with prefix k ≡ true
        → ((i : ℕ) → i < calls → redis.exists k (states i) ≡ true)
        → (i : ℕ) × (i < calls) × (member k (page_at prefix states i) ≡ true)

  -- The documented guarantee for the iterations that start in `s`, however keys are deleted between
  -- the calls. Redis promises the end of an iteration while the number of keys stays bounded.
  abbrev pub Documented : Text → K → Type 0
  Documented prefix s =
      (states : ℕ → K)
      → states 0 ≡ s
      → ((i : ℕ) → Deleted (states i) (states (suc i)))
      → FullIteration prefix states
