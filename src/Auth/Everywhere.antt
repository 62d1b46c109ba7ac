-- ===== src/Auth/Everywhere.antt =====
-- A logout from all devices, for all refresh tokens of its user.
use multimodal_rag.Prelude.{
  ℕ, ◌≤◌, ◌≡◌, refl, ◌∙◌, true, false, some, List, [], ◌∷◌, ◌++◌, ==_refl, if◌then◌else◌,
}
use multimodal_rag.Prelude.Text.{Text, starts_with}
use multimodal_rag.Errors.{Exception}
use multimodal_rag.Exec.{ok, raised}
use multimodal_rag.Auth.{
  Claims, Crypto, Keys, KeysLaws, User, Lifetimes, decode_refresh_token, refresh,
}
use multimodal_rag.Auth.Single.{key_of, refresh-unknown}
use multimodal_rag.Auth.Scanning.{Scan, refresh_prefix, logout_all, Documented}
use multimodal_rag.Auth.Scanned.{scan_loop_lem}

starts_with-append : (p s : Text) → starts_with p (p ++ s) ≡ true
unfolding starts_with
starts_with-append [] s = refl
starts_with-append (c ∷ p) s = rw (==_refl c) (starts_with-append p s)

module _ {K : Type 0} (crypto : Crypto) (lifetimes : Lifetimes) (redis : Keys K) (scan : Scan K)
    (laws : KeysLaws redis) (users : List User) where
  key-prefix :
      (user_id token : Text)
      → starts_with
          (refresh_prefix user_id)
          (key_of crypto lifetimes redis laws users user_id token)
        ≡ true
  unfolding refresh_prefix
  key-prefix user_id token = starts_with-append (refresh_prefix user_id) (crypto.sha256 token)

  -- Under the guarantee that Redis documents for SCAN, whatever is deleted between its calls, a logout
  -- from all devices ends: from some fuel on it returns, with the same count and the same state. It
  -- deletes the keys of the refresh tokens of its user and no other key, and afterwards a refresh with
  -- a token of the user raises and changes nothing, while none is issued. It is assumed that the token
  -- names this user whenever it decodes.
  pub logout_all_lem :
      (user_id : Text) (s : K)
      → Documented redis scan (refresh_prefix user_id) s
      → (n rounds : ℕ) × (u : K) × ((fuel : ℕ)
          → rounds ≤ fuel
          → logout_all redis scan fuel user_id s ≡ (some n, u))
        × ((k : Text)
            → redis.exists k u
              ≡ (if starts_with (refresh_prefix user_id) k then false else redis.exists k s))
        × ((token jti : Text) (now : ℕ)
            → ((c : Claims)
                → decode_refresh_token crypto lifetimes now token ≡ ok c
                → c.sub ≡ some user_id)
            → (e : Exception) × (refresh crypto lifetimes redis users token jti now u
                ≡ (raised e, u)))
  unfolding logout_all
  logout_all_lem user_id s documented =
      let (n, rounds, u, runs, keys) =
        scan_loop_lem redis scan laws (refresh_prefix user_id) s documented in
      (
        n,
        rounds,
        u,
        runs,
        keys,
        λ token jti now whose.
            refresh-unknown crypto lifetimes redis laws users token user_id jti now u whose (
              keys (key_of crypto lifetimes redis laws users user_id token)
              ∙ rw (key-prefix user_id token) refl),
      )
