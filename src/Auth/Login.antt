-- ===== src/Auth/Login.antt =====
-- Login, what it gives, and logout.
use multimodal_rag.Prelude.{ℕ, ◌+◌, ◌*◌, ◌≤◌, ◌≡◌, refl, ◌∙◌, true, some, List, ◌&&◌}
use multimodal_rag.Prelude.Text.{Text, text, text_eq, text_eq_refl}
use multimodal_rag.Errors.{Exception}
use multimodal_rag.Exec.{ok, raised}
use multimodal_rag.Auth.{
  Claims, Crypto, CryptoLaws, Keys, KeysLaws, User, Lifetimes, TokenResponse, create_access_token,
  create_refresh_token, refresh_claims, decode_refresh_token, get_user_by_username, get_user_by_id,
  login, refresh, logout, issue_tokens,
}
use multimodal_rag.Auth.Single.{key_of, issued, refresh-unknown}

module _ {K : Type 0} (crypto : Crypto) (crypto_laws : CryptoLaws crypto) (lifetimes : Lifetimes)
    (redis : Keys K) (laws : KeysLaws redis) (users : List User) where
  created :
      (user_id jti : Text) (now at : ℕ)
      → at ≤ now + lifetimes.refresh_token_expire_days * 86400
      → crypto.decode at (create_refresh_token crypto lifetimes user_id jti now)
        ≡ some (refresh_claims crypto lifetimes user_id jti now)
  unfolding create_refresh_token
  created user_id jti now at le =
      crypto_laws.decoded at (refresh_claims crypto lifetimes user_id jti now) le

  -- An active user who logs in with the right password gets a refresh token that is good for a
  -- refresh until it expires, while the account is found under its id: the refresh answers with an
  -- access token for that user.
  pub refresh-login :
      (username password jti jti' : Text) (now later : ℕ) (user : User) (s : K)
      → get_user_by_username crypto lifetimes redis users username ≡ some user
      → (crypto.verify password user.hashed_password && user.is_active) ≡ true
      → user.is_active ≡ true
      → get_user_by_id crypto lifetimes redis users user.id ≡ some user
      → later ≤ now + lifetimes.refresh_token_expire_days * 86400
      → (tokens : TokenResponse) × (t : K) × (u : K) × (login crypto lifetimes redis users username
            password jti now s
          ≡ (ok tokens, t))
        × (refresh crypto lifetimes redis users tokens.refresh_token jti' later t ≡ (
          ok (record {
            access_token = create_access_token crypto lifetimes user.id later;
            expires_in = lifetimes.access_token_expire_minutes * 60;
          }),
          u,
        ))
  unfolding login refresh issue_tokens decode_refresh_token text text_eq
  refresh-login username password jti jti' now later user s named good live found timely =
      let token : Text = create_refresh_token crypto lifetimes user.id jti now in
      let t : K = issued crypto lifetimes redis laws users user jti now s in
      let decoded : crypto.decode later (create_refresh_token crypto lifetimes user.id jti now)
          ≡ some (refresh_claims crypto lifetimes user.id jti now) =
        created user.id jti now later timely in
      let there : redis.exists (key_of crypto lifetimes redis laws users user.id token) t ≡ true =
        laws.stored _ (key_of crypto lifetimes redis laws users user.id token) _ s
        ∙ rw (text_eq_refl (key_of crypto lifetimes redis laws users user.id token)) refl in
      (
        record {
          access_token = create_access_token crypto lifetimes user.id now;
          refresh_token = token;
          expires_in = lifetimes.access_token_expire_minutes * 60;
        },
        t,
        issued crypto lifetimes redis laws users user jti' later
            (redis.delete (key_of crypto lifetimes redis laws users user.id token) t),
        rw (named, good) refl,
        rw (decoded, there, found, live) refl,
      )

  -- After a logout with a refresh token, a refresh with it raises and changes nothing.
  pub refresh-logout :
      (token user_id jti : Text) (now : ℕ) (s : K)
      → ((c : Claims)
          → decode_refresh_token crypto lifetimes now token ≡ ok c
          → c.sub ≡ some user_id)
      → (e : Exception) × (refresh crypto lifetimes redis users token jti now
            (logout crypto lifetimes redis users user_id token s).1
          ≡ (raised e, (logout crypto lifetimes redis users user_id token s).1))
  unfolding logout
  refresh-logout token user_id jti now s whose =
      let k : Text = key_of crypto lifetimes redis laws users user_id token in
      refresh-unknown crypto lifetimes redis laws users token user_id jti now (redis.delete k s)
        whose (laws.deleted k k s ∙ rw (text_eq_refl k) refl)
