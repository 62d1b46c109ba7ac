-- ===== src/Auth/Single.antt =====
-- Refresh tokens are used once, and what a login gives is good for a refresh.
use multimodal_rag.Prelude.{
  ℕ, ◌*◌, ◌≡◌, ◌⊎◌, inl, inr, refl, sym, ◌∙◌, subst, true, false, Option, none, some, List, arith,
  Bool-cases, Option-cases,
}
use multimodal_rag.Prelude.Text.{Text, text, text_eq, text_eq_refl}
use multimodal_rag.Errors.{Exception, app, other, unauthorized}
use multimodal_rag.Exec.{Result, ok, raised, ok-pair}
use multimodal_rag.Auth.{
  Claims, Crypto, Keys, KeysLaws, User, Lifetimes, AccessTokenResponse, create_access_token,
  create_refresh_token, decode_refresh_token, refresh_redis_key, get_user_by_id, refresh, renew,
  issue_tokens,
}

module _ {K : Type 0} (crypto : Crypto) (lifetimes : Lifetimes) (redis : Keys K)
    (laws : KeysLaws redis) (users : List User) where
  abbrev pub key_of : Text → Text → Text
  key_of user_id token = refresh_redis_key crypto lifetimes user_id (crypto.sha256 token)

  -- the state after a refresh for `user`, from the one where the used token is gone
  abbrev pub issued : User → Text → ℕ → K → K
  issued user jti now s =
      redis.setex (key_of user.id (create_refresh_token crypto lifetimes user.id jti now))
        (lifetimes.refresh_token_expire_days * 86400) s

  renew-outcome :
      (o : Option User) (jti : Text) (now : ℕ) (s : K)
      → ((e : Exception) × (renew crypto lifetimes redis users o jti now s ≡ (raised e, s)))
        ⊎ ((user : User) × (o ≡ some user)
            × (user.is_active ≡ true)
            × (renew crypto lifetimes redis users o jti now s ≡ (
              ok (record {
                access_token = create_access_token crypto lifetimes user.id now;
                expires_in = lifetimes.access_token_expire_minutes * 60;
              }),
              issued user jti now s,
            )))
  unfolding issue_tokens text
  renew-outcome none jti now s = inl (_, refl)
  renew-outcome (some user) jti now s = elim (Bool-cases user.is_active) [
    | inl e ↦ inr (user, refl, e, rw e refl)
    | inr e ↦ inl (app (unauthorized (text "Account is inactive.")), rw e refl)
  ]

  -- the token of `user_id` was known
  abbrev pub Used : Text → Text → ℕ → K → Type 0
  Used token jti now s =
      (c : Claims) × (user_id : Text) × (decode_refresh_token crypto lifetimes now token ≡ ok c)
      × (c.sub ≡ some user_id)
      × (redis.exists (key_of user_id token) s ≡ true)
      × (((e : Exception) × (refresh crypto lifetimes redis users token jti now s
              ≡ (raised e, redis.delete (key_of user_id token) s)))
          ⊎ ((user : User) × (get_user_by_id crypto lifetimes redis users user_id ≡ some user)
              × (user.is_active ≡ true)
              × (refresh crypto lifetimes redis users token jti now s ≡ (
                ok (record {
                  access_token = create_access_token crypto lifetimes user.id now;
                  expires_in = lifetimes.access_token_expire_minutes * 60;
                }),
                issued user jti now (redis.delete (key_of user_id token) s),
              ))))

  abbrev pub Outcome : Text → Text → ℕ → K → Type 0
  Outcome token jti now s =
      ((e : Exception) × (refresh crypto lifetimes redis users token jti now s ≡ (raised e, s)))
      ⊎ Used token jti now s

  -- A refresh raises and changes nothing; or its token was known, is removed, and either the refresh
  -- raises, or the account is active, the answer is an access token for it, and the key of a new
  -- refresh token is stored, which the answer does not contain.
  pub refresh-Outcome : (token jti : Text) (now : ℕ) (s : K) → Outcome token jti now s
  unfolding refresh text
  refresh-Outcome token jti now s = by_claims (decode_refresh_token crypto lifetimes now token) refl
    where
      by_claims :
          (d : Result Claims)
          → decode_refresh_token crypto lifetimes now token ≡ d
          → Outcome token jti now s
      by_claims (raised e) eq = inl (e, rw eq refl)
      by_claims (ok c) eq = elim (Option-cases c.sub) [
        | inl nobody ↦ inl (other, rw (eq, nobody) refl)
        | inr (user_id, who) ↦ elim (Bool-cases (redis.exists (key_of user_id token) s)) [
          | inr gone ↦ inl (
            app (unauthorized (text "Refresh token is invalid or has been revoked.")),
            rw (eq, who, gone) refl,
          )
          | inl there ↦
              elim (renew-outcome (get_user_by_id crypto lifetimes redis users user_id) jti now
                (redis.delete (key_of user_id token) s)) [
                  | inl (e, r) ↦ inr (c, user_id, eq, who, there, inl (e, rw (eq, who, there) r))
                  | inr (user, at, live, r) ↦
                      inr (c, user_id, eq, who, there, inr (user, at, live, rw (eq, who, there) r))
                ]
        ]
      ]

  -- a token whose key is gone changes nothing
  pub refresh-unknown :
      (token user_id jti : Text) (now : ℕ) (s : K)
      → ((c : Claims)
          → decode_refresh_token crypto lifetimes now token ≡ ok c
          → c.sub ≡ some user_id)
      → redis.exists (key_of user_id token) s ≡ false
      → (e : Exception) × (refresh crypto lifetimes redis users token jti now s ≡ (raised e, s))
  refresh-unknown token user_id jti now s whose gone = elim (refresh-Outcome token jti now s) [
    | inl r ↦ r
    | inr (c, u, decoded, who, there, more) ↦
        let same : some u ≡ some user_id = sym who ∙ whose c decoded in
        let bad : redis.exists (key_of user_id token) s ≡ true =
          subst (λ v. redis.exists (key_of v token) s ≡ true) (some-inj u user_id same) there in
        absurd (ground arith)
  ]
    where
      some-inj : (a b : Text) → some a ≡ some b → a ≡ b
      some-inj a b e = ground arith

  -- A refresh token is good once: after a refresh that returned, a second one with the same token
  -- raises and changes nothing, at whatever time and whatever its own new token. It is assumed that
  -- the token names one user whenever it decodes, and that the key of the new token is another one.
  pub refresh-once :
      (token user_id jti jti' : Text) (now now' : ℕ) (s t : K) (r : AccessTokenResponse)
      → ((at : ℕ) (c : Claims)
          → decode_refresh_token crypto lifetimes at token ≡ ok c
          → c.sub ≡ some user_id)
      → ((user : User)
          → get_user_by_id crypto lifetimes redis users user_id ≡ some user
          → text_eq
              (key_of user.id (create_refresh_token crypto lifetimes user.id jti now))
              (key_of user_id token)
            ≡ false)
      → refresh crypto lifetimes redis users token jti now s ≡ (ok r, t)
      → (e : Exception) × (refresh crypto lifetimes redis users token jti' now' t ≡ (raised e, t))
  refresh-once token user_id jti jti' now now' s t r whose fresh first =
      elim (refresh-Outcome token jti now s) [
        | inl (e, raises) ↦
            let bad : ◌≡◌ {A = Result AccessTokenResponse × K} (raised e, s) (ok r, t) =
              sym raises ∙ first in
            absurd cc
        | inr (c, u, decoded, who, there, inl (e, raises)) ↦
            let bad : ◌≡◌ {A = Result AccessTokenResponse × K} (raised e, _) (ok r, t) =
              sym raises ∙ first in
            absurd cc
        | inr (c, u, decoded, who, there, inr (user, at, live, answers)) ↦
            let same : u ≡ user_id = some-inj u user_id (sym who ∙ whose now c decoded) in
            let state : issued user jti now (redis.delete (key_of u token) s) ≡ t =
              (ok-pair _ _ _ _ (sym answers ∙ first)).1 in
            let gone : redis.exists (key_of user_id token)
                  (issued user jti now (redis.delete (key_of u token) s))
                ≡ false =
              laws.stored _ (key_of user_id token) _ (redis.delete (key_of u token) s)
              ∙ rw
                  (fresh user (
                    subst (λ v. get_user_by_id crypto lifetimes redis users v ≡ some user) same at))
                  (laws.deleted (key_of u token) (key_of user_id token) s
                    ∙ rw (same, text_eq_refl (key_of user_id token)) refl) in
            refresh-unknown token user_id jti' now' t (whose now')
              (subst (λ w. redis.exists (key_of user_id token) w ≡ false) state gone)
      ]
    where
      some-inj : (a b : Text) → some a ≡ some b → a ≡ b
      some-inj a b e = ground arith
