-- ===== src/Auth/Tokens.antt =====
-- A token of one kind is never taken for the other.
use multimodal_rag.Prelude.{ℕ, ◌+◌, ◌*◌, ◌≤◌, ◌≡◌, refl, some}
use multimodal_rag.Prelude.Text.{Text, text, text_eq}
use multimodal_rag.Errors.{app, invalid_token}
use multimodal_rag.Exec.{ok, raised}
use multimodal_rag.Auth.{
  Claims, Crypto, CryptoLaws, Lifetimes, access_claims, refresh_claims, create_access_token,
  create_refresh_token, decode_access_token, decode_refresh_token,
}

module _ (crypto : Crypto) (laws : CryptoLaws crypto) (lifetimes : Lifetimes) (user_id : Text) where
  -- Until it expires, an access token decodes as an access token of its user and not as a refresh
  -- token, and a refresh token decodes as a refresh token of its user and not as an access token.
  pub decode-create :
      (jti : Text) (issued now : ℕ)
      → now ≤ issued + lifetimes.access_token_expire_minutes * 60
      → now ≤ issued + lifetimes.refresh_token_expire_days * 86400
      → ((c : Claims) × (decode_access_token crypto lifetimes now
              (create_access_token crypto lifetimes user_id issued)
            ≡ ok c)
          × (c.sub ≡ some user_id))
        × (decode_refresh_token crypto lifetimes now
              (create_access_token crypto lifetimes user_id issued)
            ≡ raised (app invalid_token))
        × ((c : Claims) × (decode_refresh_token crypto lifetimes now
                (create_refresh_token crypto lifetimes user_id jti issued)
              ≡ ok c)
            × (c.sub ≡ some user_id))
        × (decode_access_token crypto lifetimes now
              (create_refresh_token crypto lifetimes user_id jti issued)
            ≡ raised (app invalid_token))
  unfolding decode_access_token decode_refresh_token create_access_token create_refresh_token text
      text_eq
  decode-create jti issued now a r =
      let access = laws.decoded now (access_claims crypto lifetimes user_id issued) a in
      let renewal = laws.decoded now (refresh_claims crypto lifetimes user_id jti issued) r in
      (
        (access_claims crypto lifetimes user_id issued, rw access refl, refl),
        rw access refl,
        (refresh_claims crypto lifetimes user_id jti issued, rw renewal refl, refl),
        rw renewal refl,
      )
