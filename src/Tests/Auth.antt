-- ===== src/Tests/Auth.antt =====
-- Logins, refreshes and requests of one user.
use multimodal_rag.Prelude.{
  ℕ, ◌≡◌, inl, inr, refl, subst, false, none, some, [], ◌∷◌, leb, arith, Bool-cases, if◌then◌else◌,
}
use multimodal_rag.Prelude.Text.{Text, text, text_eq}
use multimodal_rag.Errors.{Exception, app, invalid_token}
use multimodal_rag.Exec.{ok, raised}
use multimodal_rag.Auth.{
  checked, issue_tokens, Claims, User, default_lifetimes, TokenResponse, create_access_token,
  create_refresh_token, decode_access_token, decode_refresh_token, refresh_claims,
  get_user_by_username, get_user_by_id, login, refresh, logout,
}
use multimodal_rag.Auth.Tokens.{decode-create}
use multimodal_rag.Auth.Single.{key_of, Outcome, refresh-Outcome, refresh-once}
use multimodal_rag.Auth.Login.{refresh-login, refresh-logout}
use multimodal_rag.Auth.Current.{Decided, get_current_user_lem}
use multimodal_rag.Tests.Tokens.{
  Table, crypto, redis, empty, alice, crypto-CryptoLaws, redis-KeysLaws,
}

decode-create_run :
    ((c : Claims) × (decode_access_token crypto default_lifetimes 900
          (create_access_token crypto default_lifetimes (1 ∷ []) 0)
        ≡ ok c)
      × (c.sub ≡ some (1 ∷ [])))
    × (decode_refresh_token crypto default_lifetimes 900
          (create_access_token crypto default_lifetimes (1 ∷ []) 0)
        ≡ raised (app invalid_token))
    × ((c : Claims) × (decode_refresh_token crypto default_lifetimes 900
            (create_refresh_token crypto default_lifetimes (1 ∷ []) (5 ∷ []) 0)
          ≡ ok c)
        × (c.sub ≡ some (1 ∷ [])))
    × (decode_access_token crypto default_lifetimes 900
          (create_refresh_token crypto default_lifetimes (1 ∷ []) (5 ∷ []) 0)
        ≡ raised (app invalid_token))
decode-create_run =
    decode-create crypto crypto-CryptoLaws default_lifetimes (1 ∷ []) (5 ∷ []) 0 900 (omega arith)
      (omega arith)

refresh-Outcome_example :
    Outcome crypto default_lifetimes redis redis-KeysLaws (alice ∷ []) (5 ∷ []) (6 ∷ []) 10 empty
refresh-Outcome_example =
    refresh-Outcome crypto default_lifetimes redis redis-KeysLaws (alice ∷ []) (5 ∷ []) (6 ∷ []) 10
      empty

abbrev token : Text
token = create_refresh_token crypto default_lifetimes (1 ∷ []) (5 ∷ []) 0

logged_in :
    (login crypto default_lifetimes redis (alice ∷ []) (97 ∷ []) (112 ∷ []) (5 ∷ []) 0 empty).0
    ≡ ok (record {
      access_token = create_access_token crypto default_lifetimes (1 ∷ []) 0;
      refresh_token = token;
      expires_in = 900;
    })
unfolding login get_user_by_username text_eq issue_tokens
logged_in = refl

abbrev with_token : Table
with_token =
    redis.setex (key_of crypto default_lifetimes redis redis-KeysLaws (alice ∷ []) (1 ∷ []) token)
      604800 empty

token-sub :
    (at : ℕ) (c : Claims)
    → decode_refresh_token crypto default_lifetimes at token ≡ ok c
    → c.sub ≡ some (1 ∷ [])
unfolding decode_refresh_token create_refresh_token text text_eq
token-sub at c e = elim (Bool-cases (leb at 604800)) [
  | inl b ↦ ground (
    arith,
    subst
        (λ x.
          checked crypto default_lifetimes (text "refresh")
            (if x then some (refresh_claims crypto default_lifetimes (1 ∷ []) (5 ∷ []) 0) else none)
          ≡ ok c)
        b e,
  )
  | inr b ↦ absurd (
      ground (
        arith,
        subst
            (λ x.
              checked crypto default_lifetimes (text "refresh") (
                if x
                then some (refresh_claims crypto default_lifetimes (1 ∷ []) (5 ∷ []) 0)
                else none)
              ≡ ok c)
            b e,
      ))
]

refresh-once_example :
    (e : Exception) × (refresh crypto default_lifetimes redis
        (alice ∷ [])
        token
        (7 ∷ [])
        30
        (refresh crypto default_lifetimes redis (alice ∷ []) token (6 ∷ []) 20 with_token).1
      ≡ (
        raised e,
        (refresh crypto default_lifetimes redis (alice ∷ []) token (6 ∷ []) 20 with_token).1,
      ))
unfolding refresh get_user_by_id create_refresh_token create_access_token decode_refresh_token
    issue_tokens text text_eq
refresh-once_example =
    refresh-once crypto default_lifetimes redis redis-KeysLaws (alice ∷ []) token (1 ∷ []) (6 ∷ [])
      (7 ∷ []) 20 30 with_token _
      (record {
        access_token = create_access_token crypto default_lifetimes (1 ∷ []) 20;
        expires_in = 900;
      })
      token-sub new_key refl
  where
    new_key :
        (user : User)
        → get_user_by_id crypto default_lifetimes redis (alice ∷ []) (1 ∷ []) ≡ some user
        → text_eq
            (key_of crypto default_lifetimes redis redis-KeysLaws
              (alice ∷ [])
              user.id
              (create_refresh_token crypto default_lifetimes user.id (6 ∷ []) 20))
            (key_of crypto default_lifetimes redis redis-KeysLaws (alice ∷ []) (1 ∷ []) token)
          ≡ false
    new_key user e =
        let same : alice ≡ user = ground arith in
        subst
          (λ u.
            text_eq
              (key_of crypto default_lifetimes redis redis-KeysLaws (alice ∷ []) u.id
                (create_refresh_token crypto default_lifetimes u.id (6 ∷ []) 20))
              (key_of crypto default_lifetimes redis redis-KeysLaws (alice ∷ []) (1 ∷ []) token)
            ≡ false)
          same refl

refresh-login_example :
    (tokens : TokenResponse) × (t : Table) × (u : Table) × (login crypto default_lifetimes redis
        (alice ∷ [])
        (97 ∷ [])
        (112 ∷ [])
        (5 ∷ [])
        0
        empty
      ≡ (ok tokens, t))
    × (refresh crypto default_lifetimes redis (alice ∷ []) tokens.refresh_token (6 ∷ []) 20 t ≡ (
      ok (record {
        access_token = create_access_token crypto default_lifetimes (1 ∷ []) 20;
        expires_in = 900;
      }),
      u,
    ))
unfolding get_user_by_username get_user_by_id text_eq
refresh-login_example =
    refresh-login crypto crypto-CryptoLaws default_lifetimes redis redis-KeysLaws (alice ∷ [])
      (97 ∷ []) (112 ∷ []) (5 ∷ []) (6 ∷ []) 0 20 alice empty refl refl refl refl (omega arith)

refresh-logout_run :
    (e : Exception) × (refresh crypto default_lifetimes redis
        (alice ∷ [])
        token
        (6 ∷ [])
        20
        (logout crypto default_lifetimes redis (alice ∷ []) (1 ∷ []) token with_token).1
      ≡ (
        raised e,
        (logout crypto default_lifetimes redis (alice ∷ []) (1 ∷ []) token with_token).1,
      ))
refresh-logout_run =
    refresh-logout crypto crypto-CryptoLaws default_lifetimes redis redis-KeysLaws (alice ∷ [])
      token (1 ∷ []) (6 ∷ []) 20 with_token (token-sub 20)

get_current_user_lem_example : Decided crypto default_lifetimes (alice ∷ []) (some token) 20 none
get_current_user_lem_example =
    get_current_user_lem crypto default_lifetimes (alice ∷ []) (some token) 20 none
