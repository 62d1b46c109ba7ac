-- ===== src/Auth.antt =====
-- app/core/security.py and app/services/auth_service.py: tokens, login, refresh and logout.
pub mod Current
pub mod Tokens
pub mod Single
pub mod Login
pub mod Scanning
pub mod Scanned
pub mod Everywhere
pub mod Routes
use multimodal_rag.Prelude.{
  ℕ, zero, suc, ◌+◌, ◌*◌, ◌≤◌, ◌≡◌, Bool, true, false, Option, none, some, List, [], ◌∷◌, ◌++◌,
  keep, head?, ◌&&◌, if◌then◌else◌,
}
use multimodal_rag.Prelude.Text.{Text, text, text_eq}
use multimodal_rag.Errors.{Exception, app, other, unauthorized, invalid_token}
use multimodal_rag.Exec.{Result, ok, raised, Exec, pure, throw, fail, gets, continue, ◌>>=◌, ◌>>◌}

-- The claims of a token, times in seconds. `kind` is the claim `type`, if it is a text.
pub record Claims : Type 0 where
  pub sub : Option Text
  pub kind : Option Text
  pub jti : Option Text
  pub iat : ℕ
  pub exp : ℕ

-- What is not in the repository: `jwt` with the secret and the algorithm of the settings, of which
-- `decode` at a time gives nothing where it raises `JWTError`; the password context; SHA-256; and
-- `uuid.UUID`, which gives the canonical text of an id.
pub record Crypto : Type 0 where
  pub encode : Claims → Text
  pub decode : ℕ → Text → Option Claims
  pub verify : Text → Text → Bool
  pub sha256 : Text → Text
  pub parse_uuid : Text → Option Text

-- A token that was encoded is decoded until it expires, and an id is its own canonical text.
pub record CryptoLaws (crypto : Crypto) : Type 0 where
  pub decoded : (now : ℕ) (c : Claims) → now ≤ c.exp → crypto.decode now (crypto.encode c) ≡ some c

-- The Redis commands of the service. An `exists` is of a key that has not expired.
pub record Keys (K : Type 0) : Type 0 where
  pub exists : Text → K → Bool
  pub delete : Text → K → K
  pub setex : Text → ℕ → K → K

pub record KeysLaws {K : Type 0} (redis : Keys K) : Type 0 where
  pub deleted :
      (k j : Text) (s : K)
      → redis.exists j (redis.delete k s) ≡ (if text_eq k j then false else redis.exists j s)
  pub stored :
      (k j : Text) (ttl : ℕ) (s : K)
      → redis.exists j (redis.setex k ttl s) ≡ (if text_eq k j then true else redis.exists j s)

pub record User : Type 0 where
  pub id : Text
  pub username : Text
  pub hashed_password : Text
  pub is_active : Bool
  pub is_admin : Bool

pub record Lifetimes : Type 0 where
  pub access_token_expire_minutes : ℕ
  pub refresh_token_expire_days : ℕ

abbrev pub default_lifetimes : Lifetimes
default_lifetimes = record { access_token_expire_minutes = 15; refresh_token_expire_days = 7 }

-- TokenResponse, less its constant `token_type`
pub record TokenResponse : Type 0 where
  pub access_token : Text
  pub refresh_token : Text
  pub expires_in : ℕ

pub record AccessTokenResponse : Type 0 where
  pub access_token : Text
  pub expires_in : ℕ

module _ (crypto : Crypto) (lifetimes : Lifetimes) where
  abbrev pub access_claims : Text → ℕ → Claims
  access_claims user_id now = record {
    sub = some user_id;
    kind = some (text "access");
    jti = none;
    iat = now;
    exp = now + lifetimes.access_token_expire_minutes * 60;
  }

  unfoldable pub create_access_token : Text → ℕ → Text
  create_access_token user_id now = crypto.encode (access_claims user_id now)

  -- `jti` is a new UUID
  abbrev pub refresh_claims : Text → Text → ℕ → Claims
  refresh_claims user_id jti now = record {
    sub = some user_id;
    kind = some (text "refresh");
    jti = some jti;
    iat = now;
    exp = now + lifetimes.refresh_token_expire_days * 86400;
  }

  unfoldable pub create_refresh_token : Text → Text → ℕ → Text
  create_refresh_token user_id jti now = crypto.encode (refresh_claims user_id jti now)

  abbrev pub is_kind : Text → Option Text → Bool
  is_kind kind none = false
  is_kind kind (some k) = text_eq k kind

  abbrev pub checked : Text → Option Claims → Result Claims
  checked kind none = raised (app invalid_token)
  checked kind (some c) = if is_kind kind c.kind then ok c else raised (app invalid_token)

  unfoldable pub decode_access_token : ℕ → Text → Result Claims
  unfolding text text_eq
  decode_access_token now token = checked (text "access") (crypto.decode now token)

  unfoldable pub decode_refresh_token : ℕ → Text → Result Claims
  unfolding text text_eq
  decode_refresh_token now token = checked (text "refresh") (crypto.decode now token)

  abbrev pub refresh_redis_key : Text → Text → Text
  refresh_redis_key user_id token_hash = text "refresh:" ++ user_id ++ text ":" ++ token_hash

  -- The table of users is only read here; the state is the one of Redis.
  module _ {K : Type 0} (redis : Keys K) (users : List User) where
    unfoldable pub issue_tokens : User → Text → ℕ → Exec K TokenResponse
    unfolding create_access_token create_refresh_token
    issue_tokens user jti now s =
        let access_token = create_access_token user.id now in
        let refresh_token = create_refresh_token user.id jti now in
        (
          ok (record {
            access_token = access_token;
            refresh_token = refresh_token;
            expires_in = lifetimes.access_token_expire_minutes * 60;
          }),
          redis.setex (refresh_redis_key user.id (crypto.sha256 refresh_token))
              (lifetimes.refresh_token_expire_days * 86400) s,
        )

    unfoldable pub get_user_by_username : Text → Option User
    unfolding text_eq
    get_user_by_username username = head? (keep (λ u. text_eq u.username username) users)

    abbrev pub with_id : Option Text → Option User
    with_id none = none
    with_id (some uid) = head? (keep (λ u. text_eq u.id uid) users)

    unfoldable pub get_user_by_id : Text → Option User
    unfolding text_eq
    get_user_by_id user_id = with_id (crypto.parse_uuid user_id)

    abbrev pub invalid_credentials : Exec K TokenResponse
    invalid_credentials = fail (unauthorized (text "Invalid credentials."))

    -- the password is verified against a dummy hash where there is no user
    abbrev pub login_as : Option User → Text → Text → ℕ → Exec K TokenResponse
    login_as none password jti now = invalid_credentials
    login_as (some user) password jti now =
        if crypto.verify password user.hashed_password && user.is_active
        then issue_tokens user jti now
        else invalid_credentials

    unfoldable pub login : Text → Text → Text → ℕ → Exec K TokenResponse
    unfolding get_user_by_username issue_tokens
    login username password jti now = login_as (get_user_by_username username) password jti now

    -- `payload["sub"]`
    abbrev pub subject : Claims → Result Text
    subject c = elim c.sub [ none ↦ raised other | some user_id ↦ ok user_id ]

    abbrev pub renew : Option User → Text → ℕ → Exec K AccessTokenResponse
    renew none jti now = fail (unauthorized (text "Account is inactive."))
    renew (some user) jti now =
        if user.is_active
        then (do
          tokens ← issue_tokens user jti now
          pure (record {
            access_token = tokens.access_token;
            expires_in = lifetimes.access_token_expire_minutes * 60;
          }))
        else fail (unauthorized (text "Account is inactive."))

    unfoldable pub refresh : Text → Text → ℕ → Exec K AccessTokenResponse
    unfolding decode_refresh_token get_user_by_id issue_tokens text
    refresh refresh_token jti now = do
      payload ← λ s. (decode_refresh_token now refresh_token, s)
      user_id ← λ s. (subject payload, s)
      found ← gets (redis.exists (refresh_redis_key user_id (crypto.sha256 refresh_token)))
      if found
          then (do
            deleted ← λ s.
                (ok tt, redis.delete (refresh_redis_key user_id (crypto.sha256 refresh_token)) s)
            renew (get_user_by_id user_id) jti now)
          else fail (unauthorized (text "Refresh token is invalid or has been revoked."))

    unfoldable pub logout : Text → Text → Exec K (Unit {0})
    unfolding text
    logout user_id refresh_token s =
        (ok tt, redis.delete (refresh_redis_key user_id (crypto.sha256 refresh_token)) s)
