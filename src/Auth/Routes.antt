-- ===== src/Auth/Routes.antt =====
-- app/api/v1/auth.py with the bodies of app/schemas/auth.py.
use multimodal_rag.Prelude.{ℕ, Option, List, length, leb, ◌&&◌, if◌then◌else◌}
use multimodal_rag.Prelude.Text.{Text, strip}
use multimodal_rag.Errors.{value_error}
use multimodal_rag.Exec.{Result, ok, raised, Exec, ◌>>=◌}
use multimodal_rag.Auth.{
  Crypto, Lifetimes, Keys, User, TokenResponse, AccessTokenResponse, login, refresh, logout,
}
use multimodal_rag.Auth.Scanning.{Scan, logout_all}

-- `Field(min_length=…, max_length=…)`
abbrev pub within : ℕ → ℕ → Text → Result Text
within low high v = if leb low (length v) && leb (length v) high then ok v else raised value_error

pub record LoginRequest : Type 0 where
  pub username : Text
  pub password : Text

abbrev pub login_body : Result Text → Result Text → Result LoginRequest
login_body (raised e) password = raised e
login_body (ok username) (raised e) = raised e
login_body (ok username) (ok password) =
    ok (record { username = strip username; password = password })

-- The length is that of the name as it was sent, and the blanks are cut off afterwards.
unfoldable pub login_request : Text → Text → Result LoginRequest
unfolding strip
login_request username password = login_body (within 1 100 username) (within 1 128 password)

unfoldable pub refresh_request : Text → Result Text
refresh_request v = if leb 10 (length v) then ok v else raised value_error

-- The handlers behind their rate limits, with the body of the request and its user.
module _ {K : Type 0} (crypto : Crypto) (lifetimes : Lifetimes) (redis : Keys K) where
  unfoldable pub login_route : List User → Text → Text → Text → ℕ → Exec K TokenResponse
  unfolding login_request login
  login_route users username password jti now = do
    body ← λ s. (login_request username password, s)
    login crypto lifetimes redis users body.username body.password jti now

  unfoldable pub refresh_route : List User → Text → Text → ℕ → Exec K AccessTokenResponse
  unfolding refresh_request refresh
  refresh_route users refresh_token jti now = do
    body ← λ s. (refresh_request refresh_token, s)
    refresh crypto lifetimes redis users body jti now

  unfoldable pub logout_route : List User → Text → Text → Exec K (Unit {0})
  unfolding refresh_request logout
  logout_route users user_id refresh_token = do
    body ← λ s. (refresh_request refresh_token, s)
    logout crypto lifetimes redis users user_id body

-- none means that the fuel of the scan ran out
unfoldable pub logout_all_route : {K : Type 0} → Keys K → Scan K → ℕ → Text → K → Option ℕ × K
unfolding logout_all
logout_all_route redis scan fuel user_id = logout_all redis scan fuel user_id
