-- ===== src/Users/Returning.antt =====
-- What becomes of a registered user at the login route.
use multimodal_rag.Prelude.{
  ℕ, ◌≡◌, refl, ap, ◌∙◌, subst, inl, inr, true, false, none, List, ◌&&◌, Bool-cases, arith, leb,
  length,
}
use multimodal_rag.Prelude.Text.{Text, text, text_eq, strip}
use multimodal_rag.Errors.{app, unauthorized}
use multimodal_rag.Exec.{ok, raised, bind-ok}
use multimodal_rag.Auth.{Crypto, Lifetimes, Keys, User, TokenResponse, get_user_by_username, login}
use multimodal_rag.Auth.Routes.{login_request, login_route}
use multimodal_rag.Users.{lower, username_alphanumeric, password_not_trivial, register}
use multimodal_rag.Users.Registered.{login-register}

username-length :
    (v name : Text)
    → username_alphanumeric v ≡ ok name
    → (leb 1 (length v) && leb (length v) 100) ≡ true
unfolding username_alphanumeric
username-length v name e = elim (Bool-cases (leb 3 (length v) && leb (length v) 100)) [
  | inl a ↦ ground arith
  | inr a ↦ absurd (ground arith)
]

password-length :
    (v w : Text) → password_not_trivial v ≡ ok w → (leb 1 (length v) && leb (length v) 128) ≡ true
unfolding password_not_trivial
password-length v w e = elim (Bool-cases (leb 12 (length v) && leb (length v) 128)) [
  | inl a ↦ ground arith
  | inr a ↦ absurd (ground arith)
]

-- what was registered is a body of the login route
login_request-register :
    (hash : Text → Text) (new_id username password : Text) (users users' : List User) (user : User)
    → register hash new_id username password users ≡ (ok user, users')
    → login_request username password
      ≡ ok (record { username = strip username; password = password })
unfolding register login_request
login_request-register hash new_id username password users users' user e =
    let (name, s, e1, f1) = bind-ok (username_alphanumeric username, users) _ e in
    let (word, s', e2, f2) = bind-ok (password_not_trivial password, s) _ f1 in
    let a = username-length username name (ap (λ r. r.0) e1) in
    let b = password-length password word (ap (λ r. r.0) e2) in rw (a, b) refl

module _ {K : Type 0} (crypto : Crypto) (lifetimes : Lifetimes) (redis : Keys K)
    (hash : Text → Text) (hash_law : (p : Text) → crypto.verify p (hash p) ≡ true) where
  -- A registered user logs in at the route with the name and the password as they were typed, blanks
  -- around the name included, if the name has no capitals. If it has some, and is the name of nobody
  -- else, the same login is refused for its credentials and changes nothing.
  pub login_route-register :
      (new_id username password jti : Text) (now : ℕ) (users users' : List User) (user : User)
      (s : K)
      → register hash new_id username password users ≡ (ok user, users')
      → (lower (strip username) ≡ strip username
          → (tokens : TokenResponse) × (t : K) × (login_route crypto lifetimes redis users' username
                password jti now s
              ≡ (ok tokens, t)))
        × (text_eq (lower (strip username)) (strip username) ≡ false
            → get_user_by_username crypto lifetimes redis users (strip username) ≡ none
            → login_route crypto lifetimes redis users' username password jti now s
              ≡ (raised (app (unauthorized (text "Invalid credentials."))), s))
  unfolding login_route login
  login_route-register new_id username password jti now users users' user s e =
      let body = login_request-register hash new_id username password users users' user e in
      let (named, plain, (tokens, t, returns), others) =
        login-register crypto lifetimes redis hash hash_law new_id username password jti now users
          users' user s e in
      (
        λ small. (
          tokens,
          t,
          rw body (
              subst (λ n. login crypto lifetimes redis users' n password jti now s ≡ (ok tokens, t))
                small returns),
        ),
        λ capitals nobody. rw (body, others (strip username) capitals ∙ nobody) refl,
      )
