-- ===== src/Auth/Current.antt =====
-- app/dependencies.py: the user of a request.
use multimodal_rag.Prelude.{
  ℕ, ◌≡◌, ◌⊎◌, inl, inr, refl, sym, ap, ◌∙◌, subst, Bool, true, Option, none, some, List, [], ◌∷◌,
  keep, head?, ◌&&◌, if◌then◌else◌, arith, Bool-cases, Option-cases, head?-keep, &&→both,
}
use multimodal_rag.Prelude.Text.{Text, text, text_eq, text_eq_iff}
use multimodal_rag.Errors.{Exception, app, AppError, unauthorized, invalid_token, forbidden}
use multimodal_rag.Exec.{Result, ok, raised, Exec, pure, fail, continue, ◌>>=◌}
use multimodal_rag.Auth.{Claims, Crypto, Lifetimes, User, checked, is_kind, decode_access_token}

-- the default message of `UnauthorizedError`
abbrev pub not_authenticated : AppError
not_authenticated = unauthorized (text "Authentication required.")

module _ (crypto : Crypto) (lifetimes : Lifetimes) (users : List User) where
  abbrev pub is_live : Text → User → Bool
  is_live user_id u = text_eq u.id user_id && u.is_active

  -- The state is `request.state.user_id`.
  abbrev pub bind_user : Option User → Exec (Option Text) User
  bind_user none = fail not_authenticated
  bind_user (some user) = λ s. (ok user, some user.id)

  abbrev pub load_user : Option Text → Exec (Option Text) User
  load_user none = fail not_authenticated
  load_user (some user_id) = bind_user (head? (keep (is_live user_id) users))

  -- `if not user_id_str`: neither a missing claim nor an empty one
  abbrev pub user_of : Option Text → Exec (Option Text) User
  user_of none = fail not_authenticated
  user_of (some []) = fail not_authenticated
  user_of (some (c ∷ cs)) = load_user (crypto.parse_uuid (c ∷ cs))

  unfoldable pub get_current_user : Option Text → ℕ → Exec (Option Text) User
  unfolding text text_eq decode_access_token
  get_current_user credentials now = elim credentials [
    | none ↦ fail not_authenticated
    | some token ↦ λ s.
        continue (decode_access_token crypto lifetimes now token, s)
          (λ payload. user_of payload.sub)
  ]

  unfoldable pub require_admin : Option Text → ℕ → Exec (Option Text) User
  unfolding get_current_user text
  require_admin credentials now = do
    user ← get_current_user credentials now
    if user.is_admin
        then pure user
        else fail (forbidden (text "You do not have permission to perform this action."))

  -- what is known of the user of a request: the token is a live access token with the id of an
  -- active account, and the request is bound to it
  pub record IsAuthentic (credentials : Option Text) (now : ℕ) (user : User) (bound : Option Text)
      : Type 0 where
    pub token : Text
    pub claims : Claims
    pub sub : Text
    pub sent : credentials ≡ some token
    pub decoded : decode_access_token crypto lifetimes now token ≡ ok claims
    pub names : claims.sub ≡ some sub
    pub parsed : crypto.parse_uuid sub ≡ some user.id
    pub live : user.is_active ≡ true
    pub binds : bound ≡ some user.id

  -- an authentication error: 401 in both cases
  abbrev pub IsDenied : Exception → Type 0
  IsDenied e = (e ≡ app not_authenticated) ⊎ (e ≡ app invalid_token)

  checked-Denied :
      (kind : Text) (o : Option Claims) (e : Exception)
      → checked crypto lifetimes kind o ≡ raised e
      → IsDenied e
  checked-Denied kind none e h = inr (ground arith)
  checked-Denied kind (some c) e h = elim (Bool-cases (is_kind crypto lifetimes kind c.kind)) [
    | inl t ↦ absurd (ground arith)
    | inr f ↦ inr (ground arith)
  ]

  abbrev pub Decided : Option Text → ℕ → Option Text → Type 0
  Decided credentials now bound =
      ((e : Exception) × IsDenied e × (get_current_user credentials now bound ≡ (raised e, bound)))
      ⊎ ((user : User) × (after : Option Text) × (get_current_user credentials now bound
            ≡ (ok user, after))
          × (head? (keep (is_live user.id) users) ≡ some user)
          × IsAuthentic credentials now user after)

  -- A request has a user only with a live access token that names an active account, which is then
  -- bound to the request; in all other cases it is refused as not authenticated, and not bound.
  pub get_current_user_lem :
      (credentials : Option Text) (now : ℕ) (bound : Option Text) → Decided credentials now bound
  unfolding get_current_user decode_access_token
  get_current_user_lem none now bound = inl (app not_authenticated, inl refl, refl)
  get_current_user_lem (some token) now bound =
      by_claims (decode_access_token crypto lifetimes now token) refl
    where
      by_claims :
          (d : Result Claims)
          → decode_access_token crypto lifetimes now token ≡ d
          → Decided (some token) now bound
      by_claims (raised e) eq = inl (e, denied e eq, rw eq refl)
        where
          denied :
              (e : Exception)
              → decode_access_token crypto lifetimes now token ≡ raised e
              → IsDenied e
          denied e eq = checked-Denied (text "access") (crypto.decode now token) e eq
      by_claims (ok c) eq = by_sub c.sub refl
        where
          by_sub : (o : Option Text) → c.sub ≡ o → Decided (some token) now bound
          by_sub none sub = inl (app not_authenticated, inl refl, rw (eq, sub) refl)
          by_sub (some []) sub = inl (app not_authenticated, inl refl, rw (eq, sub) refl)
          by_sub (some (x ∷ xs)) sub = elim (Option-cases (crypto.parse_uuid (x ∷ xs))) [
            | inl bad ↦ inl (app not_authenticated, inl refl, rw (eq, sub, bad) refl)
            | inr (uid, good) ↦ elim (Option-cases (head? (keep (is_live uid) users))) [
              | inl gone ↦ inl (app not_authenticated, inl refl, rw (eq, sub, good, gone) refl)
              | inr (user, found) ↦
                  let (same, active) =
                    &&→both (text_eq user.id uid) user.is_active
                      (head?-keep (is_live uid) users user found) in
                  let id : uid ≡ user.id = sym ((text_eq_iff user.id uid).0 same) in
                  inr (
                    user,
                    some user.id,
                    rw (eq, sub, good, found) refl,
                    subst (λ i. head? (keep (is_live i) users) ≡ some user) id found,
                    record {
                      token = token;
                      claims = c;
                      sub = x ∷ xs;
                      sent = refl;
                      decoded = eq;
                      names = sub;
                      parsed = good ∙ ap some id;
                      live = active;
                      binds = refl;
                    },
                  )
            ]
          ]
