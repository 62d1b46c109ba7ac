-- ===== src/Users/Registered.antt =====
-- A registered user can log in under the name that is stored.
use multimodal_rag.Prelude.{
  ℕ, ◌*◌, ◌≡◌, refl, sym, ap, ◌∙◌, subst, inl, inr, true, false, none, some, List, [], ◌∷◌, ◌++◌,
  keep, head?, keep-append, append-nil, ◌&&◌, Bool-cases, Option-cases, arith, leb, length, any,
}
use multimodal_rag.Prelude.Text.{Text, text_eq, text_eq_refl, strip, member}
use multimodal_rag.Exec.{Result, ok, raised, bind-ok, ok-pair}
use multimodal_rag.Auth.{
  Crypto, Lifetimes, Keys, User, TokenResponse, get_user_by_username, login, issue_tokens,
  create_access_token, create_refresh_token,
}
use multimodal_rag.Users.{
  lower, alphanumeric, common, is_upper, is_digit, username_alphanumeric, password_not_trivial,
  new_user, add_user, register,
}

alphanumeric-ok : (v name : Text) → username_alphanumeric v ≡ ok name → name ≡ lower (strip v)
unfolding username_alphanumeric
alphanumeric-ok v name e = elim (Bool-cases (leb 3 (length v) && leb (length v) 100)) [
  | inl a ↦ elim (Bool-cases (alphanumeric (strip v))) [
    | inl b ↦ ground arith
    | inr b ↦ absurd (ground arith)
  ]
  | inr a ↦ absurd (ground arith)
]

trivial-ok : (v w : Text) → password_not_trivial v ≡ ok w → w ≡ v
unfolding password_not_trivial
trivial-ok v w e = elim (Bool-cases (leb 12 (length v) && leb (length v) 128)) [
  | inl a ↦ elim (Bool-cases (member (lower v) common)) [
    | inl b ↦ absurd (ground arith)
    | inr b ↦ elim (Bool-cases (any is_upper v && any is_digit v)) [
      | inl c ↦ ground arith
      | inr c ↦ absurd (ground arith)
    ]
  ]
  | inr a ↦ absurd (ground arith)
]

-- what a registration that returned did
register-ok :
    (hash : Text → Text) (new_id username password : Text) (users users' : List User) (user : User)
    → register hash new_id username password users ≡ (ok user, users')
    → (user ≡ new_user new_id (lower (strip username)) (hash password))
      × (users' ≡ users ++ user ∷ [])
      × (head? (keep (λ u. text_eq u.username user.username) users) ≡ none)
unfolding register
register-ok hash new_id username password users users' user e =
    let (name, s, e1, f1) = bind-ok (username_alphanumeric username, users) _ e in
    let (checked, s', e2, f2) = bind-ok (password_not_trivial password, s) _ f1 in
    let same : s' ≡ users = sym (ap (λ r. r.1) e1 ∙ ap (λ r. r.1) e2) in
    let named = alphanumeric-ok username name (ap (λ r. r.0) e1) in
    let kept = trivial-ok password checked (ap (λ r. r.0) e2) in
    finish name checked s' same named kept f2
  where
    finish :
        (name checked : Text) (s' : List User)
        → s' ≡ users
        → name ≡ lower (strip username)
        → checked ≡ password
        → add_user
            (head? (keep (λ u. text_eq u.username name) s'))
            (new_user new_id name (hash checked))
            s'
          ≡ (ok user, users')
        → (user ≡ new_user new_id (lower (strip username)) (hash password))
          × (users' ≡ users ++ user ∷ [])
          × (head? (keep (λ u. text_eq u.username user.username) users) ≡ none)
    finish name checked s' same named kept f =
        elim (Option-cases (head? (keep (λ u. text_eq u.username name) s'))) [
          | inr (taken, t) ↦
              let bad : ◌≡◌ {A = Result User × List User} (raised _, s') (ok user, users') =
                subst (λ o. add_user o (new_user new_id name (hash checked)) s' ≡ (ok user, users'))
                  t f in
              absurd cc
          | inl free ↦
              let good : ◌≡◌ {A = Result User × List User}
                  (
                    ok (new_user new_id name (hash checked)),
                    s' ++ new_user new_id name (hash checked) ∷ [],
                  )
                  (ok user, users') =
                subst (λ o. add_user o (new_user new_id name (hash checked)) s' ≡ (ok user, users'))
                  free f in
              let (is, rows) = ok-pair _ _ _ _ good in
              (
                sym is
                    ∙ ap (λ n. new_user new_id n (hash checked)) named
                    ∙ ap (λ p. new_user new_id (lower (strip username)) (hash p)) kept,
                sym rows
                    ∙ ap (λ l. l ++ new_user new_id name (hash checked) ∷ []) same
                    ∙ ap (λ u. users ++ u ∷ []) is,
                subst (λ l. head? (keep (λ u. text_eq u.username user.username) l) ≡ none) same
                    (subst (λ u. head? (keep (λ x. text_eq x.username u.username) s') ≡ none) is
                      free),
              )
        ]

head?-append : (xs ys : List User) → head? xs ≡ none → head? (xs ++ ys) ≡ head? ys
head?-append [] ys h = refl
head?-append (x ∷ xs) ys h = absurd (ground arith)

module _ {K : Type 0} (crypto : Crypto) (lifetimes : Lifetimes) (redis : Keys K)
    (hash : Text → Text) (hash_law : (p : Text) → crypto.verify p (hash p) ≡ true) where
  -- A registration that returns stores an active user without admin rights under the name in small
  -- letters and without blanks around it. With that name and the password a login succeeds, and a
  -- login under any other name, as the one with capitals that was sent, finds whom it found before.
  pub login-register :
      (new_id username password jti : Text) (now : ℕ) (users users' : List User) (user : User)
      (s : K)
      → register hash new_id username password users ≡ (ok user, users')
      → (user.username ≡ lower (strip username))
        × (user.is_admin ≡ false)
        × ((tokens : TokenResponse) × (t : K) × (login crypto lifetimes redis users'
                (lower (strip username))
                password
                jti
                now
                s
              ≡ (ok tokens, t)))
        × ((name : Text)
            → text_eq (lower (strip username)) name ≡ false
            → get_user_by_username crypto lifetimes redis users' name
              ≡ get_user_by_username crypto lifetimes redis users name)
  unfolding login get_user_by_username issue_tokens
  login-register new_id username password jti now users users' user s e =
      let (is, rows, free) = register-ok hash new_id username password users users' user e in
      let made : User = new_user new_id (lower (strip username)) (hash password) in
      let all : users' ≡ users ++ made ∷ [] = rows ∙ ap (λ u. users ++ u ∷ []) is in
      let free' : head? (keep (λ u. text_eq u.username (lower (strip username))) users) ≡ none =
        subst (λ u. head? (keep (λ x. text_eq x.username u.username) users) ≡ none) is free in
      let found : head? (keep (λ u. text_eq u.username (lower (strip username))) users')
          ≡ some made =
        ap (λ l. head? (keep (λ u. text_eq u.username (lower (strip username))) l)) all
        ∙ ap head?
            (keep-append (λ u. text_eq u.username (lower (strip username))) users (made ∷ []))
        ∙ head?-append _ _ free'
        ∙ rw (text_eq_refl (lower (strip username))) refl in
      (
        ap (λ u. u.username) is,
        ap (λ u. u.is_admin) is,
        (
          record {
            access_token = create_access_token crypto lifetimes new_id now;
            refresh_token = create_refresh_token crypto lifetimes new_id jti now;
            expires_in = lifetimes.access_token_expire_minutes * 60;
          },
          (issue_tokens crypto lifetimes redis users' made jti now s).1,
          rw (found, hash_law password) refl,
        ),
        λ name other.
            ap (λ l. head? (keep (λ u. text_eq u.username name) l)) all
            ∙ ap head? (
                keep-append (λ u. text_eq u.username name) users (made ∷ [])
                ∙ rw other (append-nil _)),
      )
