-- ===== src/Tests/Users.antt =====
-- The registration of a name with capitals.
use multimodal_rag.Prelude.{◌≡◌, refl, false, none, [], ◌∷◌}
use multimodal_rag.Prelude.Text.{
  Text, text, text_eq, text_eq_refl, strip, lstrip, is_space, lower_char, member,
}
use multimodal_rag.Errors.{app, unauthorized, value_error}
use multimodal_rag.Auth.Routes.{login_route}
use multimodal_rag.Users.Admin.{admin, created, too_short, mismatch, create_admin, main}
use multimodal_rag.Users.Returning.{login_route-register}
use multimodal_rag.Exec.{ok, raised}
use multimodal_rag.Auth.{User, TokenResponse, default_lifetimes, get_user_by_username, login}
use multimodal_rag.Users.{
  lower, alphanumeric, username_alphanumeric, password_not_trivial, new_user, register,
}
use multimodal_rag.Users.Registered.{login-register}
use multimodal_rag.Tests.Tokens.{Table, crypto, redis, empty}

abbrev made : User
made = new_user (5 ∷ []) (text "bob_1") (text "Correcthorse1")

refused_name : username_alphanumeric (text "bob!") ≡ raised value_error
unfolding username_alphanumeric text alphanumeric strip lstrip is_space
refused_name = refl

login-register_run :
    (made.username ≡ lower (strip (text " Bob_1 ")))
    × (made.is_admin ≡ false)
    × ((tokens : TokenResponse) × (t : Table) × (login crypto default_lifetimes redis
            (made ∷ [])
            (lower (strip (text " Bob_1 ")))
            (text "Correcthorse1")
            (6 ∷ [])
            0
            empty
          ≡ (ok tokens, t)))
    × ((name : Text)
        → text_eq (lower (strip (text " Bob_1 "))) name ≡ false
        → get_user_by_username crypto default_lifetimes redis (made ∷ []) name
          ≡ get_user_by_username crypto default_lifetimes redis [] name)
unfolding register username_alphanumeric password_not_trivial text alphanumeric strip lstrip
    is_space lower_char member text_eq
login-register_run =
    login-register crypto default_lifetimes redis (λ p. p) text_eq_refl (5 ∷ []) (text " Bob_1 ")
      (text "Correcthorse1") (6 ∷ []) 0 [] (made ∷ []) made empty refl

login_route-register_example :
    (lower (strip (text " Bob_1 ")) ≡ strip (text " Bob_1 ")
      → (tokens : TokenResponse) × (t : Table) × (login_route crypto default_lifetimes redis
            (made ∷ [])
            (text " Bob_1 ")
            (text "Correcthorse1")
            (6 ∷ [])
            0
            empty
          ≡ (ok tokens, t)))
    × (text_eq (lower (strip (text " Bob_1 "))) (strip (text " Bob_1 ")) ≡ false
        → get_user_by_username crypto default_lifetimes redis [] (strip (text " Bob_1 ")) ≡ none
        → login_route crypto default_lifetimes redis
            (made ∷ [])
            (text " Bob_1 ")
            (text "Correcthorse1")
            (6 ∷ [])
            0
            empty
          ≡ (raised (app (unauthorized (text "Invalid credentials."))), empty))
unfolding register username_alphanumeric password_not_trivial text alphanumeric strip lstrip
    is_space lower_char member text_eq
login_route-register_example =
    login_route-register crypto default_lifetimes redis (λ p. p) text_eq_refl (5 ∷ [])
      (text " Bob_1 ") (text "Correcthorse1") (6 ∷ []) 0 [] (made ∷ []) made empty refl

-- the name of an administrator is stored as it is given, also with capitals
admins : create_admin (λ p. p) (7 ∷ []) (text "Root") (text "longpassword1") [] ≡ (
  created (admin (7 ∷ []) (text "Root") (text "longpassword1")),
  admin (7 ∷ []) (text "Root") (text "longpassword1") ∷ [],
)
unfolding create_admin text_eq text
admins = refl

short_password : create_admin (λ p. p) (7 ∷ []) (text "Root") (text "short") [] ≡ (too_short, [])
unfolding create_admin text_eq text
short_password = refl

mistyped :
    main (λ p. p) (7 ∷ []) (text "Root") none (text "longpassword1") (text "longpassword2") []
    ≡ (mismatch, [])
unfolding main text_eq text
mistyped = refl
