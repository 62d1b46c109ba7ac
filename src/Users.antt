-- ===== src/Users.antt =====
-- app/schemas/user.py and app/api/v1/users.py: registration.
pub mod Registered
pub mod Admin
pub mod Returning
use multimodal_rag.Prelude.{
  ℕ, ◌≡◌, Bool, true, false, Option, none, some, List, [], ◌∷◌, ◌++◌, map, keep, head?, length, any,
  not, leb, ltb, ◌==◌, ◌&&◌, ◌||◌, if◌then◌else◌,
}
use multimodal_rag.Prelude.Text.{Text, text, text_eq, member, strip, lower_char}
use multimodal_rag.Errors.{Exception, http, value_error}
use multimodal_rag.Exec.{Result, ok, raised, Exec, pure, continue, ◌>>=◌}
use multimodal_rag.Auth.{User}

abbrev pub lower : Text → Text
lower = map lower_char

abbrev pub is_upper : ℕ → Bool
is_upper c = leb 65 c && leb c 90

abbrev pub is_digit : ℕ → Bool
is_digit c = leb 48 c && leb c 57

abbrev pub is_alnum : ℕ → Bool
is_alnum c = is_upper c || (leb 97 c && leb c 122) || is_digit c

abbrev pub non_empty : Text → Bool
non_empty [] = false
non_empty (c ∷ s) = true

-- the text without hyphens and underscores, of which `isalnum` is asked
unfoldable pub alphanumeric : Text → Bool
alphanumeric v =
    let plain = keep (λ c. not (c == 95 || c == 45)) v in
    non_empty plain && not (any (λ c. not (is_alnum c)) plain)

-- the length is of the name as it was sent
unfoldable pub username_alphanumeric : Text → Result Text
unfolding strip alphanumeric lower_char
username_alphanumeric v =
    if leb 3 (length v) && leb (length v) 100
    then (if alphanumeric (strip v) then ok (lower (strip v)) else raised value_error)
    else raised value_error

abbrev pub common : List Text
common = text "password" ∷ text "12345678" ∷ text "qwerty123" ∷ text "password123" ∷ []

unfoldable pub password_not_trivial : Text → Result Text
unfolding text member lower_char
password_not_trivial v =
    if leb 12 (length v) && leb (length v) 128
    then (if member (lower v) common
        then raised value_error
        else (if any is_upper v && any is_digit v then ok v else raised value_error))
    else raised value_error

abbrev pub new_user : Text → Text → Text → User
new_user new_id username hashed = record {
  id = new_id;
  username = username;
  hashed_password = hashed;
  is_active = true;
  is_admin = false;
}

abbrev pub add_user : Option User → User → Exec (List User) User
add_user (some existing) user = λ users.
    (raised (http 409 (text "Username '" ++ user.username ++ text "' is already taken.")), users)
add_user none user = λ users. (ok user, users ++ user ∷ [])

-- `hash` is `hash_password`.
unfoldable pub register : (Text → Text) → Text → Text → Text → Exec (List User) User
unfolding username_alphanumeric password_not_trivial text text_eq
register hash new_id username password = do
  name ← λ users. (username_alphanumeric username, users)
  checked ← λ users. (password_not_trivial password, users)
  λ users.
      add_user (head? (keep (λ u. text_eq u.username name) users))
        (new_user new_id name (hash checked)) users
