-- ===== src/Users/Admin.antt =====
-- scripts/create_admin_user.py: the first administrator.
use multimodal_rag.Prelude.{
  Bool, true, false, Option, none, some, List, [], ◌∷◌, ◌++◌, keep, head?, length, ltb,
  if◌then◌else◌,
}
use multimodal_rag.Prelude.Text.{Text, text_eq}
use multimodal_rag.Auth.{User}

-- how the script ends: `sys.exit(1)` with its message, or a new user
pub data Outcome : Type 0 where
  already_exists : Outcome
  too_short : Outcome
  mismatch : Outcome
  created : User → Outcome

abbrev pub admin : Text → Text → Text → User
admin new_id username hashed = record {
  id = new_id;
  username = username;
  hashed_password = hashed;
  is_active = true;
  is_admin = true;
}

abbrev pub add_admin : Option User → Text → User → List User → Outcome × List User
add_admin (some existing) password user users = (already_exists, users)
add_admin none password user users =
    if ltb (length password) 12 then (too_short, users) else (created user, users ++ user ∷ [])

-- `hash` is `hash_password`.
unfoldable pub create_admin : (Text → Text) → Text → Text → Text → List User → Outcome × List User
unfolding text_eq
create_admin hash new_id username password users =
    add_admin (head? (keep (λ u. text_eq u.username username) users)) password
      (admin new_id username (hash password)) users

abbrev pub with_confirmed :
    Bool → (List User → Outcome × List User) → List User → Outcome × List User
with_confirmed true create users = create users
with_confirmed false create users = (mismatch, users)

-- `argument` is what `--password` gives; without it, or with an empty one, the script asks twice.
unfoldable pub main :
    (Text → Text) → Text → Text → Option Text → Text → Text → List User → Outcome × List User
unfolding create_admin text_eq
main hash new_id username (some (c ∷ cs)) entered confirm users =
    create_admin hash new_id username (c ∷ cs) users
main hash new_id username (some []) entered confirm users =
    with_confirmed (text_eq entered confirm) (create_admin hash new_id username entered) users
main hash new_id username none entered confirm users =
    with_confirmed (text_eq entered confirm) (create_admin hash new_id username entered) users
