-- ===== src/Json.antt =====
-- The values that `json.loads` returns. An object is a Python dict with text keys.
use multimodal_rag.Prelude.{Bool, Option, none, some, if◌then◌else◌, ◌≡◌, refl, arith}
use multimodal_rag.Prelude.Text.{Text, text_eq, text_eq_iff}

mutual
  pub data Json : Type 0 where
    null : Json
    bool : Bool → Json
    -- by its literal
    num : Text → Json
    str : Text → Json
    arr : Items → Json
    obj : Fields → Json

  pub data Items : Type 0 where
    nil : Items
    cons : Json → Items → Items

  pub data Fields : Type 0 where
    end : Fields
    field : Text → Json → Fields → Fields

-- d.get(k)
unfoldable pub get : Text → Fields → Option Json
unfolding text_eq
get k end = none
get k (field j v fs) = if text_eq j k then some v else get k fs

-- d[k] = v
unfoldable pub set_field : Text → Json → Fields → Fields
unfolding text_eq
set_field k v end = field k v end
set_field k v (field j w fs) = if text_eq j k then field j v fs else field j w (set_field k v fs)

-- d.update(new)
unfoldable pub update : Fields → Fields → Fields
unfolding set_field
update d end = d
update d (field k v new) = update (set_field k v d) new

pub get-set_field :
    (k j : Text) (v : Json) (d : Fields)
    → get j (set_field k v d) ≡ (if text_eq k j then some v else get j d)
unfolding get set_field
get-set_field k j v end = refl
get-set_field k j v (field i w fs) =
    ground (arith, text_eq_iff k j, text_eq_iff i k, text_eq_iff i j, get-set_field k j v fs)

-- An update keeps a key that it does not name.
pub get-update : (j : Text) (d new : Fields) → get j new ≡ none → get j (update d new) ≡ get j d
unfolding get update
get-update j d end h = refl
get-update j d (field k v new) h =
    ground (arith, get-update j (set_field k v d) new, get-set_field k j v d)
