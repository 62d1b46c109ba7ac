-- ===== src/Prelude/Dict.antt =====
-- Python's `dict` with `str` keys: insertion order, an update in place, a new key at the end.
use multimodal_rag.Prelude.Tests.{if◌then◌else◌, Bool-cases, Option-cases}
use multimodal_rag.Prelude.Lists.{All, All-map}
use multimodal_rag.Prelude.Text.{Text, text_eq, text_eq_iff, text_eq_refl, member}
use mathlib.Core.Path.{◌≡◌, refl}
use mathlib.Core.Logic.{inl, inr}
use mathlib.Core.List.{List, [], ◌∷◌, ◌++◌, map}
use mathlib.Core.Bool.{true, false}
use mathlib.Core.Option.{Option, none, some}
use native.Mathlib.Omega.{arith}

abbrev pub Dict {ℓ} : Type ℓ → Type ℓ
Dict V = List (Text × V)

-- no text stands twice
abbrev pub Distinct : List Text → Type 0
Distinct [] = Unit
Distinct (k ∷ ks) = (member k ks ≡ false) × Distinct ks

-- what an update does to the keys
unfoldable pub add_key : Text → List Text → List Text
add_key k ks = if member k ks then ks else ks ++ k ∷ []

module _ {ℓ} {V : Type ℓ} where
  abbrev pub keys : Dict V → List Text
  keys = map (λ e. e.0)

  -- d.get(k)
  unfoldable pub get : Text → Dict V → Option V
  get k [] = none
  get k ((j, v) ∷ d) = if text_eq j k then some v else get k d

  -- d[k] = v
  unfoldable pub put : Text → V → Dict V → Dict V
  put k v [] = (k, v) ∷ []
  put k v ((j, w) ∷ d) = if text_eq j k then (j, v) ∷ d else (j, w) ∷ put k v d

  -- d.setdefault(k, v)
  unfoldable pub set_default : Text → V → Dict V → Dict V
  set_default k v d = elim (get k d) [ none ↦ put k v d | some w ↦ d ]

  pub get-put :
      (k j : Text) (v : V) (d : Dict V)
      → get j (put k v d) ≡ (if text_eq k j then some v else get j d)
  unfolding get put
  get-put k j v [] = refl
  get-put k j v ((i, w) ∷ d) =
      ground (arith, text_eq_iff k j, text_eq_iff i k, text_eq_iff i j, get-put k j v d)

  pub keys-put : (k : Text) (v : V) (d : Dict V) → keys (put k v d) ≡ add_key k (keys d)
  unfolding put add_key member
  keys-put k v [] = refl
  keys-put k v ((i, w) ∷ d) = ground (arith, text_eq_iff k i, text_eq_iff i k, keys-put k v d)

  member-get : (k : Text) (d : Dict V) (v : V) → get k d ≡ some v → member k (keys d) ≡ true
  unfolding get member
  member-get k [] v h = cc
  member-get k ((i, w) ∷ d) v h = ground (arith, text_eq_iff k i, text_eq_iff i k, member-get k d v)

  pub get-member : (k : Text) (d : Dict V) → member k (keys d) ≡ true → (v : V) × (get k d ≡ some v)
  unfolding get member
  get-member k [] h = cc
  get-member k ((i, w) ∷ d) h = elim (Bool-cases (text_eq i k)) [
    | inl e ↦ (w, rw e refl)
    | inr e ↦
        let (v, found) = get-member k d (ground (arith, text_eq_iff k i, text_eq_iff i k)) in
        (v, rw e found)
  ]

  pub keys-set_default :
      (k : Text) (v : V) (d : Dict V) → keys (set_default k v d) ≡ add_key k (keys d)
  unfolding set_default add_key
  keys-set_default k v d = elim (Option-cases (get k d)) [
    | inl e ↦ rw (e, set_default) (keys-put k v d)
    | inr (w, e) ↦ rw (e, set_default) (rw (member-get k d w e) refl)
  ]

  pub get-set_default :
      (k j : Text) (v : V) (d : Dict V)
      → get j (set_default k v d)
        ≡ (if text_eq k j then elim (get j d) [ none ↦ some v | some w ↦ some w ] else get j d)
  unfolding set_default
  get-set_default k j v d = ground (arith, get-put k j v d, text_eq_iff k j)

  ne_of_not-member :
      (k : Text) (d : Dict V) → member k (keys d) ≡ false → All (λ e. text_eq k e.0 ≡ false) d
  unfolding member
  ne_of_not-member k [] h = tt
  ne_of_not-member k ((i, w) ∷ d) h = (ground arith, ne_of_not-member k d (ground arith))

  -- With distinct keys, each entry of the dictionary is what a lookup of its key finds.
  pub All-get : (d : Dict V) → Distinct (keys d) → All (λ e. get e.0 d ≡ some e.1) d
  unfolding get
  All-get [] h = tt
  All-get ((i, w) ∷ d) h =
      (rw (text_eq_refl i) refl, go d (ne_of_not-member i d h.0) (All-get d h.1))
    where
      go :
          (l : Dict V)
          → All (λ e. text_eq i e.0 ≡ false) l
          → All (λ e. get e.0 d ≡ some e.1) l
          → All (λ e. get e.0 ((i, w) ∷ d) ≡ some e.1) l
      go [] p q = tt
      go (x ∷ l) p q = (rw p.0 q.0, go l p.1 q.1)

module _ {ℓ} {V : Type ℓ} where
  -- the key of each entry is one of the keys
  pub All-member : (d : Dict V) → All (λ e. member e.0 (keys d) ≡ true) d
  unfolding member
  All-member [] = tt
  All-member ((i, w) ∷ d) =
      (rw (text_eq_refl i) refl, All-map (λ e m. weaken e.0 m) d (All-member d))
    where
      weaken : (k : Text) → member k (keys d) ≡ true → member k (i ∷ keys d) ≡ true
      weaken k m = ground arith

member-append :
    (k j : Text) (ks : List Text)
    → member k ks ≡ false
    → text_eq k j ≡ false
    → member k (ks ++ j ∷ []) ≡ false
unfolding member
member-append k j [] h e = rw e refl
member-append k j (i ∷ ks) h e = ground (arith, member-append k j ks)

Distinct-snoc :
    (k : Text) (ks : List Text) → member k ks ≡ false → Distinct ks → Distinct (ks ++ k ∷ [])
unfolding member
Distinct-snoc k [] h d = (refl, tt)
Distinct-snoc k (i ∷ ks) h d = (
  member-append i k ks d.0 (ground (arith, text_eq_iff k i, text_eq_iff i k)),
  Distinct-snoc k ks (ground arith) d.1,
)

pub add_key-Distinct : (k : Text) (ks : List Text) → Distinct ks → Distinct (add_key k ks)
unfolding add_key
add_key-Distinct k ks d = elim (Bool-cases (member k ks)) [
  | inl e ↦ rw e d
  | inr e ↦ rw e (Distinct-snoc k ks e d)
]
