-- ===== src/Prelude/Sort.antt =====
-- `list.sort(key=..., reverse=True)`: a stable sort, by insertion, over an order given as a test.
use mathlib.Core.Path.{◌≡◌, refl, ap, ◌∙◌}
use mathlib.Core.List.{List, [], ◌∷◌, ◌++◌, Perm}
use mathlib.Core.List.Perm
use mathlib.Core.Bool.{Bool, true, false}
use mathlib.Core.Logic.{◌⊎◌, inl, inr}
use native.Mathlib.Omega.{arith}
use Prim.Native.Nat.{suc}
use multimodal_rag.Prelude.Tests.{if◌then◌else◌, Bool-cases}
use multimodal_rag.Prelude.Lists.{All, length, All-map}

-- A score type is ordered as Python orders floats that are not NaN.
pub record TotalOrder {ℓ} {F : Type ℓ} (at_most : F → F → Bool) : Type ℓ where
  pub total : (a b : F) → (at_most a b ≡ true) ⊎ (at_most b a ≡ true)
  pub trans : (a b c : F) → at_most a b ≡ true → at_most b c ≡ true → at_most a c ≡ true

module _ {ℓ κ} {F : Type ℓ} {A : Type κ} (at_most : F → F → Bool) (key : A → F) where
  -- An item goes in front of the first one whose key is not above its own: items with equal keys
  -- keep their order, as in Python, where `reverse=True` is stable too.
  unfoldable pub insert_desc : A → List A → List A
  insert_desc a [] = a ∷ []
  insert_desc a (x ∷ xs) = if at_most (key x) (key a) then a ∷ x ∷ xs else x ∷ insert_desc a xs

  unfoldable pub sort_desc : List A → List A
  unfolding insert_desc
  sort_desc [] = []
  sort_desc (x ∷ xs) = insert_desc x (sort_desc xs)

  -- every key is at least the keys behind it
  abbrev pub Desc : List A → Type 0
  Desc [] = Unit
  Desc (x ∷ xs) = All (λ y. at_most (key y) (key x) ≡ true) xs × Desc xs

  insert_desc-perm : (a : A) (xs : List A) → Perm (insert_desc a xs) (a ∷ xs)
  unfolding insert_desc
  insert_desc-perm a [] = Perm.refl (a ∷ [])
  insert_desc-perm a (x ∷ xs) = elim (Bool-cases (at_most (key x) (key a))) [
    | inl e ↦ rw e (Perm.refl (a ∷ x ∷ xs))
    | inr e ↦ rw e (Perm.trans (Perm.cons x (insert_desc-perm a xs)) (Perm.swap a x xs))
  ]

  pub sort_desc-perm : (xs : List A) → Perm (sort_desc xs) xs
  unfolding sort_desc
  sort_desc-perm [] = Perm.refl []
  sort_desc-perm (x ∷ xs) =
      Perm.trans (insert_desc-perm x (sort_desc xs)) (Perm.cons x (sort_desc-perm xs))

  pub All-insert_desc {μ} :
      (P : A → Type μ) (a : A) (xs : List A) → P a → All P xs → All P (insert_desc a xs)
  unfolding insert_desc
  All-insert_desc P a [] pa h = (pa, tt)
  All-insert_desc P a (x ∷ xs) pa h = elim (Bool-cases (at_most (key x) (key a))) [
    | inl e ↦ rw e (pa, h)
    | inr e ↦ rw e (h.0, All-insert_desc P a xs pa h.1)
  ]

  pub All-sort_desc {μ} : (P : A → Type μ) (xs : List A) → All P xs → All P (sort_desc xs)
  unfolding sort_desc
  All-sort_desc P [] h = tt
  All-sort_desc P (x ∷ xs) h = All-insert_desc P x (sort_desc xs) h.0 (All-sort_desc P xs h.1)

  length-insert_desc : (a : A) (xs : List A) → length (insert_desc a xs) ≡ suc (length xs)
  unfolding insert_desc
  length-insert_desc a [] = refl
  length-insert_desc a (x ∷ xs) = ground (arith, length-insert_desc a xs)

  pub length-sort_desc : (xs : List A) → length (sort_desc xs) ≡ length xs
  unfolding sort_desc
  length-sort_desc [] = refl
  length-sort_desc (x ∷ xs) =
      omega (arith, length-insert_desc x (sort_desc xs), length-sort_desc xs)

  insert_desc-snoc :
      (a y : A) (xs : List A)
      → at_most (key y) (key a) ≡ true
      → insert_desc a (xs ++ y ∷ []) ≡ insert_desc a xs ++ y ∷ []
  unfolding insert_desc
  insert_desc-snoc a y [] h = rw h refl
  insert_desc-snoc a y (x ∷ xs) h = elim (Bool-cases (at_most (key x) (key a))) [
    | inl e ↦ rw e refl
    | inr e ↦ rw e (ap (λ l. x ∷ l) (insert_desc-snoc a y xs h))
  ]

  -- an item whose key is not above any other stays behind them
  pub sort_desc-snoc :
      (y : A) (xs : List A)
      → All (λ a. at_most (key y) (key a) ≡ true) xs
      → sort_desc (xs ++ y ∷ []) ≡ sort_desc xs ++ y ∷ []
  unfolding sort_desc insert_desc
  sort_desc-snoc y [] h = refl
  sort_desc-snoc y (x ∷ xs) h =
      ap (insert_desc x) (sort_desc-snoc y xs h.1) ∙ insert_desc-snoc x y (sort_desc xs) h.0

  module _ (o : TotalOrder at_most) where
    above_of_not : (a b : F) → at_most a b ≡ false → at_most b a ≡ true
    above_of_not a b h = ground (arith, o.total a b)

    insert_desc-Desc : (a : A) (xs : List A) → Desc xs → Desc (insert_desc a xs)
    unfolding insert_desc
    insert_desc-Desc a [] d = (tt, tt)
    insert_desc-Desc a (x ∷ xs) d = elim (Bool-cases (at_most (key x) (key a))) [
      | inl e ↦ rw e (((e, All-map (λ y h. o.trans (key y) (key x) (key a) h e) xs d.0), d))
      | inr e ↦ rw e (
        All-insert_desc (λ y. at_most (key y) (key x) ≡ true) a xs (above_of_not (key x) (key a) e)
            d.0,
        insert_desc-Desc a xs d.1,
      )
    ]

    pub sort_desc-Desc : (xs : List A) → Desc (sort_desc xs)
    unfolding sort_desc
    sort_desc-Desc [] = tt
    sort_desc-Desc (x ∷ xs) = insert_desc-Desc x (sort_desc xs) (sort_desc-Desc xs)
