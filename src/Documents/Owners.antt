-- ===== src/Documents/Owners.antt =====
-- Documents and their owners: what a deletion and an upload do to the documents of other users.
use multimodal_rag.Prelude.{
  ◌≡◌, refl, ap, sym, ◌∙◌, Bool, true, false, Bool-cases, Option, some, List, [], ◌∷◌, ◌++◌, map,
  keep, head?, head?-keep, &&→both, subst, All, All-map, All-append, inl, inr, if◌then◌else◌,
}
use multimodal_rag.Prelude.Text.{Text, text_eq, text_eq_iff}
use multimodal_rag.Documents.{Document, deleting, owned, set_document_status}

-- the documents of a user
abbrev pub mine : Text → List Document → List Document
mine v = keep (λ d. text_eq d.user_id v)

-- documents with one id have one user
abbrev pub OneOwner : List Document → Type 0
OneOwner [] = Unit
OneOwner (x ∷ xs) = All (λ y. text_eq x.id y.id ≡ true → x.user_id ≡ y.user_id) xs × OneOwner xs

-- what a deletion does to a row
abbrev mark : Text → Document → Document
mark id d = if text_eq d.id id then set_document_status deleting d else d

mark-id : (id : Text) (d : Document) → (mark id d).id ≡ d.id
mark-id id d = elim (Bool-cases (text_eq d.id id)) [ inl e ↦ rw e refl | inr e ↦ rw e refl ]

mark-user_id : (id : Text) (d : Document) → (mark id d).user_id ≡ d.user_id
mark-user_id id d = elim (Bool-cases (text_eq d.id id)) [ inl e ↦ rw e refl | inr e ↦ rw e refl ]

All-mark :
    (id : Text) (x : Document) (xs : List Document)
    → All (λ y. text_eq x.id y.id ≡ true → x.user_id ≡ y.user_id) xs
    → All
        (λ y. text_eq (mark id x).id y.id ≡ true → (mark id x).user_id ≡ y.user_id)
        (map (mark id) xs)
All-mark id x [] h = tt
All-mark id x (y ∷ ys) h = (
  rw (mark-id id x, mark-id id y, mark-user_id id x, mark-user_id id y) h.0,
  All-mark id x ys h.1,
)

pub OneOwner-mark : (id : Text) (xs : List Document) → OneOwner xs → OneOwner (map (mark id) xs)
OneOwner-mark id [] h = tt
OneOwner-mark id (x ∷ xs) h = (All-mark id x xs h.0, OneOwner-mark id xs h.1)

pub OneOwner-snoc :
    (xs : List Document) (d : Document)
    → OneOwner xs
    → All (λ x. text_eq x.id d.id ≡ false) xs
    → OneOwner (xs ++ d ∷ [])
OneOwner-snoc [] d h new = (tt, tt)
OneOwner-snoc (x ∷ xs) d h new = (
  All-append (λ y. text_eq x.id y.id ≡ true → x.user_id ≡ y.user_id) xs (d ∷ []) h.0
      (λ e. absurd (clash e new.0), tt),
  OneOwner-snoc xs d h.1 new.1,
)
  where
    clash : text_eq x.id d.id ≡ true → text_eq x.id d.id ≡ false → ⊥
    clash a b = cc

some-eq : (a b : Document) → ◌≡◌ {A = Option Document} (some a) (some b) → a ≡ b
some-eq a b h = cc

All-found :
    (P : Document → Type 0) (p : Document → Bool) (xs : List Document) (d : Document)
    → All P xs
    → head? (keep p xs) ≡ some d
    → P d
All-found P p [] d h e = cc
All-found P p (x ∷ xs) d h e = elim (Bool-cases (p x)) [
  | inl q ↦ subst P (some-eq x d (rw q at e)) h.0
  | inr q ↦ All-found P p xs d h.1 (rw q at e)
]

text_eq_flip : (a b : Text) → text_eq a b ≡ true → text_eq b a ≡ true
text_eq_flip a b h = (text_eq_iff b a).1 (sym ((text_eq_iff a b).0 h))

-- a deletion finds a document of its user, and so marks documents of this user only
pub marks_own :
    (u id : Text) (xs : List Document) (d : Document)
    → OneOwner xs
    → head? (keep (owned u id) xs) ≡ some d
    → All (λ x. text_eq x.id d.id ≡ true → x.user_id ≡ u) xs
marks_own u id [] d h e = tt
marks_own u id (x ∷ xs) d h e = elim (Bool-cases (owned u id x)) [
  | inl q ↦
      subst (λ c. All (λ y. text_eq y.id c.id ≡ true → y.user_id ≡ u) (x ∷ xs))
        (some-eq x d (rw q at e))
        (λ _. owner x q, All-map (λ y f g. sym (f (text_eq_flip y.id x.id g)) ∙ owner x q) xs h.0)
  | inr q ↦
      let found : head? (keep (owned u id) xs) ≡ some d = rw q at e in
      (
        λ g.
            All-found (λ y. text_eq x.id y.id ≡ true → x.user_id ≡ y.user_id) (owned u id) xs d h.0
              found g
            ∙ owner d (head?-keep (owned u id) xs d found),
        marks_own u id xs d h.1 found,
      )
]
  where
    owner : (y : Document) → owned u id y ≡ true → y.user_id ≡ u
    owner y q = (text_eq_iff y.user_id u).0 (&&→both (text_eq y.id id) (text_eq y.user_id u) q).1

pub mine-mark :
    (u v id : Text) (xs : List Document)
    → text_eq u v ≡ false
    → All (λ x. text_eq x.id id ≡ true → x.user_id ≡ u) xs
    → mine v (map (mark id) xs) ≡ mine v xs
mine-mark u v id [] ne h = refl
mine-mark u v id (x ∷ xs) ne h = elim (Bool-cases (text_eq x.id id)) [
  | inr e ↦ rw e (elim (Bool-cases (text_eq x.user_id v)) [
    | inl f ↦ rw f (ap (λ l. x ∷ l) (mine-mark u v id xs ne h.1))
    | inr f ↦ rw f (mine-mark u v id xs ne h.1)
  ])
  | inl e ↦
      let other : text_eq x.user_id v ≡ false = rw (h.0 e) ne in
      rw (e, other) (mine-mark u v id xs ne h.1)
]
