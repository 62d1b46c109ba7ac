-- ===== src/Outbox/Rows.antt =====
-- Rows of the outbox with ids of their own, and what the updates of the relay do to them.
use multimodal_rag.Prelude.{
  ℕ, zero, suc, ◌≤◌, ◌≡◌, inl, inr, refl, Bool, true, false, List, [], ◌∷◌, map, keep, take, leb,
  All, All-map, All-keep, All-kept, All-take, if◌then◌else◌, arith, Bool-cases,
}
use multimodal_rag.Prelude.Sort.{insert_desc, sort_desc, All-insert_desc, All-sort_desc}
use multimodal_rag.Prelude.Text.{Text, text_eq, text_eq_iff}
use multimodal_rag.Documents.{RowStatus, pending, published, dead, Row}
use multimodal_rag.Outbox.{
  max_retries, set_row, publish, retry, is_published, is_pending, remaining, batch,
}

-- no two rows have the same id
abbrev pub Apart : List Row → Type 0
Apart [] = Unit
Apart (x ∷ xs) = All (λ y. text_eq x.id y.id ≡ false) xs × Apart xs

-- a row that still waits: no row with its id is published
abbrev pub Waits : List Row → Row → Type 0
Waits rows row = All (λ r. text_eq r.id row.id ≡ true → is_published r.status ≡ false) rows

pub text_eq_sym : (a b : Text) → text_eq a b ≡ false → text_eq b a ≡ false
text_eq_sym a b h = ground (arith, text_eq_iff a b, text_eq_iff b a)

Apart-keep : (p : Row → Bool) (xs : List Row) → Apart xs → Apart (keep p xs)
Apart-keep p [] h = tt
Apart-keep p (x ∷ xs) h = elim (Bool-cases (p x)) [
  | inl e ↦ rw e (All-keep (λ y. text_eq x.id y.id ≡ false) p xs h.0, Apart-keep p xs h.1)
  | inr e ↦ rw e (Apart-keep p xs h.1)
]

Apart-insert :
    (a : Row) (xs : List Row)
    → All (λ y. text_eq a.id y.id ≡ false) xs
    → Apart xs
    → Apart (insert_desc (λ a b. leb b a) (λ r. r.created_at) a xs)
unfolding insert_desc
Apart-insert a [] new h = (tt, tt)
Apart-insert a (x ∷ xs) new h = elim (Bool-cases (leb a.created_at x.created_at)) [
  | inl e ↦ rw e (new, h)
  | inr e ↦ rw e (
    All-insert_desc (λ a b. leb b a) (λ r. r.created_at) (λ y. text_eq x.id y.id ≡ false) a xs
        (text_eq_sym a.id x.id new.0) h.0,
    Apart-insert a xs new.1 h.1,
  )
]

Apart-sort : (xs : List Row) → Apart xs → Apart (sort_desc (λ a b. leb b a) (λ r. r.created_at) xs)
unfolding sort_desc
Apart-sort [] h = tt
Apart-sort (x ∷ xs) h =
    Apart-insert x (sort_desc (λ a b. leb b a) (λ r. r.created_at) xs)
      (All-sort_desc (λ a b. leb b a) (λ r. r.created_at) (λ y. text_eq x.id y.id ≡ false) xs h.0)
      (Apart-sort xs h.1)

Apart-take : (n : ℕ) (xs : List Row) → Apart xs → Apart (take n xs)
Apart-take zero xs h = tt
Apart-take (suc n) [] h = tt
Apart-take (suc n) (x ∷ xs) h =
    (All-take (λ y. text_eq x.id y.id ≡ false) n xs h.0, Apart-take n xs h.1)

pub batch-Apart : (rows : List Row) → Apart rows → Apart (batch rows)
unfolding batch
batch-Apart rows h = Apart-take 100 _ (Apart-sort _ (Apart-keep (λ r. is_pending r.status) rows h))

pending-Waits :
    (rows : List Row) → Apart rows → All (λ row. is_pending row.status ≡ true → Waits rows row) rows
pending-Waits [] h = tt
pending-Waits (x ∷ xs) h = (
  λ p. (
    λ e. not_published x.status p,
    All-map
        (λ r (f : text_eq x.id r.id ≡ false).
          λ e. absurd (ground (arith, text_eq_iff x.id r.id, text_eq_iff r.id x.id)))
        xs h.0,
  ),
  both xs (pending-Waits xs h.1) h.0,
)
  where
    not_published : (s : RowStatus) → is_pending s ≡ true → is_published s ≡ false
    not_published pending p = refl
    not_published published p = absurd cc
    not_published dead p = refl

    both :
        (ys : List Row)
        → All (λ row. is_pending row.status ≡ true → Waits xs row) ys
        → All (λ y. text_eq x.id y.id ≡ false) ys
        → All (λ row. is_pending row.status ≡ true → Waits (x ∷ xs) row) ys
    both [] w f = tt
    both (y ∷ ys) w f = (λ p. (λ e. absurd (ground (arith, f.0)), w.0 p), both ys w.1 f.1)

pub batch-Waits : (rows : List Row) → Apart rows → All (Waits rows) (batch rows)
unfolding batch
batch-Waits rows h = All-take (Waits rows) 100 _ (
    All-sort_desc (λ a b. leb b a) (λ r. r.created_at) (Waits rows) _
      (All-kept (Waits rows) (λ r. is_pending r.status) rows (pending-Waits rows h)))

-- a change of some rows, with their ids kept
abbrev pub change_where : (Row → Bool) → (Row → Row) → List Row → List Row
change_where p f = map (λ r. if p r then f r else r)

Apart-change :
    (p : Row → Bool) (f : Row → Row) (rows : List Row)
    → ((r : Row) → (f r).id ≡ r.id)
    → Apart rows
    → Apart (change_where p f rows)
Apart-change p f [] same h = tt
Apart-change p f (x ∷ xs) same h = (others xs h.0, Apart-change p f xs same h.1)
  where
    id_of : (r : Row) → (if p r then f r else r).id ≡ r.id
    id_of r = elim (Bool-cases (p r)) [ inl e ↦ rw e (same r) | inr e ↦ rw e refl ]

    others :
        (ys : List Row)
        → All (λ y. text_eq x.id y.id ≡ false) ys
        → All (λ y. text_eq (if p x then f x else x).id y.id ≡ false) (change_where p f ys)
    others [] g = tt
    others (y ∷ ys) g = (rw (id_of x, id_of y) g.0, others ys g.1)

module _ (row_id : Text) where
  pub Apart-publish : (rows : List Row) → Apart rows → Apart (publish row_id rows)
  Apart-publish rows h =
      Apart-change (λ r. text_eq r.id row_id) (λ r. set_row published r.retry_count r) rows
        (λ r. refl) h

  pub Apart-retry : (n : ℕ) (rows : List Row) → Apart rows → Apart (retry row_id n rows)
  Apart-retry n rows h =
      Apart-change (λ r. text_eq r.id row_id)
        (λ r. set_row (if leb max_retries n then dead else pending) n r) rows (λ r. refl) h

  Waits-change :
      (f : Row → Row) (other : Row) (rows : List Row)
      → ((r : Row) → (f r).id ≡ r.id)
      → text_eq row_id other.id ≡ false
      → Waits rows other
      → Waits (change_where (λ r. text_eq r.id row_id) f rows) other
  Waits-change f other [] same apart w = tt
  Waits-change f other (r ∷ rows) same apart w = (
    elim (Bool-cases (text_eq r.id row_id)) [
      | inl e ↦ rw e (λ g. absurd (
          ground (
            arith,
            text_eq_iff r.id row_id,
            text_eq_iff (f r).id other.id,
            text_eq_iff row_id other.id,
            same r,
          )))
      | inr e ↦ rw e w.0
    ],
    Waits-change f other rows same apart w.1,
  )

  pub Waits-publish :
      (other : Row) (rows : List Row)
      → text_eq row_id other.id ≡ false
      → Waits rows other
      → Waits (publish row_id rows) other
  Waits-publish other rows apart w =
      Waits-change (λ r. set_row published r.retry_count r) other rows (λ r. refl) apart w

  pub Waits-retry :
      (n : ℕ) (other : Row) (rows : List Row)
      → text_eq row_id other.id ≡ false
      → Waits rows other
      → Waits (retry row_id n rows) other
  Waits-retry n other rows apart w =
      Waits-change (λ r. set_row (if leb max_retries n then dead else pending) n r) other rows
        (λ r. refl) apart w

  pub remaining-publish :
      (document_id : Text) (rows : List Row)
      → remaining document_id (publish row_id rows) ≤ remaining document_id rows
  remaining-publish document_id [] = omega arith
  remaining-publish document_id (r ∷ rows) = elim (Bool-cases (text_eq r.id row_id)) [
    | inl e ↦ rw e (ground (arith, remaining-publish document_id rows))
    | inr e ↦ rw e (omega (arith, remaining-publish document_id rows))
  ]

pub remaining-retry :
    (document_id : Text) (n : ℕ) (row : Row) (rows : List Row)
    → Waits rows row
    → remaining document_id (retry row.id n rows) ≡ remaining document_id rows
remaining-retry document_id n row [] w = refl
remaining-retry document_id n row (r ∷ rows) w = elim (Bool-cases (text_eq r.id row.id)) [
  | inl e ↦
      let was : is_published r.status ≡ false = w.0 e in
      let now : is_published (if leb max_retries n then dead else pending) ≡ false = ground arith in
      rw (e, was, now) (omega (arith, remaining-retry document_id n row rows w.1))
  | inr e ↦ rw e (omega (arith, remaining-retry document_id n row rows w.1))
]
