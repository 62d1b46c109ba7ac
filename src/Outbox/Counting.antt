-- ===== src/Outbox/Counting.antt =====
-- How many rows of the outbox wait, and what publishing a row of a batch does to the number.
use multimodal_rag.Prelude.{
  ℕ, zero, suc, ◌+◌, ◌≤◌, ◌≡◌, inl, inr, refl, ◌∙◌, sym, ap, Bool, true, false, Option, List, [],
  ◌∷◌, keep, take, tally, length, length-keep, ◌&&◌, if◌then◌else◌, All, All-map, All-kept,
  All-take, leb, arith, Bool-cases,
}
use multimodal_rag.Prelude.Sort.{insert_desc, sort_desc, All-sort_desc, length-sort_desc}
use multimodal_rag.Prelude.Text.{Text, text_eq, text_eq_iff, text_eq_refl}
use multimodal_rag.Documents.{Row}
use multimodal_rag.Outbox.{publish, is_pending, batch}
use multimodal_rag.Outbox.Rows.{Apart, text_eq_sym}

-- the pending rows whose document is chosen
abbrev pub waiting : (Option Text → Bool) → List Row → ℕ
waiting q = tally (λ r. q r.document_id && is_pending r.status)

-- a row of a batch as the outbox has it: once, and pending
pub record Here (outbox : List Row) (row : Row) : Type 0 where
  pub once : tally (λ r. text_eq r.id row.id) outbox ≡ 1
  pub same :
      All
        (λ r.
          text_eq r.id row.id ≡ true
          → (r.document_id ≡ row.document_id) × (is_pending r.status ≡ true))
        outbox

pub waiting-publish :
    (q : Option Text → Bool) (row : Row) (outbox : List Row)
    → All
        (λ r.
          text_eq r.id row.id ≡ true
          → (r.document_id ≡ row.document_id) × (is_pending r.status ≡ true))
        outbox
    → waiting q outbox
      ≡ waiting q (publish row.id outbox)
        + (if q row.document_id then tally (λ r. text_eq r.id row.id) outbox else 0)
waiting-publish q row [] h = ground arith
waiting-publish q row (r ∷ rows) h = elim (Bool-cases (text_eq r.id row.id)) [
  | inl e ↦ let (d, p) = h.0 e in rw (e, d, p) (ground (arith, waiting-publish q row rows h.1))
  | inr e ↦ rw e (ground (arith, waiting-publish q row rows h.1))
]

pub Here-publish :
    (row_id : Text) (outbox : List Row) (other : Row)
    → text_eq row_id other.id ≡ false
    → Here outbox other
    → Here (publish row_id outbox) other
Here-publish row_id outbox other apart h = record {
  once = ids outbox ∙ h.once;
  same = kept outbox h.same;
}
  where
    ids :
        (rows : List Row)
        → tally (λ r. text_eq r.id other.id) (publish row_id rows)
          ≡ tally (λ r. text_eq r.id other.id) rows
    ids [] = refl
    ids (r ∷ rows) = elim (Bool-cases (text_eq r.id row_id)) [
      | inl e ↦ rw e (ap (λ n. (if text_eq r.id other.id then 1 else 0) + n) (ids rows))
      | inr e ↦ rw e (ap (λ n. (if text_eq r.id other.id then 1 else 0) + n) (ids rows))
    ]

    kept :
        (rows : List Row)
        → All
            (λ r.
              text_eq r.id other.id ≡ true
              → (r.document_id ≡ other.document_id) × (is_pending r.status ≡ true))
            rows
        → All
            (λ r.
              text_eq r.id other.id ≡ true
              → (r.document_id ≡ other.document_id) × (is_pending r.status ≡ true))
            (publish row_id rows)
    kept [] g = tt
    kept (r ∷ rows) g = (
      elim (Bool-cases (text_eq r.id row_id)) [
        | inl e ↦ rw e (λ f. absurd (
            ground (
              arith,
              text_eq_iff r.id row_id,
              text_eq_iff r.id other.id,
              text_eq_iff row_id other.id,
            )))
        | inr e ↦ rw e g.0
      ],
      kept rows g.1,
    )

none_with :
    (row : Row) (rows : List Row)
    → All (λ y. text_eq row.id y.id ≡ false) rows
    → tally (λ r. text_eq r.id row.id) rows ≡ 0
none_with row [] h = refl
none_with row (y ∷ ys) h = rw (text_eq_sym row.id y.id h.0) (omega (arith, none_with row ys h.1))

pending-Here :
    (rows : List Row) → Apart rows → All (λ row. is_pending row.status ≡ true → Here rows row) rows
pending-Here [] h = tt
pending-Here (x ∷ xs) h = (
  λ p. record {
    once = rw (text_eq_refl x.id) (omega (arith, none_with x xs h.0));
    same = (
      λ e. (refl, p),
      All-map
          (λ r (f : text_eq x.id r.id ≡ false).
            λ e. absurd (ground (arith, text_eq_iff x.id r.id, text_eq_iff r.id x.id)))
          xs h.0,
    );
  },
  both xs (pending-Here xs h.1) h.0,
)
  where
    later : (y : Row) → text_eq x.id y.id ≡ false → Here xs y → Here (x ∷ xs) y
    later y f g = record {
      once = rw f (omega (arith, g.once));
      same = (λ e. absurd (ground (arith, f)), g.same);
    }

    both :
        (ys : List Row)
        → All (λ row. is_pending row.status ≡ true → Here xs row) ys
        → All (λ y. text_eq x.id y.id ≡ false) ys
        → All (λ row. is_pending row.status ≡ true → Here (x ∷ xs) row) ys
    both [] w f = tt
    both (y ∷ ys) w f = (λ p. later y f.0 (w.0 p), both ys w.1 f.1)

-- what holds of the pending rows holds of a batch
pub All-batch :
    (P : Row → Type 0) (rows : List Row)
    → All (λ row. is_pending row.status ≡ true → P row) rows
    → All P (batch rows)
unfolding batch
All-batch P rows h = All-take P 100 _ (
    All-sort_desc (λ a b. leb b a) (λ r. r.created_at) P _
      (All-kept P (λ r. is_pending r.status) rows h))

pub batch-Here : (rows : List Row) → Apart rows → All (Here rows) (batch rows)
batch-Here rows h = All-batch (Here rows) rows (pending-Here rows h)

take-all : (n : ℕ) (xs : List Row) → length xs ≤ n → take n xs ≡ xs
take-all zero [] h = refl
take-all zero (x ∷ xs) h = absurd (omega arith)
take-all (suc n) [] h = refl
take-all (suc n) (x ∷ xs) h = ap (λ l. x ∷ l) (take-all n xs (omega arith))

tally-insert :
    (p : Row → Bool) (a : Row) (xs : List Row)
    → tally p (insert_desc (λ a b. leb b a) (λ r. r.created_at) a xs)
      ≡ (if p a then 1 else 0) + tally p xs
unfolding insert_desc
tally-insert p a [] = refl
tally-insert p a (x ∷ xs) = elim (Bool-cases (leb a.created_at x.created_at)) [
  | inl e ↦ rw e refl
  | inr e ↦ rw e (omega (arith, tally-insert p a xs))
]

tally-sort :
    (p : Row → Bool) (xs : List Row)
    → tally p (sort_desc (λ a b. leb b a) (λ r. r.created_at) xs) ≡ tally p xs
unfolding sort_desc
tally-sort p [] = refl
tally-sort p (x ∷ xs) =
    tally-insert p x (sort_desc (λ a b. leb b a) (λ r. r.created_at) xs)
    ∙ ap (λ n. (if p x then 1 else 0) + n) (tally-sort p xs)

tally-keep : (p g : Row → Bool) (xs : List Row) → tally p (keep g xs) ≡ tally (λ r. p r && g r) xs
tally-keep p g [] = refl
tally-keep p g (x ∷ xs) = ground (arith, tally-keep p g xs)

-- A batch of all pending rows has as many rows of the chosen documents as wait.
pub waiting-batch :
    (q : Option Text → Bool) (rows : List Row)
    → tally (λ r. is_pending r.status) rows ≤ 100
    → waiting q rows ≡ tally (λ r. q r.document_id) (batch rows)
unfolding batch
waiting-batch q rows few = sym (
    ap (tally (λ r. q r.document_id)) (
      take-all 100 _ (
        omega (
          arith,
          length-sort_desc (λ a b. leb b a) (λ r. r.created_at)
              (keep (λ r. is_pending r.status) rows),
          length-keep (λ r. is_pending r.status) rows,
        )))
    ∙ tally-sort (λ r. q r.document_id) (keep (λ r. is_pending r.status) rows)
    ∙ tally-keep (λ r. q r.document_id) (λ r. is_pending r.status) rows)
