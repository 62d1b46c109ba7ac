-- ===== src/Outbox/Marks.antt =====
-- Documents that become ready, and the rows of a batch that are still to come.
use multimodal_rag.Prelude.{
  ◌+◌, ◌==◌, ◌≡◌, ◌⊎◌, inl, inr, refl, ap, subst, Bool, true, false, Option, none, some, List, [],
  ◌∷◌, tally, not, ◌&&◌, if◌then◌else◌, All, arith, Bool-cases,
}
use multimodal_rag.Prelude.Text.{Text, text_eq, text_eq_iff}
use multimodal_rag.Documents.{
  Document, ready, Operation, upsert_memory, upsert_chunk, delete_chunks, unknown, Payload,
  chunk_payload, memory_payload, deletion_payload, Row, Tables, set_document_status,
}
use multimodal_rag.Outbox.{
  is_processing, is_published, is_pending, remaining, mark_ready, maybe_mark_document_ready,
  publish,
}
use multimodal_rag.Outbox.Rows.{Apart}
use multimodal_rag.Outbox.Counting.{waiting, Here, waiting-publish, Here-publish}

-- the rows of one document
abbrev pub named : Text → Option Text → Bool
named document_id o = elim o [ none ↦ false | some d ↦ text_eq d document_id ]

pub named-some :
    (document_id : Text) (o : Option Text) → named document_id o ≡ true → o ≡ some document_id
named-some document_id none h = cc
named-some document_id (some d) h = ap (λ i. some i) ((text_eq_iff d document_id).0 h)

-- no row of the document is dead
abbrev pub NoneDead : Text → List Row → Type 0
NoneDead document_id = All (λ r.
    named document_id r.document_id ≡ true → is_pending r.status ≡ not (is_published r.status))

-- no document with the id is processing
abbrev pub NotProcessing : Text → List Document → Type 0
NotProcessing document_id =
    All (λ d. text_eq d.id document_id ≡ true → is_processing d.status ≡ false)

-- the documents of one list in the other, where some have become ready
abbrev pub OnlyReady : List Document → List Document → Type 0
OnlyReady [] [] = Unit
OnlyReady [] (e ∷ es) = ⊥
OnlyReady (d ∷ ds) [] = ⊥
OnlyReady (d ∷ ds) (e ∷ es) =
    ((e ≡ d) ⊎ ((is_processing d.status ≡ true) × (e ≡ set_document_status ready d)))
    × OnlyReady ds es

pub OnlyReady-refl : (ds : List Document) → OnlyReady ds ds
OnlyReady-refl [] = tt
OnlyReady-refl (d ∷ ds) = (inl refl, OnlyReady-refl ds)

OnlyReady-mark :
    (document_id : Text) (ds es : List Document)
    → OnlyReady ds es
    → OnlyReady ds (mark_ready document_id es)
OnlyReady-mark document_id [] [] h = tt
OnlyReady-mark document_id [] (e ∷ es) h = h
OnlyReady-mark document_id (d ∷ ds) [] h = h
OnlyReady-mark document_id (d ∷ ds) (e ∷ es) h = (
  elim (Bool-cases (text_eq e.id document_id && is_processing e.status)) [
    | inr f ↦ rw f h.0
    | inl f ↦ rw f (elim h.0 [
      | inl same ↦ inr (
        subst (λ c. is_processing c.status ≡ true) same (ground arith),
        ap (set_document_status ready) same,
      )
      | inr (p, q) ↦ absurd (clash (ap (λ c. is_processing c.status) q) (ground arith))
    ])
  ],
  OnlyReady-mark document_id ds es h.1,
)
  where
    clash : is_processing e.status ≡ false → is_processing e.status ≡ true → ⊥
    clash a b = cc

NotProcessing-mark :
    (i document_id : Text) (ds : List Document)
    → NotProcessing i ds
    → NotProcessing i (mark_ready document_id ds)
NotProcessing-mark i document_id [] h = tt
NotProcessing-mark i document_id (d ∷ ds) h = (
  elim (Bool-cases (text_eq d.id document_id && is_processing d.status)) [
    | inl e ↦ rw e (λ f. refl)
    | inr e ↦ rw e h.0
  ],
  NotProcessing-mark i document_id ds h.1,
)

marked :
    (document_id : Text) (ds : List Document)
    → NotProcessing document_id (mark_ready document_id ds)
marked document_id [] = tt
marked document_id (d ∷ ds) = (
  elim (Bool-cases (text_eq d.id document_id && is_processing d.status)) [
    | inl e ↦ rw e (λ f. refl)
    | inr e ↦ rw e (λ f. ground arith)
  ],
  marked document_id ds,
)

pub remaining-waiting :
    (document_id : Text) (rows : List Row)
    → NoneDead document_id rows
    → remaining document_id rows ≡ waiting (named document_id) rows
remaining-waiting document_id [] h = refl
remaining-waiting document_id (r ∷ rows) h = elim (Bool-cases (named document_id r.document_id)) [
  | inl e ↦
      rw (e, h.0 e)
        (ap (λ n. (if not (is_published r.status) then 1 else 0) + n)
          (remaining-waiting document_id rows h.1))
  | inr e ↦ rw e (ap (λ n. 0 + n) (remaining-waiting document_id rows h.1))
]

pub NoneDead-publish :
    (document_id row_id : Text) (rows : List Row)
    → NoneDead document_id rows
    → NoneDead document_id (publish row_id rows)
NoneDead-publish document_id row_id [] h = tt
NoneDead-publish document_id row_id (r ∷ rows) h = (
  elim (Bool-cases (text_eq r.id row_id)) [ inl e ↦ rw e (λ f. refl) | inr e ↦ rw e h.0 ],
  NoneDead-publish document_id row_id rows h.1,
)

-- what an upsert needs of its row
abbrev pub IsUpsert : Operation → Payload → Type 0
IsUpsert upsert_memory (chunk_payload i t m u) = ⊥
IsUpsert upsert_memory (memory_payload e u m) = Unit
IsUpsert upsert_memory (deletion_payload u) = ⊥
IsUpsert upsert_chunk (chunk_payload i t m u) = Unit
IsUpsert upsert_chunk (memory_payload e u m) = ⊥
IsUpsert upsert_chunk (deletion_payload u) = ⊥
IsUpsert delete_chunks p = ⊥
IsUpsert (unknown name) p = ⊥

-- the rows of a batch that are still to come, and the outbox
pub record Ahead (rows outbox : List Row) : Type 0 where
  pub apart : Apart rows
  pub here : All (Here outbox) rows
  pub upserts : All (λ r. IsUpsert r.operation_type r.payload) rows
  pub counts : (q : Option Text → Bool) → waiting q outbox ≡ tally (λ r. q r.document_id) rows

pub Ahead-publish :
    (row : Row) (rows outbox : List Row)
    → Ahead (row ∷ rows) outbox
    → Ahead rows (publish row.id outbox)
Ahead-publish row rows outbox h = record {
  apart = h.apart.1;
  here = others rows h.apart.0 h.here.1;
  upserts = h.upserts.1;
  counts = λ q. count q (h.counts q) (waiting-publish q row outbox h.here.0.same);
}
  where
    others :
        (ys : List Row)
        → All (λ y. text_eq row.id y.id ≡ false) ys
        → All (Here outbox) ys
        → All (Here (publish row.id outbox)) ys
    others [] f g = tt
    others (y ∷ ys) f g = (Here-publish row.id outbox y f.0 g.0, others ys f.1 g.1)

    count :
        (q : Option Text → Bool)
        → waiting q outbox
          ≡ (if q row.document_id then 1 else 0) + tally (λ r. q r.document_id) rows
        → waiting q outbox
          ≡ waiting q (publish row.id outbox)
            + (if q row.document_id then tally (λ r. text_eq r.id row.id) outbox else 0)
        → waiting q (publish row.id outbox) ≡ tally (λ r. q r.document_id) rows
    count q a b = elim (Bool-cases (q row.document_id)) [
      | inl e ↦ omega (arith, rw e at a, rw e at b, h.here.0.once)
      | inr e ↦ omega (arith, rw e at a, rw e at b)
    ]

pub maybe-OnlyReady :
    (ds : List Document) (o : Option Text) (t : Tables)
    → OnlyReady ds t.documents
    → OnlyReady ds (maybe_mark_document_ready o t).documents
unfolding maybe_mark_document_ready
maybe-OnlyReady ds none t h = h
maybe-OnlyReady ds (some i) t h = elim (Bool-cases (remaining i t.outbox == 0)) [
  | inl e ↦ rw e (OnlyReady-mark i ds t.documents h)
  | inr e ↦ rw e h
]

pub maybe-NotProcessing :
    (document_id : Text) (o : Option Text) (t : Tables)
    → NotProcessing document_id t.documents
    → NotProcessing document_id (maybe_mark_document_ready o t).documents
unfolding maybe_mark_document_ready
maybe-NotProcessing document_id none t h = h
maybe-NotProcessing document_id (some i) t h = elim (Bool-cases (remaining i t.outbox == 0)) [
  | inl e ↦ rw e (NotProcessing-mark document_id i t.documents h)
  | inr e ↦ rw e h
]

pub maybe-marked :
    (document_id : Text) (o : Option Text) (t : Tables)
    → o ≡ some document_id
    → remaining document_id t.outbox ≡ 0
    → NotProcessing document_id (maybe_mark_document_ready o t).documents
unfolding maybe_mark_document_ready
maybe-marked document_id o t e z = rw (e, z) (marked document_id t.documents)
