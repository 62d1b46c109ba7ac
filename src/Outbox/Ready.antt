-- ===== src/Outbox/Ready.antt =====
-- A document is ready only when all its rows are published: ingestion, deletion and the relay keep it.
use multimodal_rag.Prelude.{
  ℕ, ◌+◌, ◌≤◌, ◌<◌, ◌≡◌, inl, inr, refl, subst, Bool, true, false, Option, none, some, List, [],
  ◌∷◌, leb, ◌==◌, ◌&&◌, All, arith, Bool-cases,
}
use multimodal_rag.Prelude.Text.{Text, text_eq, text_eq_iff}
use multimodal_rag.Exec.{Result, ok, raised}
use multimodal_rag.Documents.{
  Document, DocumentStatus, processing, ready, deleting, deleted, pending, published, dead, Row,
  Tables,
}
use multimodal_rag.Outbox.{
  Targets, Relay, max_retries, publish, retry, is_processing, remaining, mark_ready,
  maybe_mark_document_ready, batch, handle, settle, relay_row, relay_rows, relay_outbox_batch,
}
use multimodal_rag.Outbox.Rows.{
  Apart, Waits, batch-Apart, batch-Waits, Apart-publish, Apart-retry, Waits-publish, Waits-retry,
  remaining-publish, remaining-retry,
}

abbrev pub is_ready : DocumentStatus → Bool
is_ready processing = false
is_ready ready = true
is_ready deleting = false
is_ready deleted = false

-- all rows of a ready document are published
abbrev pub Settled : List Row → List Document → Type 0
Settled rows = All (λ d. is_ready d.status ≡ true → remaining d.id rows ≡ 0)

-- A waiting row can be tried again, and a dead one has been tried often enough.
abbrev pub IsCounted : Row → Type 0
IsCounted r = elim r.status [
  | pending ↦ r.retry_count < max_retries
  | published ↦ Unit
  | dead ↦ max_retries ≤ r.retry_count
]

-- what holds of the tables
pub record IsSound (t : Tables) : Type 0 where
  pub apart : Apart t.outbox
  pub settled : Settled t.outbox t.documents
  pub counted : All IsCounted t.outbox

counted-publish :
    (row_id : Text) (rows : List Row) → All IsCounted rows → All IsCounted (publish row_id rows)
counted-publish row_id [] h = tt
counted-publish row_id (r ∷ rows) h = (
  elim (Bool-cases (text_eq r.id row_id)) [ inl e ↦ rw e tt | inr e ↦ rw e h.0 ],
  counted-publish row_id rows h.1,
)

counted-retry :
    (row_id : Text) (n : ℕ) (rows : List Row)
    → All IsCounted rows
    → All IsCounted (retry row_id n rows)
counted-retry row_id n [] h = tt
counted-retry row_id n (r ∷ rows) h = (
  elim (Bool-cases (text_eq r.id row_id)) [
    | inl e ↦ rw e (elim (Bool-cases (leb max_retries n)) [
      | inl f ↦ rw f (ground arith)
      | inr f ↦ rw f (ground arith)
    ])
    | inr e ↦ rw e h.0
  ],
  counted-retry row_id n rows h.1,
)

Settled-le :
    (rows rows' : List Row) (ds : List Document)
    → ((document_id : Text) → remaining document_id rows' ≤ remaining document_id rows)
    → Settled rows ds
    → Settled rows' ds
Settled-le rows rows' [] le h = tt
Settled-le rows rows' (d ∷ ds) le h =
    (λ r. omega (arith, h.0 r, le d.id), Settled-le rows rows' ds le h.1)

Settled-mark :
    (document_id : Text) (rows : List Row) (ds : List Document)
    → remaining document_id rows ≡ 0
    → Settled rows ds
    → Settled rows (mark_ready document_id ds)
Settled-mark document_id rows [] none_left h = tt
Settled-mark document_id rows (d ∷ ds) none_left h = (
  elim (Bool-cases (text_eq d.id document_id && is_processing d.status)) [
    | inl e ↦
        let same : document_id ≡ d.id = ground (arith, text_eq_iff d.id document_id) in
        rw e (λ r. subst (λ i. remaining i rows ≡ 0) same none_left)
    | inr e ↦ rw e h.0
  ],
  Settled-mark document_id rows ds none_left h.1,
)

maybe-IsSound : (o : Option Text) (t : Tables) → IsSound t → IsSound (maybe_mark_document_ready o t)
unfolding maybe_mark_document_ready
maybe-IsSound none t h = h
maybe-IsSound (some document_id) t h = elim (Bool-cases (remaining document_id t.outbox == 0)) [
  | inl e ↦ rw e (record {
    apart = h.apart;
    settled = Settled-mark document_id t.outbox t.documents (ground arith) h.settled;
    counted = h.counted;
  })
  | inr e ↦ rw e (record { apart = h.apart; settled = h.settled; counted = h.counted })
]

pub maybe-outbox :
    (o : Option Text) (t : Tables) → (maybe_mark_document_ready o t).outbox ≡ t.outbox
unfolding maybe_mark_document_ready
maybe-outbox none t = refl
maybe-outbox (some document_id) t = refl

module _ {W : Type 0} (targets : Targets W) where
  settle-IsSound :
      (row : Row) (r : Result (Unit {0})) (t : Tables)
      → Waits t.outbox row
      → IsSound t
      → IsSound (settle targets row r t)
  settle-IsSound row (ok done) t w h = maybe-IsSound row.document_id _ (record {
    apart = Apart-publish row.id t.outbox h.apart;
    settled =
        Settled-le t.outbox (publish row.id t.outbox) t.documents
          (λ i. remaining-publish row.id i t.outbox) h.settled;
    counted = counted-publish row.id t.outbox h.counted;
  })
  settle-IsSound row (raised e) t w h = record {
    apart = Apart-retry row.id (row.retry_count + 1) t.outbox h.apart;
    settled =
        Settled-le t.outbox (retry row.id (row.retry_count + 1) t.outbox) t.documents
          (λ i. omega (arith, remaining-retry i (row.retry_count + 1) row t.outbox w)) h.settled;
    counted = counted-retry row.id (row.retry_count + 1) t.outbox h.counted;
  }

  settle-Waits :
      (row : Row) (r : Result (Unit {0})) (t : Tables) (others : List Row)
      → All (λ y. text_eq row.id y.id ≡ false) others
      → All (Waits t.outbox) others
      → All (Waits (settle targets row r t).outbox) others
  settle-Waits row r t [] apart w = tt
  settle-Waits row (ok done) t (y ∷ ys) apart w = (
    rw
        (maybe-outbox row.document_id
          (record { documents = t.documents; outbox = publish row.id t.outbox }))
        (Waits-publish row.id y t.outbox apart.0 w.0),
    settle-Waits row (ok done) t ys apart.1 w.1,
  )
  settle-Waits row (raised e) t (y ∷ ys) apart w = (
    Waits-retry row.id (row.retry_count + 1) y t.outbox apart.0 w.0,
    settle-Waits row (raised e) t ys apart.1 w.1,
  )

  relay_rows-IsSound :
      (rows : List Row) (s : Relay W)
      → Apart rows
      → All (Waits s.tables.outbox) rows
      → IsSound s.tables
      → IsSound (relay_rows targets rows s).tables
  unfolding relay_rows relay_row
  relay_rows-IsSound [] s apart w h = h
  relay_rows-IsSound (row ∷ rows) s apart w h =
      let outcome = handle targets s.tables.documents row.operation_type row s.world in
      relay_rows-IsSound rows (relay_row targets row s) apart.1
        (settle-Waits row outcome.0 s.tables rows apart.0 w.1)
        (settle-IsSound row outcome.0 s.tables w.0 h)

  -- Whatever the stores answer, a run of the relay keeps the tables sound: the ids of the rows stay
  -- distinct, a ready document has no row that is not published, a pending row has been tried fewer
  -- than five times, and a dead one at least five times.
  pub relay_outbox_batch-IsSound :
      (s : Relay W) → IsSound s.tables → IsSound (relay_outbox_batch targets s).tables
  unfolding relay_outbox_batch
  relay_outbox_batch-IsSound s h =
      relay_rows-IsSound (batch s.tables.outbox) s (batch-Apart s.tables.outbox h.apart)
        (batch-Waits s.tables.outbox h.apart) h
