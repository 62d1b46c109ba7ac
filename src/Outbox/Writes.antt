-- ===== src/Outbox/Writes.antt =====
-- A new row keeps the tables sound, and so does a deletion.
use multimodal_rag.Prelude.{
  ℕ, ◌≡◌, inl, inr, refl, ◌∙◌, true, false, some, List, [], ◌∷◌, ◌++◌, map, keep, head?,
  tally-append, not, ◌&&◌, All, All-append, if◌then◌else◌, arith, Bool-cases, Option-cases,
}
use multimodal_rag.Prelude.Text.{Text, text_eq}
use multimodal_rag.Documents.{
  Document, DocumentStatus, processing, ready, deleting, deleted, Row, Tables, set_document_status,
  delete_document, delete_row, delete_unless_deleted, queue_deletion, get_document, owned,
}
use multimodal_rag.Outbox.{is_published, of_document, remaining}
use multimodal_rag.Outbox.Rows.{Apart, text_eq_sym}
use multimodal_rag.Outbox.Ready.{is_ready, Settled, IsCounted, IsSound}

-- no row has this id
abbrev pub Unused : Text → List Row → Type 0
Unused row_id = All (λ r. text_eq r.id row_id ≡ false)

Apart-snoc : (rows : List Row) (y : Row) → Apart rows → Unused y.id rows → Apart (rows ++ y ∷ [])
Apart-snoc [] y h u = (tt, tt)
Apart-snoc (x ∷ xs) y h u =
    (All-append (λ r. text_eq x.id r.id ≡ false) xs (y ∷ []) h.0 (u.0, tt), Apart-snoc xs y h.1 u.1)

-- a row of another document does not count
remaining-snoc :
    (document_id : Text) (rows : List Row) (y : Row)
    → of_document document_id y ≡ false
    → remaining document_id (rows ++ y ∷ []) ≡ remaining document_id rows
remaining-snoc document_id rows y e =
    let t =
      tally-append (λ r. of_document document_id r && not (is_published r.status)) rows (y ∷ []) in
    ground (arith, t)

Settled-snoc :
    (rows : List Row) (y : Row) (ds : List Document)
    → All (λ d. is_ready d.status ≡ true → of_document d.id y ≡ false) ds
    → Settled rows ds
    → Settled (rows ++ y ∷ []) ds
Settled-snoc rows y [] o h = tt
Settled-snoc rows y (d ∷ ds) o h =
    (λ r. remaining-snoc d.id rows y (o.0 r) ∙ h.0 r, Settled-snoc rows y ds o.1 h.1)

-- a new pending row of a document that is not ready
pub IsSound-snoc :
    (t : Tables) (y : Row)
    → Unused y.id t.outbox
    → All (λ d. is_ready d.status ≡ true → of_document d.id y ≡ false) t.documents
    → IsCounted y
    → IsSound t
    → IsSound (record { documents = t.documents; outbox = t.outbox ++ y ∷ [] })
IsSound-snoc t y unused o c h = record {
  apart = Apart-snoc t.outbox y h.apart unused;
  settled = Settled-snoc t.outbox y t.documents o h.settled;
  counted = All-append IsCounted t.outbox (y ∷ []) h.counted (c, tt);
}

marked :
    (document_id : Text) (rows : List Row) (ds : List Document)
    → Settled rows ds
    → Settled rows
        (map (λ d. if text_eq d.id document_id then set_document_status deleting d else d) ds)
marked document_id rows [] h = tt
marked document_id rows (d ∷ ds) h = (
  elim (Bool-cases (text_eq d.id document_id)) [ inl e ↦ rw e (λ r. absurd cc) | inr e ↦ rw e h.0 ],
  marked document_id rows ds h.1,
)

not_ready :
    (document_id : Text) (ds : List Document) (y : Row)
    → y.document_id ≡ some document_id
    → All
        (λ d. is_ready d.status ≡ true → of_document d.id y ≡ false)
        (map (λ d. if text_eq d.id document_id then set_document_status deleting d else d) ds)
not_ready document_id [] y at = tt
not_ready document_id (d ∷ ds) y at = (
  elim (Bool-cases (text_eq d.id document_id)) [
    | inl e ↦ rw e (λ r. absurd cc)
    | inr e ↦ rw (e, at) (λ r. text_eq_sym d.id document_id e)
  ],
  not_ready document_id ds y at,
)

-- A deletion keeps the tables sound, if the id of its row is new: a document that is marked for
-- deletion is not ready any more.
pub delete_document-IsSound :
    (row_id user_id document_id : Text) (now : ℕ) (t : Tables)
    → Unused row_id t.outbox
    → IsSound t
    → IsSound (delete_document row_id now user_id document_id t).1
unfolding delete_document get_document
delete_document-IsSound row_id user_id document_id now t unused h =
    elim (Option-cases (head? (keep (owned user_id document_id) t.documents))) [
      | inl e ↦ rw e h
      | inr (d, e) ↦ rw e (go d d.status)
    ]
  where
    queued : (d : Document) → IsSound (queue_deletion row_id now user_id d t).1
    queued d =
        IsSound-snoc
          (record {
            documents =
                map (λ x. if text_eq x.id d.id then set_document_status deleting x else x)
                  t.documents;
            outbox = t.outbox;
          })
          (delete_row row_id now user_id d) unused
          (not_ready d.id t.documents (delete_row row_id now user_id d) refl) (omega arith)
          (record {
            apart = h.apart;
            settled = marked d.id t.outbox t.documents h.settled;
            counted = h.counted;
          })

    go :
        (d : Document) (s : DocumentStatus)
        → IsSound (delete_unless_deleted s row_id now user_id d t).1
    go d processing = queued d
    go d ready = queued d
    go d deleting = h
    go d deleted = h
