-- ===== src/Outbox/Delivered.antt =====
-- What a run of the relay delivers when the stores answer.
use multimodal_rag.Prelude.{
  ℕ, ◌≤◌, ◌<◌, ◌≡◌, ◌⊎◌, inl, inr, refl, ◌∙◌, sym, ap, subst, Bool, true, Option, List, [], ◌∷◌,
  tally, All, arith, Bool-cases,
}
use multimodal_rag.Prelude.Text.{Text}
use multimodal_rag.Exec.{Result, ok, raised}
use multimodal_rag.Documents.{
  Document, Operation, upsert_memory, upsert_chunk, delete_chunks, unknown, Payload, chunk_payload,
  memory_payload, deletion_payload, Row, Tables,
}
use multimodal_rag.Outbox.{
  Call, Targets, Relay, send_all, chunk_calls, is_pending, publish, batch, handle, settle,
  relay_row, relay_rows, relay_outbox_batch, handle_upsert_chunk, handle_upsert_memory,
}
use multimodal_rag.Outbox.Rows.{Apart, batch-Apart}
use multimodal_rag.Outbox.Ready.{maybe-outbox}
use multimodal_rag.Outbox.Counting.{waiting, All-batch, batch-Here, waiting-batch}
use multimodal_rag.Outbox.Marks.{
  named, named-some, NoneDead, NotProcessing, OnlyReady, OnlyReady-refl, remaining-waiting,
  NoneDead-publish, IsUpsert, Ahead, Ahead-publish, maybe-OnlyReady, maybe-NotProcessing,
  maybe-marked,
}

module _ {W : Type 0} (targets : Targets W) where
  -- the stores and the embedding model answer each call
  pub record Answers : Type 0 where
    pub sends : (c : Call) (w : W) → (v : W) × (targets.send c w ≡ (ok tt, v))
    pub encodes :
        (t : Text) (w : W) → (vector : List Text) × (v : W) × (targets.encode t w ≡ (ok vector, v))

  settle-OnlyReady :
      (ds : List Document) (row : Row) (o : Result (Unit {0})) (t : Tables)
      → OnlyReady ds t.documents
      → OnlyReady ds (settle targets row o t).documents
  settle-OnlyReady ds row (ok done) t h = maybe-OnlyReady ds row.document_id _ h
  settle-OnlyReady ds row (raised e) t h = h

  settle-NotProcessing :
      (document_id : Text) (row : Row) (o : Result (Unit {0})) (t : Tables)
      → NotProcessing document_id t.documents
      → NotProcessing document_id (settle targets row o t).documents
  settle-NotProcessing document_id row (ok done) t h =
      maybe-NotProcessing document_id row.document_id _ h
  settle-NotProcessing document_id row (raised e) t h = h

  relay_rows-OnlyReady :
      (ds : List Document) (rows : List Row) (s : Relay W)
      → OnlyReady ds s.tables.documents
      → OnlyReady ds (relay_rows targets rows s).tables.documents
  unfolding relay_rows relay_row
  relay_rows-OnlyReady ds [] s h = h
  relay_rows-OnlyReady ds (row ∷ rows) s h =
      relay_rows-OnlyReady ds rows (relay_row targets row s) (
        settle-OnlyReady ds row (handle targets s.tables.documents row.operation_type row s.world).0
          s.tables h)

  relay_rows-NotProcessing :
      (document_id : Text) (rows : List Row) (s : Relay W)
      → NotProcessing document_id s.tables.documents
      → NotProcessing document_id (relay_rows targets rows s).tables.documents
  unfolding relay_rows relay_row
  relay_rows-NotProcessing document_id [] s h = h
  relay_rows-NotProcessing document_id (row ∷ rows) s h =
      relay_rows-NotProcessing document_id rows (relay_row targets row s) (
        settle-NotProcessing document_id row
          (handle targets s.tables.documents row.operation_type row s.world).0 s.tables h)

  module _ (answers : Answers) where
    send_all-ok : (cs : List Call) (w : W) → (send_all targets cs w).0 ≡ ok tt
    send_all-ok [] w = refl
    send_all-ok (c ∷ cs) w = let (v, e) = answers.sends c w in rw e (send_all-ok cs v)

    chunk-ok :
        (aggregate_id : Text) (p : Payload) (w : W)
        → IsUpsert upsert_chunk p
        → (handle_upsert_chunk targets aggregate_id p w).0 ≡ ok tt
    chunk-ok a (chunk_payload i t m u) w h =
        let (vector, v, e) = answers.encodes t w in
        rw e (send_all-ok (chunk_calls targets a i t m vector) v)
    chunk-ok a (memory_payload x u m) w h = absurd h
    chunk-ok a (deletion_payload u) w h = absurd h

    memory-ok :
        (aggregate_id : Text) (p : Payload) (w : W)
        → IsUpsert upsert_memory p
        → (handle_upsert_memory targets aggregate_id p w).0 ≡ ok tt
    unfolding handle
    memory-ok a (chunk_payload i t m u) w h = absurd h
    memory-ok a (memory_payload x u m) w h = ap (λ o. o.0) (answers.sends _ w).1
    memory-ok a (deletion_payload u) w h = absurd h

    handle-ok :
        (ds : List Document) (row : Row) (w : W)
        → IsUpsert row.operation_type row.payload
        → (handle targets ds row.operation_type row w).0 ≡ ok tt
    unfolding handle
    handle-ok ds row w h = go row.operation_type h
      where
        go : (o : Operation) → IsUpsert o row.payload → (handle targets ds o row w).0 ≡ ok tt
        go upsert_memory h = memory-ok row.aggregate_id row.payload w h
        go upsert_chunk h = chunk-ok row.aggregate_id row.payload w h
        go delete_chunks h = absurd h
        go (unknown name) h = absurd h

    -- a row that is delivered is published, and its document perhaps marked
    relay_row-tables :
        (row : Row) (s : Relay W)
        → IsUpsert row.operation_type row.payload
        → (relay_row targets row s).tables ≡ settle targets row (ok tt) s.tables
    unfolding relay_row
    relay_row-tables row s h =
        ap (λ o. settle targets row o s.tables) (handle-ok s.tables.documents row s.world h)

    relay_row-outbox :
        (row : Row) (s : Relay W)
        → IsUpsert row.operation_type row.payload
        → (relay_row targets row s).tables.outbox ≡ publish row.id s.tables.outbox
    relay_row-outbox row s h =
        ap (λ t. t.outbox) (relay_row-tables row s h) ∙ maybe-outbox row.document_id _

    Ahead-step :
        (row : Row) (rows : List Row) (s : Relay W)
        → Ahead (row ∷ rows) s.tables.outbox
        → Ahead rows (relay_row targets row s).tables.outbox
    Ahead-step row rows s h =
        subst (Ahead rows) (sym (relay_row-outbox row s h.upserts.0))
          (Ahead-publish row rows s.tables.outbox h)

    relay_rows-waiting :
        (q : Option Text → Bool) (rows : List Row) (s : Relay W)
        → Ahead rows s.tables.outbox
        → waiting q (relay_rows targets rows s).tables.outbox ≡ 0
    unfolding relay_rows
    relay_rows-waiting q [] s h = h.counts q
    relay_rows-waiting q (row ∷ rows) s h =
        relay_rows-waiting q rows (relay_row targets row s) (Ahead-step row rows s h)

    -- The last row of a document marks it.
    relay_row-marks :
        (document_id : Text) (row : Row) (rows : List Row) (s : Relay W)
        → Ahead (row ∷ rows) s.tables.outbox
        → NoneDead document_id s.tables.outbox
        → named document_id row.document_id ≡ true
        → tally (λ r. named document_id r.document_id) rows ≡ 0
        → NotProcessing document_id (relay_row targets row s).tables.documents
    relay_row-marks document_id row rows s h alive of_it last =
        subst (λ t. NotProcessing document_id t.documents)
          (sym (relay_row-tables row s h.upserts.0))
          (maybe-marked document_id row.document_id _ (named-some document_id row.document_id of_it)
            (remaining-waiting document_id (publish row.id s.tables.outbox)
                (NoneDead-publish document_id row.id s.tables.outbox alive)
              ∙ (Ahead-publish row rows s.tables.outbox h).counts (named document_id)
              ∙ last))

    relay_rows-marks :
        (document_id : Text) (rows : List Row) (s : Relay W)
        → Ahead rows s.tables.outbox
        → NoneDead document_id s.tables.outbox
        → 0 < tally (λ r. named document_id r.document_id) rows
        → NotProcessing document_id (relay_rows targets rows s).tables.documents
    unfolding relay_rows
    relay_rows-marks document_id [] s h alive more = absurd (omega arith)
    relay_rows-marks document_id (row ∷ rows) s h alive more =
        elim (zero_or (tally (λ r. named document_id r.document_id) rows)) [
          | inr later ↦
              relay_rows-marks document_id rows (relay_row targets row s) (Ahead-step row rows s h)
                still later
          | inl last ↦
              relay_rows-NotProcessing document_id rows (relay_row targets row s)
                (relay_row-marks document_id row rows s h alive (is_last last) last)
        ]
      where
        zero_or : (n : ℕ) → (n ≡ 0) ⊎ (0 < n)
        zero_or n = ground arith

        still : NoneDead document_id (relay_row targets row s).tables.outbox
        still =
            subst (NoneDead document_id) (sym (relay_row-outbox row s h.upserts.0))
              (NoneDead-publish document_id row.id s.tables.outbox alive)

        is_last :
            tally (λ r. named document_id r.document_id) rows ≡ 0
            → named document_id row.document_id ≡ true
        is_last z = elim (Bool-cases (named document_id row.document_id)) [
          | inl e ↦ e
          | inr e ↦ absurd (omega (arith, rw e at more, z))
        ]

    -- If the stores and the embedding model answer, the ids of the rows are distinct, at most 100
    -- rows wait, and these are well-formed upserts, then after one run of the relay no row waits;
    -- each document that had a waiting row and no dead one is no longer processing; and the
    -- documents are those from before, of which some went from processing to ready and nothing else
    -- has changed.
    pub relay_outbox_batch-delivers :
        (s : Relay W)
        → Apart s.tables.outbox
        → All
            (λ r. is_pending r.status ≡ true → IsUpsert r.operation_type r.payload)
            s.tables.outbox
        → tally (λ r. is_pending r.status) s.tables.outbox ≤ 100
        → (tally (λ r. is_pending r.status) (relay_outbox_batch targets s).tables.outbox ≡ 0)
          × ((document_id : Text)
              → NoneDead document_id s.tables.outbox
              → 0 < waiting (named document_id) s.tables.outbox
              → NotProcessing document_id (relay_outbox_batch targets s).tables.documents)
          × OnlyReady s.tables.documents (relay_outbox_batch targets s).tables.documents
    unfolding relay_outbox_batch
    relay_outbox_batch-delivers s apart upserts few = (
      relay_rows-waiting (λ o. true) (batch s.tables.outbox) s ahead,
      λ document_id alive more.
          relay_rows-marks document_id (batch s.tables.outbox) s ahead alive
            (subst (λ n. 0 < n) (ahead.counts (named document_id)) more),
      relay_rows-OnlyReady s.tables.documents (batch s.tables.outbox) s
          (OnlyReady-refl s.tables.documents),
    )
      where
        ahead : Ahead (batch s.tables.outbox) s.tables.outbox
        ahead = record {
          apart = batch-Apart s.tables.outbox apart;
          here = batch-Here s.tables.outbox apart;
          upserts = All-batch _ s.tables.outbox upserts;
          counts = λ q. waiting-batch q s.tables.outbox few;
        }
