-- ===== src/Outbox/Reached.antt =====
-- The tables that uploads, deletions and runs of the relay can reach, in any order.
use multimodal_rag.Prelude.{
  ℕ, ◌≡◌, refl, sym, subst, Bool, true, false, Option, List, [], ◌∷◌, inl, inr, All, arith,
}
use multimodal_rag.Prelude.Text.{Text}
use multimodal_rag.Facts.{Fact, fact_row, store_semantic_fact}
use multimodal_rag.Json.{Fields}
use multimodal_rag.FileValidation.{Sniffer}
use multimodal_rag.Documents.{Commit, Document, Tables, Fresh, ingest_document, delete_document}
use multimodal_rag.Outbox.{Targets, of_document, relay_outbox_batch}
use multimodal_rag.Outbox.Ready.{is_ready, IsSound, relay_outbox_batch-IsSound}
use multimodal_rag.Outbox.Writes.{Unused, IsSound-snoc, delete_document-IsSound}
use multimodal_rag.Outbox.Ingested.{IsFresh, ingest_document-atomic}

-- One transaction on the tables: an ingestion under new ids, whether its commit goes through or not, a
-- deletion or a fact with a new id for its row, or a run of the relay with the stores in any state.
pub data Step {W : Type 0} (targets : Targets W) (t u : Tables) : Type 0 where
  ingestion :
      (sniffer : Sniffer) (max_mb : ℕ) (fresh : Fresh) (commits : Commit) (user_id filename : Text)
      (file_bytes : List ℕ) (doc_metadata : Option Fields)
      → IsFresh fresh t
      → u
        ≡ (ingest_document sniffer max_mb fresh commits user_id filename file_bytes doc_metadata
            t).1
      → Step targets t u
  deletion :
      (row_id user_id document_id : Text) (now : ℕ)
      → Unused row_id t.outbox
      → u ≡ (delete_document row_id now user_id document_id t).1
      → Step targets t u
  remembering :
      (fact_id row_id user_id fact_text : Text) (embedding : List Text) (metadata : Fields)
      (now : ℕ) (commits : Bool) (facts : List Fact)
      → Unused row_id t.outbox
      → u
        ≡ (store_semantic_fact fact_id row_id now commits user_id fact_text embedding metadata
            (record { facts = facts; tables = t })).1.tables
      → Step targets t u
  relaying :
      (w : W)
      → u ≡ (relay_outbox_batch targets (record { tables = t; world = w })).tables
      → Step targets t u

pub data Reach {W : Type 0} (targets : Targets W) (t : Tables) : Tables → Type 0 where
  here : Reach targets t t
  next : {u v : Tables} → Reach targets t u → Step targets u v → Reach targets t v

module _ {W : Type 0} (targets : Targets W) where
  ingestion-IsSound :
      (sniffer : Sniffer) (max_mb : ℕ) (fresh : Fresh) (commits : Commit) (user_id filename : Text)
      (file_bytes : List ℕ) (doc_metadata : Option Fields) (t : Tables)
      → IsFresh fresh t
      → IsSound t
      → IsSound
          (ingest_document sniffer max_mb fresh commits user_id filename file_bytes doc_metadata
            t).1
  ingestion-IsSound sniffer max_mb fresh commits user_id filename file_bytes doc_metadata t f h =
      elim (ingest_document-atomic sniffer max_mb fresh user_id filename file_bytes doc_metadata
        commits t f h) [
          | inl (e, raises, why) ↦ rw raises h
          | inr (d, rows, u, o, returns, ends, queued) ↦ rw returns queued.sound
        ]

  fact-IsSound :
      (fact_id row_id user_id fact_text : Text) (embedding : List Text) (metadata : Fields)
      (now : ℕ) (commits : Bool) (facts : List Fact) (t : Tables)
      → Unused row_id t.outbox
      → IsSound t
      → IsSound
          (store_semantic_fact fact_id row_id now commits user_id fact_text embedding metadata
            (record { facts = facts; tables = t })).1.tables
  unfolding store_semantic_fact
  fact-IsSound fact_id row_id user_id fact_text embedding metadata now false facts t unused h = h
  fact-IsSound fact_id row_id user_id fact_text embedding metadata now true facts t unused h =
      IsSound-snoc t (fact_row row_id fact_id now user_id embedding metadata) unused
        (of_none t.documents) (omega arith) h
    where
      of_none :
          (ds : List Document)
          → All
              (λ d.
                is_ready d.status ≡ true
                → of_document d.id (fact_row row_id fact_id now user_id embedding metadata) ≡ false)
              ds
      of_none [] = tt
      of_none (d ∷ ds) = (λ e. refl, of_none ds)

  Step-IsSound : (t u : Tables) → Step targets t u → IsSound t → IsSound u
  Step-IsSound t u (ingestion sniffer max_mb fresh commits user_id filename bytes metadata f e) h =
      subst IsSound (sym e)
        (ingestion-IsSound sniffer max_mb fresh commits user_id filename bytes metadata t f h)
  Step-IsSound t u (deletion row_id user_id document_id now unused e) h =
      subst IsSound (sym e) (delete_document-IsSound row_id user_id document_id now t unused h)
  Step-IsSound t u (remembering fact_id row_id user_id text embedding m now commits facts n e) h =
      subst IsSound (sym e)
        (fact-IsSound fact_id row_id user_id text embedding m now commits facts t n h)
  Step-IsSound t u (relaying w e) h =
      subst IsSound (sym e)
        (relay_outbox_batch-IsSound targets (record { tables = t; world = w }) h)

  Reach-kept : {t u : Tables} → Reach targets t u → IsSound t → IsSound u
  Reach-kept here h = h
  Reach-kept (next r s) h = Step-IsSound _ _ s (Reach-kept r h)

  -- All tables that are reached from empty ones by ingestions, deletions, facts and runs of the
  -- relay, in any order, with failed commits and whatever the stores answer, are sound: the ids of the rows are
  -- distinct, a ready document has no row that is not published, a pending row has been tried fewer
  -- than five times, and a dead one at least five times. It is assumed that new ids are new.
  pub Reach-IsSound :
      {u : Tables} → Reach targets (record { documents = []; outbox = [] }) u → IsSound u
  Reach-IsSound r = Reach-kept r (record { apart = tt; settled = tt; counted = tt })
