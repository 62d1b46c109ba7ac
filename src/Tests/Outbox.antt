-- ===== src/Tests/Outbox.antt =====
-- Ingestion, deletion and the relay over two stores that count their calls.
use multimodal_rag.Prelude.{
  ℕ, suc, ◌+◌, ◌≡◌, refl, none, some, [], ◌∷◌, ◌++◌, map, leb, arith, if◌then◌else◌,
}
use multimodal_rag.Prelude.Sort.{insert_desc, sort_desc}
use multimodal_rag.Prelude.Text.{text, text_eq}
use multimodal_rag.Errors.{other}
use multimodal_rag.Exec.{ok, raised}
use multimodal_rag.Json.{Fields, get}
use multimodal_rag.FileValidation.{Sniffer}
use multimodal_rag.Outbox.Writes.{Unused}
use multimodal_rag.Documents.{
  goes_through, refresh_fails, Document, processing, Row, pending, published, dead, Tables, Fresh,
  ingest_document, delete_document, upsert_chunk, chunk_payload,
}
use multimodal_rag.Outbox.{
  Targets, handle, collection, maybe_mark_document_ready, batch, relay_outbox_batch,
}
use multimodal_rag.Outbox.Ready.{IsSound, relay_outbox_batch-IsSound}
use multimodal_rag.Outbox.Writes.{delete_document-IsSound}
use multimodal_rag.Outbox.Ingested.{IsFresh, AllOrNothing, ingest_document-atomic}
use multimodal_rag.Outbox.Reached.{here, next, ingestion, deletion, relaying, Reach-IsSound}

-- the first three calls succeed
abbrev targets : Targets ℕ
targets = record {
  send = λ c w. (if leb 3 w then raised other else ok tt, suc w);
  encode = λ t w. (ok (t ∷ []), w);
  show_json = λ j. [];
  uuid5 = λ d i. d ++ i;
}

abbrev document : Document
document = record {
  id = 1 ∷ [];
  user_id = 9 ∷ [];
  filename = text "f.pdf";
  mime_type = text "application/pdf";
  size_bytes = 4;
  status = processing;
  chunk_count = 2;
  doc_metadata = none;
  created_at = 1;
}

abbrev pub row : ℕ → Row
row i = record {
  id = (20 + i) ∷ [];
  aggregate_id = (30 + i) ∷ [];
  document_id = some (1 ∷ []);
  operation_type = upsert_chunk;
  payload = chunk_payload i (65 ∷ []) Fields.end (9 ∷ []);
  status = pending;
  retry_count = 4;
  created_at = i;
}

abbrev pub tables : Tables
tables = record { documents = document ∷ []; outbox = row 0 ∷ row 1 ∷ [] }

pub tables-IsSound : IsSound tables
unfolding text_eq
tables-IsSound = record {
  apart = ((refl, tt), (tt, tt));
  settled = (λ r. absurd cc, tt);
  counted = (omega arith, (omega arith, tt));
}

-- the first row is published, and the fifth failure of the second one is its last
relayed_statuses :
    map
      (λ r. r.status)
      (relay_outbox_batch targets (record { tables = tables; world = 0 })).tables.outbox
    ≡ published ∷ dead ∷ []
unfolding relay_outbox_batch handle collection maybe_mark_document_ready batch insert_desc sort_desc
    text text_eq get
relayed_statuses = refl

relay_outbox_batch-IsSound_run :
    IsSound (relay_outbox_batch targets (record { tables = tables; world = 0 })).tables
relay_outbox_batch-IsSound_run =
    relay_outbox_batch-IsSound targets (record { tables = tables; world = 0 }) tables-IsSound

delete_document-IsSound_run : IsSound (delete_document (40 ∷ []) 5 (9 ∷ []) (1 ∷ []) tables).1
unfolding text_eq
delete_document-IsSound_run =
    delete_document-IsSound (40 ∷ []) (9 ∷ []) (1 ∷ []) 5 tables (refl, (refl, tt)) tables-IsSound

abbrev pub sniffer : Sniffer
sniffer = record { from_buffer = λ b. text "application/pdf"; decode = λ b. b }

abbrev pub fresh : Fresh
fresh = record { document_id = 2 ∷ []; row_id = λ i. 1 ∷ i ∷ []; uuid5 = λ d i. d ++ i; now = 7 }

fresh-IsFresh : IsFresh fresh tables
unfolding text_eq
fresh-IsFresh = record { documents = (refl, tt); rows = λ i. (refl, (refl, tt)); distinct = refl }

fresh-IsFresh_empty : IsFresh fresh (record { documents = []; outbox = [] })
unfolding text_eq
fresh-IsFresh_empty = record { documents = tt; rows = λ i. tt; distinct = refl }

unused :
    Unused
      (60 ∷ [])
      (ingest_document sniffer 50 fresh goes_through
        (9 ∷ [])
        (text "g.pdf")
        (37 ∷ 80 ∷ [])
        none
        (record { documents = []; outbox = [] })).1.outbox
unfolding ingest_document text_eq
unused = (refl, (refl, tt))

-- a run of the relay after a deletion, after an upload
Reach-IsSound_example :
    IsSound
      (relay_outbox_batch targets (record {
        tables =
            (delete_document
              (60 ∷ [])
              8
              (9 ∷ [])
              (2 ∷ [])
              (ingest_document sniffer 50 fresh goes_through
                (9 ∷ [])
                (text "g.pdf")
                (37 ∷ 80 ∷ [])
                none
                (record { documents = []; outbox = [] })).1).1;
        world = 0;
      })).tables
Reach-IsSound_example = Reach-IsSound targets (
    next
      (next
        (next here (
          ingestion sniffer 50 fresh goes_through (9 ∷ []) (text "g.pdf") (37 ∷ 80 ∷ []) none
            fresh-IsFresh_empty refl))
        (deletion (60 ∷ []) (9 ∷ []) (2 ∷ []) 8 unused refl))
      (relaying 0 refl))

ingest_document-atomic_example :
    AllOrNothing sniffer 50 fresh (9 ∷ []) (text "g.pdf") (37 ∷ 80 ∷ []) none goes_through tables
ingest_document-atomic_example =
    ingest_document-atomic sniffer 50 fresh (9 ∷ []) (text "g.pdf") (37 ∷ 80 ∷ []) none goes_through
      tables fresh-IsFresh tables-IsSound

-- the refresh fails when all is written
refresh_failed :
    (ingest_document sniffer 50 fresh refresh_fails
      (9 ∷ [])
      (text "g.pdf")
      (37 ∷ 80 ∷ [])
      none
      tables).0
    ≡ raised other
unfolding ingest_document text_eq
refresh_failed = refl
