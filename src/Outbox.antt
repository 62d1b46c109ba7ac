-- ===== src/Outbox.antt =====
-- app/tasks/outbox_relay.py: the relay of the outbox to Qdrant and Elasticsearch.
pub mod Rows
pub mod Ready
pub mod Writes
pub mod Ingested
pub mod Stores
pub mod Reached
pub mod Counting
pub mod Marks
pub mod Delivered
use multimodal_rag.Prelude.{
  ℕ, zero, suc, ◌+◌, ◌≡◌, Bool, true, false, Option, none, some, List, [], ◌∷◌, ◌++◌, map, length,
  keep, head?, take, tally, leb, ◌==◌, ◌&&◌, not, if◌then◌else◌,
}
use multimodal_rag.Prelude.Sort.{sort_desc}
use multimodal_rag.Prelude.Text.{Text, text, text_eq, show}
use multimodal_rag.Errors.{Exception, other, value_error}
use multimodal_rag.Exec.{Result, ok, raised, Exec, pure, throw, recover, continue, ◌>>=◌}
use multimodal_rag.Json.{Json, str, Fields, get}
use multimodal_rag.Documents.{
  Document, DocumentStatus, processing, ready, deleting, deleted, Operation, upsert_memory,
  upsert_chunk, delete_chunks, unknown, Payload, chunk_payload, memory_payload, deletion_payload,
  RowStatus, pending, published, dead, Row, Tables, set_document_status,
}

-- the calls of the two stores
pub data Call : Type 0 where
  qdrant_upsert : Text → Text → List Text → Fields → Call
  es_index : Text → Text → Text → ℕ → Call
  qdrant_delete : Text → List Text → Call
  es_delete : Text → Text → Call

-- The stores and the embedding model, on a world `W`; each call may raise. `show_json` is `str` of a
-- value that is not a text, and `uuid5` the id of a chunk.
pub record Targets (W : Type 0) : Type 0 where
  pub send : Call → Exec W (Unit {0})
  pub encode : Text → Exec W (List Text)
  pub show_json : Json → Text
  pub uuid5 : Text → Text → Text

pub record Relay (W : Type 0) : Type 0 where
  pub tables : Tables
  pub world : W

abbrev pub max_retries : ℕ
max_retries = 5

abbrev pub set_row : RowStatus → ℕ → Row → Row
set_row status retry_count r = record {
  id = r.id;
  aggregate_id = r.aggregate_id;
  document_id = r.document_id;
  operation_type = r.operation_type;
  payload = r.payload;
  status = status;
  retry_count = retry_count;
  created_at = r.created_at;
}

abbrev pub publish : Text → List Row → List Row
publish row_id = map (λ r. if text_eq r.id row_id then set_row published r.retry_count r else r)

abbrev pub retry : Text → ℕ → List Row → List Row
retry row_id new_count = map (λ r.
    if text_eq r.id row_id
    then set_row (if leb max_retries new_count then dead else pending) new_count r
    else r)

abbrev pub is_published : RowStatus → Bool
is_published pending = false
is_published published = true
is_published dead = false

abbrev pub is_processing : DocumentStatus → Bool
is_processing processing = true
is_processing ready = false
is_processing deleting = false
is_processing deleted = false

abbrev pub of_document : Text → Row → Bool
of_document document_id r = elim r.document_id [ none ↦ false | some d ↦ text_eq d document_id ]

-- `count(*)` of the rows of a document that are not published
abbrev pub remaining : Text → List Row → ℕ
remaining document_id = tally (λ r. of_document document_id r && not (is_published r.status))

abbrev pub mark_ready : Text → List Document → List Document
mark_ready document_id = map (λ d.
    if text_eq d.id document_id && is_processing d.status then set_document_status ready d else d)

unfoldable pub maybe_mark_document_ready : Option Text → Tables → Tables
unfolding text_eq
maybe_mark_document_ready none t = t
maybe_mark_document_ready (some document_id) t = record {
  documents =
      if remaining document_id t.outbox == 0
      then mark_ready document_id t.documents
      else t.documents;
  outbox = t.outbox;
}

abbrev pub is_pending : RowStatus → Bool
is_pending pending = true
is_pending published = false
is_pending dead = false

-- the 100 oldest pending rows
unfoldable pub batch : List Row → List Row
unfolding sort_desc
batch rows =
    take 100 (sort_desc (λ a b. leb b a) (λ r. r.created_at) (keep (λ r. is_pending r.status) rows))

module _ {W : Type 0} (targets : Targets W) where
  abbrev pub send_all : List Call → Exec W (Unit {0})
  send_all [] = pure tt
  send_all (c ∷ cs) = λ w. continue (targets.send c w) (λ done. send_all cs)

  abbrev pub handle_upsert_memory : Text → Payload → Exec W (Unit {0})
  handle_upsert_memory aggregate_id (chunk_payload i t m u) = throw other
  handle_upsert_memory aggregate_id (memory_payload embedding u metadata) =
      targets.send (qdrant_upsert (text "memory") aggregate_id embedding metadata)
  handle_upsert_memory aggregate_id (deletion_payload u) = throw other

  abbrev pub format_hash : Option Json → Text
  format_hash none = text "default"
  format_hash (some (str s)) = s
  format_hash (some v) = targets.show_json v

  -- `user_docs_{metadata.get('user_hash', 'default')}`
  unfoldable pub collection : Fields → Text
  unfolding text get
  collection metadata = text "user_docs_" ++ format_hash (get (text "user_hash") metadata)

  abbrev pub chunk_calls : Text → ℕ → Text → Fields → List Text → List Call
  chunk_calls aggregate_id chunk_index text_content metadata vector =
      qdrant_upsert (collection metadata) aggregate_id vector metadata
      ∷ es_index (collection metadata) aggregate_id text_content chunk_index
      ∷ []

  abbrev pub handle_upsert_chunk : Text → Payload → Exec W (Unit {0})
  handle_upsert_chunk aggregate_id (chunk_payload chunk_index text_content metadata u) = λ w.
      continue (targets.encode text_content w)
        (λ vector. send_all (chunk_calls aggregate_id chunk_index text_content metadata vector))
  handle_upsert_chunk aggregate_id (memory_payload e u m) = throw other
  handle_upsert_chunk aggregate_id (deletion_payload u) = throw other

  -- the ids of the chunks `from`, …, `from + n - 1`
  unfoldable pub point_ids : Text → ℕ → ℕ → List Text
  unfolding show
  point_ids document_id from zero = []
  point_ids document_id from (suc n) =
      targets.uuid5 document_id (show from) ∷ point_ids document_id (suc from) n

  abbrev pub delete_calls : List Text → List Call
  delete_calls ids = qdrant_delete (text "user_docs") ids ∷ map (es_delete (text "user_docs")) ids

  abbrev pub counted : Text → Option Document → Exec W (Unit {0})
  counted document_id none = throw other
  counted document_id (some d) = send_all (delete_calls (point_ids document_id 0 d.chunk_count))

  -- No payload that the program writes has a `chunk_count`, so that the table is asked.
  abbrev pub handle_delete_chunks : List Document → Option Text → Exec W (Unit {0})
  handle_delete_chunks documents none = throw other
  handle_delete_chunks documents (some document_id) =
      counted document_id (head? (keep (λ d. text_eq d.id document_id) documents))

  unfoldable pub handle : List Document → Operation → Row → Exec W (Unit {0})
  unfolding collection point_ids text text_eq
  handle documents upsert_memory row = handle_upsert_memory row.aggregate_id row.payload
  handle documents upsert_chunk row = handle_upsert_chunk row.aggregate_id row.payload
  handle documents delete_chunks row = handle_delete_chunks documents row.document_id
  handle documents (unknown name) row = throw value_error

  -- what follows the handler: the row is published and its document perhaps ready, or the row waits
  -- for another try, or is dead
  abbrev pub settle : Row → Result (Unit {0}) → Tables → Tables
  settle row (ok done) t =
      maybe_mark_document_ready row.document_id
        (record { documents = t.documents; outbox = publish row.id t.outbox })
  settle row (raised e) t = record {
    documents = t.documents;
    outbox = retry row.id (row.retry_count + 1) t.outbox;
  }

  unfoldable pub relay_row : Row → Relay W → Relay W
  unfolding handle maybe_mark_document_ready
  relay_row row s =
      let outcome = handle s.tables.documents row.operation_type row s.world in
      record { tables = settle row outcome.0 s.tables; world = outcome.1 }

  unfoldable pub relay_rows : List Row → Relay W → Relay W
  unfolding relay_row
  relay_rows [] s = s
  relay_rows (row ∷ rows) s = relay_rows rows (relay_row row s)

  unfoldable pub relay_outbox_batch : Relay W → Relay W
  unfolding relay_rows batch
  relay_outbox_batch s = relay_rows (batch s.tables.outbox) s
