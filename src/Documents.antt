-- ===== src/Documents.antt =====
-- app/services/ingestion_service.py over the tables of documents and of the outbox.
pub mod Routes
pub mod Owners
pub mod Tenants
use multimodal_rag.Prelude.{
  ℕ, suc, Bool, Option, none, some, List, [], ◌∷◌, ◌++◌, map, length, keep, head?, leb, ◌&&◌,
  if◌then◌else◌,
}
use multimodal_rag.Prelude.Sort.{sort_desc}
use multimodal_rag.Prelude.Text.{Text, text, text_eq, show}
use multimodal_rag.Errors.{other, not_found}
use multimodal_rag.Exec.{ok, raised, Exec, pure, fail, ◌>>=◌}
use multimodal_rag.Json.{Fields}
use multimodal_rag.FileValidation.{
  FileType, pdf, docx, eml, Sniffer, validate_file_size, detect_file_type,
}

pub data DocumentStatus : Type 0 where
  processing : DocumentStatus
  ready : DocumentStatus
  deleting : DocumentStatus
  deleted : DocumentStatus

pub record Document : Type 0 where
  pub id : Text
  pub user_id : Text
  pub filename : Text
  pub mime_type : Text
  pub size_bytes : ℕ
  pub status : DocumentStatus
  pub chunk_count : ℕ
  pub doc_metadata : Option Fields
  pub created_at : ℕ

pub data Operation : Type 0 where
  upsert_memory : Operation
  upsert_chunk : Operation
  delete_chunks : Operation
  unknown : Text → Operation

-- what the program writes as `payload`; `embedding` is a vector as the client takes it
pub data Payload : Type 0 where
  chunk_payload : ℕ → Text → Fields → Text → Payload
  memory_payload : List Text → Text → Fields → Payload
  deletion_payload : Text → Payload

pub data RowStatus : Type 0 where
  pending : RowStatus
  published : RowStatus
  dead : RowStatus

pub record Row : Type 0 where
  pub id : Text
  pub aggregate_id : Text
  pub document_id : Option Text
  pub operation_type : Operation
  pub payload : Payload
  pub status : RowStatus
  pub retry_count : ℕ
  pub created_at : ℕ

pub record Tables : Type 0 where
  pub documents : List Document
  pub outbox : List Row

abbrev pub mime_of : FileType → Text
mime_of pdf = text "application/pdf"
mime_of docx = text "application/vnd.openxmlformats-officedocument.wordprocessingml.document"
mime_of eml = text "message/rfc822"

-- The chunks are these two whatever the file is: the parser is not called yet.
abbrev pub placeholder_chunks : List Text
placeholder_chunks = text "chunk 1 text" ∷ text "chunk 2 text" ∷ []

abbrev pub or_empty : Option Fields → Fields
or_empty none = Fields.end
or_empty (some m) = m

-- New ids and the clock of a call: the document's, those of its outbox rows, and `uuid.uuid5`.
pub record Fresh : Type 0 where
  pub document_id : Text
  pub row_id : ℕ → Text
  pub uuid5 : Text → Text → Text
  pub now : ℕ

unfoldable pub chunk_rows : Fresh → Text → Option Fields → ℕ → List Text → List Row
unfolding show
chunk_rows fresh user_id doc_metadata idx [] = []
chunk_rows fresh user_id doc_metadata idx (c ∷ cs) =
    record {
      id = fresh.row_id idx;
      aggregate_id = fresh.uuid5 fresh.document_id (show idx);
      document_id = some fresh.document_id;
      operation_type = upsert_chunk;
      payload = chunk_payload idx c (or_empty doc_metadata) user_id;
      status = pending;
      retry_count = 0;
      created_at = fresh.now;
    }
    ∷ chunk_rows fresh user_id doc_metadata (suc idx) cs

abbrev pub new_document : Fresh → Text → Text → List ℕ → Option Fields → FileType → Document
new_document fresh user_id filename file_bytes doc_metadata file_type = record {
  id = fresh.document_id;
  user_id = user_id;
  filename = filename;
  mime_type = mime_of file_type;
  size_bytes = length file_bytes;
  status = processing;
  chunk_count = length placeholder_chunks;
  doc_metadata = doc_metadata;
  created_at = fresh.now;
}

-- What becomes of the commit of an ingestion: it fails, and the session rolls back; it goes through and
-- the refresh after it fails, where the rollback has nothing left to undo; or both go through.
pub data Commit : Type 0 where
  fails : Commit
  refresh_fails : Commit
  goes_through : Commit

abbrev pub add_all : Document → List Row → Tables → Tables
add_all d rows s = record { documents = s.documents ++ d ∷ []; outbox = s.outbox ++ rows }

-- `db.commit()` and `db.refresh(document)`, in one `try`
abbrev pub commit_all : Commit → Document → List Row → Exec Tables Document
commit_all fails d rows s = (raised other, s)
commit_all refresh_fails d rows s = (raised other, add_all d rows s)
commit_all goes_through d rows s = (ok d, add_all d rows s)

unfoldable pub ingest_document :
    Sniffer → ℕ → Fresh → Commit → Text → Text → List ℕ → Option Fields → Exec Tables Document
unfolding validate_file_size detect_file_type chunk_rows text
ingest_document sniffer max_mb fresh commits user_id filename file_bytes doc_metadata = do
  sized ← λ s. (validate_file_size max_mb file_bytes, s)
  file_type ← λ s. (detect_file_type sniffer file_bytes, s)
  commit_all commits (new_document fresh user_id filename file_bytes doc_metadata file_type)
      (chunk_rows fresh user_id doc_metadata 0 placeholder_chunks)

unfoldable pub list_documents : Text → Exec Tables (List Document)
unfolding sort_desc text_eq
list_documents user_id s =
    (ok (sort_desc leb (λ d. d.created_at) (keep (λ d. text_eq d.user_id user_id) s.documents)), s)

abbrev pub owned : Text → Text → Document → Bool
owned user_id document_id d = text_eq d.id document_id && text_eq d.user_id user_id

abbrev pub document_or_raise : Option Document → Exec Tables Document
document_or_raise none = fail (not_found (text "Document"))
document_or_raise (some d) = pure d

unfoldable pub get_document : Text → Text → Exec Tables Document
unfolding text_eq text
get_document user_id document_id s =
    document_or_raise (head? (keep (owned user_id document_id) s.documents)) s

abbrev pub set_document_status : DocumentStatus → Document → Document
set_document_status status d = record {
  id = d.id;
  user_id = d.user_id;
  filename = d.filename;
  mime_type = d.mime_type;
  size_bytes = d.size_bytes;
  status = status;
  chunk_count = d.chunk_count;
  doc_metadata = d.doc_metadata;
  created_at = d.created_at;
}

abbrev pub delete_row : Text → ℕ → Text → Document → Row
delete_row row_id now user_id d = record {
  id = row_id;
  aggregate_id = d.id;
  document_id = some d.id;
  operation_type = delete_chunks;
  payload = deletion_payload user_id;
  status = pending;
  retry_count = 0;
  created_at = now;
}

-- the row of the document is marked, and the deletion is queued in the same commit
abbrev pub queue_deletion : Text → ℕ → Text → Document → Exec Tables ℕ
queue_deletion row_id now user_id document s = (
  ok document.chunk_count,
  record {
    documents =
        map (λ d. if text_eq d.id document.id then set_document_status deleting d else d)
          s.documents;
    outbox = s.outbox ++ delete_row row_id now user_id document ∷ [];
  },
)

abbrev pub delete_unless_deleted : DocumentStatus → Text → ℕ → Text → Document → Exec Tables ℕ
delete_unless_deleted processing row_id now user_id document =
    queue_deletion row_id now user_id document
delete_unless_deleted ready row_id now user_id document = queue_deletion row_id now user_id document
delete_unless_deleted deleting row_id now user_id document = pure document.chunk_count
delete_unless_deleted deleted row_id now user_id document = pure document.chunk_count

unfoldable pub delete_document : Text → ℕ → Text → Text → Exec Tables ℕ
unfolding get_document
delete_document row_id now user_id document_id = do
  document ← get_document user_id document_id
  delete_unless_deleted document.status row_id now user_id document
