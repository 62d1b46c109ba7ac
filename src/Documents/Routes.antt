-- ===== src/Documents/Routes.antt =====
-- app/api/v1/documents.py over the service of documents.
use multimodal_rag.Prelude.{ℕ, Option, none, some, List, [], ◌∷◌, length}
use multimodal_rag.Prelude.Text.{Text, text}
use multimodal_rag.Errors.{Exception, app, http, value_error, other, validation_error}
use multimodal_rag.Exec.{Result, ok, raised, Exec, pure, ◌>>=◌}
use multimodal_rag.Json.{Json, null, bool, num, str, arr, obj, Fields}
use multimodal_rag.FileValidation.{Sniffer}
use multimodal_rag.Documents.{
  Commit, Document, Tables, Fresh, ingest_document, list_documents, delete_document,
}

-- `json.loads`; a JSONDecodeError is a ValueError
abbrev pub Loads : Type 0
Loads = Text → Result Json

abbrev pub bad_metadata : Exception
bad_metadata =
    app (validation_error (text "metadata must be a valid JSON object.") (some (text "metadata")))

-- `isinstance(doc_metadata, dict)`
abbrev pub object_or_raise : Json → Result (Option Fields)
object_or_raise null = raised bad_metadata
object_or_raise (bool b) = raised bad_metadata
object_or_raise (num n) = raised bad_metadata
object_or_raise (str s) = raised bad_metadata
object_or_raise (arr xs) = raised bad_metadata
object_or_raise (obj fs) = ok (some fs)

-- `except (json.JSONDecodeError, ValueError)`: any other exception passes by
abbrev pub object_of : Result Json → Result (Option Fields)
object_of (ok v) = object_or_raise v
object_of (raised value_error) = raised bad_metadata
object_of (raised (app e)) = raised (app e)
object_of (raised (http n m)) = raised (http n m)
object_of (raised other) = raised other

-- `if metadata:`
unfoldable pub metadata_of : Loads → Option Text → Result (Option Fields)
unfolding text
metadata_of loads none = ok none
metadata_of loads (some []) = ok none
metadata_of loads (some (c ∷ s)) = object_of (loads (c ∷ s))

-- `file.filename or "unnamed"`
unfoldable pub filename_or : Option Text → Text
unfolding text
filename_or none = text "unnamed"
filename_or (some []) = text "unnamed"
filename_or (some (c ∷ s)) = c ∷ s

-- The response is made of the document, whose fields it names.
unfoldable pub ingest_route :
    Loads
    → Sniffer
    → ℕ
    → Fresh
    → Commit
    → Text
    → Option Text
    → List ℕ
    → Option Text
    → Exec Tables Document
unfolding metadata_of filename_or ingest_document
ingest_route loads sniffer max_mb fresh commits user_id filename file_bytes metadata = do
  doc_metadata ← λ s. (metadata_of loads metadata, s)
  ingest_document sniffer max_mb fresh commits user_id (filename_or filename) file_bytes
      doc_metadata

pub record DocumentList : Type 0 where
  pub documents : List Document
  pub total : ℕ

unfoldable pub list_route : Text → Exec Tables DocumentList
unfolding list_documents
list_route user_id = do
  documents ← list_documents user_id
  pure (record { documents = documents; total = length documents })

-- DocumentDeleteResponse, less its constant `deleted`
pub record Deletion : Type 0 where
  pub chunks_removed : ℕ
  pub document_id : Text

unfoldable pub delete_route : Text → ℕ → Text → Text → Exec Tables Deletion
unfolding delete_document
delete_route row_id now user_id document_id = do
  chunks_removed ← delete_document row_id now user_id document_id
  pure (record { chunks_removed = chunks_removed; document_id = document_id })
