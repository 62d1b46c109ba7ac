-- ===== src/Ingest.antt =====
-- app/pipelines/ingest_pipeline.py and app/vector_store/embedder.py: parse, chunk, embed, and write to
-- both stores.
pub mod Parsers
pub mod Parsed
pub mod Raises
use multimodal_rag.Prelude.{
  ℕ, suc, Bool, true, false, Option, none, some, List, [], ◌∷◌, ◌++◌, map, length, if◌then◌else◌,
}
use multimodal_rag.Prelude.Text.{Text, text, text_eq, show}
use multimodal_rag.Errors.{Exception, embedding, parser, other}
use multimodal_rag.Exec.{Exec, Result, pure, throw, fail, catch, ◌>>=◌}
use multimodal_rag.Json.{Fields, field, str, end, update}
use multimodal_rag.Chunker.{Encoding, chunk_text}
use multimodal_rag.Stores.Qdrant.{QdrantClient, CollectionConfig, upsert_chunks}
use multimodal_rag.Stores.Elastic.{EsClient, index_chunks}
use multimodal_rag.Ingest.Parsers.{ParsedDocument, Libraries, parse_pdf, parse_docx, parse_email}

-- The model's `encode`, which may load it first: the dense vectors of some texts.
abbrev pub Encoder : Type 0 → Type 0 → Type 0
Encoder W V = List Text → Exec W (List V)

module _ {W V : Type 0} (encode : Encoder W V) where
  abbrev pub embedding_error : {A : Type 0} → Exception → Exec W A
  embedding_error e = fail embedding

  unfoldable pub embed_texts : List Text → Exec W (List V)
  embed_texts [] = pure []
  embed_texts (t ∷ ts) = catch (encode (t ∷ ts)) embedding_error

  -- `vectors[0]`: an `IndexError` for an empty list
  abbrev pub first_vector : List V → Exec W V
  first_vector [] = throw other
  first_vector (v ∷ vs) = pure v

  unfoldable pub embed_query : Text → Exec W V
  unfolding embed_texts
  embed_query query = do vectors ← embed_texts (query ∷ []); first_vector vectors

-- `_PARSERS.get(file_type)`
abbrev pub Parser : Type 0
Parser = List ℕ → Result ParsedDocument

unfoldable pub parser_for : Libraries → Text → Option Parser
unfolding text text_eq parse_pdf parse_docx parse_email
parser_for libraries file_type =
    if text_eq file_type (text "pdf")
    then some (parse_pdf libraries)
    else (if text_eq file_type (text "docx")
        then some (parse_docx libraries)
        else (if text_eq file_type (text "eml") then some (parse_email libraries) else none))

-- the ids of the chunks from number `i` on: they depend on the document and the number only
unfoldable pub ids_from : (Text → Text → Text) → Text → ℕ → List Text → List Text
unfolding show
ids_from uuid5 document_id i [] = []
ids_from uuid5 document_id i (c ∷ cs) =
    uuid5 document_id (show i) ∷ ids_from uuid5 document_id (suc i) cs

abbrev pub or_empty : Option Fields → Fields
or_empty none = end
or_empty (some metadata) = metadata

-- `{"filename": filename, **(doc_metadata or {})}`
unfoldable pub chunk_metadata : Text → Option Fields → Fields
unfolding text update
chunk_metadata filename doc_metadata =
    update (field (text "filename") (str filename) end) (or_empty doc_metadata)

-- what the ingestion of a document asks for
pub record Upload : Type 0 where
  pub user_id : Text
  pub document_id : Text
  pub file_type : Text
  pub file_bytes : List ℕ
  pub filename : Text
  pub doc_metadata : Option Fields

-- the chunker with its settings, the parsers' libraries, the model, the clients and `uuid.uuid5`
pub record Tools (W F V : Type 0) : Type 0 where
  pub libraries : Libraries
  pub encoding : Encoding
  pub chunk_size : ℕ
  pub chunk_overlap : ℕ
  pub encode : Encoder W V
  pub uuid5 : Text → Text → Text
  pub hexdigest : Text → Text
  pub config : CollectionConfig
  pub qdrant : QdrantClient W F V
  pub es : EsClient W F

module _ {W F V : Type 0} (tools : Tools W F V) (upload : Upload) where
  abbrev pub lifted : {A : Type 0} → Result A → Exec W A
  lifted r w = (r, w)

  abbrev pub parser_or_raise : Option Parser → Exec W Parser
  parser_or_raise none =
      fail (parser (text "No parser registered for file type: " ++ upload.file_type))
  parser_or_raise (some p) = pure p

  abbrev pub chunks_or_raise : List Text → Exec W (List Text)
  chunks_or_raise [] =
      fail (parser (text "Document produced no chunks after parsing — file may be empty."))
  chunks_or_raise (c ∷ cs) = pure (c ∷ cs)

  abbrev pub metadata_list : List Text → List Fields
  metadata_list = map (λ c. chunk_metadata upload.filename upload.doc_metadata)

  -- steps 4 to 6: ids, the vector store, then the index
  unfoldable pub write_chunks : List Text → List V → Exec W ℕ
  unfolding ids_from chunk_metadata
  write_chunks chunks embeddings = do
    let chunk_ids = ids_from tools.uuid5 upload.document_id 0 chunks
    upserted ←
        upsert_chunks tools.hexdigest tools.qdrant tools.config upload.user_id upload.document_id
          chunk_ids embeddings chunks (some (metadata_list chunks))
    indexed ←
        index_chunks tools.hexdigest tools.es upload.user_id upload.document_id chunk_ids chunks
          (some (metadata_list chunks))
    pure (length chunks)

  unfoldable pub run_ingest_pipeline : Exec W ℕ
  unfolding parser_for embed_texts write_chunks text
  run_ingest_pipeline = do
    parse ← parser_or_raise (parser_for tools.libraries upload.file_type)
    parsed ← lifted (parse upload.file_bytes)
    split ←
        lifted
          (chunk_text tools.encoding tools.chunk_size tools.chunk_overlap parsed.content none none)
    chunks ← chunks_or_raise split
    embeddings ← embed_texts tools.encode chunks
    write_chunks chunks embeddings
