-- ===== src/Stores/Elastic.antt =====
-- app/search/es_client.py and app/search/es_search.py over the calls of the Elasticsearch client.
use multimodal_rag.Prelude.{ℕ, suc, Bool, true, false, Option, none, some, List, [], ◌∷◌}
use multimodal_rag.Prelude.Text.{Text, text, show}
use multimodal_rag.Errors.{Exception, retrieval, other}
use multimodal_rag.Exec.{Exec, Result, ok, raised, pure, fail, ◌>>=◌}
use multimodal_rag.Json.{Json, str, num, null, Fields, end, field, get}
use multimodal_rag.Stores.{wrapped, index_name_for_user}
use multimodal_rag.Stores.Qdrant.{Found, base_payload, metadata_at}

-- What a call answers: `NotFoundError` stands apart, since the code catches it by its class.
pub data Reply (A : Type 0) : Type 0 where
  answer : A → Reply A
  missing : Reply A
  failed : Exception → Reply A

-- one `index` operation of a bulk request, with the document that follows it
pub record IndexOperation : Type 0 where
  pub id : Text
  pub document : Fields

-- an entry of `response["hits"]["hits"]`
pub record EsHit (F : Type 0) : Type 0 where
  pub id : Text
  pub score : F
  pub source : Fields

-- The methods that are called on the asynchronous client, awaited. `bulk` answers with `errors`, and
-- `delete_by_query` takes the document id of its term.
pub record EsClient (W F : Type 0) : Type 0 where
  pub exists : Text → W → Reply Bool × W
  pub create : Text → W → Reply (Unit {0}) × W
  pub bulk : Text → List IndexOperation → W → Reply Bool × W
  pub delete_by_query : Text → Text → W → Reply (Unit {0}) × W
  pub search : Text → Text → ℕ → W → Reply (List (EsHit F)) × W

module _ {W A : Type 0} where
  abbrev pub settled : Reply A × W → Result A × W
  settled (answer a, w) = (ok a, w)
  settled (missing, w) = (raised other, w)
  settled (failed e, w) = (raised e, w)

  -- a call whose `NotFoundError` is no special case
  abbrev pub called : (W → Reply A × W) → Exec W A
  called m w = settled (m w)

  abbrev pub settled_or : A → Reply A × W → Result A × W
  settled_or a (answer b, w) = (ok b, w)
  settled_or a (missing, w) = (ok a, w)
  settled_or a (failed e, w) = (raised e, w)

  -- `except NotFoundError`, with what it gives, before `except Exception`
  abbrev pub called_or : A → (W → Reply A × W) → Exec W A
  called_or a m w = settled_or a (m w)

-- `doc["filename"] = chunk_metadata[i].get("filename")`
abbrev pub filename_of : Option Json → Json
filename_of none = null
filename_of (some v) = v

-- a document without metadata has no `filename`
abbrev pub es_document : Text → Text → ℕ → Text → Option Fields → Fields
es_document user_id document_id i content none = base_payload user_id document_id i content
es_document user_id document_id i content (some metadata) =
    field (text "document_id") (str document_id) (
      field (text "user_id") (str user_id) (
        field (text "chunk_index") (num (show i)) (
          field (text "text") (str content)
            (field (text "filename") (filename_of (get (text "filename") metadata)) end))))

-- the operations of the chunks from number `i` on
unfoldable pub operations :
    Text → Text → Option (List Fields) → ℕ → List Text → List Text → List IndexOperation
unfolding text show get
operations user_id document_id chunk_metadata i (cid ∷ cids) (content ∷ contents) =
    record {
      id = cid;
      document = es_document user_id document_id i content (metadata_at chunk_metadata i);
    }
    ∷ operations user_id document_id chunk_metadata (suc i) cids contents
operations user_id document_id chunk_metadata i _ _ = []

-- `source["text"]`: a missing key is a `KeyError`
abbrev pub key_or_raise : Option Json → Result Json
key_or_raise none = raised other
key_or_raise (some v) = ok v

abbrev pub bulk_result : {W : Type 0} → Bool → Exec W (Unit {0})
bulk_result true = fail retrieval
bulk_result false = pure tt

module _ {F : Type 0} where
  abbrev pub found_entry : EsHit F → Result Json → Result Json → Result (Found F)
  found_entry hit (raised e) d = raised e
  found_entry hit (ok content) (raised e) = raised e
  found_entry hit (ok content) (ok document_id) = ok (record {
    chunk_id = hit.id;
    content = content;
    document_id = some document_id;
    score = hit.score;
    filename = get (text "filename") hit.source;
  })

  abbrev pub read_hit : EsHit F → Result (Found F)
  read_hit hit =
      found_entry hit (key_or_raise (get (text "text") hit.source))
        (key_or_raise (get (text "document_id") hit.source))

  abbrev pub with_next : Result (Found F) → Result (List (Found F)) → Result (List (Found F))
  with_next (raised e) rest = raised e
  with_next (ok x) (raised e) = raised e
  with_next (ok x) (ok xs) = ok (x ∷ xs)

  -- the loop over the hits
  unfoldable pub read_hits : List (EsHit F) → Result (List (Found F))
  unfolding text get
  read_hits [] = ok []
  read_hits (hit ∷ hits) = with_next (read_hit hit) (read_hits hits)

module _ {W F : Type 0} (hexdigest : Text → Text) (client : EsClient W F) where
  abbrev pub create_unless : Bool → Text → Exec W (Unit {0})
  create_unless true index = pure tt
  create_unless false index = called (client.create index)

  unfoldable pub ensure_index_exists : Text → Exec W Text
  unfolding index_name_for_user
  ensure_index_exists user_id = do
    let index = index_name_for_user hexdigest user_id
    done ← wrapped (do exists ← called (client.exists index); create_unless exists index)
    pure index

  -- Of a partial failure no document is taken back.
  unfoldable pub index_chunks :
      Text → Text → List Text → List Text → Option (List Fields) → Exec W (Unit {0})
  unfolding ensure_index_exists operations
  index_chunks user_id document_id chunk_ids chunk_texts chunk_metadata = do
    index ← ensure_index_exists user_id
    wrapped (do
      errors ← called (
          client.bulk index (operations user_id document_id chunk_metadata 0 chunk_ids chunk_texts))
      bulk_result errors)

  unfoldable pub delete_document_chunks : Text → Text → Exec W (Unit {0})
  unfolding index_name_for_user
  delete_document_chunks user_id document_id =
      wrapped
        (called_or tt (client.delete_by_query (index_name_for_user hexdigest user_id) document_id))

  unfoldable pub bm25_search : Text → Text → ℕ → Exec W (List (Found F))
  unfolding index_name_for_user read_hits
  bm25_search user_id query top_k = do
    hits ←
        wrapped (called_or [] (client.search (index_name_for_user hexdigest user_id) query top_k))
    λ w. (read_hits hits, w)
