-- ===== src/Stores/Qdrant.antt =====
-- app/vector_store/qdrant_client.py and app/vector_store/qdrant_search.py over the calls of the
-- Qdrant client.
use multimodal_rag.Prelude.{
  ℕ, suc, Bool, true, false, Option, none, some, List, [], ◌∷◌, map, length, get_elem?, ◌==◌, ◌&&◌,
  if◌then◌else◌,
}
use multimodal_rag.Prelude.Text.{Text, text, show}
use multimodal_rag.Errors.{value_error}
use multimodal_rag.Exec.{Exec, pure, throw, ◌>>=◌, ◌>>◌}
use multimodal_rag.Json.{Json, str, num, Fields, end, field, get, update}
use multimodal_rag.Stores.{Called, awaited, wrapped, collection_name_for_user}

-- `models.PointStruct`
pub record Point (V : Type 0) : Type 0 where
  pub id : Text
  pub vector : V
  pub payload : Fields

-- a point of an answer
pub record ScoredPoint (F : Type 0) : Type 0 where
  pub id : Text
  pub score : F
  pub payload : Option Fields

-- the vector size, `ef_construct` and `m` of a new collection
pub record CollectionConfig : Type 0 where
  pub vector_size : ℕ
  pub hnsw_ef_construct : ℕ
  pub hnsw_m : ℕ

-- The methods that are called. `delete` takes the document id that its filter asks for.
pub record QdrantClient (W F V : Type 0) : Type 0 where
  pub collection_exists : Text → Exec W (Called W Bool)
  pub create_collection : Text → CollectionConfig → Exec W (Called W (Unit {0}))
  pub upsert : Text → List (Point V) → Exec W (Called W (Unit {0}))
  pub delete : Text → Text → Exec W (Called W (Unit {0}))
  pub query_points : Text → V → ℕ → Exec W (Called W (List (ScoredPoint F)))

-- a dictionary of the results of a search
pub record Found (F : Type 0) : Type 0 where
  pub chunk_id : Text
  pub content : Json
  pub document_id : Option Json
  pub score : F
  pub filename : Option Json

abbrev pub base_payload : Text → Text → ℕ → Text → Fields
base_payload user_id document_id i content = field (text "document_id") (str document_id) (
    field (text "user_id") (str user_id)
      (field (text "chunk_index") (num (show i)) (field (text "text") (str content) end)))

-- `if chunk_metadata and i < len(chunk_metadata): payload.update(chunk_metadata[i])`
abbrev pub with_metadata : Option Fields → Fields → Fields
with_metadata none payload = payload
with_metadata (some metadata) payload = update payload metadata

abbrev pub metadata_at : Option (List Fields) → ℕ → Option Fields
metadata_at none i = none
metadata_at (some all) i = get_elem? all i

abbrev pub or_default : Option Json → Json → Json
or_default none d = d
or_default (some v) d = v

abbrev pub or_empty : Option Fields → Fields
or_empty none = end
or_empty (some payload) = payload

abbrev pub same_lengths : {A B C : Type 0} → List A → List B → List C → Bool
same_lengths chunk_ids embeddings chunk_texts =
    (length chunk_ids == length embeddings) && (length chunk_ids == length chunk_texts)

-- the points of the chunks from number `i` on
unfoldable pub points :
    {V : Type 0}
    → Text
    → Text
    → Option (List Fields)
    → ℕ
    → List Text
    → List V
    → List Text
    → List (Point V)
unfolding text show update
points user_id document_id chunk_metadata i (cid ∷ cids) (vector ∷ vectors) (content ∷ contents) =
    record {
      id = cid;
      vector = vector;
      payload =
          with_metadata (metadata_at chunk_metadata i) (base_payload user_id document_id i content);
    }
    ∷ points user_id document_id chunk_metadata (suc i) cids vectors contents
points user_id document_id chunk_metadata i _ _ _ = []

unfoldable pub found_of : {F : Type 0} → ScoredPoint F → Found F
unfolding text get
found_of point = record {
  chunk_id = point.id;
  content = or_default (get (text "text") (or_empty point.payload)) (str []);
  document_id = get (text "document_id") (or_empty point.payload);
  score = point.score;
  filename = get (text "filename") (or_empty point.payload);
}

module _ {W F V : Type 0} (hexdigest : Text → Text) (client : QdrantClient W F V) where
  -- a new collection has the size and the index parameters of the settings
  abbrev pub create_unless : Bool → CollectionConfig → Text → Exec W (Unit {0})
  create_unless true config collection = pure tt
  create_unless false config collection = awaited (client.create_collection collection config)

  unfoldable pub ensure_collection_exists : CollectionConfig → Text → Exec W Text
  unfolding collection_name_for_user
  ensure_collection_exists config user_id = do
    let collection = collection_name_for_user hexdigest user_id
    done ← wrapped (do
      exists ← awaited (client.collection_exists collection)
      create_unless exists config collection)
    pure collection

  -- the part of `upsert_chunks` that follows its check of the lengths
  unfoldable pub upsert_points :
      CollectionConfig
      → Text
      → Text
      → List Text
      → List V
      → List Text
      → Option (List Fields)
      → Exec W (Unit {0})
  unfolding ensure_collection_exists points
  upsert_points config user_id document_id chunk_ids embeddings chunk_texts chunk_metadata = do
    collection ← ensure_collection_exists config user_id
    wrapped (
        awaited (
          client.upsert collection
            (points user_id document_id chunk_metadata 0 chunk_ids embeddings chunk_texts)))

  unfoldable pub upsert_chunks :
      CollectionConfig
      → Text
      → Text
      → List Text
      → List V
      → List Text
      → Option (List Fields)
      → Exec W (Unit {0})
  unfolding upsert_points
  upsert_chunks config user_id document_id chunk_ids embeddings chunk_texts chunk_metadata =
      if same_lengths chunk_ids embeddings chunk_texts
      then upsert_points config user_id document_id chunk_ids embeddings chunk_texts chunk_metadata
      else throw value_error

  abbrev pub delete_if : Bool → Text → Text → Exec W ℕ
  delete_if false collection document_id = pure 0
  delete_if true collection document_id = awaited (client.delete collection document_id) >> pure 1

  unfoldable pub delete_document_chunks : Text → Text → Exec W ℕ
  unfolding collection_name_for_user
  delete_document_chunks user_id document_id =
      let collection = collection_name_for_user hexdigest user_id in
      wrapped (do
        exists ← awaited (client.collection_exists collection)
        delete_if exists collection document_id)

  abbrev pub query_if : Bool → Text → V → ℕ → Exec W (List (ScoredPoint F))
  query_if false collection query_vector top_k = pure []
  query_if true collection query_vector top_k =
      awaited (client.query_points collection query_vector top_k)

  -- A user without a collection has no points, and so no results.
  unfoldable pub dense_search : Text → V → ℕ → Exec W (List (Found F))
  unfolding collection_name_for_user found_of
  dense_search user_id query_vector top_k = do
    let collection = collection_name_for_user hexdigest user_id
    scored ← wrapped (do
      exists ← awaited (client.collection_exists collection)
      query_if exists collection query_vector top_k)
    pure (map found_of scored)
