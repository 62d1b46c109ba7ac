-- ===== src/Stores/Isolation.antt =====
-- Users do not meet in the stores: each operation of app/vector_store and app/search stays within the
-- collection or the index of its user.
use multimodal_rag.Prelude.{ℕ, Bool, true, false, List, [], map, Option}
use multimodal_rag.Prelude.Text.{Text}
use multimodal_rag.Errors.{value_error, retrieval, app}
use multimodal_rag.Exec.{ok, raised, ◌>>=◌}
use multimodal_rag.Json.{Fields}
use multimodal_rag.Stores.{awaited, wrapped, collection_name_for_user, index_name_for_user}
use multimodal_rag.Stores.Compartments.{
  Within, Within-still, Within-if, Within-bind, Within-known, Within-wrapped, Within-called,
  Within-called_or,
}
use multimodal_rag.Stores.Qdrant
use multimodal_rag.Stores.Qdrant.{
  QdrantClient, CollectionConfig, ensure_collection_exists, upsert_points, upsert_chunks, points,
  same_lengths, dense_search, found_of,
}
use multimodal_rag.Stores.Elastic
use multimodal_rag.Stores.Elastic.{
  EsClient, IndexOperation, ensure_index_exists, index_chunks, bulk_result, called, bm25_search,
  read_hits, operations,
}

-- What Qdrant documents of its collections: a call reads and writes the collection that it names.
pub record IsDivided {W F V X : Type 0} (view : W → Text → X) (client : QdrantClient W F V)
    : Type 0 where
  pub exists : (c : Text) → Within view c (awaited (client.collection_exists c))
  pub create :
      (c : Text) (config : CollectionConfig)
      → Within view c (awaited (client.create_collection c config))
  pub upsert :
      (c : Text) (ps : List (Qdrant.Point V)) → Within view c (awaited (client.upsert c ps))
  pub delete : (c document_id : Text) → Within view c (awaited (client.delete c document_id))
  pub query :
      (c : Text) (query_vector : V) (top_k : ℕ)
      → Within view c (awaited (client.query_points c query_vector top_k))

-- The same of the indices of Elasticsearch.
pub record IsIndexed {W F X : Type 0} (view : W → Text → X) (client : EsClient W F) : Type 0 where
  pub exists : (c : Text) → Within view c (client.exists c)
  pub create : (c : Text) → Within view c (client.create c)
  pub bulk : (c : Text) (ops : List IndexOperation) → Within view c (client.bulk c ops)
  pub delete : (c document_id : Text) → Within view c (client.delete_by_query c document_id)
  pub search : (c query : Text) (top_k : ℕ) → Within view c (client.search c query top_k)

module _ {W F V X : Type 0} (view : W → Text → X) (hexdigest : Text → Text)
    (client : QdrantClient W F V) (divided : IsDivided view client) (user_id : Text) where
  abbrev home : Text
  home = collection_name_for_user hexdigest user_id

  create_unless-Within :
      (b : Bool) (config : CollectionConfig)
      → Within view home (Qdrant.create_unless hexdigest client b config home)
  create_unless-Within true config = Within-still view home (ok tt)
  create_unless-Within false config = divided.create home config

  ensure_collection_exists-Within :
      (config : CollectionConfig)
      → Within view home (ensure_collection_exists hexdigest client config user_id)
  unfolding ensure_collection_exists
  ensure_collection_exists-Within config =
      Within-bind view home _ (λ done. Within-still view home (ok home)) _
        (Within-wrapped view home _
          (Within-bind view home _ (λ b. create_unless-Within b config) _ (divided.exists home)))

  upsert_points-Within :
      (config : CollectionConfig) (document_id : Text) (ids : List Text) (vectors : List V)
      (texts : List Text) (metadata : Option (List Fields))
      → Within view home
          (upsert_points hexdigest client config user_id document_id ids vectors texts metadata)
  unfolding upsert_points ensure_collection_exists
  upsert_points-Within config document_id ids vectors texts metadata =
      Within-known view home
        (wrapped (
          awaited (client.collection_exists home) >>= λ b.
          Qdrant.create_unless hexdigest client b config home))
        home
        (λ c.
          wrapped
            (awaited (client.upsert c (points user_id document_id metadata 0 ids vectors texts))))
        (Within-wrapped view home _
          (Within-bind view home _ (λ b. create_unless-Within b config) _ (divided.exists home)))
        (Within-wrapped view home _
          (divided.upsert home (points user_id document_id metadata 0 ids vectors texts)))

  pub upsert_chunks-Within :
      (config : CollectionConfig) (document_id : Text) (ids : List Text) (vectors : List V)
      (texts : List Text) (metadata : Option (List Fields))
      → Within view home
          (upsert_chunks hexdigest client config user_id document_id ids vectors texts metadata)
  unfolding upsert_chunks
  upsert_chunks-Within config document_id ids vectors texts metadata =
      Within-if view home (same_lengths ids vectors texts) _ _
        (upsert_points-Within config document_id ids vectors texts metadata)
        (Within-still view home (raised value_error))

  delete_if-Within :
      (b : Bool) (document_id : Text)
      → Within view home (Qdrant.delete_if hexdigest client b home document_id)
  delete_if-Within false document_id = Within-still view home (ok 0)
  delete_if-Within true document_id =
      Within-bind view home _ (λ done. Within-still view home (ok 1)) _
        (divided.delete home document_id)

  pub remove-Within :
      (document_id : Text)
      → Within view home (Qdrant.delete_document_chunks hexdigest client user_id document_id)
  unfolding Qdrant.delete_document_chunks
  remove-Within document_id =
      Within-wrapped view home _
        (Within-bind view home _ (λ b. delete_if-Within b document_id) _ (divided.exists home))

  query_if-Within :
      (b : Bool) (query_vector : V) (top_k : ℕ)
      → Within view home (Qdrant.query_if hexdigest client b home query_vector top_k)
  query_if-Within false query_vector top_k = Within-still view home (ok [])
  query_if-Within true query_vector top_k = divided.query home query_vector top_k

  pub dense_search-Within :
      (query_vector : V) (top_k : ℕ)
      → Within view home (dense_search hexdigest client user_id query_vector top_k)
  unfolding dense_search
  dense_search-Within query_vector top_k =
      Within-bind view home _ (λ scored. Within-still view home (ok (map found_of scored))) _
        (Within-wrapped view home _ (
          Within-bind view home _ (λ b. query_if-Within b query_vector top_k) _
            (divided.exists home)))

module _ {W F X : Type 0} (view : W → Text → X) (hexdigest : Text → Text) (client : EsClient W F)
    (indexed : IsIndexed view client) (user_id : Text) where
  abbrev shelf : Text
  shelf = index_name_for_user hexdigest user_id

  create_index-Within :
      (b : Bool) → Within view shelf (Elastic.create_unless hexdigest client b shelf)
  create_index-Within true = Within-still view shelf (ok tt)
  create_index-Within false = Within-called view shelf _ (indexed.create shelf)

  bulk_result-Within : (b : Bool) → Within view shelf (bulk_result b)
  bulk_result-Within true = Within-still view shelf (raised (app retrieval))
  bulk_result-Within false = Within-still view shelf (ok tt)

  pub index_chunks-Within :
      (document_id : Text) (ids texts : List Text) (metadata : Option (List Fields))
      → Within view shelf (index_chunks hexdigest client user_id document_id ids texts metadata)
  unfolding index_chunks ensure_index_exists
  index_chunks-Within document_id ids texts metadata =
      Within-known view shelf
        (wrapped
          (called (client.exists shelf) >>= λ b. Elastic.create_unless hexdigest client b shelf))
        shelf
        (λ c. wrapped (
          called (client.bulk c (operations user_id document_id metadata 0 ids texts))
          >>= bulk_result))
        (Within-wrapped view shelf _ (
          Within-bind view shelf _ create_index-Within _
            (Within-called view shelf _ (indexed.exists shelf))))
        (Within-wrapped view shelf _ (
          Within-bind view shelf _ bulk_result-Within _ (
            Within-called view shelf _
              (indexed.bulk shelf (operations user_id document_id metadata 0 ids texts)))))

  pub unindex-Within :
      (document_id : Text)
      → Within view shelf (Elastic.delete_document_chunks hexdigest client user_id document_id)
  unfolding Elastic.delete_document_chunks
  unindex-Within document_id =
      Within-wrapped view shelf _
        (Within-called_or view shelf tt _ (indexed.delete shelf document_id))

  pub bm25_search-Within :
      (query : Text) (top_k : ℕ)
      → Within view shelf (bm25_search hexdigest client user_id query top_k)
  unfolding bm25_search
  bm25_search-Within query top_k =
      Within-bind view shelf _ (λ hits. Within-still view shelf (read_hits hits)) _
        (Within-wrapped view shelf _
          (Within-called_or view shelf [] _ (indexed.search shelf query top_k)))
