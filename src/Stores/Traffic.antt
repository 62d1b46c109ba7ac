-- ===== src/Stores/Traffic.antt =====
-- What the calls of many users, in any order, do to the searches of one: the writes of both stores as
-- one type of calls.
use multimodal_rag.Prelude.{ℕ, ◌≡◌, ◌≢◌, refl, ◌∙◌, List, [], ◌∷◌, take, Option, All, arith}
use multimodal_rag.Prelude.Text.{Text}
use multimodal_rag.Json.{Fields}
use multimodal_rag.Stores.{collection_name_for_user, index_name_for_user}
use multimodal_rag.Stores.Qdrant
use multimodal_rag.Stores.Qdrant.{QdrantClient, CollectionConfig, upsert_chunks, dense_search}
use multimodal_rag.Stores.Elastic
use multimodal_rag.Stores.Elastic.{EsClient, index_chunks, bm25_search}
use multimodal_rag.Stores.Isolation.{
  IsDivided, IsIndexed, upsert_chunks-Within, remove-Within, dense_search-Within,
  index_chunks-Within, unindex-Within, bm25_search-Within,
}

-- the writes, each with the id of its user first
pub data Write (V : Type 0) : Type 0 where
  upsert :
      Text
      → CollectionConfig
      → Text
      → List Text
      → List V
      → List Text
      → Option (List Fields)
      → Write V
  remove : Text → Text → Write V
  index : Text → Text → List Text → List Text → Option (List Fields) → Write V
  unindex : Text → Text → Write V

abbrev pub writer : {V : Type 0} → Write V → Text
writer (upsert user_id config document_id ids vectors texts metadata) = user_id
writer (remove user_id document_id) = user_id
writer (index user_id document_id ids texts metadata) = user_id
writer (unindex user_id document_id) = user_id

-- the part of a name that tells users apart
abbrev pub digest : (Text → Text) → Text → Text
digest hexdigest user_id = take 32 (hexdigest user_id)

home-ne-home :
    (hexdigest : Text → Text) (u v : Text)
    → digest hexdigest v ≢ digest hexdigest u
    → collection_name_for_user hexdigest u ≢ collection_name_for_user hexdigest v
unfolding collection_name_for_user
home-ne-home hexdigest u v ne e = ne (cc)

shelf-ne-shelf :
    (hexdigest : Text → Text) (u v : Text)
    → digest hexdigest v ≢ digest hexdigest u
    → index_name_for_user hexdigest u ≢ index_name_for_user hexdigest v
unfolding index_name_for_user
shelf-ne-shelf hexdigest u v ne e = ne (cc)

home-ne-shelf :
    (hexdigest : Text → Text) (u v : Text)
    → collection_name_for_user hexdigest u ≢ index_name_for_user hexdigest v
unfolding collection_name_for_user index_name_for_user
home-ne-shelf hexdigest u v e = ground arith

shelf-ne-home :
    (hexdigest : Text → Text) (u v : Text)
    → index_name_for_user hexdigest u ≢ collection_name_for_user hexdigest v
unfolding collection_name_for_user index_name_for_user
shelf-ne-home hexdigest u v e = ground arith

module _ {W F V : Type 0} (hexdigest : Text → Text) (qdrant : QdrantClient W F V)
    (es : EsClient W F) where
  -- a write, whatever comes of it
  unfoldable pub perform : Write V → W → W
  perform (upsert user_id config document_id ids vectors texts metadata) w =
      (upsert_chunks hexdigest qdrant config user_id document_id ids vectors texts metadata w).1
  perform (remove user_id document_id) w =
      (Qdrant.delete_document_chunks hexdigest qdrant user_id document_id w).1
  perform (index user_id document_id ids texts metadata) w =
      (index_chunks hexdigest es user_id document_id ids texts metadata w).1
  perform (unindex user_id document_id) w =
      (Elastic.delete_document_chunks hexdigest es user_id document_id w).1

  unfoldable pub perform_all : List (Write V) → W → W
  perform_all [] w = w
  perform_all (x ∷ xs) w = perform_all xs (perform x w)

  module _ {X : Type 0} (view : W → Text → X) (divided : IsDivided view qdrant)
      (indexed : IsIndexed view es) (user_id : Text) where
    perform-home :
        (x : Write V) (w : W)
        → digest hexdigest (writer x) ≢ digest hexdigest user_id
        → view (perform x w) (collection_name_for_user hexdigest user_id)
          ≡ view w (collection_name_for_user hexdigest user_id)
    unfolding perform
    perform-home (upsert v config document_id ids vectors texts metadata) w ne =
        (upsert_chunks-Within view hexdigest qdrant divided v config document_id ids vectors texts
            metadata).others
          w _ (home-ne-home hexdigest user_id v ne)
    perform-home (remove v document_id) w ne =
        (remove-Within view hexdigest qdrant divided v document_id).others w _
          (home-ne-home hexdigest user_id v ne)
    perform-home (index v document_id ids texts metadata) w ne =
        (index_chunks-Within view hexdigest es indexed v document_id ids texts metadata).others w _
          (home-ne-shelf hexdigest user_id v)
    perform-home (unindex v document_id) w ne =
        (unindex-Within view hexdigest es indexed v document_id).others w _
          (home-ne-shelf hexdigest user_id v)

    perform-shelf :
        (x : Write V) (w : W)
        → digest hexdigest (writer x) ≢ digest hexdigest user_id
        → view (perform x w) (index_name_for_user hexdigest user_id)
          ≡ view w (index_name_for_user hexdigest user_id)
    unfolding perform
    perform-shelf (upsert v config document_id ids vectors texts metadata) w ne =
        (upsert_chunks-Within view hexdigest qdrant divided v config document_id ids vectors texts
            metadata).others
          w _ (shelf-ne-home hexdigest user_id v)
    perform-shelf (remove v document_id) w ne =
        (remove-Within view hexdigest qdrant divided v document_id).others w _
          (shelf-ne-home hexdigest user_id v)
    perform-shelf (index v document_id ids texts metadata) w ne =
        (index_chunks-Within view hexdigest es indexed v document_id ids texts metadata).others w _
          (shelf-ne-shelf hexdigest user_id v ne)
    perform-shelf (unindex v document_id) w ne =
        (unindex-Within view hexdigest es indexed v document_id).others w _
          (shelf-ne-shelf hexdigest user_id v ne)

    perform_all-views :
        (xs : List (Write V)) (w : W)
        → All (λ x. digest hexdigest (writer x) ≢ digest hexdigest user_id) xs
        → (view (perform_all xs w) (collection_name_for_user hexdigest user_id)
            ≡ view w (collection_name_for_user hexdigest user_id))
          × (view (perform_all xs w) (index_name_for_user hexdigest user_id)
              ≡ view w (index_name_for_user hexdigest user_id))
    unfolding perform_all
    perform_all-views [] w h = (refl, refl)
    perform_all-views (x ∷ xs) w h =
        let (a, b) = perform_all-views xs (perform x w) h.1 in
        (a ∙ perform-home x w h.0, b ∙ perform-shelf x w h.0)

    -- Whatever other users write and delete in the two stores, in any order and also where it fails,
    -- both searches of a user give what they gave before, if the clients keep to the collection or
    -- the index that they are given, and the 32 digits of the hashed ids differ.
    pub search-perform_all :
        (xs : List (Write V)) (w : W) (query_vector : V) (query : Text) (top_k : ℕ)
        → All (λ x. digest hexdigest (writer x) ≢ digest hexdigest user_id) xs
        → ((dense_search hexdigest qdrant user_id query_vector top_k (perform_all xs w)).0
            ≡ (dense_search hexdigest qdrant user_id query_vector top_k w).0)
          × ((bm25_search hexdigest es user_id query top_k (perform_all xs w)).0
              ≡ (bm25_search hexdigest es user_id query top_k w).0)
    search-perform_all xs w query_vector query top_k h =
        let (a, b) = perform_all-views xs w h in
        (
          (dense_search-Within view hexdigest qdrant divided user_id query_vector top_k).same _ _ a,
          (bm25_search-Within view hexdigest es indexed user_id query top_k).same _ _ b,
        )
