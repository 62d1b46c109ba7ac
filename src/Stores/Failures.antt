-- ===== src/Stores/Failures.antt =====
-- How the functions of app/vector_store and app/search fail.
use multimodal_rag.Prelude.{◌≡◌, refl, true, List, Option}
use multimodal_rag.Prelude.Text.{Text}
use multimodal_rag.Errors.{app, retrieval}
use multimodal_rag.Exec.{Exec, Result, ok, raised, pure, continue, recover, ◌>>=◌}
use multimodal_rag.Json.{Fields}
use multimodal_rag.Stores.{retrieval_error, wrapped}
use multimodal_rag.Stores.Qdrant
use multimodal_rag.Stores.Qdrant.{
  QdrantClient, CollectionConfig, ensure_collection_exists, upsert_points, upsert_chunks,
  same_lengths,
}
use multimodal_rag.Stores.Elastic
use multimodal_rag.Stores.Elastic.{EsClient, ensure_index_exists, index_chunks}

-- a result, or a RetrievalError
abbrev pub Clean : {A : Type 0} → Result A → Type 0
Clean (ok a) = Unit {0}
Clean (raised e) = e ≡ app retrieval

pub record IsClean {W A : Type 0} (m : Exec W A) : Type 0 where
  pub at : (w : W) → Clean (m w).0

module _ {W : Type 0} where
  Clean-recover : {A : Type 0} (r : Result A × W) → Clean (recover r retrieval_error).0
  Clean-recover (ok a, w) = tt
  Clean-recover (raised e, w) = refl

  wrapped-IsClean : {A : Type 0} (m : Exec W A) → IsClean (wrapped m)
  wrapped-IsClean m = record { at = λ w. Clean-recover (m w) }

  pure-IsClean : {A : Type 0} (a : A) → IsClean {W = W} (pure a)
  pure-IsClean a = record { at = λ w. tt }

  module _ {A B : Type 0} (f : A → Exec W B) (rest : (a : A) → IsClean (f a)) where
    Clean-continue : (r : Result A × W) → Clean r.0 → Clean (continue r f).0
    Clean-continue (ok a, w) h = (rest a).at w
    Clean-continue (raised e, w) h = h

    bind-IsClean : (m : Exec W A) → IsClean m → IsClean (m >>= f)
    bind-IsClean m c = record { at = λ w. Clean-continue (m w) (c.at w) }

module _ {W F V : Type 0} (hexdigest : Text → Text) (client : QdrantClient W F V)
    (es : EsClient W F) where
  ensure_collection_exists-IsClean :
      (config : CollectionConfig) (user_id : Text)
      → IsClean (ensure_collection_exists hexdigest client config user_id)
  unfolding ensure_collection_exists
  ensure_collection_exists-IsClean config user_id =
      bind-IsClean _ (λ done. pure-IsClean _) _ (wrapped-IsClean _)

  upsert_points-IsClean :
      (config : CollectionConfig) (user_id document_id : Text) (ids : List Text) (vectors : List V)
      (texts : List Text) (metadata : Option (List Fields))
      → IsClean
          (upsert_points hexdigest client config user_id document_id ids vectors texts metadata)
  unfolding upsert_points
  upsert_points-IsClean config user_id document_id ids vectors texts metadata =
      bind-IsClean _ (λ collection. wrapped-IsClean _) _
        (ensure_collection_exists-IsClean config user_id)

  ensure_index_exists-IsClean :
      (user_id : Text) → IsClean (ensure_index_exists hexdigest es user_id)
  unfolding ensure_index_exists
  ensure_index_exists-IsClean user_id =
      bind-IsClean _ (λ done. pure-IsClean _) _ (wrapped-IsClean _)

  pub upsert_chunks-IsClean :
      (config : CollectionConfig) (user_id document_id : Text) (ids : List Text) (vectors : List V)
      (texts : List Text) (metadata : Option (List Fields))
      → same_lengths ids vectors texts ≡ true
      → IsClean
          (upsert_chunks hexdigest client config user_id document_id ids vectors texts metadata)
  unfolding upsert_chunks
  upsert_chunks-IsClean config user_id document_id ids vectors texts metadata same =
      rw same (upsert_points-IsClean config user_id document_id ids vectors texts metadata)

  pub index_chunks-IsClean :
      (user_id document_id : Text) (ids texts : List Text) (metadata : Option (List Fields))
      → IsClean (index_chunks hexdigest es user_id document_id ids texts metadata)
  unfolding index_chunks
  index_chunks-IsClean user_id document_id ids texts metadata =
      bind-IsClean _ (λ index. wrapped-IsClean _) _ (ensure_index_exists-IsClean user_id)
