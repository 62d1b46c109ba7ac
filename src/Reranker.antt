-- ===== src/Reranker.antt =====
-- app/services/reranker_service.py: the candidates in the order of a cross-encoder.
pub mod Order
use mathlib.Core.List.{zip}
use multimodal_rag.Prelude.{
  ℕ, zero, suc, Bool, true, false, Option, none, some, List, [], ◌∷◌, map, take, length, min,
  if◌then◌else◌,
}
use multimodal_rag.Prelude.Text.{Text, text}
use multimodal_rag.Prelude.Sort.{sort_desc}
use multimodal_rag.Errors.{Exception, app, http, value_error, other, AppError, reranker}
use multimodal_rag.Exec.{Result, ok, raised, Exec, pure, throw, fail, catch, continue, ◌>>=◌}
use multimodal_rag.Retrieval.{Float, Hit, Fused}

-- `{**candidate, "rerank_score": score}`
pub record Ranked (F : Type 0) : Type 0 where
  pub fused : Fused F
  pub rerank_score : F

unfoldable pub content : {F : Type 0} → Fused F → Text
content c = c.hit.content

-- A settings record, and the two backends: the local model's `predict` over pairs of texts, and
-- the API's `rerank`, which returns pairs of an index and a score.
pub record Backend (W F : Type 0) : Type 0 where
  pub use_local_reranker : Bool
  pub cohere_api_key : Option Text
  pub predict : List (Text × Text) → Exec W (List F)
  pub api_rerank : Text → List Text → ℕ → Exec W (List (ℕ × F))

-- `RerankerError()`
unfoldable pub reranker_message : Text
unfolding text
reranker_message = text "Document reranking failed. Please retry."

abbrev pub reranker_error : AppError
reranker_error = reranker reranker_message

abbrev pub or_default : ℕ → ℕ → ℕ
or_default zero d = d
or_default (suc n) d = suc n

-- `if not settings.COHERE_API_KEY`
abbrev pub has_key : Option Text → Bool
has_key none = false
has_key (some []) = false
has_key (some (c ∷ s)) = true

module _ {A : Type 0} where
  -- `candidates[i]`, for an index that the API returned
  abbrev pub get_elem? : List A → ℕ → Option A
  get_elem? [] i = none
  get_elem? (x ∷ xs) zero = some x
  get_elem? (x ∷ xs) (suc i) = get_elem? xs i

module _ {W F : Type 0} (fl : Float F) (b : Backend W F) where
  -- the loop over `response.results`; an index out of range is an `IndexError`
  unfoldable pub pick : List (Fused F) → List (ℕ × F) → Exec W (List (Ranked F))
  pick candidates [] = pure []
  pick candidates ((i, s) ∷ results) =
      let rest = pick candidates results in
      elim (get_elem? candidates i) [
        | none ↦ throw other
        | some c ↦ (do reranked ← rest; pure (record { fused = c; rerank_score = s } ∷ reranked))
      ]

  unfoldable pub rerank_cohere : Text → List (Fused F) → ℕ → Exec W (List (Ranked F))
  unfolding pick content
  rerank_cohere query candidates top_k =
      if has_key b.cohere_api_key
      then (do
        results ← b.api_rerank query (map content candidates) (min top_k (length candidates))
        pick candidates results)
      else fail reranker_error

  unfoldable pub scored : List (Fused F) → List F → List (Ranked F)
  scored [] scores = []
  scored (c ∷ cs) [] = []
  scored (c ∷ cs) (s ∷ scores) = record { fused = c; rerank_score = s } ∷ scored cs scores

  unfoldable pub rerank_local : Text → List (Fused F) → ℕ → Exec W (List (Ranked F))
  unfolding scored content
  rerank_local query candidates top_k = do
    scores ← b.predict (map (λ c. (query, content c)) candidates)
    pure (take top_k (sort_desc fl.at_most (λ r. r.rerank_score) (scored candidates scores)))

  -- `except RerankerError: raise` / `except Exception: raise RerankerError()`
  abbrev pub as_reranker_error : Exception → Exec W (List (Ranked F))
  as_reranker_error (app (reranker m)) = fail (reranker m)
  as_reranker_error _ = fail reranker_error

  unfoldable pub rerank : ℕ → Text → List (Fused F) → ℕ → Exec W (List (Ranked F))
  unfolding rerank_cohere rerank_local
  rerank default_k query [] requested = pure []
  rerank default_k query (c ∷ cs) requested =
      catch
        (if b.use_local_reranker
          then rerank_local query (c ∷ cs) (or_default requested default_k)
          else rerank_cohere query (c ∷ cs) (or_default requested default_k))
        as_reranker_error
