-- ===== src/Retrieval.antt =====
-- app/services/retrieval_service.py: the two searches, and their fusion by reciprocal rank.
pub mod Scores
pub mod Fusion
use multimodal_rag.Prelude.{ℕ, zero, suc, ◌+◌, Bool, Option, none, some, List, [], ◌∷◌, take, ◌==◌}
use multimodal_rag.Prelude.{if◌then◌else◌}
use multimodal_rag.Prelude.Text.{Text}
use multimodal_rag.Prelude.Dict.{Dict, get, put, set_default}
use multimodal_rag.Prelude.Sort.{sort_desc}
use multimodal_rag.Errors.{other}
use multimodal_rag.Exec.{Result, ok, raised, Exec, ◌>>=◌}

-- Python's `float`, as far as the scores use it: `0.0`, `+`, `1.0 / n` for an integer `n`, and the
-- order by which `sort` compares.
pub record Float (F : Type 0) : Type 0 where
  pub zero_score : F
  pub add : F → F → F
  pub one_over : ℕ → F
  pub at_most : F → F → Bool

-- The dictionary that both searches return for a chunk.
pub record Hit (F : Type 0) : Type 0 where
  pub chunk_id : Text
  pub content : Text
  pub document_id : Option Text
  pub score : F
  pub filename : Option Text

-- `{**chunk_data[cid], "rrf_score": score}`
pub record Fused (F : Type 0) : Type 0 where
  pub hit : Hit F
  pub rrf_score : F

module _ {F : Type 0} (fl : Float F) where
  abbrev pub score_or_zero : Option F → F
  score_or_zero none = fl.zero_score
  score_or_zero (some s) = s

  -- scores[cid] = scores.get(cid, 0.0) + 1.0 / (k + rank)
  unfoldable pub bump_score : ℕ → ℕ → Text → Dict F → Dict F
  bump_score k rank cid scores =
      put cid (fl.add (score_or_zero (get cid scores)) (fl.one_over (k + rank))) scores

  -- the two loops of `_rrf_fuse`, over `scores` and `chunk_data`, from a rank on
  unfoldable pub fuse_bm25 : ℕ → ℕ → List (Hit F) → Dict F × Dict (Hit F) → Dict F × Dict (Hit F)
  fuse_bm25 k rank [] state = state
  fuse_bm25 k rank (result ∷ results) (scores, chunk_data) =
      fuse_bm25 k (suc rank) results
        (bump_score k rank result.chunk_id scores, put result.chunk_id result chunk_data)

  unfoldable pub fuse_dense : ℕ → ℕ → List (Hit F) → Dict F × Dict (Hit F) → Dict F × Dict (Hit F)
  fuse_dense k rank [] state = state
  fuse_dense k rank (result ∷ results) (scores, chunk_data) =
      fuse_dense k (suc rank) results
        (bump_score k rank result.chunk_id scores, set_default result.chunk_id result chunk_data)

  abbrev pub cons_result : Fused F → Result (List (Fused F)) → Result (List (Fused F))
  cons_result x (ok xs) = ok (x ∷ xs)
  cons_result x (raised e) = raised e

  -- the list comprehension over `scores.items()`; a missing `chunk_data[cid]` is a `KeyError`
  unfoldable pub collect : Dict (Hit F) → Dict F → Result (List (Fused F))
  collect chunk_data [] = ok []
  collect chunk_data ((cid, s) ∷ items) =
      let rest = collect chunk_data items in
      elim (get cid chunk_data) [
        | none ↦ raised other
        | some h ↦ cons_result (record { hit = h; rrf_score = s }) rest
      ]

  abbrev pub sorted_result : Result (List (Fused F)) → Result (List (Fused F))
  sorted_result (ok xs) = ok (sort_desc fl.at_most (λ r. r.rrf_score) xs)
  sorted_result (raised e) = raised e

  unfoldable pub rrf_fuse : ℕ → List (Hit F) → List (Hit F) → Result (List (Fused F))
  unfolding fuse_bm25 fuse_dense collect bump_score
  rrf_fuse k bm25_results dense_results =
      let (scores, chunk_data) =
        fuse_dense k 1 dense_results (fuse_bm25 k 1 bm25_results ([], [])) in
      sorted_result (collect chunk_data scores)

-- What retrieval asks of the stores and of the embedding model. Each call may raise, and acts on
-- the outside world `W`.
pub record Searches (W F V : Type 0) : Type 0 where
  pub embed_query : Text → Exec W V
  pub bm25_search : Text → Text → ℕ → Exec W (List (Hit F))
  pub dense_search : Text → V → ℕ → Exec W (List (Hit F))

module _ {W F V : Type 0} (fl : Float F) (s : Searches W F V) where
  abbrev pub lifted : {A : Type 0} → Result A → Exec W A
  lifted r w = (r, w)

  -- `top_k or settings.RERANKER_RECALL_K`
  abbrev pub or_default : ℕ → ℕ → ℕ
  or_default zero d = d
  or_default (suc n) d = suc n

  -- The two searches do not depend on one another; the model runs BM25 first.
  unfoldable pub hybrid_retrieve : ℕ → ℕ → Text → Text → ℕ → Exec W (List (Fused F))
  unfolding rrf_fuse
  hybrid_retrieve rrf_k recall_k user_id query requested = do
    let top_k = or_default requested recall_k
    query_vector ← s.embed_query query
    bm25_results ← s.bm25_search user_id query top_k
    dense_results ← s.dense_search user_id query_vector top_k
    fused ← lifted (rrf_fuse fl rrf_k bm25_results dense_results)
    λ w. (ok (take top_k fused), w)
