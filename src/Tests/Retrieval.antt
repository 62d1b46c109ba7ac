-- ===== src/Tests/Retrieval.antt =====
-- Fusion and reranking of two short lists.
use mathlib.Core.List.{Perm}
use multimodal_rag.Prelude.{ℕ, ◌≡◌, refl, true, false, List, [], ◌∷◌, ◌++◌, map, length, All, leb}
use multimodal_rag.Prelude.Text.{Text, text, text_eq}
use multimodal_rag.Prelude.Dict.{Distinct, put, get, set_default}
use multimodal_rag.Prelude.Sort.{Desc, sort_desc}
use multimodal_rag.Exec.{Result, ok, raised}
use multimodal_rag.Errors.{app, reranker}
use multimodal_rag.Retrieval.{Fused, rrf_fuse}
use multimodal_rag.Retrieval.Scores.{seen}
use multimodal_rag.Retrieval.Fusion.{chunk_of, IsEntry, rrf_fuse_lem}
use multimodal_rag.Reranker
use multimodal_rag.Reranker.{Ranked, Backend, rerank, content, rerank_cohere}
use multimodal_rag.Reranker.Order.{pairs, scores_of, rerank_local_lem}
use multimodal_rag.Tests.Samples.{scaled, scaled-TotalOrder, hit, bm25, dense, fused_of, backend}

rrf_fuse_lem_example :
    (r : List (Fused ℕ)) × (rrf_fuse scaled 60 bm25 dense ≡ ok r)
    × Desc leb (λ x. x.rrf_score) r
    × Perm (map chunk_of r) (seen dense (seen bm25 []))
    × Distinct (seen dense (seen bm25 []))
    × All (IsEntry scaled 60 bm25 dense) r
rrf_fuse_lem_example = rrf_fuse_lem scaled scaled-TotalOrder 60 bm25 dense

abbrev ids : Result (List (Fused ℕ)) → List Text
ids (ok xs) = map chunk_of xs
ids (raised e) = []

-- the chunk that both searches found comes first
fusion_order : ids (rrf_fuse scaled 60 bm25 dense) ≡ (2 ∷ []) ∷ (1 ∷ []) ∷ (3 ∷ []) ∷ []
unfolding rrf_fuse put text_eq get set_default sort_desc
fusion_order = refl

abbrev first : Fused ℕ
first = fused_of (hit (1 ∷ []) (65 ∷ []))

abbrev second : List (Fused ℕ)
second = fused_of (hit (2 ∷ []) (66 ∷ [])) ∷ []

rerank_local_lem_example :
    (r left_out : List (Ranked ℕ)) × (rerank scaled backend 10 [] (first ∷ second) 1 0 ≡ (ok r, 0))
    × Perm (map scores_of (r ++ left_out)) (pairs (first ∷ second) (4 ∷ 9 ∷ []))
    × (length r ≡ 1)
    × Desc leb (λ x. x.rerank_score) r
    × All (λ y. All (λ x. leb y.rerank_score x.rerank_score ≡ true) r) left_out
rerank_local_lem_example =
    rerank_local_lem scaled backend scaled-TotalOrder 10 1 [] first second (4 ∷ 9 ∷ []) 0 0 refl
      refl refl

-- the API without a key
abbrev no_key : Backend ℕ ℕ
no_key = record backend { use_local_reranker = false }

no_key_raises :
    rerank scaled no_key 10 [] (first ∷ []) 1 0
    ≡ (raised (app (reranker (text "Document reranking failed. Please retry."))), 0)
unfolding rerank Reranker.reranker_message
no_key_raises = refl
