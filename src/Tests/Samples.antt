-- ===== src/Tests/Samples.antt =====
-- Scores as scaled integers, a few chunks, and services that always answer.
use multimodal_rag.Prelude.{
  ℕ, ◌+◌, ◌/◌, ◌≡◌, ◌⊎◌, true, false, none, some, List, [], ◌∷◌, leb, arith,
}
use multimodal_rag.Prelude.Text.{Text, text}
use multimodal_rag.Prelude.Sort.{TotalOrder}
use multimodal_rag.Exec.{ok}
use multimodal_rag.Retrieval.{Float, Hit, Fused, Searches}
use multimodal_rag.Reranker.{Ranked, Backend}
use multimodal_rag.Generation.{Turn, Llm}
use multimodal_rag.Critic.{Verdict}
use multimodal_rag.Pipeline.{Stages}

abbrev pub scaled : Float ℕ
scaled = record { zero_score = 0; add = λ a b. a + b; one_over = λ n. 1000000 / n; at_most = leb }

leb_total : (a b : ℕ) → (leb a b ≡ true) ⊎ (leb b a ≡ true)
leb_total a b = ground arith

leb_trans : (a b c : ℕ) → leb a b ≡ true → leb b c ≡ true → leb a c ≡ true
leb_trans a b c p q = ground arith

pub scaled-TotalOrder : TotalOrder leb
scaled-TotalOrder = record { total = leb_total; trans = leb_trans }

abbrev pub hit : Text → Text → Hit ℕ
hit cid content = record {
  chunk_id = cid;
  content = content;
  document_id = some (text "d");
  score = 1;
  filename = some (text "f.pdf");
}

abbrev pub bm25 : List (Hit ℕ)
bm25 = hit (1 ∷ []) (65 ∷ []) ∷ hit (2 ∷ []) (66 ∷ []) ∷ []

abbrev pub dense : List (Hit ℕ)
dense = hit (2 ∷ []) (67 ∷ []) ∷ hit (3 ∷ []) (68 ∷ []) ∷ []

abbrev pub searches : Searches ℕ ℕ ℕ
searches = record {
  embed_query = λ q w. (ok 7, w);
  bm25_search = λ u q k w. (ok bm25, w + 1);
  dense_search = λ u v k w. (ok dense, w + 1);
}

abbrev pub fused_of : Hit ℕ → Fused ℕ
fused_of h = record { hit = h; rrf_score = 3 }

abbrev pub ranked_of : Hit ℕ → Ranked ℕ
ranked_of h = record { fused = fused_of h; rerank_score = 5 }

abbrev pub turn : Text → Turn
turn content = record { role = text "user"; content = content; timestamp = 0 }

abbrev pub backend : Backend ℕ ℕ
backend = record {
  use_local_reranker = true;
  cohere_api_key = none;
  predict = λ pairs w. (ok (4 ∷ 9 ∷ []), w);
  api_rerank = λ q ds n w. (ok [], w);
}

abbrev pub llm : Llm ℕ
llm system message w = (ok (text "an answer"), w + 1)

abbrev pub failing : Verdict
failing = record { passed = false; unsupported = none }

-- services that answer every call, with a critic that is never satisfied
abbrev pub stages : Stages ℕ ℕ
stages = record {
  hybrid_retrieve = λ q k w. (ok (fused_of (hit (1 ∷ []) (65 ∷ [])) ∷ []), w + 1);
  rerank = λ q c k w. (ok (ranked_of (hit (1 ∷ []) (65 ∷ [])) ∷ []), w + 1);
  generate_answer = λ q c h w. (ok (text "an answer", c), w + 1);
  check_groundedness = λ a c w. (ok failing, w + 1);
  monotonic_ms = λ w. (ok w, w);
}
