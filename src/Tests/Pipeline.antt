-- ===== src/Tests/Pipeline.antt =====
-- The pipeline over services that always answer.
use multimodal_rag.Prelude.{ℕ, ◌+◌, ◌≡◌, refl, sym, subst, false, some, List, [], ◌∷◌, ◌++◌, length}
use multimodal_rag.Prelude.Text.{Text, text, join, show, starts_with}
use multimodal_rag.Errors.{other}
use multimodal_rag.Exec.{Result, ok, raised, Returns}
use multimodal_rag.Retrieval.{Fused}
use multimodal_rag.Reranker.{Ranked}
use multimodal_rag.Generation.Format.{format}
use multimodal_rag.Generation.{
  generate_answer, build_context, counted_lines, counted_excerpts, excerpt, user_template,
}
use multimodal_rag.Pipeline.{Response, Stages, default_settings, run_query_pipeline, caveat}
use multimodal_rag.Pipeline.Outcome.{IsFaithful, run_query_pipeline_lem}
use multimodal_rag.Pipeline.Total.{Any, Healthy, run_query_pipeline-returns}
use multimodal_rag.Tests.Samples.{hit, ranked_of, failing, llm, stages}

-- three rounds of four calls
abbrev pub exhausted : Response ℕ
exhausted = record {
  answer = text "an answer" ++ caveat stages default_settings (text "q") [];
  sources = ranked_of (hit (1 ∷ []) (65 ∷ [])) ∷ [];
  critic_passed = false;
  critic_corrections = 2;
  retry_count = 3;
  latency_ms = 12;
}

pub run_exhausted :
    run_query_pipeline stages default_settings (text "q") [] 0 ≡ (ok (some exhausted), 12)
unfolding run_query_pipeline
run_exhausted = refl

run_query_pipeline_lem_example :
    (r : Response ℕ) × (some exhausted ≡ some r)
    × IsFaithful stages default_settings (text "q") [] r
run_query_pipeline_lem_example =
    run_query_pipeline_lem stages default_settings (text "q") [] (some exhausted) 0 12 run_exhausted

abbrev pub chunk : Ranked ℕ
chunk = ranked_of (hit (1 ∷ []) (65 ∷ []))

abbrev pub IsChunk : List (Ranked ℕ) → Type 0
IsChunk c = c ≡ chunk ∷ []

abbrev pub Anything : List (Fused ℕ) → Type 0
Anything c = Unit

abbrev pub no_field : Text → Text → Result Text
no_field s q = raised other

-- the services of the other tests, with the program's own prompt
abbrev pub prompting : Stages ℕ ℕ
prompting = record {
  hybrid_retrieve = stages.hybrid_retrieve;
  rerank = stages.rerank;
  generate_answer =
      generate_answer length (λ t. false) llm no_field (record { history = 800; chunks = 2000 });
  check_groundedness = stages.check_groundedness;
  monotonic_ms = stages.monotonic_ms;
}

generates :
    (c : List (Ranked ℕ)) → IsChunk c → Returns Any (prompting.generate_answer (text "q") c [])
unfolding generate_answer build_context counted_lines counted_excerpts excerpt text join show
    user_template starts_with format
generates c e =
    subst (λ d. Returns Any (prompting.generate_answer (text "q") d [])) (sym e)
      (λ w. (_, _, refl, tt))

prompting-Healthy : Healthy prompting (text "q") [] Anything IsChunk
prompting-Healthy = record {
  retrieves = λ q k w. (_, _, refl, tt);
  reranks = λ q c k found w. (chunk ∷ [], w + 1, refl, refl);
  generates = generates;
  judges = λ a c w. (failing, w + 1, refl, λ e. cc);
  ticks = λ w. (w, w, refl, tt);
}

run_query_pipeline-returns_example :
    (r : Response ℕ) × (w' : ℕ) × (run_query_pipeline prompting default_settings (text "q") [] 0
      ≡ (ok (some r), w'))
    × IsFaithful prompting default_settings (text "q") [] r
run_query_pipeline-returns_example =
    run_query_pipeline-returns prompting default_settings (text "q") [] Anything IsChunk
      prompting-Healthy 0
