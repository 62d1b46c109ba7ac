-- ===== src/Tests/Query.antt =====
-- Questions to a site whose models always answer, and to one whose search fails.
use multimodal_rag.Prelude.{ℕ, ◌+◌, ◌≡◌, refl, ap, sym, subst, inl, some, List, [], ◌∷◌, ◌++◌, map}
use multimodal_rag.Prelude.Text.{text, text_eq, join, show, starts_with}
use multimodal_rag.Prelude.Sort.{sort_desc, insert_desc}
use multimodal_rag.Errors.{app, retrieval}
use multimodal_rag.Exec.{ok, raised, Returns}
use multimodal_rag.Reranker.{Ranked}
use multimodal_rag.Generation.Format.{format}
use multimodal_rag.Generation.{
  Turn, generate_answer, build_context, counted_lines, counted_excerpts, excerpt, user_template,
  history_line,
}
use multimodal_rag.SessionCache.{tail_slice}
use multimodal_rag.Sessions.{turns_of}
use multimodal_rag.Sessions.Coherence.{said, said_row}
use multimodal_rag.Pipeline.{Response, Stages, default_settings, run_query_pipeline}
use multimodal_rag.Pipeline.Total.{Any, run_query_pipeline-returns}
use multimodal_rag.Query.{Site, Stamps, row_of_query, query_route}
use multimodal_rag.Query.Trail.{new_turns, query_route_lem}
use multimodal_rag.Tests.Samples.{stages, failing}
use multimodal_rag.Tests.Pipeline.{chunk, IsChunk, Anything, prompting}
use multimodal_rag.Tests.Sessions.{
  World, server, server-RedisLaws, server-Up, codec, codec-law, session, cold, got,
}

abbrev stamps : Stamps
stamps = record {
  audit_id = 50 ∷ [];
  audited_at = 60;
  user_turn_id = 51 ∷ [];
  answer_turn_id = 52 ∷ [];
  user_turn_at = 61;
  user_pushed_at = 62;
  answer_turn_at = 63;
  answer_pushed_at = 64;
  sha256 = λ t. t;
}

abbrev site : Site World ℕ
site = record { store = cold; audit = []; world = 0 }

-- the stages of the other tests, with a search that raises
abbrev broken : Stages ℕ ℕ
broken = record {
  hybrid_retrieve = λ q k w. (raised (app retrieval), w);
  rerank = stages.rerank;
  generate_answer = stages.generate_answer;
  check_groundedness = stages.check_groundedness;
  monotonic_ms = stages.monotonic_ms;
}

run_broken :
    run_query_pipeline broken default_settings (text "q") [] 0 ≡ (raised (app retrieval), 0)
unfolding run_query_pipeline
run_broken = refl

-- the prompt of two turns, whenever they were pushed
prompted :
    (t u : Turn)
    → said t ≡ (text "user", 10 ∷ [])
    → said u ≡ (text "user", 20 ∷ [])
    → Returns Any (prompting.generate_answer (text "q") (chunk ∷ []) (t ∷ u ∷ []))
unfolding generate_answer build_context counted_lines counted_excerpts excerpt text join show
    user_template starts_with format history_line
prompted t u a b =
    rw (ap (λ x. x.0) a, ap (λ x. x.1) a, ap (λ x. x.0) b, ap (λ x. x.1) b) (λ w. (_, _, refl, tt))

generates :
    (history : List Turn)
    → map said history ≡ (text "user", 10 ∷ []) ∷ (text "user", 20 ∷ []) ∷ []
    → (c : List (Ranked ℕ)) → IsChunk c
    → Returns Any (prompting.generate_answer (text "q") c history)
generates [] e c shown = cc
generates (t ∷ []) e c shown = cc
generates (t ∷ u ∷ []) e c shown =
    let a : said t ≡ (text "user", 10 ∷ []) = cc in
    let b : said u ≡ (text "user", 20 ∷ []) = cc in
    subst (λ d. Returns Any (prompting.generate_answer (text "q") d (t ∷ u ∷ []))) (sym shown)
      (prompted t u a b)
generates (t ∷ u ∷ v ∷ ts) e c shown = cc

pipeline_answers :
    (history : List Turn)
    → map said history ≡ map said_row (tail_slice 6 (turns_of (7 ∷ []) cold.turns))
    → (r : Response ℕ) × (w : ℕ) × (run_query_pipeline prompting default_settings
          (text "q")
          history
          0
        ≡ (ok (some r), w))
unfolding turns_of sort_desc insert_desc text_eq
pipeline_answers history same =
    let (r, w, e, faithful) =
      run_query_pipeline-returns prompting default_settings (text "q") history Anything IsChunk
        (record {
          retrieves = λ q k w. (_, _, refl, tt);
          reranks = λ q c k found w. (chunk ∷ [], w + 1, refl, refl);
          generates = generates history same;
          judges = λ a c w. (failing, w + 1, refl, λ e. cc);
          ticks = λ w. (w, w, refl, tt);
        })
        0 in
    (r, w, e)

query_route_lem_example :
    (history : List Turn) × (r : Response ℕ) × (w : ℕ) × (t : Site World ℕ) × (map said history
      ≡ map said_row (tail_slice 6 (turns_of (7 ∷ []) cold.turns)))
    × (run_query_pipeline prompting default_settings (text "q") history 0 ≡ (ok (some r), w))
    × (query_route server codec 6 3600 prompting default_settings stamps
          (1 ∷ [])
          (some (7 ∷ []))
          (text "q")
          site
        ≡ (ok r, t))
    × (t.audit ≡ row_of_query stamps (1 ∷ []) (some (7 ∷ [])) (text "q") r ∷ [])
    × (t.store.turns
        ≡ cold.turns
          ++ new_turns server codec 6 3600 prompting default_settings stamps
              (1 ∷ [])
              (text "q")
              (7 ∷ [])
              r)
query_route_lem_example =
    query_route_lem server codec 6 3600 prompting default_settings stamps (1 ∷ []) (text "q")
      server-RedisLaws server-Up codec-law (7 ∷ []) session site (got cold refl) refl (inl refl)
      pipeline_answers
