-- ===== src/Pipeline.antt =====
-- app/pipelines/query_pipeline.py: retrieve, rerank, generate, critique, and the bounded retry.
pub mod Rounds
pub mod Outcome
pub mod Total
use multimodal_rag.Prelude.{
  ℕ, zero, suc, ◌+◌, ◌-◌, ◌*◌, min, Bool, true, false, not, Option, none, some, List, [], ◌∷◌, ◌++◌,
  leb, ltb, map, if◌then◌else◌,
}
use multimodal_rag.Prelude.Text.{Text, text, join}
use multimodal_rag.Json.{Json, Items, Fields, null, bool, num, str, arr, obj, nil, cons, end, field}
use multimodal_rag.Errors.{other}
use multimodal_rag.Exec.{Result, ok, raised, Exec, pure, continue, ◌>>=◌}
use multimodal_rag.Retrieval.{Fused}
use multimodal_rag.Reranker.{Ranked}
use multimodal_rag.Generation.{Turn}
use multimodal_rag.Critic.{Verdict}

-- The services that the pipeline calls, each with its settings filled in, and the clock.
pub record Stages (W F : Type 0) : Type 0 where
  pub hybrid_retrieve : Text → ℕ → Exec W (List (Fused F))
  pub rerank : Text → List (Fused F) → ℕ → Exec W (List (Ranked F))
  pub generate_answer : Text → List (Ranked F) → List Turn → Exec W (Text × List (Ranked F))
  pub check_groundedness : Text → List (Ranked F) → Exec W Verdict
  pub monotonic_ms : Exec W ℕ

pub record Settings : Type 0 where
  pub reranker_recall_k : ℕ
  pub reranker_top_k : ℕ
  pub max_critic_retries : ℕ

abbrev pub default_settings : Settings
default_settings = record { reranker_recall_k = 100; reranker_top_k = 10; max_critic_retries = 2 }

-- the local variables of the loop
pub record Loop (F : Type 0) : Type 0 where
  pub retry_count : ℕ
  pub critic_corrections : ℕ
  pub current_query : Text
  pub recall_k : ℕ
  pub answer : Text
  pub chunks_used : List (Ranked F)
  pub verdict : Verdict

pub record Response (F : Type 0) : Type 0 where
  pub answer : Text
  pub sources : List (Ranked F)
  pub critic_passed : Bool
  pub critic_corrections : ℕ
  pub retry_count : ℕ
  pub latency_ms : ℕ

-- What `'; '.join(unsupported)` goes over: none is a `TypeError`.
unfoldable pub claim_list : Items → Option (List Text)
claim_list nil = some []
claim_list (cons (str s) xs) =
    let rest = claim_list xs in elim rest [ none ↦ none | some ts ↦ some (s ∷ ts) ]
claim_list (cons _ xs) = none

unfoldable pub field_names : Fields → List Text
field_names end = []
field_names (field k v fs) = k ∷ field_names fs

-- `unsupported` if it is true as a condition: none if it is not. A value without a length is not
-- returned by `check_groundedness`.
abbrev pub claims : Option Json → Option (Option (List Text))
claims none = none
claims (some null) = none
claims (some (bool false)) = none
claims (some (bool true)) = some none
claims (some (num s)) = some none
claims (some (str [])) = none
claims (some (str (c ∷ s))) = some (some (map (λ d. d ∷ []) (c ∷ s)))
claims (some (arr nil)) = none
claims (some (arr (cons x xs))) = some (claim_list (cons x xs))
claims (some (obj end)) = none
claims (some (obj (field k v fs))) = some (some (field_names (field k v fs)))

-- `f"{query} -- specifically regarding: {'; '.join(unsupported)}"`
unfoldable pub sub_query : Text → List Text → Text
unfolding text join
sub_query query ts = query ++ (text " -- specifically regarding: " ++ join (text "; ") ts)

abbrev pub next_query : Text → Text → Option (Option (List Text)) → Result Text
next_query query current none = ok current
next_query query current (some none) = raised other
next_query query current (some (some ts)) = ok (sub_query query ts)

module _ {W F : Type 0} (st : Stages W F) (settings : Settings) (query : Text)
    (history : List Turn) where
  abbrev pub start : Loop F
  start = record {
    retry_count = 0;
    critic_corrections = 0;
    current_query = query;
    recall_k = settings.reranker_recall_k;
    answer = [];
    chunks_used = [];
    verdict = record { passed = false; unsupported = some (arr nil) };
  }

  -- What the loop does once the verdict is there, by the verdict and by whether the retries are used
  -- up: the new variables, and whether it breaks.
  abbrev pub verdict_step : Bool → Bool → Loop F → Exec W (Loop F × Bool)
  verdict_step true exhausted s = pure (s, true)
  verdict_step false true s = pure (record s { retry_count = s.retry_count + 1 }, true)
  verdict_step false false s = do
    current_query ← (λ w. (next_query query s.current_query (claims s.verdict.unsupported), w))
    pure (
      record s {
        retry_count = s.retry_count + 1;
        critic_corrections = s.critic_corrections + 1;
        recall_k = min (s.recall_k * 2) 500;
        current_query = current_query;
      },
      false,
    )

  unfoldable pub after_verdict : Loop F → Exec W (Loop F × Bool)
  unfolding claim_list field_names sub_query
  after_verdict s =
      verdict_step s.verdict.passed (ltb settings.max_critic_retries (s.retry_count + 1)) s

  -- the stages of one round, up to the verdict
  unfoldable pub run_stages : Loop F → Exec W (Loop F)
  run_stages s = do
    candidates ← st.hybrid_retrieve s.current_query s.recall_k
    reranked ← st.rerank s.current_query candidates settings.reranker_top_k
    generated ← st.generate_answer query reranked history
    verdict ← st.check_groundedness generated.0 generated.1
    pure (record s { answer = generated.0; chunks_used = generated.1; verdict = verdict })

  unfoldable pub body : Loop F → Exec W (Loop F × Bool)
  unfolding after_verdict run_stages
  body s = do judged ← run_stages s; after_verdict judged

  -- The loop, with fuel: none means that the fuel ran out.
  unfoldable pub rounds : ℕ → Loop F → Exec W (Option (Loop F))
  unfolding body
  rounds zero s = pure none
  rounds (suc fuel) s =
      if leb s.retry_count settings.max_critic_retries
      then (do
        stepped ← body s
        let rest = rounds fuel stepped.0
        if stepped.1 then pure (some stepped.0) else rest)
      else pure (some s)

  unfoldable pub caveat : Text
  unfolding text
  caveat =
      text
        "\n\nNote: some claims in this answer could not be fully verified against the source documents. Please double-check before relying on it."

  -- the answer with a visible caveat, if the last verdict is FAIL
  abbrev pub final_answer : Bool → Text → Text
  final_answer true answer = answer
  final_answer false answer = answer ++ caveat

  abbrev pub response_of : Loop F → ℕ → Response F
  response_of s latency = record {
    answer = final_answer s.verdict.passed s.answer;
    sources = s.chunks_used;
    critic_passed = s.verdict.passed;
    critic_corrections = s.critic_corrections;
    retry_count = s.retry_count;
    latency_ms = latency;
  }

  abbrev pub returned : ℕ → Option (Loop F) → Option (Response F)
  returned latency none = none
  returned latency (some s) = some (response_of s latency)

  -- The loop runs at most `MAX_CRITIC_RETRIES + 1` times, so the fuel below is not used up.
  unfoldable pub run_query_pipeline : Exec W (Option (Response F))
  unfolding rounds caveat
  run_query_pipeline = do
    start_time ← st.monotonic_ms
    final ← rounds (settings.max_critic_retries + 2) start
    end_time ← st.monotonic_ms
    pure (returned (end_time - start_time) final)
