-- ===== src/Pipeline/Total.antt =====
-- The pipeline returns a response wherever the services that it calls return.
use multimodal_rag.Prelude.{
  ℕ, zero, suc, ◌+◌, ◌≡◌, ◌≢◌, refl, ap, ◌∙◌, Bool, true, false, Option, none, some, List, ltb, leb,
  if◌then◌else◌, Bool-cases, inl, inr,
}
use multimodal_rag.Prelude.Text.{Text}
use multimodal_rag.Exec.{ok, Returns, Returns-bind, Returns-pure, pure}
use multimodal_rag.Retrieval.{Fused}
use multimodal_rag.Reranker.{Ranked}
use multimodal_rag.Generation.{Turn}
use multimodal_rag.Critic.{Verdict}
use multimodal_rag.Pipeline.{
  Stages, Settings, Loop, Response, start, claims, next_query, verdict_step, run_stages, body,
  rounds, run_query_pipeline,
}
use multimodal_rag.Pipeline.Outcome.{IsFaithful, run_query_pipeline_lem}

abbrev pub Any : {A : Type 0} → A → Type 0
Any a = Unit

-- the claims of a verdict are texts, where there are any
abbrev pub HasTexts : Verdict → Type 0
HasTexts v = claims v.unsupported ≢ some none

-- The services return on what they are given: `Found` is what is known of the results of the search,
-- and `Shown` of those of the reranker, with which the answer is generated.
pub record Healthy {W F : Type 0} (st : Stages W F) (query : Text) (history : List Turn)
    (Found : List (Fused F) → Type 0) (Shown : List (Ranked F) → Type 0) : Type 0 where
  pub retrieves : (q : Text) (k : ℕ) → Returns Found (st.hybrid_retrieve q k)
  pub reranks : (q : Text) (c : List (Fused F)) (k : ℕ) → Found c → Returns Shown (st.rerank q c k)
  pub generates : (c : List (Ranked F)) → Shown c → Returns Any (st.generate_answer query c history)
  pub judges : (a : Text) (c : List (Ranked F)) → Returns HasTexts (st.check_groundedness a c)
  pub ticks : Returns Any st.monotonic_ms

module _ {W F : Type 0} (st : Stages W F) (settings : Settings) (query : Text) (history : List Turn)
    (Found : List (Fused F) → Type 0) (Shown : List (Ranked F) → Type 0)
    (healthy : Healthy st query history Found Shown) where
  stages-Returns :
      (s : Loop F) → Returns (λ j. HasTexts j.verdict) (run_stages st settings query history s)
  unfolding run_stages
  stages-Returns s =
      Returns-bind Found _ _ _ (healthy.retrieves s.current_query s.recall_k) λ candidates found.
        Returns-bind Shown _ _ _
          (healthy.reranks s.current_query candidates settings.reranker_top_k found)
          λ reranked shown. Returns-bind Any _ _ _ (healthy.generates reranked shown) λ generated _.
            Returns-bind HasTexts _ _ _ (healthy.judges generated.0 generated.1)
              λ verdict texts. Returns-pure _ _ texts

  next-Returns :
      (current : Text) (ts : Option (Option (List Text)))
      → ts ≢ some none
      → Returns {S = W} Any (λ w. (next_query query current ts, w))
  next-Returns current none h w = (current, w, refl, tt)
  next-Returns current (some none) h w = absurd (h refl)
  next-Returns current (some (some ts)) h w = (_, w, refl, tt)

  step-Returns :
      (p l : Bool) (j : Loop F)
      → HasTexts j.verdict
      → Returns Any (verdict_step st settings query history p l j)
  step-Returns true l j h = Returns-pure Any _ tt
  step-Returns false true j h = Returns-pure Any _ tt
  step-Returns false false j h =
      Returns-bind Any Any _ _ (next-Returns j.current_query (claims j.verdict.unsupported) h)
        λ c _. Returns-pure Any _ tt

  body-Returns : (s : Loop F) → Returns Any (body st settings query history s)
  unfolding body
  body-Returns s =
      Returns-bind (λ j. HasTexts j.verdict) Any _ _ (stages-Returns s)
        (λ j texts.
          step-Returns j.verdict.passed (ltb settings.max_critic_retries (j.retry_count + 1)) j
            texts)

  rounds-Returns : (fuel : ℕ) (s : Loop F) → Returns Any (rounds st settings query history fuel s)
  unfolding rounds
  rounds-Returns zero s w = (none, w, refl, tt)
  rounds-Returns (suc fuel) s w =
      elim (Bool-cases (leb s.retry_count settings.max_critic_retries)) [
        | inl more ↦ rw more (
            Returns-bind Any Any (body st settings query history s) _ (body-Returns s)
              (λ x _. next x.0 x.1 (rounds-Returns fuel x.0)) w)
        | inr done ↦ rw done (some s, w, refl, tt)
      ]
    where
      next :
          (s' : Loop F) (b : Bool)
          → Returns Any (rounds st settings query history fuel s')
          → Returns Any (if b then pure (some s') else rounds st settings query history fuel s')
      next s' true ih = Returns-pure Any (some s') tt
      next s' false ih = ih

  pipeline-Returns : Returns Any (run_query_pipeline st settings query history)
  unfolding run_query_pipeline
  pipeline-Returns = Returns-bind Any Any _ _ healthy.ticks λ t₀ _.
      Returns-bind Any Any _ _
        (rounds-Returns (settings.max_critic_retries + 2) (start st settings query history))
        λ final _. Returns-bind Any Any _ _ healthy.ticks λ t₁ _. Returns-pure Any _ tt

  -- If the search and the reranker return with chunks of which some property is known, the model
  -- answers the question of the run with each such list of chunks and with the history of the run,
  -- the critic returns a verdict whose claims are texts, and the clock can be read, then the pipeline
  -- returns a response, and that response is faithful to its run.
  pub run_query_pipeline-returns :
      (w : W)
      → (r : Response F) × (w' : W) × (run_query_pipeline st settings query history w
          ≡ (ok (some r), w'))
        × IsFaithful st settings query history r
  run_query_pipeline-returns w =
      let (o, w', e, _) = pipeline-Returns w in
      let (r, is_some, faithful) = run_query_pipeline_lem st settings query history o w w' e in
      (r, w', e ∙ ap (λ x. (ok x, w')) is_some, faithful)
