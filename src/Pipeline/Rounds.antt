-- ===== src/Pipeline/Rounds.antt =====
-- One round of the loop: what it changes, and how often it can be made.
use mathlib.Core.Path.{subst, subst₂}
use multimodal_rag.Prelude.{
  ◌+◌, ◌*◌, ◌≤◌, ◌<◌, min, ◌≡◌, ◌⊎◌, inl, inr, refl, ap, ◌∙◌, Bool, true, false, Option, none, some,
  List, arith, ltb, ltb→lt,
}
use multimodal_rag.Prelude.Text.{Text}
use multimodal_rag.Exec.{ok, bind-ok, ok-pair}
use multimodal_rag.Generation.{Turn}
use multimodal_rag.Pipeline.{
  Stages, Settings, Loop, claims, sub_query, next_query, verdict_step, run_stages, body,
}

-- the query of a round is the user's query, or goes on from it with the claims to look for
abbrev pub Targets : Text → Text → Type 0
Targets query current = (current ≡ query) ⊎ ((ts : List Text) × (current ≡ sub_query query ts))

module _ {W F : Type 0} (st : Stages W F) (settings : Settings) (query : Text)
    (history : List Turn) where
  -- what a round that goes on does to the variables
  pub record Retried (s s' : Loop F) : Type 0 where
    pub room : s.retry_count + 1 ≤ settings.max_critic_retries
    pub retries : s'.retry_count ≡ s.retry_count + 1
    pub corrections : s'.critic_corrections ≡ s.critic_corrections + 1
    pub recall : s'.recall_k ≡ min (s.recall_k * 2) 500
    pub target :
        (s'.current_query ≡ s.current_query)
        ⊎ ((ts : List Text) × (s'.current_query ≡ sub_query query ts))

  -- what a round that breaks has found
  pub record Broke (s s' : Loop F) : Type 0 where
    pub counts :
        ((s'.verdict.passed ≡ true) × (s'.retry_count ≡ s.retry_count))
        ⊎ ((s'.verdict.passed ≡ false)
            × (s'.retry_count ≡ s.retry_count + 1)
            × (settings.max_critic_retries < s'.retry_count))
    pub corrections : s'.critic_corrections ≡ s.critic_corrections
    -- the verdict is the critic's, on the answer and the chunks that are kept
    pub judged :
        (w w' : W) × (st.check_groundedness s'.answer s'.chunks_used w ≡ (ok s'.verdict, w'))

  abbrev pub Stepped : Loop F → Loop F → Bool → Type 0
  Stepped s s' false = Retried s s'
  Stepped s s' true = Broke s s'

  abbrev Judged : Loop F → Loop F → W → Type 0
  Judged s j w' =
      (a : W) × (st.check_groundedness j.answer j.chunks_used a ≡ (ok j.verdict, w'))
      × (j.retry_count ≡ s.retry_count)
      × (j.critic_corrections ≡ s.critic_corrections)
      × (j.recall_k ≡ s.recall_k)
      × (j.current_query ≡ s.current_query)

  -- The stages keep the counters, and end with the critic's verdict on their answer.
  run_stages_lem :
      (s j : Loop F) (w w' : W)
      → run_stages st settings query history s w ≡ (ok j, w')
      → Judged s j w'
  unfolding run_stages
  run_stages_lem s j w w' h =
      let (candidates, w₁, r₁, h₁) =
        bind-ok (st.hybrid_retrieve s.current_query s.recall_k w) _ h in
      let (reranked, w₂, r₂, h₂) =
        bind-ok (st.rerank s.current_query candidates settings.reranker_top_k w₁) _ h₁ in
      let (generated, w₃, r₃, h₃) = bind-ok (st.generate_answer query reranked history w₂) _ h₂ in
      let (verdict, w₄, r₄, h₄) = bind-ok (st.check_groundedness generated.0 generated.1 w₃) _ h₃ in
      let j₀ : Loop F = record s {
        answer = generated.0;
        chunks_used = generated.1;
        verdict = verdict;
      } in
      let (same, at_end) = ok-pair j₀ j w₄ w' h₄ in
      subst₂ (Judged s) same at_end (w₃, r₄, refl, refl, refl, refl)

  next_query-Targets :
      (current c : Text) (ts : Option (Option (List Text)))
      → next_query query current ts ≡ ok c
      → (c ≡ current) ⊎ ((names : List Text) × (c ≡ sub_query query names))
  next_query-Targets current c none h = inl (ground arith)
  next_query-Targets current c (some none) h = cc
  next_query-Targets current c (some (some ts)) h = inr (ts, ground arith)

  -- the verdict's step, by the values of its two tests
  verdict_step_lem :
      (passed exhausted : Bool) (s j s' : Loop F) (b : Bool) (w w' : W)
      → j.verdict.passed ≡ passed
      → ltb settings.max_critic_retries (j.retry_count + 1) ≡ exhausted
      → Judged s j w
      → verdict_step st settings query history passed exhausted j w ≡ (ok (s', b), w')
      → Stepped s s' b
  verdict_step_lem true exhausted s j s' b w w' p l
        (a, checked, retries, corrections, recall, current) h =
      subst (λ y. Stepped s y.0 y.1) (ok-pair {S = W} (j, true) (s', b) w w' h).0
        (record { counts = inl (p, retries); corrections = corrections; judged = (a, w, checked) })
  verdict_step_lem false true s j s' b w w' p l (a, checked, retries, corrections, recall, current)
        h =
      let s₁ : Loop F = record j { retry_count = j.retry_count + 1 } in
      subst (λ y. Stepped s y.0 y.1) (ok-pair {S = W} (s₁, true) (s', b) w w' h).0
        (record {
          counts = inr (p, ap (λ n. n + 1) retries, ltb→lt _ _ l);
          corrections = corrections;
          judged = (a, w, checked);
        })
  verdict_step_lem false false s j s' b w w' p l (a, checked, retries, corrections, recall, current)
        h =
      let next = next_query query j.current_query (claims j.verdict.unsupported) in
      let (c, w₁, r, h₁) = bind-ok {S = W} (next, w) _ h in
      let s₁ : Loop F = record j {
        retry_count = j.retry_count + 1;
        critic_corrections = j.critic_corrections + 1;
        recall_k = min (j.recall_k * 2) 500;
        current_query = c;
      } in
      subst (λ y. Stepped s y.0 y.1) (ok-pair {S = W} (s₁, false) (s', b) w₁ w' h₁).0
        (record {
          room = room_of retries l;
          retries = ap (λ n. n + 1) retries;
          corrections = ap (λ n. n + 1) corrections;
          recall = ap (λ k. min (k * 2) 500) recall;
          target = retarget c (next_query-Targets j.current_query c _ (ap (λ x. x.0) r));
        })
    where
      room_of :
          j.retry_count ≡ s.retry_count
          → ltb settings.max_critic_retries (j.retry_count + 1) ≡ false
          → s.retry_count + 1 ≤ settings.max_critic_retries
      room_of e t = ground arith

      retarget :
          (c : Text)
          → (c ≡ j.current_query) ⊎ ((ts : List Text) × (c ≡ sub_query query ts))
          → (c ≡ s.current_query) ⊎ ((ts : List Text) × (c ≡ sub_query query ts))
      retarget c (inl e) = inl (e ∙ current)
      retarget c (inr e) = inr e

  -- A round goes on only while there is room for a retry, with one more retry and correction, twice
  -- the recall up to 500, and a query for the claims that were not supported; a round that breaks
  -- has the critic's verdict on its answer, and has passed or has used up the retries.
  pub body_lem :
      (s s' : Loop F) (b : Bool) (w w' : W)
      → body st settings query history s w ≡ (ok (s', b), w')
      → Stepped s s' b
  unfolding body
  body_lem s s' b w w' h =
      let (j, w₁, r, h₁) = bind-ok (run_stages st settings query history s w) _ h in
      verdict_step_lem j.verdict.passed (ltb settings.max_critic_retries (j.retry_count + 1)) s j s'
        b w₁ w' refl refl (run_stages_lem s j w w₁ r) h₁
