-- ===== src/Pipeline/Outcome.antt =====
-- The whole loop: it ends within the retries, and what the response says of it.
use multimodal_rag.Prelude.{
  ℕ, zero, suc, ◌+◌, ◌-◌, ◌≤◌, ◌<◌, ◌≡◌, ◌⊎◌, inl, inr, refl, ap, sym, ◌∙◌, Bool, true, false,
  Option, some, List, arith, le→leb, if◌then◌else◌,
}
use multimodal_rag.Prelude.Text.{Text}
use multimodal_rag.Exec.{ok, bind-ok, ok-pair}
use multimodal_rag.Critic.{Verdict}
use multimodal_rag.Generation.{Turn}
use multimodal_rag.Pipeline.{
  Stages, Settings, Loop, Response, start, sub_query, body, rounds, final_answer, response_of,
  returned, run_query_pipeline,
}
use multimodal_rag.Pipeline.Rounds.{Targets, Retried, Broke, Stepped, body_lem}

module _ {W F : Type 0} (st : Stages W F) (settings : Settings) (query : Text)
    (history : List Turn) where
  -- what holds of the variables whenever the loop tests its condition
  pub record Live (s : Loop F) : Type 0 where
    pub room : s.retry_count ≤ settings.max_critic_retries
    pub counts : s.critic_corrections ≡ s.retry_count
    pub target : Targets query s.current_query

  retarget :
      (a b : Text)
      → Targets query a
      → (b ≡ a) ⊎ ((ts : List Text) × (b ≡ sub_query query ts))
      → Targets query b
  retarget a b (inl e) (inl p) = inl (p ∙ e)
  retarget a b (inr (ts, e)) (inl p) = inr (ts, p ∙ e)
  retarget a b t (inr e) = inr e

  Live-Retried : (s s' : Loop F) → Live s → Retried st settings query history s s' → Live s'
  Live-Retried s s' l r = record {
    room = omega (arith, r.room, r.retries);
    counts = omega (arith, l.counts, r.corrections, r.retries);
    target = retarget s.current_query s'.current_query l.target r.target;
  }

  -- How a loop ends: passed after as many retries as corrections, or failed with the retries used
  -- up and one more counted. The verdict is the critic's on the answer and the chunks.
  pub record Ended (s : Loop F) : Type 0 where
    pub counts :
        ((s.verdict.passed ≡ true)
          × (s.retry_count ≤ settings.max_critic_retries)
          × (s.critic_corrections ≡ s.retry_count))
        ⊎ ((s.verdict.passed ≡ false)
            × (s.retry_count ≡ settings.max_critic_retries + 1)
            × (s.critic_corrections ≡ settings.max_critic_retries))
    pub judged : (w w' : W) × (st.check_groundedness s.answer s.chunks_used w ≡ (ok s.verdict, w'))

  Ended-Broke : (s s' : Loop F) → Live s → Broke st settings query history s s' → Ended s'
  Ended-Broke s s' l b = record { counts = finish b.counts; judged = b.judged }
    where
      finish :
          ((s'.verdict.passed ≡ true) × (s'.retry_count ≡ s.retry_count))
            ⊎ ((s'.verdict.passed ≡ false)
                × (s'.retry_count ≡ s.retry_count + 1)
                × (settings.max_critic_retries < s'.retry_count))
          → ((s'.verdict.passed ≡ true)
              × (s'.retry_count ≤ settings.max_critic_retries)
              × (s'.critic_corrections ≡ s'.retry_count))
            ⊎ ((s'.verdict.passed ≡ false)
                × (s'.retry_count ≡ settings.max_critic_retries + 1)
                × (s'.critic_corrections ≡ settings.max_critic_retries))
      finish (inl (p, e)) = inl (p, omega (arith, l.room), omega (arith, l.counts, b.corrections))
      finish (inr (p, e, f)) =
          inr (p, omega (arith, l.room), omega (arith, l.counts, b.corrections, l.room))

  rounds_lem :
      (fuel : ℕ) (s : Loop F) (o : Option (Loop F)) (w w' : W)
      → Live s
      → settings.max_critic_retries < fuel + s.retry_count
      → rounds st settings query history fuel s w ≡ (ok o, w')
      → (s' : Loop F) × (o ≡ some s') × Ended s'
  unfolding rounds
  rounds_lem zero s o w w' l enough h = absurd (omega (arith, l.room))
  rounds_lem (suc fuel) s o w w' l enough h =
      let (stepped, w₁, r, h₁) =
        bind-ok (body st settings query history s w) _ (rw (le→leb _ _ l.room) at h) in
      go stepped.0 stepped.1 w₁ (body_lem st settings query history s stepped.0 stepped.1 w w₁ r)
        (λ s' live. rounds_lem fuel s' o w₁ w' live) h₁
    where
      go :
          (s' : Loop F) (b : Bool) (w₁ : W)
          → Stepped st settings query history s s' b
          → ((t : Loop F)
              → Live t
              → settings.max_critic_retries < fuel + t.retry_count
              → rounds st settings query history fuel t w₁ ≡ (ok o, w')
              → (u : Loop F) × (o ≡ some u) × Ended u)
          → (if b then (λ t. (ok (some s'), t)) else rounds st settings query history fuel s') w₁
            ≡ (ok o, w')
          → (u : Loop F) × (o ≡ some u) × Ended u
      go s' true w₁ k ih e = (s', sym (ok-pair {S = W} (some s') o w₁ w' e).0, Ended-Broke s s' l k)
      go s' false w₁ k ih e = ih s' (Live-Retried s s' l k) (omega (arith, k.retries, enough)) e

  start-Live : Live (start st settings query history)
  start-Live = record { room = omega arith; counts = refl; target = inl refl }

  -- What a response says of its run.
  pub record IsFaithful (r : Response F) : Type 0 where
    pub counts :
        ((r.critic_passed ≡ true)
          × (r.retry_count ≤ settings.max_critic_retries)
          × (r.critic_corrections ≡ r.retry_count))
        ⊎ ((r.critic_passed ≡ false)
            × (r.retry_count ≡ settings.max_critic_retries + 1)
            × (r.critic_corrections ≡ settings.max_critic_retries))
    -- the critic judged this very answer, before the caveat, against these very sources
    pub judged :
        (base : Text) × (v : Verdict) × (w w' : W) × (st.check_groundedness base r.sources w
          ≡ (ok v, w'))
        × (v.passed ≡ r.critic_passed)
        × (r.answer ≡ final_answer st settings query history r.critic_passed base)

  Ended-IsFaithful :
      (s : Loop F) (ms : ℕ) → Ended s → IsFaithful (response_of st settings query history s ms)
  Ended-IsFaithful s ms e =
      let (w, w', checked) = e.judged in
      record { counts = e.counts; judged = (s.answer, s.verdict, w, w', checked, refl, refl) }

  -- Whenever the pipeline returns, the loop has ended within its retries. The critic has judged the
  -- answer against the sources that are returned: either it passed, with as many retries counted
  -- as corrections and no more than the setting allows, and the answer is the one it judged; or it
  -- failed in the last allowed round, the answer has the caveat, and the count of retries is one
  -- above the setting.
  pub run_query_pipeline_lem :
      (o : Option (Response F)) (w w' : W)
      → run_query_pipeline st settings query history w ≡ (ok o, w')
      → (r : Response F) × (o ≡ some r) × IsFaithful r
  unfolding run_query_pipeline
  run_query_pipeline_lem o w w' h =
      let s₀ = start st settings query history in
      let fuel = settings.max_critic_retries + 2 in
      let (t₀, w₁, r₁, h₁) = bind-ok (st.monotonic_ms w) _ h in
      let (final, w₂, r₂, h₂) = bind-ok (rounds st settings query history fuel s₀ w₁) _ h₁ in
      let (t₁, w₃, r₃, h₃) = bind-ok (st.monotonic_ms w₂) _ h₂ in
      let (s, is_some, ended) = rounds_lem fuel s₀ final w₁ w₂ start-Live (omega arith) r₂ in
      (
        response_of st settings query history s (t₁ - t₀),
        sym (ok-pair (returned st settings query history (t₁ - t₀) final) o w₃ w' h₃).0
            ∙ ap (returned st settings query history (t₁ - t₀)) is_some,
        Ended-IsFaithful s (t₁ - t₀) ended,
      )
