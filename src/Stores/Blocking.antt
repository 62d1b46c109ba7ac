-- ===== src/Stores/Blocking.antt =====
-- What `await` makes of the client that get_sync_qdrant_client of app/vector_store/qdrant_client.py
-- returns, up to the pipeline.
use multimodal_rag.Prelude.{ℕ, suc, leb, le→leb, arith, ◌+◌, ◌≡◌, refl, true, List, map}
use multimodal_rag.Prelude.Text.{Text}
use multimodal_rag.Errors.{Exception, retrieval, app}
use multimodal_rag.Exec.{Exec, Result, ok, raised, pure, continue, recover, Returns, ◌>>=◌}
use multimodal_rag.Errors.Handlers.{respond, unexpected}
use multimodal_rag.Generation.{Turn}
use multimodal_rag.Retrieval
use multimodal_rag.Retrieval.{Float, Hit, Searches, or_default}
use multimodal_rag.Pipeline.{
  Settings, Stages, Loop, start, run_query_pipeline, rounds, body, run_stages,
}
use multimodal_rag.Stores.{Called, value, awaitable, await, retrieval_error}
use multimodal_rag.Stores.Qdrant.{QdrantClient, Found, dense_search}

-- a call that comes back with a value, or raises
abbrev pub Plain : {W A : Type 0} → Result (Called W A) × W → Type 0
Plain (ok (value a), w) = Unit {0}
Plain (ok (awaitable m), w) = ⊥
Plain (raised e, w) = Unit {0}

-- `QdrantClient` is the synchronous client: none of its methods gives a coroutine back.
pub record IsSynchronous {W F V : Type 0} (client : QdrantClient W F V) : Type 0 where
  pub exists : (c : Text) (w : W) → Plain (client.collection_exists c w)

await-Plain :
    {W A B : Type 0} (r : Result (Called W A) × W) (f : A → Exec W B)
    → Plain r
    → (recover (continue (continue r await) f) retrieval_error).0 ≡ raised (app retrieval)
await-Plain (ok (value a), w) f p = refl
await-Plain (ok (awaitable m), w) f p = elim p [ ]
await-Plain (raised e, w) f p = refl

continue-raised :
    {W A B : Type 0} (r : Result A × W) (f : A → Exec W B) (e : Exception)
    → r.0 ≡ raised e
    → (continue r f).0 ≡ raised e
continue-raised (ok a, w) f e h = cc
continue-raised (raised x, w) f e h = cc

module _ {W F V : Type 0} (hexdigest : Text → Text) (client : QdrantClient W F V) where
  dense_search-raises :
      (sync : IsSynchronous client) (user_id : Text) (query_vector : V) (top_k : ℕ) (w : W)
      → (dense_search hexdigest client user_id query_vector top_k w).0 ≡ raised (app retrieval)
  unfolding dense_search
  dense_search-raises sync user_id query_vector top_k w =
      continue-raised _ _ _ (await-Plain _ _ (sync.exists _ w))

  -- the searches of retrieval, with the dense search of the store
  abbrev pub searches_of :
      (Text → Exec W V)
      → (Text → Text → ℕ → Exec W (List (Hit F)))
      → (Found F → Hit F)
      → Searches W F V
  searches_of embed_query bm25_search as_hit = record {
    embed_query = embed_query;
    bm25_search = bm25_search;
    dense_search = λ user_id query_vector top_k. do
      found ← dense_search hexdigest client user_id query_vector top_k
      pure (map as_hit found);
  }

module _ {W F V : Type 0} (fl : Float F) (s : Searches W F V) where
  hybrid_retrieve-raises :
      (rrf_k recall_k : ℕ) (user_id query : Text) (requested : ℕ) (e : Exception)
      → Returns (λ v. Unit {0}) (s.embed_query query)
      → ((k : ℕ) → Returns (λ hits. Unit {0}) (s.bm25_search user_id query k))
      → ((v : V) (k : ℕ) (w : W) → (s.dense_search user_id v k w).0 ≡ raised e)
      → (w : W)
      → (Retrieval.hybrid_retrieve fl s rrf_k recall_k user_id query requested w).0 ≡ raised e
  unfolding Retrieval.hybrid_retrieve
  hybrid_retrieve-raises rrf_k recall_k user_id query requested e embeds finds raises w =
      let (v, t, embedded, h) = embeds w in
      let (hits, u, answered, h') = finds (or_default fl s requested recall_k) t in
      rw (embedded, answered)
        (continue-raised _ _ e (raises v (or_default fl s requested recall_k) u))

module _ {W F : Type 0} (st : Stages W F) (settings : Settings) (query : Text)
    (history : List Turn) where
  module _ (e : Exception)
      (raises : (q : Text) (k : ℕ) (w : W) → (st.hybrid_retrieve q k w).0 ≡ raised e) where
    run_stages-raises :
        (s : Loop F) (w : W) → (run_stages st settings query history s w).0 ≡ raised e
    unfolding run_stages
    run_stages-raises s w =
        continue-raised (st.hybrid_retrieve s.current_query s.recall_k w) _ e
          (raises s.current_query s.recall_k w)

    body-raises : (s : Loop F) (w : W) → (body st settings query history s w).0 ≡ raised e
    unfolding body
    body-raises s w =
        continue-raised (run_stages st settings query history s w) _ e (run_stages-raises s w)

    rounds-raises :
        (fuel : ℕ) (s : Loop F) (w : W)
        → leb s.retry_count settings.max_critic_retries ≡ true
        → (rounds st settings query history (suc fuel) s w).0 ≡ raised e
    unfolding rounds
    rounds-raises fuel s w within =
        rw within (continue-raised (body st settings query history s w) _ e (body-raises s w))

    run_query_pipeline-raises :
        Returns (λ t. Unit {0}) st.monotonic_ms
        → (w : W) → (run_query_pipeline st settings query history w).0 ≡ raised e
    unfolding run_query_pipeline
    run_query_pipeline-raises clock w =
        let (start_time, t, started, h) = clock w in
        let k : settings.max_critic_retries + 2 ≡ suc (settings.max_critic_retries + 1) =
          omega arith in
        rw (started, k)
          (continue-raised _ _ e (
            rounds-raises (settings.max_critic_retries + 1) (start st settings query history) t
              (le→leb 0 settings.max_critic_retries (omega arith))))

module _ {W F V : Type 0} (hexdigest : Text → Text) (client : QdrantClient W F V)
    (fl : Float F) where
  -- With the synchronous client of the code no question is answered: where the clock, the embedding
  -- and the other search answer, the pipeline over these searches raises a RetrievalError, whatever
  -- the question is, also for a user without documents, and the response says 500.
  pub run_query_pipeline-synchronous :
      (sync : IsSynchronous client) (st : Stages W F) (settings : Settings)
      (embed_query : Text → Exec W V) (bm25_search : Text → Text → ℕ → Exec W (List (Hit F)))
      (as_hit : Found F → Hit F) (rrf_k recall_k : ℕ) (user_id : Text)
      → Returns (λ t. Unit {0}) st.monotonic_ms
      → ((q : Text) → Returns (λ v. Unit {0}) (embed_query q))
      → ((q : Text) (k : ℕ) → Returns (λ hits. Unit {0}) (bm25_search user_id q k))
      → (query : Text) (history : List Turn) (w : W)
      → ((run_query_pipeline
            (record st {
              hybrid_retrieve =
                  Retrieval.hybrid_retrieve fl
                    (searches_of hexdigest client embed_query bm25_search as_hit)
                    rrf_k
                    recall_k
                    user_id;
            })
            settings
            query
            history
            w).0
          ≡ raised (app retrieval))
        × (respond (app retrieval) ≡ unexpected)
  unfolding respond
  run_query_pipeline-synchronous sync st settings embed_query bm25_search as_hit rrf_k recall_k
        user_id clock embeds finds query history w =
      (
        run_query_pipeline-raises _ settings query history (app retrieval)
            (λ q k.
              hybrid_retrieve-raises fl _ rrf_k recall_k user_id q k (app retrieval) (embeds q)
                (finds q)
                (λ v n t.
                  continue-raised (dense_search hexdigest client user_id v n t) _ (app retrieval)
                    (dense_search-raises hexdigest client sync user_id v n t)))
            clock w,
        refl,
      )
