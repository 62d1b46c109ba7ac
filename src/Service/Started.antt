-- ===== src/Service/Started.antt =====
-- When app/main.py starts the application.
use multimodal_rag.Prelude.{◌≡◌, ◌⊎◌, inl, inr, refl, sym, subst, Bool}
use multimodal_rag.Errors.{Exception}
use multimodal_rag.Exec.{Result, ok, raised}
use multimodal_rag.Service.{
  Connections, postgres, redis, qdrant, elasticsearch, Ending, refused, shut_down, shutdown_raised,
  lifespan, check_all,
}

Call-cases :
    {A W : Type 0} (r : Result A × W)
    → ((a : A) × (v : W) × (r ≡ (ok a, v))) ⊎ ((e : Exception) × (v : W) × (r ≡ (raised e, v)))
Call-cases (ok a, v) = inl (a, v, refl)
Call-cases (raised e, v) = inr (e, v, refl)

module _ {W : Type 0} (c : Connections W) (application : W → W) (w : W) where
  -- The four calls have been made in order and have not raised. Nothing is known of what the ping of
  -- Elasticsearch gave.
  pub record AllConnected (v : W) : Type 0 where
    pub after_postgres : W
    pub after_redis : W
    pub after_qdrant : W
    pub alive : Bool
    pub selected : c.select_one w ≡ (ok tt, after_postgres)
    pub pinged : c.redis_ping after_postgres ≡ (ok tt, after_redis)
    pub listed : c.get_collections after_redis ≡ (ok tt, after_qdrant)
    pub es_pinged : c.es_ping after_qdrant ≡ (ok alive, v)

  -- how the calls to the services lead to an ending and a state
  pub data Goes : Ending → W → Type 0 where
    closes : (v t : W) → AllConnected v → c.dispose (application v) ≡ (ok tt, t) → Goes shut_down t
    close_raises :
        (v t : W) (e : Exception)
        → AllConnected v
        → c.dispose (application v) ≡ (raised e, t)
        → Goes (shutdown_raised e) t
    no_postgres :
        (t : W) (e : Exception) → c.select_one w ≡ (raised e, t) → Goes (refused postgres) t
    no_redis :
        (w₁ t : W) (e : Exception)
        → c.select_one w ≡ (ok tt, w₁)
        → c.redis_ping w₁ ≡ (raised e, t)
        → Goes (refused redis) t
    no_qdrant :
        (w₁ w₂ t : W) (e : Exception)
        → c.select_one w ≡ (ok tt, w₁)
        → c.redis_ping w₁ ≡ (ok tt, w₂)
        → c.get_collections w₂ ≡ (raised e, t)
        → Goes (refused qdrant) t
    no_elasticsearch :
        (w₁ w₂ w₃ t : W) (e : Exception)
        → c.select_one w ≡ (ok tt, w₁)
        → c.redis_ping w₁ ≡ (ok tt, w₂)
        → c.get_collections w₂ ≡ (ok tt, w₃)
        → c.es_ping w₃ ≡ (raised e, t)
        → Goes (refused elasticsearch) t

  concluded :
      (o : Ending) (t : W)
      → lifespan c application w ≡ (o, t)
      → Goes o t
      → Goes (lifespan c application w).0 (lifespan c application w).1
  concluded o t e g = subst (λ x. Goes x.0 x.1) (sym e) g

  connected-Goes :
      (v : W) → AllConnected v → Goes (lifespan c application w).0 (lifespan c application w).1
  unfolding lifespan check_all
  connected-Goes v k = elim (Call-cases (c.dispose (application v))) [
    | inl (tt, t, h) ↦
        concluded shut_down t (rw (k.selected, k.pinged, k.listed, k.es_pinged, h) refl)
          (closes v t k h)
    | inr (e, t, h) ↦
        concluded (shutdown_raised e) t (rw (k.selected, k.pinged, k.listed, k.es_pinged, h) refl)
          (close_raises v t e k h)
  ]

  -- The application starts if the calls to Postgres, Redis, Qdrant and Elasticsearch, made in this
  -- order, do not raise, whatever the ping of Elasticsearch gives: then it runs, the pool is disposed
  -- of, and an exception of that is the ending. Otherwise the start is refused with the name of the
  -- first service whose call raises, in the state that this call left, and the application does not
  -- run.
  pub lifespan_lem : Goes (lifespan c application w).0 (lifespan c application w).1
  unfolding lifespan check_all
  lifespan_lem = elim (Call-cases (c.select_one w)) [
    | inr (e, t, h) ↦ concluded (refused postgres) t (rw h refl) (no_postgres t e h)
    | inl (tt, w₁, h₁) ↦ elim (Call-cases (c.redis_ping w₁)) [
      | inr (e, t, h) ↦ concluded (refused redis) t (rw (h₁, h) refl) (no_redis w₁ t e h₁ h)
      | inl (tt, w₂, h₂) ↦ elim (Call-cases (c.get_collections w₂)) [
        | inr (e, t, h) ↦
            concluded (refused qdrant) t (rw (h₁, h₂, h) refl) (no_qdrant w₁ w₂ t e h₁ h₂ h)
        | inl (tt, w₃, h₃) ↦ elim (Call-cases (c.es_ping w₃)) [
          | inr (e, t, h) ↦
              concluded (refused elasticsearch) t (rw (h₁, h₂, h₃, h) refl)
                (no_elasticsearch w₁ w₂ w₃ t e h₁ h₂ h₃ h)
          | inl (alive, v, h₄) ↦ connected-Goes v (record {
            after_postgres = w₁;
            after_redis = w₂;
            after_qdrant = w₃;
            alive = alive;
            selected = h₁;
            pinged = h₂;
            listed = h₃;
            es_pinged = h₄;
          })
        ]
      ]
    ]
  ]
