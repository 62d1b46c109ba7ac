-- ===== src/Sessions/Coherence.antt =====
-- What the cached turns of a session have to do with its durable ones.
use multimodal_rag.Prelude.{
  ℕ, zero, suc, ◌≤◌, ◌≡◌, ◌⊎◌, refl, ap, ◌∙◌, true, List, [], ◌∷◌, ◌++◌, map, keep, leb, All,
  All-keep, last_n-snoc, map-last_n, keep-append, arith,
}
use multimodal_rag.Prelude.Sort.{sort_desc, sort_desc-snoc}
use multimodal_rag.Prelude.Text.{Text, text_eq, text_eq_refl}
use multimodal_rag.Exec.{ok}
use multimodal_rag.Generation.{Turn}
use multimodal_rag.SessionCache.{Redis, Codec, Command, tail_slice, session_key}
use multimodal_rag.Sessions.{SessionTurn, Store, turns_of}

-- what a turn says; the time of a cached turn is that of its push and not that of its row
abbrev pub said : Turn → Text × Text
said t = (t.role, t.content)

abbrev pub said_row : SessionTurn → Text × Text
said_row t = (t.role, t.content)

pub tail_slice-snoc {ℓ} :
    {A : Type ℓ} (n : ℕ) (xs : List A) (y : A)
    → tail_slice n (tail_slice n xs ++ y ∷ []) ≡ tail_slice n (xs ++ y ∷ [])
tail_slice-snoc zero xs y = refl
tail_slice-snoc (suc n) xs y = last_n-snoc (suc n) xs y

pub map-tail_slice {ℓ κ} :
    {A : Type ℓ} {B : Type κ} (f : A → B) (n : ℕ) (xs : List A)
    → map f (tail_slice n xs) ≡ tail_slice n (map f xs)
map-tail_slice f zero xs = refl
map-tail_slice f (suc n) xs = map-last_n f (suc n) xs

-- a row that is not older than the others comes last
pub turns_of-snoc :
    (turns : List SessionTurn) (turn : SessionTurn)
    → All (λ t. t.created_at ≤ turn.created_at) turns
    → turns_of turn.session_id (turns ++ turn ∷ []) ≡ turns_of turn.session_id turns ++ turn ∷ []
unfolding turns_of
turns_of-snoc turns turn newest =
    ap (sort_desc (λ a b. leb b a) (λ t. t.created_at)) split
    ∙ sort_desc-snoc (λ a b. leb b a) (λ t. t.created_at) turn _
        (All-keep _ (λ t. text_eq t.session_id turn.session_id) turns (older turns newest))
  where
    split :
        keep (λ t. text_eq t.session_id turn.session_id) (turns ++ turn ∷ [])
        ≡ keep (λ t. text_eq t.session_id turn.session_id) turns ++ turn ∷ []
    split =
        keep-append (λ t. text_eq t.session_id turn.session_id) turns (turn ∷ [])
        ∙ ap (λ l. keep (λ t. text_eq t.session_id turn.session_id) turns ++ l)
            (rw (text_eq_refl turn.session_id) refl)

    older :
        (ts : List SessionTurn)
        → All (λ t. t.created_at ≤ turn.created_at) ts
        → All (λ t. leb t.created_at turn.created_at ≡ true) ts
    older [] h = tt
    older (t ∷ ts) h = (ground (arith, h.0), older ts h.1)

module _ {C : Type 0} (redis : Redis C) (codec : Codec) (window : ℕ) where
  -- The list at the session's key says what the last rows of the session do.
  pub record Warm (session_id : Text) (s : Store C) : Type 0 where
    pub cached : List Turn
    pub held : redis.contents (session_key session_id) s.cache ≡ map codec.dumps cached
    pub recent : map said cached ≡ map said_row (tail_slice window (turns_of session_id s.turns))

  -- There is no list, or it says what the last rows do.
  abbrev pub Coherent : Text → Store C → Type 0
  Coherent session_id s = (redis.contents (session_key session_id) s.cache ≡ []) ⊎ Warm session_id s

-- Redis is up: the calls of the cache return.
pub record Up {C : Type 0} (redis : Redis C) : Type 0 where
  pub executes : (cs : List Command) (c : C) → (d : C) × (redis.execute cs c ≡ (ok tt, d))
  pub ranges : (k : Text) (c : C) → (xs : List Text) × (d : C) × (redis.lrange k c ≡ (ok xs, d))
