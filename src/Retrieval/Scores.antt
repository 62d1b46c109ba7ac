-- ===== src/Retrieval/Scores.antt =====
-- What the two loops of the fusion leave in their dictionaries, described for one chunk at a time.
use multimodal_rag.Prelude.{
  ℕ, suc, ◌+◌, ◌≡◌, refl, ap, ◌∙◌, Bool, Option, none, some, List, [], ◌∷◌, arith, if◌then◌else◌,
}
use multimodal_rag.Prelude.Text.{Text, text_eq, text_eq_iff}
use multimodal_rag.Prelude.Dict.{
  Dict, keys, get, put, set_default, add_key, get-put, keys-put, get-set_default, keys-set_default,
  Distinct, add_key-Distinct,
}
use multimodal_rag.Retrieval.{Float, Hit, score_or_zero, bump_score, fuse_bm25, fuse_dense}

module _ {F : Type 0} where
  -- the chunks of the results, in the order of their first appearance
  abbrev pub seen : List (Hit F) → List Text → List Text
  seen [] ks = ks
  seen (x ∷ xs) ks = seen xs (add_key x.chunk_id ks)

  -- the data of the last result with the chunk, and of the first one
  abbrev pub last_match : Text → List (Hit F) → Option (Hit F) → Option (Hit F)
  last_match cid [] o = o
  last_match cid (x ∷ xs) o = last_match cid xs (if text_eq x.chunk_id cid then some x else o)

  abbrev pub or_first : Option (Hit F) → Hit F → Option (Hit F)
  or_first none x = some x
  or_first (some y) x = some y

  abbrev pub first_match : Text → List (Hit F) → Option (Hit F) → Option (Hit F)
  first_match cid [] o = o
  first_match cid (x ∷ xs) o =
      first_match cid xs (if text_eq x.chunk_id cid then or_first o x else o)

  pub seen-Distinct : (xs : List (Hit F)) (ks : List Text) → Distinct ks → Distinct (seen xs ks)
  seen-Distinct [] ks d = d
  seen-Distinct (x ∷ xs) ks d = seen-Distinct xs _ (add_key-Distinct x.chunk_id ks d)

module _ {F : Type 0} (fl : Float F) (k : ℕ) where
  -- the sum of `1 / (k + rank)` over the ranks at which the chunk stands
  abbrev pub rank_sum : Text → ℕ → List (Hit F) → Option F → Option F
  rank_sum cid rank [] o = o
  rank_sum cid rank (x ∷ xs) o = rank_sum cid (suc rank) xs (
      if text_eq x.chunk_id cid
      then some (fl.add (score_or_zero fl o) (fl.one_over (k + rank)))
      else o)

  get-bump_score :
      (rank : ℕ) (j cid : Text) (d : Dict F)
      → get cid (bump_score fl k rank j d) ≡ (
          if text_eq j cid
          then some (fl.add (score_or_zero fl (get cid d)) (fl.one_over (k + rank)))
          else get cid d)
  unfolding bump_score
  get-bump_score rank j cid d = ground (
    arith,
    get-put j cid (fl.add (score_or_zero fl (get j d)) (fl.one_over (k + rank))) d,
    text_eq_iff j cid,
  )

  pub get-fuse_bm25 :
      (cid : Text) (rank : ℕ) (xs : List (Hit F)) (s : Dict F) (d : Dict (Hit F))
      → (get cid (fuse_bm25 fl k rank xs (s, d)).0 ≡ rank_sum cid rank xs (get cid s))
        × (get cid (fuse_bm25 fl k rank xs (s, d)).1 ≡ last_match cid xs (get cid d))
  unfolding fuse_bm25
  get-fuse_bm25 cid rank [] s d = (refl, refl)
  get-fuse_bm25 cid rank (x ∷ xs) s d =
      let (p, q) =
        get-fuse_bm25 cid (suc rank) xs (bump_score fl k rank x.chunk_id s) (put x.chunk_id x d) in
      (rw (← get-bump_score rank x.chunk_id cid s) p, rw (← get-put x.chunk_id cid x d) q)

  pub get-fuse_dense :
      (cid : Text) (rank : ℕ) (xs : List (Hit F)) (s : Dict F) (d : Dict (Hit F))
      → (get cid (fuse_dense fl k rank xs (s, d)).0 ≡ rank_sum cid rank xs (get cid s))
        × (get cid (fuse_dense fl k rank xs (s, d)).1 ≡ first_match cid xs (get cid d))
  unfolding fuse_dense
  get-fuse_dense cid rank [] s d = (refl, refl)
  get-fuse_dense cid rank (x ∷ xs) s d =
      let (p, q) =
        get-fuse_dense cid (suc rank) xs (bump_score fl k rank x.chunk_id s)
          (set_default x.chunk_id x d) in
      (
        rw (← get-bump_score rank x.chunk_id cid s) p,
        q
            ∙ ap (first_match cid xs)
                (get-set_default x.chunk_id cid x d ∙ same x (text_eq x.chunk_id cid) (get cid d)),
      )
    where
      same :
          (x : Hit F) (b : Bool) (o : Option (Hit F))
          → (if b then elim o [ none ↦ some x | some w ↦ some w ] else o)
            ≡ (if b then or_first o x else o)
      same x b o = ground arith

  pub keys-fuse_bm25 :
      (rank : ℕ) (xs : List (Hit F)) (s : Dict F) (d : Dict (Hit F))
      → (keys (fuse_bm25 fl k rank xs (s, d)).0 ≡ seen xs (keys s))
        × (keys (fuse_bm25 fl k rank xs (s, d)).1 ≡ seen xs (keys d))
  unfolding fuse_bm25 bump_score
  keys-fuse_bm25 rank [] s d = (refl, refl)
  keys-fuse_bm25 rank (x ∷ xs) s d =
      let (p, q) =
        keys-fuse_bm25 (suc rank) xs (bump_score fl k rank x.chunk_id s) (put x.chunk_id x d) in
      (p ∙ ap (seen xs) (keys-put x.chunk_id _ s), q ∙ ap (seen xs) (keys-put x.chunk_id x d))

  pub keys-fuse_dense :
      (rank : ℕ) (xs : List (Hit F)) (s : Dict F) (d : Dict (Hit F))
      → (keys (fuse_dense fl k rank xs (s, d)).0 ≡ seen xs (keys s))
        × (keys (fuse_dense fl k rank xs (s, d)).1 ≡ seen xs (keys d))
  unfolding fuse_dense bump_score
  keys-fuse_dense rank [] s d = (refl, refl)
  keys-fuse_dense rank (x ∷ xs) s d =
      let (p, q) =
        keys-fuse_dense (suc rank) xs (bump_score fl k rank x.chunk_id s)
          (set_default x.chunk_id x d) in
      (
        p ∙ ap (seen xs) (keys-put x.chunk_id _ s),
        q ∙ ap (seen xs) (keys-set_default x.chunk_id x d),
      )
