-- ===== src/Reranker/Order.antt =====
-- What reranking returns, and what it raises.
use mathlib.Core.List.{Perm}
use mathlib.Core.List.Perm
use mathlib.Core.Path.{subst}
use multimodal_rag.Prelude.{
  ℕ, zero, suc, min, ◌≡◌, refl, ap, sym, Bool, true, All, List, [], ◌∷◌, ◌++◌, map, take, drop,
  length, length-take, length-map, arith,
}
use multimodal_rag.Prelude.Text.{Text}
use multimodal_rag.Prelude.Sort.{
  TotalOrder, Desc, sort_desc, sort_desc-perm, sort_desc-Desc, length-sort_desc,
}
use multimodal_rag.Exec.{ok}
use multimodal_rag.Retrieval.{Float, Fused}
use multimodal_rag.Retrieval.Fusion.{Desc-take}
use multimodal_rag.Reranker.{Ranked, Backend, content, scored, rerank, or_default}

take-append-drop : {A : Type 0} (n : ℕ) (xs : List A) → take n xs ++ drop n xs ≡ xs
take-append-drop zero xs = refl
take-append-drop (suc n) [] = refl
take-append-drop (suc n) (x ∷ xs) = ap (◌∷◌ x) (take-append-drop n xs)

-- each candidate with the score at its place
abbrev pub pairs : {A B : Type 0} → List A → List B → List (A × B)
pairs [] ys = []
pairs (x ∷ xs) [] = []
pairs (x ∷ xs) (y ∷ ys) = (x, y) ∷ pairs xs ys

abbrev pub scores_of : {F : Type 0} → Ranked F → Fused F × F
scores_of x = (x.fused, x.rerank_score)

scored-pairs :
    {F : Type 0} (fl : Float F) {W : Type 0} (b : Backend W F) (cs : List (Fused F)) (s : List F)
    → map scores_of (scored fl b cs s) ≡ pairs cs s
unfolding scored
scored-pairs fl b [] s = refl
scored-pairs fl b (c ∷ cs) [] = refl
scored-pairs fl b (c ∷ cs) (s ∷ ss) = ap (◌∷◌ (c, s)) (scored-pairs fl b cs ss)

length-pairs :
    {A B : Type 0} (xs : List A) (ys : List B)
    → length ys ≡ length xs
    → length (pairs xs ys) ≡ length xs
length-pairs [] ys h = refl
length-pairs (x ∷ xs) [] h = absurd (omega arith)
length-pairs (x ∷ xs) (y ∷ ys) h = ap suc (length-pairs xs ys (omega arith))

All-drop : {A : Type 0} (P : A → Type 0) (n : ℕ) (xs : List A) → All P xs → All P (drop n xs)
All-drop P zero xs h = h
All-drop P (suc n) [] h = tt
All-drop P (suc n) (x ∷ xs) h = All-drop P n xs h.1

-- what is behind a prefix of a descending list is not above it
Desc-drop :
    {F A : Type 0} (at_most : F → F → Bool) (key : A → F) (n : ℕ) (xs : List A)
    → Desc at_most key xs
    → All (λ y. All (λ x. at_most (key y) (key x) ≡ true) (take n xs)) (drop n xs)
Desc-drop {A = A} at_most key zero xs h = none_before xs
  where
    none_before : (ys : List A) → All (λ y. All (λ x. at_most (key y) (key x) ≡ true) []) ys
    none_before [] = tt
    none_before (y ∷ ys) = (tt, none_before ys)
Desc-drop {A = A} at_most key (suc n) [] h = tt
Desc-drop {A = A} at_most key (suc n) (x ∷ xs) h =
    both (drop n xs) (All-drop (λ y. at_most (key y) (key x) ≡ true) n xs h.0)
      (Desc-drop at_most key n xs h.1)
  where
    both :
        (ys : List A)
        → All (λ y. at_most (key y) (key x) ≡ true) ys
        → All (λ y. All (λ z. at_most (key y) (key z) ≡ true) (take n xs)) ys
        → All (λ y. All (λ z. at_most (key y) (key z) ≡ true) (x ∷ take n xs)) ys
    both [] f g = tt
    both (y ∷ ys) f g = ((f.0, g.0), both ys f.1 g.1)

module _ {W F : Type 0} (fl : Float F) (b : Backend W F) where
  -- The local backend, where the model scores every pair: the result and what it leaves out are the
  -- candidates, each with the score that the model gave it, as often as before; the result has the
  -- requested length, or that of the candidates if they are fewer, and goes by descending score, and
  -- nothing that is left out has a higher score than anything in it.
  pub rerank_local_lem :
      (o : TotalOrder fl.at_most) (default_k requested : ℕ) (query : Text) (c : Fused F)
      (cs : List (Fused F)) (scores : List F) (w w' : W)
      → b.use_local_reranker ≡ true
      → b.predict (map (λ x. (query, content x)) (c ∷ cs)) w ≡ (ok scores, w')
      → length scores ≡ length (c ∷ cs)
      → (r left_out : List (Ranked F)) × (rerank fl b default_k query (c ∷ cs) requested w
          ≡ (ok r, w'))
        × Perm (map scores_of (r ++ left_out)) (pairs (c ∷ cs) scores)
        × (length r ≡ min (or_default requested default_k) (length (c ∷ cs)))
        × Desc fl.at_most (λ x. x.rerank_score) r
        × All (λ y. All (λ x. fl.at_most y.rerank_score x.rerank_score ≡ true) r) left_out
  unfolding rerank
  rerank_local_lem o default_k requested query c cs scores w w' local predicted full =
      let k = or_default requested default_k in
      let all = scored fl b (c ∷ cs) scores in
      let sorted = sort_desc fl.at_most (λ x. x.rerank_score) all in
      let desc = sort_desc-Desc fl.at_most (λ x. x.rerank_score) o all in
      let named : map scores_of all ≡ pairs (c ∷ cs) scores = scored-pairs fl b (c ∷ cs) scores in
      (
        take k sorted,
        drop k sorted,
        rw (local, predicted) refl,
        subst (λ l. Perm (map scores_of l) (pairs (c ∷ cs) scores))
            (sym (take-append-drop k sorted))
            (subst (Perm _) named
              (Perm.map scores_of (sort_desc-perm fl.at_most (λ x. x.rerank_score) all))),
        omega (
          arith,
          length-take k sorted,
          length-sort_desc fl.at_most (λ (x : Ranked F). x.rerank_score) all,
          length-map (λ (x : Ranked F). scores_of x) all,
          ap (length {A = Fused F × F}) named,
          length-pairs (c ∷ cs) scores full,
        ),
        Desc-take fl.at_most (λ x. x.rerank_score) k sorted desc,
        Desc-drop fl.at_most (λ x. x.rerank_score) k sorted desc,
      )
