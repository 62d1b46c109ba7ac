-- ===== src/Retrieval/Fusion.antt =====
-- The fused list against its description chunk by chunk.
use mathlib.Core.List.{Perm}
use mathlib.Core.List.Perm
use mathlib.Core.Path.{ap₂, subst}
use multimodal_rag.Prelude.{
  ℕ, zero, suc, ◌≡◌, refl, ap, sym, ◌∙◌, Option, none, some, List, [], ◌∷◌, map, arith, Bool, true,
  All, All-take, All-map, take,
}
use multimodal_rag.Prelude.Text.{Text, text_eq→eq, member}
use multimodal_rag.Prelude.Dict.{Dict, keys, get, Distinct, get-member, All-get, All-member}
use multimodal_rag.Prelude.Sort.{
  TotalOrder, Desc, sort_desc, sort_desc-perm, sort_desc-Desc, All-sort_desc,
}
use multimodal_rag.Exec.{ok}
use multimodal_rag.Retrieval.{
  Float, Hit, Fused, fuse_bm25, fuse_dense, collect, rrf_fuse, sorted_result,
}
use multimodal_rag.Retrieval.Scores.{
  seen, last_match, first_match, rank_sum, seen-Distinct, get-fuse_bm25, get-fuse_dense,
  keys-fuse_bm25, keys-fuse_dense,
}

abbrev pub chunk_of : {F : Type 0} → Fused F → Text
chunk_of x = x.hit.chunk_id

-- A fused chunk has the sum of its reciprocal ranks over both lists, and the data of its last BM25
-- result, or of its first dense result if BM25 did not find it.
pub record IsEntry {F : Type 0} (fl : Float F) (k : ℕ) (b d : List (Hit F)) (x : Fused F)
    : Type 0 where
  pub sum : rank_sum fl k (chunk_of x) 1 d (rank_sum fl k (chunk_of x) 1 b none) ≡ some x.rrf_score
  pub found : first_match (chunk_of x) d (last_match (chunk_of x) b none) ≡ some x.hit

module _ {F : Type 0} where
  abbrev Names : Text → Option (Hit F) → Type 0
  Names cid none = Unit
  Names cid (some h) = h.chunk_id ≡ cid

  last_match-Names :
      (cid : Text) (xs : List (Hit F)) (o : Option (Hit F))
      → Names cid o
      → Names cid (last_match cid xs o)
  last_match-Names cid [] o n = n
  last_match-Names cid (x ∷ xs) o n =
      last_match-Names cid xs _ (ground (arith, text_eq→eq x.chunk_id cid))

  first_match-Names :
      (cid : Text) (xs : List (Hit F)) (o : Option (Hit F))
      → Names cid o
      → Names cid (first_match cid xs o)
  first_match-Names cid [] o n = n
  first_match-Names cid (x ∷ xs) o n =
      first_match-Names cid xs _ (ground (arith, text_eq→eq x.chunk_id cid))

  -- each item's data is found under its key, and names it
  abbrev Backed : Dict (Hit F) → Dict F → Type 0
  Backed d items = All (λ e. (h : Hit F) × (get e.0 d ≡ some h) × (h.chunk_id ≡ e.0)) items

  abbrev Matches : Dict (Hit F) → Dict F → Fused F → Type 0
  Matches d s x = (get (chunk_of x) d ≡ some x.hit) × (get (chunk_of x) s ≡ some x.rrf_score)

module _ {F : Type 0} (fl : Float F) where
  collect_lem :
      (d : Dict (Hit F)) (s items : Dict F)
      → Backed d items
      → All (λ e. get e.0 s ≡ some e.1) items
      → (r : List (Fused F)) × (collect fl d items ≡ ok r)
        × (map chunk_of r ≡ keys items)
        × All (Matches d s) r
  unfolding collect
  collect_lem d s [] b g = ([], refl, refl, tt)
  collect_lem d s ((cid, v) ∷ items) b g =
      let (h, found, named) = b.0 in
      let (r, done, names, matches) = collect_lem d s items b.1 g.1 in
      let x : Fused F = record { hit = h; rrf_score = v } in
      (
        x ∷ r,
        rw (found, collect, done) refl,
        ap₂ ◌∷◌ named names,
        (
          (
            subst (λ c. get c d ≡ some h) (sym named) found,
            subst (λ c. get c s ≡ some v) (sym named) g.0,
          ),
          matches,
        ),
      )

  module _ (k : ℕ) (b d : List (Hit F)) where
    abbrev bm25_state : Dict F × Dict (Hit F)
    bm25_state = fuse_bm25 fl k 1 b ([], [])

    abbrev final_state : Dict F × Dict (Hit F)
    final_state = fuse_dense fl k 1 d (fuse_bm25 fl k 1 b ([], []))

    final_score :
        (cid : Text) → get cid final_state.0 ≡ rank_sum fl k cid 1 d (rank_sum fl k cid 1 b none)
    unfolding get
    final_score cid =
        (get-fuse_dense fl k cid 1 d bm25_state.0 bm25_state.1).0
        ∙ ap (rank_sum fl k cid 1 d) (get-fuse_bm25 fl k cid 1 b [] []).0

    final_data : (cid : Text) → get cid final_state.1 ≡ first_match cid d (last_match cid b none)
    unfolding get
    final_data cid =
        (get-fuse_dense fl k cid 1 d bm25_state.0 bm25_state.1).1
        ∙ ap (first_match cid d) (get-fuse_bm25 fl k cid 1 b [] []).1

    final_keys :
        (keys final_state.0 ≡ seen d (seen b [])) × (keys final_state.1 ≡ seen d (seen b []))
    final_keys =
        let (p, q) = keys-fuse_dense fl k 1 d bm25_state.0 bm25_state.1 in
        let (p', q') = keys-fuse_bm25 fl k 1 b [] [] in (p ∙ ap (seen d) p', q ∙ ap (seen d) q')

    final-Backed :
        (items : Dict F)
        → All (λ e. member e.0 (keys final_state.1) ≡ true) items
        → Backed final_state.1 items
    final-Backed [] m = tt
    final-Backed ((cid, v) ∷ items) m =
        let (h, found) = get-member cid final_state.1 m.0 in
        let named : Names cid (first_match cid d (last_match cid b none)) =
          first_match-Names cid d _ (last_match-Names cid b none tt) in
        ((h, found, subst (Names cid) (sym (final_data cid) ∙ found) named), final-Backed items m.1)

  entry :
      (k : ℕ) (b d : List (Hit F)) (x : Fused F)
      → Matches (final_state k b d).1 (final_state k b d).0 x
      → IsEntry fl k b d x
  entry k b d x m = record {
    sum = sym (final_score k b d (chunk_of x)) ∙ m.1;
    found = sym (final_data k b d (chunk_of x)) ∙ m.0;
  }

  -- The fusion never fails. Its result is sorted by descending score, holds each chunk of either
  -- list exactly once, and each entry has the sum of its reciprocal ranks as its score.
  pub rrf_fuse_lem :
      (o : TotalOrder fl.at_most) (k : ℕ) (b d : List (Hit F))
      → (r : List (Fused F)) × (rrf_fuse fl k b d ≡ ok r)
        × Desc fl.at_most (λ x. x.rrf_score) r
        × Perm (map chunk_of r) (seen d (seen b []))
        × Distinct (seen d (seen b []))
        × All (IsEntry fl k b d) r
  unfolding rrf_fuse
  rrf_fuse_lem o k b d =
      let fs = final_state k b d in
      let distinct : Distinct (seen d (seen b [])) =
        seen-Distinct d (seen b []) (seen-Distinct b [] tt) in
      let keyed = final_keys k b d in
      let (u, done, names, matches) =
        collect_lem fs.1 fs.0 fs.0
          (final-Backed k b d fs.0 (
            subst (λ ks. All (λ e. member e.0 ks ≡ true) fs.0) (keyed.0 ∙ sym keyed.1)
              (All-member fs.0)))
          (All-get fs.0 (subst Distinct (sym keyed.0) distinct)) in
      (
        sort_desc fl.at_most (λ x. x.rrf_score) u,
        ap (sorted_result fl) done,
        sort_desc-Desc fl.at_most (λ x. x.rrf_score) o u,
        subst (Perm _) (names ∙ keyed.0)
            (Perm.map chunk_of (sort_desc-perm fl.at_most (λ x. x.rrf_score) u)),
        distinct,
        All-sort_desc fl.at_most (λ x. x.rrf_score) (IsEntry fl k b d) u
            (All-map (entry k b d) u matches),
      )

pub Desc-take :
    {F A : Type 0} (at_most : F → F → Bool) (key : A → F) (n : ℕ) (xs : List A)
    → Desc at_most key xs
    → Desc at_most key (take n xs)
Desc-take at_most key zero xs h = tt
Desc-take at_most key (suc n) [] h = tt
Desc-take at_most key (suc n) (x ∷ xs) h = (All-take _ n xs h.0, Desc-take at_most key n xs h.1)
