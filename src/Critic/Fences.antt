-- ===== src/Critic/Fences.antt =====
-- `_strip_json_fences` undoes the fences that a model puts round its JSON.
use mathlib.Core.List.{reverse, reverse-append, reverse-reverse}
use mathlib.Core.Path.{ap₂, subst}
use multimodal_rag.Prelude.{
  ==→eq, ℕ, ◌≡◌, refl, sym, ap, ◌∙◌, false, List, [], ◌∷◌, ◌++◌, All, ◌==◌, append_assoc,
  Bool-cases, inl, inr,
}
use multimodal_rag.Prelude.Text.{Text, text, strip, lstrip, join}
use multimodal_rag.Critic.{newline, split_lines, fence, drop_fence, strip_json_fences}

abbrev pub all_lines : Text → List Text
all_lines s = (split_lines s).0 ∷ (split_lines s).1

join-cons :
    (c : ℕ) (sep p : Text) (ps : List Text) → join sep ((c ∷ p) ∷ ps) ≡ c ∷ join sep (p ∷ ps)
unfolding join
join-cons c sep p [] = refl
join-cons c sep p (q ∷ ps) = refl

abbrev on_head : ℕ → List Text → List Text
on_head c [] = []
on_head c (l ∷ ls) = (c ∷ l) ∷ ls

-- `"\n".join(s.split("\n"))` is `s`
join-all_lines : (s : Text) → join (newline ∷ []) (all_lines s) ≡ s
unfolding split_lines join
join-all_lines [] = refl
join-all_lines (c ∷ s) = elim (Bool-cases (c == newline)) [
  | inl e ↦ rw e (ap₂ ◌∷◌ (sym (==→eq c newline e)) (join-all_lines s))
  | inr e ↦ rw e (join-cons c (newline ∷ []) _ _ ∙ ap (◌∷◌ c) (join-all_lines s))
]

all_lines-append : (a b : Text) → all_lines (a ++ newline ∷ b) ≡ all_lines a ++ all_lines b
unfolding split_lines
all_lines-append [] b = refl
all_lines-append (c ∷ a) b = elim (Bool-cases (c == newline)) [
  | inl e ↦ rw e (ap (◌∷◌ []) (all_lines-append a b))
  | inr e ↦ rw e (ap (on_head c) (all_lines-append a b))
]

drop_fence-append : (ls : List Text) → drop_fence (ls ++ fence ∷ []) ≡ ls
unfolding drop_fence
drop_fence-append [] = refl
drop_fence-append (l ∷ []) = refl
drop_fence-append (l ∷ m ∷ ls) = ap (◌∷◌ l) (drop_fence-append (m ∷ ls))

abbrev pub NoNewline : Text → Type 0
NoNewline = All (λ c. (c == newline) ≡ false)

split_lines-first : (a b : Text) → NoNewline a → split_lines (a ++ newline ∷ b) ≡ (a, all_lines b)
unfolding split_lines
split_lines-first [] b h = refl
split_lines-first (c ∷ a) b h = rw (split_lines-first a b h.1, h.0) refl

-- A text that begins and ends in a backtick has nothing to strip.
strip_fenced : (s : Text) → strip (96 ∷ s ++ fence) ≡ 96 ∷ s ++ fence
unfolding strip fence text
strip_fenced s = ap reverse kept ∙ reverse-reverse (96 ∷ s ++ fence)
  where
    kept : lstrip (reverse (96 ∷ s ++ fence)) ≡ reverse (96 ∷ s ++ fence)
    kept = rw (reverse-append (96 ∷ s) fence) refl

-- A JSON body between a fence with any language and a closing fence on a line of its own is taken
-- out of its fences, with the space at its ends stripped.
pub strip_json_fences-fenced :
    (lang body : Text)
    → NoNewline lang
    → strip_json_fences (fence ++ lang ++ newline ∷ (body ++ newline ∷ fence)) ≡ strip body
unfolding strip_json_fences
strip_json_fences-fenced lang body h = rw stripped (
    ap (λ ls. strip (join (newline ∷ []) (drop_fence ls)))
      (ap (λ x. x.1) (split_lines-first (fence ++ lang) rest ((refl, (refl, (refl, h)))))
        ∙ all_lines-append body fence)
    ∙ ap (λ ls. strip (join (newline ∷ []) ls)) (drop_fence-append (all_lines body))
    ∙ ap strip (join-all_lines body))
  where
    rest : Text
    rest = body ++ newline ∷ fence

    inner : Text
    inner = 96 ∷ 96 ∷ lang ++ newline ∷ (body ++ newline ∷ [])

    regroup : 96 ∷ inner ++ fence ≡ fence ++ lang ++ newline ∷ rest
    regroup = rw (append_assoc lang, append_assoc body) refl

    stripped : strip (fence ++ lang ++ newline ∷ rest) ≡ fence ++ lang ++ newline ∷ rest
    stripped = subst (λ x. strip x ≡ x) regroup (strip_fenced inner)
