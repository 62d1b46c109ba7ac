-- ===== src/Generation/Budget.antt =====
-- What of the history and of the chunks reaches the prompt.
use Prim.Native.Nat.add
use mathlib.Core.List.{reverse, reverse-append, reverse-reverse}
use multimodal_rag.Prelude.{
  ℕ, suc, ◌+◌, ◌≤◌, ◌<◌, ◌≡◌, inl, inr, refl, ap, sym, ◌∙◌, List, [], ◌∷◌, ◌++◌, map, arith, ltb,
  ltb→lt, Bool-cases, append_assoc, append-nil, true, false,
}
use multimodal_rag.Prelude.Text.{Text, text, join}
use multimodal_rag.Reranker.{Ranked}
use multimodal_rag.Generation.{
  Turn, Budgets, history_line, excerpt, fit_history, fit_chunks, user_template, build_context,
}

abbrev pub lines : List Turn → Text
lines [] = []
lines (t ∷ ts) = history_line t ++ lines ts

module _ (count_tokens : Text → ℕ) where
  -- the tokens of the lines of some turns
  abbrev pub turn_cost : List Turn → ℕ
  turn_cost [] = 0
  turn_cost (t ∷ ts) = count_tokens (history_line t) + turn_cost ts

  turn_cost-append : (xs ys : List Turn) → turn_cost (xs ++ ys) ≡ turn_cost xs + turn_cost ys
  turn_cost-append [] ys = omega arith
  turn_cost-append (x ∷ xs) ys = omega (arith, turn_cost-append xs ys)

  turn_cost-reverse : (xs : List Turn) → turn_cost (reverse xs) ≡ turn_cost xs
  turn_cost-reverse [] = refl
  turn_cost-reverse (x ∷ xs) =
      ap turn_cost (reverse-append (x ∷ []) xs)
      ∙ turn_cost-append (reverse xs) (x ∷ [])
      ∙ omega (arith, turn_cost-reverse xs)

  -- the next older turn, if there is one, does not fit
  abbrev pub Full : ℕ → ℕ → List Turn → Type 0
  Full budget used [] = Unit
  Full budget used (t ∷ ts) = budget < used + count_tokens (history_line t)

  fit_history_lem :
      (budget : ℕ) (ts : List Turn) (used : ℕ) (acc : Text)
      → used ≤ budget
      → (kept older : List Turn) × (ts ≡ kept ++ older)
        × (fit_history count_tokens budget ts used acc ≡ lines (reverse kept) ++ acc)
        × (used + turn_cost kept ≤ budget)
        × Full budget (used + turn_cost kept) older
  unfolding fit_history
  fit_history_lem budget [] used acc h = ([], [], refl, refl, omega arith, tt)
  fit_history_lem budget (t ∷ ts) used acc h =
      elim (Bool-cases (ltb budget (used + count_tokens (history_line t)))) [
        | inl e ↦ ([], t ∷ ts, refl, rw e refl, omega arith, omega (arith, ltb→lt _ _ e))
        | inr e ↦
            let n = count_tokens (history_line t) in
            let (kept, older, split, same, fits, full) =
              fit_history_lem budget ts (used + n) (history_line t ++ acc) (ground arith) in
            (
              t ∷ kept,
              older,
              ap (◌∷◌ t) split,
              rw e (same ∙ moved t kept acc),
              omega arith,
              regrouped n (turn_cost kept) older full,
            )
      ]
    where
      lines-append : (xs ys : List Turn) → lines (xs ++ ys) ≡ lines xs ++ lines ys
      lines-append [] ys = refl
      lines-append (x ∷ xs) ys =
          ap (λ s. history_line x ++ s) (lines-append xs ys)
          ∙ sym (append_assoc _ (lines xs) (lines ys))

      moved :
          (t : Turn) (kept : List Turn) (acc : Text)
          → lines (reverse kept) ++ (history_line t ++ acc) ≡ lines (reverse (t ∷ kept)) ++ acc
      moved t kept acc =
          rw (reverse-append (t ∷ []) kept, lines-append, append-nil, append_assoc) refl

      regrouped :
          (n c : ℕ) (older : List Turn)
          → Full budget (used + n + c) older
          → Full budget (used + (n + c)) older
      regrouped n c [] f = tt
      regrouped n c (o ∷ os) f = omega arith

module _ {F : Type 0} where
  -- How a list of excerpts is chosen from the ranked chunks, in their order: each chunk is kept
  -- with its marker, or dropped for a reason.
  pub data Selection (P : ℕ → Ranked F → Type 0)
      : ℕ → List (Ranked F) → List (Text × Ranked F) → Type 0 where
    done : {i : ℕ} → Selection P i [] []
    kept :
        {i : ℕ} {c : Ranked F} {cs : List (Ranked F)} {es : List (Text × Ranked F)}
        → Selection P (suc i) cs es
        → Selection P i (c ∷ cs) ((excerpt i c, c) ∷ es)
    dropped :
        {i : ℕ} {c : Ranked F} {cs : List (Ranked F)} {es : List (Text × Ranked F)}
        → P i c
        → Selection P (suc i) cs es
        → Selection P i (c ∷ cs) es

  module _ (count_tokens : Text → ℕ) where
    abbrev pub excerpt_cost : List (Text × Ranked F) → ℕ
    excerpt_cost [] = 0
    excerpt_cost (e ∷ es) = count_tokens e.0 + excerpt_cost es

    fit_chunks-le :
        (budget i : ℕ) (cs : List (Ranked F)) (used : ℕ)
        → used ≤ budget
        → used + excerpt_cost (fit_chunks count_tokens budget i cs used) ≤ budget
    unfolding fit_chunks
    fit_chunks-le budget i [] used h = omega arith
    fit_chunks-le budget i (c ∷ cs) used h =
        let n = count_tokens (excerpt i c) in
        elim (Bool-cases (ltb budget (used + n))) [
          | inl e ↦ rw e (fit_chunks-le budget (suc i) cs used h)
          | inr e ↦ rw e (omega (arith, fit_chunks-le budget (suc i) cs (used + n) (ground arith)))
        ]

    fit_chunks-Selection :
        (budget total i : ℕ) (cs : List (Ranked F)) (used : ℕ)
        → used + excerpt_cost (fit_chunks count_tokens budget i cs used) ≤ total
        → Selection
            (λ j c. budget < total + count_tokens (excerpt j c))
            i
            cs
            (fit_chunks count_tokens budget i cs used)
    unfolding fit_chunks
    fit_chunks-Selection budget total i [] used h = done
    fit_chunks-Selection budget total i (c ∷ cs) used h =
        let n = count_tokens (excerpt i c) in
        elim (Bool-cases (ltb budget (used + n))) [
          | inl e ↦ rw e (
              dropped (omega (arith, ltb→lt _ _ e, more e))
                (fit_chunks-Selection budget total (suc i) cs used (rw e at h)))
          | inr e ↦ rw e (
              kept (
                fit_chunks-Selection budget total (suc i) cs (used + n)
                  (omega (arith, kept_more e))))
        ]
      where
        more : ltb budget (used + count_tokens (excerpt i c)) ≡ true → used ≤ total
        more e = omega arith

        kept_more :
            ltb budget (used + count_tokens (excerpt i c)) ≡ false
            → used
                + (count_tokens (excerpt i c)
                    + excerpt_cost (
                        fit_chunks count_tokens budget
                          (suc i)
                          cs
                          (used + count_tokens (excerpt i c))))
              ≤ total
        kept_more e = rw e at h

-- The prompt holds the latest turns of the history, as many as fit their budget before the first one
-- that does not, in their order; and the excerpts of the chunks, in rank order under their rank as
-- marker, whose sum fits the budget and of which none is left out that would fit beside all that is
-- kept. The chunks that are returned are those that the prompt holds.
pub build_context_lem :
    {F : Type 0} (count_tokens : Text → ℕ) (budgets : Budgets) (chunks : List (Ranked F))
    (history : List Turn)
    → (older recent : List Turn) × (es : List (Text × Ranked F)) × (history ≡ older ++ recent)
      × (turn_cost count_tokens recent ≤ budgets.history)
      × Full count_tokens budgets.history (turn_cost count_tokens recent) (reverse older)
      × Selection
          (λ i c. budgets.chunks < excerpt_cost count_tokens es + count_tokens (excerpt i c))
          1
          chunks
          es
      × (excerpt_cost count_tokens es ≤ budgets.chunks)
      × (build_context count_tokens budgets chunks history ≡ (
        user_template (lines recent) (join (text "\n") (map (λ e. e.0) es)),
        map (λ e. e.1) es,
      ))
unfolding build_context
build_context_lem count_tokens budgets chunks history =
    let (recent, older, split, same, fits, full) =
      fit_history_lem count_tokens budgets.history (reverse history) 0 [] (omega arith) in
    let es = fit_chunks count_tokens budgets.chunks 1 chunks 0 in
    let message = join (text "\n") (map (λ e. e.0) es) in
    (
      reverse older,
      reverse recent,
      es,
      sym (reverse-reverse history) ∙ ap reverse split ∙ reverse-append recent older,
      rw (turn_cost-reverse count_tokens recent) (rw add.zero at fits),
      rw (turn_cost-reverse count_tokens recent, reverse-reverse older) (rw add.zero at full),
      fit_chunks-Selection count_tokens budgets.chunks (excerpt_cost count_tokens es) 1 chunks 0
          (omega arith),
      omega (arith, fit_chunks-le count_tokens budgets.chunks 1 chunks 0),
      ap (λ h. (user_template h message, map (λ e. e.1) es)) (same ∙ append-nil _),
    )
