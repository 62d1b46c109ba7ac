-- ===== src/Generation/Answer.antt =====
-- From the template to the answer: where the prompt reaches the model, and where it does not.
use mathlib.Core.List.{reverse}
use multimodal_rag.Prelude.{
  ℕ, ◌≡◌, refl, ap, Bool, false, any, inl, inr, Bool-cases, if◌then◌else◌, List, [], ◌∷◌, ◌++◌,
  arith, append-nil,
}
use multimodal_rag.Prelude.Text.{Text, text, starts_with}
use multimodal_rag.Errors.{app, generation, other, value_error}
use multimodal_rag.Exec.{Result, ok, raised, continue, recover}
use multimodal_rag.Reranker.{Ranked}
use multimodal_rag.Generation.{
  Turn, Budgets, Llm, system_prompt, build_context, context_or_raise, counted_lines,
  counted_excerpts, generate_answer,
}
use multimodal_rag.Generation.Format.{format, Plain, open_brace, refines_query, format-append}

-- the last field of every template
format_query :
    (other_field : Text → Text → Result Text) (query : Text)
    → format other_field query (text "{query}") ≡ ok query
unfolding format text refines_query
format_query other_field query = ap ok (append-nil query)

starts_with-append : (p q s : Text) → starts_with p s ≡ false → starts_with (p ++ q) s ≡ false
unfolding starts_with
starts_with-append [] q s h = cc
starts_with-append (c ∷ p) q [] h = refl
starts_with-append (c ∷ p) q (d ∷ s) h = ground (arith, starts_with-append p q s)

-- No field that begins otherwise is the field `query` or refines it.
not_query :
    (s : Text)
    → starts_with (text "query") s ≡ false
    → (starts_with (text "query}") s ≡ false) × (refines_query s ≡ false)
unfolding starts_with text refines_query
not_query s h = (longer 125, rw (longer 33, longer 58, longer 91, longer 46) refl)
  where
    longer : (c : ℕ) → starts_with (text "query" ++ c ∷ []) s ≡ false
    longer c = starts_with-append (text "query") (c ∷ []) s h

-- A brace that opens no field that `format` knows.
format_bad :
    (other_field : Text → Text → Result Text) (query s : Text)
    → starts_with (open_brace ∷ []) s ≡ false
    → starts_with (text "query}") s ≡ false
    → refines_query s ≡ false
    → format other_field query (open_brace ∷ s) ≡ raised other
unfolding format
format_bad other_field query s p q r = rw (p, q, r) refl

module _ {W F : Type 0} (count_tokens : Text → ℕ) (refuses : Text → Bool) (llm : Llm W)
    (other_field : Text → Text → Result Text) (budgets : Budgets) (query : Text)
    (chunks : List (Ranked F)) (history : List Turn) (w : W) where
  abbrev pub context : Text × List (Ranked F)
  context = build_context count_tokens budgets chunks history

  abbrev pub answered : Result Text × W → Result (Text × List (Ranked F)) × W
  answered (ok answer, t) = (ok (answer, context.1), t)
  answered (raised e, t) = (raised (app generation), t)

  -- whether a text is counted that the tokenizer refuses
  abbrev pub is_refused : Bool
  is_refused =
      any refuses (
        counted_lines count_tokens budgets.history (reverse history) 0 ++ counted_excerpts 1 chunks)

  -- Where the template holds no brace in front of its last field, the model is asked once, with the
  -- query in that field. Its answer is returned with the chunks of the prompt, and any exception of
  -- the call becomes a generation error. If the tokenizer refuses a text that is counted, a ValueError
  -- is raised instead, and the model is not asked.
  pub generate_answer-Plain :
      (a : Text)
      → context.0 ≡ a ++ text "{query}"
      → Plain a
      → generate_answer count_tokens refuses llm other_field budgets query chunks history w ≡ (
          if is_refused
          then (raised value_error, w)
          else answered (llm system_prompt (a ++ query) w))
  unfolding generate_answer context_or_raise
  generate_answer-Plain a e h = elim (Bool-cases is_refused) [
    | inl bad ↦ rw bad refl
    | inr good ↦
        rw (good, e, format-append other_field query a (text "{query}") h, format_query)
          (same (llm system_prompt (a ++ query) w))
  ]
    where
      same :
          (r : Result Text × W)
          → continue
              (recover r (λ _ t. (raised (app generation), t)))
              (λ answer t. (ok (answer, context.1), t))
            ≡ answered r
      same (ok answer, t) = refl
      same (raised x, t) = refl

  -- Where the first brace of the template opens a field other than `query`, as in a document that
  -- quotes JSON, and the tokenizer counts all texts, the call raises an exception that is no
  -- application error, and the model is not asked.
  pub generate_answer-braces :
      (a s : Text)
      → is_refused ≡ false
      → context.0 ≡ a ++ open_brace ∷ s
      → Plain a
      → starts_with (open_brace ∷ []) s ≡ false
      → starts_with (text "query") s ≡ false
      → generate_answer count_tokens refuses llm other_field budgets query chunks history w
        ≡ (raised other, w)
  unfolding generate_answer context_or_raise
  generate_answer-braces a s good e h p q =
      let (named, refined) = not_query s q in
      rw
        (
          good,
          e,
          format-append other_field query a (open_brace ∷ s) h,
          format_bad other_field query s p named refined,
        )
        refl
