-- ===== src/Generation.antt =====
-- app/services/generation_service.py: the prompt within its token budgets, and the answer.
pub mod Format
pub mod Budget
pub mod Answer
use mathlib.Core.List.{reverse}
use multimodal_rag.Prelude.{
  ℕ, suc, ◌+◌, ◌-◌, Bool, Option, none, some, List, [], ◌∷◌, ◌++◌, ltb, leb, ◌&&◌, map, any,
  if◌then◌else◌,
}
use multimodal_rag.Prelude.Text.{Text, text, lower_char, join, show}
use multimodal_rag.Errors.{Exception, generation, value_error}
use multimodal_rag.Exec.{Result, ok, raised, Exec, pure, fail, catch, continue, ◌>>=◌}
use multimodal_rag.Retrieval.{Hit, Fused}
use multimodal_rag.Reranker.{Ranked}
use Format.{format}

-- A turn of the working memory, as the session cache stores it.
pub record Turn : Type 0 where
  pub role : Text
  pub content : Text
  pub timestamp : ℕ

-- `settings`: the budgets that `build_context` reads.
pub record Budgets : Type 0 where
  pub history : ℕ
  pub chunks : ℕ

-- ASCII part of `str.capitalize()`
unfoldable pub upper_char : ℕ → ℕ
upper_char c = if leb 97 c && leb c 122 then c - 32 else c

unfoldable pub capitalize : Text → Text
unfolding upper_char lower_char
capitalize [] = []
capitalize (c ∷ s) = upper_char c ∷ map lower_char s

unfoldable pub history_line : Turn → Text
unfolding text capitalize
history_line turn = capitalize turn.role ++ text ": " ++ turn.content ++ text "\n"

-- an f-string writes `None` for a filename that a store returned as null
abbrev pub str_or_none : Option Text → Text
str_or_none none = text "None"
str_or_none (some s) = s

unfoldable pub excerpt : {F : Type 0} → ℕ → Ranked F → Text
unfolding text show
excerpt i chunk =
    text "["
    ++ show i
    ++ text "] (source: "
    ++ str_or_none chunk.fused.hit.filename
    ++ text ")\n"
    ++ chunk.fused.hit.content
    ++ text "\n"

module _ (count_tokens : Text → ℕ) where
  -- the loop over `reversed(history)`, which stops at the first line that does not fit
  unfoldable pub fit_history : ℕ → List Turn → ℕ → Text → Text
  fit_history budget [] used acc = acc
  fit_history budget (turn ∷ turns) used acc =
      let line = history_line turn in
      let rest = fit_history budget turns (used + count_tokens line) (line ++ acc) in
      if ltb budget (used + count_tokens line) then acc else rest

  module _ {F : Type 0} where
    -- the loop over `enumerate(chunks, start=1)`, which skips a chunk that does not fit
    unfoldable pub fit_chunks : ℕ → ℕ → List (Ranked F) → ℕ → List (Text × Ranked F)
    fit_chunks budget i [] used = []
    fit_chunks budget i (chunk ∷ chunks) used =
        let n = count_tokens (excerpt i chunk) in
        let skipped = fit_chunks budget (suc i) chunks used in
        let kept = fit_chunks budget (suc i) chunks (used + n) in
        if ltb budget (used + n) then skipped else (excerpt i chunk, chunk) ∷ kept

module _ (count_tokens : Text → ℕ) where
  -- the lines that the loop over the history counts: up to the first that does not fit
  unfoldable pub counted_lines : ℕ → List Turn → ℕ → List Text
  unfolding history_line
  counted_lines budget [] used = []
  counted_lines budget (turn ∷ turns) used =
      let n = used + count_tokens (history_line turn) in
      let rest = counted_lines budget turns n in
      history_line turn ∷ (if ltb budget n then [] else rest)

-- the excerpts, all of which are counted
unfoldable pub counted_excerpts : {F : Type 0} → ℕ → List (Ranked F) → List Text
unfolding excerpt
counted_excerpts i [] = []
counted_excerpts i (chunk ∷ chunks) = excerpt i chunk ∷ counted_excerpts (suc i) chunks

abbrev pub or_text : Text → Text → Text
or_text [] d = d
or_text (c ∷ s) d = c ∷ s

-- the f-string of `user_message`, in which `{{query}}` leaves the field `{query}`
unfoldable pub user_template : Text → Text → Text
unfolding text
user_template history_text chunks_text =
    text "### Conversation so far:\n"
    ++ or_text history_text (text "(no prior turns)")
    ++ text "\n\n### Source excerpts:\n"
    ++ or_text chunks_text (text "(no relevant sources found)")
    ++ text "\n\n### Question:\n{query}"

module _ {F : Type 0} (count_tokens : Text → ℕ) where
  -- The user message with its field, and the chunks that are in it, where the tokenizer counts each
  -- text that it is given.
  unfoldable pub build_context : Budgets → List (Ranked F) → List Turn → Text × List (Ranked F)
  unfolding fit_history fit_chunks user_template history_line excerpt text
  build_context budgets chunks history =
      let history_text = fit_history count_tokens budgets.history (reverse history) 0 [] in
      let fitted = fit_chunks count_tokens budgets.chunks 1 chunks 0 in
      let chunks_text = join (text "\n") (map (λ e. e.0) fitted) in
      (user_template history_text chunks_text, map (λ e. e.1) fitted)

-- The LLM: a system prompt and a user message in, an answer out.
abbrev pub Llm : Type 0 → Type 0
Llm W = Text → Text → Exec W Text

-- `_SYSTEM_PROMPT`
unfoldable pub system_prompt : Text
unfolding text
system_prompt =
    text
      "You are a careful assistant that answers questions strictly using the provided source excerpts. Every factual claim in your answer must be directly supported by at least one excerpt. If the excerpts don't contain enough information to answer, say so explicitly rather than guessing or using outside knowledge. Cite which excerpt(s) support each claim by their [N] marker."

module _ {F : Type 0} (count_tokens : Text → ℕ) (refuses : Text → Bool) where
  -- The tokenizer's `encode` is a ValueError for a text with a special token, and so is the prompt
  -- for which such a text is counted.
  unfoldable pub context_or_raise :
      Budgets → List (Ranked F) → List Turn → Result (Text × List (Ranked F))
  unfolding build_context counted_lines counted_excerpts
  context_or_raise budgets chunks history =
      if any refuses (
        counted_lines count_tokens budgets.history (reverse history) 0 ++ counted_excerpts 1 chunks)
      then raised value_error
      else ok (build_context count_tokens budgets chunks history)

module _ {W F : Type 0} (count_tokens : Text → ℕ) (refuses : Text → Bool) (llm : Llm W) where
  -- The prompt and `user_template.format(query=query)` stand outside the `try`.
  unfoldable pub generate_answer :
      (Text → Text → Result Text)
      → Budgets
      → Text
      → List (Ranked F)
      → List Turn
      → Exec W (Text × List (Ranked F))
  unfolding context_or_raise system_prompt
  generate_answer other_field budgets query chunks history = do
    context ← (λ w. (context_or_raise count_tokens refuses budgets chunks history, w))
    user_message ← (λ w. (format other_field query context.0, w))
    answer ← catch (llm system_prompt user_message) (λ _. fail generation)
    pure (answer, context.1)
