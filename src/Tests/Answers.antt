-- ===== src/Tests/Answers.antt =====
-- Prompts, answers and critic responses at concrete texts.
use mathlib.Core.List.{reverse}
use multimodal_rag.Prelude.{
  ℕ, ◌+◌, ◌≤◌, ◌<◌, ◌≡◌, refl, ◌==◌, if◌then◌else◌, arith, Bool, true, false, Option, none, some,
  List, [], ◌∷◌, ◌++◌, map, length,
}
use multimodal_rag.Prelude.Text.{Text, text, join, strip, starts_with}
use multimodal_rag.Json
use multimodal_rag.Json.{Json, Fields, obj, str, arr, nil, field, end}
use multimodal_rag.Errors.{other}
use multimodal_rag.Exec.{Result, ok, raised}
use multimodal_rag.Reranker.{Ranked}
use multimodal_rag.Generation.{
  Turn, Budgets, excerpt, user_template, build_context, counted_lines, counted_excerpts,
  generate_answer, system_prompt,
}
use multimodal_rag.Generation.Budget.{
  Full, Selection, turn_cost, excerpt_cost, lines, build_context_lem,
}
use multimodal_rag.Generation.Answer.{generate_answer-Plain, generate_answer-braces, answered}
use multimodal_rag.Generation.Format.{Plain}
use multimodal_rag.Critic.{
  Verdict, CriticLlm, check_groundedness, critic_message, fence, newline, strip_json_fences,
}
use multimodal_rag.Critic.Closed.{check_groundedness-passed}
use multimodal_rag.Critic.Fences.{strip_json_fences-fenced}
use multimodal_rag.Tests.Samples.{hit, ranked_of, turn, llm}

-- budgets of thirty characters
abbrev budgets : Budgets
budgets = record { history = 30; chunks = 60 }

abbrev history : List Turn
history = turn (text "an old question of some length") ∷ turn (text "hello") ∷ []

abbrev chunks : List (Ranked ℕ)
chunks =
    ranked_of (hit (1 ∷ []) (text "short"))
    ∷ ranked_of (hit (2 ∷ []) (text "a chunk that is far too long for the budget"))
    ∷ ranked_of (hit (3 ∷ []) (text "brief"))
    ∷ []

build_context_lem_example :
    (older recent : List Turn) × (es : List (Text × Ranked ℕ)) × (history ≡ older ++ recent)
    × (turn_cost length recent ≤ 30)
    × Full length 30 (turn_cost length recent) (reverse older)
    × Selection (λ i c. 60 < excerpt_cost length es + length (excerpt i c)) 1 chunks es
    × (excerpt_cost length es ≤ 60)
    × (build_context length budgets chunks history
        ≡ (user_template (lines recent) (join (text "\n") (map (λ e. e.0) es)), map (λ e. e.1) es))
build_context_lem_example = build_context_lem length budgets chunks history

-- The second chunk is skipped, and the third keeps its marker: the critic will number it 2.
skipped_marker :
    (build_context length budgets chunks history).0
    ≡ user_template
        (text "User: hello\n")
        (text "[1] (source: f.pdf)\nshort\n\n[3] (source: f.pdf)\nbrief\n")
unfolding build_context join
skipped_marker = refl

abbrev no_field : Text → Text → Result Text
no_field s q = raised other

abbrev opening : Text
opening =
    text
      "### Conversation so far:\n(no prior turns)\n\n### Source excerpts:\n(no relevant sources found)\n\n### Question:\n"

abbrev is_plain : Text → Bool
is_plain [] = true
is_plain (c ∷ s) = if c == 123 then false else if c == 125 then false else is_plain s

Plain-of : (a : Text) → is_plain a ≡ true → Plain a
Plain-of [] h = tt
Plain-of (c ∷ a) h = (ground arith, Plain-of a (ground arith))

generate_answer-Plain_example :
    generate_answer {F = ℕ} length (λ t. false) llm no_field budgets (text "why?") [] [] 0
    ≡ answered {F = ℕ} length
        (λ t. false)
        llm
        no_field
        budgets
        (text "why?")
        []
        []
        0
        (llm system_prompt (opening ++ text "why?") 0)
unfolding build_context counted_lines counted_excerpts text join
generate_answer-Plain_example =
    generate_answer-Plain {F = ℕ} length (λ t. false) llm no_field budgets (text "why?") [] [] 0
      opening refl (Plain-of opening refl)

-- a retrieved chunk that quotes JSON
abbrev json_chunk : List (Ranked ℕ)
json_chunk = ranked_of (hit (1 ∷ []) (text "{\"id\": 7}")) ∷ []

abbrev before_brace : Text
before_brace =
    text "### Conversation so far:\n(no prior turns)\n\n### Source excerpts:\n[1] (source: f.pdf)\n"

abbrev after_brace : Text
after_brace = text "\"id\": 7}\n\n\n### Question:\n{query}"

generate_answer-braces_run :
    generate_answer length (λ t. false) llm no_field budgets (text "why?") json_chunk [] 0
    ≡ (raised other, 0)
unfolding build_context counted_lines counted_excerpts text starts_with join
generate_answer-braces_run =
    generate_answer-braces length (λ t. false) llm no_field budgets (text "why?") json_chunk [] 0
      before_brace after_brace refl refl (Plain-of before_brace refl) refl refl

-- a critic whose model always answers with a fenced PASS
abbrev passing : Fields
passing = field (text "result") (str (text "PASS")) end

abbrev critic_llm : CriticLlm ℕ
critic_llm message w = (ok (some (text "PASS")), w + 1)

abbrev loads_pass : Text → Option Json
loads_pass s = some (obj passing)

abbrev passed_verdict : Verdict
passed_verdict = record { passed = true; unsupported = none }

critic_passes : check_groundedness loads_pass critic_llm [] chunks 0 ≡ (ok passed_verdict, 1)
unfolding check_groundedness
critic_passes = refl

check_groundedness-passed_example :
    (raw : Text) × (fs : Fields) × (critic_llm (critic_message [] chunks) 0 ≡ (ok (some raw), 1))
    × (loads_pass (strip_json_fences raw) ≡ some (obj fs))
    × (Json.get (text "result") fs ≡ some (str (text "PASS")))
check_groundedness-passed_example =
    check_groundedness-passed loads_pass critic_llm [] chunks 0 passed_verdict 1 critic_passes refl

abbrev loads_nothing : Text → Option Json
loads_nothing s = none

strip_json_fences-fenced_run :
    strip_json_fences (fence ++ text "json" ++ newline ∷ (text " {}" ++ newline ∷ fence))
    ≡ strip (text " {}")
unfolding text
strip_json_fences-fenced_run =
    strip_json_fences-fenced (text "json") (text " {}") (refl, (refl, (refl, (refl, tt))))

fenced_run : strip_json_fences (text "```json\n {}\n```\n") ≡ text "{}"
unfolding strip_json_fences
fenced_run = refl
