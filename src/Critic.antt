-- ===== src/Critic.antt =====
-- app/services/critic_service.py: the groundedness check, and how its answer is read.
pub mod Fences
pub mod Closed
use mathlib.Core.List.{reverse}
use multimodal_rag.Prelude.{
  ℕ, zero, suc, Bool, true, false, Option, none, some, List, [], ◌∷◌, ◌++◌, ◌==◌, map,
  if◌then◌else◌,
}
use multimodal_rag.Prelude.Text.{Text, text, text_eq, strip, starts_with, join, show}
use multimodal_rag.Json
use multimodal_rag.Json.{Json, Fields, null, bool, num, str, arr, obj}
use multimodal_rag.Errors.{Exception, app, http, value_error, other, generation}
use multimodal_rag.Exec.{Result, ok, raised, Exec, pure, fail, continue, ◌>>=◌}
use multimodal_rag.Reranker.{Ranked}

abbrev pub newline : ℕ
newline = 10

-- `s.split("\n")`, as its first line and the rest
abbrev pub push_char : ℕ → Text × List Text → Text × List Text
push_char c (line, rest) = if c == newline then ([], line ∷ rest) else (c ∷ line, rest)

unfoldable pub split_lines : Text → Text × List Text
split_lines [] = ([], [])
split_lines (c ∷ s) = push_char c (split_lines s)

unfoldable pub fence : Text
unfolding text
fence = text "```"

-- `if lines and lines[-1].strip() == "```": lines = lines[:-1]`
unfoldable pub drop_fence : List Text → List Text
unfolding fence strip text_eq
drop_fence [] = []
drop_fence (l ∷ []) = if text_eq (strip l) fence then [] else l ∷ []
drop_fence (l ∷ m ∷ ls) = l ∷ drop_fence (m ∷ ls)

-- `lines[0]` starts with the fence because the text does, so the first line always goes.
unfoldable pub strip_json_fences : Text → Text
unfolding strip starts_with fence split_lines drop_fence join text
strip_json_fences s =
    let t = strip s in
    if starts_with fence t
    then strip (join (newline ∷ []) (drop_fence (split_lines t).1))
    else strip t

-- `verdict`: whether `result` is PASS, and `unsupported_claims` where it is there
pub record Verdict : Type 0 where
  pub passed : Bool
  pub unsupported : Option Json

-- what the block under `try` ends in: a verdict, an error that fails closed (`JSONDecodeError`,
-- `ValueError`, `KeyError`), or any other exception
pub data Reading : Type 0 where
  read : Verdict → Reading
  unparseable : Reading
  broken : Reading

-- `len(verdict.get("unsupported_claims", []))` is a `TypeError` for what has no length.
abbrev pub has_len : Option Json → Bool
has_len none = true
has_len (some (str s)) = true
has_len (some (arr xs)) = true
has_len (some (obj fs)) = true
has_len (some null) = false
has_len (some (bool b)) = false
has_len (some (num s)) = false

abbrev pub sized : Verdict → Reading
sized v = if has_len v.unsupported then read v else broken

-- `verdict.get("result") not in ("PASS", "FAIL")`
abbrev pub read_result : Option Json → Option Json → Reading
read_result (some (str s)) claims =
    if text_eq s (text "PASS")
    then sized (record { passed = true; unsupported = claims })
    else if text_eq s (text "FAIL")
    then sized (record { passed = false; unsupported = claims })
    else unparseable
read_result _ claims = unparseable

-- `verdict.get` is an `AttributeError` on a value that is no dict.
abbrev pub read_value : Option Json → Reading
read_value none = unparseable
read_value (some (obj fs)) =
    read_result (Json.get (text "result") fs) (Json.get (text "unsupported_claims") fs)
read_value (some _) = broken

-- `json.loads` is an argument: none is a `JSONDecodeError`. No content is an `AttributeError`.
unfoldable pub read_response : (Text → Option Json) → Option Text → Reading
unfolding strip_json_fences text text_eq Json.get
read_response loads none = broken
read_response loads (some raw_text) = read_value (loads (strip_json_fences raw_text))

-- The critic's model: the user message in, the content of the first choice out.
abbrev pub CriticLlm : Type 0 → Type 0
CriticLlm W = Text → Exec W (Option Text)

-- `enumerate(chunks_used, start=1)`
unfoldable pub numbered : {F : Type 0} → ℕ → List (Ranked F) → List Text
unfolding text show
numbered i [] = []
numbered i (c ∷ cs) = (text "[" ++ show i ++ text "] " ++ c.fused.hit.content) ∷ numbered (suc i) cs

unfoldable pub sources_text : {F : Type 0} → List (Ranked F) → Text
unfolding numbered text join
sources_text [] = text "(no source excerpts were available)"
sources_text (c ∷ cs) = join (text "\n\n") (numbered 1 (c ∷ cs))

unfoldable pub critic_message : {F : Type 0} → Text → List (Ranked F) → Text
unfolding text sources_text
critic_message answer chunks_used =
    text "### Source excerpts:\n"
    ++ sources_text chunks_used
    ++ text "\n\n### Answer to check:\n"
    ++ answer

-- the verdict of a response that cannot be read
abbrev pub failed_closed : Verdict
failed_closed = record { passed = false; unsupported = some (arr Json.nil) }

abbrev pub conclude : Reading → Result Verdict
conclude (read v) = ok v
conclude unparseable = ok failed_closed
conclude broken = raised (app generation)

-- The first `except` covers the call too: what it catches of it (`JSONDecodeError`, `ValueError`,
-- `KeyError`) is `value_error` here and fails closed.
abbrev pub failed_call : Exception → Result Verdict
failed_call value_error = ok failed_closed
failed_call (app e) = raised (app generation)
failed_call (http n m) = raised (app generation)
failed_call other = raised (app generation)

abbrev pub judge :
    {W : Type 0} → (Text → Option Json) → Result (Option Text) × W → Result Verdict × W
judge loads (ok content, w) = (conclude (read_response loads content), w)
judge loads (raised e, w) = (failed_call e, w)

unfoldable pub check_groundedness :
    {W F : Type 0} → (Text → Option Json) → CriticLlm W → Text → List (Ranked F) → Exec W Verdict
unfolding critic_message read_response
check_groundedness loads llm answer chunks_used w =
    judge loads (llm (critic_message answer chunks_used) w)
