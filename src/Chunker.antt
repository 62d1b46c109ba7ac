-- ===== src/Chunker.antt =====
-- app/ingestion/chunker.py: overlapping chunks by token count, cut at ends of sentences.
pub mod Windows
use multimodal_rag.Prelude.{
  ℕ, zero, suc, ◌+◌, ◌-◌, ◌≤◌, ◌≡◌, min, max, Bool, true, false, Option, none, some, List, [], ◌∷◌,
  ◌++◌, map, keep, length, take, drop, last_n, leb, ltb, not, if◌then◌else◌,
}
use multimodal_rag.Prelude.Text.{Text, strip}
use multimodal_rag.Errors.{value_error}
use multimodal_rag.Exec.{Result, ok, raised}

-- `tiktoken`'s encoding, where none is the ValueError for a text with a special token, the ends of the matches of `[.!?]\s` in a text in order, and
-- `int(n * 0.15)`.
pub record Encoding : Type 0 where
  pub encode : Text → Option (List ℕ)
  pub decode : List ℕ → Text
  pub sentence_ends : Text → List ℕ
  pub fifteen_percent : ℕ → ℕ

abbrev pub last_of : List ℕ → Option ℕ
last_of [] = none
last_of (x ∷ xs) = elim xs [ [] ↦ some x | y ∷ ys ↦ last_of xs ]

-- `s[:len(s) - lookback + end]`: a bound below zero counts from the end
abbrev pub cut : Text → ℕ → Option ℕ → Text
cut s lookback none = s
cut s lookback (some last_end) =
    if leb lookback (length s + last_end)
    then take (length s + last_end - lookback) s
    else take (length s - (lookback - (length s + last_end))) s

module _ (encoding : Encoding) where
  unfoldable pub snap_to_sentence_boundary : Text → Text
  snap_to_sentence_boundary s =
      let lookback_chars = max 50 (encoding.fifteen_percent (length s)) in
      cut s lookback_chars (last_of (encoding.sentence_ends (last_n lookback_chars s)))

  -- The windows of tokens, each with whether it ends the text. The fuel is the number of tokens: each
  -- round starts at a later one.
  unfoldable pub windows : ℕ → ℕ → List ℕ → ℕ → ℕ → List (List ℕ × Bool)
  windows chunk_size stride tokens zero start = []
  windows chunk_size stride tokens (suc fuel) start =
      let rest = windows chunk_size stride tokens fuel (start + stride) in
      let end = min (start + chunk_size) (length tokens) in
      let window = take (end - start) (drop start tokens) in
      if ltb start (length tokens)
      then (if leb (length tokens) end then (window, true) ∷ [] else (window, false) ∷ rest)
      else []

  abbrev pub chunk_of : List ℕ × Bool → Text
  chunk_of (window, true) = strip (encoding.decode window)
  chunk_of (window, false) = strip (snap_to_sentence_boundary (encoding.decode window))

  abbrev pub is_empty : Text → Bool
  is_empty [] = true
  is_empty (c ∷ s) = false

  abbrev pub or_setting : Option ℕ → ℕ → ℕ
  or_setting none d = d
  or_setting (some zero) d = d
  or_setting (some (suc n)) d = suc n

  abbrev pub chunks_of : ℕ → ℕ → Option (List ℕ) → Result (List Text)
  chunks_of size repeated none = raised value_error
  chunks_of size repeated (some tokens) = ok (
      keep (λ c. not (is_empty c))
        (map chunk_of (windows size (size - repeated) tokens (length tokens) 0)))

  -- `default_size` and `default_overlap` are of the settings
  unfoldable pub chunk_text : ℕ → ℕ → Text → Option ℕ → Option ℕ → Result (List Text)
  unfolding windows snap_to_sentence_boundary strip
  chunk_text default_size default_overlap text chunk_size overlap =
      let size = or_setting chunk_size default_size in
      let repeated = or_setting overlap default_overlap in
      if leb size repeated
      then raised value_error
      else chunks_of size repeated (encoding.encode text)
