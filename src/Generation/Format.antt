-- ===== src/Generation/Format.antt =====
-- `str.format(query=query)`, on the template that `build_context` returns.
use multimodal_rag.Prelude.{
  ℕ, zero, suc, Bool, false, [], ◌∷◌, ◌++◌, ◌==◌, ◌≡◌, refl, any, All, if◌then◌else◌,
}
use multimodal_rag.Prelude.Text.{Text, text, starts_with}
use multimodal_rag.Errors.{other}
use multimodal_rag.Exec.{Result, ok, raised}

abbrev pub open_brace : ℕ
open_brace = 123

abbrev pub close_brace : ℕ
close_brace = 125

-- `{query` and a conversion, a format, an index or an attribute
unfoldable pub refines_query : Text → Bool
unfolding text starts_with
refines_query s = any (λ c. starts_with (text "query" ++ c ∷ []) s) (33 ∷ 58 ∷ 91 ∷ 46 ∷ [])

-- How many characters behind `c` belong to what `c` begins.
unfoldable pub width : ℕ → Text → ℕ
unfolding text starts_with
width c s =
    if c == open_brace
    then (if starts_with (open_brace ∷ []) s
        then 1
        else if starts_with (text "query}") s
        then 6
        else 0)
    else if c == close_brace
    then (if starts_with (close_brace ∷ []) s then 1 else 0)
    else 0

abbrev pub prepend : Text → Result Text → Result Text
prepend a (ok b) = ok (a ++ b)
prepend a (raised e) = raised e

-- What `c` gives, before the result of the text behind it. A field other than `query` is a
-- `KeyError` or an `IndexError`, and a brace that stands alone is a `ValueError`. From a field that
-- refines `query` on, the result is left to a parameter.
unfoldable pub piece : (Text → Text → Result Text) → Text → ℕ → Text → Result Text → Result Text
unfolding text starts_with refines_query
piece other_field query c s rest =
    if c == open_brace
    then (if starts_with (open_brace ∷ []) s
        then prepend (open_brace ∷ []) rest
        else if starts_with (text "query}") s
        then prepend query rest
        else if refines_query s
        then other_field query s
        else raised other)
    else if c == close_brace
    then (if starts_with (close_brace ∷ []) s
        then prepend (close_brace ∷ []) rest
        else raised other)
    else prepend (c ∷ []) rest

unfoldable pub format_from : (Text → Text → Result Text) → Text → ℕ → Text → Result Text
format_from other_field query skip [] = ok []
format_from other_field query zero (c ∷ s) =
    piece other_field query c s (format_from other_field query (width c s) s)
format_from other_field query (suc skip) (c ∷ s) = format_from other_field query skip s

unfoldable pub format : (Text → Text → Result Text) → Text → Text → Result Text
unfolding format_from piece width
format other_field query s = format_from other_field query 0 s

-- no character of the text is a brace
abbrev pub Plain : Text → Type 0
Plain = All (λ c. ((c == open_brace) ≡ false) × ((c == close_brace) ≡ false))

-- A prefix without braces is copied.
pub format-append :
    (other_field : Text → Text → Result Text) (query a s : Text)
    → Plain a
    → format other_field query (a ++ s) ≡ prepend a (format other_field query s)
unfolding format
format-append other_field query [] s h = copied (format_from other_field query 0 s)
  where
    copied : (r : Result Text) → r ≡ prepend [] r
    copied (ok b) = refl
    copied (raised e) = refl
format-append other_field query (c ∷ a) s h =
    rw (h.0.0, h.0.1)
      (rw (format-append other_field query a s h.1) (joined (format_from other_field query 0 s)))
  where
    joined : (r : Result Text) → prepend (c ∷ []) (prepend a r) ≡ prepend (c ∷ a) r
    joined (ok b) = refl
    joined (raised e) = refl
