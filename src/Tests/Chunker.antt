-- ===== src/Tests/Chunker.antt =====
-- Chunks with one token for each character.
use multimodal_rag.Prelude.{
  ℕ, ◌+◌, ◌*◌, ◌/◌, ◌≡◌, refl, true, false, some, List, [], ◌∷◌, length, ◌==◌, ◌&&◌, arith,
  if◌then◌else◌,
}
use multimodal_rag.Prelude.Text.{Text, text}
use multimodal_rag.Errors.{value_error}
use multimodal_rag.Exec.{raised}
use multimodal_rag.Chunker.{Encoding, windows, chunk_text, snap_to_sentence_boundary}
use multimodal_rag.Chunker.Windows.{rebuilt, rebuilt-windows}

-- where a full stop and a blank end, counted from `at`
abbrev pub stops : ℕ → Text → List ℕ
stops at [] = []
stops at (c ∷ s) =
    let rest = stops (at + 1) s in
    if c == 46 && elim s [ [] ↦ false | d ∷ ds ↦ d == 32 ] then (at + 2) ∷ rest else rest

abbrev pub letters : Encoding
letters = record {
  encode = λ s. some s;
  decode = λ s. s;
  sentence_ends = stops 0;
  fifteen_percent = λ n. n * 15 / 100;
}

-- two windows of four tokens that share one, and the rest
windows_seven :
    windows letters 4 3 (text "abcdefg") 7 0 ≡ (text "abcd", false) ∷ (text "defg", true) ∷ []
unfolding windows text
windows_seven = refl

-- The only sentence of a text of 41 characters ends at 17, and the cut is at 8: the tail is shorter
-- than the 50 characters that are looked back.
snapped_short :
    snap_to_sentence_boundary letters (text "A piece of text. Then a second piece goes")
    ≡ text "A piece "
unfolding snap_to_sentence_boundary text
snapped_short = refl

chunked_bad_overlap : chunk_text letters 512 64 (text "abc") (some 4) (some 4) ≡ raised value_error
unfolding chunk_text text
chunked_bad_overlap = refl

rebuilt-windows_example :
    rebuilt 3 (windows letters 4 3 (text "abcdefg") (length (text "abcdefg")) 0) ≡ text "abcdefg"
rebuilt-windows_example = rebuilt-windows letters 4 3 (text "abcdefg") (omega arith) (omega arith)
