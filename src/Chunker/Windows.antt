-- ===== src/Chunker/Windows.antt =====
-- The windows cover the tokens, and what the cut at a sentence keeps.
use multimodal_rag.Prelude.{
  ℕ, zero, suc, ◌+◌, ◌-◌, ◌≤◌, ◌≡◌, min, inl, inr, refl, sym, ap, ◌∙◌, Bool, true, false, List, [],
  ◌∷◌, ◌++◌, length, take, drop, drop-drop, drop_all, length-drop, leb, ltb, arith, Bool-cases,
}
use multimodal_rag.Chunker.{Encoding, windows}

take_all {ℓ} : {A : Type ℓ} (n : ℕ) (xs : List A) → length xs ≤ n → take n xs ≡ xs
take_all zero [] h = refl
take_all zero (x ∷ xs) h = absurd (omega arith)
take_all (suc n) [] h = refl
take_all (suc n) (x ∷ xs) h = ap (λ l. x ∷ l) (take_all n xs (omega arith))

take-take {ℓ} : {A : Type ℓ} (m n : ℕ) (xs : List A) → m ≤ n → take m (take n xs) ≡ take m xs
take-take zero n xs h = refl
take-take (suc m) zero xs h = absurd (omega arith)
take-take (suc m) (suc n) [] h = refl
take-take (suc m) (suc n) (x ∷ xs) h = ap (λ l. x ∷ l) (take-take m n xs (omega arith))

take-drop {ℓ} : {A : Type ℓ} (n : ℕ) (xs : List A) → take n xs ++ drop n xs ≡ xs
take-drop zero xs = refl
take-drop (suc n) [] = refl
take-drop (suc n) (x ∷ xs) = ap (λ l. x ∷ l) (take-drop n xs)

-- The text that the windows stand for: of each window the part before the next one starts, and the
-- last one whole.
abbrev pub rebuilt : ℕ → List (List ℕ × Bool) → List ℕ
rebuilt stride [] = []
rebuilt stride ((window, true) ∷ ws) = window
rebuilt stride ((window, false) ∷ ws) = take stride window ++ rebuilt stride ws

module _ (encoding : Encoding) (chunk_size stride : ℕ) (tokens : List ℕ) where
  -- With a stride of at least one token and no longer than a chunk, no token is lost between the
  -- windows from a start on, and the fuel suffices.
  rebuilt-windows_from :
      (fuel start : ℕ)
      → 1 ≤ stride
      → stride ≤ chunk_size
      → length tokens ≤ start + fuel
      → rebuilt stride (windows encoding chunk_size stride tokens fuel start) ≡ drop start tokens
  unfolding windows
  rebuilt-windows_from zero start one small enough = sym (drop_all start tokens (omega arith))
  rebuilt-windows_from (suc fuel) start one small enough =
      elim (Bool-cases (ltb start (length tokens))) [
        | inr done ↦ rw done (sym (drop_all start tokens (ground arith)))
        | inl more ↦
            elim (Bool-cases (leb (length tokens) (min (start + chunk_size) (length tokens)))) [
              | inl last ↦
                  let all : length (drop start tokens)
                      ≤ min (start + chunk_size) (length tokens) - start =
                    ground (arith, length-drop start tokens) in
                  rw (more, last) (take_all _ (drop start tokens) all)
              | inr next ↦
                  let end : min (start + chunk_size) (length tokens) - start ≡ chunk_size =
                    ground arith in
                  let ih = rebuilt-windows_from fuel (start + stride) one small (omega arith) in
                  rw (more, next, end, ih)
                    (ap (λ l. l ++ drop (start + stride) tokens)
                        (take-take stride chunk_size (drop start tokens) small)
                      ∙ ap (λ l. take stride (drop start tokens) ++ l)
                          (sym (drop-drop stride start tokens))
                      ∙ take-drop stride (drop start tokens))
            ]
      ]

  -- The windows of a text cover all its tokens in order: each with the next one starts `stride`
  -- tokens later, and the last one ends with the text. This is for a stride of at least one token that
  -- is no longer than a chunk, as `chunk_text` has it.
  pub rebuilt-windows :
      1 ≤ stride
      → stride ≤ chunk_size
      → rebuilt stride (windows encoding chunk_size stride tokens (length tokens) 0) ≡ tokens
  rebuilt-windows one small = rebuilt-windows_from (length tokens) 0 one small (omega arith)
