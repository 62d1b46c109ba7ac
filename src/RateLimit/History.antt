-- ===== src/RateLimit/History.antt =====
-- A limiter that remembers every admitted request, and its bound on each window.
use multimodal_rag.Prelude.{
  ℕ, ◌+◌, ◌≤◌, ◌≡◌, inl, inr, Bool, true, List, [], ◌∷◌, leb, ltb, ◌&&◌, tally, All, All-map,
  if◌then◌else◌, arith, Bool-cases,
}

-- how many of the admitted times are in the window of `window` milliseconds that ends at `t`
abbrev pub live : ℕ → ℕ → List ℕ → ℕ
live window t = tally (λ a. ltb t (a + window))

-- the times of `(t - window, t]`, also where later ones are admitted
abbrev pub in_window : ℕ → ℕ → List ℕ → ℕ
in_window window t = tally (λ a. ltb t (a + window) && leb a t)

-- A request is admitted if fewer than `limit` admitted ones are in the window that ends with it.
-- The admitted times are kept, the latest first.
abbrev pub admit : ℕ → ℕ → ℕ → List ℕ → Bool
admit limit window now history = ltb (live window now history) limit

unfoldable pub decide : ℕ → ℕ → List ℕ → List ℕ → List Bool
decide limit window [] history = []
decide limit window (now ∷ times) history =
    let allowed = admit limit window now history in
    allowed ∷ decide limit window times (if allowed then now ∷ history else history)

-- the admitted times after all requests
unfoldable pub admitted : ℕ → ℕ → List ℕ → List ℕ → List ℕ
admitted limit window [] history = history
admitted limit window (now ∷ times) history =
    admitted limit window times (if admit limit window now history then now ∷ history else history)

-- the clock does not go back, from a first time on
abbrev pub Rising : ℕ → List ℕ → Type 0
Rising last [] = Unit
Rising last (t ∷ ts) = (last ≤ t) × Rising t ts

in_window-le-live :
    (window t u : ℕ) (h : List ℕ)
    → t ≤ u
    → All (λ a. a ≤ t) h
    → in_window window u h ≤ live window t h
in_window-le-live window t u [] le all = omega arith
in_window-le-live window t u (a ∷ h) le all = ground (arith, in_window-le-live window t u h)

module _ (limit window : ℕ) where
  -- every window that ends anywhere holds at most `limit` of the times
  abbrev pub Bounded : List ℕ → Type 0
  Bounded h = (t : ℕ) → in_window window t h ≤ limit

  Bounded-admit :
      (now : ℕ) (h : List ℕ)
      → All (λ a. a ≤ now) h
      → admit limit window now h ≡ true
      → Bounded h
      → Bounded (now ∷ h)
  Bounded-admit now h all room b t = elim (Bool-cases (leb now t)) [
    | inl e ↦ ground (arith, in_window-le-live window now t h)
    | inr e ↦ ground (arith, b t)
  ]

  pub admitted-Bounded :
      (times : List ℕ) (last : ℕ) (h : List ℕ)
      → Rising last times
      → All (λ a. a ≤ last) h
      → Bounded h
      → Bounded (admitted limit window times h)
  unfolding admitted
  admitted-Bounded [] last h r all b = b
  admitted-Bounded (now ∷ times) last h r all b =
      let older : All (λ a. a ≤ now) h = All-map (λ a (p : a ≤ last). p_trans a p) h all in
      elim (Bool-cases (admit limit window now h)) [
        | inl e ↦ rw e (
            admitted-Bounded times now (now ∷ h) r.1 ((omega arith, older))
              (Bounded-admit now h older e b))
        | inr e ↦ rw e (admitted-Bounded times now h r.1 older b)
      ]
    where
      p_trans : (a : ℕ) → a ≤ last → a ≤ now
      p_trans a p = omega (arith, r.0)
