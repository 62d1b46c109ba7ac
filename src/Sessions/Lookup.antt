-- ===== src/Sessions/Lookup.antt =====
-- How `get_session` finds a row after other operations have updated the table.
use multimodal_rag.Prelude.{
  ◌≡◌, refl, ap, ◌∙◌, subst, inl, inr, Bool, some, List, [], ◌∷◌, map, keep, head?, Bool-cases,
  Option-cases, arith,
}
use multimodal_rag.Prelude.Text.{Text}
use multimodal_rag.Exec.{Result, ok, raised, ok-pair}
use multimodal_rag.Sessions.{Session, Store, is_of, found, get_session}

pub keep-map {ℓ} :
    {A : Type ℓ} (p : A → Bool) (f : A → A) (xs : List A)
    → ((x : A) → p (f x) ≡ p x)
    → keep p (map f xs) ≡ map f (keep p xs)
keep-map p f [] same = refl
keep-map p f (x ∷ xs) same = elim (Bool-cases (p x)) [
  | inl e ↦ rw (same x, e) (ap (λ l. f x ∷ l) (keep-map p f xs same))
  | inr e ↦ rw (same x, e) (keep-map p f xs same)
]

head?-map {ℓ} :
    {A : Type ℓ} (f : A → A) (xs : List A) (x : A)
    → head? xs ≡ some x
    → head? (map f xs) ≡ some (f x)
head?-map f [] x e = cc
head?-map f (y ∷ ys) x e = ground (arith)

module _ {C : Type 0} (user_id session_id : Text) where
  -- what a lookup that returns has found
  pub get_session-found :
      (session : Session) (s : Store C)
      → get_session user_id session_id s ≡ (ok session, s)
      → head? (keep (is_of user_id session_id) s.sessions) ≡ some session
  unfolding get_session
  get_session-found session s got =
      elim (Option-cases (head? (keep (is_of user_id session_id) s.sessions))) [
        | inl e ↦
            let bad : ◌≡◌ {A = Result Session × Store C} (raised _, s) (ok session, s) =
              subst (λ o. found o s ≡ (ok session, s)) e got in
            absurd cc
        | inr (x, e) ↦
            let good : ◌≡◌ {A = Result Session × Store C} (ok x, s) (ok session, s) =
              subst (λ o. found o s ≡ (ok session, s)) e got in
            e ∙ ap some (ok-pair x session s s good).0
      ]

  pub get_session-at :
      (session : Session) (s : Store C)
      → head? (keep (is_of user_id session_id) s.sessions) ≡ some session
      → get_session user_id session_id s ≡ (ok session, s)
  unfolding get_session
  get_session-at session s e = rw e refl

  -- An update that changes neither id nor owner is what a lookup finds afterwards.
  pub get_session-map :
      (f : Session → Session) (session : Session) (s t : Store C)
      → ((x : Session) → is_of user_id session_id (f x) ≡ is_of user_id session_id x)
      → t.sessions ≡ map f s.sessions
      → get_session user_id session_id s ≡ (ok session, s)
      → get_session user_id session_id t ≡ (ok (f session), t)
  get_session-map f session s t same rows got = get_session-at (f session) t (
      ap (λ l. head? (keep (is_of user_id session_id) l)) rows
      ∙ ap head? (keep-map (is_of user_id session_id) f s.sessions same)
      ∙ head?-map f (keep (is_of user_id session_id) s.sessions) session
          (get_session-found session s got))
