-- ===== src/Sessions/Closing.antt =====
-- Ending a session by the route.
use multimodal_rag.Prelude.{
  ◌≡◌, inl, inr, refl, ap, subst, false, Option, none, some, List, [], ◌∷◌, keep, head?, Bool-cases,
  if◌then◌else◌, arith,
}
use multimodal_rag.Prelude.Text.{Text}
use multimodal_rag.Sessions.{summarization_pending, Session, Store, is_of}
use multimodal_rag.Sessions.Route.{ends, set_status, update_where, transition, end_route}

module _ (user_id session_id : Text) where
  keep-ended :
      (xs : List Session)
      → keep
          (ends user_id session_id)
          (update_where (ends user_id session_id) summarization_pending xs)
        ≡ []
  keep-ended [] = refl
  keep-ended (x ∷ xs) = elim (Bool-cases (ends user_id session_id x)) [
    | inl e ↦
        let off : ends user_id session_id (set_status summarization_pending x) ≡ false =
          ground arith in
        rw (e, off) (keep-ended xs)
    | inr e ↦ rw (e, e) (keep-ended xs)
  ]

  update-nothing :
      (xs : List Session)
      → keep (ends user_id session_id) xs ≡ []
      → update_where (ends user_id session_id) summarization_pending xs ≡ xs
  update-nothing [] none_of = refl
  update-nothing (x ∷ xs) none_of = elim (Bool-cases (ends user_id session_id x)) [
    | inl e ↦
        let bad : x ∷ keep (ends user_id session_id) xs ≡ [] =
          subst
            (λ b.
              (if b
                then x ∷ keep (ends user_id session_id) xs
                else keep (ends user_id session_id) xs)
              ≡ [])
            e none_of in
        absurd cc
    | inr e ↦
        let rest : keep (ends user_id session_id) xs ≡ [] =
          subst
            (λ b.
              (if b
                then x ∷ keep (ends user_id session_id) xs
                else keep (ends user_id session_id) xs)
              ≡ [])
            e none_of in
        rw e (ap (λ l. x ∷ l) (update-nothing xs rest))
  ]

  module _ {C : Type 0} where
    -- without an active session of the user the route changes nothing
    end_route-idle :
        (s : Store C)
        → keep (ends user_id session_id) s.sessions ≡ []
        → (end_route user_id session_id s).1 ≡ s
    unfolding end_route
    end_route-idle s idle =
        rw (idle, update-nothing s.sessions idle)
          (after (head? (keep (is_of user_id session_id) s.sessions)))
      where
        after : (o : Option Session) → (transition session_id none o s).1 ≡ s
        after none = refl
        after (some x) = refl

    -- A second call of the route changes nothing: whoever calls it, and whatever the status was, a
    -- session is enqueued for summarization at most once.
    pub end_route-twice :
        (s : Store C)
        → (end_route user_id session_id (end_route user_id session_id s).1).1
          ≡ (end_route user_id session_id s).1
    unfolding end_route
    end_route-twice s =
        end_route-idle (end_route user_id session_id s).1
          (go (keep (ends user_id session_id) s.sessions) refl)
      where
        go :
            (l : List Session)
            → keep (ends user_id session_id) s.sessions ≡ l
            → keep (ends user_id session_id) (end_route user_id session_id s).1.sessions ≡ []
        go [] e = rw (ap (λ t. t.sessions) (end_route-idle s e)) e
        go (x ∷ xs) e = rw e (keep-ended s.sessions)
