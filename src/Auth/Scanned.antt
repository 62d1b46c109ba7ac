-- ===== src/Auth/Scanned.antt =====
-- The scan loop of logout_all, under what Redis documents of SCAN.
use multimodal_rag.Prelude.{
  ℕ, zero, suc, ◌+◌, ◌<◌, ◌≤◌, ◌≡◌, ◌≢◌, refl, sym, ap, ◌-◌, ◌∙◌, subst, true, false, Bool-cases,
  some, List, [], ◌∷◌, length, inl, inr, arith, ◌==◌, if◌then◌else◌, All,
}
use multimodal_rag.Prelude.Text.{Text, text_eq, text_eq_iff, member, starts_with}
use multimodal_rag.Auth.{Keys, KeysLaws}
use multimodal_rag.Auth.Scanning.{
  Scan, delete_keys, scan_loop, Deleted, cursor_at, page_at, FullIteration, Documented,
}

ne→==_false : (a b : ℕ) → a ≢ b → (a == b) ≡ false
ne→==_false a b h = ground arith

-- what holds for each fuel above the least holds for each that is enough
with_fuel :
    (least : ℕ) (P : ℕ → Type 0)
    → ((fuel : ℕ) → least ≤ fuel → P (suc fuel))
    → (fuel : ℕ) → suc least ≤ fuel
    → P fuel
with_fuel least P run zero enough = absurd (omega arith)
with_fuel least P run (suc fuel) enough = run fuel (omega arith)

module _ {K : Type 0} (redis : Keys K) (scan : Scan K) where
  module _ (laws : KeysLaws redis) where
    exists-delete_keys :
        (j : Text) (ks : List Text) (s : K)
        → redis.exists j (delete_keys redis scan ks s)
          ≡ (if member j ks then false else redis.exists j s)
    unfolding delete_keys member
    exists-delete_keys j [] s = refl
    exists-delete_keys j (k ∷ ks) s = ground (
      arith,
      exists-delete_keys j ks (redis.delete k s),
      laws.deleted k j s,
      text_eq_iff k j,
      text_eq_iff j k,
    )

    not-member_of_All :
        (prefix k : Text) (ks : List Text)
        → All (λ j. starts_with prefix j ≡ true) ks
        → starts_with prefix k ≡ false
        → member k ks ≡ false
    unfolding member
    not-member_of_All prefix k [] h e = refl
    not-member_of_All prefix k (j ∷ ks) h e = elim (Bool-cases (text_eq k j)) [
      | inl same ↦
          absurd (differ (subst (λ x. starts_with prefix x ≡ false) ((text_eq_iff k j).0 same) e))
      | inr other ↦ rw other (not-member_of_All prefix k ks h.1 e)
    ]
      where
        differ : starts_with prefix j ≡ false → ⊥
        differ f = cc (h.0)

    module _ (prefix : Text) (s : K) (documented : Documented redis scan prefix s) where
      -- the cursor and the state before each round of the loop
      unfoldable before : ℕ → ℕ × K
      unfolding delete_keys
      before zero = (0, s)
      before (suc i) =
          let (cursor, t) = before i in
          let (next, keys) = scan cursor prefix t in (next, delete_keys redis scan keys t)

      abbrev state : ℕ → K
      state i = (before i).1

      abbrev page : ℕ → List Text
      page i = (scan (before i).0 prefix (before i).1).1

      cursor_at-state : (i : ℕ) → cursor_at redis scan prefix state i ≡ (before i).0
      unfolding before cursor_at
      cursor_at-state zero = refl
      cursor_at-state (suc i) = ap (λ c. (scan c prefix (state i)).0) (cursor_at-state i)

      page_at-state : (i : ℕ) → page_at redis scan prefix state i ≡ page i
      page_at-state i = ap (λ c. (scan c prefix (state i)).1) (cursor_at-state i)

      exists-state :
          (k : Text) (i : ℕ)
          → redis.exists k (state (suc i))
            ≡ (if member k (page i) then false else redis.exists k (state i))
      unfolding before
      exists-state k i = exists-delete_keys k (page i) (state i)

      state-Deleted : (i : ℕ) → Deleted redis scan (state i) (state (suc i))
      state-Deleted i k h = ground (arith, exists-state k i)

      it : FullIteration redis scan prefix state
      unfolding before
      it = documented state refl state-Deleted

      -- a key that is there after some rounds is there before each of them
      earlier :
          (k : Text) (n i j : ℕ)
          → j ≡ n + i
          → redis.exists k (state j) ≡ true
          → redis.exists k (state i) ≡ true
      earlier k zero i j e h = subst (λ m. redis.exists k (state m) ≡ true) (omega arith) h
      earlier k (suc n) i j e h =
          earlier k n i (n + i) refl
            (state-Deleted (n + i) k (subst (λ m. redis.exists k (state m) ≡ true) (omega arith) h))

      at_rounds :
          (k : Text) (i : ℕ)
          → i ≤ it.calls
          → redis.exists k (state it.calls) ≡ true
          → redis.exists k (state i) ≡ true
      at_rounds k i le h = earlier k (it.calls - i) i it.calls (omega arith) h

      matching-gone :
          (k : Text) → starts_with prefix k ≡ true → redis.exists k (state it.calls) ≡ false
      matching-gone k match = elim (Bool-cases (redis.exists k (state it.calls))) [
        | inr gone ↦ gone
        | inl there ↦
            let (i, lt, listed) = it.complete k match (λ i lt. at_rounds k i (omega arith) there) in
            let here : member k (page i) ≡ true = rw (sym (page_at-state i)) listed in
            let still : redis.exists k (state (suc i)) ≡ true =
              at_rounds k (suc i) (omega arith) there in
            absurd (ground (arith, exists-state k i))
      ]

      others-kept :
          (k : Text) (i : ℕ)
          → starts_with prefix k ≡ false
          → redis.exists k (state i) ≡ redis.exists k s
      unfolding before
      others-kept k zero other = refl
      others-kept k (suc i) other =
          let listed : All (λ j. starts_with prefix j ≡ true) (page i) =
            subst (λ l. All (λ j. starts_with prefix j ≡ true) l) (page_at-state i)
              (it.matching i) in
          exists-state k i
          ∙ rw (not-member_of_All prefix k (page i) listed other) (others-kept k i other)

      more_rounds :
          (i deleted fuel : ℕ)
          → suc i < it.calls
          → scan_loop redis scan (suc fuel) prefix (before i).0 deleted (state i)
            ≡ scan_loop redis scan fuel prefix
                (before (suc i)).0
                (deleted + length (page i))
                (state (suc i))
      unfolding before scan_loop
      more_rounds i deleted fuel more =
          let onward : (before (suc i)).0 ≢ 0 =
            subst (λ c. c ≢ 0) (cursor_at-state (suc i)) (it.goes_on i more) in
          rw (ne→==_false (before (suc i)).0 0 onward) refl

      last_round :
          (i deleted fuel : ℕ)
          → suc i ≡ it.calls
          → scan_loop redis scan (suc fuel) prefix (before i).0 deleted (state i)
            ≡ (some (deleted + length (page i)), state it.calls)
      unfolding before scan_loop
      last_round i deleted fuel last =
          let back : (before (suc i)).0 ≡ 0 =
            sym (cursor_at-state (suc i))
            ∙ subst (λ j. cursor_at redis scan prefix state j ≡ 0) (sym last) it.comes_back in
          subst
            (λ j.
              scan_loop redis scan (suc fuel) prefix (before i).0 deleted (state i)
              ≡ (some (deleted + length (page i)), state j))
            last (rw back refl)

      -- With fuel for the rounds that are left the loop ends after the last of them.
      loop-rounds :
          (left i deleted : ℕ)
          → suc left + i ≡ it.calls
          → (n : ℕ) × ((fuel : ℕ)
              → suc left ≤ fuel
              → scan_loop redis scan fuel prefix (before i).0 deleted (state i)
                ≡ (some n, state it.calls))
      loop-rounds zero i deleted e = (
        deleted + length (page i),
        with_fuel 0 _ (λ fuel enough. last_round i deleted fuel (omega arith)),
      )
      loop-rounds (suc left) i deleted e =
          let (n, runs) = loop-rounds left (suc i) (deleted + length (page i)) (omega arith) in
          (
            n,
            with_fuel (suc left) _
                (λ fuel enough. more_rounds i deleted fuel (omega arith) ∙ runs fuel enough),
          )

      pub scan_loop_lem :
          (n rounds : ℕ) × (u : K) × ((fuel : ℕ)
            → rounds ≤ fuel
            → scan_loop redis scan fuel prefix 0 0 s ≡ (some n, u))
          × ((k : Text)
              → redis.exists k u ≡ (if starts_with prefix k then false else redis.exists k s))
      unfolding before
      scan_loop_lem =
          let (n, runs) = loop-rounds (it.calls - 1) 0 0 (omega (arith, it.some_call)) in
          (
            n,
            it.calls,
            state it.calls,
            λ fuel enough. runs fuel (omega (arith, it.some_call)),
            λ k. elim (Bool-cases (starts_with prefix k)) [
              | inr other ↦ rw other (others-kept k it.calls other)
              | inl match ↦ rw match (matching-gone k match)
            ],
          )
