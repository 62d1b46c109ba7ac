-- ===== src/Tests/RateLimit.antt =====
-- The limiter over a store with one key, as a list of entries and a deadline.
use multimodal_rag.Prelude.{
  ℕ, suc, ◌+◌, ◌*◌, ◌≤◌, ◌≡◌, ◌≢◌, ◌⊎◌, inl, inr, refl, sym, subst, ap, Bool, true, false, Option,
  none, some, List, [], ◌∷◌, leb, ltb, ◌==◌, keep, length, All, All-map, if◌then◌else◌, arith,
  Bool-cases,
}
use multimodal_rag.Prelude.Text.{text}
use multimodal_rag.Exec.{ok}
use multimodal_rag.RateLimit.{Entry, Zsets, Added, ZsetLaws, sliding_window_check, run}
use multimodal_rag.RateLimit.History.{in_window, decide}
use multimodal_rag.RateLimit.Window.{run_lem}
use multimodal_rag.RateLimit.Bound.{granted, run-Bounded, sliding_window_check_lem}

abbrev Store : Type 0
Store = List Entry × Option ℕ

-- the entry that `before` puts first, and the others
unfoldable select : (Entry → Entry → Bool) → Entry → List Entry → Entry × List Entry
select before e [] = (e, [])
select before e (x ∷ es) =
    let best = select before x es in if before e best.0 then (e, x ∷ es) else (best.0, e ∷ best.1)

select-Added :
    (before : Entry → Entry → Bool) (e : Entry) (es : List Entry)
    → Added (select before e es).0 (select before e es).1 (e ∷ es)
unfolding select
select-Added before e [] = record { before = []; after = []; old = refl; new = refl }
select-Added before e (x ∷ es) = elim (Bool-cases (before e (select before x es).0)) [
  | inl b ↦ rw b (record { before = []; after = x ∷ es; old = refl; new = refl })
  | inr b ↦
      let a = select-Added before x es in
      rw b (record {
        before = e ∷ a.before;
        after = a.after;
        old = ap (λ l. e ∷ l) a.old;
        new = ap (λ l. e ∷ l) a.new;
      })
]

abbrev later : Entry → Entry → Bool
later e x = leb x.1 e.1

abbrev earlier : Entry → Entry → Bool
earlier e x = leb e.1 x.1

select-later : (e : Entry) (es : List Entry) → All (λ x. x.1 ≤ (select later e es).0.1) (e ∷ es)
unfolding select
select-later e [] = (omega arith, tt)
select-later e (x ∷ es) = elim (Bool-cases (later e (select later x es).0)) [
  | inl b ↦
      let le : (select later x es).0.1 ≤ e.1 = ground arith in
      let best : select later e (x ∷ es) ≡ (e, x ∷ es) = rw b refl in
      subst (λ r. All (λ y. y.1 ≤ r.0.1) (e ∷ x ∷ es)) (sym best)
        (
          omega arith,
          All-map (λ y (p : y.1 ≤ (select later x es).0.1). up y.1 p le) (x ∷ es)
              (select-later x es),
        )
  | inr b ↦
      let le : e.1 ≤ (select later x es).0.1 = ground arith in
      let best : select later e (x ∷ es) ≡ ((select later x es).0, e ∷ (select later x es).1) =
        rw b refl in
      subst (λ r. All (λ y. y.1 ≤ r.0.1) (e ∷ x ∷ es)) (sym best) (le, select-later x es)
]
  where
    up : (y : ℕ) → y ≤ (select later x es).0.1 → (select later x es).0.1 ≤ e.1 → y ≤ e.1
    up y p le = omega arith

abbrev pop : Store → Store
pop ([], d) = ([], d)
pop (e ∷ es, d) = ((select later e es).1, d)

abbrev first : List Entry → Option Entry
first [] = none
first (e ∷ es) = some (select earlier e es).0

abbrev name_of : Option Entry → Option ℕ
name_of none = none
name_of (some e) = some e.0

abbrev score_of : ℕ → Option Entry → List Entry → Option ℕ
score_of m none es = none
score_of m (some e) es =
    if e.0 == m
    then some e.1
    else elim (first (keep (λ x. x.0 == m) es)) [ none ↦ none | some x ↦ some x.1 ]

abbrev total : List Entry → ℕ
total [] = 0
total (e ∷ es) = e.0 + total es

abbrev at_time : ℕ → Option ℕ → Store → Store
at_time now none s = s
at_time now (some d) s = if leb d now then ([], none) else s

abbrev store : Zsets Store
store = record {
  zremrangebyscore = λ k c s. (keep (λ e. ltb c e.1) s.0, s.1);
  zcard = λ k s. length s.0;
  zadd_new = λ k t s. ((suc (total s.0), t) ∷ s.0, s.1);
  expire = λ k n now s. (s.0, some (now + n * 1000));
  zpopmax = λ k s. pop s;
  zrange_first = λ k s. name_of (first s.0);
  zscore = λ k m s. score_of m (first s.0) s.0;
  entries = λ k s. s.0;
  deadline = λ k s. s.1;
  passes = λ now s. at_time now s.1 s;
}

store-ZsetLaws : ZsetLaws store
store-ZsetLaws = record {
  removed = λ k c s. refl;
  counted = λ k s. refl;
  added = λ k t s. (_, record { before = []; after = s.0; old = refl; new = refl });
  kept = λ k n now s. refl;
  popped = λ k s full. pops s.0 s.1 full;
  first = λ k s full. finds s.0 s.1 full;
  deadline_set = λ k n now s. refl;
  deadline_kept = λ k s full. same_deadline s.0 s.1;
  passed = λ k now s. goes now s.0 s.1;
}
  where
    pops :
        (es : List Entry) (d : Option ℕ)
        → es ≢ []
        → (e : Entry) × Added e (pop (es, d)).0 es × All (λ x. x.1 ≤ e.1) es
    pops [] d full = absurd (full refl)
    pops (e ∷ es) d full = ((select later e es).0, select-Added later e es, select-later e es)

    finds :
        (es : List Entry) (d : Option ℕ)
        → es ≢ []
        → (e : Entry) × (rest : List Entry) × Added e rest es
          × (name_of (first es) ≡ some e.0)
          × (score_of e.0 (first es) es ≡ some e.1)
    finds [] d full = absurd (full refl)
    finds (e ∷ es) d full = (
      (select earlier e es).0,
      (select earlier e es).1,
      select-Added earlier e es,
      refl,
      ground arith,
    )

    same_deadline : (es : List Entry) (d : Option ℕ) → (pop (es, d)).1 ≡ d
    same_deadline [] d = refl
    same_deadline (e ∷ es) d = refl

    goes :
        (now : ℕ) (es : List Entry) (d : Option ℕ)
        → ((at_time now d (es, d)).0 ≡ es)
          ⊎ (((at_time now d (es, d)).0 ≡ []) × (b : ℕ) × (d ≡ some b) × (b ≤ now))
    goes now es none = inl refl
    goes now es (some d) = elim (Bool-cases (leb d now)) [
      | inl e ↦ inr (rw e refl, d, refl, ground arith)
      | inr e ↦ inl (rw e refl)
    ]

-- a limit of 2 requests in a second: the third has to wait, and the fifth comes after the key went
abbrev times : List ℕ
times = 1000 ∷ 1200 ∷ 1500 ∷ 2000 ∷ 9000 ∷ []

times_verdicts :
    run store (text "user:u") 2 1 times ([], none) ≡ true ∷ true ∷ false ∷ true ∷ true ∷ []
unfolding run select
times_verdicts = refl

run_lem_example : run store (text "user:u") 2 1 times ([], none) ≡ decide 2 1000 times []
run_lem_example =
    run_lem store store-ZsetLaws (text "user:u") 2 1 times ([], none) refl
      (omega arith, (omega arith, (omega arith, (omega arith, (omega arith, tt)))))

run-Bounded_example :
    in_window 1000 1999 (granted times (run store (text "user:u") 2 1 times ([], none))) ≤ 2
run-Bounded_example =
    run-Bounded store store-ZsetLaws (text "user:u") 2 1 times ([], none) refl
      (omega arith, (omega arith, (omega arith, (omega arith, (omega arith, tt))))) 1999

sliding_window_check_lem_run :
    (retry : ℕ) × ((sliding_window_check store (text "ip:h") 1 60 100000 ((1, 90000) ∷ [], none)).0
      ≡ ok (false, retry))
    × (1 ≤ retry)
    × (retry ≤ 60)
sliding_window_check_lem_run =
    sliding_window_check_lem store store-ZsetLaws (text "ip:h") 1 60 100000 ((1, 90000) ∷ [], none)
      (omega arith) (omega arith, tt)
