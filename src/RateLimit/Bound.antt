-- ===== src/RateLimit/Bound.antt =====
-- What a client of the limiter may rely on: the bound on each window, and the seconds to wait.
use multimodal_rag.Prelude.{
  ℕ, zero, suc, ◌+◌, ◌-◌, ◌*◌, ◌≤◌, ◌≡◌, ◌≢◌, refl, ap, ◌∙◌, Bool, true, false, Option, none, some,
  List, [], ◌∷◌, leb, ltb, length, tally, All, All-keep, ◌&&◌, inl, inr, if◌then◌else◌, arith,
  Bool-cases, length-keep,
}
use multimodal_rag.Prelude.Text.{Text}
use multimodal_rag.Exec.{ok}
use multimodal_rag.RateLimit.{
  Entry, Zsets, Added, ZsetLaws, redis_key, sliding_window_check, run, oldest, retry_after,
}
use multimodal_rag.RateLimit.History.{in_window, admit, decide, admitted, Rising, admitted-Bounded}
use multimodal_rag.RateLimit.Zset.{tally-Added, Added-All, All-Added}
use multimodal_rag.RateLimit.Window.{run_lem}

-- the times of the requests with a positive verdict
abbrev pub granted : List ℕ → List Bool → List ℕ
granted [] verdicts = []
granted (t ∷ ts) [] = []
granted (t ∷ ts) (true ∷ verdicts) = t ∷ granted ts verdicts
granted (t ∷ ts) (false ∷ verdicts) = granted ts verdicts

tally-true : (es : List Entry) → tally (λ e. true) es ≡ length es
tally-true [] = refl
tally-true (e ∷ es) = omega (arith, tally-true es)

granted-decide :
    (limit window : ℕ) (p : ℕ → Bool) (times h : List ℕ)
    → tally p (granted times (decide limit window times h)) + tally p h
      ≡ tally p (admitted limit window times h)
unfolding decide admitted
granted-decide limit window p [] h = omega arith
granted-decide limit window p (t ∷ times) h = elim (Bool-cases (admit limit window t h)) [
  | inl e ↦ rw e (omega (arith, granted-decide limit window p times (t ∷ h)))
  | inr e ↦ rw e (granted-decide limit window p times h)
]

module _ {R : Type 0} (z : Zsets R) (laws : ZsetLaws z) (name : Text) (limit seconds : ℕ) where
  -- the name of the sorted set
  abbrev key : Text
  key = redis_key z name

  -- In every window of the limiter's length, at whatever time it ends, at most `limit` requests of a
  -- key are allowed, if the key is without entries at first and the clock does not go back and is
  -- past the length of the window.
  pub run-Bounded :
      (requests : List ℕ) (s : R)
      → z.entries key s ≡ []
      → Rising (seconds * 1000) requests
      → (t : ℕ)
      → in_window (seconds * 1000) t (granted requests (run z name limit seconds requests s))
        ≤ limit
  run-Bounded requests s e r t =
      let same = run_lem z laws name limit seconds requests s e r in
      let counts =
        granted-decide limit (seconds * 1000) (λ a. ltb t (a + seconds * 1000) && leb a t) requests
          [] in
      let bound =
        admitted-Bounded limit (seconds * 1000) requests (seconds * 1000) [] r tt (λ t. omega arith)
          t in
      rw same (omega (arith, counts, bound))

  retry_after_lem :
      (now : ℕ) (o : Option ℕ)
      → 1 ≤ seconds
      → ((x : ℕ) → o ≡ some x → x ≤ now)
      → (1 ≤ retry_after z seconds now o) × (retry_after z seconds now o ≤ seconds)
  retry_after_lem now none one past = (one, omega arith)
  retry_after_lem now (some zero) one past = (one, omega arith)
  retry_after_lem now (some (suc x)) one past =
      let le = past (suc x) refl in (omega arith, omega arith)

  -- The keys' state of a denied request: the old entries removed, the request added and taken back.
  module _ (now : ℕ) (s : R) where
    pruned : R
    pruned = z.zremrangebyscore key (now - seconds * 1000) s

    stamped : R
    unfolding pruned
    stamped = z.expire key (seconds + 1) now (z.zadd_new key now pruned)

    Past : R → Type 0
    Past u = All (λ e. e.1 ≤ now) (z.entries key u)

    Past-pruned : Past s → Past pruned
    unfolding Past pruned
    Past-pruned past =
        rw (laws.removed key (now - seconds * 1000) s)
          (All-keep (λ e. e.1 ≤ now) (λ e. ltb (now - seconds * 1000) e.1) (z.entries key s) past)

    stamped-Added : (m : ℕ) × Added (m, now) (z.entries key pruned) (z.entries key stamped)
    unfolding stamped
    stamped-Added =
        rw (laws.kept key (seconds + 1) now (z.zadd_new key now pruned)) (laws.added key now pruned)

    Past-stamped : Past s → Past stamped
    unfolding Past
    Past-stamped past = All-Added (λ e. e.1 ≤ now) stamped-Added.1 (Past-pruned past) (omega arith)

    length-stamped : length (z.entries key stamped) ≡ length (z.entries key pruned) + 1
    length-stamped =
        let t = tally-Added (λ e. true) stamped-Added.1 in
        omega (arith, t, tally-true (z.entries key stamped), tally-true (z.entries key pruned))

    undone-full :
        Past s
        → (length (z.entries key (z.zpopmax key stamped)) ≡ length (z.entries key pruned))
          × Past (z.zpopmax key stamped)
    unfolding Past
    undone-full past =
        let (e, add, top) = laws.popped key stamped some_entry in
        let t = tally-Added (λ e. true) add in
        (
          omega (
            arith,
            t,
            length-stamped,
            tally-true (z.entries key stamped),
            tally-true (z.entries key (z.zpopmax key stamped)),
          ),
          (Added-All (λ e. e.1 ≤ now) add (Past-stamped past)).1,
        )
      where
        some_entry : z.entries key stamped ≢ []
        some_entry e =
            let n : length (z.entries key stamped) ≡ 0 = ap length e in
            omega (arith, n, length-stamped)

    oldest_lem :
        Past s
        → (o : ℕ) × (oldest z key now (z.zcard key pruned) (z.zpopmax key stamped) ≡ ok (some o))
          × (o ≤ now)
    unfolding Past
    oldest_lem past = elim (Bool-cases (ltb 0 (z.zcard key pruned))) [
      | inl e ↦
          let (e', rest, add, at, score) = laws.first key (z.zpopmax key stamped) (some_entry e) in
          (e'.1, rw (e, at, score) refl, (Added-All (λ x. x.1 ≤ now) add (undone-full past).1).0)
      | inr e ↦ (now, rw e refl, omega arith)
    ]
      where
        some_entry : ltb 0 (z.zcard key pruned) ≡ true → z.entries key (z.zpopmax key stamped) ≢ []
        some_entry e none_left =
            let n : length (z.entries key (z.zpopmax key stamped)) ≡ 0 = ap length none_left in
            ground (arith, laws.counted key pruned, (undone-full past).0)

  -- A check never raises, on a key whose entries are not in the future and for a window of at least
  -- a second. With fewer than `limit` entries in the window the request is allowed; otherwise it is
  -- refused, with a time to wait of at least one second and at most the window.
  pub sliding_window_check_lem :
      (now : ℕ) (s : R)
      → 1 ≤ seconds
      → All (λ e. e.1 ≤ now) (z.entries key s)
      → if ltb (tally (λ e. ltb (now - seconds * 1000) e.1) (z.entries key s)) limit
        then (sliding_window_check z name limit seconds now s).0 ≡ ok (true, 0)
        else ((retry : ℕ) × ((sliding_window_check z name limit seconds now s).0
              ≡ ok (false, retry))
            × (1 ≤ retry)
            × (retry ≤ seconds))
  unfolding sliding_window_check stamped pruned Past
  sliding_window_check_lem now s one past =
      let n : z.zcard key (z.zremrangebyscore key (now - seconds * 1000) s)
          ≡ tally (λ e. ltb (now - seconds * 1000) e.1) (z.entries key s) =
        laws.counted key (z.zremrangebyscore key (now - seconds * 1000) s)
        ∙ ap length (laws.removed key (now - seconds * 1000) s)
        ∙ length-keep (λ e. ltb (now - seconds * 1000) e.1) (z.entries key s) in
      let (o, at, le) = oldest_lem now s past in
      let wait = retry_after_lem now (some o) one (λ x p. ground arith) in
      elim (Bool-cases
        (leb limit (z.zcard key (z.zremrangebyscore key (now - seconds * 1000) s)))) [
          | inl e ↦
              let no : ltb (tally (λ e. ltb (now - seconds * 1000) e.1) (z.entries key s)) limit
                  ≡ false =
                ground (arith, n) in
              rw (no, e, at) (retry_after z seconds now (some o), refl, wait.0, wait.1)
          | inr e ↦
              let yes : ltb (tally (λ e. ltb (now - seconds * 1000) e.1) (z.entries key s)) limit
                  ≡ true =
                ground (arith, n) in
              rw (yes, e) refl
        ]
