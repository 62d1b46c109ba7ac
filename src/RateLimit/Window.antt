-- ===== src/RateLimit/Window.antt =====
-- The limiter over a sorted set that expires decides as the one that remembers everything.
use multimodal_rag.Prelude.{
  ℕ, ◌+◌, ◌-◌, ◌*◌, ◌≤◌, ◌≡◌, ◌≢◌, ◌⊎◌, inl, inr, refl, sym, ap, ◌∙◌, subst, Bool, true, false,
  Option, some, List, [], ◌∷◌, leb, ltb, keep, length, tally, length-keep, All, All-map, All-keep,
  if◌then◌else◌, arith, Bool-cases,
}
use multimodal_rag.Prelude.Text.{Text}
use multimodal_rag.RateLimit.{
  Entry, Zsets, Added, ZsetLaws, redis_key, sliding_window_check, run, verdict_of, denied, oldest,
}
use multimodal_rag.RateLimit.History.{live, admit, decide, Rising}
use multimodal_rag.Exec.{Result, ok, raised}
use multimodal_rag.RateLimit.Zset.{
  tally-Added, All-Added, Added-All, live-antitone, live-old, live_entries, live_entries-keep,
  tally-cutoff,
}

module _ {R : Type 0} (z : Zsets R) (laws : ZsetLaws z) (name : Text) (limit seconds : ℕ) where
  -- the name of the sorted set
  abbrev key : Text
  key = redis_key z name

  -- the limiter's memory `s` holds what the history `h` does, as of the time `now`
  record Agrees (now : ℕ) (h : List ℕ) (s : R) : Type 0 where
    same :
        (t : ℕ)
        → now ≤ t
        → live_entries (seconds * 1000) t (z.entries key s) ≡ live (seconds * 1000) t h
    past : All (λ e. e.1 ≤ now) (z.entries key s)
    past_history : All (λ a. a ≤ now) h

  -- the key does not go before the last admitted time leaves the window
  Lasting : ℕ → List ℕ → R → Type 0
  Lasting now h s =
      (live (seconds * 1000) now h ≡ 0)
      ⊎ ((d : ℕ) × (z.deadline key s ≡ some d) × (now + seconds * 1000 ≤ d))

  Agrees-passes :
      (last now : ℕ) (h : List ℕ) (s : R)
      → Agrees last h s
      → Lasting last h s
      → last ≤ now
      → Agrees now h (z.passes now s)
  unfolding Lasting
  Agrees-passes last now h s a l le = elim (laws.passed key now s) [
    | inl e ↦ record {
      same = λ t le'. rw e (a.same t (omega arith));
      past = rw e (All-map (λ x (p : x.1 ≤ last). later x.1 p) (z.entries key s) a.past);
      past_history = older;
    }
    | inr (e, d, at, gone) ↦ record {
      same = λ t le'. rw e (omega (arith, none_live d at gone t));
      past = rw e tt;
      past_history = older;
    }
  ]
    where
      later : (x : ℕ) → x ≤ last → x ≤ now
      later x p = omega arith

      older : All (λ a. a ≤ now) h
      older = All-map (λ x (p : x ≤ last). later x p) h a.past_history

      none_live :
          (d : ℕ)
          → z.deadline key s ≡ some d
          → d ≤ now
          → (t : ℕ) → now ≤ t
          → live (seconds * 1000) t h ≡ 0
      none_live d at gone t le' = elim l [
        | inl n ↦ omega (arith, live-antitone (seconds * 1000) last t h)
        | inr (d', at', far) ↦
            let eq : some d ≡ some d' = sym at ∙ at' in
            live-old (seconds * 1000) last t h a.past_history (ground arith)
      ]

  -- the requests still counted, once the old ones are removed
  pruned : ℕ → R → R
  pruned now s = z.zremrangebyscore key (now - seconds * 1000) s

  stamped : ℕ → R → R
  unfolding pruned
  stamped now s = z.expire key (seconds + 1) now (z.zadd_new key now (pruned now s))

  entries-pruned :
      (now : ℕ) (s : R)
      → z.entries key (pruned now s) ≡ keep (λ e. ltb (now - seconds * 1000) e.1) (z.entries key s)
  unfolding pruned
  entries-pruned now s = laws.removed key (now - seconds * 1000) s

  stamped-Added :
      (now : ℕ) (s : R)
      → (m : ℕ) × Added (m, now) (z.entries key (pruned now s)) (z.entries key (stamped now s))
  unfolding stamped
  stamped-Added now s =
      rw (laws.kept key (seconds + 1) now (z.zadd_new key now (pruned now s)))
        (laws.added key now (pruned now s))

  deadline-stamped :
      (now : ℕ) (s : R) → z.deadline key (stamped now s) ≡ some (now + (seconds + 1) * 1000)
  unfolding stamped
  deadline-stamped now s =
      laws.deadline_set key (seconds + 1) now (z.zadd_new key now (pruned now s))

  Agrees-pruned :
      (now : ℕ) (h : List ℕ) (s : R)
      → seconds * 1000 ≤ now
      → Agrees now h s
      → Agrees now h (pruned now s)
  Agrees-pruned now h s le a = record {
    same = λ t le'.
        rw (entries-pruned now s)
          (live_entries-keep (seconds * 1000) now t (z.entries key s) le le' ∙ a.same t le');
    past =
        rw (entries-pruned now s) (
          All-keep (λ e. e.1 ≤ now) (λ e. ltb (now - seconds * 1000) e.1) (z.entries key s) a.past);
    past_history = a.past_history;
  }

  counted :
      (now : ℕ) (h : List ℕ) (s : R)
      → seconds * 1000 ≤ now
      → Agrees now h s
      → z.zcard key (pruned now s) ≡ live (seconds * 1000) now h
  counted now h s le a =
      laws.counted key (pruned now s)
      ∙ ap length (entries-pruned now s)
      ∙ length-keep (λ e. ltb (now - seconds * 1000) e.1) (z.entries key s)
      ∙ tally-cutoff (seconds * 1000) now (z.entries key s) le
      ∙ a.same now (omega arith)

  Agrees-stamped :
      (now : ℕ) (h : List ℕ) (s : R)
      → Agrees now h (pruned now s)
      → Agrees now (now ∷ h) (stamped now s)
  Agrees-stamped now h s a = record {
    same = λ t le'.
        let e = tally-Added (λ e. ltb t (e.1 + seconds * 1000)) (stamped-Added now s).1 in
        omega (arith, e, a.same t le');
    past = All-Added (λ e. e.1 ≤ now) (stamped-Added now s).1 a.past (omega arith);
    past_history = (omega arith, a.past_history);
  }

  stamped-nonempty : (now : ℕ) (s : R) → z.entries key (stamped now s) ≢ []
  stamped-nonempty now s e =
      let t = tally-Added (λ e. true) (stamped-Added now s).1 in
      let u : tally (λ (x : Entry). true) (z.entries key (stamped now s)) ≡ 0 =
        ap (tally (λ x. true)) e in
      omega (arith, t, u)

  undone : ℕ → R → R
  undone now s = z.zpopmax key (stamped now s)

  -- The request that the pipeline added is what `zpopmax` takes back, or one of the same time.
  Agrees-undone :
      (now : ℕ) (h : List ℕ) (s : R) → Agrees now h (pruned now s) → Agrees now h (undone now s)
  unfolding undone
  Agrees-undone now h s a =
      let b = Agrees-stamped now h s a in
      let (e, add, top) = laws.popped key (stamped now s) (stamped-nonempty now s) in
      let new : now ≤ e.1 = (Added-All (λ x. x.1 ≤ e.1) (stamped-Added now s).1 top).0 in
      let (old, rest) = Added-All (λ x. x.1 ≤ now) add b.past in
      let at : e.1 ≡ now = omega (arith, new, old) in
      record {
        same = λ t le.
            let p = tally-Added (λ x. ltb t (x.1 + seconds * 1000)) add in
            let q = b.same t le in
            let p' =
              subst
                (λ v.
                  live_entries (seconds * 1000) t (z.entries key (stamped now s))
                  ≡ live_entries (seconds * 1000) t (z.entries key (z.zpopmax key (stamped now s)))
                    + (if ltb t (v + seconds * 1000) then 1 else 0))
                at p in
            omega (arith, p', q);
        past = rest;
        past_history = a.past_history;
      }

  Lasting-stamped : (now : ℕ) (h : List ℕ) (s : R) → Lasting now h (stamped now s)
  unfolding Lasting
  Lasting-stamped now h s = inr (now + (seconds + 1) * 1000, deadline-stamped now s, omega arith)

  Lasting-undone :
      (now : ℕ) (h : List ℕ) (s : R) → Agrees now h (undone now s) → Lasting now h (undone now s)
  unfolding Lasting undone
  Lasting-undone now h s a = elim (List-cases (z.entries key (z.zpopmax key (stamped now s)))) [
    | inl e ↦ inl (sym (a.same now (omega arith)) ∙ ap (live_entries (seconds * 1000) now) e)
    | inr full ↦ inr (
      now + (seconds + 1) * 1000,
      laws.deadline_kept key (stamped now s) full ∙ deadline-stamped now s,
      omega arith,
    )
  ]
    where
      List-cases : (es : List Entry) → (es ≡ []) ⊎ (es ≢ [])
      List-cases [] = inl refl
      List-cases (e ∷ es) = inr (λ p. cc)

  -- the state of the limiter after a request, and whether the next one finds what it expects
  Follows : ℕ → List ℕ → R → Type 0
  Follows now h s = Agrees now h s × Lasting now h s

  check : ℕ → R → Result (Bool × ℕ) × R
  unfolding sliding_window_check
  check now s = sliding_window_check z name limit seconds now s

  check-admitted :
      (now : ℕ) (s : R)
      → leb limit (z.zcard key (pruned now s)) ≡ false
      → check now s ≡ (ok (true, 0), stamped now s)
  unfolding check sliding_window_check stamped pruned
  check-admitted now s e = rw e refl

  check-denied :
      (now : ℕ) (s : R)
      → leb limit (z.zcard key (pruned now s)) ≡ true
      → check now s ≡ (
        denied z seconds now (oldest z key now (z.zcard key (pruned now s)) (undone now s)),
        undone now s,
      )
  unfolding check sliding_window_check undone stamped pruned
  check-denied now s e = rw e refl

  verdict_of-denied :
      (now : ℕ) (r : Result (Option ℕ)) → verdict_of z (denied z seconds now r) ≡ false
  verdict_of-denied now (ok o) = refl
  verdict_of-denied now (raised x) = refl

  check-Follows :
      (last now : ℕ) (h : List ℕ) (s : R)
      → Follows last h s
      → last ≤ now
      → seconds * 1000 ≤ now
      → (verdict_of z (check now (z.passes now s)).0 ≡ admit limit (seconds * 1000) now h)
        × Follows now
            (if admit limit (seconds * 1000) now h then now ∷ h else h)
            (check now (z.passes now s)).1
  unfolding Follows
  check-Follows last now h s (agrees, lasting) le wide =
      let a = Agrees-passes last now h s agrees lasting le in
      let p = Agrees-pruned now h (z.passes now s) wide a in
      let n = counted now h (z.passes now s) wide a in
      elim (Bool-cases (leb limit (z.zcard key (pruned now (z.passes now s))))) [
        | inl e ↦
            let no : ltb (live (seconds * 1000) now h) limit ≡ false = ground (arith, n) in
            let u = Agrees-undone now h (z.passes now s) p in
            rw (check-denied now (z.passes now s) e, no)
              (verdict_of-denied now _, (u, Lasting-undone now h (z.passes now s) u))
        | inr e ↦
            let yes : ltb (live (seconds * 1000) now h) limit ≡ true = ground (arith, n) in
            rw (check-admitted now (z.passes now s) e, yes)
              (
                refl,
                (
                  Agrees-stamped now h (z.passes now s) p,
                  Lasting-stamped now (now ∷ h) (z.passes now s),
                ),
              )
      ]

  run-Follows :
      (requests : List ℕ) (last : ℕ) (h : List ℕ) (s : R)
      → Follows last h s
      → seconds * 1000 ≤ last
      → Rising last requests
      → run z name limit seconds requests s ≡ decide limit (seconds * 1000) requests h
  unfolding run decide check
  run-Follows [] last h s f wide r = refl
  run-Follows (now ∷ requests) last h s f wide r =
      let (verdict, f') = check-Follows last now h s f r.0 (omega (arith, r.0)) in
      let ih =
        run-Follows requests now _ (check now (z.passes now s)).1 f' (omega (arith, r.0)) r.1 in
      rw verdict (rw ih refl)

  -- A key without entries, and no request remembered yet.
  Follows-empty : (last : ℕ) (s : R) → z.entries key s ≡ [] → Follows last [] s
  unfolding Follows Lasting
  Follows-empty last s e =
      (record { same = λ t le. rw e refl; past = rw e tt; past_history = tt }, inl refl)

  -- On a key without entries, and with a clock that does not go back and is past the length of the
  -- window, the limiter over Redis takes the decisions of the one that remembers the times of all
  -- admitted requests and admits a request when fewer than `limit` of them are in the window that
  -- ends with it. This holds although keys expire and denied requests are stored for a moment.
  pub run_lem :
      (requests : List ℕ) (s : R)
      → z.entries key s ≡ []
      → Rising (seconds * 1000) requests
      → run z name limit seconds requests s ≡ decide limit (seconds * 1000) requests []
  run_lem requests s e r =
      run-Follows requests (seconds * 1000) [] s (Follows-empty (seconds * 1000) s e) (omega arith)
        r
