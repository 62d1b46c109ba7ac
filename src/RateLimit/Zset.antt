-- ===== src/RateLimit/Zset.antt =====
-- Entries of a sorted set: what adding one and removing the old ones does to the counts.
use multimodal_rag.Prelude.{
  ℕ, ◌+◌, ◌-◌, ◌≤◌, ◌≡◌, refl, sym, subst, Bool, List, [], ◌∷◌, ◌++◌, ltb, keep, tally,
  tally-append, All, if◌then◌else◌, arith,
}
use multimodal_rag.RateLimit.{Entry, Added}
use multimodal_rag.RateLimit.History.{live}

pub tally-Added :
    (p : Entry → Bool) {e : Entry} {xs ys : List Entry}
    → Added e xs ys
    → tally p ys ≡ tally p xs + (if p e then 1 else 0)
tally-Added p {e} {xs} {ys} a =
    rw (a.old, a.new)
      (omega (arith, tally-append p a.before (e ∷ a.after), tally-append p a.before a.after))

All-split : (P : Entry → Type 0) (xs ys : List Entry) → All P (xs ++ ys) → All P xs × All P ys
All-split P [] ys h = (tt, h)
All-split P (x ∷ xs) ys h = let (a, b) = All-split P xs ys h.1 in ((h.0, a), b)

All-join : (P : Entry → Type 0) (xs ys : List Entry) → All P xs → All P ys → All P (xs ++ ys)
All-join P [] ys h k = k
All-join P (x ∷ xs) ys h k = (h.0, All-join P xs ys h.1 k)

-- an added entry, and all others, satisfy what all satisfy, and back
pub All-Added :
    (P : Entry → Type 0) {e : Entry} {xs ys : List Entry}
    → Added e xs ys
    → All P xs
    → P e
    → All P ys
All-Added P {e} a h p =
    let (u, v) = All-split P a.before a.after (subst (All P) a.old h) in
    subst (All P) (sym a.new) (All-join P a.before (e ∷ a.after) u (p, v))

pub Added-All :
    (P : Entry → Type 0) {e : Entry} {xs ys : List Entry}
    → Added e xs ys
    → All P ys
    → P e × All P xs
Added-All P {e} a h =
    let (u, v) = All-split P a.before (e ∷ a.after) (subst (All P) a.new h) in
    (v.0, subst (All P) (sym a.old) (All-join P a.before a.after u v.1))

pub live-antitone : (w t u : ℕ) (h : List ℕ) → t ≤ u → live w u h ≤ live w t h
live-antitone w t u [] le = omega arith
live-antitone w t u (a ∷ h) le = ground (arith, live-antitone w t u h)

pub live-old : (w last t : ℕ) (h : List ℕ) → All (λ a. a ≤ last) h → last + w ≤ t → live w t h ≡ 0
live-old w last t [] all le = refl
live-old w last t (a ∷ h) all le = ground (arith, live-old w last t h)

-- the entries of a window that ends at `t`
abbrev pub live_entries : ℕ → ℕ → List Entry → ℕ
live_entries w t = tally (λ e. ltb t (e.1 + w))

pub live_entries-keep :
    (w now t : ℕ) (es : List Entry)
    → w ≤ now
    → now ≤ t
    → live_entries w t (keep (λ e. ltb (now - w) e.1) es) ≡ live_entries w t es
live_entries-keep w now t [] a b = refl
live_entries-keep w now t (e ∷ es) a b = ground (arith, live_entries-keep w now t es)

pub tally-cutoff :
    (w now : ℕ) (es : List Entry)
    → w ≤ now
    → tally (λ e. ltb (now - w) e.1) es ≡ live_entries w now es
tally-cutoff w now [] a = refl
tally-cutoff w now (e ∷ es) a = ground (arith, tally-cutoff w now es)
