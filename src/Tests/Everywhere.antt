-- ===== src/Tests/Everywhere.antt =====
-- A logout from all devices of a user with two refresh tokens, which the scan gives on two pages.
use multimodal_rag.Prelude.{
  ℕ, zero, suc, ◌<◌, ◌≤◌, ◌≡◌, ◌≢◌, inl, inr, refl, sym, subst, Bool, Bool-cases, true, false, none,
  some, List, [], ◌∷◌, All, arith, if◌then◌else◌, ◌||◌,
}
use multimodal_rag.Prelude.Text.{Text, text, text_eq, text_eq→eq, text_eq_refl, member, starts_with}
use multimodal_rag.Errors.{Exception}
use multimodal_rag.Exec.{ok, raised}
use multimodal_rag.Auth.{Claims, default_lifetimes, decode_refresh_token, refresh}
use multimodal_rag.Auth.Single.{key_of}
use multimodal_rag.Auth.Scanning.{Scan, Documented, cursor_at, refresh_prefix, logout_all}
use multimodal_rag.Auth.Everywhere.{logout_all_lem}
use multimodal_rag.Tests.Tokens.{Table, crypto, redis, alice, redis-KeysLaws}

abbrev key : ℕ → Text
key token = key_of crypto default_lifetimes redis redis-KeysLaws (alice ∷ []) (1 ∷ []) (token ∷ [])

abbrev two_keys : Table
two_keys k = text_eq k (key 9) || text_eq k (key 8)

abbrev page : ℕ → Bool → List Text
page token here = if here then key token ∷ [] else []

-- the first token on the first page, the second on the last
abbrev scan : Scan Table
scan zero prefix s = (1, page 9 (s (key 9)))
scan (suc cursor) prefix s = (0, page 8 (s (key 8)))

prefix-key : (token : ℕ) → starts_with (refresh_prefix (1 ∷ [])) (key token) ≡ true
unfolding starts_with refresh_prefix text
prefix-key token = refl

page-matching :
    (token : ℕ) (here : Bool)
    → All (λ k. starts_with (refresh_prefix (1 ∷ [])) k ≡ true) (page token here)
page-matching token true = (prefix-key token, tt)
page-matching token false = tt

scan-matching :
    (cursor : ℕ) (s : Table)
    → All
        (λ k. starts_with (refresh_prefix (1 ∷ [])) k ≡ true)
        (scan cursor (refresh_prefix (1 ∷ [])) s).1
scan-matching zero s = page-matching 9 (s (key 9))
scan-matching (suc cursor) s = page-matching 8 (s (key 8))

member-page : (token : ℕ) (here : Bool) → here ≡ true → member (key token) (page token here) ≡ true
unfolding member
member-page token true h = rw (text_eq_refl (key token)) refl
member-page token false h = cc

listed :
    (token : ℕ) (k : Text) (t : Table)
    → text_eq k (key token) ≡ true
    → t k ≡ true
    → member k (page token (t (key token))) ≡ true
listed token k t same there =
    let e : k ≡ key token = text_eq→eq k (key token) same in
    subst (λ j. member j (page token (t (key token))) ≡ true) (sym e)
      (member-page token (t (key token)) (subst (λ j. t j ≡ true) e there))

two_pages : Documented redis scan (refresh_prefix (1 ∷ [])) two_keys
unfolding cursor_at
two_pages states first fewer = record {
  calls = 2;
  some_call = omega arith;
  goes_on = goes_on;
  comes_back = refl;
  matching =
      λ i. scan-matching (cursor_at redis scan (refresh_prefix (1 ∷ [])) states i) (states i);
  complete = λ k p there. elim (Bool-cases (text_eq k (key 9))) [
    | inl nine ↦ (0, omega arith, listed 9 k (states 0) nine (there 0 (omega arith)))
    | inr other ↦ (
      1,
      omega arith,
      listed 8 k (states 1) (second k other (there 0 (omega arith))) (there 1 (omega arith)),
    )
  ];
}
  where
    goes_on :
        (i : ℕ) → suc i < 2 → cursor_at redis scan (refresh_prefix (1 ∷ [])) states (suc i) ≢ 0
    goes_on zero lt = ground arith
    goes_on (suc i) lt = absurd (omega arith)

    second : (k : Text) → text_eq k (key 9) ≡ false → states 0 k ≡ true → text_eq k (key 8) ≡ true
    second k other there =
        let e : two_keys k ≡ true = subst (λ t. t k ≡ true) first there in ground (arith, e, other)

both_pages : (logout_all redis scan 2 (1 ∷ []) two_keys).0 ≡ some 2
unfolding logout_all text_eq
both_pages = refl

after_one_page : (logout_all redis scan 1 (1 ∷ []) two_keys).0 ≡ none
unfolding logout_all text_eq
after_one_page = refl

logout_all_lem_example :
    (n rounds : ℕ) × (u : Table) × ((fuel : ℕ)
      → rounds ≤ fuel
      → logout_all redis scan fuel (1 ∷ []) two_keys ≡ (some n, u))
    × ((k : Text)
        → redis.exists k u
          ≡ (if starts_with (refresh_prefix (1 ∷ [])) k then false else redis.exists k two_keys))
    × ((token jti : Text) (now : ℕ)
        → ((c : Claims)
            → decode_refresh_token crypto default_lifetimes now token ≡ ok c
            → c.sub ≡ some (1 ∷ []))
        → (e : Exception) × (refresh crypto default_lifetimes redis (alice ∷ []) token jti now u
            ≡ (raised e, u)))
logout_all_lem_example =
    logout_all_lem crypto default_lifetimes redis scan redis-KeysLaws (alice ∷ []) (1 ∷ []) two_keys
      two_pages
