-- ===== src/Tests/Tokens.antt =====
-- Tokens that carry their claims in the open, and a Redis that is a function.
use multimodal_rag.Prelude.{
  ℕ, ◌≤◌, ◌≡◌, refl, sym, ap, ◌∙◌, subst, Bool, true, false, Option, none, some, [], ◌∷◌, ◌++◌,
  length, take, drop, leb, arith, if◌then◌else◌,
}
use multimodal_rag.Prelude.Text.{Text, text_eq}
use multimodal_rag.Auth.{Claims, Crypto, CryptoLaws, Keys, KeysLaws, User}

-- A list of optional texts and numbers as one text: a length in front of each text.
abbrev put_text : Option Text → Text → Text
put_text none rest = 0 ∷ rest
put_text (some t) rest = 1 ∷ length t ∷ t ++ rest

abbrev first_text : Text → Option Text
first_text [] = none
first_text (b ∷ []) = none
first_text (b ∷ n ∷ s) = if leb 1 b then some (take n s) else none

abbrev after_text : Text → Text
after_text [] = []
after_text (b ∷ []) = []
after_text (b ∷ n ∷ s) = if leb 1 b then drop n s else n ∷ s

abbrev times_of : Text → ℕ × ℕ
times_of [] = (0, 0)
times_of (a ∷ []) = (a, 0)
times_of (a ∷ b ∷ s) = (a, b)

abbrev open_claims : Text → Claims
open_claims s = record {
  sub = first_text s;
  kind = first_text (after_text s);
  jti = first_text (after_text (after_text s));
  iat = (times_of (after_text (after_text (after_text s)))).0;
  exp = (times_of (after_text (after_text (after_text s)))).1;
}

abbrev pub crypto : Crypto
crypto = record {
  encode = λ c. put_text c.sub (put_text c.kind (put_text c.jti (c.iat ∷ c.exp ∷ [])));
  decode = λ now s. if leb now (open_claims s).exp then some (open_claims s) else none;
  verify = λ plain hashed. text_eq plain hashed;
  sha256 = λ t. t;
  parse_uuid = λ t. some t;
}

first_text-put_text :
    (o : Option Text) (n m : ℕ) (rest : Text) → first_text (put_text o (n ∷ rest)) ≡ o
first_text-put_text none n m rest = refl
first_text-put_text (some t) n m rest = ap some (taken t (n ∷ rest))
  where
    taken : (xs ys : Text) → take (length xs) (xs ++ ys) ≡ xs
    taken [] ys = refl
    taken (x ∷ xs) ys = ap (λ l. x ∷ l) (taken xs ys)

after_text-put_text :
    (o : Option Text) (n : ℕ) (rest : Text) → after_text (put_text o (n ∷ rest)) ≡ n ∷ rest
after_text-put_text none n rest = refl
after_text-put_text (some t) n rest = dropped t (n ∷ rest)
  where
    dropped : (xs ys : Text) → drop (length xs) (xs ++ ys) ≡ ys
    dropped [] ys = refl
    dropped (x ∷ xs) ys = dropped xs ys

put_text-head :
    (o : Option Text) (rest : Text) → (n : ℕ) × (more : Text) × (put_text o rest ≡ n ∷ more)
put_text-head none rest = (_, _, refl)
put_text-head (some t) rest = (_, _, refl)

open_claims-encode : (c : Claims) → open_claims (crypto.encode c) ≡ c
open_claims-encode c =
    let times : Text = c.iat ∷ c.exp ∷ [] in
    let (n, more, e) = put_text-head c.jti times in
    let (m, more', e') = put_text-head c.kind (put_text c.jti times) in
    let a : after_text (crypto.encode c) ≡ put_text c.kind (put_text c.jti times) =
      ap (λ r. after_text (put_text c.sub r)) e' ∙ after_text-put_text c.sub m more' ∙ sym e' in
    let b : after_text (put_text c.kind (put_text c.jti times)) ≡ put_text c.jti times =
      ap (λ r. after_text (put_text c.kind r)) e ∙ after_text-put_text c.kind n more ∙ sym e in
    let d : after_text (put_text c.jti times) ≡ times =
      after_text-put_text c.jti c.iat (c.exp ∷ []) in
    let s1 : first_text (crypto.encode c) ≡ c.sub =
      ap (λ r. first_text (put_text c.sub r)) e' ∙ first_text-put_text c.sub m 0 more' in
    let s2 : first_text (put_text c.kind (put_text c.jti times)) ≡ c.kind =
      ap (λ r. first_text (put_text c.kind r)) e ∙ first_text-put_text c.kind n 0 more in
    let s3 : first_text (put_text c.jti times) ≡ c.jti =
      first_text-put_text c.jti c.iat 0 (c.exp ∷ []) in
    rw (s1, a, s2, b, s3, d) refl

pub crypto-CryptoLaws : CryptoLaws crypto
crypto-CryptoLaws = record {
  decoded = λ now c le.
      subst (λ x. (if leb now x.exp then some x else none) ≡ some c) (sym (open_claims-encode c))
        (timely now c le);
}
  where
    timely :
        (now : ℕ) (c : Claims) → now ≤ c.exp → (if leb now c.exp then some c else none) ≡ some c
    timely now c le = ground arith

abbrev pub Table : Type 0
Table = Text → Bool

abbrev pub redis : Keys Table
redis = record {
  exists = λ k s. s k;
  delete = λ k s j. if text_eq k j then false else s j;
  setex = λ k ttl s j. if text_eq k j then true else s j;
}

pub redis-KeysLaws : KeysLaws redis
redis-KeysLaws = record { deleted = λ k j s. refl; stored = λ k j ttl s. refl }

abbrev pub alice : User
alice = record {
  id = 1 ∷ [];
  username = 97 ∷ [];
  hashed_password = 112 ∷ [];
  is_active = true;
  is_admin = false;
}

abbrev pub empty : Table
empty = λ k. false
