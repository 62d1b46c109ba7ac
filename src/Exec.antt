-- ===== src/Exec.antt =====
-- Python calls that change a state and may raise: the state comes back beside the exception too,
-- since what was written before a `raise` stays written.
use multimodal_rag.Prelude.{◌≡◌, refl, ap, ◌∙◌, arith}
use mathlib.Core.Path.{fun_ext}
use multimodal_rag.Errors.{AppError, Exception, app}

pub data Result {ℓ} (A : Type ℓ) : Type ℓ where
  ok : A → Result A
  raised : Exception → Result A

abbrev pub Exec {ℓ} : Type ℓ → Type ℓ → Type ℓ
Exec S A = S → Result A × S

module _ {ℓ} {S A : Type ℓ} where
  abbrev pub pure : A → Exec S A
  pure a s = (ok a, s)

  abbrev pub throw : Exception → Exec S A
  throw e s = (raised e, s)

  abbrev pub fail : AppError → Exec S A
  fail e s = (raised (app e), s)

  abbrev pub gets : (S → A) → Exec S A
  gets f s = (ok (f s), s)

module _ {ℓ} {S A B : Type ℓ} where
  abbrev pub continue : Result A × S → (A → Exec S B) → Result B × S
  continue (ok a, s) f = f a s
  continue (raised e, s) f = (raised e, s)

  infixl 10 ◌>>=◌ ◌>>◌
  abbrev pub ◌>>=◌ : Exec S A → (A → Exec S B) → Exec S B
  ◌>>=◌ m f s = continue (m s) f

  abbrev pub ◌>>◌ : Exec S A → Exec S B → Exec S B
  ◌>>◌ m n s = continue (m s) (λ _. n)

-- Inversion of a sequence that returned.
pub bind-ok {ℓ} :
    {S A B : Type ℓ} (r : Result A × S) (f : A → Exec S B) {b : B} {t : S}
    → continue r f ≡ (ok b, t)
    → (a : A) × (s : S) × (r ≡ (ok a, s)) × (f a s ≡ (ok b, t))
bind-ok (ok a, s) f h = (a, s, refl, h)
bind-ok (raised e, s) f h = cc

pub ok-pair {ℓ} :
    {S A : Type ℓ} (a b : A) (s t : S)
    → ◌≡◌ {A = Result A × S} (ok a, s) (ok b, t)
    → (a ≡ b) × (s ≡ t)
ok-pair a b s t h = ground arith

module _ {ℓ} {S A : Type ℓ} where
  abbrev pub recover : Result A × S → (Exception → Exec S A) → Result A × S
  recover (ok a, s) handler = (ok a, s)
  recover (raised e, s) handler = handler e s

  -- `try: m` / `except Exception as e: handler`
  abbrev pub catch : Exec S A → (Exception → Exec S A) → Exec S A
  catch m handler s = recover (m s) handler

-- `m` keeps `P`, whether it returns or raises.
abbrev pub Keeps {ℓ κ} : {S A : Type ℓ} → (S → Type κ) → Exec S A → Type (ℓ ⊔ κ)
Keeps {S} P m = (s : S) → P s → P (m s).1

-- Total correctness: from every state `m` returns, with a result of which `P` holds.
abbrev pub Returns {ℓ} : {S A : Type ℓ} → (A → Type ℓ) → Exec S A → Type ℓ
Returns {S} {A} P m = (s : S) → (a : A) × (t : S) × (m s ≡ (ok a, t)) × P a

pub Returns-bind {ℓ} :
    {S A B : Type ℓ} (P : A → Type ℓ) (Q : B → Type ℓ) (m : Exec S A) (f : A → Exec S B)
    → Returns P m
    → ((a : A) → P a → Returns Q (f a))
    → Returns Q (m >>= f)
Returns-bind P Q m f rm rf s =
    let (a, t, e, p) = rm s in
    let (b, u, e', q) = rf a p t in (b, u, ap (λ r. continue r f) e ∙ e', q)

pub Returns-pure {ℓ} : {S A : Type ℓ} (P : A → Type ℓ) (a : A) → P a → Returns {S = S} P (pure a)
Returns-pure P a p s = (a, s, refl, p)

continue_assoc {ℓ} :
    {S A B C : Type ℓ} (r : Result A × S) (f : A → Exec S B) (g : B → Exec S C)
    → continue (continue r f) g ≡ continue r (λ a. f a >>= g)
continue_assoc (ok a, s) f g = refl
continue_assoc (raised e, s) f g = refl

pub bind_assoc {ℓ} :
    {S A B C : Type ℓ} (m : Exec S A) (f : A → Exec S B) (g : B → Exec S C)
    → ((m >>= f) >>= g) ≡ (m >>= λ a. f a >>= g)
bind_assoc m f g = fun_ext (λ s. continue_assoc (m s) f g)
