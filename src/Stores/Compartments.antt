-- ===== src/Stores/Compartments.antt =====
-- Calls that stay within one compartment of a store, as a collection or an index: rules for each
-- way in which the clients build a call.
use multimodal_rag.Prelude.{◌≡◌, ◌≢◌, refl, ap, sym, ◌∙◌, Bool, true, false, subst, if◌then◌else◌}
use multimodal_rag.Prelude.Text.{Text}
use multimodal_rag.Exec.{Exec, Result, ok, raised, pure, recover, continue, ◌>>=◌, bind_assoc}
use multimodal_rag.Stores.{wrapped, retrieval_error}
use multimodal_rag.Stores.Elastic.{
  Reply, answer, missing, failed, settled, settled_or, called, called_or,
}

-- `m` leaves every other compartment as it is, and depends on its own only.
pub record Within {W X R : Type 0} (view : W → Text → X) (c : Text) (m : W → R × W) : Type 0 where
  pub others : (w : W) (d : Text) → d ≢ c → view (m w).1 d ≡ view w d
  pub same : (v w : W) → view v c ≡ view w c → (m v).0 ≡ (m w).0
  pub after : (v w : W) → view v c ≡ view w c → view (m v).1 c ≡ view (m w).1 c

module _ {W X : Type 0} (view : W → Text → X) (c : Text) where
  module _ {A : Type 0} where
    -- a call that does not touch the world, as a return or a raise
    pub Within-still : (r : Result A) → Within view c (λ w. (r, w))
    Within-still r = record { others = λ w d ne. refl; same = λ v w e. refl; after = λ v w e. e }

    pub Within-if :
        (b : Bool) (m n : Exec W A)
        → Within view c m
        → Within view c n
        → Within view c (if b then m else n)
    Within-if true m n p q = p
    Within-if false m n p q = q

  module _ {A B : Type 0} (f : A → Exec W B) (rest : (a : A) → Within view c (f a)) where
    continue_others :
        (r : Result A) (t : W) (d : Text) → d ≢ c → view (continue (r, t) f).1 d ≡ view t d
    continue_others (ok a) t d ne = (rest a).others t d ne
    continue_others (raised e) t d ne = refl

    continue_same :
        (r : Result A) (s t : W)
        → view s c ≡ view t c
        → ((continue (r, s) f).0 ≡ (continue (r, t) f).0)
          × (view (continue (r, s) f).1 c ≡ view (continue (r, t) f).1 c)
    continue_same (ok a) s t e = ((rest a).same s t e, (rest a).after s t e)
    continue_same (raised x) s t e = (refl, e)

    continue_both :
        (m : Exec W A)
        → Within view c m
        → (v w : W) → view v c ≡ view w c
        → ((continue (m v) f).0 ≡ (continue (m w) f).0)
          × (view (continue (m v) f).1 c ≡ view (continue (m w) f).1 c)
    continue_both m p v w e =
        subst
          (λ r.
            ((continue ((m v).0, (m v).1) f).0 ≡ (continue (r, (m w).1) f).0)
            × (view (continue ((m v).0, (m v).1) f).1 c ≡ view (continue (r, (m w).1) f).1 c))
          (p.same v w e) (continue_same (m v).0 (m v).1 (m w).1 (p.after v w e))

    pub Within-bind : (m : Exec W A) → Within view c m → Within view c (m >>= f)
    Within-bind m p = record {
      others = λ w d ne. continue_others (m w).0 (m w).1 d ne ∙ p.others w d ne;
      same = λ v w e. (continue_both m p v w e).0;
      after = λ v w e. (continue_both m p v w e).1;
    }

  -- a call before a part whose result is known
  pub Within-known :
      {A B C : Type 0} (m : Exec W A) (b : B) (f : B → Exec W C)
      → Within view c m
      → Within view c (f b)
      → Within view c ((m >>= λ a. pure b) >>= f)
  Within-known m b f p q =
      subst (λ n. Within view c n) (sym (bind_assoc m (λ a. pure b) f))
        (Within-bind (λ a. f b) (λ a. q) m p)

  -- `k` reads the outcome only
  through_same :
      {R S : Type 0} (k : R × W → S × W)
      → ((r : R) (s t : W) → (k (r, s)).0 ≡ (k (r, t)).0)
      → {r q : R} (s t : W) → r ≡ q
      → (k (r, s)).0 ≡ (k (q, t)).0
  through_same k reads {r} s t e = subst (λ x. (k (r, s)).0 ≡ (k (x, t)).0) e (reads r s t)

  Within-through :
      {R S : Type 0} (m : W → R × W) (k : R × W → S × W)
      → ((r : R) (t : W) → (k (r, t)).1 ≡ t)
      → ((r : R) (s t : W) → (k (r, s)).0 ≡ (k (r, t)).0)
      → Within view c m
      → Within view c (λ w. k (m w))
  Within-through m k keeps reads p = record {
    others = λ w d ne. ap (λ t. view t d) (keeps (m w).0 (m w).1) ∙ p.others w d ne;
    same = λ v w e. through_same k reads (m v).1 (m w).1 (p.same v w e);
    after = λ v w e.
        ap (λ t. view t c) (keeps (m v).0 (m v).1)
        ∙ p.after v w e
        ∙ ap (λ t. view t c) (sym (keeps (m w).0 (m w).1));
  }

  module _ {A : Type 0} where
    wrapped_keeps : (r : Result A) (t : W) → (recover (r, t) retrieval_error).1 ≡ t
    wrapped_keeps (ok a) t = refl
    wrapped_keeps (raised e) t = refl

    wrapped_reads :
        (r : Result A) (s t : W)
        → (recover (r, s) retrieval_error).0 ≡ (recover (r, t) retrieval_error).0
    wrapped_reads (ok a) s t = refl
    wrapped_reads (raised e) s t = refl

    pub Within-wrapped : (m : Exec W A) → Within view c m → Within view c (wrapped m)
    Within-wrapped m = Within-through m (λ r. recover r retrieval_error) wrapped_keeps wrapped_reads

    called_keeps : (r : Reply A) (t : W) → (settled (r, t)).1 ≡ t
    called_keeps (answer a) t = refl
    called_keeps missing t = refl
    called_keeps (failed e) t = refl

    called_reads : (r : Reply A) (s t : W) → (settled (r, s)).0 ≡ (settled (r, t)).0
    called_reads (answer a) s t = refl
    called_reads missing s t = refl
    called_reads (failed e) s t = refl

    pub Within-called : (m : W → Reply A × W) → Within view c m → Within view c (called m)
    Within-called m = Within-through m settled called_keeps called_reads

    called_or_keeps : (a : A) (r : Reply A) (t : W) → (settled_or a (r, t)).1 ≡ t
    called_or_keeps a (answer b) t = refl
    called_or_keeps a missing t = refl
    called_or_keeps a (failed e) t = refl

    called_or_reads :
        (a : A) (r : Reply A) (s t : W) → (settled_or a (r, s)).0 ≡ (settled_or a (r, t)).0
    called_or_reads a (answer b) s t = refl
    called_or_reads a missing s t = refl
    called_or_reads a (failed e) s t = refl

    pub Within-called_or :
        (a : A) (m : W → Reply A × W) → Within view c m → Within view c (called_or a m)
    Within-called_or a m = Within-through m (settled_or a) (called_or_keeps a) (called_or_reads a)
