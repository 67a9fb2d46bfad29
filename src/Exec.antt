-- ===== src/Exec.antt =====
-- Methods that act on the world and may raise. What was done before a raise stays done, so the
-- world comes back beside the exception too.
use mathlib.Core.Path.{fun_ext}
use conduit_client_python.Prelude.{◌≡◌, refl, sym, ap, ◌∙◌, ◌⊎◌, inl, inr}
use conduit_client_python.Errors.{
  ConduitError, Exception, conduit, Outcome, ok, raised, Outcome-cases, ok≢raised,
}

abbrev pub Exec : Type 0 → Type 0 → Type 0
Exec W A = W → Outcome A × W

module _ {W A : Type 0} where
  abbrev pub pure : A → Exec W A
  pure a w = (ok a, w)

  abbrev pub raise : Exception → Exec W A
  raise x w = (raised x, w)

  abbrev pub lift : Outcome A → Exec W A
  lift r w = (r, w)

  abbrev pub handle : Outcome A → (ConduitError → Exec W A) → Exec W A
  handle (raised (conduit e)) h w = h e w
  handle r h w = (r, w)

  -- `try: m except ConduitError as e: h`
  abbrev pub catch : Exec W A → (ConduitError → Exec W A) → Exec W A
  catch m h w = let (r, w') = m w in handle r h w'

module _ {W A B : Type 0} where
  abbrev pub continue : Outcome A → (A → Exec W B) → Exec W B
  continue (ok a) f w = f a w
  continue (raised x) f w = (raised x, w)

  infixl 10 ◌>>=◌ ◌>>◌
  abbrev pub ◌>>=◌ : Exec W A → (A → Exec W B) → Exec W B
  ◌>>=◌ m f w = let (r, w') = m w in continue r f w'

  abbrev pub ◌>>◌ : Exec W A → Exec W B → Exec W B
  m >> n = m >>= λ _. n

module _ {W A B : Type 0} (m : Exec W A) (f : A → Exec W B) (w : W) where
  pub bind_of_ok : {a : A} → (m w).0 ≡ ok a → (m >>= f) w ≡ f a (m w).1
  bind_of_ok e = rw e

  pub bind_of_raised : {x : Exception} → (m w).0 ≡ raised x → (m >>= f) w ≡ (raised x, (m w).1)
  bind_of_raised e = rw e

  -- Inversion of a sequence that returned, and of one that raised.
  pub bind_returned :
      {b : B}
      → ((m >>= f) w).0 ≡ ok b
      → (a : A) × ((m w).0 ≡ ok a) × ((m >>= f) w ≡ f a (m w).1) × ((f a (m w).1).0 ≡ ok b)
  bind_returned h = elim (Outcome-cases (m w).0) [
    | inl (a, e) ↦ (a, e, bind_of_ok e, sym (ap (λ (p : Outcome B × W). p.0) (bind_of_ok e)) ∙ h)
    | inr (x, e) ↦ absurd (ok≢raised (sym h ∙ ap (λ (p : Outcome B × W). p.0) (bind_of_raised e)))
  ]

  pub bind_stopped :
      {x : Exception}
      → ((m >>= f) w).0 ≡ raised x
      → (((m w).0 ≡ raised x) × (((m >>= f) w).1 ≡ (m w).1))
        ⊎ ((a : A) × ((m w).0 ≡ ok a) × ((m >>= f) w ≡ f a (m w).1) × ((f a (m w).1).0 ≡ raised x))
  bind_stopped {x} h = elim (Outcome-cases (m w).0) [
    | inl (a, e) ↦
        inr (a, e, bind_of_ok e, sym (ap (λ (p : Outcome B × W). p.0) (bind_of_ok e)) ∙ h)
    | inr (y, e) ↦
        let stop = bind_of_raised e in
        let same : y ≡ x = cc (ap (λ (p : Outcome B × W). p.0) stop, h) in
        inl (e ∙ ap raised same, ap (λ (p : Outcome B × W). p.1) stop)
  ]

-- A handler that changes a `ConduitError` and raises it again.
abbrev pub amend {ℓ} : {A : Type ℓ} → (ConduitError → ConduitError) → Outcome A → Outcome A
amend f (raised (conduit e)) = raised (conduit (f e))
amend f r = r

module _ {W A : Type 0} (f : ConduitError → ConduitError) where
  handle-amend : (r : Outcome A) (w : W) → handle r (λ e. raise (conduit (f e))) w ≡ (amend f r, w)
  handle-amend (ok a) w = refl
  handle-amend (raised (conduit e)) w = refl
  handle-amend (raised x) w = refl

  pub catch-amend :
      (m : Exec W A) (w : W) → catch m (λ e. raise (conduit (f e))) w ≡ (amend f (m w).0, (m w).1)
  catch-amend m w = handle-amend (m w).0 (m w).1

module _ {W A B C : Type 0} where
  regroup :
      (f : A → Exec W B) (g : B → Exec W C) (r : Outcome A) (w : W)
      → (continue r f >>= g) w ≡ continue r (λ a. f a >>= g) w
  regroup f g (ok a) w = refl
  regroup f g (raised x) w = refl

  -- Sequencing can be regrouped.
  pub bind_assoc :
      (m : Exec W A) (f : A → Exec W B) (g : B → Exec W C)
      → ((m >>= f) >>= g) ≡ (m >>= λ a. f a >>= g)
  bind_assoc m f g = fun_ext λ w. regroup f g (m w).0 (m w).1

module _ {W A : Type 0} where
  continue-pure : (r : Outcome A) (w : W) → continue r pure w ≡ (r, w)
  continue-pure (ok a) w = refl
  continue-pure (raised x) w = refl

  pub bind-pure : (m : Exec W A) → (m >>= pure) ≡ m
  bind-pure m = fun_ext λ w. continue-pure (m w).0 (m w).1
