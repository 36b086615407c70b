-- ===== src/Base/Effects.antt =====
-- Functions that change a state and may fail. What was changed before an error stays changed.
use mathlib.Core.Path.{◌≡◌, refl, ap, ◌∙◌}
use native.Mathlib.Omega.{arith}
use capi_shell_mcp.Base.Errors.{GoError, Result, ok, err}

abbrev pub Exec {ℓ} : Type ℓ → Type ℓ → Type ℓ
Exec S A = S → Result A × S

module _ {ℓ} {S A : Type ℓ} where
  abbrev pub pure : A → Exec S A
  pure a s = (ok a, s)

  abbrev pub fail : GoError → Exec S A
  fail e s = (err e, s)

  abbrev pub lift : Result A → Exec S A
  lift r s = (r, s)

module _ {ℓ} {S A B : Type ℓ} where
  abbrev pub continue : Result A × S → (A → Exec S B) → Result B × S
  continue (ok a, s) f = f a s
  continue (err e, s) f = (err e, s)

  abbrev pub bind : Exec S A → (A → Exec S B) → Exec S B
  bind m f s = continue (m s) f

-- A part of the state that both halves leave alone.
module _ {ℓ κ} {S A B : Type ℓ} {X : Type κ} (part : S → X) where
  pub bind-keeps :
      (m : Exec S A) (f : A → Exec S B) (s : S)
      → part (m s).1 ≡ part s
      → ((a : A) (t : S) → part (f a t).1 ≡ part t)
      → part (bind m f s).1 ≡ part s
  bind-keeps m f s hm hf = continue-keeps (m s) f hf ∙ hm
    where
      continue-keeps :
          (r : Result A × S) (g : A → Exec S B)
          → ((a : A) (t : S) → part (g a t).1 ≡ part t)
          → part (continue r g).1 ≡ part r.1
      continue-keeps (ok a, t) g h = h a t
      continue-keeps (err e, t) g h = refl

-- Inversion of a sequence that succeeded.
pub continue-eq-ok {ℓ} :
    {S A B : Type ℓ} (r : Result A × S) (f : A → Exec S B) {b : B} {t : S}
    → continue r f ≡ (ok b, t)
    → (a : A) × (r.0 ≡ ok a) × (f a r.1 ≡ (ok b, t))
continue-eq-ok (ok a, u) f h = (a, refl, h)
continue-eq-ok (err e, u) f h = absurd (ground arith)

module _ {ℓ} {S A : Type ℓ} where
  -- `fmt.Errorf("…: %w", err)` on a result.
  abbrev pub with_error : (GoError → GoError) → Result A × S → Result A × S
  with_error f (ok a, s) = (ok a, s)
  with_error f (err e, s) = (err (f e), s)

abbrev pub map_error {ℓ} : {A : Type ℓ} → (GoError → GoError) → Result A → Result A
map_error f (ok a) = ok a
map_error f (err e) = err (f e)

pub with_error-eq-ok {ℓ} :
    {S A : Type ℓ} (f : GoError → GoError) (r : Result A × S) (a : A)
    → (with_error f r).0 ≡ ok a
    → r.0 ≡ ok a
with_error-eq-ok f (ok b, s) a h = h
with_error-eq-ok f (err e, s) a h = absurd (ground arith)

-- A call that succeeded, with the state that it left.
pub succeeded_with {ℓ} : {S A : Type ℓ} (r : Result A × S) (a : A) → r.0 ≡ ok a → r ≡ (ok a, r.1)
succeeded_with r a h = ap (λ x. (x, r.1)) h
