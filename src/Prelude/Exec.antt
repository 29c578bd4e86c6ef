-- ===== src/Prelude/Exec.antt =====
-- Methods that change a state and may return an error; what was done before the error stays done.
use orbit_telemetry_orchestr.Prelude.Errors.{Result, ok, err}

abbrev pub Exec {ℓ} : Type ℓ → Type ℓ → Type ℓ
Exec S A = S → Result A × S

module _ {ℓ} {S A B : Type ℓ} where
  abbrev pub continue : Result A → (A → Exec S B) → Exec S B
  continue (ok a) f s = f a s
  continue (err e) f s = (err e, s)

  infixl 5 ◌>>=◌ ◌>>◌
  -- `a, err := m(); if err != nil { return err }`
  abbrev pub ◌>>=◌ : Exec S A → (A → Exec S B) → Exec S B
  ◌>>=◌ m f s = continue (m s).0 f (m s).1

  abbrev pub ◌>>◌ : Exec S A → Exec S B → Exec S B
  m >> n = m >>= λ _. n

module _ {ℓ} {S A : Type ℓ} where
  abbrev pub return : A → Exec S A
  return a s = (ok a, s)

  -- A result that does not depend on the state.
  abbrev pub lift : Result A → Exec S A
  lift r s = (r, s)

  -- `_ = m()`
  abbrev pub ignore : Exec S A → Exec S (Unit {ℓ})
  ignore m s = (ok tt, (m s).1)

  -- The error of a call as a value.
  abbrev pub catch : Exec S A → Exec S (Result A)
  catch m s = (ok (m s).0, (m s).1)
