-- ===== src/Base/Exec.antt =====
-- Go code that calls the outside world: a state `S` that records the calls, and the way in which a
-- function ends. What was done before an error or a panic stays done, so the state always comes back.
use mathlib.Core.Bool.{Bool, false}
use mathlib.Core.Logic.{◌⊎◌, inl, inr}
use Prim.Native.String.{String}
use insights_remote.Base.Tests.{if◌then◌else◌}

-- A Go `error`: its text, and whether `apierrors.IsNotFound` holds of it.
pub record Error : Type 0 where
  pub text : String
  pub not_found : Bool

-- errors.New(text)
abbrev pub new_error : String → Error
new_error t = record { text = t; not_found = false }

pub data Outcome {ℓ} (A : Type ℓ) : Type ℓ where
  ok : A → Outcome A
  err : Error → Outcome A
  panic : Outcome A

abbrev pub Exec {ℓ} : Type ℓ → Type ℓ → Type ℓ
Exec S A = S → Outcome A × S

module _ {ℓ} {S A : Type ℓ} where
  abbrev pub pure : A → Exec S A
  pure a s = (ok a, s)

  abbrev pub raise : Error → Exec S A
  raise e s = (err e, s)

  abbrev pub crash : Exec S A
  crash s = (panic, s)

  abbrev pub lift : Outcome A → Exec S A
  lift r s = (r, s)

  -- `a, err := m()` where the caller looks at `err` itself.
  abbrev caught : Outcome A × S → Outcome (Error ⊎ A) × S
  caught (ok a, s) = (ok (inr a), s)
  caught (err e, s) = (ok (inl e), s)
  caught (panic, s) = (panic, s)

  abbrev pub attempt : Exec S A → Exec S (Error ⊎ A)
  attempt m s = caught (m s)

module _ {ℓ} {S A B : Type ℓ} where
  abbrev continue : Outcome A × S → (A → Exec S B) → Outcome B × S
  continue (ok a, s) f = f a s
  continue (err e, s) f = (err e, s)
  continue (panic, s) f = (panic, s)

  infixl 5 ◌>>=◌
  abbrev pub ◌>>=◌ : Exec S A → (A → Exec S B) → Exec S B
  ◌>>=◌ m f s = continue (m s) f

infixl 5 ◌>>◌
abbrev pub ◌>>◌ : {S B : Type 0} → Exec S (Unit {0}) → Exec S B → Exec S B
m >> k = m >>= λ _. k

-- client.IgnoreNotFound(err), as the result of a reconciliation
abbrev pub ignore_not_found : {S : Type 0} → Error → Exec S (Unit {0})
ignore_not_found e s = if e.not_found then (ok tt, s) else (err e, s)
