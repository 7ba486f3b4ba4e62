-- ===== src/World/Extends.antt =====
-- An action only adds calls to those made before.
use mathlib.Core.List.{append_assoc}
use insights_remote.Base.{[], ◌∷◌, ◌++◌, ◌≡◌, refl, ◌⊎◌, arith, Bool, true, false, if◌then◌else◌}
use insights_remote.Base.Exec.{
  Error, Outcome, ok, err, panic, pure, raise, attempt, lift, crash, ◌>>=◌,
}
use insights_remote.World.{World, Trace, Call, Action, ask, perform}

pub record Extends {A : Type 0} (m : Action A) : Type 0 where
  pub before : (t : Trace) → (q : Trace) × ((m t).1 ≡ q ++ t)

module _ {A : Type 0} where
  pub lift-Extends : (r : Outcome A) → Extends (lift r)
  lift-Extends r = record { before = λ t. ([], refl) }

  pub pure-Extends : (a : A) → Extends (pure a)
  pure-Extends a = record { before = λ t. ([], refl) }

  pub raise-Extends : (e : Error) → Extends {A = A} (raise e)
  raise-Extends e = record { before = λ t. ([], refl) }

  pub crash-Extends : Extends {A = A} crash
  crash-Extends = record { before = λ t. ([], refl) }

  pub ask-Extends : (c : Call) (answer : Trace → Error ⊎ A) → Extends (ask c answer)
  ask-Extends c answer = record { before = λ t. (c ∷ [], refl) }

  -- A call without an answer.
  pub told-Extends : (c : Call) (a : A) → Extends (λ t. (ok a, c ∷ t))
  told-Extends c a = record { before = λ t. (c ∷ [], refl) }

  pub attempt-Extends : (m : Action A) → Extends m → Extends (attempt m)
  attempt-Extends m h = record { before = λ t. split_on t (m t) refl (h.before t) }
    where
      split_on :
          (t : Trace) (r : Outcome A × Trace)
          → m t ≡ r
          → ((q : Trace) × ((m t).1 ≡ q ++ t))
          → (q : Trace) × ((attempt m t).1 ≡ q ++ t)
      split_on t (ok a, s) e (q, h') = (q, ground (arith, e, h'))
      split_on t (err x, s) e (q, h') = (q, ground (arith, e, h'))
      split_on t (panic, s) e (q, h') = (q, ground (arith, e, h'))

  pub if-Extends :
      (b : Bool) {m n : Action A} → Extends m → Extends n → Extends (if b then m else n)
  if-Extends true h k = h
  if-Extends false h k = k

module _ {A B : Type 0} where
  pub bind-Extends :
      (m : Action A) (f : A → Action B) → Extends m → ((a : A) → Extends (f a)) → Extends (m >>= f)
  bind-Extends m f h k = record { before = λ t. split_on t (m t) refl (h.before t) }
    where
      split_on :
          (t : Trace) (r : Outcome A × Trace)
          → m t ≡ r
          → ((q : Trace) × ((m t).1 ≡ q ++ t))
          → (q : Trace) × (((m >>= f) t).1 ≡ q ++ t)
      split_on t (ok a, s) e (q, h') =
          let (p, k') = (k a).before s in (p ++ q, ground (arith, e, h', k', append_assoc p q t))
      split_on t (err x, s) e (q, h') = (q, ground (arith, e, h'))
      split_on t (panic, s) e (q, h') = (q, ground (arith, e, h'))

pub perform-Extends : (w : World) (c : Call) → Extends (perform w c)
perform-Extends w c = record { before = λ t. (c ∷ [], refl) }
