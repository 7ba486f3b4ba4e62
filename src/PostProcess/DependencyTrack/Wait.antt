-- ===== src/PostProcess/DependencyTrack/Wait.antt =====
-- The wait for an upload to be processed.
use insights_remote.Base.{
  ℕ, zero, suc, ◌<◌, String, ◌∷◌, ◌≡◌, ◌⊎◌, inl, inr, refl, arith, Bool, true, false,
}
use insights_remote.Base.Exec.{Error, new_error, Outcome, ok, err}
use insights_remote.World.{World, Trace, is_being_processed, start_ticker}
use insights_remote.PostProcess.DependencyTrack.{await, poll}

module _ (w : World) (token : String) where
  -- After so many questions.
  abbrev pub asked : ℕ → Trace → Trace
  asked zero t = t
  asked (suc k) t = asked k (is_being_processed token ∷ t)

  -- So many questions are answered with "still processing".
  abbrev pub IsBusy : ℕ → Trace → Type 0
  IsBusy zero t = Unit
  IsBusy (suc k) t = (w.processing t token ≡ inr true) × IsBusy k (is_being_processed token ∷ t)

  -- It ends with the first answer that is not "still processing", or with the timeout after all ticks.
  abbrev pub Awaits : ℕ → Trace → Outcome (Unit {0}) × Trace → Type 0
  Awaits n t r =
      ((k : ℕ) × (k < n)
        × IsBusy k t
        × (w.processing (asked k t) token ≡ inr false)
        × (r ≡ (ok tt, asked (suc k) t)))
      ⊎ ((k : ℕ) × (k < n)
          × (e : Error) × IsBusy k t
          × (w.processing (asked k t) token ≡ inl e)
          × (r ≡ (err e, asked (suc k) t)))
      ⊎ (IsBusy n t × (r ≡ (err (new_error "timeout exceeded"), asked n t)))

  await-Awaits : (n : ℕ) (t : Trace) → Awaits n t (await w token n t)
  unfolding await
  await-Awaits zero t = inr (inr (tt, refl))
  await-Awaits (suc n) t =
      split_on (await-Awaits n (is_being_processed token ∷ t)) (w.processing t token) refl
    where
      split_on :
          Awaits n (is_being_processed token ∷ t) (await w token n (is_being_processed token ∷ t))
          → (x : Error ⊎ Bool) → w.processing t token ≡ x
          → Awaits (suc n) t (await w token (suc n) t)
      split_on later (inl e) read = inr (inl (0, omega arith, e, tt, read, ground (arith, read)))
      split_on later (inr false) read = inl (0, omega arith, tt, read, ground (arith, read))
      split_on (inl (k, below, busy, done, ends)) (inr true) read =
          inl (suc k, omega (arith, below), (read, busy), done, ground (arith, read, ends))
      split_on (inr (inl (k, below, e, busy, failed, ends))) (inr true) read =
          inr
            (inl (suc k, omega (arith, below), e, (read, busy), failed, ground (arith, read, ends)))
      split_on (inr (inr (busy, ends))) (inr true) read =
          inr (inr ((read, busy), ground (arith, read, ends)))

  -- The wait asks once for each tick before the timeout, and ends with the first answer that is not
  -- "still processing": with nil when the upload is processed, with the error of a question that
  -- fails, and with the error of the timeout when every tick found it still processing.
  pub poll-Awaits : (t : Trace) → Awaits (w.heartbeats t) (start_ticker ∷ t) (poll w token t)
  unfolding poll
  poll-Awaits t = await-Awaits (w.heartbeats t) (start_ticker ∷ t)
