-- ===== src/PostProcess/InsightsCore/Closed.antt =====
-- What `mqWriteObject` and the post-processor for Lagoon core do with the broker.
use insights_remote.Base.{◌∷◌, ◌≡◌, refl, ◌⊎◌, inl, inr, arith}
use insights_remote.Base.Exec.{Error, Outcome, ok, err}
use insights_remote.World.{World, Trace, Payload, mq_new, mq_producer, mq_produce, mq_close}
use insights_remote.PostProcess.InsightsCore.{mq_write_object}

module _ (w : World) (payload : Payload) (t : Trace) where
  -- How a write ends, by the answers of the broker: without a connection, or closed after the step
  -- that was refused, or after the last.
  abbrev pub Closes : Outcome (Unit {0}) × Trace → Type 0
  Closes r =
      ((e : Error) × (w.written t mq_new ≡ inl e) × (r ≡ (err e, mq_new ∷ t)))
      ⊎ ((e : Error) × (w.written (mq_new ∷ t) mq_producer ≡ inl e)
          × (r ≡ (err e, mq_close ∷ mq_producer ∷ mq_new ∷ t)))
      ⊎ ((e : Error) × (w.written (mq_producer ∷ mq_new ∷ t) (mq_produce payload) ≡ inl e)
          × (r ≡ (err e, mq_close ∷ mq_produce payload ∷ mq_producer ∷ mq_new ∷ t)))
      ⊎ ((w.written (mq_producer ∷ mq_new ∷ t) (mq_produce payload) ≡ inr tt)
          × (r ≡ (ok tt, mq_close ∷ mq_produce payload ∷ mq_producer ∷ mq_new ∷ t)))

  -- Either no connection comes and nothing else is called, or the connection is closed as the last
  -- call, whatever was refused before. The error of the step that is refused is returned, and the
  -- write succeeds only when the broker took the payload.
  pub mq_write_object-Closes : Closes (mq_write_object w payload t)
  unfolding mq_write_object
  mq_write_object-Closes =
      split_on (w.written t mq_new) (w.written (mq_new ∷ t) mq_producer)
        (w.written (mq_producer ∷ mq_new ∷ t) (mq_produce payload)) refl refl refl
    where
      split_on :
          (connected opened produced : Error ⊎ Unit {0})
          → w.written t mq_new ≡ connected
          → w.written (mq_new ∷ t) mq_producer ≡ opened
          → w.written (mq_producer ∷ mq_new ∷ t) (mq_produce payload) ≡ produced
          → Closes (mq_write_object w payload t)
      split_on (inl e) _ _ a b c = inl (e, a, ground (arith, a))
      split_on (inr _) (inl e) _ a b c = inr (inl (e, b, ground (arith, a, b)))
      split_on (inr _) (inr _) (inl e) a b c = inr (inr (inl (e, c, ground (arith, a, b, c))))
      split_on (inr _) (inr _) (inr tt) a b c = inr (inr (inr (c, ground (arith, a, b, c))))
