-- ===== src/Service/Delivery.antt =====
-- What the web service does with the JSON that it has to send, and how it answers.
use insights_remote.Base.{◌∷◌, ◌≡◌, ◌⊎◌, inl, inr, refl, arith, true, false, Bool-cases}
use insights_remote.Base.Exec.{Error, Outcome, ok, err, panic}
use insights_remote.Types.{Bytes}
use insights_remote.World.{Trace, bytes, plain, okay, reply}
use insights_remote.Service.{Router, deliver}

-- How a handler ends after the writer of the queue has ended.
abbrev Answers : Outcome (Unit {0}) × Trace → Outcome (Unit {0}) × Trace → Type 0
Answers (ok _, s) ended = ended ≡ (ok tt, reply 200 okay ∷ s)
Answers (err e, s) ended = ended ≡ (ok tt, reply 500 (plain e) ∷ s)
Answers (panic, s) ended = ended ≡ (panic, s)

module _ (r : Router) (s : Trace) where
  -- JSON that does not print is answered with 500. Else it is written to the queue, and the answer is
  -- 200 or, with the error of the writer, 500; a service that is not to write answers 200 at once.
  abbrev pub Delivers : Error ⊎ Bytes → Outcome (Unit {0}) × Trace → Type 0
  Delivers (inl e) ended = ended ≡ (ok tt, reply 500 (plain e) ∷ s)
  Delivers (inr json) ended =
      ((r.write_to_queue ≡ true) × Answers (r.message_q_writer (bytes json) s) ended)
      ⊎ ((r.write_to_queue ≡ false) × (ended ≡ (ok tt, reply 200 okay ∷ s)))

  pub deliver-Delivers : (x : Error ⊎ Bytes) → Delivers x (deliver r x s)
  unfolding deliver
  deliver-Delivers (inl e) = refl
  deliver-Delivers (inr json) = elim (Bool-cases r.write_to_queue) [
    | inl on ↦ inl (on, written on (r.message_q_writer (bytes json) s) refl)
    | inr off ↦ inr (off, ground (arith, off))
  ]
    where
      written :
          r.write_to_queue ≡ true
          → (o : Outcome (Unit {0}) × Trace) → r.message_q_writer (bytes json) s ≡ o
          → Answers (r.message_q_writer (bytes json) s) (deliver r (inr json) s)
      written on (ok u, s') h = rw h (ground (arith, on, h))
      written on (err e, s') h = rw h (ground (arith, on, h))
      written on (panic, s') h = rw h (ground (arith, on, h))
