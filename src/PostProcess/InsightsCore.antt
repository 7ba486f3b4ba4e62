-- ===== src/PostProcess/InsightsCore.antt =====
-- internal/postprocess/insights_core/insights_core.go, and `mqWriteObject` of cmd/main.go, which it
-- sends with. What is sent is the message itself in place of its JSON text, which is always printed.
pub mod Closed
use insights_remote.Base.{
  ◌∷◌, String, Option, none, some, Bool, ◌⊎◌, inl, inr, ◌==◌, ◌◂◌, if◌then◌else◌, not,
}
use insights_remote.Base.Maps.{at}
use insights_remote.Base.Exec.{Error, ok, pure, raise, lift, attempt, ◌>>=◌, ◌>>◌}
use insights_remote.Types.{LagoonInsightsMessage}
use insights_remote.World.{
  World, Action, Payload, insights, result, perform, mq_new, mq_producer, mq_produce, mq_close,
}
use insights_remote.PostProcess.{PostProcessor}

-- messageQ.Close(), which returns nothing
abbrev close_queue : Action (Unit {0})
close_queue t = (ok tt, mq_close ∷ t)

-- The connection is closed on every way out once it is there.
unfoldable pub mq_write_object : World → Payload → Action (Unit {0})
mq_write_object w payload = do
  perform w mq_new
  sent ← attempt (perform w mq_producer >> perform w (mq_produce payload))
  close_queue
  lift (result sent)

-- MessageQWriter
pub record InsightsCore : Type 0 where
  pub message_q_writer : Payload → Action (Unit {0})

abbrev pub enabled : LagoonInsightsMessage → Bool
enabled m = elim (at m.annotations "core.insights.lagoon.sh/enabled") [
  | none ↦ "" == "true"
  | some v ↦ v == "true"
]

unfoldable pub post_process : InsightsCore → LagoonInsightsMessage → Action (Unit {0})
post_process p m = if not (enabled m) then pure tt else do
  sent ← attempt (p.message_q_writer (insights m))
  elim sent [
    | inl e ↦ raise (record e { text = "unable to write to message broker: " ◂ e.text })
    | inr _ ↦ pure tt
  ]

unfoldable pub new_post_processor :
    (mq_enable : Bool) → (Payload → Action (Unit {0})) → Option PostProcessor
unfolding post_process
new_post_processor mq_enable writer =
    if mq_enable
    then some (record {
      label = "core.insights.lagoon.sh/status";
      post_process = post_process (record { message_q_writer = writer });
    })
    else none
