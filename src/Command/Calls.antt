-- ===== src/Command/Calls.antt =====
-- What cmd/main.go asks of the manager of the controllers and of the cron library: the calls that
-- start the parts of the program, which controller-runtime and the cron library answer.
use insights_remote.Base.{String, List, ◌∷◌, Bool, ◌⊎◌, inl, inr}
use insights_remote.Base.Int.{ℤ}
use insights_remote.Base.Exec.{Error, Outcome, ok, err, Exec}
use insights_remote.Builds.{BuildReconciler}
use insights_remote.ConfigMaps.{ConfigMapReconciler}
use insights_remote.Service.{Router}

-- server.Options; `filtered` says that the filter of authentication and authorization is set.
pub record MetricsOptions : Type 0 where
  pub bind_address : String
  pub secure_serving : Bool
  pub next_protos : List (List String)
  pub filtered : Bool

-- ctrl.Options
pub record ManagerOptions : Type 0 where
  pub metrics : MetricsOptions
  pub health_probe_bind_address : String
  pub leader_election : Bool
  pub leader_election_id : String

pub data Job : Type 0 where
  burn_after_reading insights_deferred_clear : Job

pub data Startup : Type 0 where
  new_manager : ManagerOptions → Startup
  set_up_config_maps : ConfigMapReconciler → (concurrent : ℤ) → Startup
  add_job : (schedule : String) → Job → Startup
  start_cron : Job → Startup
  set_up_namespaces : (secret label : String) → Startup
  set_up_builds : BuildReconciler → Startup
  serve : Router → (address : String) → Startup
  add_healthz add_readyz start_manager : Startup

-- The calls made so far, the latest first.
abbrev pub Log : Type 0
Log = List Startup

abbrev pub Start : Type 0
Start = Exec Log (Unit {0})

-- The answers: an error or nil, which may depend on what was asked before.
abbrev pub Answers : Type 0
Answers = Log → Startup → Error ⊎ Unit {0}

abbrev outcome : Error ⊎ Unit {0} → Outcome (Unit {0})
outcome (inl e) = err e
outcome (inr _) = ok tt

-- A call whose error ends the program.
unfoldable pub call : Answers → Startup → Start
call answers c log = (outcome (answers log c), c ∷ log)

-- A call whose error is only logged.
unfoldable pub call_and_log : Startup → Start
call_and_log c log = (ok tt, c ∷ log)
