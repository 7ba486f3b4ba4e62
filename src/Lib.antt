-- ===== src/Lib.antt =====
-- insights-remote: the program that collects insights (bills of materials, image inspections, facts
-- and problems) in a Kubernetes cluster and ships them to Lagoon core and to Dependency Track.
--
-- The parts of the program, and the modules that model them:
--
-- - internal/defs.go, internal/service/defs.go (`Types`): the messages and the names of the labels.
-- - internal/controller/configmap_controller.go (`ConfigMaps`, its event filter in
--   `ConfigMaps.Filter`): a config map with insights becomes a message for each post-processor, and
--   labels and annotations record how they ended. `ConfigMaps.Loop`, `.Written`, `.Settled`,
--   `.Outcomes` and `.Stops` hold the proofs, and `Retries` follows one config map through many
--   reconciliations.
-- - cmlib/cmlib.go (`CmLib`): how labels and annotations are merged into a config map and written.
-- - cmd/main.go: the command is `Command`. `Command.Config` holds the flags, as records of settings
--   with their defaults, and the environment variables that override them; `.Pairs` the extra
--   variables for the scan pod; `.Queue` the address of the broker and the configuration of its
--   client; `.Calls` what is asked of the manager of the controllers and of the cron library; and
--   `Command` itself the check for a token alone, the configuration of each part and the start of the
--   parts. The two cron jobs (`Crons`) delete processed config maps and free deferred ones;
--   `mqWriteObject` stands with the post-processor that uses it (`PostProcess.InsightsCore`). Proofs
--   are in `Command.Variables`, `.Unset`, `.Reader`, `.Address`, `.Plan` and `.Parts`; in `.Each`,
--   `.Harmless`, `.Published` and `.Shipping` for the reconciler of config maps with the
--   post-processors that the program gives it, in `.Lifecycle` for what becomes of one config map,
--   step by step, while the reconciler, the job that ends deferrals and the rest of the program run,
--   and in `.Tokens` for the reconciler of namespaces and the web service together.
-- - internal/postprocess (`PostProcess`): the interface that the reconciler calls, and its
--   implementations: insights_core (`PostProcess.InsightsCore`) and dependency_track
--   (`PostProcess.Templates`, `PostProcess.DependencyTrack`).
-- - internal/tokens/jwt.go (`Tokens`): the tokens that the web service accepts.
-- - internal/controller/namespace_controller.go (`Namespaces`): puts a token into each namespace.
-- - internal/service/service.go (`Service`): takes facts and problems with such a token.
-- - internal/controller/build_controller.go (`Builds`): starts a scan of the images of a namespace
--   after a build; `Builds.ScanPod` is the pod it starts, `Builds.Rescan` and `Builds.Refused` hold
--   the proofs of what a reconciliation does.
--
-- The parts meet in the objects of the cluster: a config map that the reconciler labels as deferred
-- is freed by a cron job, whose update is an event that the filter lets in again; the namespace
-- reconciler writes the tokens that the web service reads, both under the secret of the settings.
-- `Events` is what a filter sees; `Command.Lifecycle` and `Command.Tokens` are about parts together.
--
-- How Go is modelled:
--
-- - A function that calls the outside is an `Action`: it takes the trace of the calls made before,
--   latest first, and returns an `Outcome` (a value, an error or a panic) with the longer trace. So
--   the order of the calls is part of every result, and what was done before an error stays done;
--   `World.Extends` is about actions that only add calls. The methods of the source have the same
--   names here, and a `Reconcile` is called `reconcile`.
-- - The answers of the Kubernetes API, the broker, Dependency Track and the clock are a parameter, the
--   `World`: functions of the trace, so that an answer may depend on all that was done. No theorem
--   assumes an answer but where it says so.
-- - JSON, JWT, text/template, gzip and base64 are parameters too (`Json`, `Jwt`, `Engine`,
--   `Libraries`), as functions of their input; what `Tokens.RoundTrip` assumes of JWT is stated there.
-- - A map is a list of entries in the order in which a range over it goes, and nil is `none`. A string
--   and a byte slice are both a text. An int is an integer that wraps at 64 bits where the source adds
--   to it. A pointer that may be nil is an `Option`.
-- - Loops are recursions over the lists that they range over. The wait for an upload is a loop until a
--   timeout: the number of ticks before the timeout is an answer of the `World`, which ends the loop.
--   `Base.Text.Decimal` prints a number in as many rounds as it may have digits. No other fuel occurs.
-- - The start of the program is a sequence of calls with a log of its own (`Command.Calls`), whose
--   answers are a parameter too; the readers of environment variables are the parameter `Environment`.
--
-- Not modelled: the log output, which decides nothing; the parsing of the command line, which the flag
-- library does, so that the model starts from the flags with their values; when the schedules of the
-- cron jobs let them run; the concurrency of reconciliations, each of which is one sequence of calls;
-- the selector of labels that does not parse, since the labels are constants; the tests. The
-- configuration of the client of the broker is a definition, but the `World` answers for the broker
-- whatever it says.
pub mod Base
pub mod Types
pub mod World
pub mod Events
pub mod CmLib
pub mod PostProcess
pub mod Tokens
pub mod Namespaces
pub mod Builds
pub mod Command
pub mod Crons
pub mod Retries
pub mod Service
pub mod ConfigMaps
mod Tests
