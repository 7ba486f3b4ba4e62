-- ===== src/Tests/Tracking.antt =====
-- A message sent to Dependency Track and to Lagoon core, and the theorems about it.
use insights_remote.Base.{
  String, none, some, [], ◌∷◌, ◌≡◌, ◌≢◌, refl, true, false, inr, arith, eq_iff, ◌==◌,
}
use insights_remote.Base.Maps.{lookup}
use insights_remote.Base.Exec.{ok, panic}
use insights_remote.Types.{LagoonInsightsMessage}
use insights_remote.World.{
  Trace, create_project, start_ticker, is_being_processed, upload_bom, insights, projects_for_name,
}
use insights_remote.PostProcess.InsightsCore.{mq_write_object}
use insights_remote.PostProcess.InsightsCore.Closed.{Closes, mq_write_object-Closes}
use insights_remote.PostProcess.Templates.{
  WriteInfo, Templates, new_template, get_write_info, process_all, template_values,
  process_template,
}
use insights_remote.PostProcess.DependencyTrack
use insights_remote.PostProcess.DependencyTrack.{
  Libraries, new_project, get_or_create_project, find_child, poll, await, store, parent_projects,
  upload_request,
}
use insights_remote.PostProcess.DependencyTrack.Chain.{IsStored, store-IsStored}
use insights_remote.PostProcess.DependencyTrack.Panics.{post_process-ne-panic, post_process_panics}
use insights_remote.PostProcess.DependencyTrack.Upload.{post_process_skips}
use insights_remote.PostProcess.DependencyTrack.Wait.{Awaits, poll-Awaits}
use insights_remote.Tests.Fixtures.{world, root_project}

-- A template is its own text, and nothing is zipped.
abbrev pub plain_libraries : Libraries
plain_libraries = record {
  engine = λ text. inr (λ values. inr text);
  gunzip = λ b. inr b;
  base64 = λ b. b;
}

pub differs : (a b : String) → (a == b) ≡ false → a ≢ b
differs a b h = ground (arith, eq_iff a b, h)

abbrev bill_of : String → LagoonInsightsMessage
bill_of environment_type = record {
  payload = none;
  binary_payload = some (("sbom", "bom") ∷ []);
  annotations = some (("dependencytrack.insights.lagoon.sh/custom-endpoint", "https://track") ∷ []);
  labels =
      some (("lagoon.sh/service", "cli") ∷ ("lagoon.sh/environmentType", environment_type) ∷ []);
  namespace = "shop";
  environment = "main";
  service = "cli";
  project = "web";
  message_type = "sbom";
}

abbrev templates : Templates
templates = new_template "" "web" "cli" "main"

-- The definitions that the names of a message go through.
unfoldable message_names : Unit {0}
unfolding get_write_info process_all template_values process_template new_template lookup
message_names = tt

post_process_skips_example :
    DependencyTrack.post_process plain_libraries world true templates (bill_of "development") []
    ≡ (ok tt, [])
unfolding message_names
post_process_skips_example =
    post_process_skips plain_libraries world templates (bill_of "development") []
      (differs "development" "production" refl)

post_process-ne-panic_example :
    (DependencyTrack.post_process plain_libraries world true templates (bill_of "production") []).0
    ≢ panic
post_process-ne-panic_example =
    post_process-ne-panic plain_libraries world true "" "web" "cli" "main" (bill_of "production") []
      (differs "web" "" refl)

post_process_panics_example :
    DependencyTrack.post_process plain_libraries world false
      (new_template "root" "" "cli" "main")
      (bill_of "production")
      []
    ≡ (panic, [])
unfolding message_names
post_process_panics_example =
    post_process_panics plain_libraries world false "root" "cli" "main" (bill_of "production") []
      refl refl refl

poll-Awaits_example : Awaits world "token" 3 (start_ticker ∷ []) (poll world "token" [])
poll-Awaits_example = poll-Awaits world "token" []

mq_write_object-Closes_example :
    Closes world
      (insights (bill_of "production"))
      []
      (mq_write_object world (insights (bill_of "production")) [])
mq_write_object-Closes_example = mq_write_object-Closes world (insights (bill_of "production")) []

abbrev bill_info : WriteInfo
bill_info = record {
  parent_project_names = "web" ∷ "web-main" ∷ [];
  project_name = "cli";
  project_version = "main";
}

abbrev stored : Trace
stored =
    is_being_processed "token"
    ∷ start_ticker
    ∷ upload_bom
        (upload_request plain_libraries world bill_info (bill_of "production") root_project "bom")
    ∷ create_project (new_project world "web-main" (some "u1") false)
    ∷ projects_for_name "web-main"
    ∷ create_project (new_project world "web" none false)
    ∷ projects_for_name "web"
    ∷ []

bill_stored : store plain_libraries world bill_info (bill_of "production") [] ≡ (ok tt, stored)
unfolding store parent_projects get_or_create_project poll await
bill_stored = refl

store-IsStored_example : IsStored plain_libraries world bill_info (bill_of "production") [] stored
store-IsStored_example =
    store-IsStored plain_libraries world bill_info (bill_of "production") [] stored bill_stored
