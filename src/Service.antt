-- ===== src/Service.antt =====
-- internal/service/service.go: the web service that takes facts and problems and ships them. The
-- decoding and the printing of JSON, of gin and of the Kubernetes utilities, are the parameter `Json`.
pub mod Access
pub mod Delivery
pub mod Stamps
use insights_remote.Base.{
  ℕ, String, Option, none, some, List, [], ◌∷◌, map, Bool, true, false, ◌==◌, ◌⊎◌, inl, inr,
  if◌then◌else◌,
}
use insights_remote.Base.Int.{ℤ, pos}
use insights_remote.Base.Exec.{Error, Outcome, ok, err, panic, pure, lift, attempt, ◌>>=◌, ◌>>◌}
use insights_remote.Base.Text.Decimal.{NumError, parse_int}
use insights_remote.Tokens.{
  NamespaceDetails, Jwt, validate_and_extract_namespace_details_from_token,
}
use insights_remote.Types.{
  Bytes, Fact, Facts, Problem, Problems, DirectDeleteMessage, delete_facts_type,
  delete_problems_type,
}
use insights_remote.World.{
  Action, Payload, bytes, Message, of_error, of_number, Body, okay, unauthorized, failure, plain,
  reply,
}

pub record Json : Type 0 where
  pub bind_problems : Bytes → Error ⊎ List Problem
  pub read_fact_list : Bytes → Error ⊎ List Fact
  pub read_facts : Bytes → Facts → Error ⊎ Facts
  pub print_facts : Facts → Error ⊎ Bytes
  pub print_problems : Problems → Error ⊎ Bytes
  pub print_delete : DirectDeleteMessage → Error ⊎ Bytes

pub record Router : Type 0 where
  pub secret : String
  pub message_q_writer : Payload → Action (Unit {0})
  pub write_to_queue : Bool

-- A request: the header, with the error of binding it, the parameters of the path and the body.
pub record Request : Type 0 where
  pub header_error : Option Error
  pub authorization : String
  pub source : String
  pub service : String
  pub body : Bytes

abbrev pub answer : ℕ → Body → Action (Unit {0})
answer code body t = (ok tt, reply code body ∷ t)

unfoldable pub write_to_queue : Router → Bytes → Action (Unit {0})
write_to_queue r json = if r.write_to_queue then r.message_q_writer (bytes json) else pure tt

-- What the handlers do with the JSON to send.
unfoldable pub deliver : Router → Error ⊎ Bytes → Action (Unit {0})
unfolding write_to_queue
deliver r (inl e) = answer 500 (plain e)
deliver r (inr json) = do
  sent ← attempt (write_to_queue r json)
  elim sent [ inl e ↦ answer 500 (plain e) | inr _ ↦ answer 200 okay ]

abbrev default_source : String
default_source = "InsightsRemoteWebService"

abbrev or_default : String → String
or_default source = if source == "" then default_source else source

unfoldable pub stamp_fact : NamespaceDetails → Fact → Fact
stamp_fact d f = record f {
  environment_id = d.environment_id;
  environment_name = d.environment_name;
  project_name = d.project_name;
  source = or_default f.source;
}

unfoldable pub stamp_facts : NamespaceDetails → ℤ → Facts → Facts
unfolding stamp_fact
stamp_facts d n details = record details {
  environment_id = n;
  project_name = d.project_name;
  environment_name = d.environment_name;
  facts = map (stamp_fact d) details.facts;
}

unfoldable pub stamp_problem : ℤ → Problem → Problem
stamp_problem n p = record p { environment_id = n; source = or_default p.source }

unfoldable pub stamp_problems : NamespaceDetails → ℤ → List Problem → Problems
unfolding stamp_problem
stamp_problems d n ps = record {
  environment_id = n;
  project_name = d.project_name;
  environment_name = d.environment_name;
  problems = map (stamp_problem n) ps;
  message_type = "direct.problems";
}

abbrev no_facts : Facts
no_facts = record {
  environment_id = pos 0;
  project_name = "";
  environment_name = "";
  facts = [];
  message_type = "direct.facts";
}

-- The two ways to read the facts: a list of them, or the whole message.
unfoldable pub read_details : Json → Bytes → Error ⊎ Facts
read_details json body = elim (json.read_fact_list body) [
  | inr facts ↦ inr (record no_facts { facts = facts })
  | inl _ ↦ json.read_facts body no_facts
]

module _ (j : Jwt) (json : Json) (r : Router) (q : Request) where
  -- The error of binding the header is answered, and does not end the handler.
  unfoldable pub bind_header : Action (Unit {0})
  bind_header = elim q.header_error [ none ↦ pure tt | some e ↦ answer 200 (plain e) ]

  -- The head of each handler: what is left is done with the details of a valid token.
  unfoldable pub authorized : (NamespaceDetails → Action (Unit {0})) → Action (Unit {0})
  unfolding bind_header
  authorized handler = do
    bind_header
    (d, e) ← lift (validate_and_extract_namespace_details_from_token j r.secret q.authorization)
    elim e [ some x ↦ answer 401 (unauthorized x) | none ↦ handler d ]

  -- The environment of the details as a number, or an answer.
  unfoldable pub with_environment :
      String → NamespaceDetails → (ℤ → Action (Unit {0})) → Action (Unit {0})
  with_environment status d handler =
      let (n, e) = parse_int 32 d.environment_id in
      elim e [
        | some x ↦ answer 400 (failure status (of_number d.environment_id x))
        | none ↦ handler n
      ]

  unfoldable pub write_facts : Action (Unit {0})
  unfolding authorized with_environment deliver read_details
  write_facts = authorized λ d. elim (read_details json q.body) [
    | inl e ↦ answer 400 (failure "Unable to parse incoming data" (of_error e))
    | inr details ↦
        with_environment "Unable to parse environment ID" d
          λ n. deliver r (json.print_facts (stamp_facts d n details))
  ]

  unfoldable pub write_problems : Action (Unit {0})
  unfolding authorized with_environment deliver
  write_problems = authorized λ d. elim (json.bind_problems q.body) [
    | inl e ↦ answer 400 (failure "Unable to parse incoming data" (of_error e))
    | inr problems ↦
        with_environment "Unable to parse environment ID" d
          λ n. deliver r (json.print_problems (stamp_problems d n problems))
  ]

  unfoldable pub generate_deletion_message : String → Action (Unit {0})
  unfolding authorized with_environment deliver
  generate_deletion_message deletion_type = authorized λ d. with_environment "BAD REQUEST" d λ n.
      deliver r (
        json.print_delete (record {
          message_type = deletion_type;
          environment_id = n;
          source = q.source;
          service = q.service;
        }))

  unfoldable pub delete_problems : Action (Unit {0})
  unfolding generate_deletion_message
  delete_problems = generate_deletion_message delete_problems_type

  unfoldable pub delete_facts : Action (Unit {0})
  unfolding generate_deletion_message
  delete_facts = generate_deletion_message delete_facts_type

-- The handlers that `SetupRouter` installs.
pub data Route : Type 0 where
  post_facts post_problems remove_problems remove_facts : Route

unfoldable pub handle : Jwt → Json → Router → Route → Request → Action (Unit {0})
unfolding write_facts write_problems delete_problems delete_facts
handle j json r post_facts q = write_facts j json r q
handle j json r post_problems q = write_problems j json r q
handle j json r remove_problems q = delete_problems j json r q
handle j json r remove_facts q = delete_facts j json r q
