-- ===== src/Tests/Service.antt =====
-- A web service with one fact to send, and the theorems about who may send with it.
use insights_remote.Base.{String, none, some, [], ◌∷◌, ◌≡◌, refl, true, inl, inr}
use insights_remote.Base.Exec.{ok}
use insights_remote.Types.{Fact}
use insights_remote.World.{mq_produce, reply, unauthorized}
use insights_remote.Service.{Json, Router, Request, remove_facts, handle}
use insights_remote.Service.Access.{handle-Refuses}
use insights_remote.Tests.Fixtures.{broken}
use insights_remote.Tests.Tokens.{tokens, shop_jwt}

abbrev php : Fact
php = record {
  environment_id = "";
  project_name = "";
  environment_name = "";
  name = "php";
  value = "8.3";
  source = "";
  description = "";
  fact_type = "TEXT";
  category = "";
  service = "cli";
}

abbrev one_fact : Json
one_fact = record {
  bind_problems = λ body. inl broken;
  read_fact_list = λ body. inr (php ∷ []);
  read_facts = λ body m. inl broken;
  print_facts = λ m. inr m.project_name;
  print_problems = λ m. inr m.project_name;
  print_delete = λ m. inr m.message_type;
}

abbrev routed : Router
routed = record {
  secret = "key";
  message_q_writer = λ p t. (ok tt, mq_produce p ∷ t);
  write_to_queue = true;
}

abbrev asked : String → Request
asked token = record {
  header_error = none;
  authorization = token;
  source = "";
  service = "";
  body = "[]";
}

handle-Refuses_example :
    handle shop_jwt one_fact routed remove_facts (asked "forged") []
    ≡ (ok tt, reply 401 (unauthorized broken) ∷ [])
unfolding tokens
handle-Refuses_example =
    handle-Refuses shop_jwt one_fact routed (asked "forged") [] remove_facts
      (ok (
        record { namespace = ""; environment_id = ""; project_name = ""; environment_name = "" },
        some broken,
      ))
      refl
