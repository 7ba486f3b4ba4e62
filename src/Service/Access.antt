-- ===== src/Service/Access.antt =====
-- Who may send: what the handlers of internal/service/service.go do with a token that is not valid,
-- and with one that is.
use insights_remote.Base.{
  ◌∙◌, sym, String, Option, none, some, List, [], ◌∷◌, ◌++◌, ◌≡◌, ◌⊎◌, inl, inr, refl, arith,
}
use insights_remote.Base.Int.{ℤ}
use insights_remote.Base.Exec.{Error, Outcome, ok, err, panic}
use insights_remote.Base.Text.Decimal.{NumError, parse_int}
use insights_remote.Tokens.{
  NamespaceDetails, Jwt, validate_and_extract_namespace_details_from_token,
}
use insights_remote.Types.{Facts, Problem, Bytes}
use insights_remote.World.{
  Action, Trace, Body, plain, unauthorized, failure, of_error, of_number, reply,
}
use mathlib.Core.Path.{subst}
use insights_remote.Service.Delivery.{Delivers, deliver-Delivers}
use insights_remote.Service.Stamps.{IsOwned, AreOwned, stamp_facts-IsOwned, stamp_problems-AreOwned}
use insights_remote.Service.{
  Json, Router, Request, Route, post_facts, post_problems, remove_problems, remove_facts, handle,
  write_facts, write_problems, delete_problems, delete_facts, generate_deletion_message, authorized,
  bind_header, answer, with_environment, deliver, stamp_facts, stamp_problems, read_details,
}

-- The answer to a header that does not bind, which does not end the handler.
abbrev pub header_answer : Request → Trace
header_answer q = elim q.header_error [ none ↦ [] | some e ↦ reply 200 (plain e) ∷ [] ]

-- A handler behind the check of the token: the answer of the check, and what is done with its details.
abbrev judged :
    Outcome (NamespaceDetails × Option Error)
    → (NamespaceDetails → Action (Unit {0}))
    → Action (Unit {0})
judged (ok (d, none)) k s = k d s
judged (ok (d, some e)) k s = answer 401 (unauthorized e) s
judged (err e) k s = (err e, s)
judged panic k s = (panic, s)

module _ (j : Jwt) (json : Json) (r : Router) (q : Request) (t : Trace) where
  -- The check of the token comes first in every handler.
  abbrev pub check_of_token : Outcome (NamespaceDetails × Option Error)
  check_of_token = validate_and_extract_namespace_details_from_token j r.secret q.authorization

  authorized-judged :
      (k : NamespaceDetails → Action (Unit {0})) (v : Outcome (NamespaceDetails × Option Error))
      → check_of_token ≡ v
      → authorized j json r q k t ≡ judged v k (header_answer q ++ t)
  unfolding authorized bind_header
  authorized-judged k (ok (d, none)) h = ground (arith, h)
  authorized-judged k (ok (d, some e)) h = ground (arith, h)
  authorized-judged k (err e) h = ground (arith, h)
  authorized-judged k panic h = ground (arith, h)

  -- Every route is a handler behind the check.
  handle-authorized :
      (route : Route)
      → (k : NamespaceDetails → Action (Unit {0})) × (handle j json r route q t
          ≡ authorized j json r q k t)
  unfolding handle write_facts write_problems delete_problems delete_facts generate_deletion_message
  handle-authorized post_facts = (_, refl)
  handle-authorized post_problems = (_, refl)
  handle-authorized remove_problems = (_, refl)
  handle-authorized remove_facts = (_, refl)

  -- The handler answers 401 with the error, or ends as the check of the token does.
  abbrev pub Refuses : Route → Outcome (NamespaceDetails × Option Error) → Type 0
  Refuses route (ok (d, none)) = Unit
  Refuses route (ok (d, some e)) =
      handle j json r route q t ≡ (ok tt, reply 401 (unauthorized e) ∷ (header_answer q ++ t))
  Refuses route (err e) = handle j json r route q t ≡ (err e, header_answer q ++ t)
  Refuses route panic = handle j json r route q t ≡ (panic, header_answer q ++ t)

  -- Whatever the request and the route, a token that the check does not accept is refused: the
  -- handler answers 401 with the error of the check, or panics where the library leaves it a nil
  -- token, and sends nothing. Only the answer to a header that does not bind may come before.
  pub handle-Refuses :
      (route : Route) (v : Outcome (NamespaceDetails × Option Error))
      → check_of_token ≡ v
      → Refuses route v
  handle-Refuses route (ok (d, none)) h = tt
  handle-Refuses route (ok (d, some e)) h =
      let (k, is_authorized) = handle-authorized route in
      is_authorized ∙ authorized-judged k (ok (d, some e)) h
  handle-Refuses route (err e) h =
      let (k, is_authorized) = handle-authorized route in
      is_authorized ∙ authorized-judged k (err e) h
  handle-Refuses route panic h =
      let (k, is_authorized) = handle-authorized route in
      is_authorized ∙ authorized-judged k panic h

  -- What a route sends for the details of a token, whose environment is the number `n`.
  abbrev pub Carries : Route → NamespaceDetails → ℤ → Error ⊎ Bytes → Type 0
  Carries post_facts d n x =
      (m : Facts) × (read_details json q.body ≡ inr m)
      × (x ≡ json.print_facts (stamp_facts d n m))
      × IsOwned d n (stamp_facts d n m)
  Carries post_problems d n x =
      (ps : List Problem) × (json.bind_problems q.body ≡ inr ps)
      × (x ≡ json.print_problems (stamp_problems d n ps))
      × AreOwned d n (stamp_problems d n ps)
  Carries remove_problems d n x =
      x
      ≡ json.print_delete (record {
        message_type = "direct.delete.problems";
        environment_id = n;
        source = q.source;
        service = q.service;
      })
  Carries remove_facts d n x =
      x
      ≡ json.print_delete (record {
        message_type = "direct.delete.facts";
        environment_id = n;
        source = q.source;
        service = q.service;
      })

  abbrev pub Unreadable : Route → Type 0
  Unreadable post_facts = (e : Error) × (read_details json q.body ≡ inl e)
  Unreadable post_problems = (e : Error) × (json.bind_problems q.body ≡ inl e)
  Unreadable route = ⊥

  -- The handler behind the check.
  abbrev pub Serves : Route → NamespaceDetails → Type 0
  Serves route d =
      ((body : Body) × (handle j json r route q t
          ≡ (ok tt, reply 400 body ∷ (header_answer q ++ t)))
        × (Unreadable route
            ⊎ ((n : ℤ) × (e : NumError) × (parse_int 32 d.environment_id ≡ (n, some e)))))
      ⊎ ((n : ℤ) × (x : Error ⊎ Bytes) × (parse_int 32 d.environment_id ≡ (n, none))
          × Carries route d n x
          × Delivers r (header_answer q ++ t) x (handle j json r route q t))

  environment-cases :
      (status : String) (d : NamespaceDetails) (k : ℤ → Action (Unit {0})) (s : Trace)
      → ((body : Body) × (with_environment j json r q status d k s ≡ (ok tt, reply 400 body ∷ s))
          × ((n : ℤ) × (e : NumError) × (parse_int 32 d.environment_id ≡ (n, some e))))
        ⊎ ((n : ℤ) × (parse_int 32 d.environment_id ≡ (n, none))
            × (with_environment j json r q status d k s ≡ k n s))
  unfolding with_environment
  environment-cases status d k s = split_on (parse_int 32 d.environment_id) refl
    where
      split_on :
          (p : ℤ × Option NumError)
          → parse_int 32 d.environment_id ≡ p
          → ((body : Body) × (with_environment j json r q status d k s
                ≡ (ok tt, reply 400 body ∷ s))
              × ((n : ℤ) × (e : NumError) × (parse_int 32 d.environment_id ≡ (n, some e))))
            ⊎ ((n : ℤ) × (parse_int 32 d.environment_id ≡ (n, none))
                × (with_environment j json r q status d k s ≡ k n s))
      split_on (n, none) h = inr (n, h, ground (arith, h))
      split_on (n, some e) h =
          inl (failure status (of_number d.environment_id e), ground (arith, h), (n, e, h))

  sends_message :
      (route : Route) (d : NamespaceDetails) (status : String)
      (k : NamespaceDetails → Action (Unit {0})) (message : ℤ → Error ⊎ Bytes)
      → check_of_token ≡ ok (d, none)
      → handle j json r route q t ≡ authorized j json r q k t
      → k d (header_answer q ++ t)
        ≡ with_environment j json r q status d (λ n. deliver r (message n)) (header_answer q ++ t)
      → ((n : ℤ) → Carries route d n (message n))
      → Serves route d
  sends_message route d status k message h is_authorized is_sent carried =
      elim (environment-cases status d (λ n. deliver r (message n)) (header_answer q ++ t)) [
        | inl (body, failed, unread) ↦ inl (
          body,
          is_authorized ∙ authorized-judged k (ok (d, none)) h ∙ is_sent ∙ failed,
          inr unread,
        )
        | inr (n, read, sent) ↦ inr (
          n,
          message n,
          read,
          carried n,
          subst (Delivers r (header_answer q ++ t) (message n))
              (sym (is_authorized ∙ authorized-judged k (ok (d, none)) h ∙ is_sent ∙ sent))
              (deliver-Delivers r (header_answer q ++ t) (message n)),
        )
      ]

  pub handle-Serves :
      (route : Route) (d : NamespaceDetails) → check_of_token ≡ ok (d, none) → Serves route d
  unfolding handle write_facts write_problems delete_problems delete_facts generate_deletion_message
  handle-Serves post_facts d h = split_on (read_details json q.body) refl
    where
      split_on : (x : Error ⊎ Facts) → read_details json q.body ≡ x → Serves post_facts d
      split_on (inl e) unread = inl (
        failure "Unable to parse incoming data" (of_error e),
        authorized-judged _ (ok (d, none)) h ∙ ground (arith, unread),
        inl (e, unread),
      )
      split_on (inr m) read =
          sends_message post_facts d "Unable to parse environment ID" _
            (λ n. json.print_facts (stamp_facts d n m)) h refl (ground (arith, read))
            (λ n. (m, read, refl, stamp_facts-IsOwned d n m))
  handle-Serves post_problems d h = split_on (json.bind_problems q.body) refl
    where
      split_on : (x : Error ⊎ List Problem) → json.bind_problems q.body ≡ x → Serves post_problems d
      split_on (inl e) unread = inl (
        failure "Unable to parse incoming data" (of_error e),
        authorized-judged _ (ok (d, none)) h ∙ ground (arith, unread),
        inl (e, unread),
      )
      split_on (inr ps) read =
          sends_message post_problems d "Unable to parse environment ID" _
            (λ n. json.print_problems (stamp_problems d n ps)) h refl (ground (arith, read))
            (λ n. (ps, read, refl, stamp_problems-AreOwned d n ps))
  handle-Serves remove_problems d h =
      sends_message remove_problems d "BAD REQUEST" _ _ h refl refl (λ n. refl)
  handle-Serves remove_facts d h =
      sends_message remove_facts d "BAD REQUEST" _ _ h refl refl (λ n. refl)
