-- ===== src/Workflow/Tests.antt =====
-- The workflow on a Run that publishes an App, and on a phase that fails three times
-- (backend/agent/durable_workflow.py).
use ambient_agent.Prelude.{
  ℕ, zero, suc, ◌≤◌, ◌≡◌, refl, true, false, none, some, List, [], ◌∷◌, ◌++◌,
}
use ambient_agent.Prelude.Texts.{codes}
use ambient_agent.Json.{str, truthy}
use ambient_agent.Workflow.{
  wait_plan, wait_schema, wait_graph_approval, checked, Response, answered, route, IntentKind,
  SubIntent, State, Failure, no_effect, failing, raised, returned, approve, resolved, generated,
  Answers, Event, plan_approved, schema_approved, app_verified, app_published, mutation_approved,
  mutation_committed,
}
use ambient_agent.Workflow.Handlers.{
  is_blank, finish_subflow, phase_route, phase_multi_preflight, phase_multi_dispatch,
  phase_graph_preflight, phase_wait_graph_approval, phase_graph_commit,
}
use ambient_agent.Workflow.Widget.{
  phase_plan, phase_wait_plan, phase_align_schema, phase_wait_schema, phase_stage_code,
  phase_verify, phase_promote,
}
use ambient_agent.Workflow.Reduce.{
  reduce_read, reduce_read, Step, Outcome, failed, final, handle, may_retry, conclude_failure,
  conclude, reduce_once, is_live, initial_state, Reach, begins, steps,
}
use ambient_agent.Workflow.Approval.{Justified, retries_of}
use ambient_agent.Workflow.Approval.Runs.{reported-Justified, retries_bounded}

abbrev consent : Response
consent = record { action = approve; plan_text = []; proposal = none; feedback = [] }

-- A user who approves, models that answer, and services that do what they are asked.
abbrev good : Answers
good = record {
  source_id = none;
  admitted = returned tt;
  interaction = resolved consent;
  routed = returned (record {
    intent = record { kind = IntentKind.widget_create; app_id = some "habits" };
    sub_intents = [];
    deprecated = false;
  });
  conversed = returned tt;
  queried = returned tt;
  generated_plan = returned (codes "A habit list");
  refined_plan = returned (codes "A shorter habit list");
  reviewed = returned tt;
  aligned = returned (str "proposal");
  merged = λ aligned old. aligned;
  effective_schemas = λ proposal. returned tt;
  validated = λ proposal. some proposal;
  contract_of = λ proposal. str "contract";
  recovered = returned (str "inputs");
  refined_proposal = λ inputs. returned (str "proposal");
  features_checked = λ contract. returned tt;
  coded = generated (str "artifact");
  staged_checked = λ staged contract. returned tt;
  diff = λ staged contract. returned (record { is_clean = true; report = [] });
  extensions = none;
  discarded = returned tt;
  promotion_checked = λ staged contract. returned tt;
  schema_committed = λ approved. returned tt;
  artifact_promoted = λ staged. returned tt;
  schema_restored = returned tt;
  widget_found = true;
  canvas_saved = returned tt;
  preflighted_actions = returned (str "actions");
  actions_committed = λ actions. returned (str "compensation");
  preflighted_intents = returned [];
  compensated = returned tt;
  dumped = λ v. [];
}

abbrev one_step : SubIntent
one_step = record { extend_schema_props = none; feedback = none }

abbrev flaky : Failure
flaky = record { code = "model_unavailable"; retryable = true; effect = no_effect }

-- The router's model is not available.
abbrev down : Answers
down = record good { routed = raised flaky }

-- The checkpoint and the log after a number of steps with the same answers.
abbrev after : Answers → ℕ → Step → Step
after a zero n = n
after a (suc k) n = after a k (
    let m = reduce_once a n.state in
    record { state = m.state; outcome = m.outcome; events = m.events ++ n.events })

abbrev start : Step
start = record { state = initial_state 2 none; outcome = Outcome.continued; events = [] }

published :
    (after good 8 start).events
    ≡ app_published (str "artifact") (str "contract")
      ∷ app_verified (str "artifact") (str "contract")
      ∷ checked (str "artifact") (str "contract") (record { is_clean = true; report = [] })
      ∷ schema_approved (str "proposal") (str "contract")
      ∷ answered wait_schema consent
      ∷ plan_approved (codes "A habit list")
      ∷ answered wait_plan consent
      ∷ []
unfolding reduce_once reduce_read handle conclude conclude_failure may_retry is_blank finish_subflow
    phase_route phase_plan phase_wait_plan phase_align_schema phase_wait_schema phase_stage_code
    phase_verify phase_promote truthy
published = refl

third_failure : (after down 3 start).outcome ≡ failed (final no_effect flaky)
unfolding reduce_once reduce_read handle conclude conclude_failure may_retry phase_route
third_failure = refl

advance :
    {s : State} {log : List Event} (a : Answers)
    → Reach s log
    → is_live (reduce_once a s).outcome ≡ true
    → Reach (reduce_once a s).state ((reduce_once a s).events ++ log)
advance a r h = steps a r (reduce_once a _) refl h

ready_to_publish : Reach (after good 7 start).state (after good 7 start).events
unfolding reduce_once reduce_read handle conclude conclude_failure may_retry is_blank finish_subflow
    phase_route phase_plan phase_wait_plan phase_align_schema phase_wait_schema phase_stage_code
    phase_verify phase_promote truthy
ready_to_publish =
    advance good
      (advance good
        (advance good
          (advance good (advance good (advance good (advance good (begins 2 none) refl) refl) refl)
            refl)
          refl)
        refl)
      refl

failed_twice : Reach (after down 2 start).state (after down 2 start).events
unfolding reduce_once reduce_read handle conclude conclude_failure may_retry phase_route
failed_twice = advance down (advance down (begins 2 none) refl) refl

reported-Justified_example :
    Justified ((reduce_once good (after good 7 start).state).events ++ (after good 7 start).events)
reported-Justified_example = reported-Justified ready_to_publish good

retries_bounded_example :
    (retries_of route
        ((reduce_once down (after down 2 start).state).events ++ (after down 2 start).events)
      ≤ 2)
    × ((after down 2 start).state.values.phase_retries route
        ≡ retries_of route (after down 2 start).events)
retries_bounded_example = retries_bounded failed_twice down route

-- A saga of a graph mutation and a conversation, whose model has gone away.
abbrev saga : Answers
saga = record good {
  routed = returned (record {
    intent = record { kind = IntentKind.multi_intent; app_id = none };
    sub_intents = one_step ∷ one_step ∷ [];
    deprecated = false;
  });
  preflighted_intents = returned (
      record { kind = IntentKind.graph_mutation; app_id = none }
      ∷ record { kind = IntentKind.converse_intent; app_id = none }
      ∷ []);
  conversed = raised (failing "LLMConfigError");
}

committed_log :
    (after saga 7 start).events
    ≡ mutation_committed (str "actions")
      ∷ mutation_approved (str "actions")
      ∷ answered wait_graph_approval consent
      ∷ []
unfolding reduce_once reduce_read handle conclude conclude_failure may_retry finish_subflow
    phase_route phase_multi_preflight phase_multi_dispatch phase_graph_preflight
    phase_wait_graph_approval phase_graph_commit truthy
committed_log = refl
