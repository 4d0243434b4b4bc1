-- ===== src/Runs/Tests/Questions.antt =====
-- Commits, questions, answers and cancellation on a store of one Run.
use ambient_agent.Prelude.{
  ℕ, any, String, ◌≡◌, refl, true, false, Option, none, some, List, [], ◌∷◌,
}
use ambient_agent.Prelude.Table.{lookup}
use ambient_agent.Json.{
  Fields, null, bool, str, obj, field, end, get, get_or, fields_of, truthy, is_object,
}
use ambient_agent.Runs.Status.{
  queued, running, waiting_user, needs_attention, failed, succeeded, is_terminal, transitions,
}
use ambient_agent.Runs.State.{default_state, apply_development_budget_policy}
use ambient_agent.Runs.Budget.{PolicyKeeps, apply_development_budget_policy-PolicyKeeps}
use ambient_agent.Runs.Rows.{Run, StepStatus, Interaction, InteractionStatus, Store, sql_null}
use ambient_agent.Runs.Errors.{ok, err, value_error, not_reconcilable}
use ambient_agent.Runs.Events.{Lease, holds_lease, column_fields}
use ambient_agent.Runs.Steps.{begin_step_attempt, is_fenced, last_attempt, is_attempt}
use ambient_agent.Runs.Claim.{is_candidate}
use ambient_agent.Runs.Transition.{transition, allowed}
use ambient_agent.Runs.Outcome.{target_of, target_of, Question, Verdict, proceed}
use ambient_agent.Runs.Commit.{
  settle_interactions, Attempt, commit_step, accepts_commit, find_attempt, prepare,
  settle_interactions,
}
use ambient_agent.Runs.Interactions.{
  Answer, has_payload, opens_grant, is_approved, permission_type, resolve_interaction,
  resolved_target,
}
use ambient_agent.Runs.Staging.{Fault}
use ambient_agent.Runs.Cancel.{Promotion, handling_of, effect_data, request_cancel}
use ambient_agent.Runs.Reconcile.{
  confirmed_not_committed, Resolution, reconcile_effect, cleanup_blocked, reads_no_code,
}
use ambient_agent.Runs.Trace.{Call, perform, perform_all}
use ambient_agent.Runs.Answering.{Resolved, resolve_interaction_resolves, approved_permission_waits}
use ambient_agent.Runs.Settlement.{Settled, commit_step_settles}
use ambient_agent.Runs.Quiet.{NonePending}
use ambient_agent.Runs.Guards.{transition_ends, begin_step_attempt_fresh}
use ambient_agent.Runs.Cancellation.{CancelDecided, request_cancel_decides, reconcile_effect_final}
use ambient_agent.Runs.Tests.{run_of, step_of, store_of}

abbrev worker_lease : Lease
worker_lease = record { owner = "w1"; epoch = 1 }

abbrev busy_run : Run
busy_run = run_of running (some "w1") 1

abbrev busy : Store
busy = store_of (step_of StepStatus.running ∷ []) [] busy_run

abbrev attempt_of : Verdict → Attempt
attempt_of v = record {
  run_id = "r";
  step_key = "route";
  attempt = 1;
  lease = worker_lease;
  state = default_state;
  outcome = record { verdict = v; summary = "done"; output = null; events = [] };
  now = 5;
}

commit_step_settles_example :
    (r : Run) × Settled
      (attempt_of (proceed none))
      r
      busy
      (perform (Call.commit (attempt_of (proceed none))) busy)
unfolding perform commit_step lookup accepts_commit holds_lease find_attempt is_attempt prepare
commit_step_settles_example =
    commit_step_settles (attempt_of (proceed none)) busy
      (perform (Call.commit (attempt_of (proceed none))) busy) refl

abbrev question : Question
question = record {
  interaction_id = "q";
  interaction_type = some "clarification";
  interaction_prompt = some "Which one?";
  interaction_payload = null;
}

abbrev reply : Answer
reply = record {
  response = str "this one";
  expected_run_version = none;
  target_status = none;
  summary = "Answered";
  error = null;
}

-- A permission that the user is asked for.
abbrev permission : Interaction
permission = record {
  run_id = "r";
  kind = "permission";
  prompt = "Start the server?";
  payload_json = obj (field "permission_type" (str "mcp_spawn") end);
  status = InteractionStatus.pending;
  response_json = sql_null;
  created_at = 2;
  resolved_at = none;
  run_version = some 1;
}

abbrev asking : Store
asking = store_of [] (("q", permission) ∷ []) (run_of waiting_user none 1)

abbrev approval : Answer
approval = record {
  response = bool true;
  expected_run_version = none;
  target_status = none;
  summary = "Approved";
  error = null;
}

abbrev approved : Store
approved = perform (Call.answer "q" approval 9) asking

resolve_interaction_resolves_example :
    (i : Interaction) × (r : Run) × Resolved "q" approval 9 i r asking approved
unfolding perform resolve_interaction lookup transitions opens_grant is_approved permission_type
    resolved_target get_or get fields_of has_payload is_object
resolve_interaction_resolves_example =
    resolve_interaction_resolves "q" approval 9 asking approved refl

approved_permission_waits_example : is_candidate approved.grants "r" (run_of queued none 1) ≡ false
unfolding perform resolve_interaction lookup transitions opens_grant is_approved permission_type
    resolved_target get_or get fields_of has_payload is_object
approved_permission_waits_example =
    approved_permission_waits "q" approval 9 asking approved permission refl refl refl
      (run_of queued none 1)

abbrev ending : Call
ending = Call.move "r" succeeded (some worker_lease) (some 1) [] 9

transition_ends_example :
    (r' : Run) × (lookup "r" (perform ending busy).runs ≡ some r')
    × (r'.status ≡ succeeded)
    × (r'.lease_owner ≡ none)
    × (r'.finished_at ≡ some 9)
    × NonePending "r" (perform ending busy).interactions
unfolding perform transition lookup holds_lease allowed transitions is_terminal any
transition_ends_example =
    transition_ends "r" succeeded (some worker_lease) (some 1) [] 9 busy (perform ending busy) refl
      refl

abbrev beginning : Call
beginning = Call.begin "r" "route" (some worker_lease) 9

begin_step_attempt_fresh_example :
    (find_attempt "r" "route" 2 busy.steps ≡ none)
    × (last_attempt "r" "route" (perform beginning busy).steps ≡ some 2)
unfolding perform begin_step_attempt lookup is_fenced holds_lease last_attempt
begin_step_attempt_fresh_example =
    begin_step_attempt_fresh "r" "route" (some worker_lease) 9 busy (perform beginning busy) 2 refl

abbrev never_promoted : Fields → Promotion
never_promoted staged = Promotion.not_promoted

abbrev deletes : Fields → Option Fault
deletes pending = none

abbrev idle : Store
idle = store_of [] [] (run_of queued none 0)

request_cancel_decides_example :
    (s' : Store) × (request_cancel never_promoted deletes "r" 9 idle ≡ ok s')
    × CancelDecided "r"
        (handling_of never_promoted (run_of queued none 0))
        9
        (run_of queued none 0)
        s'
unfolding lookup handling_of effect_data get_or get truthy
request_cancel_decides_example =
    request_cancel_decides never_promoted deletes "r" 9 idle (run_of queued none 0) (refl, tt) refl
      refl refl

abbrev in_doubt : Store
in_doubt = store_of [] [] (run_of needs_attention none 1)

abbrev reconciled_store : Store
reconciled_store = perform (Call.reconcile "r" confirmed_not_committed none 9) in_doubt

abbrev retry : List Call
retry = Call.claim_one "r" "w3" 4 2 60 10 ∷ []

reconcile_effect_final_example :
    (r r' : Run) × (lookup "r" in_doubt.runs ≡ some r)
    × (r.status ≡ needs_attention)
    × (lookup "r" (perform_all retry reconciled_store).runs ≡ some r')
    × (r'.status ≡ failed)
    × ((y : Resolution) (again : Option String) (later : ℕ)
        → reconcile_effect "r" y again later (perform_all retry reconciled_store)
          ≡ err (value_error not_reconcilable))
unfolding perform reconcile_effect lookup cleanup_blocked reads_no_code column_fields get_or get
    fields_of truthy
reconcile_effect_final_example =
    reconcile_effect_final "r" confirmed_not_committed none 9 in_doubt reconciled_store retry
      (refl, tt) refl

apply_development_budget_policy-PolicyKeeps_example :
    PolicyKeeps default_state (apply_development_budget_policy default_state)
apply_development_budget_policy-PolicyKeeps_example =
    apply_development_budget_policy-PolicyKeeps default_state
