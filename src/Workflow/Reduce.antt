-- ===== src/Workflow/Reduce.antt =====
-- One step of the workflow, `_reduce_once` with `_failure` (backend/agent/durable_workflow.py), and
-- what a run of steps reports. A task that is cancelled in the middle of a step is not a step: its
-- checkpoint is not written.
use ambient_agent.Prelude.{
  some, ◌==◌, Option, String, ℕ, suc, Bool, true, false, not, ◌&&◌, none, List, [], ◌∷◌, ◌++◌, ltb,
  ◌=ₛ◌, if◌then◌else◌, ◌≡◌,
}
use ambient_agent.Workflow.{
  unlisted, failing, ends, is_listed, Phase, route, clarify, converse, graph_query, graph_preflight,
  wait_graph_approval, graph_commit, multi_preflight, multi_dispatch, plan, wait_plan, align_schema,
  wait_schema, stage_code, verify, wait_override, promote, same_phase, Data, State, Effect,
  no_effect, in_doubt, Failure, raised, returned, Answers, Event, phase_retried, Ending, goes_to,
  waits, succeeds, fails, Reduced,
}
use ambient_agent.Workflow.Handlers.{
  with_values, phase_route, phase_clarify, phase_converse, phase_graph_query, phase_graph_preflight,
  phase_wait_graph_approval, phase_graph_commit, phase_multi_preflight, phase_multi_dispatch,
}
use ambient_agent.Workflow.Widget.{
  phase_plan, phase_wait_plan, phase_align_schema, phase_wait_schema, phase_stage_code,
  phase_verify, phase_wait_override, phase_promote,
}

-- What the Run store is told: the next phase, a question, a retry of the phase, or the end.
pub data Outcome : Type 0 where
  continued asked retried succeeded : Outcome
  failed : Failure → Outcome

pub record Step : Type 0 where
  pub state : State
  pub outcome : Outcome
  pub events : List Event

-- `getattr(self, f"_phase_{state.phase}")`
unfoldable pub handle : Phase → Answers → State → Reduced
handle route a s = phase_route a s
handle clarify a s = phase_clarify s
handle converse a s = phase_converse a s
handle graph_query a s = phase_graph_query a s
handle graph_preflight a s = phase_graph_preflight a s
handle wait_graph_approval a s = phase_wait_graph_approval a s
handle graph_commit a s = phase_graph_commit a s
handle multi_preflight a s = phase_multi_preflight a s
handle multi_dispatch a s = phase_multi_dispatch s
handle plan a s = phase_plan a s
handle wait_plan a s = phase_wait_plan a s
handle align_schema a s = phase_align_schema a s
handle wait_schema a s = phase_wait_schema a s
handle stage_code a s = phase_stage_code a s
handle verify a s = phase_verify a s
handle wait_override a s = phase_wait_override a s
handle promote a s = phase_promote a s
handle unlisted a s = ends s (fails (failing "unknown_workflow_phase"))

abbrev pub is_settled : Effect → Bool
is_settled no_effect = true
is_settled in_doubt = false

-- `may_retry`
unfoldable pub may_retry : State → Failure → Bool
may_retry s f = f.retryable && ltb (s.values.phase_retries s.phase) 2 && is_settled f.effect

abbrev pub count_retry : Phase → (Phase → ℕ) → Phase → ℕ
count_retry p retries q = if same_phase p q then suc (retries q) else retries q

abbrev pub any_compensation : State → Bool
any_compensation s = elim s.values.graph_compensations [ [] ↦ false | c ∷ cs ↦ true ]

-- The checkpoint after the saga's effects were taken back: it starts again from the route.
abbrev pub rebuilt : State → State
rebuilt s = record s {
  phase = route;
  intent = none;
  values = record s.values {
    graph_compensations = [];
    effects_committed = false;
    current_intent = none;
    return_to_multi = false;
    multi_index = 0;
    multi_results = 0;
    multi_preflight_intents = none;
    graph_actions = none;
    pre_extend_schema_props = none;
  };
}

abbrev pub doubtful : Failure → Failure
doubtful f = record f { retryable = false; effect = in_doubt }

-- The error of a compensation takes the place of the failure's code only if it is a conflict.
abbrev pub conflicting : Failure → Failure → Failure
conflicting conflict f =
    if conflict.code =ₛ "GraphCompensationConflict"
    then record f { code = "graph_compensation_conflict" }
    else f

abbrev pub final : Effect → Failure → Failure
final e f = record f { retryable = false; effect = e }

-- `_failure`
unfoldable pub conclude_failure : Answers → List Event → State → Failure → Step
unfolding may_retry
conclude_failure a events s f =
    if may_retry s f
    then record {
      state =
          with_values s
            (record s.values { phase_retries = count_retry s.phase s.values.phase_retries });
      outcome = retried;
      events = phase_retried s.phase ∷ events;
    }
    else if any_compensation s && not s.values.non_compensable_effect
    then (elim a.compensated [
      | returned done ↦ record {
        state = rebuilt s;
        outcome = failed (final no_effect f);
        events = events;
      }
      | raised conflict ↦ record {
        state = s;
        outcome = failed (doubtful (conflicting conflict f));
        events = events;
      }
    ])
    else record {
      state = s;
      outcome = failed (if s.values.effects_committed then doubtful f else final f.effect f);
      events = events;
    }

unfoldable pub conclude : Answers → List Event → State → Ending → Step
unfolding conclude_failure
conclude a events s (goes_to p) = record {
  state = record s { phase = p };
  outcome = continued;
  events = events;
}
conclude a events s waits = record { state = s; outcome = asked; events = events }
conclude a events s succeeds = record { state = s; outcome = succeeded; events = events }
conclude a events s (fails f) = conclude_failure a events s f

abbrev pub concluded : Answers → Reduced → Step
concluded a r = conclude a r.events r.state r.ending

-- A `Failed` that `_reduce_once` returns at once: nothing is retried or compensated.
abbrev pub refused : State → String → Step
refused s code = record { state = s; outcome = failed (failing code); events = [] }

-- The checkpoint was read: what follows depends on the wall clock (`admitted`) and the phase.
unfoldable pub reduce_read : Answers → State → Step
unfolding handle conclude conclude_failure
reduce_read a s = elim a.admitted [
  | raised f ↦ conclude_failure a [] s f
  | returned done ↦
      if is_listed s.phase
      then concluded a (handle s.phase a s)
      else refused s "unknown_workflow_phase"
]

-- `DurableAgentWorkflow.VERSION`
abbrev pub current_version : ℕ
current_version = 2

abbrev pub same_source : Option String → Option String → Bool
same_source none none = true
same_source (some x) (some y) = x =ₛ y
same_source x y = false

-- The checkpoint is one of this version of the workflow, and of the Run's session.
abbrev pub is_own : Answers → State → Bool
is_own a s = s.workflow_version == current_version && same_source s.session_id a.source_id

-- `_reduce_once`
unfoldable pub reduce_once : Answers → State → Step
unfolding reduce_read
reduce_once a s =
    if is_own a s
    then reduce_read a s
    else if s.workflow_version == current_version
    then refused s "session_mismatch"
    else refused s "unsupported_workflow_version"

abbrev pub is_live : Outcome → Bool
is_live continued = true
is_live asked = true
is_live retried = true
is_live succeeded = false
is_live (failed f) = false

abbrev pub no_values : Data
no_values = record {
  current_intent = none;
  plan_candidate = none;
  plan_rework_feedback = none;
  plan_schema_context = none;
  approved_plan = none;
  schema_candidate = none;
  schema_refine_recovery = none;
  approved_schema = none;
  runtime_contract = none;
  code_feedback = none;
  staged_app = none;
  verification_report = none;
  verification_passed = false;
  pre_extend_schema_props = none;
  graph_actions = none;
  graph_compensations = [];
  effects_committed = false;
  non_compensable_effect = false;
  effect_in_flight = false;
  return_to_multi = false;
  multi_index = 0;
  multi_results = 0;
  multi_preflight_intents = none;
  phase_retries = λ p. 0;
}

-- The checkpoint of a new Run.
abbrev pub initial_state : (version : ℕ) (session : Option String) → State
initial_state version session = record {
  phase = route;
  intent = none;
  pending = false;
  workflow_version = version;
  session_id = session;
  values = no_values;
}

-- The checkpoints of a Run that is still going, each with what was reported so far, the latest first.
-- A log that ends with the Run is that of one more step.
pub data Reach : State → List Event → Type 0 where
  begins : (version : ℕ) (session : Option String) → Reach (initial_state version session) []
  steps :
      {s : State} {log : List Event} (a : Answers)
      → Reach s log
      → (next : Step) → next ≡ reduce_once a s
      → is_live next.outcome ≡ true
      → Reach next.state (next.events ++ log)
