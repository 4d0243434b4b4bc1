-- ===== src/Workflow.antt =====
-- The durable agent workflow, backend/agent/durable_workflow.py: its phases, the checkpoint that the
-- phases read and write, and what the services answer. A service is an argument: each step of the
-- workflow is given the replies of the calls that it makes.
pub mod Handlers
pub mod Widget
pub mod Reduce
pub mod Approval
mod Tests
use ambient_agent.Prelude.{
  ℕ, suc, ◌+◌, String, Bool, true, false, Option, none, some, List, [], ◌∷◌, ◌++◌, ◌==◌,
}
use ambient_agent.Prelude.Texts.{Text}
use ambient_agent.Json.{Json}

-- The phases with a `_phase_` handler, and any other text.
pub data Phase : Type 0 where
  route clarify converse graph_query graph_preflight wait_graph_approval graph_commit : Phase
  multi_preflight multi_dispatch plan wait_plan align_schema wait_schema stage_code : Phase
  verify wait_override promote unlisted : Phase

abbrev pub number_of : Phase → ℕ
number_of route = 0
number_of clarify = 1
number_of converse = 2
number_of graph_query = 3
number_of graph_preflight = 4
number_of wait_graph_approval = 5
number_of graph_commit = 6
number_of multi_preflight = 7
number_of multi_dispatch = 8
number_of plan = 9
number_of wait_plan = 10
number_of align_schema = 11
number_of wait_schema = 12
number_of stage_code = 13
number_of verify = 14
number_of wait_override = 15
number_of promote = 16
number_of unlisted = 17

abbrev pub is_listed : Phase → Bool
is_listed unlisted = false
is_listed p = true

abbrev pub same_phase : Phase → Phase → Bool
same_phase p q = number_of p == number_of q

-- `IntentKind` (backend/agent/intent_plan.py); three kinds have the name of a phase, and the suffix here.
pub data IntentKind : Type 0 where
  widget_create widget_modify graph_mutation graph_query_intent plan_and_act : IntentKind
  multi_intent clarify_intent converse_intent : IntentKind

-- The parts of an `IntentPlan` that the phases read.
pub record Intent : Type 0 where
  pub kind : IntentKind
  pub app_id : Option String

-- What a step of a saga carries besides its intent.
pub record SubIntent : Type 0 where
  pub extend_schema_props : Option Json
  pub feedback : Option Text

-- The routed intent: the root, and the steps of a saga.
pub record Root : Type 0 where
  pub intent : Intent
  pub sub_intents : List SubIntent
  pub deprecated : Bool

-- `state.data`, by the keys that the phases use; a key that is missing is `none`, `false` or empty.
pub record Data : Type 0 where
  pub current_intent : Option Intent
  pub plan_candidate : Option Text
  pub plan_rework_feedback : Option Text
  pub plan_schema_context : Option Text
  pub approved_plan : Option Text
  pub schema_candidate : Option Json
  pub schema_refine_recovery : Option Json
  pub approved_schema : Option Json
  pub runtime_contract : Option Json
  pub code_feedback : Option Text
  pub staged_app : Option Json
  pub verification_report : Option Text
  pub verification_passed : Bool
  pub pre_extend_schema_props : Option Json
  pub graph_actions : Option Json
  pub graph_compensations : List Json
  pub effects_committed : Bool
  pub non_compensable_effect : Bool
  pub effect_in_flight : Bool
  pub return_to_multi : Bool
  pub multi_index : ℕ
  pub multi_results : ℕ
  pub multi_preflight_intents : Option (List Intent)
  pub phase_retries : Phase → ℕ

-- `AgentRunState`: whether a pending interaction is recorded stands for its id.
pub record State : Type 0 where
  pub phase : Phase
  pub intent : Option Root
  pub pending : Bool
  pub workflow_version : ℕ
  pub session_id : Option String
  pub values : Data

pub data Effect : Type 0 where
  no_effect in_doubt : Effect

-- An exception, or a `Failed` that a phase returns.
pub record Failure : Type 0 where
  pub code : String
  pub retryable : Bool
  pub effect : Effect

abbrev pub failing : String → Failure
failing code = record { code = code; retryable = false; effect = no_effect }

-- What a call of a service gives back.
pub data Reply (A : Type 0) : Type 0 where
  raised : Failure → Reply A
  returned : A → Reply A

-- The response to an interaction, with the action that `_approval` reads from it.
pub data Action : Type 0 where
  approve deny refine rework_plan rework_code rework_schema : Action

pub record Response : Type 0 where
  pub action : Action
  pub plan_text : Text
  pub proposal : Option Json
  pub feedback : Text

-- The pending interaction in the Run store.
pub data Interaction : Type 0 where
  missing unresolved cancelled : Interaction
  resolved : Response → Interaction

-- What the coding agent leaves: an artifact, a draft with its error, or an exception.
pub data Coded : Type 0 where
  generated : Json → Coded
  draft : Json → Text → Failure → Coded
  stopped : Failure → Coded

-- A verification: whether it is clean, and the report.
pub record Diff : Type 0 where
  pub is_clean : Bool
  pub report : Text

-- The replies that one step may read.
pub record Answers : Type 0 where
  pub source_id : Option String
  pub admitted : Reply (Unit {0})
  pub interaction : Interaction
  pub routed : Reply Root
  pub conversed : Reply (Unit {0})
  pub queried : Reply (Unit {0})
  pub generated_plan : Reply Text
  pub refined_plan : Reply Text
  pub reviewed : Reply (Unit {0})
  pub aligned : Reply Json
  pub merged : Json → Option Json → Json
  pub effective_schemas : Json → Reply (Unit {0})
  pub validated : Json → Option Json
  pub contract_of : Json → Json
  pub recovered : Reply Json
  pub refined_proposal : Json → Reply Json
  pub features_checked : Json → Reply (Unit {0})
  pub coded : Coded
  pub staged_checked : Json → Json → Reply (Unit {0})
  pub diff : Json → Json → Reply Diff
  pub extensions : Option Json
  pub discarded : Reply (Unit {0})
  pub promotion_checked : Json → Json → Reply (Unit {0})
  pub schema_committed : Json → Reply (Unit {0})
  pub artifact_promoted : Json → Reply (Unit {0})
  pub schema_restored : Reply (Unit {0})
  pub widget_found : Bool
  pub canvas_saved : Reply (Unit {0})
  pub preflighted_actions : Reply Json
  pub actions_committed : Json → Reply Json
  pub preflighted_intents : Reply (List Intent)
  pub compensated : Reply (Unit {0})
  pub dumped : Json → Text

-- What happened in a step: the response that was read in a phase, the verification that was made, what
-- was approved and taken as verified on their grounds, what took effect, and a retry.
pub data Event : Type 0 where
  answered : Phase → Response → Event
  checked : (staged contract : Json) → Diff → Event
  plan_approved : Text → Event
  schema_approved : (approved contract : Json) → Event
  app_verified : (staged contract : Json) → Event
  app_published : (staged contract : Json) → Event
  mutation_approved : (actions : Json) → Event
  mutation_committed : (actions : Json) → Event
  phase_retried : Phase → Event

-- How a phase ends.
pub data Ending : Type 0 where
  goes_to : Phase → Ending
  waits : Ending
  succeeds : Ending
  fails : Failure → Ending

-- The checkpoint after a phase, also after one that raised, its ending and its events.
pub record Reduced : Type 0 where
  pub state : State
  pub ending : Ending
  pub events : List Event

abbrev pub ends : State → Ending → Reduced
ends s e = record { state = s; ending = e; events = [] }

abbrev pub ends_with : List Event → State → Ending → Reduced
ends_with events s e = record { state = s; ending = e; events = events }

abbrev pub reports : State → Ending → Event → Reduced
reports s e event = ends_with (event ∷ []) s e

-- What happened before the rest of a phase.
abbrev pub noting : Event → Reduced → Reduced
noting e r = record r { events = r.events ++ e ∷ [] }

-- A call whose exception ends the phase.
abbrev pub call : {A : Type 0} → State → Reply A → (A → Reduced) → Reduced
call s (raised f) next = ends s (fails f)
call s (returned a) next = next a
