-- ===== src/Runs/Outcome.antt =====
-- The tagged result of one reducer step: `StepOutcome` and its subclasses (backend/run_service.py).
use ambient_agent.Prelude.{String, Bool, true, false, Option, none, some, List, [], ◌∷◌}
use ambient_agent.Json.{Json, bool, str, arr, obj, object, of_text}
use ambient_agent.Runs.Status.{
  Status, queued, waiting_user, needs_attention, succeeded, failed, cancelled,
}
use ambient_agent.Runs.Rows.{StepStatus}
use ambient_agent.Runs.State.{AgentRunState, items}

pub record PendingRunEvent : Type 0 where
  pub kind : String
  pub payload : Json
  pub project_to_chat : Bool

pub data EffectState : Type 0 where
  no_effect committed unknown : EffectState

pub record Question : Type 0 where
  pub interaction_id : String
  pub interaction_type : Option String
  pub interaction_prompt : Option String
  pub interaction_payload : Json

pub record Failure : Type 0 where
  pub error_code : String
  pub message : String
  pub retryable : Bool
  pub effect_state : EffectState

-- What the subclasses add to the base class.
pub data Verdict : Type 0 where
  proceed : Option String → Verdict
  wait : Question → Verdict
  succeed : Json → List Json → Verdict
  fail : Failure → Verdict
  cancel : EffectState → Verdict

pub record StepOutcome : Type 0 where
  pub verdict : Verdict
  pub summary : String
  pub output : Json
  pub events : List PendingRunEvent

unfoldable pub effect_text : EffectState → String
effect_text no_effect = "none"
effect_text committed = "committed"
effect_text unknown = "unknown"

abbrev verdict_kind : Verdict → String
verdict_kind (proceed next) = "continue"
verdict_kind (wait q) = "wait"
verdict_kind (succeed result artifacts) = "succeeded"
verdict_kind (fail f) = "failed"
verdict_kind (cancel e) = "cancelled"

abbrev verdict_fields : Verdict → List (String × Json)
verdict_fields (proceed next) = ("next_phase", of_text next) ∷ []
verdict_fields (wait q) =
    ("interaction_id", str q.interaction_id)
    ∷ ("interaction_type", of_text q.interaction_type)
    ∷ ("interaction_prompt", of_text q.interaction_prompt)
    ∷ ("interaction_payload", q.interaction_payload)
    ∷ []
verdict_fields (succeed result artifacts) =
    ("result", result) ∷ ("artifacts", arr (items artifacts)) ∷ []
verdict_fields (fail f) =
    ("error_code", str f.error_code)
    ∷ ("message", str f.message)
    ∷ ("retryable", bool f.retryable)
    ∷ ("effect_state", str (effect_text f.effect_state))
    ∷ []
verdict_fields (cancel e) = ("effect_state", str (effect_text e)) ∷ []

-- `outcome.model_dump(mode="json")` without its events.
unfoldable pub outcome_json : StepOutcome → Json
outcome_json o = obj (
    object (
      ("kind", str (verdict_kind o.verdict))
      ∷ ("summary", str o.summary)
      ∷ ("output", o.output)
      ∷ verdict_fields o.verdict))

unfoldable pub failure_json : Failure → List (String × Json)
failure_json f =
    ("code", str f.error_code)
    ∷ ("message", str f.message)
    ∷ ("retryable", bool f.retryable)
    ∷ ("effect_state", str (effect_text f.effect_state))
    ∷ []

-- The status of a Run whose outcome says what became of the effect.
unfoldable pub failure_target : EffectState → Bool → Status
failure_target unknown retryable = needs_attention
failure_target _ true = queued
failure_target _ false = failed

unfoldable pub cancel_target : EffectState → Status
cancel_target unknown = needs_attention
cancel_target _ = cancelled

unfoldable pub target_of : Verdict → Status
unfolding failure_target cancel_target
target_of (proceed next) = queued
target_of (wait q) = waiting_user
target_of (succeed result artifacts) = succeeded
target_of (fail f) = failure_target f.effect_state f.retryable
target_of (cancel e) = cancel_target e

unfoldable pub step_status_of : Verdict → StepStatus
step_status_of (fail f) = StepStatus.failed
step_status_of (cancel e) = StepStatus.cancelled
step_status_of _ = StepStatus.succeeded

abbrev next_phase : Option String → String → String
next_phase none phase = phase
next_phase (some String.[]) phase = phase
next_phase (some next) phase = next

-- The changes that the verdict makes in the checkpoint.
unfoldable pub checkpoint_of : Verdict → AgentRunState → AgentRunState
unfolding failure_json
checkpoint_of (proceed next) a = record a { phase = next_phase next a.phase }
checkpoint_of (wait q) a = record a { pending_interaction_id = some q.interaction_id }
checkpoint_of (succeed result artifacts) a = record a {
  pending_interaction_id = none;
  phase = "done";
}
checkpoint_of (fail f) a = record a { last_error = some (object (failure_json f)) }
checkpoint_of (cancel e) a = a
