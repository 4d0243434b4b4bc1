-- ===== src/Runs/State.antt =====
-- The workflow checkpoint of a Run: `RunBudget`, `AgentRunState` (backend/run_service.py).
-- Costs are in millionths of a dollar and wall time in microseconds.
use ambient_agent.Prelude.{
  ℕ, String, Bool, true, false, not, Option, none, some, List, [], ◌∷◌, ◌||◌, ◌==◌, ◌=ₛ◌,
  if◌then◌else◌,
}
use ambient_agent.Json.{
  Json, Fields, Items, null, bool, num, real, str, arr, obj, end, get, get_or, put, ◌∣∣◌, object,
  of_text, fields_of,
}

pub record RunBudget : Type 0 where
  pub max_model_turns : Option ℕ
  pub model_turn_limit_explicit : Bool
  pub max_wall_seconds : ℕ
  pub max_tokens : Option ℕ
  pub max_cost_usd : Option ℕ
  pub model_turns : ℕ
  pub tokens_used : ℕ
  pub cost_usd : ℕ

pub record AgentRunState : Type 0 where
  pub workflow_type : String
  pub workflow_version : ℕ
  pub session_id : Option String
  pub phase : String
  pub attempt : ℕ
  pub intent : Option Fields
  pub model_snapshot : Fields
  pub budget : RunBudget
  pub artifact_refs : List Json
  pub state_data : Fields
  pub pending_interaction_id : Option String
  pub context_summary_ref : Option String
  pub last_error : Option Fields

abbrev pub default_budget : RunBudget
default_budget = record {
  max_model_turns = some 8;
  model_turn_limit_explicit = false;
  max_wall_seconds = 600000000;
  max_tokens = some 64000;
  max_cost_usd = some 5000000;
  model_turns = 0;
  tokens_used = 0;
  cost_usd = 0;
}

abbrev pub default_state : AgentRunState
default_state = record {
  workflow_type = "converse";
  workflow_version = 1;
  session_id = none;
  phase = "route";
  attempt = 1;
  intent = none;
  model_snapshot = end;
  budget = default_budget;
  artifact_refs = [];
  state_data = end;
  pending_interaction_id = none;
  context_summary_ref = none;
  last_error = none;
}

-- `RunBudget._record_explicit_turn_limit`, over the input of the validator.
unfoldable pub record_explicit_turn_limit : Json → Json
record_explicit_turn_limit (obj value) = elim (get "model_turn_limit_explicit" value) [
  | some marked ↦ obj value
  | none ↦ obj (
      put "model_turn_limit_explicit"
        (bool (elim (get "max_model_turns" value) [ some given ↦ true | none ↦ false ])) value)
]
record_explicit_turn_limit value = value

unfoldable pub release_default_model_turn_limit : RunBudget → RunBudget
release_default_model_turn_limit b =
    if not b.model_turn_limit_explicit then record b { max_model_turns = none } else b

-- `source_limit not in (None, 8)`
unfoldable pub is_chosen_limit : Json → Bool
is_chosen_limit null = false
is_chosen_limit (num n) = not (n == 8)
is_chosen_limit (real neg n) = neg || not (n == 8000000)
is_chosen_limit _ = true

-- The limit that a retained retry window recorded, or `None`.
unfoldable pub original_limit : Fields → Json
original_limit value =
    get_or (fields_of (get_or (fields_of (get_or value "data" null)) "retry_budget_window" null))
      "model_turns" null

unfoldable pub is_null : Json → Bool
is_null null = true
is_null _ = false

unfoldable pub explicit_limit : Fields → Fields → Bool
unfolding original_limit is_chosen_limit is_null
explicit_limit value budget = is_chosen_limit (
    if is_null (original_limit value)
    then get_or budget "max_model_turns" (num 8)
    else original_limit value)

unfoldable pub migrate_budget : Fields → Json → Json
unfolding explicit_limit
migrate_budget value (obj budget) = elim (get "model_turn_limit_explicit" budget) [
  | some marked ↦ obj value
  | none ↦ obj (
      put "budget"
        (obj (put "model_turn_limit_explicit" (bool (explicit_limit value budget)) budget)) value)
]
migrate_budget value budget = obj value

-- `AgentRunState._migrate_legacy_turn_limit`
unfoldable pub migrate_legacy_turn_limit : Json → Json
unfolding migrate_budget
migrate_legacy_turn_limit (obj value) = migrate_budget value (get_or value "budget" null)
migrate_legacy_turn_limit value = value

abbrev option_fields : Option Fields → Json
option_fields none = null
option_fields (some d) = obj d

-- `current.get("kind") if isinstance(current, dict) else self.workflow_type`
intent_kind : String → Json → Json
intent_kind workflow_type (obj current) = get_or current "kind" null
intent_kind workflow_type current = str workflow_type

is_widget_kind : Json → Bool
is_widget_kind (str kind) = kind =ₛ "widget_create" || kind =ₛ "widget_modify"
is_widget_kind kind = false

unfoldable pub apply_development_budget_policy : AgentRunState → AgentRunState
unfolding release_default_model_turn_limit intent_kind is_widget_kind
apply_development_budget_policy s =
    let current = get_or s.state_data "current_intent" null ∣∣ option_fields s.intent in
    let kind = intent_kind s.workflow_type current in
    if s.phase =ₛ "route"
    then s
    else if is_widget_kind kind
    then record s { budget = release_default_model_turn_limit s.budget }
    else s

abbrev option_number : Option ℕ → Json
option_number none = null
option_number (some n) = num n

abbrev option_real : Option ℕ → Json
option_real none = null
option_real (some n) = real false n

abbrev pub items : List Json → Items
items [] = Items.nil
items (x ∷ xs) = Items.cons x (items xs)

dump_budget : RunBudget → Json
dump_budget b = obj (
    object (
      ("max_model_turns", option_number b.max_model_turns)
      ∷ ("model_turn_limit_explicit", bool b.model_turn_limit_explicit)
      ∷ ("max_wall_seconds", real false b.max_wall_seconds)
      ∷ ("max_tokens", option_number b.max_tokens)
      ∷ ("max_cost_usd", option_real b.max_cost_usd)
      ∷ ("model_turns", num b.model_turns)
      ∷ ("tokens_used", num b.tokens_used)
      ∷ ("cost_usd", real false b.cost_usd)
      ∷ []))

-- `state.model_dump(mode="json")`
unfoldable pub model_dump : AgentRunState → Json
unfolding dump_budget
model_dump s = obj (
    object (
      ("workflow_type", str s.workflow_type)
      ∷ ("workflow_version", num s.workflow_version)
      ∷ ("session_id", of_text s.session_id)
      ∷ ("phase", str s.phase)
      ∷ ("attempt", num s.attempt)
      ∷ ("intent", option_fields s.intent)
      ∷ ("model_snapshot", obj s.model_snapshot)
      ∷ ("budget", dump_budget s.budget)
      ∷ ("artifact_refs", arr (items s.artifact_refs))
      ∷ ("data", obj s.state_data)
      ∷ ("pending_interaction_id", of_text s.pending_interaction_id)
      ∷ ("context_summary_ref", of_text s.context_summary_ref)
      ∷ ("last_error", option_fields s.last_error)
      ∷ []))
