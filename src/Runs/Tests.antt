-- ===== src/Runs/Tests.antt =====
-- Small stores of Runs, and the theorems at work on them.
pub mod Leases
pub mod Questions
pub mod Streams
use ambient_agent.Prelude.{ℕ, String, Option, none, some, List, [], ◌∷◌}
use ambient_agent.Prelude.Table.{Table}
use ambient_agent.Json.{Json, null, obj, arr, nil, end}
use ambient_agent.Runs.Status.{Status}
use ambient_agent.Runs.Rows.{Run, Step, StepStatus, Interaction, Store, Column, sql_null, stored}

-- A Run of the agent in a chat, as the store keeps it.
abbrev pub run_of : Status → Option String → ℕ → Run
run_of status owner epoch = record {
  owner_id = "u";
  action_id = "agent.chat";
  action_title = "Chat";
  source_type = "chat";
  source_id = some "s1";
  adapter_type = "internal_agent";
  runtime_id = "agent";
  tool_name = none;
  input_json = null;
  status = status;
  progress = 0;
  summary = "";
  result_json = sql_null;
  error_json = sql_null;
  checkpoint_json = sql_null;
  artifacts_json = stored (arr nil);
  state_json = sql_null;
  workflow_type = "converse";
  workflow_version = 1;
  recovery = "restart_safe";
  parent_run_id = none;
  retry_of = none;
  idempotency_key = none;
  correlation_json = sql_null;
  attempt = 1;
  version = 1;
  created_at = 1;
  updated_at = 1;
  started_at = none;
  finished_at = none;
  lease_owner = owner;
  lease_expires_at = some 10;
  lease_epoch = epoch;
}

abbrev pub step_of : StepStatus → Step
step_of status = record {
  run_id = "r";
  step_key = "route";
  status = status;
  attempt = 1;
  output_json = sql_null;
  started_at = some 1;
  finished_at = none;
}

abbrev pub store_of : List Step → Table Interaction → Run → Store
store_of steps interactions run = record {
  runs = ("r", run) ∷ [];
  steps = steps;
  interactions = interactions;
  grants = [];
  events = [];
  last_sequence = 0;
  stream_epoch = some "epoch";
}
