-- ===== src/Runs/Rows.antt =====
-- The tables of `runs.db` (`RunStore._initialize`, backend/run_service.py), a row as a record.
-- Times are microseconds of UTC: the ISO texts of the source sort as these numbers. A `*_json`
-- column holds a JSON value, or a text that `json.loads` refuses.
use ambient_agent.Prelude.{ℕ, String, Bool, Option, List, [], ◌∷◌}
use ambient_agent.Prelude.Table.{Table}
use ambient_agent.Json.{Json}
use ambient_agent.Runs.Status.{Status}

pub data Column : Type 0 where
  sql_null unreadable : Column
  stored : Json → Column

pub record Run : Type 0 where
  pub owner_id : String
  pub action_id : String
  pub action_title : String
  pub source_type : String
  pub source_id : Option String
  pub adapter_type : String
  pub runtime_id : String
  pub tool_name : Option String
  pub input_json : Json
  pub status : Status
  pub progress : ℕ  -- millionths
  pub summary : String
  pub result_json : Column
  pub error_json : Column
  pub checkpoint_json : Column
  pub artifacts_json : Column
  pub state_json : Column
  pub workflow_type : String
  pub workflow_version : ℕ
  pub recovery : String
  pub parent_run_id : Option String
  pub retry_of : Option String
  pub idempotency_key : Option String
  pub correlation_json : Column
  pub attempt : ℕ
  pub version : ℕ
  pub created_at : ℕ
  pub updated_at : ℕ
  pub started_at : Option ℕ
  pub finished_at : Option ℕ
  pub lease_owner : Option String
  pub lease_expires_at : Option ℕ
  pub lease_epoch : ℕ

pub data StepStatus : Type 0 where
  running succeeded failed cancelled interrupted : StepStatus

pub record Step : Type 0 where
  pub run_id : String
  pub step_key : String
  pub status : StepStatus
  pub attempt : ℕ
  pub output_json : Column
  pub started_at : Option ℕ
  pub finished_at : Option ℕ

pub data InteractionStatus : Type 0 where
  pending resolved cancelled : InteractionStatus

pub record Interaction : Type 0 where
  pub run_id : String
  pub kind : String
  pub prompt : String
  pub payload_json : Json
  pub status : InteractionStatus
  pub response_json : Column
  pub created_at : ℕ
  pub resolved_at : Option ℕ
  pub run_version : Option ℕ

pub data GrantStatus : Type 0 where
  pending applied : GrantStatus

pub record Grant : Type 0 where
  pub run_id : String
  pub permission_type : String
  pub value_json : Json
  pub status : GrantStatus
  pub attempts : ℕ
  pub next_attempt_at : Option ℕ
  pub created_at : ℕ
  pub completed_at : Option ℕ

pub record Event : Type 0 where
  pub sequence : ℕ
  pub stream_epoch : String
  pub run_id : String
  pub session_id : Json
  pub step_id : Json
  pub attempt : Json
  pub trace_id : Json
  pub duration_ms : Json
  pub model_usage_json : Json
  pub redacted : Bool
  pub kind : String
  pub payload_json : Json
  pub created_at : ℕ

-- `last_sequence` is the counter that AUTOINCREMENT keeps. Events are in order of insertion.
pub record Store : Type 0 where
  pub runs : Table Run
  pub steps : List Step
  pub interactions : Table Interaction
  pub grants : Table Grant
  pub events : List Event
  pub last_sequence : ℕ
  pub stream_epoch : Option String

-- `for row in rows:` over rows that were read before the loop.
unfoldable pub for_rows : (String × Run → Store → Store) → Table Run → Store → Store
for_rows body [] s = s
for_rows body (row ∷ rows) s = for_rows body rows (body row s)
