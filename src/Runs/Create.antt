-- ===== src/Runs/Create.antt =====
-- Creation of Runs with idempotency keys, and the reads of the table: `create_run`,
-- `has_active_runtime`, `has_active_owner`, `cleanup_events` (backend/run_service.py). The id that
-- `uuid4` draws is an argument.
use ambient_agent.Prelude.{
  ℕ, String, Bool, true, false, not, ◌&&◌, Option, none, some, List, [], ◌∷◌, ◌++◌, length, ltb,
  ◌==◌, ◌=ₛ◌, is_some_text, select, ◌-◌, if◌then◌else◌,
}
use Prim.Native.Nat.{◌*◌}
use ambient_agent.Prelude.Table.{Table, lookup, count}
use ambient_agent.Json.{is_object, equal_json, Json, null, str, obj, same_json}
use ambient_agent.Runs.Status.{
  Status, queued, running, waiting_user, cancel_requested, is_terminal, same_status, status_text,
}
use ambient_agent.Runs.State.{AgentRunState, model_dump}
use ambient_agent.Runs.Rows.{Column, sql_null, stored, Run, Event, Store}
use ambient_agent.Runs.Events.{emit}
use ambient_agent.Runs.Errors.{
  correlation_not_object, Result, ok, err, integrity_error, value_error, key_reused,
  workflow_mismatch, require, ◌>>◌,
}

-- The arguments of `create_run`.
pub record NewRun : Type 0 where
  pub owner_id : String
  pub action_id : String
  pub action_title : String
  pub source_type : String
  pub source_id : Option String
  pub adapter_type : String
  pub runtime_id : String
  pub input : Json
  pub tool_name : Option String
  pub recovery : String
  pub parent_run_id : Option String
  pub retry_of : Option String
  pub idempotency_key : Option String
  pub correlation : Json
  pub attempt : ℕ
  pub status : Status
  pub state : Option AgentRunState
  pub workflow_type : Option String
  pub workflow_version : Option ℕ

-- WHERE owner_id=? AND action_id=? AND idempotency_key=?
unfoldable pub has_key : NewRun → String → Run → Bool
has_key n key r =
    r.owner_id =ₛ n.owner_id && r.action_id =ₛ n.action_id && is_some_text r.idempotency_key key

unfoldable pub find_key : NewRun → String → Table Run → Option (String × Run)
unfolding has_key
find_key n key [] = none
find_key n key ((id, r) ∷ t) = if has_key n key r then some (id, r) else find_key n key t

-- `if idempotency_key:`
unfoldable pub used_key : NewRun → Option String
used_key n = elim n.idempotency_key [
  | none ↦ none
  | some key ↦ if key =ₛ "" then none else some key
]

-- `_json(correlation) if correlation is not None else None`
abbrev pub correlation_column : Json → Column
correlation_column null = sql_null
correlation_column j = stored j

abbrev pub column_value : Column → Json
column_value (stored j) = j
column_value c = null

-- A missing correlation, or an object.
abbrev pub is_correlation : Json → Bool
is_correlation null = true
is_correlation j = is_object j

-- Whether a Run with the key was made by the same request.
unfoldable pub same_request : NewRun → Run → Bool
same_request n r =
    equal_json r.input_json n.input && equal_json (column_value r.correlation_json) n.correlation

abbrev pub type_matches : NewRun → Bool
type_matches n = elim n.state [
  | none ↦ true
  | some a ↦ elim n.workflow_type [ none ↦ true | some t ↦ a.workflow_type =ₛ t ]
]

abbrev pub version_matches : NewRun → Bool
version_matches n = elim n.state [
  | none ↦ true
  | some a ↦ elim n.workflow_version [ none ↦ true | some v ↦ a.workflow_version == v ]
]

abbrev state_type : Option AgentRunState → String
state_type none = "legacy"
state_type (some a) = a.workflow_type

-- `workflow_type or (...)`
abbrev resolved_type : NewRun → String
resolved_type n = elim n.workflow_type [
  | none ↦ state_type n.state
  | some t ↦ if t =ₛ "" then state_type n.state else t
]

abbrev state_version : Option AgentRunState → ℕ
state_version none = 1
state_version (some a) = a.workflow_version

abbrev resolved_version : NewRun → ℕ
resolved_version n = elim n.workflow_version [
  | none ↦ state_version n.state
  | some v ↦ if v == 0 then state_version n.state else v
]

abbrev state_column : Option AgentRunState → Column
state_column none = sql_null
state_column (some a) = stored (model_dump a)

-- The row that `create_run` inserts; the columns it leaves out have their SQL defaults.
unfoldable pub new_run : NewRun → ℕ → Run
new_run n now = record {
  owner_id = n.owner_id;
  action_id = n.action_id;
  action_title = n.action_title;
  source_type = n.source_type;
  source_id = n.source_id;
  adapter_type = n.adapter_type;
  runtime_id = n.runtime_id;
  tool_name = n.tool_name;
  input_json = n.input;
  status = n.status;
  progress = 0;
  summary = "";
  result_json = sql_null;
  error_json = sql_null;
  checkpoint_json = sql_null;
  artifacts_json = stored (Json.arr ambient_agent.Json.Items.nil);
  state_json = state_column n.state;
  workflow_type = resolved_type n;
  workflow_version = resolved_version n;
  recovery = n.recovery;
  parent_run_id = n.parent_run_id;
  retry_of = n.retry_of;
  idempotency_key = n.idempotency_key;
  correlation_json = correlation_column n.correlation;
  attempt = n.attempt;
  version = 1;
  created_at = now;
  updated_at = now;
  started_at = if same_status n.status running then some now else none;
  finished_at = none;
  lease_owner = none;
  lease_expires_at = none;
  lease_epoch = 0;
}

abbrev pub is_known : Option String → Table Run → Bool
is_known none t = true
is_known (some id) t = elim (lookup id t) [ none ↦ false | some r ↦ true ]

abbrev pub is_fresh : String → Table Run → Bool
is_fresh id t = elim (lookup id t) [ none ↦ true | some r ↦ false ]

-- The empty key is a key to the unique index, though the code does not look it up.
abbrev pub is_unused : NewRun → Table Run → Bool
is_unused n t = elim n.idempotency_key [
  | none ↦ true
  | some key ↦ elim (find_key n key t) [ none ↦ true | some found ↦ false ]
]

-- The INSERT, with the constraints of the table.
unfoldable pub insert_run : NewRun → String → ℕ → Store → Result (Store × String)
unfolding new_run
insert_run n id now s = do
  require (type_matches n && version_matches n) (value_error workflow_mismatch)
  require
      (is_fresh id s.runs
        && is_unused n s.runs
        && is_known n.parent_run_id s.runs
        && is_known n.retry_of s.runs)
      integrity_error
  let created =
      ("status", str (status_text n.status)) ∷ ("workflow_type", str (resolved_type n)) ∷ []
  let payload : List (String × Json) = elim n.correlation [
    | null ↦ created
    | j ↦ created ++ ("correlation", n.correlation) ∷ []
  ]
  ok (
    emit id "run_created" payload now (record s { runs = s.runs ++ (id, new_run n now) ∷ [] }),
    id,
  )

-- `create_run` after the check of its correlation: a key that was used before finds its Run.
unfoldable pub keyed_run : NewRun → String → ℕ → Store → Result (Store × String)
keyed_run n id now s = elim (used_key n) [
  | none ↦ insert_run n id now s
  | some key ↦ elim (find_key n key s.runs) [
    | none ↦ insert_run n id now s
    | some (old, r) ↦ if same_request n r then ok (s, old) else err (value_error key_reused)
  ]
]

-- The source returns the row; the model returns its id.
unfoldable pub create_run : NewRun → String → ℕ → Store → Result (Store × String)
unfolding keyed_run
create_run n id now s = do
  require (is_correlation n.correlation) (value_error correlation_not_object)
  keyed_run n id now s

abbrev is_open_status : Status → Bool
is_open_status queued = true
is_open_status running = true
is_open_status waiting_user = true
is_open_status cancel_requested = true
is_open_status _ = false

unfoldable pub has_active_runtime : String → Store → Bool
has_active_runtime runtime_id s =
    not (count (λ id r. r.runtime_id =ₛ runtime_id && is_open_status r.status) s.runs == 0)

unfoldable pub has_active_owner : String → Store → Bool
has_active_owner owner_id s =
    not (count (λ id r. r.owner_id =ₛ owner_id && is_open_status r.status) s.runs == 0)

-- An event that is too old, of a Run that has ended.
unfoldable pub is_expired : ℕ → Store → Event → Bool
is_expired cutoff s e =
    ltb e.created_at cutoff
    && elim (lookup e.run_id s.runs) [ none ↦ false | some r ↦ is_terminal r.status ]

abbrev one_day : ℕ
one_day = 86400000000

-- `cleanup_events`, with the number of days that the caller or the environment gives.
unfoldable pub cleanup_events : ℕ → ℕ → Store → Store × ℕ
cleanup_events days now s =
    let kept = (if days == 0 then 1 else days) in
    let cutoff = now - kept * one_day in
    (
      record s { events = select (λ e. not (is_expired cutoff s e)) s.events },
      length (select (is_expired cutoff s) s.events),
    )
