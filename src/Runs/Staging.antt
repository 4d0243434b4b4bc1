-- ===== src/Runs/Staging.antt =====
-- Deletion of staged Apps from a durable tombstone: `_queue_staged_app_cleanup`,
-- `_discard_pending_staged_app`, the two checkpoint helpers, `_state_has_unresolved_effect` and
-- `recover_pending_staging_cleanup` (backend/run_service.py). Deleting the directory is the file
-- system's: an argument says for a tombstone whether it raises, and what.
use ambient_agent.Prelude.{
  ℕ, suc, String, Bool, true, false, ◌&&◌, ◌||◌, Option, none, some, List, [], ◌∷◌, ◌=ₛ◌,
  if◌then◌else◌,
}
use ambient_agent.Prelude.Table.{lookup, update, select_where}
use ambient_agent.Json.{
  Json, Fields, null, str, num, obj, end, get, get_or, put, pop, truthy, fields_of, object,
  same_json,
}
use ambient_agent.Runs.Status.{
  Status, cancel_requested, needs_attention, cancelled, same_status, status_text,
}
use ambient_agent.Runs.Rows.{Column, sql_null, stored, Run, StepStatus, Store, for_rows}
use ambient_agent.Runs.Events.{column_fields, emit}
use ambient_agent.Runs.Steps.{close_running_steps}
use ambient_agent.Runs.Transition.{cancel_pending}

-- An exception of the file system: the name of its class and its message.
pub record Fault : Type 0 where
  pub name : String
  pub message : String

-- `_state_has_unresolved_effect`
unfoldable pub state_has_unresolved_effect : Fields → Bool
state_has_unresolved_effect d =
    truthy (get_or d "effect_state_unreadable" null)
    || truthy (get_or d "non_compensable_effect" null)
    || truthy (get_or d "effects_committed" null)
    || truthy (get_or d "effect_in_flight" null)
    || truthy (get_or d "graph_compensations" null)

-- The text of `str(value or "")`, for a value that is a text or missing.
abbrev text_value : Json → String
text_value (str t) = t
text_value j = ""

-- `_queue_staged_app_cleanup`, on the `data` of a state whose handle is an object and was not
-- promoted: the handle becomes a tombstone.
unfoldable pub queue_cleanup : Fields → Fields
queue_cleanup d = put "staged_app_cleanup_pending" (get_or d "staged_app" null) (pop "staged_app" d)

-- A state with other `data`.
unfoldable pub with_data : Fields → Fields → Fields
with_data data' state = put "data" (obj data') state

on_checkpoint_state : (Fields → Fields) → Fields → Json → Fields
on_checkpoint_state f checkpoint (obj state) = elim (get "data" state) [
  | some (obj d) ↦ put "state" (obj (with_data (f d) state)) checkpoint
  | _ ↦ checkpoint
]
on_checkpoint_state f checkpoint state = checkpoint

abbrev clear_handles : Fields → Fields
clear_handles d = pop "staged_app_cleanup_pending" (pop "staged_app" d)

-- `_clear_staged_app_cleanup_from_checkpoint`
unfoldable pub clear_checkpoint : Column → Column
unfolding on_checkpoint_state
clear_checkpoint (stored (obj checkpoint)) =
    stored (obj (on_checkpoint_state clear_handles checkpoint (get_or checkpoint "state" null)))
clear_checkpoint c = c

abbrev queue_if_staged : Fields → Fields
queue_if_staged d = if truthy (get_or d "staged_app" null) then queue_cleanup d else d

-- What `_queue_staged_app_cleanup` refuses in the `data` of a state.
abbrev refuses_handle : Json → Bool
refuses_handle (obj staged) = truthy (get_or staged "legacy_promoted" null)
refuses_handle staged = true

abbrev refuses_data : Json → Bool
refuses_data (obj d) =
    truthy (get_or d "staged_app" null) && refuses_handle (get_or d "staged_app" null)
refuses_data v = false

-- Whether `_queue_staged_app_cleanup_in_checkpoint` raises.
unfoldable pub refuses_checkpoint : Column → Bool
refuses_checkpoint (stored (obj checkpoint)) =
    refuses_data (get_or (fields_of (get_or checkpoint "state" null)) "data" null)
refuses_checkpoint c = false

-- `_queue_staged_app_cleanup_in_checkpoint`, where the checkpoint's handle is an object.
unfoldable pub queue_checkpoint : Column → Column
unfolding on_checkpoint_state
queue_checkpoint (stored (obj checkpoint)) =
    stored (obj (on_checkpoint_state queue_if_staged checkpoint (get_or checkpoint "state" null)))
queue_checkpoint c = c

-- The tombstone in a state, if it is an object.
unfoldable pub tombstone : Column → Option Fields
tombstone c =
    elim (get_or (fields_of (get_or (column_fields c) "data" null)) "staged_app_cleanup_pending"
      null) [ obj pending ↦ some pending | _ ↦ none ]

-- `_discard_staged_app_from_state` on the tombstone: an empty one has nothing to delete.
unfoldable pub discard_tombstone : (Fields → Option Fault) → Fields → Option Fault
discard_tombstone discard end = none
discard_tombstone discard pending =
    if truthy (get_or pending "legacy_promoted" null)
    then some (record {
      name = "ValueError";
      message = "legacy-promoted App cannot be discarded as staging";
    })
    else discard pending

abbrev tombstone_app : Fields → Json
tombstone_app end = null
tombstone_app pending = str (text_value (get_or pending "app_id" null))

abbrev cleanup_error : Fault → List (String × Json)
cleanup_error f =
    ("code", str "staged_artifact_cleanup_failed")
    ∷ ("message", str f.message)
    ∷ ("effect_state", str "unknown")
    ∷ []

-- The row of a Run whose staging could not be deleted.
unfoldable pub cleanup_failed : Fault → ℕ → Run → Run
cleanup_failed f now r = record r {
  status = needs_attention;
  summary = "Cancellation requires staged artifact cleanup";
  error_json = stored (obj (object (cleanup_error f)));
  state_json =
      stored (obj (put "last_error" (obj (object (cleanup_error f))) (column_fields r.state_json)));
  updated_at = now;
  finished_at = none;
  lease_owner = none;
  lease_expires_at = none;
  version = suc r.version;
}

abbrev data_of : Run → Fields
data_of r = fields_of (get_or (column_fields r.state_json) "data" null)

abbrev cleared_data : Run → Fields
cleared_data r = pop "staged_app_cleanup_pending" (data_of r)

unfoldable pub cleanup_target : Run → Status
cleanup_target r =
    if state_has_unresolved_effect (cleared_data r) then needs_attention else cancelled

-- The row of a Run whose staging is gone.
unfoldable pub cleanup_done : ℕ → Run → Run
unfolding cleanup_target
cleanup_done now r =
    let unresolved = state_has_unresolved_effect (cleared_data r) in
    record r {
      status = cleanup_target r;
      summary = if unresolved then "Cancellation requires effect reconciliation" else "Cancelled";
      error_json = if unresolved then r.error_json else sql_null;
      state_json = stored (obj (with_data (cleared_data r) (column_fields r.state_json)));
      checkpoint_json = clear_checkpoint r.checkpoint_json;
      updated_at = now;
      finished_at = if unresolved then none else some now;
      lease_owner = none;
      lease_expires_at = none;
      version = suc r.version;
    }

abbrev column_json : Column → Json
column_json (stored j) = j
column_json c = null

-- `current["status"] == "needs_attention" and existing_error == error`
abbrev pub already_reported : Fault → Run → Bool
already_reported f r =
    same_status r.status needs_attention
    && same_json (column_json r.error_json) (obj (object (cleanup_error f)))

-- `status_changed`, unless the status stays.
unfoldable pub emit_change : String → Status → Status → String → ℕ → ℕ → Store → Store
emit_change id from to effect version now s =
    if same_status from to
    then s
    else emit id "status_changed"
        (("from", str (status_text from))
          ∷ ("to", str (status_text to))
          ∷ ("effect_state", str effect)
          ∷ ("version", num version)
          ∷ [])
        now s

unfoldable pub report_failure : String → Fault → Run → ℕ → Store → Store
report_failure id f r now s =
    if already_reported f r
    then s
    else emit_change id r.status needs_attention "unknown" (suc r.version) now (
        emit id "staged_artifact_cleanup_failed"
          (("error", str f.name) ∷ ("reason", str "run_cancelled") ∷ []) now
          (record s { runs = update id (cleanup_failed f now) s.runs }))

unfoldable pub finish_cleanup : String → Fields → Run → ℕ → Store → Store
finish_cleanup id pending r now s =
    let effect = if state_has_unresolved_effect (cleared_data r) then "unknown" else "none" in
    emit_change id r.status (cleanup_target r) effect (suc r.version) now (
      emit id "staged_artifact_discarded"
        (("app_id", tombstone_app pending) ∷ ("reason", str "run_cancelled") ∷ []) now
        (close_running_steps id StepStatus.cancelled now
          (cancel_pending id now (record s { runs = update id (cleanup_done now) s.runs }))))

-- The tombstone of the row as it is now, if it is still the one that was read.
unfoldable pub still_pending : Fields → Run → Bool
still_pending pending r = elim (tombstone r.state_json) [
  | none ↦ false
  | some p ↦ same_json (obj p) (obj pending)
]

unfoldable pub settle_cleanup : String → Fields → Option Fault → Run → ℕ → Store → Store
settle_cleanup id pending none r now s = finish_cleanup id pending r now s
settle_cleanup id pending (some f) r now s = report_failure id f r now s

-- One turn of the loop, on a row that was selected.
unfoldable pub cleanup_row : (Fields → Option Fault) → ℕ → String × Run → Store → Store
cleanup_row discard now (id, row) s = elim (tombstone row.state_json) [
  | none ↦ s
  | some pending ↦ elim (lookup id s.runs) [
    | none ↦ s
    | some r ↦
        if still_pending pending r
        then settle_cleanup id pending (discard_tombstone discard pending) r now s
        else s
  ]
]

-- The statuses that may carry a tombstone.
unfoldable pub is_cleanable : Status → Bool
is_cleanable cancel_requested = true
is_cleanable needs_attention = true
is_cleanable cancelled = true
is_cleanable _ = false

abbrev pub is_named : Option String → String → Bool
is_named none id = true
is_named (some wanted) id = id =ₛ wanted

unfoldable pub recover_pending_staging_cleanup :
    (Fields → Option Fault) → Option String → ℕ → Store → Store
recover_pending_staging_cleanup discard run_id now s =
    for_rows (cleanup_row discard now)
      (select_where (λ id r. is_cleanable r.status && is_named run_id id) s.runs) s
