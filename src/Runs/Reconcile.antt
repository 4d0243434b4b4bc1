-- ===== src/Runs/Reconcile.antt =====
-- Reviews of effects in doubt: `reconcile_effect` (backend/run_service.py).
use ambient_agent.Prelude.{
  ℕ, suc, String, Bool, true, false, not, ◌&&◌, ◌||◌, Option, none, some, List, [], ◌∷◌, ◌=ₛ◌,
  if◌then◌else◌,
}
use ambient_agent.Prelude.Table.{lookup, update}
use ambient_agent.Json.{
  is_object, Json, Fields, null, bool, num, str, arr, obj, nil, get, get_or, put, pop, truthy,
  fields_of, object,
}
use ambient_agent.Runs.Status.{needs_attention, failed, same_status}
use ambient_agent.Runs.Rows.{sql_null, unreadable, Column, stored, Run, Store}
use ambient_agent.Runs.Events.{column_fields, emit}
use ambient_agent.Runs.Staging.{with_data}
use ambient_agent.Runs.Errors.{
  attribute_error, unread_error, Error, Result, ok, err, key_error, value_error, not_reconcilable,
  cleanup_incomplete,
}

pub data Resolution : Type 0 where
  confirmed_not_committed compensated confirmed_committed : Resolution

abbrev resolution_text : Resolution → String
resolution_text confirmed_not_committed = "confirmed_not_committed"
resolution_text compensated = "compensated"
resolution_text confirmed_committed = "confirmed_committed"

-- `resolution.replace("_", " ")`
abbrev resolution_words : Resolution → String
resolution_words confirmed_not_committed = "confirmed not committed"
resolution_words compensated = "compensated"
resolution_words confirmed_committed = "confirmed committed"

abbrev is_confirmed : Resolution → Bool
is_confirmed confirmed_committed = true
is_confirmed _ = false

abbrev resolution_effect : Resolution → String
resolution_effect r = if is_confirmed r then "committed" else "none"

abbrev note_or : Option String → String → String
note_or none words = words
note_or (some String.[]) words = words
note_or (some remark) words = remark

abbrev reconciliation_error : Resolution → Option String → List (String × Json)
reconciliation_error resolution remark =
    ("code", str "effect_reconciled")
    ∷ ("message", str (note_or remark (resolution_words resolution)))
    ∷ ("effect_state", str (resolution_effect resolution))
    ∷ ("reconciliation", str (resolution_text resolution))
    ∷ []

abbrev error_code : Column → Json
error_code (stored j) = get_or (fields_of j) "code" null
error_code c = null

abbrev is_text : String → Json → Bool
is_text wanted (str t) = t =ₛ wanted
is_text wanted j = false

-- Whether a staged App still waits for its deletion.
unfoldable pub cleanup_blocked : Run → Bool
cleanup_blocked r =
    let d = fields_of (get_or (column_fields r.state_json) "data" null) in
    truthy (get_or d "staged_app_cleanup_pending" null)
    || (truthy (get_or d "staged_app" null)
        && is_text "staged_artifact_cleanup_failed" (error_code r.error_json))

-- What `(json.loads(error_json) or {}).get` raises, where it is asked for the code.
abbrev pub refuses_code : Column → Bool
refuses_code sql_null = false
refuses_code unreadable = true
refuses_code (stored j) = truthy j && not (is_object j)

unfoldable pub reads_no_code : Run → Bool
reads_no_code r =
    let d = fields_of (get_or (column_fields r.state_json) "data" null) in
    not (truthy (get_or d "staged_app_cleanup_pending" null))
    && (truthy (get_or d "staged_app" null) && refuses_code r.error_json)

abbrev pub code_fault : Column → Error
code_fault unreadable = value_error unread_error
code_fault c = attribute_error

unfoldable pub reconciled_data : Resolution → Fields → Fields
reconciled_data resolution d =
    let d' = pop "effect_in_flight" d in
    if is_confirmed resolution
    then d'
    else put "graph_compensations" (arr nil)
        (put "non_compensable_effect" (bool false) (put "effects_committed" (bool false) d'))

unfoldable pub reconciled_state : Resolution → Option String → Column → Column
unfolding reconciled_data
reconciled_state resolution remark (stored (obj state)) =
    let state' = put "last_error" (obj (object (reconciliation_error resolution remark))) state in
    stored (
      obj (elim (get "data" state') [
        | some (obj d) ↦ with_data (reconciled_data resolution d) state'
        | _ ↦ state'
      ]))
reconciled_state resolution remark c = c

unfoldable pub reconciled : Resolution → Option String → ℕ → Run → Run
unfolding reconciled_state
reconciled resolution remark now r = record r {
  status = failed;
  summary = "Effect reconciliation completed";
  error_json = stored (obj (object (reconciliation_error resolution remark)));
  state_json = reconciled_state resolution remark r.state_json;
  updated_at = now;
  finished_at = some now;
  lease_owner = none;
  lease_expires_at = none;
  version = suc r.version;
}

unfoldable pub reconcile_effect : String → Resolution → Option String → ℕ → Store → Result Store
unfolding reconciled
reconcile_effect run_id resolution remark now s = elim (lookup run_id s.runs) [
  | none ↦ err key_error
  | some r ↦
      if not (same_status r.status needs_attention)
      then err (value_error not_reconcilable)
      else if reads_no_code r
      then err (code_fault r.error_json)
      else if cleanup_blocked r
      then err (value_error cleanup_incomplete)
      else ok (
          emit run_id "status_changed"
            (("from", str "needs_attention")
              ∷ ("to", str "failed")
              ∷ ("version", num (suc r.version))
              ∷ [])
            now
            (emit run_id "effect_reconciled"
              (("resolution", str (resolution_text resolution))
                ∷ ("effect_state", str (resolution_effect resolution))
                ∷ ("version", num (suc r.version))
                ∷ [])
              now (record s { runs = update run_id (reconciled resolution remark now) s.runs })))
]
