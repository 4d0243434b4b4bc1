-- ===== src/Runs/Cancel.antt =====
-- `request_cancel` (backend/run_service.py). Whether a staged App can be
-- given up is read from the file system (`validate_coding_agent_promotion`): an argument answers.
use ambient_agent.Prelude.{
  ℕ, suc, String, Bool, true, false, not, ◌&&◌, ◌||◌, Option, none, some, List, [], ◌∷◌,
  if◌then◌else◌,
}
use ambient_agent.Prelude.Table.{lookup, update, count}
use ambient_agent.Json.{
  Json, Fields, null, bool, num, str, obj, end, get, get_or, put, truthy, fields_of, object,
}
use ambient_agent.Runs.Status.{
  Status, queued, running, waiting_user, cancel_requested, needs_attention, cancelled, is_terminal,
  same_status, status_text,
}
use ambient_agent.Runs.Rows.{Column, sql_null, unreadable, stored, Run, StepStatus, Store}
use ambient_agent.Runs.Events.{emit}
use ambient_agent.Runs.Steps.{close_running_steps}
use ambient_agent.Runs.Transition.{is_pending_of, cancel_pending}
use ambient_agent.Runs.Staging.{
  refuses_checkpoint, Fault, state_has_unresolved_effect, queue_cleanup, queue_checkpoint,
  with_data, recover_pending_staging_cleanup,
}
use ambient_agent.Runs.Errors.{
  staged_not_discardable, Result, ok, err, key_error, value_error, needs_reconciliation,
}

-- What `validate_coding_agent_promotion` says of a staged App: it is live, it is not, or the
-- handle is unsafe and the call raises.
pub data Promotion : Type 0 where
  promoted not_promoted : Promotion
  unsafe : String → Promotion

-- The `data` that the effect tests read: a state that cannot be read counts as an effect.
unfoldable pub effect_data : Column → Fields
effect_data sql_null = end
effect_data unreadable = object (("effect_state_unreadable", bool true) ∷ [])
effect_data (stored (obj state)) = fields_of (get_or state "data" null)
effect_data (stored j) = object (("effect_state_unreadable", bool true) ∷ [])

-- What the request makes of the staged App of a Run at rest.
pub data Handling : Type 0 where
  no_staging live queued_cleanup : Handling
  refused : String → Handling

-- The staged handle itself: promoted Apps of the legacy format are refused.
unfoldable pub handle_staged : (Fields → Promotion) → Json → Handling
handle_staged check (obj staged) = elim (check staged) [
  | promoted ↦ live
  | not_promoted ↦
      if truthy (get_or staged "legacy_promoted" null) then refused "ValueError" else queued_cleanup
  | unsafe name ↦ refused name
]
handle_staged check j = refused "ValueError"

unfoldable pub handling_of : (Fields → Promotion) → Run → Handling
unfolding handle_staged
handling_of check r =
    let staged = get_or (effect_data r.state_json) "staged_app" null in
    if (same_status r.status queued || same_status r.status waiting_user) && truthy staged
    then handle_staged check staged
    else no_staging

abbrev mark_promoted : Fields → Fields
mark_promoted d = put "non_compensable_effect" (bool true) (put "effects_committed" (bool true) d)

-- The `data` of the checkpoint after the staged App was handled.
unfoldable pub handled_data : Handling → Fields → Fields
handled_data live d = mark_promoted d
handled_data queued_cleanup d = queue_cleanup d
handled_data _ d = d

abbrev is_refused : Handling → Bool
is_refused (refused name) = true
is_refused _ = false

abbrev pub is_cleanup : Handling → Bool
is_cleanup queued_cleanup = true
is_cleanup _ = false

abbrev is_live : Handling → Bool
is_live live = true
is_live _ = false

unfoldable pub has_unresolved_effect : Handling → Run → Bool
has_unresolved_effect h r =
    state_has_unresolved_effect (handled_data h (effect_data r.state_json)) || is_refused h

unfoldable pub cancel_target_of : Handling → Run → Status
cancel_target_of h r =
    if same_status r.status running
    then cancel_requested
    else if has_unresolved_effect h r
    then needs_attention
    else if is_cleanup h
    then cancel_requested
    else cancelled

abbrev attention_error : Handling → List (String × Json)
attention_error live =
    ("code", str "cancel_after_artifact_promotion")
    ∷ ("message", str "The App was already promoted before cancellation")
    ∷ ("effect_state", str "committed")
    ∷ []
attention_error (refused name) =
    ("code", str "staged_artifact_cleanup_failed")
    ∷ ("message", str "Staged artifact cleanup could not be confirmed")
    ∷ ("effect_state", str "unknown")
    ∷ []
attention_error _ =
    ("code", str "cancellation_effect_unknown")
    ∷ ("message", str "Cancellation requires effect reconciliation")
    ∷ ("effect_state", str "unknown")
    ∷ []

unfoldable pub cancel_summary_of : Handling → Status → String
cancel_summary_of h target =
    if same_status target cancel_requested && not (is_cleanup h)
    then "Cancellation requested"
    else if is_cleanup h
    then "Cancelling staged artifact"
    else if is_refused h
    then "Cancellation requires staged artifact cleanup"
    else if same_status target needs_attention
    then "Cancellation requires effect reconciliation"
    else "Cancelled"

-- The checkpoint state with the changes of the request; only an object is written back.
unfoldable pub cancelled_state : Handling → Status → Column → Column
cancelled_state h target (stored (obj state)) =
    let data' = handled_data h (fields_of (get_or state "data" null)) in
    let state' : Fields = elim (get "data" state) [
      | some (obj d) ↦ with_data data' state
      | _ ↦ state
    ] in
    let attention = same_status target needs_attention in
    if is_cleanup h || is_live h || attention
    then stored (
        obj (
          if attention then put "last_error" (obj (object (attention_error h))) state' else state'))
    else stored (obj state)
cancelled_state h target c = c

-- The row that the UPDATE of `request_cancel` writes.
unfoldable pub cancel_row : Handling → ℕ → Run → Run
unfolding cancel_target_of cancel_summary_of cancelled_state
cancel_row h now r =
    let target = cancel_target_of h r in
    let done = same_status target cancelled in
    record r {
      status = target;
      summary = cancel_summary_of h target;
      updated_at = now;
      version = suc r.version;
      state_json = cancelled_state h target r.state_json;
      checkpoint_json =
          if is_cleanup h then queue_checkpoint r.checkpoint_json else r.checkpoint_json;
      error_json =
          if same_status target needs_attention
          then stored (obj (object (attention_error h)))
          else r.error_json;
      finished_at = if done then some now else r.finished_at;
      lease_owner = if done then none else r.lease_owner;
      lease_expires_at = if done then none else r.lease_expires_at;
    }

abbrev staged_app_id : Run → Json
staged_app_id r =
    elim (get_or (fields_of (get_or (effect_data r.state_json) "staged_app" null)) "app_id" null) [
      | str t ↦ str t
      | _ ↦ str ""
    ]

unfoldable pub emit_handling : String → Handling → Run → ℕ → Store → Store
emit_handling run_id queued_cleanup r now s =
    emit run_id "staged_artifact_cleanup_requested"
      (("app_id", staged_app_id r) ∷ ("reason", str "run_cancelled") ∷ []) now s
emit_handling run_id (refused name) r now s =
    emit run_id "staged_artifact_cleanup_failed"
      (("error", str name) ∷ ("reason", str "run_cancelled") ∷ []) now s
emit_handling run_id _ r now s = s

-- The transaction of `request_cancel` on a Run that can still be cancelled.
unfoldable pub write_cancel : String → Handling → Run → ℕ → Store → Store
unfolding cancel_row
write_cancel run_id h r now s =
    let target = cancel_target_of h r in
    let closed = count (is_pending_of run_id) s.interactions in
    let s₁ =
      cancel_pending run_id now (record s { runs = update run_id (cancel_row h now) s.runs }) in
    let s₂ =
      if same_status target cancelled
      then close_running_steps run_id StepStatus.cancelled now s₁
      else s₁ in
    emit run_id "status_changed"
      (("from", str (status_text r.status))
        ∷ ("to", str (status_text target))
        ∷ ("closed_interactions", num closed)
        ∷ ("effect_state", str (if same_status target needs_attention then "unknown" else "none"))
        ∷ ("version", num (suc r.version))
        ∷ [])
      now (emit_handling run_id h r now s₂)

unfoldable pub cancel_run :
    (Fields → Promotion) → (Fields → Option Fault) → String → ℕ → Store → Result Store
cancel_run check discard run_id now s = elim (lookup run_id s.runs) [
  | none ↦ err key_error
  | some r ↦
      if is_terminal r.status || same_status r.status cancel_requested
      then ok s
      else if same_status r.status needs_attention
      then err (value_error needs_reconciliation)
      else if is_cleanup (handling_of check r) && refuses_checkpoint r.checkpoint_json
      then err (value_error staged_not_discardable)
      else (let h = handling_of check r in
          let s' = write_cancel run_id h r now s in
          ok (
            if is_cleanup h
            then recover_pending_staging_cleanup discard (some run_id) now s'
            else s'))
]

-- A prior process may have left a tombstone: the cleanup runs first, in its own transaction.
unfoldable pub request_cancel :
    (Fields → Promotion) → (Fields → Option Fault) → String → ℕ → Store → Result Store
unfolding cancel_run
request_cancel check discard run_id now s =
    cancel_run check discard run_id now
      (recover_pending_staging_cleanup discard (some run_id) now s)
