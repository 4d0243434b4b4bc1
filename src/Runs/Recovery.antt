-- ===== src/Runs/Recovery.antt =====
-- What becomes of a Run whose worker is gone: `finalize_cancel_requested`, `recover_orphaned`,
-- `release_worker` (backend/run_service.py).
use ambient_agent.Prelude.{
  ℕ, suc, String, Bool, true, false, ◌&&◌, ◌||◌, Option, none, some, List, [], ◌∷◌, length, any,
  ltb, ◌=ₛ◌, is_some_text, if◌then◌else◌,
}
use ambient_agent.Prelude.Table.{lookup, update, select_where}
use ambient_agent.Json.{Fields, str}
use ambient_agent.Runs.Status.{
  Status, queued, needs_attention, cancel_requested, cancelled, is_leased, same_status, status_text,
}
use ambient_agent.Runs.Rows.{Run, Step, StepStatus, Store, for_rows}
use ambient_agent.Runs.Events.{emit}
use ambient_agent.Runs.Steps.{is_running_step, close_running_steps}
use ambient_agent.Runs.Transition.{cancel_pending}
use ambient_agent.Runs.Staging.{Fault, recover_pending_staging_cleanup}
use ambient_agent.Runs.Errors.{Result, ok, err, key_error}

unfoldable pub has_running_step : String → List Step → Bool
unfolding is_running_step
has_running_step run_id steps = any (is_running_step run_id) steps

-- The status of a Run whose cancellation nobody acknowledged.
unfoldable pub unacknowledged : String → Store → Status
unacknowledged run_id s = if has_running_step run_id s.steps then needs_attention else cancelled

abbrev cancel_summary : Status → String
cancel_summary status =
    if same_status status needs_attention
    then "Cancellation outcome requires review"
    else "Cancelled"

-- The row that the UPDATE of `finalize_cancel_requested` writes.
unfoldable pub finalized : Status → ℕ → Run → Run
finalized target now r = record r {
  status = target;
  summary = cancel_summary target;
  updated_at = now;
  finished_at = if same_status target cancelled then some now else none;
  lease_owner = none;
  lease_expires_at = none;
  version = suc r.version;
}

unfoldable pub finalize_cancel_requested : String → String → ℕ → Store → Result Store
finalize_cancel_requested run_id worker_id now s = elim (lookup run_id s.runs) [
  | none ↦ err key_error
  | some r ↦
      let target = unacknowledged run_id s in
      let review = same_status target needs_attention in
      if same_status r.status cancel_requested && is_some_text r.lease_owner worker_id
      then ok (
          emit run_id "cancellation_completed"
            (("status", str (status_text target))
              ∷ ("effect_state", str (if review then "unknown" else "none"))
              ∷ [])
            now
            (cancel_pending run_id now (
              close_running_steps run_id
                (if review then StepStatus.interrupted else StepStatus.cancelled) now
                (record s { runs = update run_id (finalized target now) s.runs }))))
      else ok s
]

-- Where a Run goes that lost its worker.
unfoldable pub orphan_target : String → Run → Store → Status
unfolding unacknowledged
orphan_target run_id r s =
    if same_status r.status cancel_requested
    then unacknowledged run_id s
    else if r.recovery =ₛ "restart_safe"
    then queued
    else needs_attention

unfoldable pub orphaned : Status → ℕ → Run → Run
orphaned target now r = record r {
  status = target;
  lease_owner = none;
  lease_expires_at = none;
  updated_at = now;
  finished_at = elim r.finished_at [
    | some t ↦ some t
    | none ↦ if same_status target cancelled then some now else none
  ];
  version = suc r.version;
}

unfoldable pub close_if_settled : String → Status → ℕ → Store → Store
close_if_settled run_id target now s =
    if same_status target cancelled || same_status target needs_attention
    then cancel_pending run_id now s
    else s

-- One turn of the loop that both operations share, with the type of its event.
unfoldable pub release_row : String → ℕ → String × Run → Store → Store
release_row event now (id, r) s =
    let target = orphan_target id r s in
    emit id event (("status", str (status_text target)) ∷ []) now (
      close_if_settled id target now (
        close_running_steps id StepStatus.interrupted now
          (record s { runs = update id (orphaned target now) s.runs })))

-- WHERE status IN ('running','cancel_requested') AND (lease_owner IS NULL OR ...)
unfoldable pub is_orphan : ℕ → Run → Bool
is_orphan now r =
    is_leased r.status
    && (elim r.lease_owner [ none ↦ true | some w ↦ false ]
        || elim r.lease_expires_at [ none ↦ true | some t ↦ ltb t now ])

-- The transaction of `recover_orphaned`.
unfoldable pub recover_leases : ℕ → Store → Store × ℕ
unfolding is_orphan
recover_leases now s =
    let rows = select_where (λ id r. is_orphan now r) s.runs in
    (for_rows (release_row "recovered" now) rows s, length rows)

unfoldable pub recover_orphaned : (Fields → Option Fault) → ℕ → Store → Store × ℕ
recover_orphaned discard now s =
    recover_leases now (recover_pending_staging_cleanup discard none now s)

-- WHERE lease_owner=? AND status IN ('running','cancel_requested')
unfoldable pub is_leased_by : String → Run → Bool
is_leased_by worker_id r = is_some_text r.lease_owner worker_id && is_leased r.status

unfoldable pub release_worker : String → ℕ → Store → Store × ℕ
release_worker worker_id now s =
    let rows = select_where (λ id r. is_leased_by worker_id r) s.runs in
    (for_rows (release_row "lease_released" now) rows s, length rows)
