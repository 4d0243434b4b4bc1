-- ===== src/Runs/Transition.antt =====
-- `RunStore.transition` and `update_progress` (backend/run_service.py).
use ambient_agent.Prelude.{
  ℕ, suc, String, Bool, true, false, not, ◌&&◌, ◌||◌, Option, none, some, List, [], ◌∷◌, map, any,
  ltb, ◌==◌, ◌=ₛ◌, if◌then◌else◌,
}
use ambient_agent.Prelude.Table.{lookup, update, update_where}
use ambient_agent.Json.{Json, real, str, null}
use ambient_agent.Runs.Status.{
  Status, queued, running, waiting_user, needs_attention, succeeded, is_terminal, same_status,
  transitions, status_text,
}
use ambient_agent.Runs.Rows.{
  Column, sql_null, stored, Run, Interaction, InteractionStatus, StepStatus, Store,
}
use ambient_agent.Runs.Events.{Lease, holds_lease, emit}
use ambient_agent.Runs.Steps.{close_running_steps, is_fenced}
use ambient_agent.Runs.Errors.{
  Result, Error, ok, err, key_error, integrity_error, stale_lease, version_conflict, value_error,
  invalid_transition, require, ◌>>◌,
}

abbrev pub is_pending : InteractionStatus → Bool
is_pending InteractionStatus.pending = true
is_pending _ = false

-- WHERE run_id=? AND status='pending'
unfoldable pub is_pending_of : String → String → Interaction → Bool
is_pending_of run_id id i = i.run_id =ₛ run_id && is_pending i.status

unfoldable pub cancel_interaction : ℕ → Interaction → Interaction
cancel_interaction now i = record i { status = InteractionStatus.cancelled; resolved_at = some now }

-- UPDATE run_interactions SET status='cancelled', resolved_at=? WHERE run_id=? AND status='pending'
unfoldable pub cancel_pending : String → ℕ → Store → Store
cancel_pending run_id now s = record s {
  interactions = update_where (is_pending_of run_id) (cancel_interaction now) s.interactions;
}

-- A column that a caller of `transition` sets beside the status.
pub data Assignment : Type 0 where
  set_summary : String → Assignment
  set_progress : ℕ → Assignment
  set_result set_error set_checkpoint set_artifacts set_state : Json → Assignment

-- `_json(value) if value is not None else value`
unfoldable pub encode : Json → Column
encode null = sql_null
encode j = stored j

-- The column of the artifacts is NOT NULL.
abbrev pub is_null : Json → Bool
is_null null = true
is_null j = false

abbrev pub nulls_artifacts : Assignment → Bool
nulls_artifacts (set_artifacts j) = is_null j
nulls_artifacts _ = false

unfoldable pub assign : Assignment → Run → Run
unfolding encode
assign (set_summary t) r = record r { summary = t }
assign (set_progress p) r = record r { progress = p }
assign (set_result j) r = record r { result_json = encode j }
assign (set_error j) r = record r { error_json = encode j }
assign (set_checkpoint j) r = record r { checkpoint_json = encode j }
assign (set_artifacts j) r = record r { artifacts_json = encode j }
assign (set_state j) r = record r { state_json = encode j }

unfoldable pub assign_all : List Assignment → Run → Run
assign_all [] r = r
assign_all (a ∷ as') r = assign_all as' (assign a r)

abbrev assigned_field : Assignment → String × Json
assigned_field (set_summary t) = ("summary", str t)
assigned_field (set_progress p) = ("progress", real false p)
assigned_field (set_result j) = ("result", j)
assigned_field (set_error j) = ("error", j)
assigned_field (set_checkpoint j) = ("checkpoint", j)
assigned_field (set_artifacts j) = ("artifacts", j)
assigned_field (set_state j) = ("state", j)

abbrev is_progress : Assignment → Bool
is_progress (set_progress p) = true
is_progress _ = false

-- The statuses at which `transition` clears the lease.
unfoldable pub releases_lease : Status → String → Bool
releases_lease status adapter_type =
    is_terminal status
    || same_status status queued
    || same_status status needs_attention
    || (same_status status waiting_user && not (adapter_type =ₛ "internal"))

-- The row that the UPDATE of `transition` writes.
unfoldable pub transitioned : Status → List Assignment → ℕ → Run → Run
unfolding assign_all
transitioned status updates now r =
    let r' = assign_all updates r in
    let release = releases_lease status r.adapter_type in
    record r' {
      status = status;
      updated_at = now;
      version = suc r.version;
      started_at =
          if same_status status running
          then elim r.started_at [ none ↦ some now | some t ↦ some t ]
          else r.started_at;
      lease_owner = if release then none else r.lease_owner;
      lease_expires_at = if release then none else r.lease_expires_at;
      finished_at = if is_terminal status then some now else r.finished_at;
      progress =
          if same_status status succeeded && not (any is_progress updates)
          then 1000000
          else r'.progress;
    }

abbrev pub expects : Option ℕ → Run → Bool
expects none r = true
expects (some version) r = r.version == version

abbrev pub expects_lease : Option Lease → Run → Bool
expects_lease none r = true
expects_lease (some lease) r = holds_lease r lease

unfoldable pub allowed : Status → Status → Bool
allowed current status = same_status status current || transitions current status

-- What `transition` does to the interactions and the steps of the Run.
unfoldable pub settle : String → Status → Run → ℕ → Store → Store
settle run_id status r now s =
    if same_status status waiting_user
    then (let s' = record s {
      interactions =
          update_where (is_pending_of run_id) (λ i. record i { run_version = some (suc r.version) })
            s.interactions;
    } in
        if not (r.adapter_type =ₛ "internal")
        then close_running_steps run_id StepStatus.interrupted now s'
        else s')
    else if is_terminal status
    then cancel_pending run_id now s
    else s

unfoldable pub transition :
    String → Status → Option Lease → Option ℕ → List Assignment → ℕ → Store → Result Store
unfolding transitioned settle allowed
transition run_id status lease version updates now s = elim (lookup run_id s.runs) [
  | none ↦ err key_error
  | some r ↦ do
    require (expects version r) version_conflict
    require (expects_lease lease r) stale_lease
    require (allowed r.status status) (value_error invalid_transition)
    require (not (any nulls_artifacts updates)) integrity_error
    ok (
        emit run_id "status_changed"
          (("from", str (status_text r.status))
            ∷ ("to", str (status_text status))
            ∷ map assigned_field updates)
          now
          (settle run_id status r now
            (record s { runs = update run_id (transitioned status updates now) s.runs })))
]

-- `max(0.0, min(1.0, progress))`, where a negative number is already 0.
unfoldable pub clamp_progress : ℕ → ℕ
clamp_progress p = if ltb 1000000 p then 1000000 else p

-- What a missing row raises: with an expected lease the row is read first; without one the UPDATE
-- finds nothing, and the event breaks its foreign key.
abbrev missing_row : Option Lease → Error
missing_row none = integrity_error
missing_row (some lease) = key_error

unfoldable pub update_progress : String → ℕ → String → Option Lease → ℕ → Store → Result Store
unfolding is_fenced clamp_progress
update_progress run_id progress summary lease now s = elim (lookup run_id s.runs) [
  | none ↦ err (missing_row lease)
  | some r ↦ do
    require (is_fenced lease r) stale_lease
    ok (
        emit run_id "progress"
          (("progress", real false (clamp_progress progress)) ∷ ("summary", str summary) ∷ []) now
          (record s {
            runs =
                update run_id
                  (λ r. record r {
                    progress = clamp_progress progress;
                    summary = summary;
                    updated_at = now;
                  })
                  s.runs;
          }))
]
