-- ===== src/Runs/Steps.antt =====
-- Reducer attempts: `begin_step_attempt`, `begin_step`, `finish_step` (backend/run_service.py).
use ambient_agent.Prelude.{
  ℕ, suc, String, Bool, true, false, not, ◌&&◌, Option, none, some, List, [], ◌∷◌, ◌++◌, ltb, ◌==◌,
  ◌=ₛ◌, if◌then◌else◌,
}
use ambient_agent.Prelude.Table.{lookup, update}
use ambient_agent.Json.{Json, num, str, obj, object, null}
use ambient_agent.Runs.Status.{running, same_status}
use ambient_agent.Runs.Rows.{Column, sql_null, stored, Run, Step, StepStatus, Store}
use ambient_agent.Runs.Events.{Lease, holds_lease, emit}
use ambient_agent.Runs.Errors.{
  Result, ok, err, key_error, stale_lease, value_error, step_not_started, require, ◌>>=◌, ◌>>◌,
}

-- UPDATE run_steps SET ... WHERE p
unfoldable pub update_steps : (Step → Bool) → (Step → Step) → List Step → List Step
update_steps p f [] = []
update_steps p f (x ∷ xs) = (if p x then f x else x) ∷ update_steps p f xs

abbrev pub is_step_running : StepStatus → Bool
is_step_running StepStatus.running = true
is_step_running _ = false

-- WHERE run_id=? AND status='running'
unfoldable pub is_running_step : String → Step → Bool
is_running_step run_id x = x.run_id =ₛ run_id && is_step_running x.status

unfoldable pub close_step : StepStatus → ℕ → Step → Step
close_step status now x = record x { status = status; finished_at = some now }

-- UPDATE run_steps SET status=?, finished_at=? WHERE run_id=? AND status='running'
unfoldable pub close_running_steps : String → StepStatus → ℕ → Store → Store
close_running_steps run_id status now s = record s {
  steps = update_steps (is_running_step run_id) (close_step status now) s.steps;
}

-- SELECT attempt FROM run_steps WHERE run_id=? AND step_key=? ORDER BY attempt DESC LIMIT 1
unfoldable pub last_attempt : String → String → List Step → Option ℕ
last_attempt run_id key [] = none
last_attempt run_id key (x ∷ xs) =
    let rest = last_attempt run_id key xs in
    if x.run_id =ₛ run_id && x.step_key =ₛ key
    then elim rest [
      | none ↦ some x.attempt
      | some n ↦ some (if ltb n x.attempt then x.attempt else n)
    ]
    else rest

-- A lease that is passed as `lease_owner` and `lease_epoch`; without it nothing is checked.
unfoldable pub is_fenced : Option Lease → Run → Bool
unfolding holds_lease
is_fenced none r = true
is_fenced (some lease) r = holds_lease r lease && same_status r.status running

abbrev pub next_attempt : Option ℕ → ℕ
next_attempt none = 1
next_attempt (some n) = suc n

abbrev pub new_step : String → String → ℕ → ℕ → Step
new_step run_id key attempt now = record {
  run_id = run_id;
  step_key = key;
  status = StepStatus.running;
  attempt = attempt;
  output_json = sql_null;
  started_at = some now;
  finished_at = none;
}

unfoldable pub begin_step_attempt : String → String → Option Lease → ℕ → Store → Result (Store × ℕ)
unfolding is_fenced
begin_step_attempt run_id key lease now s = elim (lookup run_id s.runs) [
  | none ↦ err key_error
  | some r ↦ do
    require (is_fenced lease r) stale_lease
    let attempt = next_attempt (last_attempt run_id key s.steps)
    ok (
      emit run_id "step_started"
          (("step_key", str key)
            ∷ ("attempt", num attempt)
            ∷ ("lease_epoch", num r.lease_epoch)
            ∷ [])
          now (record s { steps = s.steps ++ new_step run_id key attempt now ∷ [] }),
      attempt,
    )
]

-- `begin_step`: whether an attempt began; `begin_step_attempt` never returns `None`.
unfoldable pub begin_step : String → String → Option Lease → ℕ → Store → Result (Store × Bool)
begin_step run_id key lease now s = do
  (s', attempt) ← begin_step_attempt run_id key lease now s
  ok (s', true)

abbrev option_column : Option Json → Column
option_column none = sql_null
option_column (some j) = stored j

abbrev option_json : Option Json → Json
option_json none = null
option_json (some j) = j

-- The attempt that `finish_step` closes: the one it is given, or the last.
unfoldable pub chosen_attempt : Option ℕ → String → String → List Step → Result ℕ
chosen_attempt (some n) run_id key steps = ok n
chosen_attempt none run_id key steps = elim (last_attempt run_id key steps) [
  | none ↦ err (value_error step_not_started)
  | some n ↦ ok n
]

unfoldable pub is_attempt : String → String → ℕ → Step → Bool
is_attempt run_id key attempt x = x.run_id =ₛ run_id && x.step_key =ₛ key && x.attempt == attempt

abbrev is_missing : Option Lease → Bool
is_missing none = true
is_missing (some lease) = false

abbrev pub is_success : StepStatus → Bool
is_success StepStatus.succeeded = true
is_success _ = false

unfoldable pub finished_step : StepStatus → Option Json → ℕ → Step → Step
finished_step status output now x = record x {
  status = status;
  output_json = option_column output;
  finished_at = some now;
}

unfoldable pub step_checkpoint : String → ℕ → Option Json → Column
step_checkpoint key n output = stored (
    obj
      (object (("last_step", str key) ∷ ("attempt", num n) ∷ ("output", option_json output) ∷ [])))

unfoldable pub finish_step :
    String → String → Option Json → StepStatus → Option ℕ → Option Lease → ℕ → Store → Result Store
unfolding is_fenced chosen_attempt
finish_step run_id key output status attempt lease now s = elim (lookup run_id s.runs) [
  | none ↦ err key_error
  | some r ↦ do
    require (not (r.adapter_type =ₛ "internal_agent" && is_missing lease)) stale_lease
    require (is_fenced lease r) stale_lease
    n ← chosen_attempt attempt run_id key s.steps
    ok (record s {
      steps = update_steps (is_attempt run_id key n) (finished_step status output now) s.steps;
      runs =
          if is_success status
          then update run_id
              (λ r. record r { checkpoint_json = step_checkpoint key n output; updated_at = now })
              s.runs
          else s.runs;
    })
]
