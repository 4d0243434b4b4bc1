-- ===== src/Runs/Commit.antt =====
-- `RunStore.commit_step` (backend/run_service.py): a reducer attempt, its checkpoint, the status
-- and the events in one transaction, fenced by the lease epoch.
use Prim.Native.Nat.{◌*◌}
use ambient_agent.Prelude.{
  ℕ, suc, ◌-◌, String, Bool, true, false, not, ◌&&◌, ◌||◌, Option, none, some, List, [], ◌∷◌, ◌++◌,
  length, ◌=ₛ◌, if◌then◌else◌,
}
use ambient_agent.Prelude.Table.{lookup, update}
use ambient_agent.Json.{Json, null, num, real, str, arr, obj, object, get_or}
use ambient_agent.Runs.Status.{
  running, waiting_user, cancel_requested, needs_attention, is_terminal, same_status, status_text,
}
use ambient_agent.Runs.State.{AgentRunState, model_dump, items}
use ambient_agent.Runs.Rows.{
  sql_null, stored, Run, Step, StepStatus, Interaction, InteractionStatus, Store,
}
use ambient_agent.Runs.Events.{Lease, holds_lease, Overrides, insert_event, emit}
use ambient_agent.Runs.Steps.{update_steps, is_attempt, is_step_running, finished_step}
use ambient_agent.Runs.Transition.{is_pending, cancel_pending}
use ambient_agent.Runs.Outcome.{
  PendingRunEvent, Question, Verdict, wait, succeed, fail, cancel, StepOutcome, outcome_json,
  failure_json, target_of, step_status_of, checkpoint_of,
}
use ambient_agent.Runs.Errors.{
  Result, ok, err, key_error, stale_lease, value_error, missing_definition, foreign_interaction,
  require, ◌>>=◌, ◌>>◌,
}

-- One call of `commit_step`, with the reading of the clock.
pub record Attempt : Type 0 where
  pub run_id : String
  pub step_key : String
  pub attempt : ℕ
  pub lease : Lease
  pub state : AgentRunState
  pub outcome : StepOutcome
  pub now : ℕ

abbrev is_cancel : Verdict → Bool
is_cancel (cancel e) = true
is_cancel _ = false

-- A Run accepts a commit while it runs, and a `Cancelled` outcome after a cancel request.
unfoldable pub accepts_commit : Run → Lease → Verdict → Bool
accepts_commit r lease v =
    holds_lease r lease
    && (same_status r.status running || (same_status r.status cancel_requested && is_cancel v))

-- SELECT ... FROM run_steps WHERE run_id=? AND step_key=? AND attempt=?
unfoldable pub find_attempt : String → String → ℕ → List Step → Option Step
find_attempt run_id key attempt [] = none
find_attempt run_id key attempt (x ∷ xs) =
    if is_attempt run_id key attempt x then some x else find_attempt run_id key attempt xs

-- `not value` of an optional text.
abbrev pub is_blank : Option String → Bool
is_blank none = true
is_blank (some String.[]) = true
is_blank _ = false

abbrev pub text_or_empty : Option String → String
text_or_empty none = ""
text_or_empty (some t) = t

abbrev pub new_interaction : String → String → String → Json → ℕ → ℕ → Interaction
new_interaction run_id kind prompt payload now version = record {
  run_id = run_id;
  kind = kind;
  prompt = prompt;
  payload_json = payload;
  status = InteractionStatus.pending;
  response_json = sql_null;
  created_at = now;
  resolved_at = none;
  run_version = some version;
}

abbrev step_overrides : Attempt → Option String → Overrides
step_overrides a trace = record {
  step_id = some a.step_key;
  attempt = some a.attempt;
  trace_id = trace;
}

-- The interaction that a `Wait` outcome names: made if it is new, else checked.
unfoldable pub open_question : Attempt → ℕ → Question → Store → Result Store
open_question a version q s = elim (lookup q.interaction_id s.interactions) [
  | none ↦ do
    require (not (is_blank q.interaction_type || is_blank q.interaction_prompt))
        (value_error missing_definition)
    let row =
        new_interaction a.run_id (text_or_empty q.interaction_type)
          (text_or_empty q.interaction_prompt) q.interaction_payload a.now version
    ok (
        insert_event (step_overrides a none) a.run_id "interaction_requested"
          (obj (
            object (
              ("interaction_id", str q.interaction_id)
              ∷ ("type", str (text_or_empty q.interaction_type))
              ∷ [])))
          a.now (record s { interactions = s.interactions ++ (q.interaction_id, row) ∷ [] }))
  | some i ↦ do
    require (i.run_id =ₛ a.run_id && is_pending i.status) (value_error foreign_interaction)
    ok s
]

unfoldable pub prepare : Attempt → ℕ → Verdict → Store → Result Store
unfolding open_question
prepare a version (wait q) s = open_question a version q s
prepare a version _ s = ok s

-- The columns that depend on the outcome alone.
unfoldable pub outcome_columns : Verdict → ℕ → Run → Run
outcome_columns (succeed result artifacts) now r = record r {
  result_json = stored result;
  artifacts_json = stored (arr (items artifacts));
  progress = 1000000;
}
outcome_columns (fail f) now r = record r { error_json = stored (obj (object (failure_json f))) }
outcome_columns _ now r = r

-- The row that the UPDATE of `commit_step` writes.
unfoldable pub committed : Attempt → Run → Run
unfolding outcome_columns
committed a r =
    let v = a.outcome.verdict in
    let checkpoint = checkpoint_of v a.state in
    let target = target_of v in
    let r' = outcome_columns v a.now r in
    record r' {
      status = target;
      state_json = stored (model_dump checkpoint);
      workflow_type = checkpoint.workflow_type;
      workflow_version = checkpoint.workflow_version;
      checkpoint_json = stored (
          obj (
            object (
              ("last_step", str a.step_key)
              ∷ ("attempt", num a.attempt)
              ∷ ("state", model_dump checkpoint)
              ∷ ("outcome", outcome_json a.outcome)
              ∷ [])));
      summary = a.outcome.summary;
      updated_at = a.now;
      lease_owner = none;
      lease_expires_at = none;
      version = suc r.version;
      finished_at = if is_terminal target then some a.now else r.finished_at;
    }

abbrev version_interaction : Verdict → ℕ → Store → Store
version_interaction (wait q) version s = record s {
  interactions =
      update q.interaction_id (λ i. record i { run_version = some version }) s.interactions;
}
version_interaction _ version s = s

-- A waiting Run's interaction gets the new version; one that ended or needs review has none open.
unfoldable pub settle_interactions : Attempt → ℕ → Store → Store
settle_interactions a version s =
    let target = target_of a.outcome.verdict in
    if same_status target waiting_user
    then version_interaction a.outcome.verdict version s
    else if is_terminal target || same_status target needs_attention
    then cancel_pending a.run_id a.now s
    else s

abbrev trace_text : String → Json → String
trace_text run_id (str String.[]) = run_id
trace_text run_id (str t) = t
trace_text run_id j = run_id

-- The events that the reducer left in its outcome. A trace id is a text.
unfoldable pub publish : Attempt → List PendingRunEvent → Store → Store
publish a [] s = s
publish a (e ∷ es) s = publish a es (
    insert_event
      (step_overrides a (some (trace_text a.run_id (get_or a.state.state_data "trace_id" null))))
      a.run_id e.kind e.payload a.now s)

-- Milliseconds since the start of the step, in millionths; a clock that went back gives 0.
abbrev duration_of : Step → ℕ → Json
duration_of x now = elim x.started_at [ none ↦ null | some t ↦ real false ((now - t) * 1000) ]

unfoldable pub committed_payload : Attempt → Step → ℕ → List (String × Json)
committed_payload a x version =
    let b = a.state.budget in
    ("step_key", str a.step_key)
    ∷ ("attempt", num a.attempt)
    ∷ ("lease_epoch", num a.lease.epoch)
    ∷ ("run_version", num version)
    ∷ ("duration_ms", duration_of x a.now)
    ∷ (
      "model_usage",
      obj (
          object (
            ("model_turns", num b.model_turns)
            ∷ ("tokens", num b.tokens_used)
            ∷ ("cost_usd", real false b.cost_usd)
            ∷ [])),
    )
    ∷ ("workflow_type", str a.state.workflow_type)
    ∷ ("repair_count", get_or a.state.state_data "repair_count" (num 0))
    ∷ ("artifact_count", num (length a.state.artifact_refs))
    ∷ ("outcome", outcome_json a.outcome)
    ∷ []

unfoldable pub is_open_attempt : Attempt → Step → Bool
is_open_attempt a x = is_attempt a.run_id a.step_key a.attempt x && is_step_running x.status

abbrev pub is_open : Option Step → Bool
is_open none = false
is_open (some x) = is_step_running x.status

abbrev pub step_or : Option Step → Step → Step
step_or none x = x
step_or (some y) x = y

abbrev pub no_step : Attempt → Step
no_step a = record {
  run_id = a.run_id;
  step_key = a.step_key;
  status = StepStatus.running;
  attempt = a.attempt;
  output_json = sql_null;
  started_at = none;
  finished_at = none;
}

-- What the transaction writes once its guards have passed.
unfoldable pub write_commit : Attempt → Run → Step → Store → Store
write_commit a r x s =
    let version = suc r.version in
    let v = a.outcome.verdict in
    let s₁ = record s {
      steps =
          update_steps (is_open_attempt a)
            (finished_step (step_status_of v) (some (outcome_json a.outcome)) a.now) s.steps;
      runs = update a.run_id (committed a) s.runs;
    } in
    let s₂ = publish a a.outcome.events (settle_interactions a version s₁) in
    emit a.run_id "status_changed"
      (("from", str (status_text r.status))
        ∷ ("to", str (status_text (target_of v)))
        ∷ ("version", num version)
        ∷ [])
      a.now (emit a.run_id "step_committed" (committed_payload a x version) a.now s₂)

unfoldable pub commit_step : Attempt → Store → Result Store
commit_step a s = elim (lookup a.run_id s.runs) [
  | none ↦ err key_error
  | some r ↦ do
    require (accepts_commit r a.lease a.outcome.verdict) stale_lease
    let found = find_attempt a.run_id a.step_key a.attempt s.steps
    require (is_open found) stale_lease
    s' ← prepare a (suc r.version) a.outcome.verdict s
    ok (write_commit a r (step_or found (no_step a)) s')
]
