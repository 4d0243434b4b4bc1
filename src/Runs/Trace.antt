-- ===== src/Runs/Trace.antt =====
-- Sequences of calls of `RunStore` (backend/run_service.py). SQLite runs one write transaction at
-- a time (`BEGIN IMMEDIATE`), and one that raises is rolled back: the store stays as it was.
use ambient_agent.Prelude.{ℕ, String, ◌≡◌, refl, Option, List, [], ◌∷◌}
use ambient_agent.Prelude.Keys.{Distinct}
use ambient_agent.Json.{Json, Fields}
use ambient_agent.Runs.Status.{Status}
use ambient_agent.Runs.Rows.{StepStatus, Store}
use ambient_agent.Runs.Errors.{Result, ok, err}
use ambient_agent.Runs.Events.{Lease, append_event}
use ambient_agent.Runs.Claim.{claim_next, claim_specific, heartbeat}
use ambient_agent.Runs.Steps.{begin_step_attempt, finish_step}
use ambient_agent.Runs.Transition.{Assignment, transition, update_progress}
use ambient_agent.Runs.Commit.{Attempt, commit_step}
use ambient_agent.Runs.Interactions.{
  Request, Answer, create_interaction, wait_for_interaction, resolve_interaction,
}
use ambient_agent.Runs.Grants.{complete_permission_grant, defer_permission_grant}
use ambient_agent.Runs.Staging.{Fault, recover_pending_staging_cleanup}
use ambient_agent.Runs.Recovery.{finalize_cancel_requested, recover_orphaned, release_worker}
use ambient_agent.Runs.Cancel.{Promotion, request_cancel}
use ambient_agent.Runs.Reconcile.{Resolution, reconcile_effect}
use ambient_agent.Runs.Create.{NewRun, create_run, cleanup_events}
use ambient_agent.Runs.Evolution.{Grows, Grows-refl, Grows-trans}
use ambient_agent.Runs.Evolution.Operations.{
  claim_specific-Grows, claim_next-Grows, heartbeat-Grows, append_event-Grows, transition-Grows,
  update_progress-Grows, begin_step_attempt-Grows,
}
use ambient_agent.Runs.Evolution.Commits.{
  commit_step-Grows, finish_step-Grows, create_interaction-Grows, wait_for_interaction-Grows,
  resolve_interaction-Grows, complete_permission_grant-Grows, defer_permission_grant-Grows,
}
use ambient_agent.Runs.Evolution.Recoveries.{
  recover_pending_staging_cleanup-Grows, recover_orphaned-Grows, release_worker-Grows,
}
use ambient_agent.Runs.Evolution.Cancels.{
  finalize_cancel_requested-Grows, request_cancel-Grows, reconcile_effect-Grows, create_run-Grows,
}

-- A call of an operation, with its arguments, the reading of the clock last. The purge of a session,
-- which deletes Runs that have ended, is not among them.
pub data Call : Type 0 where
  create : NewRun → String → ℕ → Call
  claim_any : String → ℕ → ℕ → ℕ → List String → ℕ → Call
  claim_one : String → String → ℕ → ℕ → ℕ → ℕ → Call
  beat : String → ℕ → Option (List String) → ℕ → Call
  publish : String → String → Json → Option Lease → ℕ → Call
  move : String → Status → Option Lease → Option ℕ → List Assignment → ℕ → Call
  progress : String → ℕ → String → Option Lease → ℕ → Call
  begin : String → String → Option Lease → ℕ → Call
  finish : String → String → Option Json → StepStatus → Option ℕ → Option Lease → ℕ → Call
  commit : Attempt → Call
  ask : String → String → String → Json → String → ℕ → Call
  park : Request → Lease → ℕ → Call
  answer : String → Answer → ℕ → Call
  grant_done grant_deferred : String → ℕ → Call
  clean : (Fields → Option Fault) → Option String → ℕ → Call
  recover : (Fields → Option Fault) → ℕ → Call
  release : String → ℕ → Call
  stop : (Fields → Promotion) → (Fields → Option Fault) → String → ℕ → Call
  finalize : String → String → ℕ → Call
  reconcile : String → Resolution → Option String → ℕ → Call
  expire : ℕ → ℕ → Call

abbrev pub kept : Store → Result Store → Store
kept s (ok s') = s'
kept s (err e) = s

abbrev pub kept_pair {ℓ} : {A : Type ℓ} → Store → Result (Store × A) → Store
kept_pair s (ok (s', a)) = s'
kept_pair s (err e) = s

-- The store after a call.
unfoldable pub perform : Call → Store → Store
perform (create n id now) s = kept_pair s (create_run n id now s)
perform (claim_any w g o lease excluded now) s = (claim_next w g o lease excluded now s).0
perform (claim_one id w g o lease now) s = (claim_specific id w g o lease now s).0
perform (beat w lease ids now) s = heartbeat w lease ids now s
perform (publish id kind payload lease now) s =
    kept_pair s (append_event id kind payload lease now s)
perform (move id status lease version updates now) s =
    kept s (transition id status lease version updates now s)
perform (progress id p summary lease now) s = kept s (update_progress id p summary lease now s)
perform (begin id key lease now) s = kept_pair s (begin_step_attempt id key lease now s)
perform (finish id key output status attempt lease now) s =
    kept s (finish_step id key output status attempt lease now s)
perform (commit a) s = kept s (commit_step a s)
perform (ask run_id kind prompt payload id now) s =
    kept s (create_interaction run_id kind prompt payload id now s)
perform (park q lease now) s = kept s (wait_for_interaction q lease now s)
perform (answer id a now) s = kept s (resolve_interaction id a now s)
perform (grant_done id now) s = complete_permission_grant id now s
perform (grant_deferred id now) s = defer_permission_grant id now s
perform (clean discard id now) s = recover_pending_staging_cleanup discard id now s
perform (recover discard now) s = (recover_orphaned discard now s).0
perform (release worker now) s = (release_worker worker now s).0
perform (stop check discard id now) s = kept s (request_cancel check discard id now s)
perform (finalize id worker now) s = kept s (finalize_cancel_requested id worker now s)
perform (reconcile id x remark now) s = kept s (reconcile_effect id x remark now s)
perform (expire days now) s = (cleanup_events days now s).0

unfoldable pub perform_all : List Call → Store → Store
perform_all [] s = s
perform_all (c ∷ cs) s = perform_all cs (perform c s)

kept-Grows :
    (s : Store) (m : Result Store)
    → ((s' : Store) → m ≡ ok s' → Grows s.runs s'.runs)
    → Grows s.runs (kept s m).runs
kept-Grows s (ok s') step = step s' refl
kept-Grows s (err e) step = Grows-refl s.runs

kept_pair-Grows {ℓ} :
    {A : Type ℓ} (s : Store) (m : Result (Store × A))
    → ((s' : Store) (a : A) → m ≡ ok (s', a) → Grows s.runs s'.runs)
    → Grows s.runs (kept_pair s m).runs
kept_pair-Grows s (ok (s', a)) step = step s' a refl
kept_pair-Grows s (err e) step = Grows-refl s.runs

pub perform-Grows : (c : Call) (s : Store) → Distinct s.runs → Grows s.runs (perform c s).runs
unfolding perform cleanup_events
perform-Grows (create n id now) s d =
    kept_pair-Grows s _ λ s' a h. create_run-Grows n id now s s' a h
perform-Grows (claim_any w g o lease excluded now) s d = claim_next-Grows w g o lease excluded now s
perform-Grows (claim_one id w g o lease now) s d = claim_specific-Grows id now s w g o lease
perform-Grows (beat w lease ids now) s d = heartbeat-Grows w lease ids now s
perform-Grows (publish id kind payload lease now) s d =
    kept_pair-Grows s _ λ s' a h. append_event-Grows id kind payload lease now s s' a h
perform-Grows (move id status lease version updates now) s d =
    kept-Grows s _ λ s' h. transition-Grows id status lease version updates now s s' h
perform-Grows (progress id p summary lease now) s d =
    kept-Grows s _ λ s' h. update_progress-Grows id p summary lease now s s' h
perform-Grows (begin id key lease now) s d =
    kept_pair-Grows s _ λ s' a h. begin_step_attempt-Grows id key lease now s s' a h
perform-Grows (finish id key output status attempt lease now) s d =
    kept-Grows s _ λ s' h. finish_step-Grows id key output status attempt lease now s s' h
perform-Grows (commit a) s d = kept-Grows s _ λ s' h. commit_step-Grows a s s' h
perform-Grows (ask run_id kind prompt payload id now) s d =
    kept-Grows s _ λ s' h. create_interaction-Grows run_id kind prompt payload id now s s' h
perform-Grows (park q lease now) s d =
    kept-Grows s _ λ s' h. wait_for_interaction-Grows q lease now s s' h
perform-Grows (answer id a now) s d =
    kept-Grows s _ λ s' h. resolve_interaction-Grows id a now s s' h
perform-Grows (grant_done id now) s d = complete_permission_grant-Grows id now s
perform-Grows (grant_deferred id now) s d = defer_permission_grant-Grows id now s
perform-Grows (clean discard id now) s d = recover_pending_staging_cleanup-Grows discard id now s d
perform-Grows (recover discard now) s d = recover_orphaned-Grows discard now s d
perform-Grows (release worker now) s d = release_worker-Grows worker now s d
perform-Grows (stop check discard id now) s d =
    kept-Grows s _ λ s' h. request_cancel-Grows check discard id now s s' d h
perform-Grows (finalize id worker now) s d =
    kept-Grows s _ λ s' h. finalize_cancel_requested-Grows id worker now s s' h
perform-Grows (reconcile id x remark now) s d =
    kept-Grows s _ λ s' h. reconcile_effect-Grows id x remark now s s' h
perform-Grows (expire days now) s d = Grows-refl s.runs

pub perform_all-Grows :
    (cs : List Call) (s : Store) → Distinct s.runs → Grows s.runs (perform_all cs s).runs
unfolding perform_all
perform_all-Grows [] s d = Grows-refl s.runs
perform_all-Grows (c ∷ cs) s d =
    let first = perform-Grows c s d in
    Grows-trans s.runs (perform c s).runs _ first
      (perform_all-Grows cs (perform c s) (first.keyed d))
