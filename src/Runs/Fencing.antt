-- ===== src/Runs/Fencing.antt =====
-- Fencing of stale workers and irreversibility of statuses, over any sequence of calls.
use ambient_agent.Prelude.{
  ℕ, String, ◌≡◌, ◌≤◌, inl, inr, false, Option, none, some, List, arith, Bool-cases,
  is_some_text-eq, text_refl,
}
use ambient_agent.Prelude.Table.{lookup}
use ambient_agent.Prelude.Keys.{Distinct}
use ambient_agent.Json.{Json}
use ambient_agent.Runs.Status.{Status}
use ambient_agent.Runs.Rows.{Run, StepStatus, Store}
use ambient_agent.Runs.Errors.{err, stale_lease}
use ambient_agent.Runs.Events.{Lease, holds_lease, append_event}
use ambient_agent.Runs.Steps.{begin_step_attempt, finish_step}
use ambient_agent.Runs.Transition.{Assignment, transition, update_progress}
use ambient_agent.Runs.Commit.{Attempt, commit_step, accepts_commit}
use ambient_agent.Runs.Interactions.{Request, wait_for_interaction}
use ambient_agent.Runs.Evolution.{Evolves}
use ambient_agent.Runs.Trace.{Call, perform_all, perform_all-Grows}

-- Every call that names the lease for the Run is refused as stale.
pub record RefusesLease (run_id : String) (l : Lease) (s : Store) : Type 0 where
  pub commit_refused :
      (a : Attempt) → a.run_id ≡ run_id → a.lease ≡ l → commit_step a s ≡ err stale_lease
  pub wait_refused :
      (q : Request) (now : ℕ) → q.run_id ≡ run_id → wait_for_interaction q l now s ≡ err stale_lease
  pub event_refused :
      (kind : String) (payload : Json) (now : ℕ)
      → append_event run_id kind payload (some l) now s ≡ err stale_lease
  pub progress_refused :
      (p : ℕ) (summary : String) (now : ℕ)
      → update_progress run_id p summary (some l) now s ≡ err stale_lease
  pub begin_refused :
      (key : String) (now : ℕ) → begin_step_attempt run_id key (some l) now s ≡ err stale_lease
  pub finish_refused :
      (key : String) (output : Option Json) (status : StepStatus) (attempt : Option ℕ) (now : ℕ)
      → finish_step run_id key output status attempt (some l) now s ≡ err stale_lease
  pub transition_refused :
      (status : Status) (updates : List Assignment) (now : ℕ)
      → transition run_id status (some l) none updates now s ≡ err stale_lease

module _ (run_id : String) (l : Lease) (s : Store) (r : Run) (found : lookup run_id s.runs ≡ some r)
    (lost : holds_lease r l ≡ false) where
  commit_lost : (a : Attempt) → a.run_id ≡ run_id → a.lease ≡ l → commit_step a s ≡ err stale_lease
  unfolding commit_step accepts_commit
  commit_lost a e e' =
      let found' : lookup a.run_id s.runs ≡ some r = rw e found in
      let lost' : holds_lease r a.lease ≡ false = rw e' lost in ground (arith, found', lost')

  wait_lost :
      (q : Request) (now : ℕ) → q.run_id ≡ run_id → wait_for_interaction q l now s ≡ err stale_lease
  unfolding wait_for_interaction
  wait_lost q now e =
      let found' : lookup q.run_id s.runs ≡ some r = rw e found in ground (arith, found', lost)

  event_lost :
      (kind : String) (payload : Json) (now : ℕ)
      → append_event run_id kind payload (some l) now s ≡ err stale_lease
  unfolding append_event
  event_lost kind payload now = ground (arith, found, lost)

  progress_lost :
      (p : ℕ) (summary : String) (now : ℕ)
      → update_progress run_id p summary (some l) now s ≡ err stale_lease
  unfolding update_progress
  progress_lost p summary now = ground (arith, found, lost)

  begin_lost :
      (key : String) (now : ℕ) → begin_step_attempt run_id key (some l) now s ≡ err stale_lease
  unfolding begin_step_attempt
  begin_lost key now = ground (arith, found, lost)

  finish_lost :
      (key : String) (output : Option Json) (status : StepStatus) (attempt : Option ℕ) (now : ℕ)
      → finish_step run_id key output status attempt (some l) now s ≡ err stale_lease
  unfolding finish_step
  finish_lost key output status attempt now = ground (arith, found, lost)

  transition_lost :
      (status : Status) (updates : List Assignment) (now : ℕ)
      → transition run_id status (some l) none updates now s ≡ err stale_lease
  unfolding transition
  transition_lost status updates now = ground (arith, found, lost)

  lost-RefusesLease : RefusesLease run_id l s
  lost-RefusesLease = record {
    commit_refused = commit_lost;
    wait_refused = wait_lost;
    event_refused = event_lost;
    progress_refused = progress_lost;
    begin_refused = begin_lost;
    finish_refused = finish_lost;
    transition_refused = transition_lost;
  }

-- A lease that a Run does not carry, of an epoch it has reached, it never carries again.
lost_lease-stays :
    (r r' : Run) (l : Lease)
    → Evolves r r'
    → l.epoch ≤ r.lease_epoch
    → holds_lease r l ≡ false
    → holds_lease r' l ≡ false
unfolding holds_lease
lost_lease-stays r r' l e past lost = elim (Bool-cases (holds_lease r' l)) [
  | inr free ↦ free
  | inl held ↦ elim (e.lease_kept l.owner (is_some_text-eq r'.lease_owner l.owner (ground arith))) [
    | inl (owned, same) ↦ ground (arith, text_refl l.owner)
    | inr later ↦ ground arith
  ]
]

module _ (id : String) (r : Run) (s : Store) (cs : List Call) (d : Distinct s.runs)
    (found : lookup id s.runs ≡ some r) where
  -- What a Run of the store has become after the calls.
  pub outlived : (r' : Run) × (lookup id (perform_all cs s).runs ≡ some r') × Evolves r r'
  outlived = (perform_all-Grows cs s d).row id r found

-- In a store of distinct keys, let a Run not carry a lease whose epoch is not past the Run's. Then
-- after any sequence of calls each lease-checked operation that names this lease for the Run, a
-- commit, a wait, an event, progress, the start or the end of an attempt, a transition without an
-- expected version, returns the stale-lease error.
pub stale_lease_refused :
    (id : String) (r : Run) (l : Lease) (s : Store) (cs : List Call)
    → Distinct s.runs
    → lookup id s.runs ≡ some r
    → l.epoch ≤ r.lease_epoch
    → holds_lease r l ≡ false
    → RefusesLease id l (perform_all cs s)
stale_lease_refused id r l s cs d found past lost =
    let (r', found', e) = outlived id r s cs d found in
    lost-RefusesLease id l (perform_all cs s) r' found' (lost_lease-stays r r' l e past lost)
