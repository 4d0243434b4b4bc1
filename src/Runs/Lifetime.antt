-- ===== src/Runs/Lifetime.antt =====
-- What no sequence of calls undoes: versions, lease epochs, and the way a Run ends.
use ambient_agent.Prelude.{String, ◌≡◌, ◌≢◌, ◌≤◌, Bool, true, false, ℕ, none, some, List, arith}
use ambient_agent.Prelude.Table.{lookup}
use ambient_agent.Prelude.Keys.{Distinct}
use ambient_agent.Runs.Status.{Status, queued, running, waiting_user, succeeded, failed, cancelled}
use ambient_agent.Runs.Rows.{Run, Store}
use ambient_agent.Runs.Claim.{claim_specific, may_claim}
use ambient_agent.Runs.Evolution.{reaches}
use ambient_agent.Runs.Trace.{Call, perform_all}
use ambient_agent.Runs.Fencing.{outlived}

-- A cancellation was requested, the effect is in doubt, or the Run has ended.
abbrev pub has_stopped : Status → Bool
has_stopped queued = false
has_stopped running = false
has_stopped waiting_user = false
has_stopped _ = true

-- What a Run keeps of an earlier time.
pub record Outlives (id : String) (r : Run) (s : Store) : Type 0 where
  pub later : Run
  pub later_found : lookup id s.runs ≡ some later
  pub version_kept : r.version ≤ later.version
  pub epoch_kept : r.lease_epoch ≤ later.lease_epoch
  pub creation_kept : later.created_at ≡ r.created_at
  pub stopped_kept : has_stopped r.status ≡ true → has_stopped later.status ≡ true
  pub success_kept : r.status ≡ succeeded → later.status ≡ succeeded
  pub failure_kept : r.status ≡ failed → later.status ≡ failed
  pub cancel_kept : r.status ≡ cancelled → later.status ≢ succeeded

stopped_reaches : (a b : Status) → reaches a b ≡ true → has_stopped a ≡ true → has_stopped b ≡ true
stopped_reaches a b h p = ground arith

-- In a store of distinct keys, after any sequence of calls, none of which purges a session, each Run
-- is still there, with the same
-- creation time, a version and a lease epoch at least what they were; if it had stopped it is
-- not queued, running or waiting; if it had succeeded or failed that is still its status; if it
-- was cancelled it has not succeeded.
pub runs_outlive :
    (id : String) (r : Run) (s : Store) (cs : List Call)
    → Distinct s.runs
    → lookup id s.runs ≡ some r
    → Outlives id r (perform_all cs s)
runs_outlive id r s cs d found =
    let (r', found', e) = outlived id r s cs d found in
    record {
      later = r';
      later_found = found';
      version_kept = e.version_grows;
      epoch_kept = e.epoch_grows;
      creation_kept = e.created_kept;
      stopped_kept = stopped_reaches r.status r'.status e.status_reached;
      success_kept = λ h. ground (arith, e.status_reached);
      failure_kept = λ h. ground (arith, e.status_reached);
      cancel_kept = λ h h'. ground (arith, e.status_reached);
    }

stopped-unclaimable :
    (id worker : String) (g o lease now : ℕ) (r : Run) (s : Store)
    → lookup id s.runs ≡ some r
    → has_stopped r.status ≡ true
    → claim_specific id worker g o lease now s ≡ (s, none)
unfolding claim_specific may_claim
stopped-unclaimable id worker g o lease now r s found h = ground (arith, found, h)

-- In a store of distinct keys, a Run that has stopped is never handed to a worker again: after any
-- sequence of calls `claim_specific` changes nothing and returns no Run for it.
pub stopped_never_claimed :
    (id worker : String) (g o lease now : ℕ) (r : Run) (s : Store) (cs : List Call)
    → Distinct s.runs
    → lookup id s.runs ≡ some r
    → has_stopped r.status ≡ true
    → claim_specific id worker g o lease now (perform_all cs s) ≡ (perform_all cs s, none)
stopped_never_claimed id worker g o lease now r s cs d found h =
    let o' = runs_outlive id r s cs d found in
    stopped-unclaimable id worker g o lease now o'.later (perform_all cs s) o'.later_found
      (o'.stopped_kept h)
