-- ===== src/Runs/Claim.antt =====
-- Leases: `claim_next`, `claim_specific`, `heartbeat` (backend/run_service.py).
-- A claim returns the id of the Run, whose row the source reads back.
pub mod Order
pub mod Admission
use ambient_agent.Prelude.{
  ℕ, suc, ◌+◌, String, Bool, true, false, not, ◌&&◌, ◌||◌, Option, none, some, List, [], ◌∷◌, ltb,
  leb, ◌=ₛ◌, is_some_text, find?, any, take, if◌then◌else◌,
}
use ambient_agent.Prelude.Table.{Table, lookup, update_where, count, exists, select_where}
use ambient_agent.Json.{num, str}
use ambient_agent.Runs.Status.{queued, running, is_leased, same_status}
use ambient_agent.Runs.Rows.{Run, Grant, GrantStatus, Store}
use ambient_agent.Runs.Events.{emit}
use ambient_agent.Runs.Lane.{is_before, active_rows, session_lane_available}

-- COUNT(*) ... WHERE status IN ('running','cancel_requested')
unfoldable pub running_count : Table Run → ℕ
running_count runs = count (λ id r. is_leased r.status) runs

unfoldable pub owner_count : String → Table Run → ℕ
owner_count owner runs = count (λ id r. r.owner_id =ₛ owner && is_leased r.status) runs

abbrev pub is_pending_grant : GrantStatus → Bool
is_pending_grant GrantStatus.pending = true
is_pending_grant GrantStatus.applied = false

unfoldable pub has_pending_grant : String → Table Grant → Bool
has_pending_grant run_id grants =
    exists (λ id g. g.run_id =ₛ run_id && is_pending_grant g.status) grants

-- The WHERE clause of the candidates.
unfoldable pub is_candidate : Table Grant → String → Run → Bool
is_candidate grants id r =
    same_status r.status queued
    && not (r.adapter_type =ₛ "internal")
    && not (has_pending_grant id grants)

-- ORDER BY created_at, id
unfoldable pub insert_ordered : String × Run → Table Run → Table Run
insert_ordered row [] = row ∷ []
insert_ordered row (other ∷ rows) =
    if is_before other row then other ∷ insert_ordered row rows else row ∷ other ∷ rows

unfoldable pub order_rows : Table Run → Table Run
unfolding insert_ordered
order_rows [] = []
order_rows (row ∷ rows) = insert_ordered row (order_rows rows)

unfoldable pub candidates : Store → Table Run
candidates s = take 100 (order_rows (select_where (is_candidate s.grants) s.runs))

-- The row after `UPDATE runs SET status='running', ...`.
unfoldable pub claimed : String → ℕ → ℕ → Run → Run
claimed worker_id now expires r = record r {
  status = running;
  started_at = elim r.started_at [ none ↦ some now | some t ↦ some t ];
  updated_at = now;
  lease_owner = some worker_id;
  lease_expires_at = some expires;
  lease_epoch = suc r.lease_epoch;
  version = suc r.version;
}

abbrev claimed_counters : Option Run → ℕ × ℕ
claimed_counters none = (0, 0)
claimed_counters (some r) = (r.lease_epoch, r.version)

-- The UPDATE of a claim with its event.
unfoldable pub take_lease : String → String → ℕ → ℕ → Store → Store
unfolding claimed
take_lease run_id worker_id now expires s =
    let runs =
      update_where (λ id r. id =ₛ run_id && same_status r.status queued)
        (claimed worker_id now expires) s.runs in
    let (epoch, version) = claimed_counters (lookup run_id runs) in
    emit run_id "status_changed"
      (("from", str "queued")
        ∷ ("to", str "running")
        ∷ ("lease_epoch", num epoch)
        ∷ ("version", num version)
        ∷ [])
      now (record s { runs = runs })

-- What `claim_next` asks of a candidate.
unfoldable pub is_eligible : List String → ℕ → Store → String × Run → Bool
is_eligible excluded owner_limit s (id, r) =
    not (any (λ x. x =ₛ id) excluded)
    && ltb (owner_count r.owner_id s.runs) owner_limit
    && session_lane_available (id, r) (active_rows s.runs)

unfoldable pub claim_next : String → ℕ → ℕ → ℕ → List String → ℕ → Store → Store × Option String
unfolding is_eligible
claim_next worker_id global_limit owner_limit lease_time excluded now s =
    if leb global_limit (running_count s.runs)
    then (s, none)
    else elim (find? (is_eligible excluded owner_limit s) (candidates s)) [
      | none ↦ (s, none)
      | some (id, r) ↦ (take_lease id worker_id now (now + lease_time) s, some id)
    ]

unfoldable pub may_claim : String → ℕ → ℕ → Run → Store → Bool
may_claim run_id global_limit owner_limit r s =
    same_status r.status queued
    && session_lane_available (run_id, r) (active_rows s.runs)
    && not
        (leb global_limit (running_count s.runs) || leb owner_limit (owner_count r.owner_id s.runs))

unfoldable pub claim_specific : String → String → ℕ → ℕ → ℕ → ℕ → Store → Store × Option String
unfolding may_claim
claim_specific run_id worker_id global_limit owner_limit lease_time now s =
    elim (lookup run_id s.runs) [
      | none ↦ (s, none)
      | some r ↦
          if may_claim run_id global_limit owner_limit r s
          then (take_lease run_id worker_id now (now + lease_time) s, some run_id)
          else (s, none)
    ]

abbrev is_chosen : Option (List String) → String → Bool
is_chosen none id = true
is_chosen (some ids) id = any (λ x. x =ₛ id) ids

unfoldable pub heartbeat : String → ℕ → Option (List String) → ℕ → Store → Store
heartbeat worker_id lease_time run_ids now s = record s {
  runs =
      update_where
        (λ id r. is_some_text r.lease_owner worker_id && is_leased r.status && is_chosen run_ids id)
        (λ r. record r { lease_expires_at = some (now + lease_time) }) s.runs;
}
