-- ===== src/Runs/Release.antt =====
-- The loops of `release_worker` and `recover_orphaned` as one change of each row.
use ambient_agent.Prelude.{
  ℕ, ◌+◌, ◌≤◌, String, ◌≡◌, refl, ap, ◌∙◌, inl, inr, Bool, true, false, ◌&&◌, none, some, List, [],
  ◌∷◌, arith, eq_iff, any, ◌=ₛ◌, is_some_text, is_some_text-eq, if◌then◌else◌, Bool-cases,
  Option-cases,
}
use mathlib.Core.Option
use ambient_agent.Prelude.Table.{
  Table, lookup, update, select_where, lookup-select_where, lookup-update_where,
}
use ambient_agent.Prelude.Keys.{
  Distinct, update_where-Distinct, lookup-update_ne, lookup-update_same, lookup-select_where-none,
  lookup-select_where_miss, select_where-Distinct,
}
use ambient_agent.Runs.Status.{is_leased}
use ambient_agent.Runs.Rows.{Run, Step, StepStatus, Store, for_rows}
use ambient_agent.Runs.Events.{insert_event}
use ambient_agent.Runs.Claim.{heartbeat}
use ambient_agent.Runs.Steps.{is_running_step, close_step, close_running_steps, update_steps}
use ambient_agent.Runs.Transition.{cancel_pending}
use ambient_agent.Runs.Recovery.{
  has_running_step, unacknowledged, orphan_target, orphaned, close_if_settled, release_row,
  is_orphan, recover_leases, is_leased_by, release_worker,
}
use ambient_agent.Runs.Evolution.Recoveries.{release_row-runs}

close_steps-others :
    (id j : String) (status : StepStatus) (now : ℕ) (xs : List Step)
    → (id =ₛ j) ≡ false
    → has_running_step j (update_steps (is_running_step id) (close_step status now) xs)
      ≡ has_running_step j xs
unfolding has_running_step is_running_step update_steps close_step any
close_steps-others id j status now [] ne = refl
close_steps-others id j status now (x ∷ xs) ne =
    let rest = close_steps-others id j status now xs ne in
    elim (Bool-cases (is_running_step id x)) [
      | inl mine ↦
          let own = (eq_iff x.run_id id).0 (ground arith) in ground (arith, own, ne, rest, mine)
      | inr other ↦ ground (arith, other, rest)
    ]

module _ (event : String) (now : ℕ) where
  release_row-steps :
      (id : String) (r : Run) (s : Store)
      → (release_row event now (id, r) s).steps
        ≡ update_steps (is_running_step id) (close_step StepStatus.interrupted now) s.steps
  unfolding release_row close_if_settled insert_event close_running_steps cancel_pending
  release_row-steps id r s = ground arith

  orphan_target-kept :
      (id j : String) (r x : Run) (s : Store)
      → (id =ₛ j) ≡ false
      → orphan_target j x (release_row event now (id, r) s) ≡ orphan_target j x s
  unfolding orphan_target unacknowledged
  orphan_target-kept id j r x s ne =
      rw (release_row-steps id r s, close_steps-others id j StepStatus.interrupted now s.steps ne)
        refl

  -- A row that the loop did not select stays.
  loop-others :
      (rows : Table Run) (s : Store) (j : String)
      → lookup j rows ≡ none
      → lookup j (for_rows (release_row event now) rows s).runs ≡ lookup j s.runs
  unfolding for_rows lookup
  loop-others [] s j h = refl
  loop-others ((id, r) ∷ rows) s j h = elim (Bool-cases (id =ₛ j)) [
    | inl same ↦ ground arith
    | inr other ↦
        loop-others rows (release_row event now (id, r) s) j (rw other at h)
        ∙ ap (lookup j) (release_row-runs event now id r s)
        ∙ lookup-update_ne id j _ s.runs (ground (arith, eq_iff j id, eq_iff id j))
  ]

  -- A row that it selected is released as the store was at the start of the loop.
  loop-selected :
      (rows : Table Run) (s : Store) (j : String) (x : Run)
      → Distinct rows
      → lookup j rows ≡ some x
      → lookup j s.runs ≡ some x
      → lookup j (for_rows (release_row event now) rows s).runs
        ≡ some (orphaned (orphan_target j x s) now x)
  unfolding for_rows lookup
  loop-selected [] s j x d h found = ground arith
  loop-selected ((id, r) ∷ rows) s j x d h found = elim (Bool-cases (id =ₛ j)) [
    | inl same ↦
        let key = (eq_iff id j).0 same in
        let row : r ≡ x = ground (arith, h, same) in
        let gone : lookup j rows ≡ none = rw (← key) d.0 in
        let target : lookup j (update id (orphaned (orphan_target id r s) now) s.runs)
            ≡ some (orphaned (orphan_target j x s) now x) =
          rw (key, row)
            (lookup-update_same j (orphaned (orphan_target j x s) now) s.runs x found) in
        loop-others rows (release_row event now (id, r) s) j gone
        ∙ ap (lookup j) (release_row-runs event now id r s)
        ∙ target
    | inr other ↦
        let still : lookup j (release_row event now (id, r) s).runs ≡ some x =
          ap (lookup j) (release_row-runs event now id r s)
          ∙ lookup-update_ne id j _ s.runs (ground (arith, eq_iff j id, eq_iff id j))
          ∙ found in
        loop-selected rows (release_row event now (id, r) s) j x d.1 (rw other at h) still
        ∙ ap (λ t. some (orphaned t now x)) (orphan_target-kept id j r x s other)
  ]

  -- The whole loop, seen from one key.
  loop-pointwise :
      (p : String → Run → Bool) (s : Store) (j : String)
      → Distinct s.runs
      → lookup j (for_rows (release_row event now) (select_where p s.runs) s).runs
        ≡ Option.map
            (λ r. if p j r then orphaned (orphan_target j r s) now r else r)
            (lookup j s.runs)
  loop-pointwise p s j d = elim (Option-cases (lookup j s.runs)) [
    | inl e ↦
        loop-others (select_where p s.runs) s j (lookup-select_where-none p j s.runs e) ∙ rw e refl
    | inr (r, e) ↦ elim (Bool-cases (p j r)) [
      | inl hit ↦
          loop-selected (select_where p s.runs) s j r (select_where-Distinct p s.runs d)
            (lookup-select_where p j s.runs r e hit) e
          ∙ rw e (rw hit refl)
      | inr miss ↦
          loop-others (select_where p s.runs) s j (lookup-select_where_miss p j s.runs r d e miss)
          ∙ rw e (rw miss refl)
    ]
  ]

-- In a store of distinct keys, `release_worker` gives up exactly the Runs that the worker holds
-- while they run or were asked to cancel: each goes to the target of its recovery policy as the store
-- was before the call, without a lease; every other row is as it was.
pub release_worker_pointwise :
    (worker : String) (now : ℕ) (s : Store) (id : String)
    → Distinct s.runs
    → lookup id (release_worker worker now s).0.runs
      ≡ Option.map
          (λ r. if is_leased_by worker r then orphaned (orphan_target id r s) now r else r)
          (lookup id s.runs)
unfolding release_worker
release_worker_pointwise worker now s id d =
    loop-pointwise "lease_released" now (λ i r. is_leased_by worker r) s id d

-- In a store of distinct keys, the recovery of leases releases exactly the Runs that run or were
-- asked to cancel and have no owner or an expired lease, each to the target of its recovery policy
-- as the store was before the call; every other row is as it was.
pub recover_leases_pointwise :
    (now : ℕ) (s : Store) (id : String)
    → Distinct s.runs
    → lookup id (recover_leases now s).0.runs
      ≡ Option.map
          (λ r. if is_orphan now r then orphaned (orphan_target id r s) now r else r)
          (lookup id s.runs)
unfolding recover_leases
recover_leases_pointwise now s id d = loop-pointwise "recovered" now (λ i r. is_orphan now r) s id d

orphaned-settled :
    (j : String) (r : Run) (s : Store) (now : ℕ)
    → is_leased (orphaned (orphan_target j r s) now r).status ≡ false
unfolding orphaned orphan_target unacknowledged is_leased
orphaned-settled j r s now = ground arith

-- In a store of distinct keys, after the recovery of leases no Run is an orphan at that time.
pub recover_leases_complete :
    (now : ℕ) (s : Store) (id : String) (r : Run)
    → Distinct s.runs
    → lookup id (recover_leases now s).0.runs ≡ some r
    → is_orphan now r ≡ false
unfolding is_orphan
recover_leases_complete now s id r d h =
    let e = recover_leases_pointwise now s id d in
    elim (Option-cases (lookup id s.runs)) [
      | inl missing ↦ ground (arith, e, missing)
      | inr (x, found) ↦ elim (Bool-cases (is_orphan now x)) [
        | inl lost ↦ ground (arith, e, found, lost, orphaned-settled id x s now)
        | inr held ↦ ground (arith, e, found, held)
      ]
    ]

-- The row after a heartbeat, and that it is no orphan while the lease lasts.
abbrev renewed : ℕ → Run → Run
renewed expires r = record r { lease_expires_at = some expires }

renewed-found :
    (worker : String) (lease now : ℕ) (s : Store) (id : String) (r : Run)
    → lookup id s.runs ≡ some r
    → is_leased_by worker r ≡ true
    → lookup id (heartbeat worker lease none now s).runs ≡ some (renewed (now + lease) r)
unfolding heartbeat is_leased_by
renewed-found worker lease now s id r found held =
    let e =
      lookup-update_where (λ i x. is_some_text x.lease_owner worker && is_leased x.status && true)
        (renewed (now + lease)) id s.runs in
    ground (arith, e, found, held)

renewed-held :
    (worker : String) (r : Run) (expires later : ℕ)
    → is_leased_by worker r ≡ true
    → later ≤ expires
    → is_orphan later (renewed expires r) ≡ false
unfolding is_orphan is_leased_by
renewed-held worker r expires later held soon =
    let owned = is_some_text-eq r.lease_owner worker (ground (arith, held)) in
    ground (arith, owned, soon)

heartbeat-Distinct :
    (worker : String) (lease now : ℕ) (s : Store)
    → Distinct s.runs
    → Distinct (heartbeat worker lease none now s).runs
unfolding heartbeat
heartbeat-Distinct worker lease now s d = update_where-Distinct _ _ s.runs d

-- In a store of distinct keys, a Run at work whose worker sends a heartbeat for all its Runs is left
-- alone by a recovery of leases that comes no later than the end of the renewed lease.
pub heartbeat_protects :
    (worker : String) (lease now later : ℕ) (s : Store) (id : String) (r : Run)
    → Distinct s.runs
    → lookup id s.runs ≡ some r
    → is_leased_by worker r ≡ true
    → later ≤ now + lease
    → lookup id (recover_leases later (heartbeat worker lease none now s)).0.runs
      ≡ some (record r { lease_expires_at = some (now + lease) })
heartbeat_protects worker lease now later s id r d found held soon =
    let e = renewed-found worker lease now s id r found held in
    recover_leases_pointwise later (heartbeat worker lease none now s) id
      (heartbeat-Distinct worker lease now s d)
    ∙ rw (e, renewed-held worker r (now + lease) later held soon) refl
