-- ===== src/Runs/Evolution/Recoveries.antt =====
-- Cleanup, recovery, cancellation and creation let each Run evolve.
use ambient_agent.Prelude.{
  ℕ, String, ◌≡◌, refl, ◌⊎◌, inl, inr, true, false, ◌&&◌, Option, none, some, arith, ◌=ₛ◌,
  Bool-cases, Option-cases,
}
use ambient_agent.Prelude.Table.{Table, lookup, update}
use ambient_agent.Json.{Fields}
use ambient_agent.Runs.Status.{Status, is_leased}
use ambient_agent.Runs.Rows.{Run, Store}
use ambient_agent.Runs.Events.{insert_event}
use ambient_agent.Runs.Steps.{close_running_steps}
use ambient_agent.Runs.Transition.{cancel_pending}
use ambient_agent.Runs.Staging.{
  Fault, tombstone, still_pending, cleanup_row, settle_cleanup, report_failure, finish_cleanup,
  emit_change, discard_tombstone, already_reported, cleanup_failed, cleanup_done, is_cleanable,
  is_named, recover_pending_staging_cleanup,
}
use ambient_agent.Runs.Recovery.{
  orphan_target, orphaned, close_if_settled, release_row, recover_leases, recover_orphaned,
  is_orphan, is_leased_by, release_worker,
}
use ambient_agent.Prelude.Keys.{Distinct, lookup-update_ne}
use ambient_agent.Runs.Evolution.{
  for_selected-Grows, Evolves, Grows, Grows-refl, Grows-trans, Grows-update,
}
use ambient_agent.Runs.Evolution.RowChanges.{
  cleanup_failed-Evolves, cleanup_done-Evolves, orphaned-Evolves,
}

emit_change-runs :
    (id : String) (a b : Status) (effect : String) (v now : ℕ) (s : Store)
    → (emit_change id a b effect v now s).runs ≡ s.runs
unfolding emit_change insert_event
emit_change-runs id a b effect v now s = ground arith

finish_cleanup-runs :
    (id : String) (d : Fields) (r : Run) (now : ℕ) (s : Store)
    → (finish_cleanup id d r now s).runs ≡ update id (cleanup_done now) s.runs
unfolding finish_cleanup insert_event close_running_steps cancel_pending
finish_cleanup-runs id d r now s = emit_change-runs id r.status _ _ _ now _

report_failure-runs :
    (id : String) (f : Fault) (r : Run) (now : ℕ) (s : Store)
    → ((report_failure id f r now s).runs ≡ s.runs)
      ⊎ ((report_failure id f r now s).runs ≡ update id (cleanup_failed f now) s.runs)
unfolding report_failure insert_event
report_failure-runs id f r now s = elim (Bool-cases (already_reported f r)) [
  | inl old ↦ inl (rw old refl)
  | inr new ↦ inr (rw new (emit_change-runs id r.status _ _ _ now _))
]

-- The turn of the cleanup loop rewrites the row of its key, or nothing.
abbrev Rewrites : String → Table Run → Table Run → Type 0
Rewrites id t t' =
    (t' ≡ t)
    ⊎ ((f : Run → Run) × (t' ≡ update id f t)
        × ((r : Run) → is_cleanable r.status ≡ true → Evolves r (f r)))

settle_cleanup-Rewrites :
    (id : String) (d : Fields) (o : Option Fault) (r : Run) (now : ℕ) (s : Store)
    → Rewrites id s.runs (settle_cleanup id d o r now s).runs
unfolding settle_cleanup
settle_cleanup-Rewrites id d none r now s =
    inr (cleanup_done now, finish_cleanup-runs id d r now s, λ x p. cleanup_done-Evolves x now p)
settle_cleanup-Rewrites id d (some f) r now s = elim (report_failure-runs id f r now s) [
  | inl same ↦ inl same
  | inr new ↦ inr (cleanup_failed f now, new, λ x p. cleanup_failed-Evolves x now f p)
]

module _ (discard : Fields → Option Fault) (now : ℕ) (id : String) (row : Run) (s : Store) where
  cleanup_row-Rewrites : Rewrites id s.runs (cleanup_row discard now (id, row) s).runs
  unfolding cleanup_row
  cleanup_row-Rewrites = elim (Option-cases (tombstone row.state_json)) [
    | inl e ↦ rw (e, cleanup_row) (inl refl)
    | inr (d, e) ↦ elim (Option-cases (lookup id s.runs)) [
      | inl e' ↦ rw (e, cleanup_row) (rw (e', cleanup_row) (inl refl))
      | inr (r, e') ↦ elim (Bool-cases (still_pending d r)) [
        | inr moved ↦ rw (e, cleanup_row) (rw (e', cleanup_row) (rw moved (inl refl)))
        | inl same ↦
            rw (e, cleanup_row)
              (rw (e', cleanup_row)
                (rw same (settle_cleanup-Rewrites id d (discard_tombstone discard d) r now s)))
      ]
    ]
  ]

  cleanup_row-Grows :
      lookup id s.runs ≡ some row
      → is_cleanable row.status ≡ true
      → Grows s.runs (cleanup_row discard now (id, row) s).runs
  cleanup_row-Grows h p = elim cleanup_row-Rewrites [
    | inl same ↦ rw same (Grows-refl s.runs)
    | inr (f, w, step) ↦ rw w (Grows-update id f s.runs λ r h'. step r (ground (arith, h, h', p)))
  ]

  cleanup_row-others :
      (j : String)
      → (j =ₛ id) ≡ false
      → lookup j (cleanup_row discard now (id, row) s).runs ≡ lookup j s.runs
  cleanup_row-others j ne = elim cleanup_row-Rewrites [
    | inl same ↦ rw same refl
    | inr (f, w, step) ↦ rw w (lookup-update_ne id j f s.runs ne)
  ]

pub recover_pending_staging_cleanup-Grows :
    (discard : Fields → Option Fault) (run_id : Option String) (now : ℕ) (s : Store)
    → Distinct s.runs
    → Grows s.runs (recover_pending_staging_cleanup discard run_id now s).runs
unfolding recover_pending_staging_cleanup
recover_pending_staging_cleanup-Grows discard run_id now s d =
    for_selected-Grows (cleanup_row discard now)
      (λ id r. is_cleanable r.status && is_named run_id id)
      (λ id r s' h p. cleanup_row-Grows discard now id r s' h (ground arith))
      (λ id r s' j ne. cleanup_row-others discard now id r s' j ne) s d

module _ (event : String) (now : ℕ) (id : String) (row : Run) (s : Store) where
  pub release_row-runs :
      (release_row event now (id, row) s).runs
      ≡ update id (orphaned (orphan_target id row s) now) s.runs
  unfolding release_row close_if_settled insert_event close_running_steps cancel_pending
  release_row-runs = ground arith

  release_row-Grows :
      lookup id s.runs ≡ some row
      → is_leased row.status ≡ true
      → Grows s.runs (release_row event now (id, row) s).runs
  release_row-Grows h p = rw release_row-runs (
      Grows-update id _ s.runs
        λ r h'. orphaned-Evolves r now id s row (ground (arith, h, h')) (ground (arith, h, h', p)))

  release_row-others :
      (j : String)
      → (j =ₛ id) ≡ false
      → lookup j (release_row event now (id, row) s).runs ≡ lookup j s.runs
  release_row-others j ne = rw release_row-runs (lookup-update_ne id j _ s.runs ne)

recover_leases-Grows :
    (now : ℕ) (s : Store) → Distinct s.runs → Grows s.runs (recover_leases now s).0.runs
unfolding recover_leases
recover_leases-Grows now s d =
    for_selected-Grows (release_row "recovered" now) (λ id r. is_orphan now r)
      (λ id r s' h p. release_row-Grows "recovered" now id r s' h (ground arith))
      (λ id r s' j ne. release_row-others "recovered" now id r s' j ne) s d

pub recover_orphaned-Grows :
    (discard : Fields → Option Fault) (now : ℕ) (s : Store)
    → Distinct s.runs
    → Grows s.runs (recover_orphaned discard now s).0.runs
unfolding recover_orphaned
recover_orphaned-Grows discard now s d =
    let first = recover_pending_staging_cleanup-Grows discard none now s d in
    Grows-trans s.runs _ _ first (recover_leases-Grows now _ (first.keyed d))

pub release_worker-Grows :
    (worker : String) (now : ℕ) (s : Store)
    → Distinct s.runs
    → Grows s.runs (release_worker worker now s).0.runs
unfolding release_worker is_leased_by
release_worker-Grows worker now s d =
    for_selected-Grows (release_row "lease_released" now) (λ id r. is_leased_by worker r)
      (λ id r s' h p. release_row-Grows "lease_released" now id r s' h (ground arith))
      (λ id r s' j ne. release_row-others "lease_released" now id r s' j ne) s d
