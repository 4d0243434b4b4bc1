-- ===== src/Runs/Cancellation.antt =====
-- What a cancel request and a reconciliation decide (`request_cancel`, `reconcile_effect`).
use ambient_agent.Prelude.{
  ℕ, suc, String, ◌≡◌, ◌≢◌, refl, ◌∙◌, inl, inr, Bool, true, false, ◌&&◌, Option, none, some, List,
  [], ◌∷◌, arith, eq_iff, ◌=ₛ◌, Bool-cases,
}
use ambient_agent.Prelude.Table.{Table, lookup, select_where, update, update_where}
use ambient_agent.Prelude.Keys.{Distinct, lookup-update_same}
use ambient_agent.Json.{Fields}
use ambient_agent.Runs.Status.{
  Status, running, cancel_requested, needs_attention, failed, cancelled, is_terminal,
}
use ambient_agent.Runs.Rows.{Run, Store, for_rows}
use ambient_agent.Runs.Errors.{ok, err, value_error, not_reconcilable}
use ambient_agent.Runs.Events.{insert_event}
use ambient_agent.Runs.Steps.{close_running_steps}
use ambient_agent.Runs.Transition.{is_pending_of, cancel_interaction, cancel_pending}
use ambient_agent.Runs.Staging.{Fault, is_cleanable, recover_pending_staging_cleanup}
use ambient_agent.Runs.Cancel.{
  Handling, Promotion, cancel_row, cancel_run, cancel_target_of, emit_handling, handling_of,
  has_unresolved_effect, is_cleanup, request_cancel, write_cancel,
}
use ambient_agent.Runs.Reconcile.{Resolution, reconcile_effect, reconciled}
use ambient_agent.Runs.Quiet.{NonePending, cancelled-NonePending}
use ambient_agent.Runs.Lifetime.{has_stopped, runs_outlive}
use ambient_agent.Runs.Trace.{Call, perform_all}
use ambient_agent.Runs.Evolution.Cancels.{reconcile_effect-ok, reconcile_effect-Grows}

select-absent {ℓ} :
    {V : Type ℓ} (p : V → Bool) (k : String) (t : Table V)
    → lookup k t ≡ none
    → select_where (λ j v. p v && j =ₛ k) t ≡ []
unfolding select_where lookup
select-absent p k [] h = refl
select-absent p k ((j, v) ∷ t) h = ground (arith, select-absent p k t)

-- One named row that does not pass the test: nothing is selected.
select-refused {ℓ} :
    {V : Type ℓ} (p : V → Bool) (k : String) (t : Table V) (v : V)
    → Distinct t
    → lookup k t ≡ some v
    → p v ≡ false
    → select_where (λ j w. p w && j =ₛ k) t ≡ []
unfolding select_where lookup
select-refused p k [] v d h off = refl
select-refused p k ((j, w) ∷ t) v d h off = elim (Bool-cases (j =ₛ k)) [
  | inl same ↦
      let key = (eq_iff j k).0 same in
      let gone : lookup k t ≡ none = rw (← key) d.0 in
      ground (arith, select-absent p k t gone, h, off, same)
  | inr other ↦
      let rest = select-refused p k t v d.1 (rw other at h) off in ground (arith, rest, other)
]

stopped-cleanable : (a : Status) → has_stopped a ≡ false → is_cleanable a ≡ false
unfolding is_cleanable
stopped-cleanable a h = ground arith

-- The cleanup of a Run that has not stopped does nothing.
cleanup-idle :
    (discard : Fields → Option Fault) (id : String) (now : ℕ) (s : Store) (r : Run)
    → Distinct s.runs
    → lookup id s.runs ≡ some r
    → has_stopped r.status ≡ false
    → recover_pending_staging_cleanup discard (some id) now s ≡ s
unfolding recover_pending_staging_cleanup for_rows
cleanup-idle discard id now s r d found h =
    rw
      (select-refused (λ x. is_cleanable x.status) id s.runs r d found
        (stopped-cleanable r.status h))
      refl

module _ (id : String) (h : Handling) (r : Run) (now : ℕ) (s : Store) where
  emit_handling-runs : (s' : Store) → (emit_handling id h r now s').runs ≡ s'.runs
  unfolding emit_handling insert_event
  emit_handling-runs s' = ground arith

  emit_handling-interactions :
      (s' : Store) → (emit_handling id h r now s').interactions ≡ s'.interactions
  unfolding emit_handling insert_event
  emit_handling-interactions s' = ground arith

  write_cancel-runs : (write_cancel id h r now s).runs ≡ update id (cancel_row h now) s.runs
  unfolding write_cancel insert_event cancel_pending close_running_steps
  write_cancel-runs = emit_handling-runs _ ∙ ground arith

  write_cancel-interactions :
      (write_cancel id h r now s).interactions
      ≡ update_where (is_pending_of id) (cancel_interaction now) s.interactions
  unfolding write_cancel insert_event cancel_pending close_running_steps
  write_cancel-interactions = emit_handling-interactions _ ∙ ground arith

cancel_run-live :
    (check : Fields → Promotion) (discard : Fields → Option Fault) (id : String) (now : ℕ)
    (s : Store) (r : Run)
    → lookup id s.runs ≡ some r
    → has_stopped r.status ≡ false
    → is_cleanup (handling_of check r) ≡ false
    → cancel_run check discard id now s ≡ ok (write_cancel id (handling_of check r) r now s)
unfolding cancel_run is_terminal
cancel_run-live check discard id now s r e live' plain = ground (arith, e, live', plain)

-- The Run after a cancel request.
pub record CancelDecided (id : String) (h : Handling) (now : ℕ) (r : Run) (s' : Store)
    : Type 0 where
  pub after : Run
  pub after_found : lookup id s'.runs ≡ some after
  pub version_counted : after.version ≡ suc r.version
  pub questions_closed : NonePending id s'.interactions
  pub worker_told :
      r.status ≡ running
      → (after.status ≡ cancel_requested)
        × (after.lease_owner ≡ r.lease_owner)
        × (after.lease_epoch ≡ r.lease_epoch)
  pub rest_cancelled :
      r.status ≢ running
      → has_unresolved_effect h r ≡ false
      → (after.status ≡ cancelled) × (after.lease_owner ≡ none) × (after.finished_at ≡ some now)
  pub effect_reviewed :
      r.status ≢ running → has_unresolved_effect h r ≡ true → after.status ≡ needs_attention

cancel_row-decides :
    (id : String) (h : Handling) (now : ℕ) (r : Run) (s' : Store)
    → is_cleanup h ≡ false
    → lookup id s'.runs ≡ some (cancel_row h now r)
    → NonePending id s'.interactions
    → CancelDecided id h now r s'
unfolding cancel_row cancel_target_of
cancel_row-decides id h now r s' plain row quiet = record {
  after = cancel_row h now r;
  after_found = row;
  version_counted = refl;
  questions_closed = quiet;
  worker_told = λ st. ground (arith, st);
  rest_cancelled = λ st none'. ground (arith, st, none', plain);
  effect_reviewed = λ st doubt. ground (arith, st, doubt, plain);
}

-- In a store of distinct keys, `request_cancel` succeeds on a Run that is queued, running or waiting
-- and whose staged App needs no cleanup. No question of the Run is pending afterwards and its version
-- is one more. A running Run keeps its lease and is asked to cancel; another one is cancelled at once if
-- no effect is in doubt, and needs attention, not cancelled, if one is.
pub request_cancel_decides :
    (check : Fields → Promotion) (discard : Fields → Option Fault) (id : String) (now : ℕ)
    (s : Store) (r : Run)
    → Distinct s.runs
    → lookup id s.runs ≡ some r
    → has_stopped r.status ≡ false
    → is_cleanup (handling_of check r) ≡ false
    → (s' : Store) × (request_cancel check discard id now s ≡ ok s')
      × CancelDecided id (handling_of check r) now r s'
unfolding request_cancel
request_cancel_decides check discard id now s r d found going plain =
    let h = handling_of check r in
    (
      write_cancel id h r now s,
      rw (cleanup-idle discard id now s r d found going)
          (cancel_run-live check discard id now s r found going plain),
      cancel_row-decides id h now r (write_cancel id h r now s) plain
          (rw (write_cancel-runs id h r now s)
            (lookup-update_same id (cancel_row h now) s.runs r found))
          (rw (write_cancel-interactions id h r now s)
            (cancelled-NonePending id now s.interactions)),
    )

reconciled-failed :
    (x : Resolution) (remark : Option String) (now : ℕ) (r : Run)
    → (reconciled x remark now r).status ≡ failed
unfolding reconciled
reconciled-failed x remark now r = refl

failed-refused :
    (id : String) (x : Resolution) (remark : Option String) (now : ℕ) (s : Store) (r : Run)
    → lookup id s.runs ≡ some r
    → r.status ≡ failed
    → reconcile_effect id x remark now s ≡ err (value_error not_reconcilable)
unfolding reconcile_effect
failed-refused id x remark now s r e st = ground (arith, e, st)

-- In a store of distinct keys, if `reconcile_effect` succeeds, the Run needed attention; after any
-- sequence of later calls it is failed, and a second reconciliation is refused.
pub reconcile_effect_final :
    (id : String) (x : Resolution) (remark : Option String) (now : ℕ) (s s' : Store)
    (cs : List Call)
    → Distinct s.runs
    → reconcile_effect id x remark now s ≡ ok s'
    → (r r' : Run) × (lookup id s.runs ≡ some r)
      × (r.status ≡ needs_attention)
      × (lookup id (perform_all cs s').runs ≡ some r')
      × (r'.status ≡ failed)
      × ((y : Resolution) (again : Option String) (later : ℕ)
          → reconcile_effect id y again later (perform_all cs s')
            ≡ err (value_error not_reconcilable))
reconcile_effect_final id x remark now s s' cs d h =
    let (r, e, st, w) = reconcile_effect-ok id x remark now s s' h in
    let row : lookup id s'.runs ≡ some (reconciled x remark now r) =
      rw w (lookup-update_same id (reconciled x remark now) s.runs r e) in
    let o =
      runs_outlive id (reconciled x remark now r) s' cs
        ((reconcile_effect-Grows id x remark now s s' h).keyed d) row in
    let over = o.failure_kept (reconciled-failed x remark now r) in
    (
      r,
      o.later,
      e,
      st,
      o.later_found,
      over,
      λ y again later.
          failed-refused id y again later (perform_all cs s') o.later o.later_found over,
    )
