-- ===== src/Runs/Evolution/Cancels.antt =====
-- Cancellation, reconciliation and creation let each Run evolve.
use ambient_agent.Prelude.{
  ℕ, String, ◌≡◌, ◌⊎◌, inl, inr, false, ◌&&◌, Option, none, some, [], ◌∷◌, ◌++◌, arith,
  if◌then◌else◌, is_some_text, is_some_text-eq, Bool-cases, Option-cases,
}
use ambient_agent.Prelude.Table.{lookup, update}
use ambient_agent.Prelude.Keys.{Distinct}
use ambient_agent.Json.{Fields}
use ambient_agent.Runs.Status.{
  cancel_requested, needs_attention, is_terminal, same_status, same_status-eq,
}
use ambient_agent.Runs.Rows.{Run, Store}
use ambient_agent.Runs.Errors.{ok}
use ambient_agent.Runs.Events.{insert_event}
use ambient_agent.Runs.Steps.{close_running_steps}
use ambient_agent.Runs.Transition.{cancel_pending}
use ambient_agent.Runs.Staging.{Fault, recover_pending_staging_cleanup}
use ambient_agent.Runs.Recovery.{finalize_cancel_requested, finalized, unacknowledged}
use ambient_agent.Runs.Cancel.{
  Promotion, Handling, no_staging, request_cancel, cancel_run, write_cancel, handling_of,
  cancel_row, emit_handling, is_cleanup,
}
use ambient_agent.Runs.Reconcile.{Resolution, reconcile_effect, reconciled}
use ambient_agent.Runs.Create.{NewRun, create_run, insert_run, new_run, used_key, find_key}
use ambient_agent.Runs.Evolution.{Grows, Grows-refl, Grows-trans, Grows-update, Grows-append}
use ambient_agent.Runs.Evolution.RowChanges.{
  finalized-Evolves, cancel_row-Evolves, reconciled-Evolves,
}
use ambient_agent.Runs.Evolution.Recoveries.{recover_pending_staging_cleanup-Grows}

-- What `finalize_cancel_requested` does when it does not raise.
pub finalize_cancel_requested-ok :
    (id worker : String) (now : ℕ) (s s' : Store)
    → finalize_cancel_requested id worker now s ≡ ok s'
    → (r : Run) × (lookup id s.runs ≡ some r)
      × ((s' ≡ s)
          ⊎ ((r.status ≡ cancel_requested)
              × (r.lease_owner ≡ some worker)
              × (s'.runs ≡ update id (finalized (unacknowledged id s) now) s.runs)))
unfolding finalize_cancel_requested insert_event cancel_pending close_running_steps
finalize_cancel_requested-ok id worker now s s' h = elim (Option-cases (lookup id s.runs)) [
  | inl e ↦ ground arith
  | inr (r, e) ↦
      elim (Bool-cases
        (same_status r.status cancel_requested && is_some_text r.lease_owner worker)) [
          | inr other ↦ (r, e, inl (ground arith))
          | inl due ↦ (
            r,
            e,
            inr (
              same_status-eq r.status cancel_requested (ground arith),
              is_some_text-eq r.lease_owner worker (ground arith),
              ground arith,
            ),
          )
        ]
]

pub finalize_cancel_requested-Grows :
    (id worker : String) (now : ℕ) (s s' : Store)
    → finalize_cancel_requested id worker now s ≡ ok s'
    → Grows s.runs s'.runs
finalize_cancel_requested-Grows id worker now s s' h =
    let (r, e, w) = finalize_cancel_requested-ok id worker now s s' h in
    elim w [
      | inl same ↦ rw same (Grows-refl s.runs)
      | inr (st, held, w') ↦ rw w' (
          Grows-update id _ s.runs
            λ r' e'. finalized-Evolves r' now id s (ground (arith, e, e', st)))
    ]

write_cancel-runs :
    (id : String) (h : Handling) (r : Run) (now : ℕ) (s : Store)
    → (write_cancel id h r now s).runs ≡ update id (cancel_row h now) s.runs
unfolding write_cancel emit_handling insert_event cancel_pending close_running_steps
write_cancel-runs id no_staging r now s = ground arith
write_cancel-runs id _ r now s = ground arith

-- A Run that `cancel_run` changes: neither ended, nor in review, nor asked before.
abbrev IsCancellable : Run → Type 0
IsCancellable r =
    (is_terminal r.status ≡ false)
    × (same_status r.status cancel_requested ≡ false)
    × (same_status r.status needs_attention ≡ false)

pub cancel_run-ok :
    (check : Fields → Promotion) (discard : Fields → Option Fault) (id : String) (now : ℕ)
    (s s' : Store)
    → cancel_run check discard id now s ≡ ok s'
    → (r : Run) × (lookup id s.runs ≡ some r)
      × ((s' ≡ s)
          ⊎ (IsCancellable r
              × (s' ≡ (
                  if is_cleanup (handling_of check r)
                  then recover_pending_staging_cleanup discard
                      (some id)
                      now
                      (write_cancel id (handling_of check r) r now s)
                  else write_cancel id (handling_of check r) r now s))))
unfolding cancel_run
cancel_run-ok check discard id now s s' h = elim (Option-cases (lookup id s.runs)) [
  | inl e ↦ ground arith
  | inr (r, e) ↦ elim (Bool-cases (is_terminal r.status)) [
    | inl over ↦ (r, e, inl (ground arith))
    | inr going ↦ elim (Bool-cases (same_status r.status cancel_requested)) [
      | inl asked ↦ (r, e, inl (ground arith))
      | inr new ↦ elim (Bool-cases (same_status r.status needs_attention)) [
        | inl review ↦ ground arith
        | inr free ↦ (r, e, inr ((going, new, free), ground arith))
      ]
    ]
  ]
]

cancel_run-Grows :
    (check : Fields → Promotion) (discard : Fields → Option Fault) (id : String) (now : ℕ)
    (s s' : Store)
    → Distinct s.runs
    → cancel_run check discard id now s ≡ ok s'
    → Grows s.runs s'.runs
cancel_run-Grows check discard id now s s' d h =
    let (r, e, w) = cancel_run-ok check discard id now s s' h in
    let grown : IsCancellable r
        → Grows s.runs (write_cancel id (handling_of check r) r now s).runs =
      λ free. rw (write_cancel-runs id (handling_of check r) r now s) (
        Grows-update id _ s.runs λ r' e'.
          cancel_row-Evolves r' now (handling_of check r) (ground (arith, e, e', free))
            (ground (arith, e, e', free)) (ground (arith, e, e', free))) in
    elim w [
      | inl same ↦ rw same (Grows-refl s.runs)
      | inr (free, w') ↦ elim (Bool-cases (is_cleanup (handling_of check r))) [
        | inl clean ↦ rw w' (
            rw clean (
              Grows-trans s.runs _ _ (grown free) (
                recover_pending_staging_cleanup-Grows discard (some id) now _
                  ((grown free).keyed d))))
        | inr plain ↦ rw w' (rw plain (grown free))
      ]
    ]

pub request_cancel-Grows :
    (check : Fields → Promotion) (discard : Fields → Option Fault) (id : String) (now : ℕ)
    (s s' : Store)
    → Distinct s.runs
    → request_cancel check discard id now s ≡ ok s'
    → Grows s.runs s'.runs
unfolding request_cancel
request_cancel-Grows check discard id now s s' d h =
    let first = recover_pending_staging_cleanup-Grows discard (some id) now s d in
    Grows-trans s.runs _ _ first (cancel_run-Grows check discard id now _ s' (first.keyed d) h)

pub reconcile_effect-ok :
    (id : String) (x : Resolution) (remark : Option String) (now : ℕ) (s s' : Store)
    → reconcile_effect id x remark now s ≡ ok s'
    → (r : Run) × (lookup id s.runs ≡ some r)
      × (r.status ≡ needs_attention)
      × (s'.runs ≡ update id (reconciled x remark now) s.runs)
unfolding reconcile_effect insert_event
reconcile_effect-ok id x remark now s s' h = elim (Option-cases (lookup id s.runs)) [
  | inl e ↦ ground arith
  | inr (r, e) ↦ (r, e, same_status-eq r.status needs_attention (ground arith), ground arith)
]

pub reconcile_effect-Grows :
    (id : String) (x : Resolution) (remark : Option String) (now : ℕ) (s s' : Store)
    → reconcile_effect id x remark now s ≡ ok s'
    → Grows s.runs s'.runs
reconcile_effect-Grows id x remark now s s' h =
    let (r, e, st, w) = reconcile_effect-ok id x remark now s s' h in
    rw w (
      Grows-update id _ s.runs
        λ r' e'. reconciled-Evolves r' now x remark (ground (arith, e, e', st)))

insert_run-ok :
    (n : NewRun) (id : String) (now : ℕ) (s s' : Store) (made : String)
    → insert_run n id now s ≡ ok (s', made)
    → (lookup id s.runs ≡ none) × (s'.runs ≡ s.runs ++ (id, new_run n now) ∷ [])
unfolding insert_run insert_event
insert_run-ok n id now s s' made h = elim (Option-cases (lookup id s.runs)) [
  | inl e ↦ (e, ground arith)
  | inr (r, e) ↦ ground arith
]

insert_run-Grows :
    (n : NewRun) (id : String) (now : ℕ) (s s' : Store) (made : String)
    → insert_run n id now s ≡ ok (s', made)
    → Grows s.runs s'.runs
insert_run-Grows n id now s s' made h =
    let (fresh, w) = insert_run-ok n id now s s' made h in rw w (Grows-append s.runs id _ fresh)

-- Either the INSERT ran, or nothing changed and the id is that of the Run with the key.
pub create_run-ok :
    (n : NewRun) (id : String) (now : ℕ) (s s' : Store) (made : String)
    → create_run n id now s ≡ ok (s', made)
    → (insert_run n id now s ≡ ok (s', made)) ⊎ (s' ≡ s)
unfolding create_run
create_run-ok n id now s s' made h = elim (Option-cases (used_key n)) [
  | inl e ↦ inl (ground arith)
  | inr (key, e) ↦ elim (Option-cases (find_key n key s.runs)) [
    | inl e' ↦ inl (ground arith)
    | inr ((old, r), e') ↦ inr (ground arith)
  ]
]

pub create_run-Grows :
    (n : NewRun) (id : String) (now : ℕ) (s s' : Store) (made : String)
    → create_run n id now s ≡ ok (s', made)
    → Grows s.runs s'.runs
create_run-Grows n id now s s' made h = elim (create_run-ok n id now s s' made h) [
  | inl inserted ↦ insert_run-Grows n id now s s' made inserted
  | inr same ↦ rw same (Grows-refl s.runs)
]
