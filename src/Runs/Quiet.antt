-- ===== src/Runs/Quiet.antt =====
-- Runs that no question waits for: `UPDATE run_interactions SET status='cancelled' ...`.
use ambient_agent.Prelude.{
  ℕ, String, ◌≡◌, inl, inr, true, false, some, arith, ◌=ₛ◌, Bool-cases, Option-cases,
}
use ambient_agent.Prelude.Table.{Table, lookup, update_where, lookup-update_where}
use ambient_agent.Runs.Rows.{Interaction, Store}
use ambient_agent.Runs.Transition.{is_pending, is_pending_of, cancel_interaction, cancel_pending}

-- No interaction of the Run is pending.
abbrev pub NonePending : String → Table Interaction → Type 0
NonePending run_id t =
    (id : String) (i : Interaction)
    → lookup id t ≡ some i
    → (i.run_id =ₛ run_id) ≡ true
    → is_pending i.status ≡ false

pub cancelled-NonePending :
    (run_id : String) (now : ℕ) (t : Table Interaction)
    → NonePending run_id (update_where (is_pending_of run_id) (cancel_interaction now) t)
unfolding is_pending_of cancel_interaction
cancelled-NonePending run_id now t id i h own =
    let e = lookup-update_where (is_pending_of run_id) (cancel_interaction now) id t in
    elim (Option-cases (lookup id t)) [
      | inl missing ↦ ground (arith, e, missing)
      | inr (old, found) ↦ elim (Bool-cases (is_pending_of run_id id old)) [
        | inl hit ↦ ground (arith, e, found, hit)
        | inr miss ↦ ground (arith, e, found, miss)
      ]
    ]

pub cancel_pending-NonePending :
    (run_id : String) (now : ℕ) (s : Store)
    → NonePending run_id (cancel_pending run_id now s).interactions
unfolding cancel_pending
cancel_pending-NonePending run_id now s = cancelled-NonePending run_id now s.interactions
