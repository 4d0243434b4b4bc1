-- ===== src/Runs/Grants.antt =====
-- The outbox of permission grants: `pending_permission_grants`, `complete_permission_grant`,
-- `defer_permission_grant` (backend/run_service.py).
use Prim.Native.Nat.{compare, Ordering}
use Prim.Native.String.{compare as compare_text}
use ambient_agent.Prelude.{
  ℕ, suc, ◌+◌, String, Bool, true, false, not, ◌&&◌, ◌||◌, Option, none, some, [], ◌∷◌, leb, ◌=ₛ◌,
  if◌then◌else◌,
}
use ambient_agent.Prelude.Table.{Table, lookup, update, update_where, select_where}
use ambient_agent.Json.{obj, str, object}
use ambient_agent.Runs.Status.{queued, same_status}
use ambient_agent.Runs.Rows.{Column, sql_null, stored, Grant, GrantStatus, Store}
use ambient_agent.Runs.Claim.{is_pending_grant}

abbrev is_due : Bool → ℕ → Grant → Bool
is_due due_only now g = not due_only || elim g.next_attempt_at [ none ↦ true | some t ↦ leb t now ]

-- ORDER BY created_at, interaction_id
unfoldable pub precedes : String × Grant → String × Grant → Bool
precedes (i, a) (j, b) = elim (compare a.created_at b.created_at) [
  | Ordering.lt ↦ true
  | Ordering.gt ↦ false
  | Ordering.eq ↦ elim (compare_text i j) [ Ordering.lt ↦ true | _ ↦ false ]
]

insert_grant : String × Grant → Table Grant → Table Grant
insert_grant row [] = row ∷ []
insert_grant row (other ∷ rows) =
    if precedes other row then other ∷ insert_grant row rows else row ∷ other ∷ rows

unfoldable pub order_grants : Table Grant → Table Grant
unfolding insert_grant
order_grants [] = []
order_grants (row ∷ rows) = insert_grant row (order_grants rows)

unfoldable pub pending_permission_grants : Bool → ℕ → Store → Table Grant
pending_permission_grants due_only now s =
    order_grants
      (select_where (λ id g. is_pending_grant g.status && is_due due_only now g) s.grants)

-- The pending grant of an interaction.
unfoldable pub pending_grant : String → Store → Option Grant
pending_grant id s = elim (lookup id s.grants) [
  | none ↦ none
  | some g ↦ if is_pending_grant g.status then some g else none
]

unfoldable pub note_run : String → String → Column → ℕ → Store → Store
note_run run_id summary error now s = record s {
  runs =
      update_where (λ id r. id =ₛ run_id && same_status r.status queued)
        (λ r. record r { summary = summary; error_json = error; updated_at = now }) s.runs;
}

unfoldable pub complete_permission_grant : String → ℕ → Store → Store
complete_permission_grant id now s = elim (pending_grant id s) [
  | none ↦ s
  | some g ↦ note_run g.run_id "Permission granted" sql_null now (record s {
    grants =
        update id (λ g. record g { status = GrantStatus.applied; completed_at = some now })
          s.grants;
  })
]

abbrev deferred_error : Column
deferred_error = stored (
    obj (
      object (
        ("code", str "permission_grant_pending")
        ∷ ("message", str "Permission could not be saved; retrying")
        ∷ [])))

unfoldable pub defer_permission_grant : String → ℕ → Store → Store
defer_permission_grant id now s = elim (pending_grant id s) [
  | none ↦ s
  | some g ↦ note_run g.run_id "Permission grant pending; retrying" deferred_error now (record s {
    grants =
        update id
          (λ g. record g { attempts = suc g.attempts; next_attempt_at = some (now + 5000000) })
          s.grants;
  })
]
