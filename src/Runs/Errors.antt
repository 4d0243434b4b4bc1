-- ===== src/Runs/Errors.antt =====
-- The exceptions that the Run store raises (backend/run_service.py). A transaction that raises is
-- rolled back, so an operation returns either the new store with its result, or the exception.
use ambient_agent.Prelude.{Bool, true, false, ◌≡◌, refl, ◌⊎◌, inl, inr}

-- `ValueError`, by the message that the source gives it.
pub data Reason : Type 0 where
  invalid_transition already_resolved not_waiting invalid_target grant_outside_queue : Reason
  missing_definition foreign_interaction interaction_in_use inactive_run step_not_started : Reason
  needs_reconciliation not_reconcilable cleanup_incomplete : Reason
  key_reused workflow_mismatch unread_error staged_not_discardable correlation_not_object : Reason

pub data Error : Type 0 where
  key_error stale_lease version_conflict integrity_error active_session attribute_error : Error
  value_error : Reason → Error

-- What an operation returns: its result, or the exception that ended the transaction.
pub data Result {ℓ} (A : Type ℓ) : Type ℓ where
  err : Error → Result A
  ok : A → Result A

pub Result-cases {ℓ} :
    {A : Type ℓ} (m : Result A) → ((a : A) × (m ≡ ok a)) ⊎ ((e : Error) × (m ≡ err e))
Result-cases (err raised) = inr (raised, refl)
Result-cases (ok value) = inl (value, refl)

-- `if not condition: raise raised`
abbrev pub require : Bool → Error → Result (Unit {0})
require false raised = err raised
require true raised = ok tt

infixl 5 ◌>>=◌
abbrev pub ◌>>=◌ {κ ℓ} : {B : Type κ} {A : Type ℓ} → Result B → (B → Result A) → Result A
err raised >>= next = err raised
ok value >>= next = next value

infixl 5 ◌>>◌
abbrev pub ◌>>◌ {κ} : {B : Type κ} → Result (Unit {0}) → Result B → Result B
err raised >> next = err raised
ok done >> next = next
