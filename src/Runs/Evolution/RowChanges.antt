-- ===== src/Runs/Evolution/RowChanges.antt =====
-- Each row that an operation writes evolves from the row that it found.
use ambient_agent.Prelude.{
  ℕ, ◌≤◌, String, ◌≡◌, refl, ◌⊎◌, inl, inr, Bool, true, false, Option, none, List, [], ◌∷◌, arith,
}
use ambient_agent.Runs.Status.{
  Status, queued, running, waiting_user, cancel_requested, needs_attention, is_terminal, is_leased,
  same_status, transitions,
}
use ambient_agent.Runs.Rows.{Run, Store}
use ambient_agent.Runs.Claim.{claimed}
use ambient_agent.Runs.Transition.{Assignment, assign, assign_all, transitioned, allowed}
use ambient_agent.Runs.Outcome.{Verdict, succeed, target_of}
use ambient_agent.Runs.Commit.{Attempt, accepts_commit, committed, outcome_columns}
use ambient_agent.Runs.Interactions.{parked, Answer, resumed}
use ambient_agent.Runs.Staging.{Fault, cleanup_failed, cleanup_done, is_cleanable}
use ambient_agent.Runs.Recovery.{finalized, orphaned, orphan_target, unacknowledged}
use ambient_agent.Runs.Cancel.{Handling, cancel_row}
use ambient_agent.Runs.Reconcile.{reconciled, Resolution}
use ambient_agent.Runs.Evolution.{Evolves, reaches, reaches_refl}

-- A change that opens no lease: the owner is cleared or stays, in the same epoch.
Evolves-without_lease :
    (r r' : Run)
    → r.version ≤ r'.version
    → r'.lease_epoch ≡ r.lease_epoch
    → (r'.lease_owner ≡ none) ⊎ (r'.lease_owner ≡ r.lease_owner)
    → reaches r.status r'.status ≡ true
    → r'.created_at ≡ r.created_at
    → Evolves r r'
Evolves-without_lease r r' v e o st c = record {
  version_grows = v;
  epoch_grows = omega arith;
  lease_kept = λ w h. elim o [ inl gone ↦ ground arith | inr same ↦ inl (ground arith, e) ];
  status_reached = st;
  created_kept = c;
}

module _ (r : Run) (now : ℕ) where
  pub claimed-Evolves :
      (worker : String) (expires : ℕ) → r.status ≡ queued → Evolves r (claimed worker now expires r)
  unfolding claimed
  claimed-Evolves worker expires h = record {
    version_grows = omega arith;
    epoch_grows = omega arith;
    lease_kept = λ w _. inr (omega arith);
    status_reached = rw h refl;
    created_kept = refl;
  }

  pub parked-Evolves : (summary : String) → r.status ≡ running → Evolves r (parked summary now r)
  unfolding parked
  parked-Evolves summary h =
      Evolves-without_lease r _ (omega arith) refl (inl refl) (rw h refl) refl

  pub cleanup_failed-Evolves :
      (f : Fault) → is_cleanable r.status ≡ true → Evolves r (cleanup_failed f now r)
  unfolding cleanup_failed is_cleanable
  cleanup_failed-Evolves f h =
      Evolves-without_lease r _ (omega arith) refl (inl refl) (ground arith) refl

  pub cleanup_done-Evolves : is_cleanable r.status ≡ true → Evolves r (cleanup_done now r)
  unfolding cleanup_done is_cleanable
  cleanup_done-Evolves h =
      Evolves-without_lease r _ (omega arith) refl (inl refl) (ground arith) refl

  pub finalized-Evolves :
      (id : String) (s : Store)
      → r.status ≡ cancel_requested
      → Evolves r (finalized (unacknowledged id s) now r)
  unfolding finalized unacknowledged
  finalized-Evolves id s h =
      Evolves-without_lease r _ (omega arith) refl (inl refl) (ground arith) refl

  pub orphaned-Evolves :
      (id : String) (s : Store) (row : Run)
      → row.status ≡ r.status
      → is_leased r.status ≡ true
      → Evolves r (orphaned (orphan_target id row s) now r)
  unfolding orphaned orphan_target is_leased
  orphaned-Evolves id s row e h =
      Evolves-without_lease r _ (omega arith) refl (inl refl) (ground arith) refl

  pub cancel_row-Evolves :
      (h : Handling)
      → is_terminal r.status ≡ false
      → same_status r.status cancel_requested ≡ false
      → same_status r.status needs_attention ≡ false
      → Evolves r (cancel_row h now r)
  unfolding cancel_row is_terminal
  cancel_row-Evolves h t c n =
      Evolves-without_lease r _ (omega arith) refl (ground arith) (ground arith) refl

  pub reconciled-Evolves :
      (x : Resolution) (remark : Option String)
      → r.status ≡ needs_attention
      → Evolves r (reconciled x remark now r)
  unfolding reconciled
  reconciled-Evolves x remark h =
      Evolves-without_lease r _ (omega arith) refl (inl refl) (rw h refl) refl

  pub resumed-Evolves :
      (a : Answer) (target : Status) (granting : Bool)
      → r.status ≡ waiting_user
      → Evolves r (resumed a target granting now r)
  unfolding resumed
  resumed-Evolves a target granting h =
      Evolves-without_lease r _ (omega arith) refl (ground arith) (rw h refl) refl

-- The columns that `assign` does not touch.
abbrev SameIdentity : Run → Run → Type 0
SameIdentity r r' = (r'.lease_epoch ≡ r.lease_epoch) × (r'.created_at ≡ r.created_at)

assign-SameIdentity : (a : Assignment) (r : Run) → SameIdentity r (assign a r)
unfolding assign
assign-SameIdentity (Assignment.set_summary t) r = (refl, refl)
assign-SameIdentity _ r = (refl, refl)

assign_all-SameIdentity : (as' : List Assignment) (r : Run) → SameIdentity r (assign_all as' r)
unfolding assign_all
assign_all-SameIdentity [] r = (refl, refl)
assign_all-SameIdentity (a ∷ as') r =
    let (e, c) = assign_all-SameIdentity as' (assign a r) in
    let (e', c') = assign-SameIdentity a r in (cc, cc)

allowed-reaches : (a b : Status) → allowed a b ≡ true → reaches a b ≡ true
unfolding allowed transitions
allowed-reaches queued b h = refl
allowed-reaches _ b h = ground arith

pub transitioned-Evolves :
    (r : Run) (now : ℕ) (status : Status) (updates : List Assignment)
    → allowed r.status status ≡ true
    → Evolves r (transitioned status updates now r)
unfolding transitioned
transitioned-Evolves r now status updates h =
    let (e, c) = assign_all-SameIdentity updates r in
    Evolves-without_lease r _ (omega arith) e (ground arith) (allowed-reaches r.status status h) c

outcome_columns-SameIdentity :
    (v : Verdict) (now : ℕ) (r : Run) → SameIdentity r (outcome_columns v now r)
unfolding outcome_columns
outcome_columns-SameIdentity (succeed result artifacts) now r = (refl, refl)
outcome_columns-SameIdentity _ now r = (refl, refl)

commit-reaches :
    (r : Run) (a : Attempt)
    → accepts_commit r a.lease a.outcome.verdict ≡ true
    → reaches r.status (target_of a.outcome.verdict) ≡ true
unfolding accepts_commit target_of
commit-reaches r a h = ground arith

pub committed-Evolves :
    (r : Run) (a : Attempt)
    → accepts_commit r a.lease a.outcome.verdict ≡ true
    → Evolves r (committed a r)
unfolding committed
committed-Evolves r a h =
    let (e, c) = outcome_columns-SameIdentity a.outcome.verdict a.now r in
    Evolves-without_lease r _ (omega arith) e (inl refl) (commit-reaches r a h) c

-- An UPDATE of other columns only.
pub same_lease-Evolves :
    (r r' : Run)
    → r'.version ≡ r.version
    → r'.lease_epoch ≡ r.lease_epoch
    → r'.lease_owner ≡ r.lease_owner
    → r'.status ≡ r.status
    → r'.created_at ≡ r.created_at
    → Evolves r r'
same_lease-Evolves r r' v e o st c =
    Evolves-without_lease r r' (omega arith) e (inr o) (ground (arith, reaches_refl r.status)) c
