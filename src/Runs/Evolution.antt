-- ===== src/Runs/Evolution.antt =====
-- How one Run may change from a store to a later one, whatever the operations between them.
pub mod RowChanges
pub mod Operations
pub mod Commits
pub mod Recoveries
pub mod Cancels
use ambient_agent.Prelude.{
  ◌≤◌, ◌<◌, List, [], ◌∷◌, ◌++◌, String, ◌≡◌, refl, ◌⊎◌, inl, inr, Bool, true, false, none, some,
  arith, eq_iff, ◌=ₛ◌, Bool-cases,
}
use ambient_agent.Prelude.Table.{
  Table, lookup, update, update_where, select_where, lookup-update_where,
}
use ambient_agent.Prelude.Keys.{
  Distinct, AllFound, AllFound-kept, update_where-Distinct, append-Distinct, lookup-append_some,
  select_where-Distinct, select_where-AllFound,
}
use ambient_agent.Runs.Status.{
  Status, queued, running, waiting_user, cancel_requested, needs_attention, succeeded, failed,
  cancelled,
}
use ambient_agent.Runs.Rows.{Run, Store, for_rows}

-- Which status may follow which, over any number of operations. A Run that is asked to cancel,
-- needs attention or has ended is never again queued, running or waiting.
abbrev pub reaches : Status → Status → Bool
reaches queued b = true
reaches running b = true
reaches waiting_user b = true
reaches cancel_requested cancel_requested = true
reaches succeeded succeeded = true
reaches failed failed = true
reaches cancel_requested needs_attention = true
reaches cancel_requested cancelled = true
reaches cancel_requested failed = true
reaches needs_attention needs_attention = true
reaches needs_attention cancelled = true
reaches needs_attention failed = true
reaches cancelled needs_attention = true
reaches cancelled cancelled = true
reaches cancelled failed = true
reaches _ _ = false

pub reaches_refl : (a : Status) → reaches a a ≡ true
reaches_refl a = ground arith

reaches_trans : (a b c : Status) → reaches a b ≡ true → reaches b c ≡ true → reaches a c ≡ true
reaches_trans queued b c p q = refl
reaches_trans running b c p q = refl
reaches_trans waiting_user b c p q = refl
reaches_trans cancel_requested b c p q = ground arith
reaches_trans needs_attention b c p q = ground arith
reaches_trans succeeded b c p q = ground arith
reaches_trans failed b c p q = ground arith
reaches_trans cancelled b c p q = ground arith

-- A lease that a Run carries afterwards is the one it carried, or a later epoch's.
abbrev pub KeepsLease : Run → Run → Type 0
KeepsLease r r' =
    (w : String)
    → r'.lease_owner ≡ some w
    → ((r.lease_owner ≡ some w) × (r'.lease_epoch ≡ r.lease_epoch))
      ⊎ (r.lease_epoch < r'.lease_epoch)

-- A Run never moves back: not in its version, not in its lease epoch, not out of a final status.
pub record Evolves (r r' : Run) : Type 0 where
  pub version_grows : r.version ≤ r'.version
  pub epoch_grows : r.lease_epoch ≤ r'.lease_epoch
  pub lease_kept : KeepsLease r r'
  pub status_reached : reaches r.status r'.status ≡ true
  pub created_kept : r'.created_at ≡ r.created_at

pub Evolves-refl : (r : Run) → Evolves r r
Evolves-refl r = record {
  version_grows = omega arith;
  epoch_grows = omega arith;
  lease_kept = λ w h. inl (h, refl);
  status_reached = reaches_refl r.status;
  created_kept = refl;
}

pub Evolves-trans : (a b c : Run) → Evolves a b → Evolves b c → Evolves a c
Evolves-trans a b c p q = record {
  version_grows = omega arith;
  epoch_grows = omega arith;
  lease_kept = λ w h. elim (q.lease_kept w h) [
    | inl (held, same) ↦ elim (p.lease_kept w held) [
      | inl (held', same') ↦ inl (held', omega arith)
      | inr later ↦ inr (omega arith)
    ]
    | inr later ↦ inr (omega arith)
  ];
  status_reached = reaches_trans a.status b.status c.status p.status_reached q.status_reached;
  created_kept = ground arith;
}

-- Every Run of a table is in the later one, evolved, and the keys stay distinct.
pub record Grows (t t' : Table Run) : Type 0 where
  pub row :
      (id : String) (r : Run)
      → lookup id t ≡ some r
      → (r' : Run) × (lookup id t' ≡ some r') × Evolves r r'
  pub keyed : Distinct t → Distinct t'

pub Grows-refl : (t : Table Run) → Grows t t
Grows-refl t = record { row = λ id r h. (r, h, Evolves-refl r); keyed = λ d. d }

pub Grows-trans : (a b c : Table Run) → Grows a b → Grows b c → Grows a c
Grows-trans a b c p q = record {
  row = λ id r h.
      let (r', h', e) = p.row id r h in
      let (r'', h'', e') = q.row id r' h' in (r'', h'', Evolves-trans r r' r'' e e');
  keyed = λ d. q.keyed (p.keyed d);
}

pub Grows-update_where :
    (p : String → Run → Bool) (f : Run → Run) (t : Table Run)
    → ((id : String) (r : Run) → lookup id t ≡ some r → p id r ≡ true → Evolves r (f r))
    → Grows t (update_where p f t)
Grows-update_where p f t step = record {
  row = λ id r h. elim (Bool-cases (p id r)) [
    | inl hit ↦ (f r, rw (lookup-update_where p f id t, h) (rw hit refl), step id r h hit)
    | inr miss ↦ (r, rw (lookup-update_where p f id t, h) (rw miss refl), Evolves-refl r)
  ];
  keyed = update_where-Distinct p f t;
}

pub Grows-update :
    (k : String) (f : Run → Run) (t : Table Run)
    → ((r : Run) → lookup k t ≡ some r → Evolves r (f r))
    → Grows t (update k f t)
unfolding update
Grows-update k f t step =
    Grows-update_where (λ j r. j =ₛ k) f t λ id r h same. step r (rw (← (eq_iff id k).0 same) h)

-- A new row under a new key.
pub Grows-append :
    (t : Table Run) (k : String) (r : Run) → lookup k t ≡ none → Grows t (t ++ (k, r) ∷ [])
Grows-append t k r h = record {
  row = λ id r' h'. (r', lookup-append_some t _ id r' h', Evolves-refl r');
  keyed = append-Distinct t k r h;
}

-- A loop over rows that were selected before it, each of which its turn finds as it was read.
module _ (body : String × Run → Store → Store) (p : String → Run → Bool)
    (grow : (id : String) (r : Run) (s : Store)
      → lookup id s.runs ≡ some r
      → p id r ≡ true
      → Grows s.runs (body (id, r) s).runs)
    (others : (id : String) (r : Run) (s : Store) (j : String)
      → (j =ₛ id) ≡ false
      → lookup j (body (id, r) s).runs ≡ lookup j s.runs) where
  pub for_rows-Grows :
      (rows : Table Run) (s : Store)
      → Distinct rows
      → AllFound s.runs p rows
      → Grows s.runs (for_rows body rows s).runs
  unfolding for_rows
  for_rows-Grows [] s d found = Grows-refl s.runs
  for_rows-Grows ((id, r) ∷ rows) s d found =
      Grows-trans s.runs (body (id, r) s).runs _ (grow id r s found.0 found.1) (
        for_rows-Grows rows (body (id, r) s) d.1
          (AllFound-kept id s.runs (body (id, r) s).runs p rows (others id r s) d.0 found.2))

  pub for_selected-Grows :
      (s : Store) → Distinct s.runs → Grows s.runs (for_rows body (select_where p s.runs) s).runs
  for_selected-Grows s d =
      for_rows-Grows (select_where p s.runs) s (select_where-Distinct p s.runs d)
        (select_where-AllFound p s.runs d)
