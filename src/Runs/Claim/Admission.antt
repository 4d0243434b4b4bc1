-- ===== src/Runs/Claim/Admission.antt =====
-- What a claim promises: which Run it takes, what it makes of it, and the limits it keeps.
use ambient_agent.Prelude.{
  ℕ, suc, ◌+◌, ◌<◌, ◌≤◌, String, ◌≡◌, refl, ◌∙◌, inl, inr, Bool, true, false, ◌&&◌, some, List,
  arith, leb, ◌=ₛ◌, find?, any, find?-holds, Bool-cases, Option-cases, text_refl,
}
use ambient_agent.Prelude.Table.{
  lookup, update_where, select_where, exists, lookup-update_where, lookup-select_where,
}
use ambient_agent.Prelude.Keys.{Distinct, select_where-AllFound, select_where-Distinct}
use ambient_agent.Prelude.Counts.{exists-none, find?-AllFound, take-AllFound, count-update_where}
use ambient_agent.Runs.Status.{
  queued, is_leased, is_holding, is_active, same_status, same_status-eq,
}
use ambient_agent.Runs.Rows.{Run, Store}
use ambient_agent.Runs.Events.{insert_event}
use ambient_agent.Runs.Lane.{session_of, blocks, active_rows, session_lane_available}
use ambient_agent.Runs.Claim.{
  claim_next, claim_specific, claimed, take_lease, candidates, is_candidate, is_eligible, may_claim,
  has_pending_grant, running_count, owner_count, order_rows,
}
use ambient_agent.Runs.Claim.Order.{
  order_rows-OldestFirst, order_rows-AllFound, lookup-order_rows, oldest_match,
}

-- No other Run of the session holds it.
pub LaneFree : String → Run → Store → Type 0
LaneFree id r s =
    (session : String) (other : String) (x : Run)
    → session_of r ≡ some session
    → lookup other s.runs ≡ some x
    → session_of x ≡ some session
    → (other =ₛ id) ≡ false
    → is_holding x.status ≡ false

-- How a claim leaves the Run and the store.
pub record Admitted (id worker : String) (now expires : ℕ) (r : Run) (s s' : Store) : Type 0 where
  pub was_queued : r.status ≡ queued
  pub was_found : lookup id s.runs ≡ some r
  pub now_claimed : lookup id s'.runs ≡ some (claimed worker now expires r)
  pub lane_free : LaneFree id r s
  pub one_more : running_count s'.runs ≡ suc (running_count s.runs)

lane-LaneFree :
    (id : String) (r : Run) (s : Store)
    → session_lane_available (id, r) (active_rows s.runs) ≡ true
    → LaneFree id r s
unfolding LaneFree session_lane_available active_rows blocks is_active is_holding
lane-LaneFree id r s h session other x own found shared differs =
    elim (Bool-cases (is_active x.status)) [
      | inr idle ↦ ground arith
      | inl active ↦
          let free : exists (blocks session (id, r)) (active_rows s.runs) ≡ false =
            ground (arith, own, h) in
          let open' =
            exists-none (blocks session (id, r)) (λ i y. is_active y.status) s.runs other x free
              found active in
          ground (arith, open', differs, shared, text_refl session)
    ]

take_lease-runs :
    (id worker : String) (now expires : ℕ) (s : Store)
    → (take_lease id worker now expires s).runs
      ≡ update_where
          (λ j r. j =ₛ id && same_status r.status queued)
          (claimed worker now expires)
          s.runs
unfolding take_lease insert_event
take_lease-runs id worker now expires s = refl

take_lease-Admitted :
    (id worker : String) (now expires : ℕ) (r : Run) (s : Store)
    → Distinct s.runs
    → lookup id s.runs ≡ some r
    → same_status r.status queued ≡ true
    → session_lane_available (id, r) (active_rows s.runs) ≡ true
    → Admitted id worker now expires r s (take_lease id worker now expires s)
unfolding running_count claimed is_leased
take_lease-Admitted id worker now expires r s d found waiting free = record {
  was_queued = same_status-eq r.status queued waiting;
  was_found = found;
  now_claimed = rw (take_lease-runs id worker now expires s) (
      rw (lookup-update_where _ (claimed worker now expires) id s.runs, found)
        (ground (arith, text_refl id, waiting)));
  lane_free = lane-LaneFree id r s free;
  one_more = rw (take_lease-runs id worker now expires s) (
      count-update_where (λ j x. is_leased x.status) id (λ x. same_status x.status queued)
        (claimed worker now expires) s.runs r d found waiting (ground arith) refl);
}

-- What a successful `claim_next` guarantees of the Run that it returns.
pub record Chosen (id worker : String) (g o : ℕ) (now expires : ℕ) (excluded : List String)
    (r : Run) (s s' : Store) : Type 0 where
  pub admitted : Admitted id worker now expires r s s'
  pub below_global : running_count s'.runs ≤ g
  pub below_owner : owner_count r.owner_id s.runs < o
  pub not_excluded : any (λ x. x =ₛ id) excluded ≡ false
  pub not_internal : (r.adapter_type =ₛ "internal") ≡ false
  pub grants_settled : has_pending_grant id s.grants ≡ false
  pub oldest :
      (other : String) (x : Run)
      → lookup other s.runs ≡ some x
      → is_candidate s.grants other x ≡ true
      → is_eligible excluded o s (other, x) ≡ true
      → r.created_at ≤ x.created_at

candidates-found :
    (p : String × Run → Bool) (id : String) (r : Run) (s : Store)
    → Distinct s.runs
    → find? p (candidates s) ≡ some (id, r)
    → (lookup id s.runs ≡ some r) × (is_candidate s.grants id r ≡ true)
unfolding candidates
candidates-found p id r s d h =
    find?-AllFound p (is_candidate s.grants) s.runs (candidates s) id r h (
      take-AllFound 100 (is_candidate s.grants) s.runs _ (
        order_rows-AllFound s.runs (is_candidate s.grants) _
          (select_where-AllFound (is_candidate s.grants) s.runs d)))

candidates-oldest :
    (p : String × Run → Bool) (id other : String) (r x : Run) (s : Store)
    → Distinct s.runs
    → find? p (candidates s) ≡ some (id, r)
    → lookup other s.runs ≡ some x
    → is_candidate s.grants other x ≡ true
    → p (other, x) ≡ true
    → r.created_at ≤ x.created_at
unfolding candidates
candidates-oldest p id other r x s d h found passes ok =
    let rows = select_where (is_candidate s.grants) s.runs in
    oldest_match p 100 (order_rows rows) id other r x (order_rows-OldestFirst rows) h
      (lookup-order_rows rows other (select_where-Distinct (is_candidate s.grants) s.runs d)
        ∙ lookup-select_where (is_candidate s.grants) other s.runs x found passes)
      ok

-- The search of `claim_next`, where it succeeds.
claim_next-found :
    (worker : String) (g o lease : ℕ) (excluded : List String) (now : ℕ) (s s' : Store)
    (id : String)
    → claim_next worker g o lease excluded now s ≡ (s', some id)
    → (r : Run) × (find? (is_eligible excluded o s) (candidates s) ≡ some (id, r))
      × (leb g (running_count s.runs) ≡ false)
      × (s' ≡ take_lease id worker now (now + lease) s)
unfolding claim_next
claim_next-found worker g o lease excluded now s s' id h =
    elim (Option-cases (find? (is_eligible excluded o s) (candidates s))) [
      | inl e ↦ ground arith
      | inr ((j, r), e) ↦ (r, ground arith, ground arith, ground arith)
    ]

-- In a store of distinct keys, if `claim_next` returns a Run, that Run was queued, not internal,
-- not excluded and without a pending grant; no other Run of its session held the session; its owner
-- was below the owner's limit; it is now the claimed row, the number of Runs at work is one more
-- and within the global limit; and every other candidate that was eligible is at least as young.
pub claim_next_admits :
    (worker : String) (g o lease : ℕ) (excluded : List String) (now : ℕ) (s s' : Store)
    (id : String)
    → Distinct s.runs
    → claim_next worker g o lease excluded now s ≡ (s', some id)
    → (r : Run) × Chosen id worker g o now (now + lease) excluded r s s'
unfolding is_candidate is_eligible
claim_next_admits worker g o lease excluded now s s' id d h =
    let (r, e, room, w) = claim_next-found worker g o lease excluded now s s' id h in
    let (found, passes) = candidates-found (is_eligible excluded o s) id r s d e in
    let eligible = find?-holds (is_eligible excluded o s) (candidates s) e in
    let taken =
      take_lease-Admitted id worker now (now + lease) r s d found (ground (arith, passes))
        (ground (arith, eligible)) in
    (
      r,
      record {
        admitted = rw w taken;
        below_global = rw w (ground (arith, taken.one_more, room));
        below_owner = ground (arith, eligible);
        not_excluded = ground (arith, eligible);
        not_internal = ground (arith, passes);
        grants_settled = ground (arith, passes);
        oldest = λ other x. candidates-oldest (is_eligible excluded o s) id other r x s d e;
      },
    )

-- In a store of distinct keys, if `claim_specific` returns a Run, it is the one asked for, it was
-- queued, no other Run of its session held the session, its owner was below the owner's limit; it is
-- now the claimed row and the number of Runs at work is one more and within the global limit.
pub claim_specific_admits :
    (id worker : String) (g o lease now : ℕ) (s s' : Store) (made : String)
    → Distinct s.runs
    → claim_specific id worker g o lease now s ≡ (s', some made)
    → (made ≡ id)
      × ((r : Run) × Admitted id worker now (now + lease) r s s'
          × (running_count s'.runs ≤ g)
          × (owner_count r.owner_id s.runs < o))
unfolding claim_specific may_claim
claim_specific_admits id worker g o lease now s s' made d h =
    elim (Option-cases (lookup id s.runs)) [
      | inl e ↦ ground arith
      | inr (r, e) ↦ elim (Bool-cases (may_claim id g o r s)) [
        | inr barred ↦ ground arith
        | inl may ↦
            let taken =
              take_lease-Admitted id worker now (now + lease) r s d e (ground (arith, may))
                (ground (arith, may)) in
            let w : s' ≡ take_lease id worker now (now + lease) s = ground arith in
            (
              ground arith,
              (r, rw w taken, rw w (ground (arith, taken.one_more, may)), ground (arith, may)),
            )
      ]
    ]
