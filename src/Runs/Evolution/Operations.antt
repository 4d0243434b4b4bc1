-- ===== src/Runs/Evolution/Operations.antt =====
-- Every operation of the store lets each Run evolve.
use ambient_agent.Prelude.{
  ℕ, String, ◌≡◌, refl, inl, inr, true, ◌&&◌, Option, none, some, List, arith, leb, ◌=ₛ◌,
  Bool-cases, Option-cases, find?,
}
use ambient_agent.Prelude.Table.{Table, lookup, update, update_where}
use ambient_agent.Json.{Json}
use ambient_agent.Runs.Status.{Status, queued, same_status, same_status-eq}
use ambient_agent.Runs.Rows.{Run, Store}
use ambient_agent.Runs.Errors.{ok}
use ambient_agent.Runs.Events.{Lease, insert_event, append_event}
use ambient_agent.Runs.Claim.{
  claimed, take_lease, claim_next, claim_specific, may_claim, heartbeat, candidates, is_eligible,
  running_count,
}
use ambient_agent.Runs.Steps.{begin_step_attempt}
use ambient_agent.Runs.Transition.{
  Assignment, transition, transitioned, allowed, settle, cancel_pending, update_progress,
  clamp_progress,
}
use ambient_agent.Runs.Steps.{close_running_steps}
use ambient_agent.Runs.Evolution.{Grows, Grows-refl, Grows-update, Grows-update_where}
use ambient_agent.Runs.Evolution.RowChanges.{
  claimed-Evolves, transitioned-Evolves, same_lease-Evolves,
}

-- A table that is the same in two stores.
Grows-of_eq : (t t' : Table Run) → t' ≡ t → Grows t t'
Grows-of_eq t t' e = rw e (Grows-refl t)

module _ (run_id : String) (now : ℕ) (s : Store) where
  take_lease-runs :
      (worker : String) (expires : ℕ)
      → (take_lease run_id worker now expires s).runs
        ≡ update_where
            (λ id r. id =ₛ run_id && same_status r.status queued)
            (claimed worker now expires)
            s.runs
  unfolding take_lease insert_event
  take_lease-runs worker expires = refl

  take_lease-Grows :
      (worker : String) (expires : ℕ) → Grows s.runs (take_lease run_id worker now expires s).runs
  take_lease-Grows worker expires = rw (take_lease-runs worker expires) (
      Grows-update_where _ _ s.runs λ id r h p.
        claimed-Evolves r now worker expires (same_status-eq r.status queued (ground arith)))

  pub claim_specific-Grows :
      (worker : String) (g o lease : ℕ)
      → Grows s.runs (claim_specific run_id worker g o lease now s).0.runs
  unfolding claim_specific
  claim_specific-Grows worker g o lease = elim (Option-cases (lookup run_id s.runs)) [
    | inl e ↦ rw (e, claim_specific) (Grows-refl s.runs)
    | inr (r, e) ↦ elim (Bool-cases (may_claim run_id g o r s)) [
      | inl p ↦ rw (e, claim_specific) (rw p (take_lease-Grows worker _))
      | inr p ↦ rw (e, claim_specific) (rw p (Grows-refl s.runs))
    ]
  ]

pub claim_next-Grows :
    (worker : String) (g o lease : ℕ) (excluded : List String) (now : ℕ) (s : Store)
    → Grows s.runs (claim_next worker g o lease excluded now s).0.runs
unfolding claim_next
claim_next-Grows worker g o lease excluded now s =
    elim (Bool-cases (leb g (running_count s.runs))) [
      | inl full ↦ rw full (Grows-refl s.runs)
      | inr room ↦ elim (Option-cases (find? (is_eligible excluded o s) (candidates s))) [
        | inl e ↦ rw room (rw (e, claim_next) (Grows-refl s.runs))
        | inr ((id, r), e) ↦ rw room (rw (e, claim_next) (take_lease-Grows id now s worker _))
      ]
    ]

pub heartbeat-Grows :
    (worker : String) (lease : ℕ) (ids : Option (List String)) (now : ℕ) (s : Store)
    → Grows s.runs (heartbeat worker lease ids now s).runs
unfolding heartbeat
heartbeat-Grows worker lease ids now s =
    Grows-update_where _ _ s.runs (λ id r h p. same_lease-Evolves r _ refl refl refl refl refl)

append_event-runs :
    (id kind : String) (payload : Json) (lease : Option Lease) (now : ℕ) (s s' : Store) (n : ℕ)
    → append_event id kind payload lease now s ≡ ok (s', n)
    → s'.runs ≡ s.runs
unfolding append_event insert_event
append_event-runs id kind payload none now s s' n h = ground arith
append_event-runs id kind payload (some lease) now s s' n h = ground arith

pub append_event-Grows :
    (id kind : String) (payload : Json) (lease : Option Lease) (now : ℕ) (s s' : Store) (n : ℕ)
    → append_event id kind payload lease now s ≡ ok (s', n)
    → Grows s.runs s'.runs
append_event-Grows id kind payload lease now s s' n h =
    Grows-of_eq s.runs s'.runs (append_event-runs id kind payload lease now s s' n h)

begin_step_attempt-runs :
    (id key : String) (lease : Option Lease) (now : ℕ) (s s' : Store) (n : ℕ)
    → begin_step_attempt id key lease now s ≡ ok (s', n)
    → s'.runs ≡ s.runs
unfolding begin_step_attempt insert_event
begin_step_attempt-runs id key lease now s s' n h = ground arith

settle-runs :
    (id : String) (status : Status) (r : Run) (now : ℕ) (s : Store)
    → (settle id status r now s).runs ≡ s.runs
unfolding settle close_running_steps cancel_pending
settle-runs id status r now s = ground arith

-- What a successful `transition` found and wrote.
pub transition-ok :
    (id : String) (status : Status) (lease : Option Lease) (version : Option ℕ)
    (updates : List Assignment) (now : ℕ) (s s' : Store)
    → transition id status lease version updates now s ≡ ok s'
    → (r : Run) × (lookup id s.runs ≡ some r)
      × (allowed r.status status ≡ true)
      × (s'.runs ≡ update id (transitioned status updates now) s.runs)
unfolding transition insert_event
transition-ok id status lease version updates now s s' h = elim (Option-cases (lookup id s.runs)) [
  | inl e ↦ ground arith
  | inr (r, e) ↦ (
    r,
    e,
    ground arith,
    ground (
      arith,
      settle-runs id status r now
          (record s { runs = update id (transitioned status updates now) s.runs }),
    ),
  )
]

pub transition-Grows :
    (id : String) (status : Status) (lease : Option Lease) (version : Option ℕ)
    (updates : List Assignment) (now : ℕ) (s s' : Store)
    → transition id status lease version updates now s ≡ ok s'
    → Grows s.runs s'.runs
transition-Grows id status lease version updates now s s' h =
    let (r, e, p, w) = transition-ok id status lease version updates now s s' h in
    rw w (
      Grows-update id _ s.runs
        λ r' e'. transitioned-Evolves r' now status updates (ground (arith, e, e', p)))

update_progress-runs :
    (id : String) (p : ℕ) (summary : String) (lease : Option Lease) (now : ℕ) (s s' : Store)
    → update_progress id p summary lease now s ≡ ok s'
    → s'.runs
      ≡ update id
          (λ r. record r { progress = clamp_progress p; summary = summary; updated_at = now })
          s.runs
unfolding update_progress insert_event
update_progress-runs id p summary lease now s s' h = ground arith

pub update_progress-Grows :
    (id : String) (p : ℕ) (summary : String) (lease : Option Lease) (now : ℕ) (s s' : Store)
    → update_progress id p summary lease now s ≡ ok s'
    → Grows s.runs s'.runs
update_progress-Grows id p summary lease now s s' h =
    rw (update_progress-runs id p summary lease now s s' h)
      (Grows-update id _ s.runs λ r e. same_lease-Evolves r _ refl refl refl refl refl)

pub begin_step_attempt-Grows :
    (id key : String) (lease : Option Lease) (now : ℕ) (s s' : Store) (n : ℕ)
    → begin_step_attempt id key lease now s ≡ ok (s', n)
    → Grows s.runs s'.runs
begin_step_attempt-Grows id key lease now s s' n h =
    Grows-of_eq s.runs s'.runs (begin_step_attempt-runs id key lease now s s' n h)
