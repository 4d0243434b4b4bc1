-- ===== src/Runs/Evolution/Commits.antt =====
-- Commits, answers and grants let each Run evolve.
use ambient_agent.Prelude.{
  ℕ, suc, String, ◌≡◌, refl, ap, ◌∙◌, ◌⊎◌, inl, inr, true, Option, some, List, [], ◌∷◌, arith,
  Bool-cases, Option-cases,
}
use ambient_agent.Prelude.Table.{lookup, update}
use ambient_agent.Json.{Json}
use ambient_agent.Runs.Status.{Status, running, waiting_user, same_status-eq}
use ambient_agent.Runs.Rows.{Run, Interaction, Step, StepStatus, Column, Store}
use ambient_agent.Runs.Errors.{ok, Result-cases}
use ambient_agent.Runs.Events.{Lease, insert_event, holds_lease}
use ambient_agent.Runs.Steps.{finish_step, chosen_attempt, is_success, step_checkpoint}
use ambient_agent.Runs.Transition.{cancel_pending, is_pending}
use ambient_agent.Runs.Outcome.{PendingRunEvent, Verdict, wait}
use ambient_agent.Runs.Commit.{
  Attempt, commit_step, committed, accepts_commit, write_commit, prepare, publish,
  settle_interactions, find_attempt, step_or, no_step,
}
use ambient_agent.Runs.Interactions.{
  Request, Answer, create_interaction, wait_for_interaction, parked, resolve_interaction,
  resolved_target, resumed, write_answer, opens_grant,
}
use ambient_agent.Runs.Grants.{
  complete_permission_grant, defer_permission_grant, note_run, pending_grant,
}
use ambient_agent.Runs.Evolution.{Grows, Grows-refl, Grows-update, Grows-update_where}
use ambient_agent.Runs.Evolution.RowChanges.{
  parked-Evolves, committed-Evolves, resumed-Evolves, same_lease-Evolves,
}

publish-runs :
    (a : Attempt) (es : List PendingRunEvent) (s : Store) → (publish a es s).runs ≡ s.runs
unfolding publish insert_event
publish-runs a [] s = refl
publish-runs a (e ∷ es) s = publish-runs a es _

settle_interactions-runs :
    (a : Attempt) (v : ℕ) (s : Store) → (settle_interactions a v s).runs ≡ s.runs
unfolding settle_interactions cancel_pending
settle_interactions-runs a v s = ground arith

prepare-runs :
    (a : Attempt) (v : ℕ) (w : Verdict) (s s' : Store) → prepare a v w s ≡ ok s' → s'.runs ≡ s.runs
unfolding prepare insert_event
prepare-runs a v (wait q) s s' h = ground arith
prepare-runs a v _ s s' h = ground arith

write_commit-runs :
    (a : Attempt) (r : Run) (x : Step) (s : Store)
    → (write_commit a r x s).runs ≡ update a.run_id (committed a) s.runs
unfolding write_commit insert_event
write_commit-runs a r x s = publish-runs a a.outcome.events _ ∙ settle_interactions-runs a _ _

abbrev pub found_step : Attempt → Store → Step
found_step a s = step_or (find_attempt a.run_id a.step_key a.attempt s.steps) (no_step a)

pub commit_step-write :
    (a : Attempt) (s s' : Store) (r : Run)
    → commit_step a s ≡ ok s'
    → lookup a.run_id s.runs ≡ some r
    → (s₁ : Store) × (prepare a (suc r.version) a.outcome.verdict s ≡ ok s₁)
      × (s' ≡ write_commit a r (found_step a s) s₁)
unfolding commit_step
commit_step-write a s s' r h e =
    elim (Result-cases (prepare a (suc r.version) a.outcome.verdict s)) [
      | inl (s₁, p) ↦ (s₁, p, ground arith)
      | inr (x, p) ↦ ground arith
    ]

commit_step-runs :
    (a : Attempt) (s s' : Store) (r : Run)
    → commit_step a s ≡ ok s'
    → lookup a.run_id s.runs ≡ some r
    → s'.runs ≡ update a.run_id (committed a) s.runs
commit_step-runs a s s' r h e =
    let (s₁, p, w) = commit_step-write a s s' r h e in
    rw w (
      write_commit-runs a r (found_step a s) s₁
      ∙ ap (update a.run_id (committed a))
          (prepare-runs a (suc r.version) a.outcome.verdict s s₁ p))

-- What a successful `commit_step` found and wrote.
pub commit_step-ok :
    (a : Attempt) (s s' : Store)
    → commit_step a s ≡ ok s'
    → (r : Run) × (lookup a.run_id s.runs ≡ some r)
      × (accepts_commit r a.lease a.outcome.verdict ≡ true)
      × (s'.runs ≡ update a.run_id (committed a) s.runs)
unfolding commit_step
commit_step-ok a s s' h = elim (Option-cases (lookup a.run_id s.runs)) [
  | inl e ↦ ground arith
  | inr (r, e) ↦ (r, e, ground arith, commit_step-runs a s s' r h e)
]

pub commit_step-Grows :
    (a : Attempt) (s s' : Store) → commit_step a s ≡ ok s' → Grows s.runs s'.runs
commit_step-Grows a s s' h =
    let (r, e, p, w) = commit_step-ok a s s' h in
    rw w (Grows-update a.run_id _ s.runs λ r' e'. committed-Evolves r' a (ground (arith, e, e', p)))

abbrev finish_row : String → ℕ → Column → Run → Run
finish_row id now checkpoint r = record r { checkpoint_json = checkpoint; updated_at = now }

finish_step-runs :
    (id key : String) (output : Option Json) (status : StepStatus) (attempt : Option ℕ)
    (lease : Option Lease) (now : ℕ) (s s' : Store)
    → finish_step id key output status attempt lease now s ≡ ok s'
    → (s'.runs ≡ s.runs) ⊎ ((c : Column) × (s'.runs ≡ update id (finish_row id now c) s.runs))
unfolding finish_step
finish_step-runs id key output status attempt lease now s s' h =
    elim (Result-cases (chosen_attempt attempt id key s.steps)) [
      | inl (n, p) ↦ elim (Bool-cases (is_success status)) [
        | inl done ↦ inr (step_checkpoint key n output, ground arith)
        | inr open' ↦ inl (ground arith)
      ]
      | inr (x, p) ↦ ground arith
    ]

pub finish_step-Grows :
    (id key : String) (output : Option Json) (status : StepStatus) (attempt : Option ℕ)
    (lease : Option Lease) (now : ℕ) (s s' : Store)
    → finish_step id key output status attempt lease now s ≡ ok s'
    → Grows s.runs s'.runs
finish_step-Grows id key output status attempt lease now s s' h =
    elim (finish_step-runs id key output status attempt lease now s s' h) [
      | inl same ↦ rw same (Grows-refl s.runs)
      | inr (c, e) ↦
          rw e (Grows-update id _ s.runs λ r _. same_lease-Evolves r _ refl refl refl refl refl)
    ]

create_interaction-runs :
    (run_id kind prompt : String) (payload : Json) (id : String) (now : ℕ) (s s' : Store)
    → create_interaction run_id kind prompt payload id now s ≡ ok s'
    → s'.runs ≡ s.runs
unfolding create_interaction insert_event
create_interaction-runs run_id kind prompt payload id now s s' h = ground arith

pub create_interaction-Grows :
    (run_id kind prompt : String) (payload : Json) (id : String) (now : ℕ) (s s' : Store)
    → create_interaction run_id kind prompt payload id now s ≡ ok s'
    → Grows s.runs s'.runs
create_interaction-Grows run_id kind prompt payload id now s s' h =
    rw (create_interaction-runs run_id kind prompt payload id now s s' h) (Grows-refl s.runs)

-- What a successful `wait_for_interaction` found and wrote.
pub wait_for_interaction-ok :
    (q : Request) (lease : Lease) (now : ℕ) (s s' : Store)
    → wait_for_interaction q lease now s ≡ ok s'
    → (r : Run) × (lookup q.run_id s.runs ≡ some r)
      × (r.status ≡ running)
      × (holds_lease r lease ≡ true)
      × (s'.runs ≡ update q.run_id (parked q.summary now) s.runs)
unfolding wait_for_interaction insert_event
wait_for_interaction-ok q lease now s s' h = elim (Option-cases (lookup q.run_id s.runs)) [
  | inl e ↦ ground arith
  | inr (r, e) ↦ (r, e, ground arith, ground arith, ground arith)
]

pub wait_for_interaction-Grows :
    (q : Request) (lease : Lease) (now : ℕ) (s s' : Store)
    → wait_for_interaction q lease now s ≡ ok s'
    → Grows s.runs s'.runs
wait_for_interaction-Grows q lease now s s' h =
    let (r, e, st, l, w) = wait_for_interaction-ok q lease now s s' h in
    rw w (
      Grows-update q.run_id _ s.runs
        λ r' e'. parked-Evolves r' now q.summary (ground (arith, e, e', st)))

write_answer-runs :
    (id : String) (i : Interaction) (a : Answer) (r : Run) (target : Status) (now : ℕ) (s : Store)
    → (write_answer id i a r target now s).runs
      ≡ update i.run_id (resumed a target (opens_grant i a.response) now) s.runs
unfolding write_answer insert_event
write_answer-runs id i a r target now s = refl

-- What a successful `resolve_interaction` found, and that its writes are those of `write_answer`.
pub resolve_interaction-ok :
    (id : String) (a : Answer) (now : ℕ) (s s' : Store)
    → resolve_interaction id a now s ≡ ok s'
    → (i : Interaction) × (r : Run) × (lookup id s.interactions ≡ some i)
      × (is_pending i.status ≡ true)
      × (lookup i.run_id s.runs ≡ some r)
      × (r.status ≡ waiting_user)
      × (s' ≡ write_answer id i a r (resolved_target a r) now s)
unfolding resolve_interaction
resolve_interaction-ok id a now s s' h = elim (Option-cases (lookup id s.interactions)) [
  | inl e ↦ ground arith
  | inr (i, e) ↦ elim (Option-cases (lookup i.run_id s.runs)) [
    | inl e' ↦ ground arith
    | inr (r, e') ↦ (
      i,
      r,
      e,
      ground arith,
      e',
      same_status-eq r.status waiting_user (ground arith),
      ground arith,
    )
  ]
]

pub resolve_interaction-Grows :
    (id : String) (a : Answer) (now : ℕ) (s s' : Store)
    → resolve_interaction id a now s ≡ ok s'
    → Grows s.runs s'.runs
resolve_interaction-Grows id a now s s' h =
    let (i, r, e, p, e', st, w) = resolve_interaction-ok id a now s s' h in
    rw (w, write_answer-runs)
      (Grows-update i.run_id _ s.runs
        λ r' e''. resumed-Evolves r' now a _ _ (ground (arith, e', e'', st)))

note_run-Grows :
    (id summary : String) (c : Column) (now : ℕ) (s : Store)
    → Grows s.runs (note_run id summary c now s).runs
unfolding note_run
note_run-Grows id summary c now s =
    Grows-update_where _ _ s.runs λ i r h p. same_lease-Evolves r _ refl refl refl refl refl

pub complete_permission_grant-Grows :
    (id : String) (now : ℕ) (s : Store) → Grows s.runs (complete_permission_grant id now s).runs
unfolding complete_permission_grant
complete_permission_grant-Grows id now s = elim (Option-cases (pending_grant id s)) [
  | inl e ↦ rw (e, complete_permission_grant) (Grows-refl s.runs)
  | inr (g, e) ↦ rw (e, complete_permission_grant) (note_run-Grows g.run_id _ _ now _)
]

pub defer_permission_grant-Grows :
    (id : String) (now : ℕ) (s : Store) → Grows s.runs (defer_permission_grant id now s).runs
unfolding defer_permission_grant
defer_permission_grant-Grows id now s = elim (Option-cases (pending_grant id s)) [
  | inl e ↦ rw (e, defer_permission_grant) (Grows-refl s.runs)
  | inr (g, e) ↦ rw (e, defer_permission_grant) (note_run-Grows g.run_id _ _ now _)
]
