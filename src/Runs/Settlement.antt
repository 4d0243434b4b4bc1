-- ===== src/Runs/Settlement.antt =====
-- What a committed attempt leaves behind (`commit_step`), and how an answer takes up a `Wait`.
use ambient_agent.Prelude.{
  ℕ, suc, ◌≡◌, refl, ◌∙◌, inl, inr, true, ◌||◌, none, some, List, [], ◌∷◌, arith, Bool-cases,
  Option-cases,
}
use ambient_agent.Prelude.Table.{lookup, update}
use ambient_agent.Prelude.Keys.{lookup-update_same}
use ambient_agent.Runs.Status.{waiting_user, needs_attention, is_terminal, same_status}
use ambient_agent.Runs.Rows.{Run, Step, Store}
use ambient_agent.Runs.Errors.{ok, err, stale_lease}
use ambient_agent.Runs.Events.{insert_event, holds_lease}
use ambient_agent.Runs.Steps.{is_attempt, is_step_running, update_steps, finished_step}
use ambient_agent.Runs.Transition.{cancel_pending}
use ambient_agent.Runs.Outcome.{
  PendingRunEvent, Verdict, wait, target_of, step_status_of, outcome_json,
}
use ambient_agent.Runs.Commit.{
  Attempt, accepts_commit, commit_step, committed, find_attempt, is_open_attempt, outcome_columns,
  prepare, publish, settle_interactions, write_commit,
}
use ambient_agent.Runs.Quiet.{NonePending, cancel_pending-NonePending}
use ambient_agent.Runs.Evolution.Commits.{commit_step-ok, commit_step-write, found_step}

publish-interactions :
    (a : Attempt) (es : List PendingRunEvent) (s : Store)
    → (publish a es s).interactions ≡ s.interactions
unfolding publish insert_event
publish-interactions a [] s = refl
publish-interactions a (e ∷ es) s = publish-interactions a es _

publish-steps :
    (a : Attempt) (es : List PendingRunEvent) (s : Store) → (publish a es s).steps ≡ s.steps
unfolding publish insert_event
publish-steps a [] s = refl
publish-steps a (e ∷ es) s = publish-steps a es _

settle_interactions-steps :
    (a : Attempt) (v : ℕ) (s : Store) → (settle_interactions a v s).steps ≡ s.steps
unfolding settle_interactions cancel_pending
settle_interactions-steps a v s = ground arith

prepare-steps :
    (a : Attempt) (v : ℕ) (w : Verdict) (s s' : Store)
    → prepare a v w s ≡ ok s'
    → s'.steps ≡ s.steps
unfolding prepare insert_event
prepare-steps a v (wait q) s s' h = ground arith
prepare-steps a v _ s s' h = ground arith

-- The finished step of an attempt, and the store before the interactions are settled.
abbrev closing : Attempt → Step → Step
closing a x =
    finished_step (step_status_of a.outcome.verdict) (some (outcome_json a.outcome)) a.now x

abbrev pub before_settling : Attempt → Store → Store
before_settling a s = record s {
  steps = update_steps (is_open_attempt a) (closing a) s.steps;
  runs = update a.run_id (committed a) s.runs;
}

pub write_commit-interactions :
    (a : Attempt) (r : Run) (x : Step) (s : Store)
    → (write_commit a r x s).interactions
      ≡ (settle_interactions a (suc r.version) (before_settling a s)).interactions
unfolding write_commit insert_event
write_commit-interactions a r x s = publish-interactions a a.outcome.events _

write_commit-steps :
    (a : Attempt) (r : Run) (x : Step) (s : Store)
    → (write_commit a r x s).steps ≡ update_steps (is_open_attempt a) (closing a) s.steps
unfolding write_commit insert_event
write_commit-steps a r x s =
    publish-steps a a.outcome.events _ ∙ settle_interactions-steps a (suc r.version) _

find_attempt-finished :
    (a : Attempt) (xs : List Step) (x : Step)
    → find_attempt a.run_id a.step_key a.attempt xs ≡ some x
    → is_step_running x.status ≡ true
    → find_attempt a.run_id a.step_key a.attempt (update_steps (is_open_attempt a) (closing a) xs)
      ≡ some (closing a x)
unfolding find_attempt update_steps is_open_attempt is_attempt finished_step
find_attempt-finished a [] x h p = ground arith
find_attempt-finished a (y ∷ ys) x h p =
    elim (Bool-cases (is_attempt a.run_id a.step_key a.attempt y)) [
      | inl hit ↦ ground (arith, hit)
      | inr miss ↦
          let rest = find_attempt-finished a ys x (ground (arith, miss)) p in
          ground (arith, miss, rest)
    ]

settled-NonePending :
    (a : Attempt) (v : ℕ) (s : Store)
    → is_terminal (target_of a.outcome.verdict)
        || same_status (target_of a.outcome.verdict) needs_attention
      ≡ true
    → NonePending a.run_id (settle_interactions a v s).interactions
unfolding settle_interactions is_terminal
settled-NonePending a v s h =
    let closed = cancel_pending-NonePending a.run_id a.now s in
    elim (Bool-cases (same_status (target_of a.outcome.verdict) waiting_user)) [
      | inl waits ↦ ground arith
      | inr other ↦ rw other (rw h closed)
    ]

commit-open :
    (a : Attempt) (s s' : Store) (r : Run)
    → commit_step a s ≡ ok s'
    → lookup a.run_id s.runs ≡ some r
    → (x : Step) × (find_attempt a.run_id a.step_key a.attempt s.steps ≡ some x)
      × (is_step_running x.status ≡ true)
unfolding commit_step
commit-open a s s' r h e =
    elim (Option-cases (find_attempt a.run_id a.step_key a.attempt s.steps)) [
      | inl missing ↦ ground arith
      | inr (x, found) ↦ (x, found, ground arith)
    ]

committed-unowned : (a : Attempt) (r : Run) → (committed a r).lease_owner ≡ none
unfolding committed outcome_columns
committed-unowned a r = ground arith

unowned-stale :
    (b : Attempt) (s : Store) (r : Run)
    → lookup b.run_id s.runs ≡ some r
    → r.lease_owner ≡ none
    → commit_step b s ≡ err stale_lease
unfolding commit_step accepts_commit holds_lease
unowned-stale b s r e free = ground (arith, e, free)

-- The state after a commit.
pub record Settled (a : Attempt) (r : Run) (s s' : Store) : Type 0 where
  pub run_found : lookup a.run_id s.runs ≡ some r
  pub run_accepted : accepts_commit r a.lease a.outcome.verdict ≡ true
  pub run_committed : lookup a.run_id s'.runs ≡ some (committed a r)
  pub step_closed :
      (x : Step) × (find_attempt a.run_id a.step_key a.attempt s.steps ≡ some x)
      × (is_step_running x.status ≡ true)
      × (find_attempt a.run_id a.step_key a.attempt s'.steps ≡ some (closing a x))
  pub questions_closed :
      is_terminal (target_of a.outcome.verdict)
          || same_status (target_of a.outcome.verdict) needs_attention
        ≡ true
      → NonePending a.run_id s'.interactions
  pub lease_spent : (b : Attempt) → b.run_id ≡ a.run_id → commit_step b s' ≡ err stale_lease

-- If `commit_step` succeeds, its Run was found and accepted the commit under the lease, and the
-- attempt was open; the row is the committed one, and the attempt is closed with the status and the
-- output of the outcome; if the Run ended or needs attention, no question of it is pending; and no
-- further commit for the Run is accepted in the new store, under any lease.
pub commit_step_settles :
    (a : Attempt) (s s' : Store) → commit_step a s ≡ ok s' → (r : Run) × Settled a r s s'
commit_step_settles a s s' h =
    let (r, e, p, w) = commit_step-ok a s s' h in
    let (s₁, prepared, w') = commit_step-write a s s' r h e in
    let (x, open', at_work) = commit-open a s s' r h e in
    let row : lookup a.run_id s'.runs ≡ some (committed a r) =
      rw w (lookup-update_same a.run_id (committed a) s.runs r e) in
    (
      r,
      record {
        run_found = e;
        run_accepted = p;
        run_committed = row;
        step_closed = (
          x,
          open',
          at_work,
          rw (w', write_commit-steps a r (found_step a s) s₁, prepare-steps a _ _ s s₁ prepared)
              (find_attempt-finished a s.steps x open' at_work),
        );
        questions_closed = λ over.
            rw (w', write_commit-interactions a r (found_step a s) s₁)
              (settled-NonePending a (suc r.version) (before_settling a s₁) over);
        lease_spent =
            λ b same. unowned-stale b s' (committed a r) (rw same row) (committed-unowned a r);
      },
    )
