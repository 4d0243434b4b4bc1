-- ===== src/Runs/Guards.antt =====
-- When `transition` succeeds, what an ending leaves, and how attempts are numbered.
use ambient_agent.Prelude.{
  ℕ, suc, ◌≤◌, String, ◌≡◌, refl, inl, inr, true, false, Option, none, some, List, [], ◌∷◌, ◌++◌,
  arith, text_refl, Bool-cases, Option-cases,
}
use ambient_agent.Prelude.Table.{lookup, update}
use ambient_agent.Prelude.Keys.{lookup-update_same}
use ambient_agent.Runs.Status.{Status, waiting_user, is_terminal, same_status}
use ambient_agent.Runs.Rows.{Run, Step, Store}
use ambient_agent.Runs.Errors.{ok}
use ambient_agent.Runs.Events.{Lease, insert_event}
use ambient_agent.Runs.Steps.{last_attempt, begin_step_attempt, is_attempt, next_attempt, new_step}
use ambient_agent.Runs.Transition.{Assignment, transition, transitioned, releases_lease, settle}
use ambient_agent.Runs.Commit.{find_attempt}
use ambient_agent.Runs.Quiet.{NonePending, cancel_pending-NonePending}
use ambient_agent.Runs.Evolution.Operations.{transition-ok}

ended-settled :
    (id : String) (status : Status) (r : Run) (now : ℕ) (s : Store)
    → is_terminal status ≡ true
    → NonePending id (settle id status r now s).interactions
unfolding settle is_terminal
ended-settled id status r now s over = elim (Bool-cases (same_status status waiting_user)) [
  | inl waits ↦ ground arith
  | inr other ↦ rw other (rw over (cancel_pending-NonePending id now s))
]

transition-interactions :
    (id : String) (status : Status) (lease : Option Lease) (version : Option ℕ)
    (updates : List Assignment) (now : ℕ) (s s' : Store) (r : Run)
    → transition id status lease version updates now s ≡ ok s'
    → lookup id s.runs ≡ some r
    → s'.interactions
      ≡ (settle id status r now
          (record s { runs = update id (transitioned status updates now) s.runs })).interactions
unfolding transition insert_event
transition-interactions id status lease version updates now s s' r h e = ground (arith, h, e)

transitioned-ended :
    (status : Status) (updates : List Assignment) (now : ℕ) (r : Run)
    → is_terminal status ≡ true
    → ((transitioned status updates now r).status ≡ status)
      × ((transitioned status updates now r).lease_owner ≡ none)
      × ((transitioned status updates now r).finished_at ≡ some now)
unfolding transitioned releases_lease
transitioned-ended status updates now r over = (refl, ground (arith, over), ground (arith, over))

-- After a `transition` to a terminal status the Run has that status, no lease and the time of the
-- call as its end, and no question of it is pending.
pub transition_ends :
    (id : String) (status : Status) (lease : Option Lease) (version : Option ℕ)
    (updates : List Assignment) (now : ℕ) (s s' : Store)
    → transition id status lease version updates now s ≡ ok s'
    → is_terminal status ≡ true
    → (r' : Run) × (lookup id s'.runs ≡ some r')
      × (r'.status ≡ status)
      × (r'.lease_owner ≡ none)
      × (r'.finished_at ≡ some now)
      × NonePending id s'.interactions
transition_ends id status lease version updates now s s' h over =
    let (r, e, p, w) = transition-ok id status lease version updates now s s' h in
    let (st, free, done) = transitioned-ended status updates now r over in
    (
      transitioned status updates now r,
      rw w (lookup-update_same id (transitioned status updates now) s.runs r e),
      st,
      free,
      done,
      rw (transition-interactions id status lease version updates now s s' r h e)
          (ended-settled id status r now _ over),
    )

abbrev past : Option ℕ → ℕ
past none = 0
past (some n) = suc n

module _ (run_id key : String) where
  past-tail :
      (n : ℕ) (x : Step) (xs : List Step)
      → past (last_attempt run_id key (x ∷ xs)) ≤ n
      → past (last_attempt run_id key xs) ≤ n
  unfolding last_attempt
  past-tail n x xs h = elim (Option-cases (last_attempt run_id key xs)) [
    | inl e ↦ ground (arith, e)
    | inr (m, e) ↦ ground (arith, e, h)
  ]

  past-head :
      (n : ℕ) (x : Step) (xs : List Step)
      → past (last_attempt run_id key (x ∷ xs)) ≤ n
      → is_attempt run_id key n x ≡ false
  unfolding last_attempt is_attempt
  past-head n x xs h = elim (Option-cases (last_attempt run_id key xs)) [
    | inl e ↦ ground (arith, e, h)
    | inr (m, e) ↦ ground (arith, e, h)
  ]

  -- An attempt past the last one has no row yet.
  past_last-fresh :
      (n : ℕ) (xs : List Step)
      → past (last_attempt run_id key xs) ≤ n
      → find_attempt run_id key n xs ≡ none
  unfolding find_attempt
  past_last-fresh n [] h = refl
  past_last-fresh n (x ∷ xs) h = rw (past-head n x xs h) (past_last-fresh n xs (past-tail n x xs h))

  past-append :
      (xs : List Step) (x : Step)
      → x.run_id ≡ run_id
      → x.step_key ≡ key
      → past (last_attempt run_id key xs) ≤ x.attempt
      → last_attempt run_id key (xs ++ x ∷ []) ≡ some x.attempt
  unfolding last_attempt
  past-append [] x own same h = ground (arith, own, same, text_refl run_id, text_refl key)
  past-append (y ∷ xs) x own same h =
      let rest = past-append xs x own same (past-tail x.attempt y xs h) in
      let head = past-head x.attempt y xs h in
      elim (Option-cases (last_attempt run_id key xs)) [
        | inl e ↦ ground (arith, e, h, rest)
        | inr (m, e) ↦ ground (arith, e, h, rest)
      ]

begin_step_attempt-steps :
    (id key : String) (lease : Option Lease) (now : ℕ) (s s' : Store) (n : ℕ)
    → begin_step_attempt id key lease now s ≡ ok (s', n)
    → (n ≡ next_attempt (last_attempt id key s.steps))
      × (s'.steps ≡ s.steps ++ new_step id key n now ∷ [])
unfolding begin_step_attempt insert_event
begin_step_attempt-steps id key lease now s s' n h = ground arith

-- The attempt that `begin_step_attempt` returns had no row before; it is now the last attempt of
-- the step.
pub begin_step_attempt_fresh :
    (id key : String) (lease : Option Lease) (now : ℕ) (s s' : Store) (n : ℕ)
    → begin_step_attempt id key lease now s ≡ ok (s', n)
    → (find_attempt id key n s.steps ≡ none) × (last_attempt id key s'.steps ≡ some n)
begin_step_attempt_fresh id key lease now s s' n h =
    let (number, rows) = begin_step_attempt-steps id key lease now s s' n h in
    let past' : past (last_attempt id key s.steps) ≤ n = ground arith in
    (
      past_last-fresh id key n s.steps past',
      rw rows (past-append id key s.steps (new_step id key n now) refl refl past'),
    )
