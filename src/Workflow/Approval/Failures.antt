-- ===== src/Workflow/Approval/Failures.antt =====
-- What the end of a step leaves, a failure included (`_failure`, backend/agent/durable_workflow.py).
use ambient_agent.Prelude.{
  String, ℕ, arith, ◌≤◌, ◌≡◌, refl, Bool, true, false, not, ◌&&◌, List, [], ◌∷◌, ◌++◌,
  if◌then◌else◌, inl, inr, Bool-cases,
}
use mathlib.Core.Bool.{true≢false}
use mathlib.Core.Path.{subst, sym, ap, ◌∙◌}
use ambient_agent.Workflow.{
  unlisted, Phase, graph_commit, align_schema, wait_schema, stage_code, verify, wait_override,
  promote, Data, State, Failure, no_effect, Reply, raised, returned, Answers, Event, app_published,
  mutation_committed, phase_retried, Ending, goes_to, waits, succeeds, fails,
}
use ambient_agent.Workflow.Handlers.{with_values}
use ambient_agent.Workflow.Reduce.{
  refused, Outcome, retried, succeeded, failed, Step, may_retry, count_retry, any_compensation,
  rebuilt, doubtful, conflicting, final, conclude_failure, conclude, is_live,
}
use ambient_agent.Workflow.Approval.{
  Justified, Sound, Recorded, Tracked, published, effected, retries_of, Fits, Owed, Owes,
  Fits-later,
}
use ambient_agent.Workflow.Approval.Counts.{retried-Counted}

-- The compensation went through.
abbrev pub is_returned : {A : Type 0} → Reply A → Bool
is_returned (returned x) = true
is_returned (raised f) = false

-- No App is left published, and graph actions that were committed are taken back.
abbrev pub Clean : Answers → List Event → Type 0
Clean a log = (published log ≡ false) × (effected log ≡ true → is_returned a.compensated ≡ true)

abbrev pub is_failed : Outcome → Bool
is_failed (failed f) = true
is_failed o = false

failed-injective : {f g : Failure} → failed f ≡ failed g → f ≡ g
failed-injective e = cc

never_failed : {A : Type 0} (o : Outcome) (f : Failure) → is_failed o ≡ false → o ≡ failed f → A
never_failed o f h e = absurd (true≢false (subst (λ o. is_failed o ≡ false) e h))

-- What a step leaves; the checkpoint fits and counts unless the Run is over.
pub record StepKeeps (a : Answers) (log : List Event) (next : Step) : Type 0 where
  pub justified : Justified (next.events ++ log)
  pub bounded : (p : Phase) → retries_of p (next.events ++ log) ≤ 2
  pub tracked : is_live next.outcome ≡ true → Tracked next.state.values (next.events ++ log)
  pub fits :
      is_live next.outcome ≡ true → Fits next.state.phase next.state.values (next.events ++ log)
  pub honest :
      (f : Failure) → next.outcome ≡ failed f → f.effect ≡ no_effect → Clean a (next.events ++ log)

-- What any step leaves, also one that refused its checkpoint.
pub record StepLeaves (log : List Event) (next : Step) : Type 0 where
  pub justified : Justified (next.events ++ log)
  pub bounded : (p : Phase) → retries_of p (next.events ++ log) ≤ 2
  pub tracked : is_live next.outcome ≡ true → Tracked next.state.values (next.events ++ log)
  pub fits :
      is_live next.outcome ≡ true → Fits next.state.phase next.state.values (next.events ++ log)

pub keeps-StepLeaves :
    (a : Answers) (log : List Event) (next : Step) → StepKeeps a log next → StepLeaves log next
keeps-StepLeaves a log next k = record {
  justified = k.justified;
  bounded = k.bounded;
  tracked = k.tracked;
  fits = k.fits;
}

pub refused-StepLeaves :
    (log : List Event) (s : State) (code : String)
    → Sound s.values log
    → StepLeaves log (refused s code)
refused-StepLeaves log s code (j, c) = record {
  justified = j;
  bounded = λ p. (c.0 p).1;
  tracked = λ e. ground arith;
  fits = λ e. ground arith;
}

pub if-StepLeaves :
    {yes no : Step} (log : List Event) (b : Bool)
    → StepLeaves log yes
    → StepLeaves log no
    → StepLeaves log (if b then yes else no)
if-StepLeaves log true h k = h
if-StepLeaves log false h k = k

module _ (a : Answers) (log : List Event) where
  if-StepKeeps :
      {yes no : Step} (b : Bool)
      → (b ≡ true → StepKeeps a log yes)
      → (b ≡ false → StepKeeps a log no)
      → StepKeeps a log (if b then yes else no)
  if-StepKeeps true h k = h refl
  if-StepKeeps false h k = k refl

  -- A Run that is over leaves no checkpoint to go on from.
  over-StepKeeps :
      (d : Data) (s : State) (f : Failure) (events : List Event)
      → Sound d (events ++ log)
      → (f.effect ≡ no_effect → Clean a (events ++ log))
      → StepKeeps a log (record { state = s; outcome = failed f; events = events })
  over-StepKeeps d s f events (j, c) clean = record {
    justified = j;
    bounded = λ p. (c.0 p).1;
    tracked = λ e. ground arith;
    fits = λ e. ground arith;
    honest = λ g e n. clean (ap (λ x. x.effect) (failed-injective e) ∙ n);
  }

  live-StepKeeps :
      (next : Step)
      → is_failed next.outcome ≡ false
      → Fits next.state.phase next.state.values (next.events ++ log)
      → Sound next.state.values (next.events ++ log)
      → StepKeeps a log next
  live-StepKeeps next h fits (j, c) = record {
    justified = j;
    bounded = λ p. (c.0 p).1;
    tracked = λ e. c;
    fits = λ e. fits;
    honest = λ g e n. never_failed next.outcome g h e;
  }

  -- Nothing that is on record as published is compensated.
  unpublished :
      (d : Data) (log : List Event)
      → Recorded d log
      → d.non_compensable_effect ≡ false
      → published log ≡ false
  unpublished d log r e = elim (Bool-cases (published log)) [
    | inl h ↦ absurd (true≢false (sym (r.1 h) ∙ e))
    | inr h ↦ h
  ]

  compensated-StepKeeps :
      (s : State) (f : Failure) (events : List Event) (reply : Reply (Unit {0}))
      → reply ≡ a.compensated
      → s.values.non_compensable_effect ≡ false
      → Sound s.values (events ++ log)
      → StepKeeps a log (elim reply [
        | returned done ↦ record {
          state = rebuilt s;
          outcome = failed (final no_effect f);
          events = events;
        }
        | raised conflict ↦ record {
          state = s;
          outcome = failed (doubtful (conflicting conflict f));
          events = events;
        }
      ])
  compensated-StepKeeps s f events (returned done) e c sound =
      over-StepKeeps s.values (rebuilt s) (final no_effect f) events sound
        λ n. (unpublished s.values (events ++ log) sound.1.1 c, λ h. ap is_returned (sym e))
  compensated-StepKeeps s f events (raised conflict) e c sound =
      over-StepKeeps s.values s (doubtful (conflicting conflict f)) events sound λ n. ground arith

-- No phase relies on the count of its retries.
retries-Fits :
    (p : Phase) (d : Data) (retries : Phase → ℕ) (log : List Event)
    → Fits p d log
    → Fits p (record d { phase_retries = retries }) log
retries-Fits graph_commit d retries log h = h
retries-Fits align_schema d retries log h = h
retries-Fits wait_schema d retries log h = h
retries-Fits stage_code d retries log h = h
retries-Fits verify d retries log h = h
retries-Fits wait_override d retries log h = h
retries-Fits promote d retries log h = h
retries-Fits unlisted d retries log h = h
retries-Fits p d retries log h = tt

published-effected : (log : List Event) → published log ≡ true → effected log ≡ true
published-effected [] h = h
published-effected (app_published staged contract ∷ log) h = refl
published-effected (mutation_committed actions ∷ log) h = refl
published-effected (e ∷ log) h = published-effected log h

-- A failure after which nothing is compensated.
left-Clean :
    (a : Answers) (d : Data) (log : List Event) (f : Failure) (b : Bool)
    → b ≡ d.effects_committed
    → Recorded d log
    → (if b then doubtful f else final f.effect f).effect ≡ no_effect
    → Clean a log
left-Clean a d log f true e r n = ground arith
left-Clean a d log f false e r n = elim (Bool-cases (effected log)) [
  | inl h ↦ absurd (true≢false (sym (r.0 h) ∙ sym e))
  | inr h ↦ elim (Bool-cases (published log)) [
    | inl k ↦ absurd (true≢false (sym (published-effected log k) ∙ h))
    | inr k ↦ (k, λ k1. absurd (true≢false (sym k1 ∙ h)))
  ]
]

module _ (a : Answers) (p : Phase) (log : List Event) where
  retried-StepKeeps :
      (events : List Event) (s : State) (f : Failure)
      → may_retry s f ≡ true
      → Owed p s (events ++ log)
      → StepKeeps a log (record {
        state =
            with_values s
              (record s.values { phase_retries = count_retry s.phase s.values.phase_retries });
        outcome = retried;
        events = phase_retried s.phase ∷ events;
      })
  retried-StepKeeps events s f e (at, fits, (j, c)) =
      live-StepKeeps a log _ refl
        (subst
          (λ q.
            Fits q (record s.values { phase_retries = count_retry s.phase s.values.phase_retries })
              (phase_retried s.phase ∷ events ++ log))
          (sym at)
          (retries-Fits p s.values (count_retry s.phase s.values.phase_retries)
            (phase_retried s.phase ∷ events ++ log)
            (Fits-later p s.values (phase_retried s.phase) (events ++ log) fits)))
        ((tt, j), (retried-Counted s f (events ++ log) e c.0, c.1))

  pub failure-StepKeeps :
      (events : List Event) (s : State) (f : Failure)
      → Owed p s (events ++ log)
      → StepKeeps a log (conclude_failure a events s f)
  unfolding conclude_failure
  failure-StepKeeps events s f (at, fits, sound) =
      if-StepKeeps a log (may_retry s f) (λ e. retried-StepKeeps events s f e (at, fits, sound))
        λ e.
          if-StepKeeps a log (any_compensation s && not s.values.non_compensable_effect)
            (λ h. compensated-StepKeeps a log s f events a.compensated refl (ground arith) sound)
            λ h.
              over-StepKeeps a log s.values s
                (if s.values.effects_committed then doubtful f else final f.effect f) events sound
                (left-Clean a s.values (events ++ log) f s.values.effects_committed refl sound.1.1)

  pub conclude-StepKeeps :
      (events : List Event) (s : State) (e : Ending)
      → Owes p e s (events ++ log)
      → StepKeeps a log (conclude a events s e)
  unfolding conclude
  conclude-StepKeeps events s (goes_to q) (fits, sound) = live-StepKeeps a log _ refl fits sound
  conclude-StepKeeps events s waits (fits, sound) = live-StepKeeps a log _ refl fits sound
  conclude-StepKeeps events s succeeds (j, c) = record {
    justified = j;
    bounded = λ q. (c.0 q).1;
    tracked = λ e. c;
    fits = λ e. ground arith;
    honest = λ g e n. never_failed succeeded g refl e;
  }
  conclude-StepKeeps events s (fails f) o = failure-StepKeeps events s f o
