-- ===== src/Workflow/Approval/Counts.antt =====
-- The count of the retries in a checkpoint (`phase_retries`, backend/agent/durable_workflow.py).
use ambient_agent.Prelude.{
  ℕ, suc, arith, ◌≤◌, ◌≡◌, refl, Bool, true, false, List, [], ◌∷◌, none, some, get_elem?,
  if◌then◌else◌,
}
use mathlib.Core.Path.{subst, sym, ap, ◌∙◌}
use ambient_agent.Workflow.{
  unlisted, Phase, route, clarify, converse, graph_query, graph_preflight, wait_graph_approval,
  graph_commit, multi_preflight, multi_dispatch, plan, wait_plan, align_schema, wait_schema,
  stage_code, verify, wait_override, promote, number_of, same_phase, State, Failure, Event,
  phase_retried,
}
use ambient_agent.Workflow.Reduce.{may_retry, count_retry}
use ambient_agent.Workflow.Approval.{retries_of, Counted}

abbrev all_phases : List Phase
all_phases =
    route ∷ clarify ∷ converse ∷ graph_query ∷ graph_preflight ∷ wait_graph_approval ∷ graph_commit
    ∷ multi_preflight ∷ multi_dispatch ∷ plan ∷ wait_plan ∷ align_schema ∷ wait_schema ∷ stage_code
    ∷ verify ∷ wait_override ∷ promote ∷ unlisted ∷ []

abbrev phase_at : ℕ → Phase
phase_at n = elim (get_elem? all_phases n) [ none ↦ promote | some p ↦ p ]

phase_at-number_of : (p : Phase) → phase_at (number_of p) ≡ p
phase_at-number_of route = refl
phase_at-number_of clarify = refl
phase_at-number_of converse = refl
phase_at-number_of graph_query = refl
phase_at-number_of graph_preflight = refl
phase_at-number_of wait_graph_approval = refl
phase_at-number_of graph_commit = refl
phase_at-number_of multi_preflight = refl
phase_at-number_of multi_dispatch = refl
phase_at-number_of plan = refl
phase_at-number_of wait_plan = refl
phase_at-number_of align_schema = refl
phase_at-number_of wait_schema = refl
phase_at-number_of stage_code = refl
phase_at-number_of verify = refl
phase_at-number_of wait_override = refl
phase_at-number_of promote = refl
phase_at-number_of unlisted = refl

same_phase-eq : (p q : Phase) → same_phase p q ≡ true → p ≡ q
same_phase-eq p q h =
    let e : number_of p ≡ number_of q = ground arith in
    sym (phase_at-number_of p) ∙ ap phase_at e ∙ phase_at-number_of q

below : (s : State) (f : Failure) → may_retry s f ≡ true → suc (s.values.phase_retries s.phase) ≤ 2
unfolding may_retry
below s f h = ground arith

counted_more :
    (b : Bool) (r m : ℕ)
    → r ≡ m
    → r ≤ 2
    → (b ≡ true → suc m ≤ 2)
    → ((if b then suc r else r) ≡ (if b then suc m else m)) × ((if b then suc r else r) ≤ 2)
counted_more true r m e le h = (ap suc e, subst (λ k. suc k ≤ 2) (sym e) (h refl))
counted_more false r m e le h = (e, le)

-- A retry that `may_retry` allows is counted, and is the second one at most.
pub retried-Counted :
    (s : State) (f : Failure) (log : List Event)
    → may_retry s f ≡ true
    → Counted s.values log
    → Counted
        (record s.values { phase_retries = count_retry s.phase s.values.phase_retries })
        (phase_retried s.phase ∷ log)
retried-Counted s f log h c p =
    counted_more (same_phase s.phase p) (retries_of p log) (s.values.phase_retries p) (c p).0
      (c p).1
      λ e. subst (λ q. suc (s.values.phase_retries q) ≤ 2) (same_phase-eq s.phase p e) (below s f h)
