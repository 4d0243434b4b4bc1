-- ===== src/Workflow/Approval/Runs.antt =====
-- Nothing goes live, and no graph action is committed, that the user did not approve: over the runs of
-- backend/agent/durable_workflow.py.
use ambient_agent.Prelude.{if◌then◌else◌, ◌==◌, true, arith, ◌≤◌, ◌≡◌, refl, List, [], ◌++◌}
use mathlib.Core.Path.{subst, sym}
use ambient_agent.Workflow.{
  unlisted, is_listed, Data, Phase, route, clarify, converse, graph_query, graph_preflight,
  wait_graph_approval, graph_commit, multi_preflight, multi_dispatch, plan, wait_plan, align_schema,
  wait_schema, stage_code, verify, wait_override, promote, State, Reply, raised, returned, Answers,
  Event,
}
use ambient_agent.Workflow.Reduce.{
  refused, current_version, reduce_read, is_own, handle, conclude_failure, concluded, reduce_once,
  Reach, begins, steps,
}
use ambient_agent.Workflow.Approval.{Fits, Justified, retries_of, Ready, Keeps, owed}
use ambient_agent.Workflow.Approval.Failures.{
  refused-StepLeaves, keeps-StepLeaves, if-StepLeaves, StepLeaves, StepKeeps, failure-StepKeeps,
  conclude-StepKeeps,
}
use ambient_agent.Workflow.Approval.Phases.{
  route-Keeps, clarify-Keeps, converse-Keeps, query-Keeps, graph_preflight-Keeps,
  graph_approval-Keeps, graph_commit-Keeps, multi_preflight-Keeps, multi_dispatch-Keeps,
}
use ambient_agent.Workflow.Approval.Widget.{
  plan-Keeps, wait_plan-Keeps, align_schema-Keeps, wait_schema-Keeps, stage_code-Keeps,
}
use ambient_agent.Workflow.Approval.Publication.{verify-Keeps, wait_override-Keeps, promote-Keeps}

handle-Keeps :
    (p : Phase) (a : Answers) (s : State) (log : List Event)
    → Ready p s log
    → Keeps p log (handle p a s)
unfolding handle
handle-Keeps route a s log h = route-Keeps a h
handle-Keeps clarify a s log h = clarify-Keeps a h
handle-Keeps converse a s log h = converse-Keeps a h
handle-Keeps graph_query a s log h = query-Keeps a h
handle-Keeps graph_preflight a s log h = graph_preflight-Keeps a h
handle-Keeps wait_graph_approval a s log h = graph_approval-Keeps a h
handle-Keeps graph_commit a s log h = graph_commit-Keeps a h
handle-Keeps multi_preflight a s log h = multi_preflight-Keeps a h
handle-Keeps multi_dispatch a s log h = multi_dispatch-Keeps a h
handle-Keeps plan a s log h = plan-Keeps a h
handle-Keeps wait_plan a s log h = wait_plan-Keeps a h
handle-Keeps align_schema a s log h = align_schema-Keeps a h
handle-Keeps wait_schema a s log h = wait_schema-Keeps a h
handle-Keeps stage_code a s log h = stage_code-Keeps a h
handle-Keeps verify a s log h = verify-Keeps a h
handle-Keeps wait_override a s log h = wait_override-Keeps a h
handle-Keeps promote a s log h = promote-Keeps a h
handle-Keeps unlisted a s log h = absurd h.fits

-- A phase that a checkpoint of a Run can have is one with a handler.
listed-Fits : (p : Phase) (d : Data) (log : List Event) → Fits p d log → is_listed p ≡ true
listed-Fits unlisted d log h = absurd h
listed-Fits p d log h = refl

read-StepKeeps :
    (a : Answers) (s : State) (log : List Event) (reply : Reply (Unit {0}))
    → Ready s.phase s log
    → StepKeeps a log (elim reply [
      | raised f ↦ conclude_failure a [] s f
      | returned done ↦
          if is_listed s.phase
          then concluded a (handle s.phase a s)
          else refused s "unknown_workflow_phase"
    ])
read-StepKeeps a s log (raised f) h = failure-StepKeeps a s.phase log [] s f (owed h)
read-StepKeeps a s log (returned done) h =
    let r = handle s.phase a s in
    subst (λ b. StepKeeps a log (if b then concluded a r else refused s "unknown_workflow_phase"))
      (sym (listed-Fits s.phase s.values log h.fits))
      (conclude-StepKeeps a s.phase log r.events r.state r.ending
        (handle-Keeps s.phase a s log h).keeps)

reduce_read-StepKeeps :
    (a : Answers) (s : State) (log : List Event)
    → Ready s.phase s log
    → StepKeeps a log (reduce_read a s)
unfolding reduce_read
reduce_read-StepKeeps a s log h = read-StepKeeps a s log a.admitted h

step-StepLeaves :
    (a : Answers) (s : State) (log : List Event)
    → Ready s.phase s log
    → StepLeaves log (reduce_once a s)
unfolding reduce_once
step-StepLeaves a s log h =
    if-StepLeaves log (is_own a s)
      (keeps-StepLeaves a log (reduce_read a s) (reduce_read-StepKeeps a s log h))
      (if-StepLeaves log (s.workflow_version == current_version)
        (refused-StepLeaves log s "session_mismatch" h.sound)
        (refused-StepLeaves log s "unsupported_workflow_version" h.sound))

-- What holds at every checkpoint of a Run that is still going.
reached-Ready : {s : State} {log : List Event} → Reach s log → Ready s.phase s log
reached-Ready (begins version session) = record {
  at = refl;
  fits = tt;
  sound = (tt, ((λ p. (refl, ground arith)), (λ e. ground arith, λ e. ground arith)));
}
reached-Ready (steps {s} {log} a r next e live) =
    let k = subst (λ n. StepLeaves log n) (sym e) (step-StepLeaves a s log (reached-Ready r)) in
    record { at = refl; fits = k.fits live; sound = (k.justified, k.tracked live) }

-- Nothing goes live, and no graph action is committed, that was not approved. In every history of a
-- Run, from a new checkpoint through any number of steps with any answers of the user, the models and
-- the services, and for one step more: before an App is published, a plan was approved, a schema
-- proposal with the runtime contract that it is published with was approved, and this very artifact
-- was taken as verified against this very contract; before graph actions are committed, exactly these
-- actions were approved. Each approval is recorded right after a response of the user was read, in the
-- phase that asks for it, whose action is `approve`; and an artifact is taken as verified right after a
-- verification of it, against that contract, that was clean.
pub reported-Justified :
    {s : State} {log : List Event}
    → Reach s log
    → (a : Answers) → Justified ((reduce_once a s).events ++ log)
reported-Justified {s} {log} r a = (step-StepLeaves a s log (reached-Ready r)).justified

-- A Run cannot spin on a phase that fails: in every history, a step more included, a phase is
-- retried twice at most, however often it fails and whatever phases come between; and while the Run
-- goes on, its checkpoint has counted each of these retries.
pub retries_bounded :
    {s : State} {log : List Event}
    → Reach s log
    → (a : Answers) (p : Phase)
    → (retries_of p ((reduce_once a s).events ++ log) ≤ 2)
      × (s.values.phase_retries p ≡ retries_of p log)
retries_bounded {s} {log} r a p =
    ((step-StepLeaves a s log (reached-Ready r)).bounded p, sym ((reached-Ready r).sound.1.0 p).0)
