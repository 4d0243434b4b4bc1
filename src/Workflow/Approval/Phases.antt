-- ===== src/Workflow/Approval/Phases.antt =====
-- The phases around the App: what each owes to the next phase (backend/agent/durable_workflow.py).
use ambient_agent.Prelude.{
  ◌≡◌, refl, inl, false, Option, none, some, List, [], ◌∷◌, ◌++◌, get_elem?,
}
use mathlib.Core.Path.{subst}
use ambient_agent.Json.{Json}
use ambient_agent.Workflow.{
  answered, Phase, route, clarify, converse, graph_query, graph_preflight, wait_graph_approval,
  graph_commit, multi_preflight, multi_dispatch, Intent, IntentKind, Data, State, Reply, raised,
  returned, Action, approve, Response, Interaction, Answers, Event, mutation_approved,
  mutation_committed, fails, Reduced, ends,
}
use ambient_agent.Workflow.Approval.{
  ApprovedIn, noting-Keeps, answered-Ready, Sound, Approved, Fits, Ready, Keeps, call-Keeps,
  option-Keeps, if-Keeps, list-Keeps, interaction-Keeps, kept, owed, Approved-some,
}
use ambient_agent.Workflow.Handlers.{
  settled, with_intent, with_app, with_response, finish_subflow, phase_for_intent, phase_route,
  phase_clarify, phase_converse, phase_graph_query, phase_graph_preflight, approved_actions,
  answer_mutation, after_commit, phase_wait_graph_approval, phase_graph_commit,
  phase_multi_preflight, step_at, phase_multi_dispatch,
}

-- A phase that starts an intent relies on nothing.
kind-Fits :
    (kind : IntentKind) (d : Data) (log : List Event)
    → Fits (phase_for_intent (record { kind = kind; app_id = none })) d log
kind-Fits IntentKind.converse_intent d log = tt
kind-Fits IntentKind.graph_query_intent d log = tt
kind-Fits IntentKind.graph_mutation d log = tt
kind-Fits IntentKind.widget_create d log = tt
kind-Fits IntentKind.widget_modify d log = tt
kind-Fits IntentKind.multi_intent d log = tt
kind-Fits IntentKind.plan_and_act d log = tt
kind-Fits IntentKind.clarify_intent d log = tt

entry-Fits : (i : Intent) (d : Data) (log : List Event) → Fits (phase_for_intent i) d log
entry-Fits i d log = kind-Fits i.kind d log

module _ {p : Phase} {log : List Event} {s : State} (h : Ready p s log) where
  pub intent-Keeps :
      {next : Intent → Reduced}
      → ((i : Intent) → Keeps p log (next i))
      → Keeps p log (with_intent s next)
  intent-Keeps k =
      option-Keeps s.values.current_intent (option-Keeps s.intent (kept (owed h)) λ r e. k r.intent)
        (λ i e. k i)

  pub app-Keeps : {next : Reduced} (i : Intent) → Keeps p log next → Keeps p log (with_app s i next)
  app-Keeps i k = option-Keeps i.app_id (kept (owed h)) λ id e. k

  pub response-Keeps :
      (next : Response → State → Reduced) (interaction : Interaction)
      → ((r : Response)
          → Ready p (record s { pending = false }) (answered s.phase r ∷ log)
          → Keeps p (answered s.phase r ∷ log) (next r (record s { pending = false })))
      → Keeps p log (with_response interaction s next)
  response-Keeps next interaction k =
      if-Keeps s.pending
        (interaction-Keeps interaction (kept (owed h)) (kept (owed h)) (kept (owed h))
          λ r. noting-Keeps (answered s.phase r) (k r (read-Ready r)))
        (kept (owed h))
    where
      read-Ready :
          (r : Response) → Ready p (record s { pending = false }) (answered s.phase r ∷ log)
      read-Ready r =
          let k = answered-Ready s.phase r h in record { at = k.at; fits = k.fits; sound = k.sound }

  -- The end of a flow owes nothing but the events that it reports.
  pub finish-Keeps :
      (events : List Event) (t : State)
      → Sound t.values (events ++ log)
      → Keeps p log (finish_subflow events t)
  unfolding finish_subflow
  finish-Keeps events t j = if-Keeps t.values.return_to_multi (kept (tt, j)) (kept j)

module _ {log : List Event} {s : State} where
  approved-Keeps :
      (v : Option Json)
      → v ≡ s.values.graph_actions
      → ApprovedIn wait_graph_approval log
      → Ready wait_graph_approval s log
      → Keeps wait_graph_approval log (approved_actions s v)
  approved-Keeps none e said h = kept (subst (λ v. Approved v log) e tt, h.sound)
  approved-Keeps (some x) e said h = kept (
    subst (λ v. Approved v (mutation_approved x ∷ log)) e (inl refl),
    ((said, h.sound.0), h.sound.1),
  )

  mutation-Keeps :
      (action : Action)
      → (action ≡ approve → ApprovedIn wait_graph_approval log)
      → Ready wait_graph_approval s log
      → Keeps wait_graph_approval log (answer_mutation action s)
  mutation-Keeps approve said h = approved-Keeps s.values.graph_actions refl (said refl) h
  mutation-Keeps action said h = kept (owed h)

module _ (a : Answers) {log : List Event} {s : State} where
  pub route-Keeps : Ready route s log → Keeps route log (phase_route a s)
  unfolding phase_route
  route-Keeps h = call-Keeps a.routed h λ root.
      if-Keeps root.deprecated (kept (owed h)) (kept (entry-Fits root.intent s.values log, h.sound))

  pub clarify-Keeps : Ready clarify s log → Keeps clarify log (phase_clarify s)
  unfolding phase_clarify
  clarify-Keeps h = intent-Keeps h λ i. kept h.sound

  pub converse-Keeps : Ready converse s log → Keeps converse log (phase_converse a s)
  unfolding phase_converse
  converse-Keeps h =
      intent-Keeps h λ i. call-Keeps a.conversed h λ done. finish-Keeps h [] s h.sound

  pub query-Keeps : Ready graph_query s log → Keeps graph_query log (phase_graph_query a s)
  unfolding phase_graph_query
  query-Keeps h = intent-Keeps h λ i. call-Keeps a.queried h λ done. finish-Keeps h [] s h.sound

  pub graph_preflight-Keeps :
      Ready graph_preflight s log → Keeps graph_preflight log (phase_graph_preflight a s)
  unfolding phase_graph_preflight
  graph_preflight-Keeps h =
      intent-Keeps h λ i. call-Keeps a.preflighted_actions h λ actions. kept (tt, h.sound)

  pub graph_approval-Keeps :
      Ready wait_graph_approval s log
      → Keeps wait_graph_approval log (phase_wait_graph_approval a s)
  unfolding phase_wait_graph_approval
  graph_approval-Keeps h =
      response-Keeps h (λ r s'. answer_mutation r.action s') a.interaction
        λ r h'. mutation-Keeps r.action (λ e. (h.at, e)) h'

  committed-Keeps :
      Ready graph_commit s log
      → (actions : Json) → s.values.graph_actions ≡ some actions
      → (reply : Reply Json)
      → Keeps graph_commit log (elim reply [
        | raised f ↦ ends (settled s) (fails f)
        | returned compensation ↦ after_commit s actions compensation
      ])
  committed-Keeps h actions e (raised f) = kept (owed h)
  committed-Keeps h actions e (returned c) = finish-Keeps h (mutation_committed actions ∷ []) _ (
    (Approved-some s.values.graph_actions actions log e h.fits, h.sound.0),
    (h.sound.1.0, (λ e. refl, h.sound.1.1.1)),
  )

  pub graph_commit-Keeps :
      Ready graph_commit s log → Keeps graph_commit log (phase_graph_commit a s)
  unfolding phase_graph_commit
  graph_commit-Keeps h =
      option-Keeps s.values.graph_actions (kept (owed h))
        λ actions e. committed-Keeps h actions e (a.actions_committed actions)

  pub multi_preflight-Keeps :
      Ready multi_preflight s log → Keeps multi_preflight log (phase_multi_preflight a s)
  unfolding phase_multi_preflight
  multi_preflight-Keeps h = option-Keeps s.intent (kept (owed h)) λ root e.
      list-Keeps root.sub_intents (kept (owed h))
        (call-Keeps a.preflighted_intents h λ intents. kept (tt, h.sound))

  pub multi_dispatch-Keeps :
      Ready multi_dispatch s log → Keeps multi_dispatch log (phase_multi_dispatch s)
  unfolding phase_multi_dispatch
  multi_dispatch-Keeps h = option-Keeps s.intent (kept h.sound) λ root e.
      option-Keeps (get_elem? root.sub_intents s.values.multi_index) (kept h.sound) λ sub e1.
        option-Keeps (step_at s.values.multi_preflight_intents s.values.multi_index) (kept (owed h))
          λ i e2. kept (entry-Fits i _ log, h.sound)
