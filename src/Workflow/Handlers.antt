-- ===== src/Workflow/Handlers.antt =====
-- The phase handlers of backend/agent/durable_workflow.py, one function for each `_phase_` method.
use ambient_agent.Prelude.{
  ℕ, suc, Bool, true, false, ◌&&◌, Option, none, some, List, [], ◌∷◌, if◌then◌else◌, get_elem?,
}
use ambient_agent.Prelude.Texts.{Text}
use ambient_agent.Json.{Json, truthy}
use ambient_agent.Context.{is_space}
use ambient_agent.Workflow.{
  Phase, clarify, converse, graph_query, graph_preflight, wait_graph_approval, graph_commit,
  multi_preflight, multi_dispatch, plan, IntentKind, Intent, SubIntent, Data, State, failing,
  raised, returned, Action, approve, Response, Interaction, missing, unresolved, cancelled,
  resolved, Answers, Event, mutation_approved, mutation_committed, goes_to, waits, succeeds, fails,
  Reduced, ends, ends_with, reports, call, noting, answered,
}

unfoldable pub is_blank : Text → Bool
unfolding is_space
is_blank [] = true
is_blank (c ∷ cs) = is_space c && is_blank cs

-- `text or other`
abbrev pub or_text : Text → Text → Text
or_text [] other = other
or_text (c ∷ cs) other = c ∷ cs

abbrev pub text_of : Option Text → Text
text_of none = []
text_of (some t) = t

-- A text or an object that is falsy counts as missing.
abbrev pub kept_text : Option Text → Option Text
kept_text none = none
kept_text (some []) = none
kept_text (some (c ∷ cs)) = some (c ∷ cs)

abbrev pub kept_json : Option Json → Option Json
kept_json none = none
kept_json (some v) = if truthy v then some v else none

abbrev pub or_json : Option Json → Json → Json
or_json none other = other
or_json (some v) other = if truthy v then v else other

-- `_phase_for_intent`
abbrev pub phase_for_intent : Intent → Phase
phase_for_intent i = elim i.kind [
  | IntentKind.converse_intent ↦ converse
  | IntentKind.graph_query_intent ↦ graph_query
  | IntentKind.graph_mutation ↦ graph_preflight
  | IntentKind.widget_create ↦ plan
  | IntentKind.widget_modify ↦ plan
  | IntentKind.multi_intent ↦ multi_preflight
  | IntentKind.plan_and_act ↦ multi_preflight
  | IntentKind.clarify_intent ↦ clarify
]

-- Removes `_WIDGET_KEYS`.
abbrev pub without_widget : Data → Data
without_widget d = record d {
  plan_candidate = none;
  plan_rework_feedback = none;
  plan_schema_context = none;
  approved_plan = none;
  schema_candidate = none;
  approved_schema = none;
  runtime_contract = none;
  code_feedback = none;
  staged_app = none;
  verification_report = none;
  verification_passed = false;
}

abbrev pub with_values : State → Data → State
with_values s d = record s { values = d }

-- `state.data.pop("effect_in_flight", None)`
abbrev pub settled : State → State
settled s = with_values s (record s.values { effect_in_flight = false })

-- `_wait`: the phase is set, and the id of the new interaction.
abbrev pub asks : Phase → State → Reduced
asks phase s = ends (record s { phase = phase; pending = true }) waits

-- `_current_intent`
abbrev pub with_intent : State → (Intent → Reduced) → Reduced
with_intent s next = elim s.values.current_intent [
  | some i ↦ next i
  | none ↦ elim s.intent [
    | some r ↦ next r.intent
    | none ↦ ends s (fails (failing "intent_missing"))
  ]
]

abbrev pub with_app : State → Intent → Reduced → Reduced
with_app s i next = elim i.app_id [
  | none ↦ ends s (fails (failing "app_id_missing"))
  | some id ↦ next
]

-- `_response`, and the error of a phase that has none.
abbrev pub with_response : Interaction → State → (Response → State → Reduced) → Reduced
with_response interaction s next =
    if s.pending
    then (elim interaction [
      | missing ↦ ends s (fails (failing "interaction_missing"))
      | unresolved ↦ ends s (fails (failing "interaction_unresolved"))
      | cancelled ↦ ends s (fails (failing "interaction_cancelled"))
      | resolved r ↦ noting (answered s.phase r) (next r (record s { pending = false }))
    ])
    else ends s (fails (failing "interaction_unresolved"))

-- `_finish_subflow`
unfoldable pub finish_subflow : List Event → State → Reduced
finish_subflow events s =
    if s.values.return_to_multi
    then ends_with events
        (with_values s (record (without_widget s.values) {
          multi_results = suc s.values.multi_results;
          multi_index = suc s.values.multi_index;
          current_intent = none;
          return_to_multi = false;
          graph_actions = none;
          pre_extend_schema_props = none;
        }))
        (goes_to multi_dispatch)
    else ends_with events s succeeds

unfoldable pub phase_route : Answers → State → Reduced
phase_route a s = call s a.routed λ root.
    if root.deprecated
    then ends s (fails (failing "deprecated_intent"))
    else ends (record s { intent = some root }) (goes_to (phase_for_intent root.intent))

unfoldable pub phase_clarify : State → Reduced
phase_clarify s = with_intent s λ i. ends s succeeds

unfoldable pub phase_converse : Answers → State → Reduced
phase_converse a s = with_intent s λ i. call s a.conversed λ done. finish_subflow [] s

unfoldable pub phase_graph_query : Answers → State → Reduced
phase_graph_query a s = with_intent s λ i. call s a.queried λ done. finish_subflow [] s

unfoldable pub phase_graph_preflight : Answers → State → Reduced
phase_graph_preflight a s = with_intent s λ i. call s a.preflighted_actions λ actions.
    asks wait_graph_approval (with_values s (record s.values { graph_actions = some actions }))

-- The actions that the user was shown are those of the checkpoint.
abbrev pub approved_actions : State → Option Json → Reduced
approved_actions s none = ends s (goes_to graph_commit)
approved_actions s (some actions) = reports s (goes_to graph_commit) (mutation_approved actions)

abbrev pub answer_mutation : Action → State → Reduced
answer_mutation approve s = approved_actions s s.values.graph_actions
answer_mutation action s = ends s (fails (failing "approval_denied"))

unfoldable pub phase_wait_graph_approval : Answers → State → Reduced
phase_wait_graph_approval a s = with_response a.interaction s λ r s'. answer_mutation r.action s'

abbrev pub after_commit : State → Json → Json → Reduced
after_commit s actions compensation = finish_subflow (mutation_committed actions ∷ []) (
    with_values s (record s.values {
      effect_in_flight = false;
      graph_compensations = compensation ∷ s.values.graph_compensations;
      effects_committed = true;
    }))

-- A checkpoint without actions commits the empty batch, which the graph store refuses.
unfoldable pub phase_graph_commit : Answers → State → Reduced
unfolding finish_subflow
phase_graph_commit a s = elim s.values.graph_actions [
  | none ↦ ends (settled s) (fails (failing "ValueError"))
  | some actions ↦ elim (a.actions_committed actions) [
    | raised f ↦ ends (settled s) (fails f)
    | returned compensation ↦ after_commit s actions compensation
  ]
]

unfoldable pub phase_multi_preflight : Answers → State → Reduced
phase_multi_preflight a s = elim s.intent [
  | none ↦ ends s (fails (failing "multi_intent_empty"))
  | some root ↦ elim root.sub_intents [
    | [] ↦ ends s (fails (failing "multi_intent_empty"))
    | sub ∷ subs ↦ call s a.preflighted_intents λ intents.
        ends (with_values s (record s.values { multi_preflight_intents = some intents }))
          (goes_to multi_dispatch)
  ]
]

abbrev pub kept_or : {A : Type 0} → Option A → Option A → Option A
kept_or none old = old
kept_or (some new) old = some new

-- The start of a step of the saga.
abbrev pub starts_step : Intent → SubIntent → State → Reduced
starts_step i sub s =
    ends
      (with_values s (record (without_widget s.values) {
        current_intent = some i;
        return_to_multi = true;
        graph_actions = none;
        pre_extend_schema_props =
            kept_or (kept_json sub.extend_schema_props) s.values.pre_extend_schema_props;
        code_feedback = kept_text sub.feedback;
      }))
      (goes_to (phase_for_intent i))

abbrev pub step_at : Option (List Intent) → ℕ → Option Intent
step_at none n = none
step_at (some intents) n = get_elem? intents n

unfoldable pub phase_multi_dispatch : State → Reduced
phase_multi_dispatch s = elim s.intent [
  | none ↦ ends s succeeds
  | some root ↦ elim (get_elem? root.sub_intents s.values.multi_index) [
    | none ↦ ends s succeeds
    | some sub ↦ elim (step_at s.values.multi_preflight_intents s.values.multi_index) [
      | none ↦ ends s (fails (failing "multi_preflight_missing"))
      | some i ↦ starts_step i sub s
    ]
  ]
]
