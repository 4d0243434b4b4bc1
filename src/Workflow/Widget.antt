-- ===== src/Workflow/Widget.antt =====
-- The phases that make an App, backend/agent/durable_workflow.py: from the plan to the publication.
use ambient_agent.Prelude.{Bool, true, false, none, some, List, [], ◌∷◌, take, if◌then◌else◌}
use ambient_agent.Prelude.Texts.{Text, codes}
use ambient_agent.Json.{Json, obj, end}
use ambient_agent.Context.{strip}
use ambient_agent.Workflow.{
  plan, wait_plan, align_schema, wait_schema, stage_code, verify, wait_override, promote, State,
  Failure, failing, in_doubt, raised, returned, Action, approve, refine, rework_plan, rework_code,
  rework_schema, Response, Coded, generated, draft, stopped, Diff, Answers, Event, plan_approved,
  schema_approved, app_verified, app_published, goes_to, fails, Reduced, ends, ends_with, reports,
  call, noting, checked,
}
use ambient_agent.Workflow.Handlers.{
  is_blank, or_text, text_of, kept_text, kept_json, or_json, kept_or, without_widget, with_values,
  settled, asks, with_intent, with_app, with_response, finish_subflow,
}

-- The plan is reviewed, and the user is asked.
abbrev pub propose_plan : Answers → State → Reduced
propose_plan a s = call s a.reviewed λ done. asks wait_plan s

unfoldable pub phase_plan : Answers → State → Reduced
phase_plan a s = with_intent s λ i. with_app s i (elim (kept_text s.values.plan_candidate) [
  | some candidate ↦ propose_plan a s
  | none ↦
      let s1 = with_values s (record s.values { plan_rework_feedback = none }) in
      call s1 a.generated_plan λ candidate.
        propose_plan a (with_values s1 (record s1.values { plan_candidate = some candidate }))
])

abbrev pub approve_plan : Text → State → Reduced
approve_plan approved s =
    if is_blank approved
    then ends s (fails (failing "approved_plan_empty"))
    else reports (with_values s (record s.values { approved_plan = some approved }))
        (goes_to align_schema) (plan_approved approved)

abbrev pub answer_plan : Answers → Action → Response → State → Reduced
answer_plan a approve r s = approve_plan (or_text r.plan_text (text_of s.values.plan_candidate)) s
answer_plan a refine r s =
    call s a.refined_plan
      λ refined. propose_plan a (with_values s (record s.values { plan_candidate = some refined }))
answer_plan a action r s = ends s (fails (failing "approval_denied"))

unfoldable pub phase_wait_plan : Answers → State → Reduced
phase_wait_plan a s =
    with_intent s λ i. with_response a.interaction s λ r s'. answer_plan a r.action r s'

unfoldable pub phase_align_schema : Answers → State → Reduced
phase_align_schema a s = with_intent s λ i. elim (kept_json s.values.schema_candidate) [
  | some proposal ↦ asks wait_schema s
  | none ↦ call s a.aligned λ aligned.
      let proposal = a.merged aligned s.values.pre_extend_schema_props in
      let s1 = with_values s (record s.values { pre_extend_schema_props = none }) in
      call s1 (a.effective_schemas proposal) λ done.
        asks wait_schema (with_values s1 (record s1.values { schema_candidate = some proposal }))
]

-- The user's approval of a proposal, which may be edited: valid, it is what the code will be held to.
abbrev pub approve_schema : Answers → Json → State → Reduced
approve_schema a edited s = elim (a.validated edited) [
  | none ↦ asks wait_schema (with_values s (record s.values { schema_candidate = some edited }))
  | some approved ↦
      reports
        (with_values s (record s.values {
          approved_schema = some approved;
          runtime_contract = some (a.contract_of approved);
          plan_schema_context = none;
          plan_rework_feedback = none;
        }))
        (goes_to stage_code) (schema_approved approved (a.contract_of approved))
]

abbrev pub default_rework : Text
default_rework =
    codes
      "Revise the plan so every feature is feasible with the user-edited schema and capability proposal."

-- Back to the plan, with the proposal as its context.
abbrev pub rework_from_schema : Answers → Text → Json → State → Reduced
rework_from_schema a feedback proposal s =
    ends
      (with_values s (record s.values {
        plan_candidate = none;
        approved_plan = none;
        schema_candidate = none;
        runtime_contract = none;
        plan_rework_feedback = some (take 12000 (or_text (strip feedback) default_rework));
        plan_schema_context = some (take 16000 (a.dumped proposal));
      }))
      (goes_to plan)

-- The refinement of a proposal; its inputs are kept in the checkpoint until the user is asked again.
abbrev pub refine_schema : Answers → Json → State → Reduced
refine_schema a inputs s = call s (a.refined_proposal inputs) λ refined.
    call s (a.effective_schemas refined) λ done. asks wait_schema (
      with_values s
        (record s.values { schema_candidate = some refined; schema_refine_recovery = none }))

abbrev pub answer_schema : Answers → Action → Response → State → Reduced
answer_schema a approve r s =
    approve_schema a (or_json r.proposal (or_json s.values.schema_candidate (obj end))) s
answer_schema a rework_plan r s =
    rework_from_schema a r.feedback
      (or_json r.proposal (or_json s.values.schema_candidate (obj end))) s
answer_schema a refine r s = call s a.recovered λ inputs.
    refine_schema a inputs
      (with_values s (record s.values { schema_refine_recovery = some inputs }))
answer_schema a action r s = ends s (fails (failing "approval_denied"))

unfoldable pub phase_wait_schema : Answers → State → Reduced
phase_wait_schema a s = with_intent s λ i. elim s.values.schema_refine_recovery [
  | some recovery ↦ call s a.recovered λ inputs. refine_schema a inputs s
  | none ↦ with_response a.interaction s λ r s'. answer_schema a r.action r s'
]

abbrev pub record_staged : Json → State → State
record_staged staged s = with_values s (record s.values { staged_app = some staged })

abbrev pub after_coding : Answers → Json → Coded → State → Reduced
after_coding a contract (stopped f) s = ends s (fails f)
after_coding a contract (draft staged error f) s =
    ends
      (with_values s (record s.values {
        staged_app = some staged;
        code_feedback = kept_or (kept_text (some (take 12000 error))) s.values.code_feedback;
      }))
      (fails f)
after_coding a contract (generated staged) s =
    call (record_staged staged s) (a.staged_checked staged contract)
      λ done. ends (record_staged staged s) (goes_to verify)

unfoldable pub phase_stage_code : Answers → State → Reduced
phase_stage_code a s = with_intent s λ i. with_app s i (elim s.values.runtime_contract [
  | none ↦ ends s (fails (failing "runtime_contract_missing"))
  | some contract ↦ call s (a.features_checked contract) λ done. after_coding a contract a.coded s
])

-- The verdict on a staged App.
abbrev pub judge : Json → Json → Diff → State → Reduced
judge staged contract diff s =
    let s1 = with_values s (record s.values { verification_report = some diff.report }) in
    if diff.is_clean
    then reports (with_values s1 (record s1.values { verification_passed = true }))
        (goes_to promote) (app_verified staged contract)
    else asks wait_override s1

unfoldable pub phase_verify : Answers → State → Reduced
phase_verify a s = with_intent s λ i. elim s.values.staged_app [
  | none ↦ ends s (fails (failing "staged_artifact_missing"))
  | some staged ↦ elim s.values.runtime_contract [
    | none ↦ ends s (fails (failing "runtime_contract_missing"))
    | some contract ↦ call s (a.staged_checked staged contract) λ done.
        call s (a.diff staged contract)
          λ diff. noting (checked staged contract diff) (judge staged contract diff s)
  ]
]

-- The answer to verification findings: they cannot be waved through, only repaired.
abbrev pub answer_override : Answers → Action → Response → State → Reduced
answer_override a approve r s = with_intent s λ i. asks wait_override s
answer_override a rework_code r s =
    ends
      (with_values s (record s.values {
        code_feedback = some (or_text r.feedback (text_of s.values.verification_report));
        verification_report = none;
        verification_passed = false;
      }))
      (goes_to stage_code)
answer_override a rework_schema r s =
    let s1 = with_values s (record s.values {
      pre_extend_schema_props = kept_or a.extensions s.values.pre_extend_schema_props;
    }) in
    call s1 a.discarded λ done.
      ends
        (with_values s1 (record s1.values {
          staged_app = none;
          schema_candidate = none;
          approved_schema = none;
          runtime_contract = none;
          verification_report = none;
          verification_passed = false;
        }))
        (goes_to align_schema)
answer_override a rework_plan r s = call s a.discarded λ done.
    ends
      (with_values s (record (without_widget s.values) {
        pre_extend_schema_props = none;
        plan_rework_feedback =
            some (take 12000 (strip (or_text r.feedback (text_of s.values.verification_report))));
        plan_schema_context =
            some (take 16000 (a.dumped (or_json s.values.approved_schema (obj end))));
      }))
      (goes_to plan)
answer_override a action r s = ends s (fails (failing "approval_denied"))

unfoldable pub phase_wait_override : Answers → State → Reduced
phase_wait_override a s = elim s.values.staged_app [
  | none ↦ ends s (fails (failing "staged_artifact_missing"))
  | some staged ↦ with_response a.interaction s λ r s'. answer_override a r.action r s'
]

-- After the artifact went live, all that is left can fail no more without doubt.
abbrev pub announce : Answers → List Event → State → Reduced
announce a events s =
    if a.widget_found
    then (elim a.canvas_saved [
      | raised f ↦ ends_with events s (fails f)
      | returned done ↦ finish_subflow events s
    ])
    else ends_with events s (
        fails
          (record { code = "published_artifact_missing"; retryable = false; effect = in_doubt }))

abbrev pub after_publication : Answers → Json → Json → State → Reduced
after_publication a staged contract s = announce a (app_published staged contract ∷ []) (
    with_values s (record s.values {
      effect_in_flight = false;
      effects_committed = true;
      non_compensable_effect = true;
    }))

-- The artifact could not be promoted: a schema that was committed for it is taken back.
abbrev pub give_back : Answers → Bool → Failure → State → Reduced
give_back a false f s = ends s (fails f)
give_back a true f s = elim a.schema_restored [
  | returned done ↦ ends s (fails f)
  | raised conflict ↦ ends s (fails conflict)
]

abbrev pub promote_artifact : Answers → Json → Json → Bool → State → Reduced
promote_artifact a staged contract committed s = elim (a.artifact_promoted staged) [
  | raised f ↦ give_back a committed f (settled s)
  | returned done ↦ after_publication a staged contract s
]

-- `_publish_widget`
abbrev pub publish_widget : Answers → Json → Json → State → Reduced
publish_widget a staged contract s = call s (a.promotion_checked staged contract) λ done.
    elim (kept_json s.values.approved_schema) [
      | none ↦ promote_artifact a staged contract false s
      | some approved ↦
          call (settled s) (a.schema_committed approved)
            λ change. promote_artifact a staged contract true (settled s)
    ]

unfoldable pub phase_promote : Answers → State → Reduced
unfolding finish_subflow
phase_promote a s =
    if s.values.verification_passed
    then (with_intent s λ i. elim s.values.staged_app [
      | none ↦ ends s (fails (failing "KeyError"))
      | some staged ↦ elim s.values.runtime_contract [
        | none ↦ ends s (fails (failing "runtime_contract_missing"))
        | some contract ↦ publish_widget a staged contract s
      ]
    ])
    else ends s (fails (failing "artifact_not_verified"))
