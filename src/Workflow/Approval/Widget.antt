-- ===== src/Workflow/Approval/Widget.antt =====
-- The phases that make an App: what each owes to the next phase (backend/agent/durable_workflow.py).
use ambient_agent.Prelude.{◌≡◌, refl, inl, List}
use ambient_agent.Prelude.Texts.{Text}
use ambient_agent.Json.{Json}
use ambient_agent.Workflow.{
  plan, wait_plan, align_schema, wait_schema, stage_code, State, Action, approve, refine,
  rework_plan, Response, Coded, generated, draft, stopped, Answers, Event,
}
use ambient_agent.Workflow.Approval.{
  ApprovedIn, Ready, Keeps, Planned-later, call-Keeps, option-Keeps, if-Keeps, kept, owed,
}
use ambient_agent.Workflow.Handlers.{is_blank, kept_text, kept_json}
use ambient_agent.Workflow.Widget.{
  propose_plan, phase_plan, approve_plan, answer_plan, phase_wait_plan, phase_align_schema,
  approve_schema, refine_schema, answer_schema, phase_wait_schema, after_coding, phase_stage_code,
}
use ambient_agent.Workflow.Approval.Phases.{intent-Keeps, app-Keeps, response-Keeps}

module _ (a : Answers) {log : List Event} where
  propose-Keeps : {s : State} → Ready plan s log → Keeps plan log (propose_plan a s)
  propose-Keeps h = call-Keeps a.reviewed h λ done. kept (tt, h.sound)

  pub plan-Keeps : {s : State} → Ready plan s log → Keeps plan log (phase_plan a s)
  unfolding phase_plan
  plan-Keeps {s} h = intent-Keeps h λ i. app-Keeps h i (
      option-Keeps (kept_text s.values.plan_candidate)
        (call-Keeps a.generated_plan (record { at = h.at; fits = tt; sound = h.sound })
          λ candidate. propose-Keeps (record { at = h.at; fits = tt; sound = h.sound }))
        (λ candidate e. propose-Keeps h))

  approve_plan-Keeps :
      (approved : Text) {s : State}
      → ApprovedIn wait_plan log
      → Ready wait_plan s log
      → Keeps wait_plan log (approve_plan approved s)
  approve_plan-Keeps approved said h =
      if-Keeps (is_blank approved) (kept (owed h))
        (kept ((approved, inl refl), ((said, h.sound.0), h.sound.1)))

  answer_plan-Keeps :
      (action : Action) (r : Response) {s : State}
      → (action ≡ approve → ApprovedIn wait_plan log)
      → Ready wait_plan s log
      → Keeps wait_plan log (answer_plan a action r s)
  answer_plan-Keeps approve r said h = approve_plan-Keeps _ (said refl) h
  answer_plan-Keeps refine r said h = call-Keeps a.refined_plan h λ refined.
      call-Keeps a.reviewed (record { at = h.at; fits = tt; sound = h.sound })
        λ done. kept (tt, h.sound)
  answer_plan-Keeps action r said h = kept (owed h)

module _ (a : Answers) {log : List Event} where
  pub wait_plan-Keeps :
      {s : State} → Ready wait_plan s log → Keeps wait_plan log (phase_wait_plan a s)
  unfolding phase_wait_plan
  wait_plan-Keeps h = intent-Keeps h λ i.
      response-Keeps h (λ r s'. answer_plan a r.action r s') a.interaction
        λ r h'. answer_plan-Keeps a r.action r (λ e. (h.at, e)) h'

  pub align_schema-Keeps :
      {s : State} → Ready align_schema s log → Keeps align_schema log (phase_align_schema a s)
  unfolding phase_align_schema
  align_schema-Keeps {s} h = intent-Keeps h λ i.
      option-Keeps (kept_json s.values.schema_candidate)
        (call-Keeps a.aligned h λ aligned.
          call-Keeps (a.effective_schemas (a.merged aligned s.values.pre_extend_schema_props))
            (record { at = h.at; fits = h.fits; sound = h.sound }) (λ done. kept (h.fits, h.sound)))
        (λ proposal e. kept (h.fits, h.sound))

  approve_schema-Keeps :
      (edited : Json) {s : State}
      → ApprovedIn wait_schema log
      → Ready wait_schema s log
      → Keeps wait_schema log (approve_schema a edited s)
  approve_schema-Keeps edited said h =
      option-Keeps (a.validated edited) (kept (h.fits, h.sound)) λ approved e.
        kept ((Planned-later _ log h.fits, (approved, inl refl)), ((said, h.sound.0), h.sound.1))

  refine_schema-Keeps :
      (inputs : Json) {s : State}
      → Ready wait_schema s log
      → Keeps wait_schema log (refine_schema a inputs s)
  refine_schema-Keeps inputs h =
      call-Keeps (a.refined_proposal inputs) h
        λ refined. call-Keeps (a.effective_schemas refined) h λ done. kept (h.fits, h.sound)

  answer_schema-Keeps :
      (action : Action) (r : Response) {s : State}
      → (action ≡ approve → ApprovedIn wait_schema log)
      → Ready wait_schema s log
      → Keeps wait_schema log (answer_schema a action r s)
  answer_schema-Keeps approve r said h = approve_schema-Keeps _ (said refl) h
  answer_schema-Keeps rework_plan r said h = kept (tt, h.sound)
  answer_schema-Keeps refine r said h =
      call-Keeps a.recovered h
        λ inputs. refine_schema-Keeps inputs (record { at = h.at; fits = h.fits; sound = h.sound })
  answer_schema-Keeps action r said h = kept (owed h)

module _ (a : Answers) {log : List Event} where
  pub wait_schema-Keeps :
      {s : State} → Ready wait_schema s log → Keeps wait_schema log (phase_wait_schema a s)
  unfolding phase_wait_schema
  wait_schema-Keeps {s} h = intent-Keeps h λ i.
      option-Keeps s.values.schema_refine_recovery
        (response-Keeps h (λ r s'. answer_schema a r.action r s') a.interaction
          λ r h'. answer_schema-Keeps a r.action r (λ e. (h.at, e)) h')
        (λ recovery e. call-Keeps a.recovered h λ inputs. refine_schema-Keeps a inputs h)

  coded-Keeps :
      (contract : Json) (coded : Coded) {s : State}
      → Ready stage_code s log
      → Keeps stage_code log (after_coding a contract coded s)
  coded-Keeps contract (stopped f) h = kept (owed h)
  coded-Keeps contract (draft staged error f) h = kept (h.at, h.fits, h.sound)
  coded-Keeps contract (generated staged) h =
      call-Keeps (a.staged_checked staged contract)
        (record { at = h.at; fits = h.fits; sound = h.sound }) (λ done. kept (h.fits, h.sound))

  pub stage_code-Keeps :
      {s : State} → Ready stage_code s log → Keeps stage_code log (phase_stage_code a s)
  unfolding phase_stage_code
  stage_code-Keeps {s} h = intent-Keeps h λ i. app-Keeps h i (
      option-Keeps s.values.runtime_contract (kept (owed h)) λ contract e.
        call-Keeps (a.features_checked contract) h λ done. coded-Keeps contract a.coded h)
