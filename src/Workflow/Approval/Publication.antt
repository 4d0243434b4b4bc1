-- ===== src/Workflow/Approval/Publication.antt =====
-- The phases that check and publish an App: what each owes to the next phase
-- (backend/agent/durable_workflow.py).
use ambient_agent.Prelude.{◌≡◌, refl, inl, Bool, true, false, Option, some, List, [], ◌∷◌}
use ambient_agent.Json.{Json}
use ambient_agent.Workflow.{
  checked, verify, wait_override, promote, State, Failure, Reply, raised, returned, Action, approve,
  rework_plan, rework_code, rework_schema, Response, Diff, Answers, Event, app_verified,
  app_published, fails, ends, ends_with,
}
use ambient_agent.Workflow.Approval.{
  tested-Keeps, FoundClean, noting-Keeps, checked-Ready, Justifies, Sound, Cleared, Ready, Owed,
  Keeps, Planned-later, Held-later, Fits-later, call-Keeps, option-Keeps, if-Keeps, kept, owed,
  Held-some, Cleared-some,
}
use mathlib.Core.Path.{subst, sym}
use ambient_agent.Workflow.Handlers.{kept_json, with_values, settled, finish_subflow}
use ambient_agent.Workflow.Widget.{
  judge, phase_verify, answer_override, phase_wait_override, after_publication, give_back,
  publish_widget, phase_promote,
}
use ambient_agent.Workflow.Approval.Phases.{intent-Keeps, response-Keeps, finish-Keeps}

Cleared-new :
    (v w : Option Json) (x c : Json) (log : List Event)
    → v ≡ some x
    → w ≡ some c
    → Cleared v w (app_verified x c ∷ log)
Cleared-new v w x c log e e1 =
    subst (λ v. Cleared v w (app_verified x c ∷ log)) (sym e)
      (subst (λ w. Cleared (some x) w (app_verified x c ∷ log)) (sym e1) (inl refl))

module _ {log : List Event} where
  judge-Keeps :
      (staged contract : Json) (diff : Diff) {s : State}
      → s.values.staged_app ≡ some staged
      → s.values.runtime_contract ≡ some contract
      → (diff.is_clean ≡ true → FoundClean staged contract log)
      → Ready verify s log
      → Keeps verify log (judge staged contract diff s)
  judge-Keeps staged contract diff {s} e e1 clean h =
      tested-Keeps diff.is_clean
        (λ yes_clean. kept (
          (
            Planned-later _ log h.fits.0,
            Held-later _ s.values.runtime_contract log h.fits.1,
            Cleared-new s.values.staged_app s.values.runtime_contract staged contract log e e1,
          ),
          ((clean yes_clean, h.sound.0), h.sound.1),
        ))
        (kept (h.fits, h.sound))

module _ (a : Answers) {log : List Event} where
  answer_override-Keeps :
      (action : Action) (r : Response) {s : State}
      → Ready wait_override s log
      → Keeps wait_override log (answer_override a action r s)
  answer_override-Keeps approve r h = intent-Keeps h λ i. kept (h.fits, h.sound)
  answer_override-Keeps rework_code r h = kept (h.fits, h.sound)
  answer_override-Keeps rework_schema r h =
      call-Keeps a.discarded (record { at = h.at; fits = h.fits; sound = h.sound })
        λ done. kept (h.fits.0, h.sound)
  answer_override-Keeps rework_plan r h = call-Keeps a.discarded h λ done. kept (tt, h.sound)
  answer_override-Keeps action r h = kept (owed h)

module _ (a : Answers) {log : List Event} where
  pub verify-Keeps : {s : State} → Ready verify s log → Keeps verify log (phase_verify a s)
  unfolding phase_verify
  verify-Keeps {s} h = intent-Keeps h λ i.
      option-Keeps s.values.staged_app (kept (owed h)) λ staged e.
        option-Keeps s.values.runtime_contract (kept (owed h)) λ contract e1.
          call-Keeps (a.staged_checked staged contract) h λ done.
            call-Keeps (a.diff staged contract) h λ diff.
              noting-Keeps (checked staged contract diff) (
                judge-Keeps staged contract diff e e1 (λ clean. (refl, refl, clean))
                  (checked-Ready staged contract diff h))

  pub wait_override-Keeps :
      {s : State} → Ready wait_override s log → Keeps wait_override log (phase_wait_override a s)
  unfolding phase_wait_override
  wait_override-Keeps {s} h = option-Keeps s.values.staged_app (kept (owed h)) λ staged e.
      response-Keeps h (λ r s'. answer_override a r.action r s') a.interaction
        λ r h'. answer_override-Keeps a r.action r h'

  announce-Keeps :
      (staged contract : Json) (s : State)
      → Ready promote s log
      → Justifies (app_published staged contract) log
      → Keeps promote log (after_publication a staged contract s)
  announce-Keeps staged contract s h new =
      if-Keeps a.widget_found (saved-Keeps a.canvas_saved) (kept doubt)
    where
      t : State
      t = with_values s (record s.values {
        effect_in_flight = false;
        effects_committed = true;
        non_compensable_effect = true;
      })

      sound : Sound t.values (app_published staged contract ∷ log)
      sound = ((new, h.sound.0), (h.sound.1.0, (λ e. refl, λ e. refl)))

      doubt : Owed promote t (app_published staged contract ∷ log)
      doubt = (h.at, Fits-later promote t.values (app_published staged contract) log h.fits, sound)

      saved-Keeps :
          (reply : Reply (Unit {0}))
          → Keeps promote log (elim reply [
            | raised f ↦ ends_with (app_published staged contract ∷ []) t (fails f)
            | returned done ↦ finish_subflow (app_published staged contract ∷ []) t
          ])
      saved-Keeps (raised f) = kept doubt
      saved-Keeps (returned done) =
          finish-Keeps {s = s} h (app_published staged contract ∷ []) t sound

  give_back-Keeps :
      (committed : Bool) (f : Failure) {s : State}
      → Ready promote s log
      → Keeps promote log (give_back a committed f s)
  give_back-Keeps false f h = kept (owed h)
  give_back-Keeps true f {s} h = restored-Keeps a.schema_restored
    where
      restored-Keeps :
          (reply : Reply (Unit {0}))
          → Keeps promote log (elim reply [
            | returned done ↦ ends s (fails f)
            | raised conflict ↦ ends s (fails conflict)
          ])
      restored-Keeps (returned done) = kept (owed h)
      restored-Keeps (raised conflict) = kept (owed h)

  promoted-Keeps :
      (staged contract : Json) (committed : Bool) (reply : Reply (Unit {0})) {s : State}
      → Justifies (app_published staged contract) log
      → Ready promote s log
      → Keeps promote log (elim reply [
        | raised f ↦ give_back a committed f (settled s)
        | returned done ↦ after_publication a staged contract s
      ])
  promoted-Keeps staged contract committed (raised f) new h =
      give_back-Keeps committed f (record { at = h.at; fits = h.fits; sound = h.sound })
  promoted-Keeps staged contract committed (returned done) new h =
      announce-Keeps staged contract _ h new

  publish-Keeps :
      (staged contract : Json) {s : State}
      → Justifies (app_published staged contract) log
      → Ready promote s log
      → Keeps promote log (publish_widget a staged contract s)
  publish-Keeps staged contract {s} new h =
      call-Keeps (a.promotion_checked staged contract) h λ done.
        option-Keeps (kept_json s.values.approved_schema)
          (promoted-Keeps staged contract false (a.artifact_promoted staged) new h)
          (λ approved e.
            call-Keeps (a.schema_committed approved)
              (record { at = h.at; fits = h.fits; sound = h.sound })
              λ change.
                promoted-Keeps staged contract true (a.artifact_promoted staged) {s = settled s} new
                  (record { at = h.at; fits = h.fits; sound = h.sound }))

  pub promote-Keeps : {s : State} → Ready promote s log → Keeps promote log (phase_promote a s)
  unfolding phase_promote
  promote-Keeps {s} h =
      if-Keeps s.values.verification_passed
        (intent-Keeps h λ i. option-Keeps s.values.staged_app (kept (owed h)) λ staged e.
          option-Keeps s.values.runtime_contract (kept (owed h)) λ contract e1.
            publish-Keeps staged contract
              (
                h.fits.0,
                Held-some s.values.runtime_contract contract log e1 h.fits.1,
                Cleared-some s.values.staged_app s.values.runtime_contract staged contract log e e1
                    h.fits.2,
              )
              h)
        (kept (owed h))
