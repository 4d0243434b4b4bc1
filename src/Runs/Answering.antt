-- ===== src/Runs/Answering.antt =====
-- What the answer to a question does: it is taken once, closes the Run's other questions and
-- resumes the Run; an approved permission holds the Run back until it is applied.
use ambient_agent.Prelude.{
  ℕ, String, ◌≡◌, refl, inl, inr, Bool, true, false, not, ◌&&◌, some, [], ◌∷◌, ◌++◌, arith, ◌=ₛ◌,
  text_refl, Bool-cases, Option-cases,
}
use ambient_agent.Prelude.Table.{Table, lookup, update, exists, lookup-update_where}
use ambient_agent.Prelude.Keys.{lookup-update_same}
use ambient_agent.Json.{Json}
use ambient_agent.Runs.Status.{Status, queued, waiting_user, same_status-eq, transitions}
use ambient_agent.Runs.Rows.{Run, Interaction, Store}
use ambient_agent.Runs.Errors.{ok, err, value_error, already_resolved}
use ambient_agent.Runs.Events.{insert_event}
use ambient_agent.Runs.Transition.{is_pending, is_pending_of, cancel_interaction}
use ambient_agent.Runs.Interactions.{
  Answer, answered, close_interactions, opens_grant, resolve_interaction, resolved_target, resumed,
  write_answer,
}
use ambient_agent.Runs.Claim.{has_pending_grant, is_candidate}
use ambient_agent.Runs.Quiet.{NonePending}
use ambient_agent.Runs.Evolution.Commits.{resolve_interaction-ok}

exists-append {ℓ} :
    {V : Type ℓ} (p : String → V → Bool) (t : Table V) (k : String) (v : V)
    → p k v ≡ true
    → exists p (t ++ (k, v) ∷ []) ≡ true
unfolding exists
exists-append p [] k v h = ground arith
exists-append p ((j, w) ∷ t) k v h = ground (arith, exists-append p t k v h)

module _ (id run_id : String) (response : Json) (now : ℕ) (t : Table Interaction) where
  -- The two updates leave the answered question resolved, and no other one of the Run pending.
  close_interactions-NonePending : NonePending run_id (close_interactions run_id id response now t)
  unfolding close_interactions is_pending_of cancel_interaction answered update
  close_interactions-NonePending j i h own =
      let t' = update id (answered response now) t in
      let p : String → Interaction → Bool = λ k x. is_pending_of run_id k x && not (k =ₛ id) in
      let e = lookup-update_where p (cancel_interaction now) j t' in
      let e' = lookup-update_where (λ k x. k =ₛ id) (answered response now) j t in
      elim (Option-cases (lookup j t)) [
        | inl missing ↦ ground (arith, e, e', missing)
        | inr (old, found) ↦ elim (Bool-cases (j =ₛ id)) [
          | inl same ↦ ground (arith, e, e', found, same)
          | inr other ↦ elim (Bool-cases (is_pending_of run_id j old)) [
            | inl hit ↦ ground (arith, e, e', found, other, hit)
            | inr miss ↦ ground (arith, e, e', found, other, miss)
          ]
        ]
      ]

  close_interactions-answered :
      (i : Interaction)
      → lookup id t ≡ some i
      → lookup id (close_interactions run_id id response now t) ≡ some (answered response now i)
  unfolding close_interactions
  close_interactions-answered i h =
      rw
        (
          lookup-update_where _ (cancel_interaction now) id (update id (answered response now) t),
          lookup-update_same id (answered response now) t i h,
        )
        (ground (arith, text_refl id))

-- The state after an accepted answer.
pub record Resolved (id : String) (a : Answer) (now : ℕ) (i : Interaction) (r : Run) (s s' : Store)
    : Type 0 where
  pub question_found : lookup id s.interactions ≡ some i
  pub was_pending : is_pending i.status ≡ true
  pub run_found : lookup i.run_id s.runs ≡ some r
  pub was_waiting : r.status ≡ waiting_user
  pub legal_target : transitions waiting_user (resolved_target a r) ≡ true
  pub run_resumed :
      lookup i.run_id s'.runs
      ≡ some (resumed a (resolved_target a r) (opens_grant i a.response) now r)
  pub question_answered : lookup id s'.interactions ≡ some (answered a.response now i)
  pub others_closed : NonePending i.run_id s'.interactions
  pub grant_opened :
      opens_grant i a.response ≡ true
      → (resolved_target a r ≡ queued) × (has_pending_grant i.run_id s'.grants ≡ true)
  pub grant_kept : opens_grant i a.response ≡ false → s'.grants ≡ s.grants
  pub once :
      (b : Answer) (later : ℕ)
      → resolve_interaction id b later s' ≡ err (value_error already_resolved)

module _ (id : String) (i : Interaction) (a : Answer) (r : Run) (target : Status) (now : ℕ)
    (s : Store) where
  pub write_answer-runs :
      (write_answer id i a r target now s).runs
      ≡ update i.run_id (resumed a target (opens_grant i a.response) now) s.runs
  unfolding write_answer insert_event
  write_answer-runs = refl

  write_answer-interactions :
      (write_answer id i a r target now s).interactions
      ≡ close_interactions i.run_id id a.response now s.interactions
  unfolding write_answer insert_event
  write_answer-interactions = refl

  write_answer-pending :
      opens_grant i a.response ≡ true
      → has_pending_grant i.run_id (write_answer id i a r target now s).grants ≡ true
  unfolding write_answer insert_event has_pending_grant
  write_answer-pending h = rw h (exists-append _ s.grants id _ (ground (arith, text_refl i.run_id)))

  write_answer-grants :
      opens_grant i a.response ≡ false → (write_answer id i a r target now s).grants ≡ s.grants
  unfolding write_answer insert_event
  write_answer-grants h = rw h refl

resolve-target :
    (id : String) (a : Answer) (now : ℕ) (s s' : Store) (i : Interaction) (r : Run)
    → resolve_interaction id a now s ≡ ok s'
    → lookup id s.interactions ≡ some i
    → lookup i.run_id s.runs ≡ some r
    → (transitions waiting_user (resolved_target a r) ≡ true)
      × (opens_grant i a.response ≡ true → resolved_target a r ≡ queued)
unfolding resolve_interaction
resolve-target id a now s s' i r h e e' =
    (ground arith, λ g. same_status-eq (resolved_target a r) queued (ground arith))

answered-once :
    (id : String) (response : Json) (now : ℕ) (i : Interaction) (s : Store) (b : Answer) (later : ℕ)
    → lookup id s.interactions ≡ some (answered response now i)
    → resolve_interaction id b later s ≡ err (value_error already_resolved)
unfolding resolve_interaction answered
answered-once id response now i s b later e = ground (arith, e)

-- If `resolve_interaction` succeeds, the question was pending and its Run waited for the user; the
-- Run goes to a target that may follow waiting; the question is resolved with the response and no
-- question of the Run is pending; an approved permission of a known type leaves the Run queued
-- behind a pending grant, and otherwise the grants are unchanged; and a second answer to the
-- question in the new store, whatever it says, is refused as already resolved.
pub resolve_interaction_resolves :
    (id : String) (a : Answer) (now : ℕ) (s s' : Store)
    → resolve_interaction id a now s ≡ ok s'
    → (i : Interaction) × (r : Run) × Resolved id a now i r s s'
resolve_interaction_resolves id a now s s' h =
    let (i, r, e, p, e', st, w) = resolve_interaction-ok id a now s s' h in
    let target = resolved_target a r in
    let (legal, behind) = resolve-target id a now s s' i r h e e' in
    let question : lookup id s'.interactions ≡ some (answered a.response now i) =
      rw (w, write_answer-interactions id i a r target now s)
        (close_interactions-answered id i.run_id a.response now s.interactions i e) in
    (
      i,
      r,
      record {
        question_found = e;
        was_pending = p;
        run_found = e';
        was_waiting = st;
        legal_target = legal;
        run_resumed =
            rw (w, write_answer-runs id i a r target now s)
              (lookup-update_same i.run_id _ s.runs r e');
        question_answered = question;
        others_closed =
            rw (w, write_answer-interactions id i a r target now s)
              (close_interactions-NonePending id i.run_id a.response now s.interactions);
        grant_opened = λ g. (behind g, rw w (write_answer-pending id i a r target now s g));
        grant_kept = λ g. rw w (write_answer-grants id i a r target now s g);
        once = λ b later. answered-once id a.response now i s' b later question;
      },
    )

-- If `resolve_interaction` succeeds with the approval of a permission of a known type, no row under
-- the id of the question's Run passes the test of the candidates of `claim_next` in the new store.
pub approved_permission_waits :
    (id : String) (a : Answer) (now : ℕ) (s s' : Store) (i : Interaction)
    → resolve_interaction id a now s ≡ ok s'
    → lookup id s.interactions ≡ some i
    → opens_grant i a.response ≡ true
    → (r : Run) → is_candidate s'.grants i.run_id r ≡ false
unfolding is_candidate
approved_permission_waits id a now s s' i h e g r =
    let (j, r', z) = resolve_interaction_resolves id a now s s' h in
    let same : i ≡ j = ground (arith, z.question_found, e) in
    let behind = z.grant_opened (rw (← same) g) in
    let waits : has_pending_grant i.run_id s'.grants ≡ true = rw same behind.1 in
    ground (arith, waits)
