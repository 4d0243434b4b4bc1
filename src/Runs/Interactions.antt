-- ===== src/Runs/Interactions.antt =====
-- Questions to the user: `create_interaction`, `wait_for_interaction`, `get_interaction`,
-- `resolve_interaction` (backend/run_service.py).
use ambient_agent.Prelude.{
  ℕ, suc, String, Bool, true, false, not, ◌&&◌, ◌||◌, Option, none, some, List, [], ◌∷◌, ◌++◌, ◌==◌,
  ◌=ₛ◌, if◌then◌else◌,
}
use ambient_agent.Prelude.Table.{Table, lookup, update, update_where}
use ambient_agent.Json.{is_object, Json, null, bool, num, str, obj, end, get_or, fields_of, ◌∣∣◌}
use ambient_agent.Runs.Status.{
  Status, queued, running, waiting_user, needs_attention, is_terminal, same_status, transitions,
  status_text,
}
use ambient_agent.Runs.Rows.{
  Column, stored, Run, Interaction, InteractionStatus, Grant, GrantStatus, Store,
}
use ambient_agent.Runs.Events.{Lease, holds_lease, no_overrides, insert_event, emit}
use ambient_agent.Runs.Transition.{is_pending, is_pending_of, cancel_interaction}
use ambient_agent.Runs.Commit.{new_interaction}
use ambient_agent.Runs.Errors.{
  attribute_error, Result, ok, err, key_error, stale_lease, version_conflict, value_error,
  inactive_run, interaction_in_use, already_resolved, not_waiting, invalid_target,
  grant_outside_queue, require, ◌>>◌,
}

-- `get_interaction`
unfoldable pub get_interaction : String → Store → Option Interaction
get_interaction id s = lookup id s.interactions

abbrev requested : String → String → List (String × Json)
requested id kind = ("interaction_id", str id) ∷ ("type", str kind) ∷ []

unfoldable pub create_interaction :
    String → String → String → Json → String → ℕ → Store → Result Store
create_interaction run_id kind prompt payload id now s = elim (lookup id s.interactions) [
  | some i ↦ ok s
  | none ↦ elim (lookup run_id s.runs) [
    | none ↦ err key_error
    | some r ↦ do
      require (not (is_terminal r.status || same_status r.status needs_attention))
          (value_error inactive_run)
      let row = new_interaction run_id kind prompt payload now r.version
      ok (
          emit run_id "interaction_requested" (requested id kind) now
            (record s { interactions = s.interactions ++ (id, row) ∷ [] }))
  ]
]

-- What an adapter asks through `wait_for_interaction`.
pub record Request : Type 0 where
  pub run_id : String
  pub interaction_id : String
  pub kind : String
  pub prompt : String
  pub payload : Json
  pub summary : String
  pub event_kind : Option String

-- The row of a Run that begins to wait.
unfoldable pub parked : String → ℕ → Run → Run
parked summary now r = record r {
  status = waiting_user;
  summary = summary;
  updated_at = now;
  version = suc r.version;
  lease_owner = none;
  lease_expires_at = none;
}

abbrev pub emit_payload : Request → ℕ → Store → Store
emit_payload q now s = elim q.event_kind [
  | none ↦ s
  | some kind ↦ if kind =ₛ "" then s else insert_event no_overrides q.run_id kind q.payload now s
]

unfoldable pub wait_for_interaction : Request → Lease → ℕ → Store → Result Store
unfolding parked
wait_for_interaction q lease now s = elim (lookup q.run_id s.runs) [
  | none ↦ err key_error
  | some r ↦ elim (same_status r.status running && holds_lease r lease) [
    | false ↦ err stale_lease
    | true ↦ elim (lookup q.interaction_id s.interactions) [
      | some i ↦ err (value_error interaction_in_use)
      | none ↦
          let row = new_interaction q.run_id q.kind q.prompt q.payload now (suc r.version) in
          let s' = record s {
            interactions = s.interactions ++ (q.interaction_id, row) ∷ [];
            runs = update q.run_id (parked q.summary now) s.runs;
          } in
          ok (
            emit q.run_id "status_changed"
              (("from", str "running")
                ∷ ("to", str "waiting_user")
                ∷ ("version", num (suc r.version))
                ∷ [])
              now
              (emit_payload q now
                (emit q.run_id "interaction_requested" (requested q.interaction_id q.kind) now s')))
    ]
  ]
]

-- `response.get("approved") is True if isinstance(response, dict) else response is True`
unfoldable pub is_approved : Json → Bool
is_approved (bool b) = b
is_approved (obj d) = elim (get_or d "approved" null) [ bool b ↦ b | _ ↦ false ]
is_approved _ = false

abbrev is_grant_kind : Json → Bool
is_grant_kind (str t) = t =ₛ "mcp_spawn" || t =ₛ "agent_connect"
is_grant_kind _ = false

-- `payload.get` of a permission, whose payload must be an object.
unfoldable pub has_payload : Interaction → Bool
has_payload i = not (i.kind =ₛ "permission") || is_object i.payload_json

-- The permission type that the question's payload names.
unfoldable pub permission_type : Interaction → Json
permission_type i =
    if i.kind =ₛ "permission"
    then get_or (fields_of i.payload_json) "permission_type" null
    else null

unfoldable pub opens_grant : Interaction → Json → Bool
unfolding is_approved permission_type
opens_grant i response = is_approved response && is_grant_kind (permission_type i)

abbrev text_of : Json → String
text_of (str t) = t
text_of j = ""

abbrev new_grant : Interaction → ℕ → Grant
new_grant i now = record {
  run_id = i.run_id;
  permission_type = text_of (permission_type i);
  value_json = get_or (fields_of i.payload_json) "value" null ∣∣ obj end;
  status = GrantStatus.pending;
  attempts = 0;
  next_attempt_at = none;
  created_at = now;
  completed_at = none;
}

-- What a call of `resolve_interaction` is given beside the id.
pub record Answer : Type 0 where
  pub response : Json
  pub expected_run_version : Option ℕ
  pub target_status : Option Status
  pub summary : String
  pub error : Json

abbrev expected_version : Option ℕ → Option ℕ → Option ℕ
expected_version (some v) row = some v
expected_version none row = row

abbrev version_matches : Option ℕ → Run → Bool
version_matches none r = true
version_matches (some v) r = r.version == v

unfoldable pub resolved_target : Answer → Run → Status
resolved_target a r = elim a.target_status [
  | some target ↦ target
  | none ↦ if r.adapter_type =ₛ "internal" then running else queued
]

abbrev error_column : Json → Column → Column
error_column null old = old
error_column j old = stored j

-- The row of a Run whose question was answered.
unfoldable pub resumed : Answer → Status → Bool → ℕ → Run → Run
resumed a target granting now r =
    let keep = same_status target running in
    record r {
      status = target;
      summary = if granting then "Applying permission" else a.summary;
      updated_at = now;
      version = suc r.version;
      lease_owner = if keep then r.lease_owner else none;
      lease_expires_at = if keep then r.lease_expires_at else none;
      finished_at = if is_terminal target then some now else r.finished_at;
      error_json = error_column a.error r.error_json;
    }

unfoldable pub answered : Json → ℕ → Interaction → Interaction
answered response now i = record i {
  status = InteractionStatus.resolved;
  response_json = stored response;
  resolved_at = some now;
}

-- The two UPDATEs of the interactions: the answered one, and the others of the Run.
unfoldable pub close_interactions :
    String → String → Json → ℕ → Table Interaction → Table Interaction
unfolding answered
close_interactions run_id id response now t =
    update_where (λ j i. is_pending_of run_id j i && not (j =ₛ id)) (cancel_interaction now)
      (update id (answered response now) t)

unfoldable pub write_answer : String → Interaction → Answer → Run → Status → ℕ → Store → Store
write_answer id i a r target now s =
    let granting = opens_grant i a.response in
    let version = suc r.version in
    let s' = record s {
      grants = if granting then s.grants ++ (id, new_grant i now) ∷ [] else s.grants;
      interactions = close_interactions i.run_id id a.response now s.interactions;
      runs = update i.run_id (resumed a target granting now) s.runs;
    } in
    emit i.run_id "status_changed"
      (("from", str (status_text r.status))
        ∷ ("to", str (status_text target))
        ∷ ("version", num version)
        ∷ [])
      now
      (emit i.run_id "interaction_resolved"
        (("interaction_id", str id)
          ∷ ("run_version", num version)
          ∷ ("status", str (status_text target))
          ∷ [])
        now s')

unfoldable pub resolve_interaction : String → Answer → ℕ → Store → Result Store
unfolding resolved_target
resolve_interaction id a now s = elim (lookup id s.interactions) [
  | none ↦ err key_error
  | some i ↦ elim (is_pending i.status) [
    | false ↦ err (value_error already_resolved)
    | true ↦ elim (lookup i.run_id s.runs) [
      | none ↦ err key_error
      | some r ↦
          let target = resolved_target a r in
          do
            require (same_status r.status waiting_user) (value_error not_waiting)
            require (version_matches (expected_version a.expected_run_version i.run_version) r)
                version_conflict
            require (transitions waiting_user target) (value_error invalid_target)
            require (has_payload i) attribute_error
            require (not (opens_grant i a.response && not (same_status target queued)))
                (value_error grant_outside_queue)
            ok (write_answer id i a r target now s)
    ]
  ]
]
