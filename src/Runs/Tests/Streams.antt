-- ===== src/Runs/Tests/Streams.antt =====
-- Event payloads, pages of events and repeated requests.
use ambient_agent.Prelude.{ℕ, ◌+◌, ◌≡◌, refl, true, false, none, some, [], ◌∷◌, ◌++◌, arith}
use ambient_agent.Prelude.Table.{lookup}
use ambient_agent.Json.{Json, null, num, str, obj, field, end}
use ambient_agent.Runs.Status.{queued}
use ambient_agent.Runs.Rows.{Event, Store}
use ambient_agent.Runs.Errors.{ok}
use ambient_agent.Runs.Events.{events_after}
use ambient_agent.Runs.Events.Paging.{cursor, events_after_resumes}
use ambient_agent.Runs.Sanitize.{sanitize_event_value, is_sensitive, guarded}
use ambient_agent.Runs.Sanitize.Bounds.{is_safe}
use ambient_agent.Runs.Sanitize.Safety.{sanitize_event_value_safe}
use ambient_agent.Runs.Sanitize.Faithful.{sanitize_event_value_faithful}
use ambient_agent.Runs.Create.{NewRun, create_run, used_key, find_key, insert_run}
use ambient_agent.Runs.Trace.{Call, perform}
use ambient_agent.Runs.Idempotency.{create_run_idempotent}

abbrev leaky : Json
leaky = obj (field "tool" (str "search") (field "api_key" (str "k") end))

sanitize_event_value_safe_example : is_safe 13 (sanitize_event_value none 0 leaky).0 ≡ true
sanitize_event_value_safe_example = sanitize_event_value_safe leaky

sanitize_event_value_faithful_example : (sanitize_event_value none 0 (num 7)).0 ≡ num 7
unfolding sanitize_event_value guarded is_sensitive
sanitize_event_value_faithful_example = sanitize_event_value_faithful none 0 (num 7) refl

abbrev event_of : ℕ → Event
event_of n = record {
  sequence = n;
  stream_epoch = "epoch";
  run_id = "r";
  session_id = null;
  step_id = null;
  attempt = null;
  trace_id = null;
  duration_ms = null;
  model_usage_json = null;
  redacted = false;
  kind = "progress";
  payload_json = null;
  created_at = n;
}

abbrev empty_store : Store
empty_store = record {
  runs = [];
  steps = [];
  interactions = [];
  grants = [];
  events = [];
  last_sequence = 0;
  stream_epoch = some "epoch";
}

abbrev logged : Store
logged = record empty_store {
  events = event_of 1 ∷ event_of 2 ∷ event_of 4 ∷ [];
  last_sequence = 4;
}

events_after_resumes_example :
    events_after 1 (1 + 5) logged
    ≡ events_after 1 1 logged ++ events_after (cursor 1 (events_after 1 1 logged)) 5 logged
events_after_resumes_example =
    events_after_resumes 1 1 5 logged (omega arith, (omega arith, (omega arith, omega arith)))
      (omega arith)

abbrev wanted : NewRun
wanted = record {
  owner_id = "u";
  action_id = "agent.chat";
  action_title = "Chat";
  source_type = "chat";
  source_id = some "s1";
  adapter_type = "internal_agent";
  runtime_id = "agent";
  input = null;
  tool_name = none;
  recovery = "restart_safe";
  parent_run_id = none;
  retry_of = none;
  idempotency_key = some "key-1";
  correlation = null;
  attempt = 1;
  status = queued;
  state = none;
  workflow_type = none;
  workflow_version = none;
}

abbrev created : Store
created = perform (Call.create wanted "r1" 5) empty_store

create_run_idempotent_example : create_run wanted "r2" 9 created ≡ ok (created, "r1")
unfolding perform create_run used_key find_key insert_run lookup
create_run_idempotent_example =
    create_run_idempotent wanted "key-1" "r1" "r2" 5 9 empty_store created "r1" refl refl
