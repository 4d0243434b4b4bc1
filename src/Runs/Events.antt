-- ===== src/Runs/Events.antt =====
-- The durable event stream: `_append_event`, `append_event`, `events_after`, `stream_info`.
pub mod Paging
use ambient_agent.Prelude.{
  ℕ, suc, String, Bool, true, false, ◌&&◌, Option, none, some, List, [], ◌∷◌, ◌++◌, ltb, ◌==◌, ◌=ₛ◌,
  is_some_text, select, take, if◌then◌else◌,
}
use ambient_agent.Prelude.Table.{lookup}
use ambient_agent.Json.{
  Json, Fields, null, num, real, str, obj, end, get_or, fields_of, is_object, object, of_text, ◌∣∣◌,
}
use ambient_agent.Runs.Status.{is_leased}
use ambient_agent.Runs.Rows.{Column, stored, Run, Event, Store}
use ambient_agent.Runs.Sanitize.{sanitize_event_value}
use ambient_agent.Runs.Errors.{
  Result, ok, err, key_error, integrity_error, stale_lease, require, ◌>>◌,
}

-- `json.loads` of a column, `{}` if that is no object or cannot be read.
unfoldable pub column_fields : Column → Fields
column_fields (stored j) = fields_of j
column_fields _ = end

abbrev state_of : Option Run → Fields
state_of none = end
state_of (some r) = column_fields r.state_json

abbrev chat_source : Option Run → Json
chat_source none = null
chat_source (some r) = if r.source_type =ₛ "chat" then of_text r.source_id else null

abbrev is_number : Json → Bool
is_number (num n) = true
is_number (real neg n) = true
is_number _ = false

-- `int()` and `float()` leave the counters that `AgentRunState` writes as they are.
budget_usage : Fields → Json
budget_usage end = null
budget_usage budget = obj (
    object (
      ("model_turns", get_or budget "model_turns" (num 0) ∣∣ num 0)
      ∷ ("tokens", get_or budget "tokens_used" (num 0) ∣∣ num 0)
      ∷ ("cost_usd", get_or budget "cost_usd" (real false 0) ∣∣ real false 0)
      ∷ []))

-- What `_append_event` is told beside the payload; `None` where the caller passes nothing.
pub record Overrides : Type 0 where
  pub step_id : Option String
  pub attempt : Option ℕ
  pub trace_id : Option String

abbrev pub no_overrides : Overrides
no_overrides = record { step_id = none; attempt = none; trace_id = none }

abbrev option_number : Option ℕ → Json
option_number none = null
option_number (some n) = num n

abbrev stream_epoch_of : Option String → String
stream_epoch_of none = "legacy"
stream_epoch_of (some epoch) = epoch

-- The row that `_append_event` inserts.
unfoldable pub event_row : Store → Overrides → String → String → Json → ℕ → Event
unfolding budget_usage
event_row s o run_id kind payload now =
    let run = lookup run_id s.runs in
    let state = state_of run in
    let payload_dict = fields_of payload in
    let duration = get_or payload_dict "duration_ms" null in
    let usage = get_or payload_dict "model_usage" null in
    let (sanitized, redacted) = sanitize_event_value none 0 payload in
    record {
      sequence = suc s.last_sequence;
      stream_epoch = stream_epoch_of s.stream_epoch;
      run_id = run_id;
      session_id = get_or state "session_id" null ∣∣ chat_source run;
      step_id =
          of_text o.step_id
          ∣∣ get_or payload_dict "step_id"
              (get_or payload_dict "step_key" (get_or state "phase" null));
      attempt =
          option_number o.attempt ∣∣ get_or payload_dict "attempt" (get_or state "attempt" null);
      trace_id =
          of_text o.trace_id
          ∣∣ get_or (fields_of (get_or state "data" null)) "trace_id" null
          ∣∣ str run_id;
      duration_ms = if is_number duration then duration else null;
      model_usage_json =
          if is_object usage then usage else budget_usage (fields_of (get_or state "budget" null));
      redacted = redacted;
      kind = kind;
      payload_json = sanitized;
      created_at = now;
    }

-- `_append_event`: the insertion, within a transaction.
unfoldable pub insert_event : Overrides → String → String → Json → ℕ → Store → Store
insert_event o run_id kind payload now s = record s {
  events = s.events ++ event_row s o run_id kind payload now ∷ [];
  last_sequence = suc s.last_sequence;
}

abbrev pub emit : String → String → List (String × Json) → ℕ → Store → Store
emit run_id kind payload now s = insert_event no_overrides run_id kind (obj (object payload)) now s

-- The lease that a caller claims to hold: `expected_lease_owner` and `expected_lease_epoch`.
pub record Lease : Type 0 where
  pub owner : String
  pub epoch : ℕ

unfoldable pub holds_lease : Run → Lease → Bool
holds_lease r l = is_some_text r.lease_owner l.owner && r.lease_epoch == l.epoch

-- `append_event`: without an expected lease nothing is checked, and SQL's foreign key is the only
-- guard on the run.
unfoldable pub append_event : String → String → Json → Option Lease → ℕ → Store → Result (Store × ℕ)
append_event run_id kind payload none now s = elim (lookup run_id s.runs) [
  | none ↦ err integrity_error
  | some r ↦ ok (insert_event no_overrides run_id kind payload now s, suc s.last_sequence)
]
append_event run_id kind payload (some lease) now s = elim (lookup run_id s.runs) [
  | none ↦ err key_error
  | some r ↦ do
    require (is_leased r.status && holds_lease r lease) stale_lease
    ok (insert_event no_overrides run_id kind payload now s, suc s.last_sequence)
]

-- `events_after`
unfoldable pub events_after : ℕ → ℕ → Store → List Event
events_after sequence limit s = take limit (select (λ e. ltb sequence e.sequence) s.events)

abbrev latest_of : ℕ → List Event → ℕ
latest_of latest [] = latest
latest_of latest (e ∷ es) = latest_of (if ltb latest e.sequence then e.sequence else latest) es

-- `stream_info`
unfoldable pub stream_info : Store → String × ℕ
stream_info s = (stream_epoch_of s.stream_epoch, latest_of 0 s.events)
