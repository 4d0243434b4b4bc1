-- ===== src/Runs/Lane.antt =====
-- One Run of a chat session at a time: `_session_id`, `_session_lane_available`.
use Prim.Native.Nat.{compare, Ordering}
use Prim.Native.String.{compare as compare_text}
use ambient_agent.Prelude.{
  String, Bool, true, false, not, ◌&&◌, ◌||◌, Option, none, some, ◌=ₛ◌, is_some_text, if◌then◌else◌,
}
use ambient_agent.Prelude.Table.{Table, exists, select_where}
use ambient_agent.Json.{Json, str, get_or, null}
use ambient_agent.Runs.Status.{queued, is_active, is_holding, same_status}
use ambient_agent.Runs.Rows.{Run}
use ambient_agent.Runs.Events.{column_fields}

-- A text that is not empty.
abbrev non_empty : String → Option String
non_empty String.[] = none
non_empty s = some s

abbrev chat_session : Run → Option String
chat_session r =
    if r.source_type =ₛ "chat"
    then elim r.source_id [ none ↦ none | some id ↦ non_empty id ]
    else none

abbrev state_session : Json → Option String
state_session (str s) = non_empty s
state_session j = none

-- `_session_id`: the session of the checkpoint, else the chat that started the Run.
unfoldable pub session_of : Run → Option String
session_of r = elim (state_session (get_or (column_fields r.state_json) "session_id" null)) [
  | none ↦ chat_session r
  | some s ↦ some s
]

-- `(a.created_at, a.id) < (b.created_at, b.id)`
unfoldable pub is_before : String × Run → String × Run → Bool
is_before (i, a) (j, b) = elim (compare a.created_at b.created_at) [
  | Ordering.lt ↦ true
  | Ordering.gt ↦ false
  | Ordering.eq ↦ elim (compare_text i j) [ Ordering.lt ↦ true | _ ↦ false ]
]

-- Whether another row keeps the candidate of this session waiting.
unfoldable pub blocks : String → String × Run → String → Run → Bool
blocks session (id, candidate) other_id other =
    not (other_id =ₛ id)
    && is_some_text (session_of other) session
    && (is_holding other.status
        || (same_status other.status queued && is_before (other_id, other) (id, candidate)))

-- The rows that `claim_next` and `claim_specific` read as `active_rows`.
unfoldable pub active_rows : Table Run → Table Run
active_rows runs = select_where (λ id r. is_active r.status) runs

-- `_session_lane_available`
unfoldable pub session_lane_available : String × Run → Table Run → Bool
session_lane_available (id, candidate) rows = elim (session_of candidate) [
  | none ↦ true
  | some session ↦ not (exists (blocks session (id, candidate)) rows)
]
