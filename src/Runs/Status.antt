-- ===== src/Runs/Status.antt =====
-- The statuses of a Run and the table of transitions (backend/run_service.py).
use ambient_agent.Prelude.{◌≡◌, Bool, true, false, String, arith}

pub data Status : Type 0 where
  queued running waiting_user cancel_requested needs_attention succeeded failed cancelled : Status

pub Status-discrete : Discrete Status
Status-discrete = hlevel

-- ACTIVE_STATUSES
unfoldable pub is_active : Status → Bool
is_active queued = true
is_active running = true
is_active waiting_user = true
is_active cancel_requested = true
is_active needs_attention = true
is_active _ = false

-- TERMINAL_STATUSES
unfoldable pub is_terminal : Status → Bool
is_terminal succeeded = true
is_terminal failed = true
is_terminal cancelled = true
is_terminal _ = false

-- `status IN ('running','cancel_requested')`: a worker is at work on the Run.
unfoldable pub is_leased : Status → Bool
is_leased running = true
is_leased cancel_requested = true
is_leased _ = false

-- `status in {"running","waiting_user","cancel_requested","needs_attention"}`: holds its session.
unfoldable pub is_holding : Status → Bool
is_holding running = true
is_holding waiting_user = true
is_holding cancel_requested = true
is_holding needs_attention = true
is_holding _ = false

abbrev pub same_status : Status → Status → Bool
same_status queued queued = true
same_status running running = true
same_status waiting_user waiting_user = true
same_status cancel_requested cancel_requested = true
same_status needs_attention needs_attention = true
same_status succeeded succeeded = true
same_status failed failed = true
same_status cancelled cancelled = true
same_status _ _ = false

-- _TRANSITIONS: whether the second status is in the entry of the first.
unfoldable pub transitions : Status → Status → Bool
transitions queued running = true
transitions queued failed = true
transitions queued cancelled = true
transitions queued needs_attention = true
transitions running waiting_user = true
transitions running cancel_requested = true
transitions running succeeded = true
transitions running failed = true
transitions running cancelled = true
transitions running needs_attention = true
transitions waiting_user queued = true
transitions waiting_user running = true
transitions waiting_user cancelled = true
transitions waiting_user failed = true
transitions waiting_user needs_attention = true
transitions cancel_requested cancelled = true
transitions cancel_requested failed = true
transitions cancel_requested needs_attention = true
transitions needs_attention failed = true
transitions _ _ = false

-- The text of a status in a column or an event.
unfoldable pub status_text : Status → String
status_text queued = "queued"
status_text running = "running"
status_text waiting_user = "waiting_user"
status_text cancel_requested = "cancel_requested"
status_text needs_attention = "needs_attention"
status_text succeeded = "succeeded"
status_text failed = "failed"
status_text cancelled = "cancelled"

pub same_status-eq : (a b : Status) → same_status a b ≡ true → a ≡ b
same_status-eq a b h = ground arith
