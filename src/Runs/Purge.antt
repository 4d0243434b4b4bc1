-- ===== src/Runs/Purge.antt =====
-- The purge of a chat session: `_session_run_rows`, `session_runs_for_purge`, `purge_session`
-- (backend/run_service.py). The recursive query is iterated; each round that is not the last adds a
-- Run, so as many rounds as there are Runs are enough.
pub mod Closure
pub mod Deletion
use ambient_agent.Prelude.{
  ℕ, zero, suc, String, Bool, true, false, not, ◌&&◌, ◌||◌, Option, none, some, List, [], ◌∷◌, map,
  length, select, ◌=ₛ◌, is_some_text, if◌then◌else◌,
}
use ambient_agent.Prelude.Table.{Table, lookup, exists, select_where}
use ambient_agent.Runs.Status.{is_active}
use ambient_agent.Runs.Rows.{Run, Store}
use ambient_agent.Runs.Errors.{Result, ok, err, active_session, require, ◌>>◌}

-- WHERE source_id=? AND (source_type='chat' OR adapter_type='internal_agent')
unfoldable pub starts_session : String → Run → Bool
starts_session session r =
    is_some_text r.source_id session
    && (r.source_type =ₛ "chat" || r.adapter_type =ₛ "internal_agent")

unfoldable pub has_id : Table Run → String → Bool
has_id t id = elim (lookup id t) [ none ↦ false | some r ↦ true ]

abbrev pub refers_to : Table Run → Option String → Bool
refers_to t none = false
refers_to t (some id) = has_id t id

-- ON child.parent_run_id=parent.id OR child.retry_of=parent.id
unfoldable pub is_child_of : Table Run → Run → Bool
unfolding has_id
is_child_of t r = refers_to t r.parent_run_id || refers_to t r.retry_of

-- The rows of one round: those of the round before, the first rows, and the children.
unfoldable pub joins : String → Table Run → String → Run → Bool
unfolding starts_session has_id is_child_of
joins session t id r = has_id t id || (starts_session session r || is_child_of t r)

unfoldable pub next_round : String → Table Run → Table Run → Table Run
unfolding joins
next_round session runs t = select_where (joins session t) runs

unfoldable pub rounds : ℕ → String → Table Run → Table Run → Table Run
unfolding next_round
rounds zero session runs t = t
rounds (suc n) session runs t = rounds n session runs (next_round session runs t)

-- `_session_run_rows`
unfoldable pub session_run_rows : String → Table Run → Table Run
unfolding rounds
session_run_rows session runs = rounds (length runs) session runs []

abbrev pub row_id : String × Run → String
row_id (id, r) = id

-- `session_runs_for_purge`
unfoldable pub session_runs_for_purge : String → Store → Result (List String)
unfolding session_run_rows
session_runs_for_purge session s =
    let rows = session_run_rows session s.runs in
    if exists (λ id r. is_active r.status) rows then err active_session else ok (map row_id rows)

-- DELETE FROM runs WHERE id IN (...), and what its foreign keys delete with it.
unfoldable pub delete_runs : Table Run → Store → Store
unfolding has_id
delete_runs gone s = record s {
  runs = select_where (λ id r. not (has_id gone id)) s.runs;
  steps = select (λ x. not (has_id gone x.run_id)) s.steps;
  interactions = select_where (λ id i. not (has_id gone i.run_id)) s.interactions;
  grants = select_where (λ id g. not (has_id gone g.run_id)) s.grants;
  events = select (λ e. not (has_id gone e.run_id)) s.events;
}

-- `purge_session`
unfoldable pub purge_session : String → Store → Result (Store × List String)
unfolding delete_runs session_run_rows
purge_session session s =
    let rows = session_run_rows session s.runs in
    if exists (λ id r. is_active r.status) rows
    then err active_session
    else ok (delete_runs rows s, map row_id rows)
