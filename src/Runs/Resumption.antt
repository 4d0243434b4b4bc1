-- ===== src/Runs/Resumption.antt =====
-- The round trip of a question: a `Wait` outcome parks the Run (`commit_step`), the answer queues it.
use ambient_agent.Prelude.{String, ◌≡◌, true}
use ambient_agent.Runs.Rows.{Interaction}
use ambient_agent.Runs.Transition.{is_pending}

-- A pending question of the Run.
abbrev Asks : String → Interaction → Type 0
Asks run_id i = (i.run_id ≡ run_id) × (is_pending i.status ≡ true)
