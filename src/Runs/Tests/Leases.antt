-- ===== src/Runs/Tests/Leases.antt =====
-- Leases, claims, recovery and endings on a store of one Run.
use ambient_agent.Prelude.{
  ◌+◌, ◌<◌, ◌≤◌, String, ◌≡◌, refl, false, none, some, List, [], ◌∷◌, arith, find?, any,
  if◌then◌else◌,
}
use mathlib.Core.Option
use ambient_agent.Prelude.Table.{lookup, update, count, exists, select_where}
use ambient_agent.Json.{get, get_or, fields_of}
use ambient_agent.Runs.Status.{
  queued, running, cancel_requested, succeeded, is_leased, is_active, is_holding,
}
use ambient_agent.Runs.Rows.{Run, Store, for_rows}
use ambient_agent.Runs.Events.{holds_lease, insert_event, column_fields}
use ambient_agent.Runs.Lane.{session_lane_available, session_of, active_rows, blocks, is_before}
use ambient_agent.Runs.Steps.{close_running_steps}
use ambient_agent.Runs.Claim.{
  claim_next, claim_specific, may_claim, take_lease, running_count, owner_count, candidates,
  order_rows, insert_ordered, is_candidate, is_eligible, has_pending_grant,
}
use ambient_agent.Runs.Claim.Admission.{Admitted, Chosen, claim_next_admits, claim_specific_admits}
use ambient_agent.Runs.Recovery.{
  close_if_settled, release_row, orphan_target, orphaned, is_orphan, recover_leases, is_leased_by,
  release_worker,
}
use ambient_agent.Runs.Trace.{Call, perform_all}
use ambient_agent.Runs.Fencing.{RefusesLease, stale_lease_refused}
use ambient_agent.Runs.Lifetime.{Outlives, runs_outlive, stopped_never_claimed}
use ambient_agent.Runs.Release.{
  release_worker_pointwise, recover_leases_pointwise, recover_leases_complete, heartbeat_protects,
}
use ambient_agent.Runs.Claim.{heartbeat}
use ambient_agent.Runs.Purge.{
  delete_runs, session_run_rows, purge_session, rounds, next_round, joins, has_id, starts_session,
  is_child_of,
}
use ambient_agent.Runs.Purge.Deletion.{Purged, purge_session_purges}
use ambient_agent.Runs.Tests.{run_of, store_of}

abbrev at_work : Store
at_work = store_of [] [] (run_of running (some "w2") 2)

abbrev waiting_turn : Store
waiting_turn = store_of [] [] (run_of queued none 0)

abbrev handover : List Call
handover = Call.release "w2" 5 ∷ Call.claim_one "r" "w3" 4 2 60 6 ∷ []

stale_lease_refused_example :
    RefusesLease "r" (record { owner = "w1"; epoch = 1 }) (perform_all handover at_work)
unfolding lookup holds_lease
stale_lease_refused_example =
    stale_lease_refused "r" (run_of running (some "w2") 2) (record { owner = "w1"; epoch = 1 })
      at_work handover (refl, tt) refl (omega arith) refl

runs_outlive_example : Outlives "r" (run_of running (some "w2") 2) (perform_all handover at_work)
unfolding lookup
runs_outlive_example =
    runs_outlive "r" (run_of running (some "w2") 2) at_work handover (refl, tt) refl

abbrev stopping : Store
stopping = store_of [] [] (run_of cancel_requested (some "w2") 2)

stopped_never_claimed_example :
    claim_specific "r" "w3" 4 2 60 9 (perform_all handover stopping)
    ≡ (perform_all handover stopping, none)
unfolding lookup
stopped_never_claimed_example =
    stopped_never_claimed "r" "w3" 4 2 60 9 (run_of cancel_requested (some "w2") 2) stopping
      handover (refl, tt) refl refl

abbrev claimed_turn : Store
claimed_turn = take_lease "r" "w1" 6 (6 + 60) waiting_turn

claim_next_admits_example :
    (r : Run) × Chosen "r" "w1" 4 2 6 (6 + 60) [] r waiting_turn claimed_turn
unfolding lookup claim_next claim_specific may_claim running_count count is_leased find? candidates
    order_rows insert_ordered select_where is_candidate has_pending_grant exists any owner_count
    session_lane_available session_of get_or get column_fields is_eligible active_rows is_active
    blocks is_holding is_before fields_of
claim_next_admits_example =
    claim_next_admits "w1" 4 2 60 [] 6 waiting_turn claimed_turn "r" (refl, tt) refl

claim_specific_admits_example :
    (◌≡◌ {A = String} "r" "r")
    × ((r : Run) × Admitted "r" "w1" 6 (6 + 60) r waiting_turn claimed_turn
        × (running_count claimed_turn.runs ≤ 4)
        × (owner_count r.owner_id waiting_turn.runs < 2))
unfolding lookup claim_next claim_specific may_claim running_count count is_leased find? candidates
    order_rows insert_ordered select_where is_candidate has_pending_grant exists any owner_count
    session_lane_available session_of get_or get column_fields is_eligible active_rows is_active
    blocks is_holding is_before fields_of
claim_specific_admits_example =
    claim_specific_admits "r" "w1" 4 2 60 6 waiting_turn claimed_turn "r" (refl, tt) refl

release_worker_pointwise_example :
    lookup "r" (release_worker "w2" 5 at_work).0.runs
    ≡ Option.map
        (λ r. if is_leased_by "w2" r then orphaned (orphan_target "r" r at_work) 5 r else r)
        (lookup "r" at_work.runs)
unfolding lookup
release_worker_pointwise_example = release_worker_pointwise "w2" 5 at_work "r" (refl, tt)

recover_leases_pointwise_example :
    lookup "r" (recover_leases 20 at_work).0.runs
    ≡ Option.map
        (λ r. if is_orphan 20 r then orphaned (orphan_target "r" r at_work) 20 r else r)
        (lookup "r" at_work.runs)
unfolding lookup
recover_leases_pointwise_example = recover_leases_pointwise 20 at_work "r" (refl, tt)

abbrev recovered_run : Run
recovered_run = orphaned queued 20 (run_of running (some "w2") 2)

recover_leases_complete_example : is_orphan 20 recovered_run ≡ false
unfolding lookup recover_leases for_rows select_where is_leased release_row insert_event
    close_if_settled orphan_target close_running_steps update
recover_leases_complete_example =
    recover_leases_complete 20 at_work "r" recovered_run (refl, tt) refl

heartbeat_protects_example :
    lookup "r" (recover_leases 50 (heartbeat "w2" 60 none 5 at_work)).0.runs
    ≡ some (record (run_of running (some "w2") 2) { lease_expires_at = some (5 + 60) })
unfolding lookup is_leased_by is_leased
heartbeat_protects_example =
    heartbeat_protects "w2" 60 5 50 at_work "r" (run_of running (some "w2") 2) (refl, tt) refl refl
      (omega arith)

abbrev ended_chat : Store
ended_chat = store_of [] [] (run_of succeeded none 1)

purge_session_purges_example :
    Purged "s1" ended_chat (delete_runs (session_run_rows "s1" ended_chat.runs) ended_chat)
unfolding lookup purge_session session_run_rows rounds next_round joins has_id select_where
    starts_session exists is_active is_child_of
purge_session_purges_example =
    purge_session_purges "s1" ended_chat
      (delete_runs (session_run_rows "s1" ended_chat.runs) ended_chat) ("r" ∷ []) (refl, tt) refl
