-- ===== src/Lib.antt =====
-- Verification of the backend of Ambient Agent: the durable Run store (backend/run_service.py), the
-- workflow of an agent Run, its live events, the prompts that are built from a conversation, the
-- capability policy of Apps and the order of skill versions.
--
-- The program. Every piece of agent work is a Run: a row of `runs.db` with a status, a version, a
-- lease and a JSON checkpoint. Workers claim queued Runs (`claim_next`, `claim_specific`), keep them
-- with heartbeats, and write one reducer attempt at a time (`begin_step_attempt`, `commit_step`); a
-- Run may ask the user a question (`wait_for_interaction`, a `Wait` outcome) and is taken up by the
-- answer (`resolve_interaction`), which may leave a permission grant in an outbox. A Run may be
-- cancelled (`request_cancel`), lose its worker (`recover_orphaned`, `release_worker`), or leave an
-- effect in doubt that a person settles (`reconcile_effect`). Every change appends to one event
-- stream that clients read in pages (`events_after`). `RunStore`, the part of the service that owns
-- this state, is modelled operation by operation. What an agent Run does is a reducer over its
-- checkpoint (`DurableAgentWorkflow`): one phase at a time, with questions to the user between them.
-- While a Run works, `RunLiveBroker` fans out events
-- that are not stored; the model that works for it is given a prompt that `ContextManager` builds
-- from the stored messages; an App that it made reaches the graph store, files and the network only
-- through `CapabilityAuthorizer`; and a skill is replaced by another if `compare_semver` says so.
--
-- The files.
--   Prelude            texts, numbers and lists; Table is a SQL table as an association list with
--                      SELECT, UPDATE, COUNT; Keys and Counts are its lemmas on primary keys.
--   Json               JSON values and the dict operations the code uses on them.
--                      Texts are lists of code points.
--   Live               run_live.py; Window has the specification of one subscriber, Fresh that a new
--                      queue meets it.
--   Skills.Version     skill_version.py; Numerals and Order hold the lemmas and the order.
--   Context            context_manager.py: truncation, artifact references and the recap; Prompt is
--                      build_llm_prompt; Bounds and Recap hold the theorems.
--   Capabilities       capabilities/policy.py: Grants has the grants in their normal form and _grant,
--                      Policy the authorize methods, Files authorize_file; Mutations and Queries hold
--                      theorems.
--   Workflow           agent/durable_workflow.py: the checkpoint and the replies; Handlers and Widget
--                      have the _phase_ methods, Reduce has _reduce_once and _failure; Approval and
--                      its modules hold the invariant of the phases and the theorems.
--   Runs.Status        ACTIVE_STATUSES, TERMINAL_STATUSES, _TRANSITIONS.
--   Runs.State         RunBudget, AgentRunState and their validators.
--   Runs.Rows          the tables of RunStore._initialize as records, and the Store that holds them.
--   Runs.Errors        the exceptions, and the result type of an operation that may raise.
--   Runs.Sanitize      _sanitize_event_value.
--   Runs.Events        _append_event (`insert_event`), append_event, events_after, stream_info.
--   Runs.Lane          _session_id, _session_lane_available.
--   Runs.Claim         claim_next, claim_specific, heartbeat.
--   Runs.Steps         begin_step_attempt, begin_step, finish_step.
--   Runs.Transition    transition, update_progress.
--   Runs.Outcome       StepOutcome and its subclasses, and what each means for the Run.
--   Runs.Commit        commit_step.
--   Runs.Interactions  create_interaction, wait_for_interaction, get_interaction, resolve_interaction.
--   Runs.Grants        the permission outbox.
--   Runs.Staging       recover_pending_staging_cleanup and the checkpoint helpers before RunStore.
--   Runs.Recovery      finalize_cancel_requested, recover_orphaned, release_worker.
--   Runs.Cancel        request_cancel.
--   Runs.Reconcile     reconcile_effect.
--   Runs.Create        create_run, has_active_runtime, has_active_owner, cleanup_events.
--   Runs.Purge         session_runs_for_purge, purge_session.
--   Runs.Evolution     how one Run may change, and that every operation keeps to it.
--   Runs.Trace         a call of any operation but the purge, which deletes Runs, as a value
--                      (`Call`), and sequences of calls.
--   Runs.Fencing, Budget, Lifetime, Settlement, Answering, Resumption, Release, Guards, Cancellation,
--   Idempotency, Quiet, Claim.Order, Claim.Admission, Events.Paging,
--   Purge.Closure, Purge.Deletion, Sanitize.Bounds, Sanitize.Safety, Sanitize.Faithful  hold the theorems; Runs.Tests holds small stores on which they are used.
--
-- The model. A store is the record of its tables. An operation takes the arguments of the method,
-- the reading of the clock and the store, and returns the new store, or an exception where the method
-- raises; SQLite rolls back a transaction that raises, so the store is then unchanged. Write
-- transactions are serialized by BEGIN IMMEDIATE, so a run of the program is a sequence of calls. A
-- method that returns the row it wrote returns the new store, and where the row is chosen by the
-- method its id. Times are natural numbers of microseconds, which sort as the ISO texts of the source
-- do; progress and costs are counted in millionths. A JSON column is NULL, a JSON value, or a text
-- that json.loads refuses. The identifiers that uuid4 draws are arguments. Whether deleting a staged
-- directory raises (`discard`), and whether a staged App is already live (`check`), is read from the
-- file system by code outside RunStore, and is an argument of the operations that ask. A subscriber's queue
-- is named by the count of queues that were made before it. What the code asks of `json`, of
-- `PurePosixPath.match`, of the App manager and of the graph store is an argument. A step of
-- the workflow is given the replies of every call that its phase may make; a reply may be an exception.
-- What a step reports (responses that were read, approvals, verifications, publications, commits and
-- retries) is a list of events,
-- and `Reach` has the checkpoints and histories of a Run that is still going. Characters are
-- classified in ASCII (digits, white space, upper case). All recursion
-- is structural; the decimal digits in the truncation mark take the number itself as fuel, which is
-- enough since a division by ten shrinks it.
--
-- Not modelled: the event_id and schema_version columns, which nothing reads back; the migrations of
-- old databases; the reads get_run, list_runs and retained_staging_paths; and
-- `_coerce_outcome`, whose work is done by the type of outcomes; how grants are brought to their
-- normal form (capabilities/models.py), of which the policy takes the result. In the workflow: the prompts and
-- progress messages, the checks inside _phase_multi_preflight, the choice of schema extensions, the
-- wall clock of a checkpoint (`admitted` is the answer), the status of a failed
-- draft, a task that is cancelled within a step, and an explicit retry of a Run that has ended. RunCoordinator, the HTTP routes, the
-- models and the user interface are clients of these parts. Theorems about a table whose keys are
-- distinct say so: SQLite's primary keys make it hold of every store of the program.
pub mod Prelude
pub mod Json
pub mod Runs
pub mod Live
pub mod Skills
pub mod Context
pub mod Capabilities
pub mod Workflow
