-- ===== src/Live.antt =====
-- The fan-out of live Run events to the clients of a session, backend/run_live.py.
-- A subscriber's `asyncio.Queue` is the list of its waiting events, oldest first; a queue object is
-- named by the number of queues that were made before it. A client reads its queue by `receive`.
pub mod Window
pub mod Fresh
mod Tests
use ambient_agent.Prelude.{
  ℕ, suc, ◌+◌, String, Bool, List, [], ◌∷◌, ◌++◌, Option, none, some, length, ltb, leb, ◌==◌, ◌=ₛ◌,
  if◌then◌else◌,
}
use ambient_agent.Prelude.Table.{Table, lookup, update}
use ambient_agent.Json.{Fields}

abbrev pub Queue : Type 0
Queue = List Fields

-- `RunLiveBroker`: the bound of each queue and the queues of each session.
pub record Broker : Type 0 where
  pub queue_size : ℕ
  pub subscribers : Table (List (ℕ × Queue))
  pub created : ℕ

-- `RunLiveBroker(queue_size)`; `none` is the ValueError.
pub new_broker : ℕ → Option Broker
new_broker size =
    if ltb size 1 then none else some (record { queue_size = size; subscribers = []; created = 0 })

-- `queue.full()`
unfoldable pub full : ℕ → Queue → Bool
full size q = leb size (length q)

-- `queue.get_nowait()`, what it leaves.
unfoldable pub rest_of : Queue → Queue
rest_of [] = []
rest_of (e ∷ q) = q

-- `queue.put_nowait(event)`, where QueueFull is ignored.
unfoldable pub put_nowait : ℕ → Fields → Queue → Queue
unfolding full
put_nowait size e q = if full size q then q else q ++ e ∷ []

-- The body of the loop of `publish`: a full queue loses its oldest event first.
unfoldable pub offer : ℕ → Fields → Queue → Queue
unfolding full rest_of put_nowait
offer size e q = put_nowait size e (if full size q then rest_of q else q)

-- The loop of `publish` over the session's queues.
unfoldable pub offer_all : ℕ → Fields → List (ℕ × Queue) → List (ℕ × Queue)
unfolding offer
offer_all size e [] = []
offer_all size e ((i, q) ∷ qs) = (i, offer size e q) ∷ offer_all size e qs

unfoldable pub publish : String → Fields → Broker → Broker
unfolding offer_all update
publish session e b = record b {
  subscribers = update session (offer_all b.queue_size e) b.subscribers;
}

-- `self._subscribers[session_id].add(queue)` on the defaultdict.
unfoldable pub add_queue : String → ℕ × Queue → Table (List (ℕ × Queue)) → Table (List (ℕ × Queue))
add_queue session q [] = (session, q ∷ []) ∷ []
add_queue session q ((s, qs) ∷ t) =
    if s =ₛ session then (s, qs ++ q ∷ []) ∷ t else (s, qs) ∷ add_queue session q t

-- `subscribe`: the broker and the new queue; `none` is the ValueError on an empty session ID.
unfoldable pub subscribe : String → Broker → Option (Broker × ℕ)
unfolding add_queue
subscribe session b =
    if session =ₛ ""
    then none
    else some (
      record b {
        subscribers = add_queue session (b.created, []) b.subscribers;
        created = b.created + 1;
      },
      b.created,
    )

-- `subscribers.discard(queue)`
unfoldable pub discard : ℕ → List (ℕ × Queue) → List (ℕ × Queue)
discard i [] = []
discard i ((j, q) ∷ qs) = let rest = discard i qs in if j == i then rest else (j, q) ∷ rest

-- The session's entry after its discard: popped if no queue is left.
unfoldable pub keep_queues :
    String → List (ℕ × Queue) → Table (List (ℕ × Queue)) → Table (List (ℕ × Queue))
keep_queues session [] t = t
keep_queues session (q ∷ qs) t = (session, q ∷ qs) ∷ t

unfoldable pub drop_queue : String → ℕ → Table (List (ℕ × Queue)) → Table (List (ℕ × Queue))
unfolding discard keep_queues
drop_queue session i [] = []
drop_queue session i ((s, []) ∷ t) =
    let rest = drop_queue session i t in if s =ₛ session then (s, []) ∷ t else (s, []) ∷ rest
drop_queue session i ((s, q ∷ qs) ∷ t) =
    let rest = drop_queue session i t in
    if s =ₛ session then keep_queues s (discard i (q ∷ qs)) t else (s, q ∷ qs) ∷ rest

unfoldable pub unsubscribe : String → ℕ → Broker → Broker
unfolding drop_queue
unsubscribe session i b = record b { subscribers = drop_queue session i b.subscribers }

-- `len(self._subscribers.get(session_id, ()))`
unfoldable pub subscriber_count : String → Broker → ℕ
unfolding lookup
subscriber_count session b = elim (lookup session b.subscribers) [ none ↦ 0 | some qs ↦ length qs ]

-- A client takes the oldest event from its queue.
unfoldable pub take_first : ℕ → List (ℕ × Queue) → List (ℕ × Queue)
unfolding rest_of
take_first i [] = []
take_first i ((j, q) ∷ qs) = if j == i then (j, rest_of q) ∷ qs else (j, q) ∷ take_first i qs

unfoldable pub receive : String → ℕ → Broker → Broker
unfolding take_first update
receive session i b = record b { subscribers = update session (take_first i) b.subscribers }

-- The events that wait in a queue.
unfoldable pub find_queue : ℕ → List (ℕ × Queue) → Option Queue
find_queue i [] = none
find_queue i ((j, q) ∷ qs) = if j == i then some q else find_queue i qs

unfoldable pub waiting : String → ℕ → Broker → Option Queue
unfolding find_queue lookup
waiting session i b = elim (lookup session b.subscribers) [
  | none ↦ none
  | some qs ↦ find_queue i qs
]
