-- ===== src/Live/Fresh.antt =====
-- A queue that subscribe makes is a new one, and from there on it shows the specified channel.
use ambient_agent.Prelude.{
  ℕ, ◌+◌, ◌<◌, String, ◌≡◌, refl, ◌∙◌, sym, List, [], ◌∷◌, ◌++◌, none, some, arith, eq_iff, ◌==◌,
  ◌=ₛ◌, inl, inr, Bool-cases, All,
}
use mathlib.Core.Path.{subst}
use ambient_agent.Prelude.Table.{Table, lookup, update, update_where}
use ambient_agent.Json.{Fields}
use ambient_agent.Live.{
  Broker, Queue, new_broker, offer_all, publish, add_queue, subscribe, discard, drop_queue,
  unsubscribe, take_first, receive, find_queue, waiting, keep_queues,
}
use ambient_agent.Live.Window.{
  Op, publishes, subscribes, unsubscribes, receives, perform, perform_all, specified_all, Stays,
  Shows, found, perform_all-Shows, queue_size-perform,
}

-- The numbers of all queues are below the one that is given next.
abbrev QueuesBelow : ℕ → List (ℕ × Queue) → Type 0
QueuesBelow n qs = All (λ (q : ℕ × Queue). q.0 < n) qs

abbrev Below : ℕ → Table (List (ℕ × Queue)) → Type 0
Below n t = All (λ (e : String × List (ℕ × Queue)). QueuesBelow n e.1) t

find_queue_fresh : (n : ℕ) (qs : List (ℕ × Queue)) → QueuesBelow n qs → find_queue n qs ≡ none
unfolding find_queue
find_queue_fresh n [] h = refl
find_queue_fresh n ((j, q) ∷ qs) h = ground (arith, find_queue_fresh n qs h.1)

found_fresh :
    (n : ℕ) (session : String) (t : Table (List (ℕ × Queue))) → Below n t → found session n t ≡ none
unfolding lookup
found_fresh n session [] h = refl
found_fresh n session ((s, qs) ∷ t) h =
    ground (arith, find_queue_fresh n qs h.0, found_fresh n session t h.1)

QueuesBelow-suc : (n : ℕ) (qs : List (ℕ × Queue)) → QueuesBelow n qs → QueuesBelow (n + 1) qs
QueuesBelow-suc n [] h = tt
QueuesBelow-suc n ((j, q) ∷ qs) h = (omega arith, QueuesBelow-suc n qs h.1)

QueuesBelow-append :
    (n : ℕ) (qs : List (ℕ × Queue)) (q : Queue)
    → QueuesBelow n qs
    → QueuesBelow (n + 1) (qs ++ (n, q) ∷ [])
QueuesBelow-append n [] q h = (omega arith, tt)
QueuesBelow-append n ((j, r) ∷ qs) q h = (omega arith, QueuesBelow-append n qs q h.1)

Below-suc : (n : ℕ) (t : Table (List (ℕ × Queue))) → Below n t → Below (n + 1) t
Below-suc n [] h = tt
Below-suc n ((s, qs) ∷ t) h = (QueuesBelow-suc n qs h.0, Below-suc n t h.1)

QueuesBelow-offer_all :
    (n size : ℕ) (e : Fields) (qs : List (ℕ × Queue))
    → QueuesBelow n qs
    → QueuesBelow n (offer_all size e qs)
unfolding offer_all
QueuesBelow-offer_all n size e [] h = tt
QueuesBelow-offer_all n size e ((j, q) ∷ qs) h = (h.0, QueuesBelow-offer_all n size e qs h.1)

QueuesBelow-take_first :
    (n i : ℕ) (qs : List (ℕ × Queue)) → QueuesBelow n qs → QueuesBelow n (take_first i qs)
unfolding take_first
QueuesBelow-take_first n i [] h = tt
QueuesBelow-take_first n i ((j, q) ∷ qs) h = elim (Bool-cases (j == i)) [
  | inl e ↦ rw e h
  | inr e ↦ rw e (h.0, QueuesBelow-take_first n i qs h.1)
]

QueuesBelow-discard :
    (n i : ℕ) (qs : List (ℕ × Queue)) → QueuesBelow n qs → QueuesBelow n (discard i qs)
unfolding discard
QueuesBelow-discard n i [] h = tt
QueuesBelow-discard n i ((j, q) ∷ qs) h = elim (Bool-cases (j == i)) [
  | inl e ↦ rw e (QueuesBelow-discard n i qs h.1)
  | inr e ↦ rw e (h.0, QueuesBelow-discard n i qs h.1)
]

Below-update :
    (n : ℕ) (session : String) (f : List (ℕ × Queue) → List (ℕ × Queue))
    (t : Table (List (ℕ × Queue)))
    → ((qs : List (ℕ × Queue)) → QueuesBelow n qs → QueuesBelow n (f qs))
    → Below n t
    → Below n (update session f t)
unfolding update update_where
Below-update n session f [] k h = tt
Below-update n session f ((s, qs) ∷ t) k h = elim (Bool-cases (s =ₛ session)) [
  | inl e ↦ rw e (k qs h.0, Below-update n session f t k h.1)
  | inr e ↦ rw e (h.0, Below-update n session f t k h.1)
]

Below-add_queue :
    (n : ℕ) (session : String) (q : Queue) (t : Table (List (ℕ × Queue)))
    → Below n t
    → Below (n + 1) (add_queue session (n, q) t)
unfolding add_queue
Below-add_queue n session q [] h = (omega arith, tt)
Below-add_queue n session q ((s, qs) ∷ t) h = elim (Bool-cases (s =ₛ session)) [
  | inl e ↦ rw e (QueuesBelow-append n qs q h.0, Below-suc n t h.1)
  | inr e ↦ rw e (QueuesBelow-suc n qs h.0, Below-add_queue n session q t h.1)
]

Below-keep_queues :
    (n : ℕ) (session : String) (qs : List (ℕ × Queue)) (t : Table (List (ℕ × Queue)))
    → QueuesBelow n qs
    → Below n t
    → Below n (keep_queues session qs t)
unfolding keep_queues
Below-keep_queues n session [] t hq h = h
Below-keep_queues n session (q ∷ qs) t hq h = (hq, h)

Below-drop_queue :
    (n : ℕ) (session : String) (i : ℕ) (t : Table (List (ℕ × Queue)))
    → Below n t
    → Below n (drop_queue session i t)
unfolding drop_queue
Below-drop_queue n session i [] h = tt
Below-drop_queue n session i ((s, []) ∷ t) h = elim (Bool-cases (s =ₛ session)) [
  | inl e ↦ rw e h
  | inr e ↦ rw e (h.0, Below-drop_queue n session i t h.1)
]
Below-drop_queue n session i ((s, q ∷ qs) ∷ t) h = elim (Bool-cases (s =ₛ session)) [
  | inl e ↦
      rw e (Below-keep_queues n s (discard i (q ∷ qs)) t (QueuesBelow-discard n i (q ∷ qs) h.0) h.1)
  | inr e ↦ rw e (h.0, Below-drop_queue n session i t h.1)
]

abbrev IsFresh : Broker → Type 0
IsFresh b = Below b.created b.subscribers

perform-IsFresh : (o : Op) (b : Broker) → IsFresh b → IsFresh (perform o b)
unfolding perform publish subscribe unsubscribe receive
perform-IsFresh (publishes s e) b h =
    Below-update b.created s _ b.subscribers (QueuesBelow-offer_all b.created b.queue_size e) h
perform-IsFresh (subscribes s) b h = elim (Bool-cases (s =ₛ "")) [
  | inl e ↦ rw (e, perform, IsFresh) h
  | inr e ↦ rw (e, perform, IsFresh) (Below-add_queue b.created s [] b.subscribers h)
]
perform-IsFresh (unsubscribes s i) b h = Below-drop_queue b.created s i b.subscribers h
perform-IsFresh (receives s i) b h =
    Below-update b.created s _ b.subscribers (QueuesBelow-take_first b.created i) h

perform_all-IsFresh : (os : List Op) (b : Broker) → IsFresh b → IsFresh (perform_all os b)
unfolding perform_all
perform_all-IsFresh [] b h = h
perform_all-IsFresh (o ∷ os) b h = perform_all-IsFresh os (perform o b) (perform-IsFresh o b h)

queue_size-perform_all : (os : List Op) (b : Broker) → (perform_all os b).queue_size ≡ b.queue_size
unfolding perform_all
queue_size-perform_all [] b = refl
queue_size-perform_all (o ∷ os) b = queue_size-perform_all os (perform o b) ∙ queue_size-perform o b

find_queue-append_new :
    (i : ℕ) (qs : List (ℕ × Queue)) (q : Queue)
    → find_queue i qs ≡ none
    → find_queue i (qs ++ (i, q) ∷ []) ≡ some q
unfolding find_queue
find_queue-append_new i [] q h = ground arith
find_queue-append_new i ((k, r) ∷ qs) q h = ground (arith, find_queue-append_new i qs q)

found-add_queue_new :
    (session : String) (i : ℕ) (q : Queue) (t : Table (List (ℕ × Queue)))
    → found session i t ≡ none
    → found session i (add_queue session (i, q) t) ≡ some q
unfolding add_queue lookup find_queue
found-add_queue_new session i q [] h = ground (arith, eq_iff session session)
found-add_queue_new session i q ((k, qs) ∷ t) h =
    ground
      (arith, eq_iff k session, find_queue-append_new i qs q, found-add_queue_new session i q t)

subscribe-Shows :
    (session : String) (b c : Broker) (i : ℕ)
    → IsFresh b
    → 0 < b.queue_size
    → subscribe session b ≡ some (c, i)
    → Shows c session i (record { log = []; past = 0 }) × (c.queue_size ≡ b.queue_size)
unfolding subscribe waiting
subscribe-Shows session b c i h p e = ground (
  arith,
  found_fresh b.created session b.subscribers h,
  found-add_queue_new session b.created [] b.subscribers,
)

new_broker-IsFresh :
    (size : ℕ) (b : Broker)
    → new_broker size ≡ some b
    → (0 < size) × (b.queue_size ≡ size) × (b.subscribers ≡ [])
unfolding new_broker
new_broker-IsFresh size b e = ground arith

-- A broker that was made with a queue size, and on which any operations were performed, is
-- subscribed to for a session: whatever is then published, subscribed, read and unsubscribed, as
-- long as this queue is not, its content is the log of the session since the subscription without
-- what is past. An event is past when the client took it or when `size` later events were
-- published, and at most `size` events wait.
pub subscriber_refines :
    (size : ℕ) (b0 c : Broker) (before after : List Op) (session : String) (i : ℕ)
    → new_broker size ≡ some b0
    → subscribe session (perform_all before b0) ≡ some (c, i)
    → All (Stays session i) after
    → Shows
        (perform_all after c)
        session
        i
        (specified_all size session i after (record { log = []; past = 0 }))
subscriber_refines size b0 c before after session i e0 es st =
    let made = new_broker-IsFresh size b0 e0 in
    let fresh : IsFresh b0 = subst (λ t. Below b0.created t) (sym made.2) tt in
    let same : (perform_all before b0).queue_size ≡ size =
      queue_size-perform_all before b0 ∙ made.1 in
    let shown =
      subscribe-Shows session (perform_all before b0) c i (perform_all-IsFresh before b0 fresh)
        (omega arith) es in
    subst
      (λ n.
        Shows (perform_all after c) session i
          (specified_all n session i after (record { log = []; past = 0 })))
      (shown.1 ∙ same) (perform_all-Shows after c session i _ st shown.0)
