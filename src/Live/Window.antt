-- ===== src/Live/Window.antt =====
-- What a subscriber reads: the code's bounded queues against a channel that keeps its whole log.
use ambient_agent.Prelude.{
  ℕ, zero, suc, ◌+◌, ◌-◌, ◌≤◌, ◌<◌, String, ◌≡◌, refl, false, List, [], ◌∷◌, ◌++◌, Option, none,
  some, arith, eq_iff, length, drop, ltb, leb, ◌==◌, ◌=ₛ◌, if◌then◌else◌, inl, inr, Bool-cases,
  Option-cases, ◌&&◌, All,
}
use ambient_agent.Prelude.Table.{Table, lookup, update, lookup-update}
use ambient_agent.Json.{Fields}
use ambient_agent.Live.{
  Broker, Queue, full, rest_of, put_nowait, offer, offer_all, publish, add_queue, subscribe,
  discard, drop_queue, unsubscribe, take_first, receive, find_queue, waiting, keep_queues,
}
use mathlib.Core.Option

-- What the clients and the producer do to a broker.
pub data Op : Type 0 where
  publishes : String → Fields → Op
  subscribes : String → Op
  unsubscribes : String → ℕ → Op
  receives : String → ℕ → Op

-- A refused subscription leaves the broker as it was.
unfoldable pub perform : Op → Broker → Broker
unfolding publish subscribe unsubscribe receive
perform (publishes s e) b = publish s e b
perform (subscribes s) b = elim (subscribe s b) [ none ↦ b | some r ↦ r.0 ]
perform (unsubscribes s i) b = unsubscribe s i b
perform (receives s i) b = receive s i b

unfoldable pub perform_all : List Op → Broker → Broker
unfolding perform
perform_all [] b = b
perform_all (o ∷ os) b = perform_all os (perform o b)

-- The specification of one subscriber: all that was published to the session since the subscription,
-- and how much of it the client has read or lost.
pub record Channel : Type 0 where
  pub log : List Fields
  pub past : ℕ

abbrev pub max : ℕ → ℕ → ℕ
max a b = if leb a b then b else a

-- An event is appended to the log, and all but the last `size` events are past.
unfoldable pub accept : ℕ → Fields → Channel → Channel
accept size e c = record { log = c.log ++ e ∷ []; past = max c.past (length c.log + 1 - size) }

-- A read moves past one event, if there is one.
unfoldable pub read : Channel → Channel
read c = record c { past = if ltb c.past (length c.log) then c.past + 1 else c.past }

unfoldable pub specified : ℕ → String → ℕ → Op → Channel → Channel
unfolding accept read
specified size session i (publishes s e) c = if s =ₛ session then accept size e c else c
specified size session i (subscribes s) c = c
specified size session i (unsubscribes s j) c = c
specified size session i (receives s j) c = if s =ₛ session && j == i then read c else c

unfoldable pub specified_all : ℕ → String → ℕ → List Op → Channel → Channel
unfolding specified
specified_all size session i [] c = c
specified_all size session i (o ∷ os) c =
    specified_all size session i os (specified size session i o c)

-- The subscriber is not among those that are unsubscribed.
abbrev pub Stays : String → ℕ → Op → Type 0
Stays session i (unsubscribes s j) = (s =ₛ session && j == i) ≡ false
Stays session i _ = Unit

-- What waits in the queue is the log without what is past; at most `size` events wait.
pub record Shows (b : Broker) (session : String) (i : ℕ) (c : Channel) : Type 0 where
  pub content : waiting session i b ≡ some (drop c.past c.log)
  pub within : c.past ≤ length c.log
  pub bounded : length c.log ≤ c.past + b.queue_size
  pub positive : 0 < b.queue_size

length-drop : (n : ℕ) (xs : List Fields) → n ≤ length xs → length (drop n xs) + n ≡ length xs
length-drop zero xs h = omega arith
length-drop (suc n) [] h = absurd (omega arith)
length-drop (suc n) (x ∷ xs) h = omega (arith, length-drop n xs (omega arith))

length-append_one : (xs : List Fields) (e : Fields) → length (xs ++ e ∷ []) ≡ length xs + 1
length-append_one [] e = refl
length-append_one (x ∷ xs) e = omega (arith, length-append_one xs e)

drop-append :
    (n : ℕ) (xs : List Fields) (e : Fields)
    → n ≤ length xs
    → drop n (xs ++ e ∷ []) ≡ drop n xs ++ e ∷ []
drop-append zero xs e h = refl
drop-append (suc n) [] e h = absurd (omega arith)
drop-append (suc n) (x ∷ xs) e h = drop-append n xs e (omega arith)

rest_of-drop : (n : ℕ) (xs : List Fields) → rest_of (drop n xs) ≡ drop (suc n) xs
unfolding rest_of
rest_of-drop zero [] = refl
rest_of-drop zero (x ∷ xs) = refl
rest_of-drop (suc n) [] = refl
rest_of-drop (suc n) (x ∷ xs) = rest_of-drop n xs

rest_of-drop_end :
    (n : ℕ) (xs : List Fields)
    → n ≤ length xs
    → ltb n (length xs) ≡ false
    → rest_of (drop n xs) ≡ drop n xs
unfolding rest_of
rest_of-drop_end zero [] w h = refl
rest_of-drop_end zero (x ∷ xs) w h = ground arith
rest_of-drop_end (suc n) [] w h = refl
rest_of-drop_end (suc n) (x ∷ xs) w h = ground (arith, rest_of-drop_end n xs (omega arith))

-- A full queue is shorter by one before the new event is put.
offer_lem :
    (size : ℕ) (e : Fields) (c : Channel)
    → 0 < size
    → c.past ≤ length c.log
    → length c.log ≤ c.past + size
    → offer size e (drop c.past c.log) ≡ drop (accept size e c).past (accept size e c).log
unfolding offer put_nowait full accept
offer_lem size e c p w b = ground (
  arith,
  length-drop c.past c.log w,
  length-drop (suc c.past) c.log,
  rest_of-drop c.past c.log,
  drop-append c.past c.log e,
  drop-append (suc c.past) c.log e,
)

pub find_queue-offer_all :
    (i size : ℕ) (e : Fields) (qs : List (ℕ × Queue))
    → find_queue i (offer_all size e qs) ≡ Option.map (offer size e) (find_queue i qs)
unfolding find_queue offer_all
find_queue-offer_all i size e [] = refl
find_queue-offer_all i size e ((j, q) ∷ qs) = ground (arith, find_queue-offer_all i size e qs)

pub find_queue-take_first :
    (i j : ℕ) (qs : List (ℕ × Queue))
    → find_queue i (take_first j qs)
      ≡ Option.map (λ q. if j == i then rest_of q else q) (find_queue i qs)
unfolding find_queue take_first
find_queue-take_first i j [] = refl
find_queue-take_first i j ((k, q) ∷ qs) = ground (arith, find_queue-take_first i j qs)

find_queue-discard :
    (i j : ℕ) (qs : List (ℕ × Queue))
    → (j == i) ≡ false
    → find_queue i (discard j qs) ≡ find_queue i qs
unfolding find_queue discard
find_queue-discard i j [] h = refl
find_queue-discard i j ((k, q) ∷ qs) h = ground (arith, find_queue-discard i j qs h)

find_queue-append :
    (i : ℕ) (q : Queue) (qs : List (ℕ × Queue)) (new : ℕ × Queue)
    → find_queue i qs ≡ some q
    → find_queue i (qs ++ new ∷ []) ≡ some q
unfolding find_queue
find_queue-append i q [] new h = ground arith
find_queue-append i q ((k, r) ∷ qs) new h = ground (arith, find_queue-append i q qs new)

-- The queue of a subscriber in a table, as `waiting` reads it.
abbrev pub found : String → ℕ → Table (List (ℕ × Queue)) → Option Queue
found session i t = elim (lookup session t) [ none ↦ none | some qs ↦ find_queue i qs ]

found-add_queue :
    (s session : String) (i : ℕ) (q : Queue) (new : ℕ × Queue) (t : Table (List (ℕ × Queue)))
    → found session i t ≡ some q
    → found session i (add_queue s new t) ≡ some q
unfolding add_queue lookup
found-add_queue s session i q new [] h = ground arith
found-add_queue s session i q new ((k, qs) ∷ t) h = ground (
  arith,
  eq_iff k s,
  eq_iff k session,
  find_queue-append i q qs new,
  found-add_queue s session i q new t,
)

-- One entry of the table, after a discard that spares the queue.
found-keep_queues :
    (session : String) (i : ℕ) (q : Queue) (qs : List (ℕ × Queue)) (t : Table (List (ℕ × Queue)))
    → find_queue i qs ≡ some q
    → found session i (keep_queues session qs t) ≡ some q
unfolding keep_queues lookup find_queue
found-keep_queues session i q [] t h = ground arith
found-keep_queues session i q ((j, r) ∷ qs) t h = ground (arith, eq_iff session session)

found-keep_other :
    (k session : String) (i : ℕ) (qs : List (ℕ × Queue)) (t : Table (List (ℕ × Queue)))
    → (k =ₛ session) ≡ false
    → found session i (keep_queues k qs t) ≡ found session i t
unfolding keep_queues lookup
found-keep_other k session i [] t n = refl
found-keep_other k session i (q ∷ qs) t n = ground arith

found-drop_queue :
    (s session : String) (i j : ℕ) (q : Queue) (t : Table (List (ℕ × Queue)))
    → (s =ₛ session && j == i) ≡ false
    → found session i t ≡ some q
    → found session i (drop_queue s j t) ≡ some q
unfolding drop_queue lookup
found-drop_queue s session i j q [] n h = h
found-drop_queue s session i j q ((k, []) ∷ t) n h =
    ground (arith, eq_iff k s, eq_iff k session, found-drop_queue s session i j q t n)
found-drop_queue s session i j q ((k, r ∷ rs) ∷ t) n h = ground (
  arith,
  eq_iff k s,
  eq_iff k session,
  eq_iff s session,
  find_queue-discard i j (r ∷ rs),
  found-keep_queues k i q (discard j (r ∷ rs)) t,
  found-keep_other k session i (discard j (r ∷ rs)) t,
  found-drop_queue s session i j q t n,
)

-- An update of the queues of one session, as a subscriber sees it.
pub waiting-update :
    (s session : String) (i : ℕ) (f : List (ℕ × Queue) → List (ℕ × Queue)) (g : Queue → Queue)
    (b : Broker)
    → ((qs : List (ℕ × Queue)) → find_queue i (f qs) ≡ Option.map g (find_queue i qs))
    → waiting session i (record b { subscribers = update s f b.subscribers })
      ≡ (if s =ₛ session then Option.map g (waiting session i b) else waiting session i b)
unfolding waiting
waiting-update s session i f g b h = elim (Option-cases (lookup session b.subscribers)) [
  | inl e ↦ ground (arith, lookup-update s session f b.subscribers, e)
  | inr (qs, e) ↦
      ground
        (arith, lookup-update s session f b.subscribers, eq_iff s session, eq_iff session s, h qs)
]

module _ (b : Broker) (session : String) (i : ℕ) (c : Channel) (h : Shows b session i c) where
  publishes-Shows :
      (s : String) (e : Fields)
      → Shows (publish s e b) session i (if s =ₛ session then accept b.queue_size e c else c)
  unfolding publish accept
  publishes-Shows s e = ground (
    arith,
    waiting-update s session i (offer_all b.queue_size e) (offer b.queue_size e) b
        (find_queue-offer_all i b.queue_size e),
    offer_lem b.queue_size e c h.positive h.within h.bounded,
    length-append_one c.log e,
  )

  receives-Shows :
      (s : String) (j : ℕ)
      → Shows (receive s j b) session i (if s =ₛ session && j == i then read c else c)
  unfolding receive read
  receives-Shows s j = ground (
    arith,
    waiting-update s session i (take_first j) (λ q. if j == i then rest_of q else q) b
        (find_queue-take_first i j),
    rest_of-drop c.past c.log,
    rest_of-drop_end c.past c.log h.within,
  )

  unsubscribes-Shows :
      (s : String) (j : ℕ)
      → (s =ₛ session && j == i) ≡ false
      → Shows (unsubscribe s j b) session i c
  unfolding unsubscribe waiting
  unsubscribes-Shows s j n =
      ground (arith, found-drop_queue s session i j (drop c.past c.log) b.subscribers n)

  add_queue-Shows :
      (s : String) (new : ℕ × Queue) (k : ℕ)
      → Shows (record b { subscribers = add_queue s new b.subscribers; created = k }) session i c
  unfolding waiting
  add_queue-Shows s new k =
      ground (arith, found-add_queue s session i (drop c.past c.log) new b.subscribers)

  subscribes-Shows : (s : String) → Shows (perform (subscribes s) b) session i c
  unfolding perform subscribe
  subscribes-Shows s = elim (Bool-cases (s =ₛ "")) [
    | inl e ↦ rw (e, perform) h
    | inr e ↦ rw (e, perform) (add_queue-Shows s (b.created, []) (b.created + 1))
  ]

-- One operation keeps the subscriber's queue at what the specification says.
perform-Shows :
    (o : Op) (b : Broker) (session : String) (i : ℕ) (c : Channel)
    → Stays session i o
    → Shows b session i c
    → Shows (perform o b) session i (specified b.queue_size session i o c)
unfolding perform specified
perform-Shows (publishes s e) b session i c st h = publishes-Shows b session i c h s e
perform-Shows (subscribes s) b session i c st h = subscribes-Shows b session i c h s
perform-Shows (unsubscribes s j) b session i c st h = unsubscribes-Shows b session i c h s j st
perform-Shows (receives s j) b session i c st h = receives-Shows b session i c h s j

pub queue_size-perform : (o : Op) (b : Broker) → (perform o b).queue_size ≡ b.queue_size
unfolding perform subscribe publish unsubscribe receive
queue_size-perform (publishes s e) b = refl
queue_size-perform (subscribes s) b = ground arith
queue_size-perform (unsubscribes s j) b = refl
queue_size-perform (receives s j) b = refl

pub perform_all-Shows :
    (os : List Op) (b : Broker) (session : String) (i : ℕ) (c : Channel)
    → All (Stays session i) os
    → Shows b session i c
    → Shows (perform_all os b) session i (specified_all b.queue_size session i os c)
unfolding perform_all specified_all
perform_all-Shows [] b session i c st h = h
perform_all-Shows (o ∷ os) b session i c st h =
    rw (queue_size-perform o b) at
      (perform_all-Shows os (perform o b) session i _ st.1 (perform-Shows o b session i c st.0 h))
