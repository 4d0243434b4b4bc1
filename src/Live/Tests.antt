-- ===== src/Live/Tests.antt =====
-- A slow client of a broker with room for two events.
use ambient_agent.Prelude.{String, List, [], ◌∷◌, some, ◌≡◌, refl}
use ambient_agent.Json.{Fields, object, num}
use ambient_agent.Live.{Broker, new_broker, subscribe, subscriber_count, waiting}
use ambient_agent.Live.Window.{
  Op, publishes, subscribes, unsubscribes, receives, perform_all, Shows, specified_all,
}
use ambient_agent.Live.Fresh.{subscriber_refines}

abbrev event : String → Fields
event k = object ((k, num 1) ∷ [])

abbrev small : Broker
small = record { queue_size = 2; subscribers = []; created = 0 }

abbrev earlier : List Op
earlier = subscribes "other" ∷ publishes "s" (event "lost") ∷ []

abbrev later : List Op
later =
    publishes "s" (event "a")
    ∷ publishes "other" (event "b")
    ∷ publishes "s" (event "c")
    ∷ publishes "s" (event "d")
    ∷ receives "s" 1
    ∷ unsubscribes "other" 0
    ∷ []

abbrev joined : Broker
joined = record {
  queue_size = 2;
  subscribers = ("other", (0, []) ∷ []) ∷ ("s", (1, []) ∷ []) ∷ [];
  created = 2;
}

slow_client : waiting "s" 1 (perform_all later joined) ≡ some (event "d" ∷ [])
unfolding perform_all waiting
slow_client = refl

none_left : subscriber_count "other" (perform_all later joined) ≡ 0
unfolding perform_all subscriber_count
none_left = refl

subscriber_refines_example :
    Shows
      (perform_all later joined)
      "s"
      1
      (specified_all 2 "s" 1 later (record { log = []; past = 0 }))
unfolding new_broker perform_all subscribe
subscriber_refines_example =
    subscriber_refines 2 small joined earlier later "s" 1 refl refl
      (tt, (tt, (tt, (tt, (tt, (refl, tt))))))
