-- ===== src/Tests/Buses.antt =====
-- Examples: the bus.
use host_container.Prelude.{◌≡◌, some, List, [], ◌∷◌, length, take}
use host_container.Bus.{Bus, capacity, empty, subscribe}
use host_container.Bus.Invariant.{IsValid, empty-IsValid}
use host_container.Bus.Delivery.{
  Call, subscribes, publishes, unsubscribes, receives, run, run-IsValid, publish_each, drain,
  subscribe-publish-drain,
}
use host_container.Tests.{note, listening, listening-IsValid}

abbrev calls : List Call
calls =
    subscribes "1" ∷ publishes "1" note ∷ unsubscribes "1" 0 ∷ publishes "1" note ∷ receives 0 ∷ []

run-IsValid_example : (b : Bus) × (run calls empty ≡ some b) × IsValid b
run-IsValid_example = run-IsValid calls empty empty-IsValid

subscribe-publish-drain_example :
    (b : Bus) × (publish_each "2" (note ∷ note ∷ []) (subscribe "2" listening).1 ≡ some b)
    × (drain (length (take capacity (note ∷ note ∷ []))) (subscribe "2" listening).0 b
        ≡ take capacity (note ∷ note ∷ []))
subscribe-publish-drain_example =
    subscribe-publish-drain "2" (note ∷ note ∷ []) listening listening-IsValid
