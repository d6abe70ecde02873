-- ===== src/Examples/Creation.antt =====
-- The theorems on creations that are not confirmed, applied to the state of the parent with an
-- agent that confirms every request but the third.
use rmw_microxrcedds.Base.{ℕ, ◌≡◌, refl, true, not, none, some, List, [], ◌∷◌, ◌==◌}
use rmw_microxrcedds.Memory.{null, get_memory}
use rmw_microxrcedds.Memory.Static.{IsStatic}
use rmw_microxrcedds.State.{Globals}
use rmw_microxrcedds.Entities.{Lengths, HandleMemory, with_callbacks}
use rmw_microxrcedds.Entities.Publishers.{rmw_create_publisher}
use rmw_microxrcedds.Entities.Subscriptions.{rmw_create_subscription}
use rmw_microxrcedds.Entities.Refused.{RefusesThird, identified}
use rmw_microxrcedds.Entities.Refused.Publishers.{rmw_create_publisher-refused}
use rmw_microxrcedds.Entities.Refused.Subscriptions.{rmw_create_subscription-refused}
use rmw_microxrcedds.Examples.{
  chain_pool-IsStatic, a_publisher, a_subscription, a_topic, callbacks, default_qos, state, handle,
}

abbrev lengths : Lengths
lengths = record { topic_name = 60; type_name = 100; node_name = 60 }

abbrev memory : HandleMemory
memory = record { address = 200; has_name = true }

abbrev wary_state : Globals (List ℕ)
wary_state = record (state) {
  session = record (state.session) { confirmed = λ n id. not (n == 2) };
}

wary_state-RefusesThird : RefusesThird wary_state handle.element
wary_state-RefusesThird = record {
  reliable = refl;
  first = λ r. refl;
  second = λ r. refl;
  third = λ r. refl;
}

rmw_create_publisher-refused_example :
    let (result, g') =
      rmw_create_publisher lengths memory wary_state
        (some handle)
        (some (with_callbacks callbacks))
        (some (47 ∷ 97 ∷ []))
        (some default_qos) in
    let first = get_memory none g'.publisher_memory in
    (result ≡ null) × (first.0 ≡ 4) × ((get_memory none first.1).0 ≡ 4)
rmw_create_publisher-refused_example =
    rmw_create_publisher-refused lengths memory wary_state handle callbacks 47 (97 ∷ []) default_qos
      4 (1 ∷ 2 ∷ 3 ∷ []) [] 4 (1 ∷ 2 ∷ 3 ∷ []) [] identified refl (chain_pool-IsStatic a_publisher)
      (chain_pool-IsStatic a_topic) wary_state-RefusesThird

rmw_create_subscription-refused_example :
    let (result, g') =
      rmw_create_subscription lengths memory wary_state
        (some handle)
        (some (with_callbacks callbacks))
        (some (47 ∷ 97 ∷ []))
        (some default_qos) in
    (result ≡ null)
    × (g'.handles 200 ≡ none)
    × IsStatic g'.subscription_memory (1 ∷ 2 ∷ 3 ∷ []) (4 ∷ [])
rmw_create_subscription-refused_example =
    rmw_create_subscription-refused lengths memory wary_state handle callbacks 47 (97 ∷ [])
      default_qos 4 (1 ∷ 2 ∷ 3 ∷ []) [] 4 (1 ∷ 2 ∷ 3 ∷ []) [] identified refl
      (chain_pool-IsStatic a_subscription) (chain_pool-IsStatic a_topic) wary_state-RefusesThird
