-- ===== src/Examples/Topics.antt =====
-- The theorems on topics, applied to the state of the parent.
use rmw_microxrcedds.Base.{true, false, some, ℕ, ◌≡◌, arith, ◌⊎◌, List, [], ◌∷◌}
use rmw_microxrcedds.Memory.{null}
use rmw_microxrcedds.Memory.Static.{IsStatic}
use rmw_microxrcedds.Types.{Bytes, ObjectId}
use rmw_microxrcedds.State.{Globals, create_topic_bin, delete_entity}
use rmw_microxrcedds.Handles.{error}
use rmw_microxrcedds.Names.{generate_topic_name, generate_type_name}
use rmw_microxrcedds.Topic.{create_topic, destroy_topic, topic_count}
use rmw_microxrcedds.Topic.Count.{topic_count-number}
use rmw_microxrcedds.Topic.Life.{confirms, create_topic-IsStatic, destroy_topic-again}
use rmw_microxrcedds.Examples.{
  full_pool, chain_pool-IsStatic, a_topic, a_publisher, a_subscription, callbacks, state, no_id,
}

abbrev name : Bytes
name = 47 ∷ 99 ∷ []

abbrev new_id : ObjectId
new_id = record { id = 5; type = 2 }

create_topic-IsStatic_example :
    let (topic, g') = create_topic 60 100 state 1 name callbacks in
    (g'.session.sent
      ≡ create_topic_bin new_id no_id
          (generate_topic_name name 60).0
          (generate_type_name callbacks 100).0
        ∷ [])
    × (((confirms state 1 ≡ true)
          × (topic ≡ 4)
          × IsStatic g'.topics_memory (4 ∷ 1 ∷ 2 ∷ 3 ∷ []) []
          × ((g'.topics_memory.elements 4).owner_node ≡ 1)
          × ((g'.topics_memory.elements 4).topic_id ≡ new_id))
        ⊎ ((confirms state 1 ≡ false)
            × (topic ≡ null)
            × IsStatic g'.topics_memory (1 ∷ 2 ∷ 3 ∷ []) (4 ∷ [])
            × ((g'.topics_memory.elements 4).owner_node ≡ null)))
create_topic-IsStatic_example =
    create_topic-IsStatic 60 100 state 1 name callbacks 4 (1 ∷ 2 ∷ 3 ∷ []) []
      (chain_pool-IsStatic a_topic)

abbrev full_state : Globals (List ℕ)
full_state = record (state) { topics_memory = full_pool a_topic }

destroy_topic-again_example :
    let g' = (destroy_topic state 2).1 in
    IsStatic g'.topics_memory (1 ∷ 3 ∷ []) (2 ∷ 4 ∷ [])
    × (g'.session.sent ≡ delete_entity no_id ∷ [])
    × (destroy_topic g' 2 ≡ (error, g'))
destroy_topic-again_example =
    destroy_topic-again state 2 (1 ∷ []) (3 ∷ []) (4 ∷ []) (chain_pool-IsStatic a_topic)
      (omega arith)

topic_count-number_example : topic_count 4 state 1 ≡ some 6
topic_count-number_example =
    topic_count-number 4 state 1 (1 ∷ 2 ∷ 3 ∷ []) (4 ∷ []) (1 ∷ 2 ∷ 3 ∷ []) (4 ∷ [])
      (chain_pool-IsStatic a_publisher).pool (chain_pool-IsStatic a_subscription).pool (omega arith)
      (omega arith)
