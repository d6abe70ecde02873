-- ===== src/Topic.antt =====
-- src/rmw_microxrcedds_topic.c and `rmw_uxrce_fini_topic_memory` of src/types.c.
pub mod Life
pub mod Count
use rmw_microxrcedds.Base.{
  ℕ, zero, suc, ◌+◌, Bool, true, false, Option, none, some, not, ◌&&◌, ◌==◌, if◌then◌else◌,
}
use rmw_microxrcedds.Memory.{Ptr, null, Items, Mempool, get_memory, put_memory}
use rmw_microxrcedds.Types.{Bytes, MessageCallbacks, Topic}
use rmw_microxrcedds.State.{Globals, Context, topic_kind, create_topic_bin, delete_entity}
use rmw_microxrcedds.Handles.{Ret, ok, error, timeout}
use rmw_microxrcedds.Names.{generate_topic_name, generate_type_name}
use rmw_microxrcedds.Session.{
  write_element, count_up, context_of, set_context, participant_of, buffer_request, run_last,
}

-- The loop that `topic_count` runs over a pool; `none` means that the fuel ran out.
unfoldable pub count_items : (fuel : ℕ) → Items → Ptr → (Ptr → Bool) → (count : ℕ) → Option ℕ
count_items zero h item test count = none
count_items (suc fuel) h item test count =
    let rest = count_items fuel h (h item).next test (if test item then count + 1 else count) in
    if item == null then some count else rest

module _ {M : Type 0} where
  unfoldable pub fini_topic_memory : Globals M → (topic : Ptr) → Globals M
  fini_topic_memory g topic =
      let topics = put_memory false g.topics_memory topic in
      record g {
        topics_memory =
            write_element topics topic (record (topics.elements topic) { owner_node = null });
      }

  -- What is written into the new element.
  abbrev pub init_topic : Globals M → (custom_node : Ptr) → MessageCallbacks M → Topic M → Topic M
  init_topic g custom_node callbacks t = record t {
    topic_id = g.session.uxr_object_id (context_of g custom_node).id_topic topic_kind;
    message_type_support_callbacks = some callbacks;
    owner_node = custom_node;
  }

  -- The requests, once the pool has given `custom_topic`.
  unfoldable pub announce_topic :
      (topic_name_max_length type_name_max_length : ℕ)
      → Globals M
      → (custom_node : Ptr) → (topic_name : Bytes) → MessageCallbacks M
      → (custom_topic : Ptr) → Globals M
  announce_topic topic_size type_size g custom_node topic_name callbacks custom_topic =
      let topic = init_topic g custom_node callbacks (g.topics_memory.elements custom_topic) in
      let c = context_of g custom_node in
      let g1 = record g { topics_memory = write_element g.topics_memory custom_topic topic } in
      let g2 = set_context g1 custom_node (record c { id_topic = count_up c.id_topic }) in
      buffer_request g2 (
        create_topic_bin topic.topic_id (participant_of g2 custom_node)
          (generate_topic_name topic_name topic_size).0 (generate_type_name callbacks type_size).0)

  -- Built without RMW_UXRCE_USE_REFS. The sizes are RMW_UXRCE_TOPIC_NAME_MAX_LENGTH and
  -- RMW_UXRCE_TYPE_NAME_MAX_LENGTH.
  unfoldable pub create_topic :
      (topic_name_max_length type_name_max_length : ℕ)
      → Globals M
      → (custom_node : Ptr) → (topic_name : Bytes) → MessageCallbacks M
      → Ptr × Globals M
  unfolding announce_topic get_memory run_last fini_topic_memory
  create_topic topic_size type_size g custom_node topic_name callbacks =
      let (memory_node, topics) = get_memory none g.topics_memory in
      let g1 = record g { topics_memory = topics } in
      if memory_node == null
      then (null, g1)
      else (let custom_topic = (topics.items memory_node).element in
          let g2 =
            announce_topic topic_size type_size g1 custom_node topic_name callbacks custom_topic in
          let (answered, g3) = run_last g2 custom_node in
          if answered then (custom_topic, g3) else (null, fini_topic_memory g3 custom_topic))

  unfoldable pub destroy_topic : Globals M → (topic : Ptr) → Ret × Globals M
  unfolding buffer_request run_last fini_topic_memory
  destroy_topic g topic =
      let custom_node = (g.topics_memory.elements topic).owner_node in
      if custom_node == null
      then (error, g)
      else (let g1 = buffer_request g (delete_entity (g.topics_memory.elements topic).topic_id) in
          let (answered, g2) = run_last g1 custom_node in
          (if answered then ok else timeout, fini_topic_memory g2 topic))

  abbrev pub publishes : Globals M → (custom_node item : Ptr) → Bool
  publishes g custom_node item =
      let p = g.publisher_memory.elements (g.publisher_memory.items item).element in
      (p.owner_node == custom_node) && not (p.topic == null)

  abbrev pub subscribes : Globals M → (custom_node item : Ptr) → Bool
  subscribes g custom_node item =
      let s = g.subscription_memory.elements (g.subscription_memory.items item).element in
      (s.owner_node == custom_node) && not (s.topic == null)

  unfoldable pub topic_count : (fuel : ℕ) → Globals M → (custom_node : Ptr) → Option ℕ
  unfolding count_items
  topic_count fuel g custom_node =
      elim (count_items fuel g.publisher_memory.items g.publisher_memory.allocateditems
        (publishes g custom_node) 0) [
          | none ↦ none
          | some count ↦
              count_items fuel g.subscription_memory.items g.subscription_memory.allocateditems
                (subscribes g custom_node) count
        ]
