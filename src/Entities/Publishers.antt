-- ===== src/Entities/Publishers.antt =====
-- `rmw_create_publisher` and `rmw_destroy_publisher` of src/rmw_publisher.c, built without
-- RMW_UXRCE_USE_REFS.
use rmw_microxrcedds.Base.{false, not, ◌&&◌, ◌||◌, Option, none, some, ◌∷◌, ◌==◌, if◌then◌else◌}
use rmw_microxrcedds.Memory.{Ptr, null, get_memory, put_memory}
use rmw_microxrcedds.Types.{Bytes, MessageCallbacks, QosProfile}
use rmw_microxrcedds.State.{
  Globals, Publisher, Handle, publisher_kind, datawriter_kind, create_publisher_bin,
  create_datawriter_bin, delete_entity,
}
use rmw_microxrcedds.Handles.{
  Ret, ok, error, timeout, rmw_get_implementation_identifier, is_uxrce_rmw_identifier_valid,
}
use rmw_microxrcedds.Session.{
  write_element, count_up, context_of, set_context, participant_of, buffer_request, next_request_id,
  run_last, run_xrce_session, handle_at, set_handle, is_best_effort, wants_reliability, keeps_last,
  durability_of,
}
use rmw_microxrcedds.Topic.{create_topic, destroy_topic}
use rmw_microxrcedds.Entities.{
  TypeSupport, undefined, no_data, with_callbacks, Lengths, HandleMemory, fini_publisher_memory,
}

module _ {M : Type 0} where
  abbrev pub publisher_at : Globals M → Ptr → Publisher M
  publisher_at g p = g.publisher_memory.elements p

  abbrev pub set_publisher : Globals M → Ptr → Publisher M → Globals M
  set_publisher g p e = record g { publisher_memory = write_element g.publisher_memory p e }

  -- `put_memory(&publisher_memory, &custom_publisher->mem)`
  abbrev pub put_publisher : Globals M → Ptr → Globals M
  put_publisher g p = record g { publisher_memory = put_memory false g.publisher_memory p }

  -- The label `fail`.
  abbrev pub fail_publisher : Globals M → (rmw_publisher : Ptr) → Ptr × Globals M
  fail_publisher g rmw_publisher = (null, fini_publisher_memory g rmw_publisher)

  -- From `// Create datawriter` up to the request.
  unfoldable pub announce_datawriter : Globals M → (custom_publisher : Ptr) → QosProfile → Globals M
  unfolding buffer_request
  announce_datawriter g p qos_policies =
      let custom_node = (publisher_at g p).owner_node in
      let c = context_of g custom_node in
      let id = g.session.uxr_object_id c.id_datawriter datawriter_kind in
      let g1 = set_context g custom_node (record c { id_datawriter = count_up c.id_datawriter }) in
      let g2 = set_publisher g1 p (record (publisher_at g1 p) { datawriter_id = id }) in
      let e = publisher_at g2 p in
      buffer_request g2 (
        create_datawriter_bin id e.publisher_id (g2.topics_memory.elements e.topic).topic_id
          (wants_reliability qos_policies.reliability) (keeps_last qos_policies.history)
          (durability_of qos_policies.durability))

  -- And on.
  unfoldable pub create_datawriter :
      Globals M → (rmw_publisher custom_publisher : Ptr) → QosProfile → Ptr × Globals M
  unfolding announce_datawriter run_last fini_publisher_memory
  create_datawriter g rmw_publisher p qos_policies =
      let (answered, g1) =
        run_last (announce_datawriter g p qos_policies) (publisher_at g p).owner_node in
      if answered then (rmw_publisher, g1) else fail_publisher (put_publisher g1 p) rmw_publisher

  -- From `// Create publisher` up to the request.
  unfoldable pub announce_publisher : Globals M → (custom_publisher : Ptr) → Globals M
  unfolding buffer_request
  announce_publisher g p =
      let custom_node = (publisher_at g p).owner_node in
      let c = context_of g custom_node in
      let id = g.session.uxr_object_id c.id_publisher publisher_kind in
      let g1 = set_context g custom_node (record c { id_publisher = count_up c.id_publisher }) in
      let g2 = set_publisher g1 p (record (publisher_at g1 p) { publisher_id = id }) in
      buffer_request g2 (create_publisher_bin id (participant_of g2 custom_node))

  -- From the run up to `rmw_publisher->data = custom_publisher;`, and on.
  unfoldable pub create_publisher_entity :
      Globals M → (rmw_publisher custom_publisher : Ptr) → QosProfile → Ptr × Globals M
  unfolding announce_publisher run_last create_datawriter
  create_publisher_entity g rmw_publisher p qos_policies =
      let (answered, g4) = run_last (announce_publisher g p) (publisher_at g p).owner_node in
      if not answered
      then fail_publisher (put_publisher g4 p) rmw_publisher
      else create_datawriter
          (set_handle g4 rmw_publisher (elim (handle_at g4 rmw_publisher) [
            | none ↦ none
            | some h ↦ some (record h { element = p })
          ]))
          rmw_publisher p qos_policies

  -- The type support and the topic.
  unfoldable pub create_publisher_topic :
      Lengths
      → Globals M
      → (rmw_publisher custom_publisher : Ptr) → TypeSupport (MessageCallbacks M)
      → (topic_name : Bytes) → QosProfile
      → Ptr × Globals M
  unfolding create_publisher_entity create_topic
  create_publisher_topic lengths g rmw_publisher p undefined topic_name qos_policies =
      fail_publisher g rmw_publisher
  create_publisher_topic lengths g rmw_publisher p no_data topic_name qos_policies =
      fail_publisher
        (set_publisher g p (record (publisher_at g p) { type_support_callbacks = none }))
        rmw_publisher
  create_publisher_topic lengths g rmw_publisher p (with_callbacks callbacks) topic_name
        qos_policies =
      let g1 =
        set_publisher g p (record (publisher_at g p) { type_support_callbacks = some callbacks }) in
      let (topic, g2) =
        create_topic lengths.topic_name lengths.type_name g1 (publisher_at g1 p).owner_node
          topic_name callbacks in
      let g3 = set_publisher g2 p (record (publisher_at g2 p) { topic = topic }) in
      if topic == null
      then fail_publisher g3 rmw_publisher
      else create_publisher_entity g3 rmw_publisher p qos_policies

  -- What is written into the new element before the type support is looked up.
  abbrev pub init_publisher :
      Globals M → (rmw_publisher custom_node : Ptr) → QosProfile → Publisher M → Publisher M
  init_publisher g rmw_publisher custom_node qos_policies e = record e {
    rmw_handle = rmw_publisher;
    owner_node = custom_node;
    qos = qos_policies;
    stream_id =
        if is_best_effort qos_policies.reliability
        then (context_of g custom_node).best_effort_output
        else (context_of g custom_node).reliable_output;
    cs_cb_size = none;
    cs_cb_serialization = none;
  }

  -- After the checks of the arguments.
  unfoldable pub create_publisher :
      Lengths
      → HandleMemory
      → Globals M
      → (node : Handle) → TypeSupport (MessageCallbacks M)
      → (topic_name : Bytes) → QosProfile
      → Ptr × Globals M
  unfolding create_publisher_topic get_memory
  create_publisher lengths memory g node type_support topic_name qos_policies =
      let rmw_publisher = memory.address in
      let g1 = set_handle g rmw_publisher (
        some (record {
          implementation_identifier = rmw_get_implementation_identifier;
          element = null;
          name = if memory.has_name then some topic_name else none;
        })) in
      if not memory.has_name
      then fail_publisher g1 rmw_publisher
      else (let (memory_node, pubs) = get_memory none g1.publisher_memory in
          let g2 = record g1 { publisher_memory = pubs } in
          if memory_node == null
          then fail_publisher g2 rmw_publisher
          else (let p = (pubs.items memory_node).element in
              create_publisher_topic lengths
                (set_publisher g2 p
                  (init_publisher g2 rmw_publisher node.element qos_policies (publisher_at g2 p)))
                rmw_publisher p type_support topic_name qos_policies))

  -- NULL arguments are `none`.
  unfoldable pub rmw_create_publisher :
      Lengths
      → HandleMemory
      → Globals M
      → (node : Option Handle) → Option (TypeSupport (MessageCallbacks M))
      → (topic_name : Option Bytes) → Option QosProfile
      → Ptr × Globals M
  unfolding create_publisher
  rmw_create_publisher lengths memory g (some node) (some type_support) (some (x ∷ name))
        (some qos_policies) =
      if is_uxrce_rmw_identifier_valid node.implementation_identifier
      then create_publisher lengths memory g node type_support (x ∷ name) qos_policies
      else (null, g)
  rmw_create_publisher _ _ g _ _ _ _ = (null, g)

  -- After the checks: the topic, the two entities, and the memory.
  unfoldable pub destroy_publisher :
      Globals M → (publisher custom_publisher : Ptr) → Ret × Globals M
  unfolding destroy_topic buffer_request run_xrce_session fini_publisher_memory
  destroy_publisher g publisher p =
      let custom_node = (publisher_at g p).owner_node in
      let g1 = (destroy_topic g (publisher_at g p).topic).1 in
      let g2 = buffer_request g1 (delete_entity (publisher_at g1 p).datawriter_id) in
      let g3 = buffer_request g2 (delete_entity (publisher_at g2 p).publisher_id) in
      let (writer, g4) = run_xrce_session g3 custom_node (next_request_id g1) in
      let (both, g5) = run_xrce_session g4 custom_node (next_request_id g2) in
      (if writer && both then ok else timeout, fini_publisher_memory g5 publisher)

  unfoldable pub rmw_destroy_publisher :
      Globals M → (node : Option Handle) → (publisher : Ptr) → Ret × Globals M
  unfolding destroy_publisher
  rmw_destroy_publisher g none publisher = (error, g)
  rmw_destroy_publisher g (some node) publisher =
      if not (is_uxrce_rmw_identifier_valid node.implementation_identifier)
        || (node.element == null)
      then (error, g)
      else (elim (handle_at g publisher) [
        | none ↦ (error, g)
        | some h ↦
            if not (is_uxrce_rmw_identifier_valid h.implementation_identifier)
              || (h.element == null)
            then (error, g)
            else destroy_publisher g publisher h.element
      ])
