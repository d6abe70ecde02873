-- ===== src/Entities/Subscriptions.antt =====
-- `rmw_create_subscription` and `rmw_destroy_subscription` of src/rmw_subscription.c, built without
-- RMW_UXRCE_USE_REFS.
use rmw_microxrcedds.Base.{false, not, ◌&&◌, ◌||◌, Option, none, some, ◌∷◌, ◌==◌, if◌then◌else◌}
use rmw_microxrcedds.Memory.{Ptr, null, get_memory, put_memory}
use rmw_microxrcedds.Types.{Bytes, MessageCallbacks, QosProfile, Subscription}
use rmw_microxrcedds.State.{
  Globals, Handle, subscriber_kind, datareader_kind, create_subscriber_bin, create_datareader_bin,
  delete_entity, request_data,
}
use rmw_microxrcedds.Handles.{
  Ret, ok, error, timeout, rmw_get_implementation_identifier, is_uxrce_rmw_identifier_valid,
}
use rmw_microxrcedds.Session.{
  write_element, count_up, context_of, set_context, participant_of, buffer_request, next_request_id,
  run_last, run_xrce_session, handle_at, set_handle, is_best_effort, wants_reliability, keeps_last,
  durability_of,
}
use rmw_microxrcedds.Topic.{create_topic, destroy_topic}
use rmw_microxrcedds.Entities.{
  TypeSupport, undefined, no_data, with_callbacks, Lengths, HandleMemory, fini_subscription_memory,
}

module _ {M : Type 0} where
  abbrev pub subscription_at : Globals M → Ptr → Subscription M
  subscription_at g p = g.subscription_memory.elements p

  abbrev pub set_subscription : Globals M → Ptr → Subscription M → Globals M
  set_subscription g p e = record g {
    subscription_memory = write_element g.subscription_memory p e;
  }

  -- `put_memory(&subscription_memory, &custom_subscription->mem)`
  abbrev pub put_subscription : Globals M → Ptr → Globals M
  put_subscription g p = record g { subscription_memory = put_memory false g.subscription_memory p }

  -- The label `fail`.
  abbrev pub fail_subscription : Globals M → (rmw_subscription : Ptr) → Ptr × Globals M
  fail_subscription g rmw_subscription = (null, fini_subscription_memory g rmw_subscription)

  -- From `// Create datareader` up to the request.
  unfoldable pub announce_datareader :
      Globals M → (custom_subscription : Ptr) → QosProfile → Globals M
  unfolding buffer_request
  announce_datareader g p qos_policies =
      let custom_node = (subscription_at g p).owner_node in
      let c = context_of g custom_node in
      let id = g.session.uxr_object_id c.id_datareader datareader_kind in
      let g1 = set_context g custom_node (record c { id_datareader = count_up c.id_datareader }) in
      let g2 = set_subscription g1 p (record (subscription_at g1 p) { datareader_id = id }) in
      let e = subscription_at g2 p in
      buffer_request g2 (
        create_datareader_bin id e.subscriber_id (g2.topics_memory.elements e.topic).topic_id
          (wants_reliability qos_policies.reliability) (keeps_last qos_policies.history)
          (durability_of qos_policies.durability))

  -- The data of the handle, and the request for samples.
  unfoldable pub request_samples :
      Globals M → (rmw_subscription custom_subscription : Ptr) → QosProfile → Globals M
  unfolding buffer_request
  request_samples g rmw_subscription p qos_policies =
      let g1 = set_handle g rmw_subscription (elim (handle_at g rmw_subscription) [
        | none ↦ none
        | some h ↦ some (record h { element = p })
      ]) in
      let c = context_of g1 (subscription_at g1 p).owner_node in
      let input =
        if is_best_effort qos_policies.reliability then c.best_effort_input else c.reliable_input in
      buffer_request g1 (request_data (subscription_at g1 p).datareader_id input)

  -- From `// Create datareader` on. The handle gets its data last.
  unfoldable pub create_datareader :
      Globals M → (rmw_subscription custom_subscription : Ptr) → QosProfile → Ptr × Globals M
  unfolding announce_datareader request_samples run_last fini_subscription_memory
  create_datareader g rmw_subscription p qos_policies =
      let (answered, g1) =
        run_last (announce_datareader g p qos_policies) (subscription_at g p).owner_node in
      if answered
      then (rmw_subscription, request_samples g1 rmw_subscription p qos_policies)
      else fail_subscription (put_subscription g1 p) rmw_subscription

  -- From `// Create subscriber` up to the request.
  unfoldable pub announce_subscriber : Globals M → (custom_subscription : Ptr) → Globals M
  unfolding buffer_request
  announce_subscriber g p =
      let custom_node = (subscription_at g p).owner_node in
      let c = context_of g custom_node in
      let id = g.session.uxr_object_id c.id_subscriber subscriber_kind in
      let g1 = set_context g custom_node (record c { id_subscriber = count_up c.id_subscriber }) in
      let g2 = set_subscription g1 p (record (subscription_at g1 p) { subscriber_id = id }) in
      buffer_request g2 (create_subscriber_bin id (participant_of g2 custom_node))

  -- And on.
  unfoldable pub create_subscriber :
      Globals M → (rmw_subscription custom_subscription : Ptr) → QosProfile → Ptr × Globals M
  unfolding announce_subscriber run_last create_datareader
  create_subscriber g rmw_subscription p qos_policies =
      let (answered, g4) = run_last (announce_subscriber g p) (subscription_at g p).owner_node in
      if not answered
      then fail_subscription (put_subscription g4 p) rmw_subscription
      else create_datareader g4 rmw_subscription p qos_policies

  -- The type support and the topic.
  unfoldable pub create_subscription_topic :
      Lengths
      → Globals M
      → (rmw_subscription custom_subscription : Ptr) → TypeSupport (MessageCallbacks M)
      → (topic_name : Bytes) → QosProfile
      → Ptr × Globals M
  unfolding create_subscriber create_topic
  create_subscription_topic lengths g rmw_subscription p undefined topic_name qos_policies =
      fail_subscription g rmw_subscription
  create_subscription_topic lengths g rmw_subscription p no_data topic_name qos_policies =
      fail_subscription
        (set_subscription g p (record (subscription_at g p) { type_support_callbacks = none }))
        rmw_subscription
  create_subscription_topic lengths g rmw_subscription p (with_callbacks callbacks) topic_name
        qos_policies =
      let g1 =
        set_subscription g p
          (record (subscription_at g p) { type_support_callbacks = some callbacks }) in
      let (topic, g2) =
        create_topic lengths.topic_name lengths.type_name g1 (subscription_at g1 p).owner_node
          topic_name callbacks in
      let g3 = set_subscription g2 p (record (subscription_at g2 p) { topic = topic }) in
      if topic == null
      then fail_subscription g3 rmw_subscription
      else create_subscriber g3 rmw_subscription p qos_policies

  -- After the checks of the arguments.
  unfoldable pub create_subscription :
      Lengths
      → HandleMemory
      → Globals M
      → (node : Handle) → TypeSupport (MessageCallbacks M)
      → (topic_name : Bytes) → QosProfile
      → Ptr × Globals M
  unfolding create_subscription_topic get_memory
  create_subscription lengths memory g node type_support topic_name qos_policies =
      let rmw_subscription = memory.address in
      let g1 = set_handle g rmw_subscription (
        some (record {
          implementation_identifier = rmw_get_implementation_identifier;
          element = null;
          name = if memory.has_name then some topic_name else none;
        })) in
      if not memory.has_name
      then fail_subscription g1 rmw_subscription
      else (let (memory_node, subs) = get_memory none g1.subscription_memory in
          let g2 = record g1 { subscription_memory = subs } in
          if memory_node == null
          then fail_subscription g2 rmw_subscription
          else (let p = (subs.items memory_node).element in
              create_subscription_topic lengths
                (set_subscription g2 p (record (subscription_at g2 p) {
                  rmw_handle = rmw_subscription;
                  owner_node = node.element;
                  qos = qos_policies;
                }))
                rmw_subscription p type_support topic_name qos_policies))

  -- NULL arguments are `none`.
  unfoldable pub rmw_create_subscription :
      Lengths
      → HandleMemory
      → Globals M
      → (node : Option Handle) → Option (TypeSupport (MessageCallbacks M))
      → (topic_name : Option Bytes) → Option QosProfile
      → Ptr × Globals M
  unfolding create_subscription
  rmw_create_subscription lengths memory g (some node) (some type_support) (some (x ∷ name))
        (some qos_policies) =
      if is_uxrce_rmw_identifier_valid node.implementation_identifier
      then create_subscription lengths memory g node type_support (x ∷ name) qos_policies
      else (null, g)
  rmw_create_subscription _ _ g _ _ _ _ = (null, g)

  -- After the checks.
  unfoldable pub destroy_subscription :
      Globals M → (subscription custom_subscription : Ptr) → Ret × Globals M
  unfolding destroy_topic buffer_request run_xrce_session fini_subscription_memory
  destroy_subscription g subscription p =
      let custom_node = (subscription_at g p).owner_node in
      let g1 = (destroy_topic g (subscription_at g p).topic).1 in
      let g2 = buffer_request g1 (delete_entity (subscription_at g1 p).datareader_id) in
      let g3 = buffer_request g2 (delete_entity (subscription_at g2 p).subscriber_id) in
      let (reader, g4) = run_xrce_session g3 custom_node (next_request_id g1) in
      let (both, g5) = run_xrce_session g4 custom_node (next_request_id g2) in
      (if reader && both then ok else timeout, fini_subscription_memory g5 subscription)

  unfoldable pub rmw_destroy_subscription :
      Globals M → (node : Option Handle) → (subscription : Ptr) → Ret × Globals M
  unfolding destroy_subscription
  rmw_destroy_subscription g none subscription = (error, g)
  rmw_destroy_subscription g (some node) subscription =
      if not (is_uxrce_rmw_identifier_valid node.implementation_identifier)
        || (node.element == null)
      then (error, g)
      else (elim (handle_at g subscription) [
        | none ↦ (error, g)
        | some h ↦
            if not (is_uxrce_rmw_identifier_valid h.implementation_identifier)
              || (h.element == null)
            then (error, g)
            else destroy_subscription g subscription h.element
      ])
