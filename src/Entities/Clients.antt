-- ===== src/Entities/Clients.antt =====
-- `rmw_create_client` and `rmw_destroy_client` of src/rmw_client.c, built without
-- RMW_UXRCE_USE_REFS.
use rmw_microxrcedds.Base.{false, not, ◌||◌, Option, none, some, ◌∷◌, ◌==◌, if◌then◌else◌}
use rmw_microxrcedds.Memory.{Ptr, null, get_memory, put_memory}
use rmw_microxrcedds.Types.{Bytes, ServiceCallbacks, QosProfile, Client}
use rmw_microxrcedds.State.{
  Globals, Handle, requester_kind, create_requester_bin, delete_entity, request_data,
}
use rmw_microxrcedds.Handles.{
  Ret, ok, error, timeout, rmw_get_implementation_identifier, is_uxrce_rmw_identifier_valid,
}
use rmw_microxrcedds.Names.{generate_service_types, generate_service_topics}
use rmw_microxrcedds.Session.{
  write_element, count_up, context_of, set_context, participant_of, buffer_request, next_request_id,
  run_last, handle_at, set_handle, is_best_effort,
}
use rmw_microxrcedds.Entities.{
  TypeSupport, undefined, no_data, with_callbacks, Lengths, HandleMemory, fini_client_memory,
}

module _ {M : Type 0} where
  abbrev pub client_at : Globals M → Ptr → Client M
  client_at g p = g.client_memory.elements p

  abbrev pub set_client : Globals M → Ptr → Client M → Globals M
  set_client g p e = record g { client_memory = write_element g.client_memory p e }

  -- `put_memory(&client_memory, &custom_client->mem)`
  abbrev pub put_client : Globals M → Ptr → Globals M
  put_client g p = record g { client_memory = put_memory false g.client_memory p }

  -- The label `fail`.
  abbrev pub fail_client : Globals M → (rmw_client : Ptr) → Ptr × Globals M
  fail_client g rmw_client = (null, fini_client_memory g rmw_client)

  -- After the requester was confirmed: the streams, and the request for its data.
  unfoldable pub request_client_data :
      Globals M → (rmw_client custom_client : Ptr) → QosProfile → Ptr × Globals M
  unfolding buffer_request
  request_client_data g rmw_client p qos_policies =
      let c = context_of g (client_at g p).owner_node in
      let best_effort = is_best_effort qos_policies.reliability in
      let output = if best_effort then c.best_effort_output else c.reliable_output in
      let input = if best_effort then c.best_effort_input else c.reliable_input in
      let g1 = set_client g p (record (client_at g p) { stream_id = output }) in
      let g2 = buffer_request g1 (request_data (client_at g1 p).client_id input) in
      (
        rmw_client,
        set_client g2 p (record (client_at g2 p) { client_data_request = next_request_id g1 }),
      )

  -- The requester up to the run of the session; the data of the handle is set before it.
  unfoldable pub announce_requester :
      Lengths
      → Globals M
      → (rmw_client custom_client : Ptr) → ServiceCallbacks M
      → (service_name : Bytes) → Globals M
  unfolding buffer_request
  announce_requester lengths g rmw_client p callbacks service_name =
      let custom_node = (client_at g p).owner_node in
      let c = context_of g custom_node in
      let id = g.session.uxr_object_id c.id_requester requester_kind in
      let g1 = set_context g custom_node (record c { id_requester = count_up c.id_requester }) in
      let g2 = set_client g1 p (record (client_at g1 p) { client_id = id }) in
      let types = generate_service_types callbacks lengths.type_name in
      let topics = generate_service_topics service_name lengths.topic_name in
      let g3 = buffer_request g2 (
        create_requester_bin id (participant_of g2 custom_node) service_name types.0 types.1
          topics.0 topics.1) in
      set_handle g3 rmw_client
        (elim (handle_at g3 rmw_client) [ none ↦ none | some h ↦ some (record h { element = p }) ])

  -- And on.
  unfoldable pub create_requester :
      Lengths
      → Globals M
      → (rmw_client custom_client : Ptr) → ServiceCallbacks M
      → (service_name : Bytes) → QosProfile
      → Ptr × Globals M
  unfolding announce_requester run_last fini_client_memory request_client_data
  create_requester lengths g rmw_client p callbacks service_name qos_policies =
      let (answered, g1) =
        run_last (announce_requester lengths g rmw_client p callbacks service_name)
          (client_at g p).owner_node in
      if answered
      then request_client_data g1 rmw_client p qos_policies
      else fail_client (put_client g1 p) rmw_client

  -- The type support.
  unfoldable pub create_client_entity :
      Lengths
      → Globals M
      → (rmw_client custom_client : Ptr) → TypeSupport (ServiceCallbacks M)
      → (service_name : Bytes) → QosProfile
      → Ptr × Globals M
  unfolding create_requester
  create_client_entity lengths g rmw_client p undefined service_name qos_policies =
      fail_client g rmw_client
  create_client_entity lengths g rmw_client p no_data service_name qos_policies =
      fail_client (set_client g p (record (client_at g p) { type_support_callbacks = none }))
        rmw_client
  create_client_entity lengths g rmw_client p (with_callbacks callbacks) service_name qos_policies =
      create_requester lengths
        (set_client g p (record (client_at g p) { type_support_callbacks = some callbacks }))
        rmw_client p callbacks service_name qos_policies

  -- After the checks of the arguments.
  unfoldable pub create_client :
      Lengths
      → HandleMemory
      → Globals M
      → (node : Handle) → TypeSupport (ServiceCallbacks M)
      → (service_name : Bytes) → QosProfile
      → Ptr × Globals M
  unfolding create_client_entity get_memory
  create_client lengths memory g node type_support service_name qos_policies =
      let rmw_client = memory.address in
      let g1 = set_handle g rmw_client (
        some (record {
          implementation_identifier = rmw_get_implementation_identifier;
          element = null;
          name = if memory.has_name then some service_name else none;
        })) in
      if not memory.has_name
      then fail_client g1 rmw_client
      else (let (memory_node, clients) = get_memory none g1.client_memory in
          let g2 = record g1 { client_memory = clients } in
          if memory_node == null
          then fail_client g2 rmw_client
          else (let p = (clients.items memory_node).element in
              create_client_entity lengths
                (set_client g2 p
                  (record (client_at g2 p) { rmw_handle = rmw_client; owner_node = node.element }))
                rmw_client p type_support service_name qos_policies))

  -- NULL arguments are `none`.
  unfoldable pub rmw_create_client :
      Lengths
      → HandleMemory
      → Globals M
      → (node : Option Handle) → Option (TypeSupport (ServiceCallbacks M))
      → (service_name : Option Bytes) → Option QosProfile
      → Ptr × Globals M
  unfolding create_client
  rmw_create_client lengths memory g (some node) (some type_support) (some (x ∷ name))
        (some qos_policies) =
      if is_uxrce_rmw_identifier_valid node.implementation_identifier
      then create_client lengths memory g node type_support (x ∷ name) qos_policies
      else (null, g)
  rmw_create_client _ _ g _ _ _ _ = (null, g)

  -- After the checks. The session is that of the node that was passed.
  unfoldable pub destroy_client :
      Globals M → (custom_node client custom_client : Ptr) → Ret × Globals M
  unfolding buffer_request run_last fini_client_memory
  destroy_client g custom_node client p =
      let g1 = buffer_request g (delete_entity (client_at g p).client_id) in
      let (answered, g2) = run_last g1 custom_node in
      (if answered then ok else timeout, fini_client_memory g2 client)

  unfoldable pub rmw_destroy_client :
      Globals M → (node : Option Handle) → (client : Ptr) → Ret × Globals M
  unfolding destroy_client
  rmw_destroy_client g none client = (error, g)
  rmw_destroy_client g (some node) client =
      if not (is_uxrce_rmw_identifier_valid node.implementation_identifier)
        || (node.element == null)
      then (error, g)
      else (elim (handle_at g client) [
        | none ↦ (error, g)
        | some h ↦
            if not (is_uxrce_rmw_identifier_valid h.implementation_identifier)
              || (h.element == null)
            then (error, g)
            else destroy_client g node.element client h.element
      ])
