-- ===== src/Entities/Services.antt =====
-- `rmw_create_service` and `rmw_destroy_service` of src/rmw_service.c, built without
-- RMW_UXRCE_USE_REFS.
use rmw_microxrcedds.Base.{false, not, ◌||◌, Option, none, some, ◌∷◌, ◌==◌, if◌then◌else◌}
use rmw_microxrcedds.Memory.{Ptr, null, get_memory, put_memory}
use rmw_microxrcedds.Types.{Bytes, ServiceCallbacks, QosProfile, Service}
use rmw_microxrcedds.State.{
  Globals, Handle, replier_kind, create_replier_bin, delete_entity, request_data,
}
use rmw_microxrcedds.Handles.{
  Ret, ok, error, timeout, rmw_get_implementation_identifier, is_uxrce_rmw_identifier_valid,
}
use rmw_microxrcedds.Names.{generate_service_types, generate_service_topics}
use rmw_microxrcedds.Session.{
  write_element, count_up, context_of, set_context, participant_of, buffer_request, next_request_id,
  run_last, handle_at, set_handle, is_best_effort,
}
use rmw_microxrcedds.Entities.{
  TypeSupport, undefined, no_data, with_callbacks, Lengths, HandleMemory, fini_service_memory,
}

module _ {M : Type 0} where
  abbrev pub service_at : Globals M → Ptr → Service M
  service_at g p = g.service_memory.elements p

  abbrev pub set_service : Globals M → Ptr → Service M → Globals M
  set_service g p e = record g { service_memory = write_element g.service_memory p e }

  -- `put_memory(&service_memory, &custom_service->mem)`
  abbrev pub put_service : Globals M → Ptr → Globals M
  put_service g p = record g { service_memory = put_memory false g.service_memory p }

  -- The label `fail`.
  abbrev pub fail_service : Globals M → (rmw_service : Ptr) → Ptr × Globals M
  fail_service g rmw_service = (null, fini_service_memory g rmw_service)

  -- After the replier was confirmed: the streams, and the request for its data.
  unfoldable pub request_service_data :
      Globals M → (rmw_service custom_service : Ptr) → QosProfile → Ptr × Globals M
  unfolding buffer_request
  request_service_data g rmw_service p qos_policies =
      let c = context_of g (service_at g p).owner_node in
      let best_effort = is_best_effort qos_policies.reliability in
      let output = if best_effort then c.best_effort_output else c.reliable_output in
      let input = if best_effort then c.best_effort_input else c.reliable_input in
      let g1 = set_service g p (record (service_at g p) { stream_id = output }) in
      let g2 = buffer_request g1 (request_data (service_at g1 p).service_id input) in
      (
        rmw_service,
        set_service g2 p (record (service_at g2 p) { service_data_resquest = next_request_id g1 }),
      )

  -- The replier up to the run of the session; the data of the handle is set before it.
  unfoldable pub announce_replier :
      Lengths
      → Globals M
      → (rmw_service custom_service : Ptr) → ServiceCallbacks M
      → (service_name : Bytes) → Globals M
  unfolding buffer_request
  announce_replier lengths g rmw_service p callbacks service_name =
      let custom_node = (service_at g p).owner_node in
      let c = context_of g custom_node in
      let id = g.session.uxr_object_id c.id_replier replier_kind in
      let g1 = set_context g custom_node (record c { id_replier = count_up c.id_replier }) in
      let g2 = set_service g1 p (record (service_at g1 p) { service_id = id }) in
      let types = generate_service_types callbacks lengths.type_name in
      let topics = generate_service_topics service_name lengths.topic_name in
      let g3 = buffer_request g2 (
        create_replier_bin id (participant_of g2 custom_node) service_name types.0 types.1 topics.0
          topics.1) in
      set_handle g3 rmw_service
        (elim (handle_at g3 rmw_service) [ none ↦ none | some h ↦ some (record h { element = p }) ])

  -- And on.
  unfoldable pub create_replier :
      Lengths
      → Globals M
      → (rmw_service custom_service : Ptr) → ServiceCallbacks M
      → (service_name : Bytes) → QosProfile
      → Ptr × Globals M
  unfolding announce_replier run_last fini_service_memory request_service_data
  create_replier lengths g rmw_service p callbacks service_name qos_policies =
      let (answered, g1) =
        run_last (announce_replier lengths g rmw_service p callbacks service_name)
          (service_at g p).owner_node in
      if answered
      then request_service_data g1 rmw_service p qos_policies
      else fail_service (put_service g1 p) rmw_service

  -- The type support.
  unfoldable pub create_service_entity :
      Lengths
      → Globals M
      → (rmw_service custom_service : Ptr) → TypeSupport (ServiceCallbacks M)
      → (service_name : Bytes) → QosProfile
      → Ptr × Globals M
  unfolding create_replier
  create_service_entity lengths g rmw_service p undefined service_name qos_policies =
      fail_service g rmw_service
  create_service_entity lengths g rmw_service p no_data service_name qos_policies =
      fail_service (set_service g p (record (service_at g p) { type_support_callbacks = none }))
        rmw_service
  create_service_entity lengths g rmw_service p (with_callbacks callbacks) service_name
        qos_policies =
      create_replier lengths
        (set_service g p (record (service_at g p) { type_support_callbacks = some callbacks }))
        rmw_service p callbacks service_name qos_policies

  -- After the checks of the arguments.
  unfoldable pub create_service :
      Lengths
      → HandleMemory
      → Globals M
      → (node : Handle) → TypeSupport (ServiceCallbacks M)
      → (service_name : Bytes) → QosProfile
      → Ptr × Globals M
  unfolding create_service_entity get_memory
  create_service lengths memory g node type_support service_name qos_policies =
      let rmw_service = memory.address in
      let g1 = set_handle g rmw_service (
        some (record {
          implementation_identifier = rmw_get_implementation_identifier;
          element = null;
          name = if memory.has_name then some service_name else none;
        })) in
      if not memory.has_name
      then fail_service g1 rmw_service
      else (let (memory_node, services) = get_memory none g1.service_memory in
          let g2 = record g1 { service_memory = services } in
          if memory_node == null
          then fail_service g2 rmw_service
          else (let p = (services.items memory_node).element in
              create_service_entity lengths
                (set_service g2 p (record (service_at g2 p) {
                  rmw_handle = rmw_service;
                  owner_node = node.element;
                  history_write_index = 0;
                  history_read_index = 0;
                }))
                rmw_service p type_support service_name qos_policies))

  -- NULL arguments are `none`.
  unfoldable pub rmw_create_service :
      Lengths
      → HandleMemory
      → Globals M
      → (node : Option Handle) → Option (TypeSupport (ServiceCallbacks M))
      → (service_name : Option Bytes) → Option QosProfile
      → Ptr × Globals M
  unfolding create_service
  rmw_create_service lengths memory g (some node) (some type_support) (some (x ∷ name))
        (some qos_policies) =
      if is_uxrce_rmw_identifier_valid node.implementation_identifier
      then create_service lengths memory g node type_support (x ∷ name) qos_policies
      else (null, g)
  rmw_create_service _ _ g _ _ _ _ = (null, g)

  -- After the checks. The session is that of the node that was passed.
  unfoldable pub destroy_service :
      Globals M → (custom_node service custom_service : Ptr) → Ret × Globals M
  unfolding buffer_request run_last fini_service_memory
  destroy_service g custom_node service p =
      let g1 = buffer_request g (delete_entity (service_at g p).service_id) in
      let (answered, g2) = run_last g1 custom_node in
      (if answered then ok else timeout, fini_service_memory g2 service)

  unfoldable pub rmw_destroy_service :
      Globals M → (node : Option Handle) → (service : Ptr) → Ret × Globals M
  unfolding destroy_service
  rmw_destroy_service g none service = (error, g)
  rmw_destroy_service g (some node) service =
      if not (is_uxrce_rmw_identifier_valid node.implementation_identifier)
        || (node.element == null)
      then (error, g)
      else (elim (handle_at g service) [
        | none ↦ (error, g)
        | some h ↦
            if not (is_uxrce_rmw_identifier_valid h.implementation_identifier)
              || (h.element == null)
            then (error, g)
            else destroy_service g node.element service h.element
      ])
