-- ===== src/Entities.antt =====
-- src/types.c: giving the entities back to their pools, and what the functions that create them
-- are given.
pub mod Publishers
pub mod Subscriptions
pub mod Services
pub mod Clients
pub mod Nodes
pub mod Failures
pub mod Refused
use rmw_microxrcedds.Base.{ℕ, Bool, true, false, Option, none, some, not, ◌||◌, ◌==◌, if◌then◌else◌}
use rmw_microxrcedds.Memory.{Ptr, null, Mempool, put_memory}
use rmw_microxrcedds.State.{Globals}
use rmw_microxrcedds.Handles.{is_uxrce_rmw_identifier_valid}
use rmw_microxrcedds.Session.{write_element, set_handle}

-- What the lookup of the type support gives: no handle, a handle without data, or the callbacks.
pub data TypeSupport (C : Type 0) : Type 0 where
  undefined no_data : TypeSupport C
  with_callbacks : C → TypeSupport C

-- RMW_UXRCE_TOPIC_NAME_MAX_LENGTH, RMW_UXRCE_TYPE_NAME_MAX_LENGTH and
-- RMW_UXRCE_NODE_NAME_MAX_LENGTH, from the build.
pub record Lengths : Type 0 where
  pub topic_name : ℕ
  pub type_name : ℕ
  pub node_name : ℕ

-- What `rmw_allocate` returns for the handle, and whether it returns memory for the name.
pub record HandleMemory : Type 0 where
  pub address : Ptr
  pub has_name : Bool

module _ {M : Type 0} where
  -- `rmw_uxrce_fini_publisher_memory`. A handle that was freed is `none`.
  unfoldable pub fini_publisher_memory : Globals M → (publisher : Ptr) → Globals M
  fini_publisher_memory g publisher = elim (g.handles publisher) [
    | none ↦ g
    | some h ↦
        if not (is_uxrce_rmw_identifier_valid h.implementation_identifier)
        then g
        else let pubs = g.publisher_memory in
          let cleared =
            write_element pubs h.element (record (pubs.elements h.element) { rmw_handle = null }) in
          set_handle
            (record g {
              publisher_memory =
                  if h.element == null then pubs else put_memory false cleared h.element;
            })
            publisher none
  ]

  unfoldable pub fini_subscription_memory : Globals M → (subscriber : Ptr) → Globals M
  fini_subscription_memory g subscriber = elim (g.handles subscriber) [
    | none ↦ g
    | some h ↦
        if not (is_uxrce_rmw_identifier_valid h.implementation_identifier)
        then g
        else let subs = g.subscription_memory in
          let cleared =
            write_element subs h.element (record (subs.elements h.element) { rmw_handle = null }) in
          set_handle
            (record g {
              subscription_memory =
                  if h.element == null then subs else put_memory false cleared h.element;
            })
            subscriber none
  ]

  unfoldable pub fini_service_memory : Globals M → (service : Ptr) → Globals M
  fini_service_memory g service = elim (g.handles service) [
    | none ↦ g
    | some h ↦
        if not (is_uxrce_rmw_identifier_valid h.implementation_identifier)
        then g
        else let services = g.service_memory in
          let cleared =
            write_element services h.element
              (record (services.elements h.element) { rmw_handle = null }) in
          set_handle
            (record g {
              service_memory =
                  if h.element == null then services else put_memory false cleared h.element;
            })
            service none
  ]

  unfoldable pub fini_client_memory : Globals M → (client : Ptr) → Globals M
  fini_client_memory g client = elim (g.handles client) [
    | none ↦ g
    | some h ↦
        if not (is_uxrce_rmw_identifier_valid h.implementation_identifier)
        then g
        else let clients = g.client_memory in
          let cleared =
            write_element clients h.element
              (record (clients.elements h.element) { rmw_handle = null }) in
          set_handle
            (record g {
              client_memory =
                  if h.element == null then clients else put_memory false cleared h.element;
            })
            client none
  ]

  unfoldable pub fini_node_memory : Globals M → (node : Ptr) → Globals M
  fini_node_memory g node = elim (g.handles node) [
    | none ↦ g
    | some h ↦
        if not (is_uxrce_rmw_identifier_valid h.implementation_identifier)
        then g
        else let nodes = g.node_memory in
          let cleared =
            write_element nodes h.element
              (record (nodes.elements h.element) { rmw_handle = null; context = null }) in
          set_handle
            (record g {
              node_memory = if h.element == null then nodes else put_memory false cleared h.element;
            })
            node none
  ]
