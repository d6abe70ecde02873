-- ===== src/Entities/Nodes.antt =====
-- src/rmw_node.c, built without RMW_UXRCE_USE_REFS.
pub mod Sweep
pub mod Publishing
use rmw_microxrcedds.Base.{
  ℕ, zero, suc, Bool, false, not, ◌||◌, Option, none, some, [], ◌∷◌, ◌++◌, ◌==◌, if◌then◌else◌,
}
use rmw_microxrcedds.Memory.{Ptr, null, Item, get_memory}
use rmw_microxrcedds.Types.{Bytes}
use rmw_microxrcedds.State.{
  Globals, Node, Handle, participant_kind, create_participant_bin, delete_entity,
}
use rmw_microxrcedds.Handles.{
  Ret, ok, error, timeout, rmw_get_implementation_identifier, is_uxrce_rmw_identifier_valid,
}
use rmw_microxrcedds.Receive.{◌>>=◌}
use rmw_microxrcedds.Names.{snprintf}
use rmw_microxrcedds.Session.{
  write_element, count_up, context_of, set_context, buffer_request, run_last, handle_at, set_handle,
}
use rmw_microxrcedds.Entities.{Lengths, HandleMemory, fini_node_memory}
use rmw_microxrcedds.Entities.Publishers.{publisher_at, rmw_destroy_publisher}
use rmw_microxrcedds.Entities.Subscriptions.{subscription_at, rmw_destroy_subscription}
use rmw_microxrcedds.Entities.Services.{service_at, rmw_destroy_service}
use rmw_microxrcedds.Entities.Clients.{client_at, rmw_destroy_client}

-- "/"
abbrev pub is_root : Bytes → Bool
is_root (c ∷ []) = c == 47
is_root _ = false

-- `xrce_node_name`
unfoldable pub xrce_node_name : (name namespace : Bytes) → (size : ℕ) → Bytes
xrce_node_name name namespace size =
    if is_root namespace
    then (snprintf size name).0
    else (snprintf size (namespace ++ (47 ∷ []) ++ name)).0

module _ {M : Type 0} where
  abbrev pub set_node : Globals M → Ptr → Node → Globals M
  set_node g p e = record g { node_memory = write_element g.node_memory p e }

  -- The participant, once the handle is filled in.
  unfoldable pub create_participant :
      Lengths
      → Globals M
      → (node_handle node_info : Ptr) → (name namespace : Bytes) → (domain_id : ℕ) → Ptr × Globals M
  unfolding buffer_request run_last fini_node_memory xrce_node_name
  create_participant lengths g node_handle p name namespace domain_id =
      let c = context_of g p in
      let id = g.session.uxr_object_id c.id_participant participant_kind in
      let g1 = set_context g p (record c { id_participant = count_up c.id_participant }) in
      let g2 = set_node g1 p (record (g1.node_memory.elements p) { participant_id = id }) in
      let g3 =
        buffer_request g2
          (create_participant_bin id domain_id (xrce_node_name name namespace lengths.node_name)) in
      let (answered, g4) = run_last g3 p in
      if answered then (node_handle, g4) else (null, fini_node_memory g4 node_handle)

  -- `context` is `context->impl`; `has_namespace` is whether there is memory for the namespace. A
  -- handle that could not be allocated is NULL.
  unfoldable pub create_node :
      Lengths
      → HandleMemory
      → (has_namespace : Bool) → Globals M
      → (name namespace : Bytes) → (domain_id : ℕ) → (context : Option Ptr) → Ptr × Globals M
  unfolding create_participant get_memory fini_node_memory
  create_node lengths memory has_namespace g name namespace domain_id none = (null, g)
  create_node lengths memory has_namespace g name namespace domain_id (some context) =
      let (memory_node, nodes) = get_memory none g.node_memory in
      let g1 = record g { node_memory = nodes } in
      if memory_node == null
      then (null, g1)
      else (let p = (nodes.items memory_node).element in
          let g2 = set_node g1 p (record (nodes.elements p) { context = context }) in
          let node_handle = memory.address in
          if node_handle == null
          then (null, g2)
          else (let g3 =
                set_node g2 p (record (g2.node_memory.elements p) { rmw_handle = node_handle }) in
              let g4 = set_handle g3 node_handle (
                some (record {
                  implementation_identifier = rmw_get_implementation_identifier;
                  element = p;
                  name = if memory.has_name then some name else none;
                })) in
              if not memory.has_name || not has_namespace
              then (null, fini_node_memory g4 node_handle)
              else create_participant lengths g4 node_handle p name namespace domain_id))

  -- NULL and empty names are refused.
  unfoldable pub rmw_create_node :
      Lengths
      → HandleMemory
      → (has_namespace : Bool) → Globals M
      → (context : Option Ptr) → (actual_domain_id : ℕ) → (name namespace : Option Bytes)
      → Ptr × Globals M
  unfolding create_node
  rmw_create_node lengths memory has_namespace g context domain_id (some (x ∷ xs)) (some (y ∷ ys)) =
      create_node lengths memory has_namespace g (x ∷ xs) (y ∷ ys) domain_id context
  rmw_create_node _ _ _ g _ _ _ _ = (null, g)

  -- The loop that `rmw_destroy_node` runs over each of four pools: the next item is read before the
  -- entity is destroyed. `none` means that the fuel ran out.
  unfoldable pub destroy_owned :
      (fuel : ℕ)
      → (item_at : Globals M → Ptr → Item) → (owner_node : Globals M → Ptr → Ptr)
      → (destroy : Globals M → Ptr → Ret × Globals M) → (custom_node : Ptr) → Globals M
      → (item : Ptr) → Ret
      → Option (Ret × Globals M)
  destroy_owned zero item_at owner_node destroy custom_node g item ret = none
  destroy_owned (suc fuel) item_at owner_node destroy custom_node g item ret =
      let e = (item_at g item).element in
      let (r, g1) = if owner_node g e == custom_node then destroy g e else (ret, g) in
      let rest =
        destroy_owned fuel item_at owner_node destroy custom_node g1 (item_at g item).next r in
      if item == null then some (ret, g) else rest

  unfoldable pub destroy_publishers :
      (fuel : ℕ) → Handle → Globals M → Ret → Option (Ret × Globals M)
  unfolding destroy_owned rmw_destroy_publisher
  destroy_publishers fuel node g ret =
      destroy_owned fuel (λ s p. s.publisher_memory.items p) (λ s p. (publisher_at s p).owner_node)
        (λ s p. rmw_destroy_publisher s (some node) (publisher_at s p).rmw_handle) node.element g
        g.publisher_memory.allocateditems ret

  unfoldable pub destroy_subscriptions :
      (fuel : ℕ) → Handle → Globals M → Ret → Option (Ret × Globals M)
  unfolding destroy_owned rmw_destroy_subscription
  destroy_subscriptions fuel node g ret =
      destroy_owned fuel (λ s p. s.subscription_memory.items p)
        (λ s p. (subscription_at s p).owner_node)
        (λ s p. rmw_destroy_subscription s (some node) (subscription_at s p).rmw_handle)
        node.element g g.subscription_memory.allocateditems ret

  unfoldable pub destroy_services : (fuel : ℕ) → Handle → Globals M → Ret → Option (Ret × Globals M)
  unfolding destroy_owned rmw_destroy_service
  destroy_services fuel node g ret =
      destroy_owned fuel (λ s p. s.service_memory.items p) (λ s p. (service_at s p).owner_node)
        (λ s p. rmw_destroy_service s (some node) (service_at s p).rmw_handle) node.element g
        g.service_memory.allocateditems ret

  unfoldable pub destroy_clients : (fuel : ℕ) → Handle → Globals M → Ret → Option (Ret × Globals M)
  unfolding destroy_owned rmw_destroy_client
  destroy_clients fuel node g ret =
      destroy_owned fuel (λ s p. s.client_memory.items p) (λ s p. (client_at s p).owner_node)
        (λ s p. rmw_destroy_client s (some node) (client_at s p).rmw_handle) node.element g
        g.client_memory.allocateditems ret

  -- The participant, after the entities of the node.
  unfoldable pub destroy_participant : (node : Ptr) → Handle → Ret → Globals M → Ret × Globals M
  unfolding buffer_request run_last fini_node_memory
  destroy_participant node h ret g =
      let g1 = buffer_request g (delete_entity (g.node_memory.elements h.element).participant_id) in
      let (answered, g2) = run_last g1 h.element in
      (if answered then ret else timeout, fini_node_memory g2 node)

  unfoldable pub rmw_destroy_node : (fuel : ℕ) → Globals M → (node : Ptr) → Option (Ret × Globals M)
  unfolding destroy_publishers destroy_subscriptions destroy_services destroy_clients
      destroy_participant
  rmw_destroy_node fuel g node = elim (handle_at g node) [
    | none ↦ some (error, g)
    | some h ↦
        if not (is_uxrce_rmw_identifier_valid h.implementation_identifier) || (h.element == null)
        then some (error, g)
        else (do
          (r1, g1) ← destroy_publishers fuel h g ok
          (r2, g2) ← destroy_subscriptions fuel h g1 r1
          (r3, g3) ← destroy_services fuel h g2 r2
          (r4, g4) ← destroy_clients fuel h g3 r3
          some (destroy_participant node h r4 g4))
  ]
