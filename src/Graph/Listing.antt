-- ===== src/Graph/Listing.antt =====
-- src/rmw_topic_names_and_types.c, src/rmw_service_names_and_types.c and
-- src/rmw_node_info_and_types.c in a build with RMW_UXRCE_GRAPH. The third has `"%s"` without a
-- comma behind it, and is read here as if the comma stood there. The arrays of strings are
-- rcutils': how large they are and whether they grow are parameters. Memory for a single string is
-- always given.
use Prim.Native.String.{String}
use rmw_microxrcedds.Base.{
  ℕ, ◌+◌, Bool, true, false, not, ◌&&◌, ◌||◌, Option, List, [], ◌∷◌, ◌++◌, ◌==◌, map, length,
  if◌then◌else◌,
}
use rmw_microxrcedds.Types.{Bytes}
use rmw_microxrcedds.State.{Handle}
use rmw_microxrcedds.Handles.{Ret, ok, error}
use rmw_microxrcedds.Names.{snprintf}
use rmw_microxrcedds.Receive.{is_ok}
use rmw_microxrcedds.Graph.{Entity, Graph, bytes_eq, Cdr, GraphInfo, query}
use rmw_microxrcedds.Graph.Queries.{Kinds}

-- `rcutils_string_array_t`: the field `capacity` of an array of the given size, and whether
-- `rcutils_string_array_init` and `…_resize` succeed for it: for the names, and for the types of the
-- entry at a position.
pub record StringArrays : Type 0 where
  pub capacity : (size : ℕ) → ℕ
  pub names_fit : (size : ℕ) → Bool
  pub types_fit : (position size : ℕ) → Bool

-- `rmw_names_and_types_t`
pub record NamesAndTypes : Type 0 where
  pub names : List Bytes
  pub types : List (List Bytes)

abbrev pub nothing : NamesAndTypes
nothing = record { names = []; types = [] }

-- `already_included`
abbrev pub included : (name : Bytes) → (names : List Bytes) → Bool
included name [] = false
included name (n ∷ names) = bytes_eq n name || included name names

abbrev pub is_topic : Kinds → Entity → Bool
is_topic kinds entity =
    (entity.entity_type == kinds.publisher) || (entity.entity_type == kinds.subscriber)

abbrev pub is_service : Kinds → Entity → Bool
is_service kinds entity =
    (entity.entity_type == kinds.service_server) || (entity.entity_type == kinds.service_client)

module _ (arrays : StringArrays) where
  -- One more entry. A name is printed with the capacity of the array of names as its size.
  unfoldable pub add_entity : NamesAndTypes → Entity → Ret × NamesAndTypes
  add_entity found entity =
      let current_position = length found.names in
      let types_size = length entity.types in
      let names =
        found.names ++ (snprintf (arrays.capacity (current_position + 1)) entity.name).0 ∷ [] in
      let types = map (λ t. (snprintf (arrays.capacity types_size) t).0) entity.types in
      if not (arrays.names_fit (current_position + 1))
      then (error, found)
      else if not (arrays.types_fit current_position types_size)
      then (error, record found { names = names })
      else (ok, record { names = names; types = found.types ++ types ∷ [] })

  -- A loop over the entities of a node. `unique` is whether a name that was listed is passed over;
  -- an error ends the loop.
  unfoldable pub list_entities :
      (wanted : Entity → Bool) → (unique : Bool) → List Entity → NamesAndTypes → Ret × NamesAndTypes
  unfolding add_entity
  list_entities wanted unique [] found = (ok, found)
  list_entities wanted unique (entity ∷ entities) found =
      let (ret, found1) =
        if wanted entity && not (unique && included entity.name found.names)
        then add_entity found entity
        else (ok, found) in
      let rest = list_entities wanted unique entities found1 in
      if is_ok ret then rest else (ret, found1)

  -- The loop over the nodes.
  unfoldable pub list_nodes : (wanted : Entity → Bool) → Graph → NamesAndTypes → Ret × NamesAndTypes
  unfolding list_entities
  list_nodes wanted [] found = (ok, found)
  list_nodes wanted (n ∷ nodes) found =
      let (ret, found1) = list_entities wanted true n.entities found in
      let rest = list_nodes wanted nodes found1 in if is_ok ret then rest else (ret, found1)

  unfoldable pub list_topics : Kinds → Graph → Ret × NamesAndTypes
  unfolding list_nodes
  list_topics kinds graph = list_nodes (is_topic kinds) graph nothing

  unfoldable pub list_services : Kinds → Graph → Ret × NamesAndTypes
  unfolding list_nodes
  list_services kinds graph = list_nodes (is_service kinds) graph nothing

  -- Only the first node with this name and namespace is looked at.
  unfoldable pub list_of_node :
      (kind : ℕ) → (node_name node_namespace : Bytes) → Graph → Ret × NamesAndTypes
  unfolding list_entities
  list_of_node kind node_name node_namespace [] = (ok, nothing)
  list_of_node kind node_name node_namespace (n ∷ nodes) =
      let rest = list_of_node kind node_name node_namespace nodes in
      if bytes_eq node_name n.node_name && bytes_eq node_namespace n.node_namespace
      then list_entities (λ entity. kind == entity.entity_type) false n.entities nothing
      else rest

-- `valid` is whether the allocator is valid and the output is zero-initialised.
module _ {S : Type 0} (cdr : Cdr S) (identifiers_match : Option String → Option String → Bool)
    (kinds : Kinds) (arrays : StringArrays) (info : GraphInfo) (node : Option Handle)
    (valid : Bool) where
  unfoldable pub rmw_get_topic_names_and_types : Ret × Option NamesAndTypes
  unfolding query list_topics
  rmw_get_topic_names_and_types =
      query cdr identifiers_match info node valid nothing (list_topics arrays kinds)

  unfoldable pub rmw_get_service_names_and_types : Ret × Option NamesAndTypes
  unfolding query list_services
  rmw_get_service_names_and_types =
      query cdr identifiers_match info node valid nothing (list_services arrays kinds)

  unfoldable pub rmw_get_entity_names_and_types_by_node :
      (kind : ℕ) → (node_name node_namespace : Bytes) → Ret × Option NamesAndTypes
  unfolding query list_of_node
  rmw_get_entity_names_and_types_by_node kind node_name node_namespace =
      query cdr identifiers_match info node valid nothing
        (list_of_node arrays kind node_name node_namespace)

  unfoldable pub rmw_get_publisher_names_and_types_by_node :
      (node_name node_namespace : Bytes) → Ret × Option NamesAndTypes
  unfolding rmw_get_entity_names_and_types_by_node
  rmw_get_publisher_names_and_types_by_node = rmw_get_entity_names_and_types_by_node kinds.publisher

  unfoldable pub rmw_get_subscriber_names_and_types_by_node :
      (node_name node_namespace : Bytes) → Ret × Option NamesAndTypes
  unfolding rmw_get_entity_names_and_types_by_node
  rmw_get_subscriber_names_and_types_by_node =
      rmw_get_entity_names_and_types_by_node kinds.subscriber

  unfoldable pub rmw_get_service_names_and_types_by_node :
      (node_name node_namespace : Bytes) → Ret × Option NamesAndTypes
  unfolding rmw_get_entity_names_and_types_by_node
  rmw_get_service_names_and_types_by_node =
      rmw_get_entity_names_and_types_by_node kinds.service_server

  unfoldable pub rmw_get_client_names_and_types_by_node :
      (node_name node_namespace : Bytes) → Ret × Option NamesAndTypes
  unfolding rmw_get_entity_names_and_types_by_node
  rmw_get_client_names_and_types_by_node =
      rmw_get_entity_names_and_types_by_node kinds.service_client
