-- ===== src/Graph/Queries.antt =====
-- src/rmw_count.c, src/rmw_node_names.c and src/rmw_get_topic_endpoint_info.c in a build with
-- RMW_UXRCE_GRAPH. Allocations succeed.
use Prim.Native.String.{String}
use rmw_microxrcedds.Base.{
  ℕ, ◌+◌, Bool, false, ◌&&◌, Option, none, some, List, [], ◌∷◌, ◌++◌, ◌==◌, map, length,
  if◌then◌else◌,
}
use rmw_microxrcedds.Types.{Bytes}
use rmw_microxrcedds.State.{Handle}
use rmw_microxrcedds.Handles.{Ret, ok}
use rmw_microxrcedds.Names.{snprintf}
use rmw_microxrcedds.Graph.{Entity, GraphNode, Graph, bytes_eq, Cdr, GraphInfo, query}

-- The constants `micro_ros_msgs__msg__Entity__…`, which are different numbers.
pub record Kinds : Type 0 where
  pub publisher : ℕ
  pub subscriber : ℕ
  pub service_server : ℕ
  pub service_client : ℕ

-- The test of the two loops on topics.
abbrev pub matches : (kind : ℕ) → (topic_name : Bytes) → Entity → Bool
matches kind topic_name entity = bytes_eq topic_name entity.name && (kind == entity.entity_type)

-- The inner loop of `__rmw_count_entities`.
unfoldable pub count_entities : (kind : ℕ) → (topic_name : Bytes) → List Entity → (count : ℕ) → ℕ
count_entities kind topic_name [] count = count
count_entities kind topic_name (entity ∷ entities) count =
    count_entities kind topic_name entities
      (if matches kind topic_name entity then count + 1 else count)

unfoldable pub count_nodes : (kind : ℕ) → (topic_name : Bytes) → Graph → (count : ℕ) → ℕ
unfolding count_entities
count_nodes kind topic_name [] count = count
count_nodes kind topic_name (n ∷ nodes) count =
    count_nodes kind topic_name nodes (count_entities kind topic_name n.entities count)

-- `rmw_endpoint_type_t`
pub data EndpointType : Type 0 where
  endpoint_invalid endpoint_publisher endpoint_subscription : EndpointType

unfoldable pub endpoint_kind_to_endpoint_type : Kinds → ℕ → EndpointType
endpoint_kind_to_endpoint_type kinds kind =
    if kind == kinds.publisher
    then endpoint_publisher
    else if kind == kinds.subscriber
    then endpoint_subscription
    else endpoint_invalid

-- `rmw_topic_endpoint_info_t`; the type is none where `types.data[0]` does not exist.
pub record EndpointInfo : Type 0 where
  pub node_name : Bytes
  pub node_namespace : Bytes
  pub topic_type : Option Bytes
  pub endpoint_type : EndpointType

abbrev pub first_type : List Bytes → Option Bytes
first_type [] = none
first_type (t ∷ ts) = some t

-- The inner loop of `__rmw_get_endpoint_info_by_topic`, with the array so far.
unfoldable pub endpoints_of_node :
    Kinds
    → (kind : ℕ) → (topic_name : Bytes) → GraphNode
    → List Entity
    → List EndpointInfo
    → List EndpointInfo
unfolding endpoint_kind_to_endpoint_type
endpoints_of_node kinds kind topic_name n [] infos = infos
endpoints_of_node kinds kind topic_name n (entity ∷ entities) infos =
    endpoints_of_node kinds kind topic_name n entities (
      if matches kind topic_name entity
      then infos
        ++ record {
          node_name = n.node_name;
          node_namespace = n.node_namespace;
          topic_type = first_type entity.types;
          endpoint_type = endpoint_kind_to_endpoint_type kinds kind;
        }
          ∷ []
      else infos)

unfoldable pub endpoints_of_graph :
    Kinds → (kind : ℕ) → (topic_name : Bytes) → Graph → List EndpointInfo → List EndpointInfo
unfolding endpoints_of_node
endpoints_of_graph kinds kind topic_name [] infos = infos
endpoints_of_graph kinds kind topic_name (n ∷ nodes) infos =
    endpoints_of_graph kinds kind topic_name nodes
      (endpoints_of_node kinds kind topic_name n n.entities infos)

-- The copies of the names: the size that `snprintf` is given is the number of nodes.
unfoldable pub copy_names : Graph → List Bytes × List Bytes
copy_names graph = (
  map (λ n. (snprintf (length graph) n.node_name).0) graph,
  map (λ n. (snprintf (length graph) n.node_namespace).0) graph,
)

module _ {S : Type 0} (cdr : Cdr S) (identifiers_match : Option String → Option String → Bool)
    (kinds : Kinds) (info : GraphInfo) where
  -- `count` is whether the pointer to the result is not NULL.
  unfoldable pub rmw_count_entities :
      (kind : ℕ)
      → (node : Option Handle) → (topic_name : Option Bytes) → (count : Bool) → Ret × Option ℕ
  unfolding query count_nodes
  rmw_count_entities kind node none count =
      query cdr identifiers_match info node false 0 (λ graph. (ok, 0))
  rmw_count_entities kind node (some topic_name) count =
      query cdr identifiers_match info node count 0
        (λ graph. (ok, count_nodes kind topic_name graph 0))

  unfoldable pub rmw_count_publishers :
      (node : Option Handle) → (topic_name : Option Bytes) → (count : Bool) → Ret × Option ℕ
  unfolding rmw_count_entities
  rmw_count_publishers = rmw_count_entities kinds.publisher

  unfoldable pub rmw_count_subscribers :
      (node : Option Handle) → (topic_name : Option Bytes) → (count : Bool) → Ret × Option ℕ
  unfolding rmw_count_entities
  rmw_count_subscribers = rmw_count_entities kinds.subscriber

  -- `zeroed` is what `rmw_check_zero_rmw_string_array` says of both outputs.
  unfoldable pub rmw_get_node_names :
      (node : Option Handle) → (zeroed : Bool) → Ret × Option (List Bytes × List Bytes)
  unfolding query copy_names
  rmw_get_node_names node zeroed =
      query cdr identifiers_match info node zeroed ([], []) (λ graph. (ok, copy_names graph))

  unfoldable pub rmw_get_node_names_with_enclaves :
      (node : Option Handle) → (zeroed : Bool) → Ret × Option (List Bytes × List Bytes)
  unfolding rmw_get_node_names
  rmw_get_node_names_with_enclaves = rmw_get_node_names

  -- `valid` is whether the allocator is valid and the output is zero-initialised.
  unfoldable pub rmw_get_endpoint_info_by_topic :
      (kind : ℕ)
      → (node : Option Handle) → (valid : Bool) → (topic_name : Bytes)
      → Ret × Option (List EndpointInfo)
  unfolding query endpoints_of_graph
  rmw_get_endpoint_info_by_topic kind node valid topic_name =
      query cdr identifiers_match info node valid []
        (λ graph. (ok, endpoints_of_graph kinds kind topic_name graph []))

  unfoldable pub rmw_get_publishers_info_by_topic :
      (node : Option Handle)
      → (valid : Bool) → (topic_name : Bytes) → Ret × Option (List EndpointInfo)
  unfolding rmw_get_endpoint_info_by_topic
  rmw_get_publishers_info_by_topic = rmw_get_endpoint_info_by_topic kinds.publisher

  unfoldable pub rmw_get_subscriptions_info_by_topic :
      (node : Option Handle)
      → (valid : Bool) → (topic_name : Bytes) → Ret × Option (List EndpointInfo)
  unfolding rmw_get_endpoint_info_by_topic
  rmw_get_subscriptions_info_by_topic = rmw_get_endpoint_info_by_topic kinds.subscriber
