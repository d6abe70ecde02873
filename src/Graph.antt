-- ===== src/Graph.antt =====
-- The ROS graph of a build with RMW_UXRCE_GRAPH: src/rmw_graph.c, the part of `on_topic` in
-- src/callbacks.c that receives it, and the start of the functions that look into it. The messages
-- are of micro_ros_msgs. Reading a buffer belongs to the CDR library.
pub mod Decode
pub mod Queries
pub mod Listing
pub mod Counting
pub mod Unique
pub mod Cut
pub mod Topics
pub mod Setup
use Prim.Native.String.{String}
use rmw_microxrcedds.Base.{
  ℕ, zero, suc, Bool, true, false, not, ◌&&◌, Option, none, some, List, [], ◌∷◌, ◌==◌,
  if◌then◌else◌,
}
use rmw_microxrcedds.Types.{Bytes, ObjectId, object_id_eq}
use rmw_microxrcedds.State.{Handle}
use rmw_microxrcedds.Receive.{◌>>=◌}
use rmw_microxrcedds.Handles.{
  Ret, ok, error, invalid_argument, incorrect_rmw_implementation, eprosima_microxrcedds_identifier,
}

-- `micro_ros_msgs__msg__Entity`, `…Node` and `…Graph`. The kinds of an entity are numbers.
pub record Entity : Type 0 where
  pub entity_type : ℕ
  pub name : Bytes
  pub types : List Bytes

pub record GraphNode : Type 0 where
  pub node_namespace : Bytes
  pub node_name : Bytes
  pub entities : List Entity

abbrev pub Graph : Type 0
Graph = List GraphNode

-- `strcmp`
abbrev pub bytes_eq : Bytes → Bytes → Bool
bytes_eq [] [] = true
bytes_eq (a ∷ rest) (b ∷ rest') = (a == b) && bytes_eq rest rest'
bytes_eq _ _ = false

-- The C string that an array of characters holds.
abbrev pub c_string : Bytes → Bytes
c_string [] = []
c_string (c ∷ rest) = if c == 0 then [] else c ∷ c_string rest

-- The functions `ucdr_init_buffer` and `ucdr_deserialize_…`: `S` is the state of a buffer. A string
-- is read into an array of the given size.
pub record Cdr (S : Type 0) : Type 0 where
  pub init_buffer : Bytes → ℕ → S
  pub deserialize_uint8 : S → Option (ℕ × S)
  pub deserialize_uint32 : S → Option (ℕ × S)
  pub deserialize_string : S → (size : ℕ) → Option (Bytes × S)

-- `rmw_graph_info_t`: the members that the functions below read.
pub record GraphInfo : Type 0 where
  pub initialized : Bool
  pub has_changed : Bool
  pub datareader_id : ObjectId
  pub micro_buffer : Bytes
  pub micro_buffer_length : ℕ

-- The start of `on_topic`: does the sample belong to the graph, and what is kept of it?
unfoldable pub receive_graph :
    GraphInfo → ObjectId → (sample : Bytes) → (length : ℕ) → Bool × GraphInfo
receive_graph info object_id sample length =
    if object_id_eq object_id info.datareader_id
    then (
      true,
      record info {
        micro_buffer_length = length;
        micro_buffer = sample;
        initialized = true;
        has_changed = true;
      },
    )
    else (false, info)

-- A loop that reads `n` elements of a sequence.
unfoldable pub read_sequence {ℓ} :
    {A : Type ℓ} {S : Type 0} → (n : ℕ) → (S → Option (A × S)) → S → Option (List A × S)
read_sequence zero read s = some ([], s)
read_sequence (suc n) read s = do
  (a, s1) ← read s
  (rest, s2) ← read_sequence n read s1
  some (a ∷ rest, s2)

module _ {S : Type 0} (cdr : Cdr S) where
  -- A string in `temp_string`, which is then assigned.
  unfoldable pub read_string : S → Option (Bytes × S)
  read_string s = do (text, s1) ← cdr.deserialize_string s 256; some (c_string text, s1)

  unfoldable pub read_entity : S → Option (Entity × S)
  unfolding read_string read_sequence
  read_entity s = do
    (entity_type, s1) ← cdr.deserialize_uint8 s
    (name, s2) ← read_string s1
    (types_size, s3) ← cdr.deserialize_uint32 s2
    (types, s4) ← read_sequence types_size read_string s3
    some (record { entity_type = entity_type; name = name; types = types }, s4)

  unfoldable pub read_node : S → Option (GraphNode × S)
  unfolding read_string read_sequence read_entity
  read_node s = do
    (node_namespace, s1) ← read_string s
    (node_name, s2) ← read_string s1
    (entities_size, s3) ← cdr.deserialize_uint32 s2
    (entities, s4) ← read_sequence entities_size read_entity s3
    some
        (record { node_namespace = node_namespace; node_name = node_name; entities = entities }, s4)

  -- `none` is RMW_RET_ERROR. After a read that failed the code still makes the reads up to the next
  -- loop, but it enters no loop, and the result stays RMW_RET_ERROR.
  unfoldable pub rmw_graph_fill_data_from_buffer : GraphInfo → Option Graph
  unfolding read_sequence read_node
  rmw_graph_fill_data_from_buffer info = do
    (nodes_size, s1) ←
        cdr.deserialize_uint32 (cdr.init_buffer info.micro_buffer info.micro_buffer_length)
    (nodes, s2) ← read_sequence nodes_size read_node s1
    some nodes

  -- What the functions that look into the graph share: the checks of the node and of the other
  -- arguments, the test of `initialized`, and the reading of the graph. `empty` is what the output
  -- holds when nothing was found; none is an output that was not written.
  unfoldable pub query {ℓ} :
      {A : Type ℓ}
      → (identifiers_match : Option String → Option String → Bool) → GraphInfo
      → (node : Option Handle) → (arguments_are_valid : Bool) → (empty : A) → (Graph → Ret × A)
      → Ret × Option A
  unfolding rmw_graph_fill_data_from_buffer
  query identifiers_match info none valid empty look = (invalid_argument, none)
  query identifiers_match info (some node) valid empty look =
      if not
        (identifiers_match node.implementation_identifier (some eprosima_microxrcedds_identifier))
      then (incorrect_rmw_implementation, none)
      else if not valid
      then (invalid_argument, none)
      else if not info.initialized
      then (ok, some empty)
      else elim (rmw_graph_fill_data_from_buffer info) [
        | none ↦ (error, some empty)
        | some graph ↦ let (ret, found) = look graph in (ret, some found)
      ]
