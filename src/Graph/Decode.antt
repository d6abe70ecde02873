-- ===== src/Graph/Decode.antt =====
-- The graph that the agent wrote is the graph that is read.
use rmw_microxrcedds.Base.{ℕ, ◌^◌, ◌<◌, ◌≡◌, refl, some, Option, List, [], ◌∷◌, length}
use rmw_microxrcedds.Types.{Bytes}
use rmw_microxrcedds.Graph.{
  Entity, GraphNode, Graph, c_string, Cdr, GraphInfo, read_sequence, read_string, read_entity,
  read_node, rmw_graph_fill_data_from_buffer,
}

-- All the elements of a list have the property.
abbrev pub All {ℓ} : {A : Type ℓ} → (A → Type 0) → List A → Type 0
All P [] = Unit {0}
All P (x ∷ xs) = P x × All P xs

-- A writer that puts one value in front of a buffer, and its laws: what was put is what is read.
pub record IsWriter {S : Type 0} (cdr : Cdr S) : Type 0 where
  pub put_uint8 : ℕ → S → S
  pub put_uint32 : ℕ → S → S
  pub put_string : Bytes → S → S
  pub uint8_read : (n : ℕ) (s : S) → n < 2 ^ 8 → cdr.deserialize_uint8 (put_uint8 n s) ≡ some (n, s)
  pub uint32_read :
      (n : ℕ) (s : S) → n < 2 ^ 32 → cdr.deserialize_uint32 (put_uint32 n s) ≡ some (n, s)
  pub string_read :
      (t : Bytes) (size : ℕ) (s : S)
      → length t < size
      → cdr.deserialize_string (put_string t s) size ≡ some (t, s)

-- A text that fits into `temp_string` and has no zero.
abbrev pub IsText : Bytes → Type 0
IsText t = (c_string t ≡ t) × (length t < 256)

abbrev pub IsEntity : Entity → Type 0
IsEntity e =
    (e.entity_type < 2 ^ 8) × IsText e.name × All IsText e.types × (length e.types < 2 ^ 32)

abbrev pub IsNode : GraphNode → Type 0
IsNode n =
    IsText n.node_namespace
    × IsText n.node_name
    × All IsEntity n.entities
    × (length n.entities < 2 ^ 32)

-- Writing the elements of a sequence.
abbrev pub put_sequence {ℓ} : {A : Type ℓ} {S : Type 0} → (A → S → S) → List A → S → S
put_sequence put [] s = s
put_sequence put (x ∷ xs) s = put x (put_sequence put xs s)

read_sequence-put {ℓ} :
    {A : Type ℓ} {S : Type 0} (P : A → Type 0) (put : A → S → S) (read : S → Option (A × S))
    (law : (a : A) (s : S) → P a → read (put a s) ≡ some (a, s)) (xs : List A) (s : S)
    → All P xs
    → read_sequence (length xs) read (put_sequence put xs s) ≡ some (xs, s)
unfolding read_sequence
read_sequence-put P put read law [] s all = refl
read_sequence-put P put read law (x ∷ xs) s all =
    rw (law x (put_sequence put xs s) all.0) (rw (read_sequence-put P put read law xs s all.1) refl)

module _ {S : Type 0} (cdr : Cdr S) (w : IsWriter cdr) where
  abbrev pub put_entity : Entity → S → S
  put_entity e s =
      w.put_uint8 e.entity_type
        (w.put_string e.name (w.put_uint32 (length e.types) (put_sequence w.put_string e.types s)))

  abbrev pub put_node : GraphNode → S → S
  put_node n s = w.put_string n.node_namespace (
      w.put_string n.node_name
        (w.put_uint32 (length n.entities) (put_sequence put_entity n.entities s)))

  abbrev pub put_graph : Graph → S → S
  put_graph g s = w.put_uint32 (length g) (put_sequence put_node g s)

  read_string-put :
      (t : Bytes) (s : S) → IsText t → read_string cdr (w.put_string t s) ≡ some (t, s)
  unfolding read_string
  read_string-put t s is = rw (w.string_read t 256 s is.1) (rw is.0 refl)

  read_entity-put :
      (e : Entity) (s : S) → IsEntity e → read_entity cdr (put_entity e s) ≡ some (e, s)
  unfolding read_entity
  read_entity-put e s is = rw (w.uint8_read e.entity_type _ is.0) (
      rw (read_string-put e.name _ is.1) (
        rw (w.uint32_read (length e.types) _ is.3) (
          rw
            (read_sequence-put IsText w.put_string (read_string cdr) read_string-put e.types s is.2)
            refl)))

  read_node-put : (n : GraphNode) (s : S) → IsNode n → read_node cdr (put_node n s) ≡ some (n, s)
  unfolding read_node
  read_node-put n s is = rw (read_string-put n.node_namespace _ is.0) (
      rw (read_string-put n.node_name _ is.1) (
        rw (w.uint32_read (length n.entities) _ is.3) (
          rw
            (read_sequence-put IsEntity put_entity (read_entity cdr) read_entity-put n.entities s
              is.2)
            refl)))

  -- For a graph of fewer than 2^32 nodes, whose texts have no zero and fewer than 256 bytes and
  -- whose sequences have fewer than 2^32 elements, in a buffer that holds what a writer put there
  -- that the CDR library reads back: rmw_graph_fill_data_from_buffer returns this graph.
  pub fill_data-put :
      (graph : Graph) (info : GraphInfo) (s : S)
      → All IsNode graph
      → length graph < 2 ^ 32
      → cdr.init_buffer info.micro_buffer info.micro_buffer_length ≡ put_graph graph s
      → rmw_graph_fill_data_from_buffer cdr info ≡ some graph
  unfolding rmw_graph_fill_data_from_buffer
  fill_data-put graph info s all short written = rw (written) (
      rw (w.uint32_read (length graph) _ short)
        (rw (read_sequence-put IsNode put_node (read_node cdr) read_node-put graph s all) refl))
