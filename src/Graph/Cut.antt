-- ===== src/Graph/Cut.antt =====
-- What rmw_get_node_names does to the names.
use Prim.Native.String.{String}
use rmw_microxrcedds.Base.{
  ℕ, suc, ◌-◌, ◌^◌, ◌≤◌, ◌<◌, ◌≡◌, ◌↔◌, refl, ap, ap₂, Bool, true, some, Option, List, [], ◌∷◌, map,
  length, arith,
}
use rmw_microxrcedds.Types.{Bytes}
use rmw_microxrcedds.State.{Handle}
use rmw_microxrcedds.RequestIds.{take}
use rmw_microxrcedds.Options.Address.{take_iff}
use rmw_microxrcedds.Handles.{ok, eprosima_microxrcedds_identifier}
use rmw_microxrcedds.Graph.{GraphNode, Graph, Cdr, GraphInfo}
use rmw_microxrcedds.Graph.Decode.{All, IsNode, IsWriter, put_graph}
use rmw_microxrcedds.Graph.Counting.{query-put}
use rmw_microxrcedds.Graph.Queries.{Kinds, copy_names, rmw_get_node_names}

abbrev head_or : Bytes → List Bytes → Bytes
head_or t [] = t
head_or t (x ∷ xs) = x

abbrev rest_of : List Bytes → List Bytes
rest_of [] = []
rest_of (x ∷ xs) = xs

module _ {A : Type 0} (name : A → Bytes) (k : ℕ) where
  map-take_iff :
      (xs : List A)
      → (map (λ x. take k (name x)) xs ≡ map name xs) ↔ All (λ x. length (name x) ≤ k) xs
  map-take_iff [] = (λ e. tt, λ all. refl)
  map-take_iff (x ∷ xs) = (
    λ e. ((take_iff k (name x)).0 (ap (head_or []) e), (map-take_iff xs).0 (ap rest_of e)),
    λ all. ap₂ (λ y ys. y ∷ ys) ((take_iff k (name x)).1 all.0) ((map-take_iff xs).1 all.1),
  )

  All-below :
      (l : ℕ)
      → suc k ≡ l
      → (xs : List A) → All (λ x. length (name x) ≤ k) xs ↔ All (λ x. length (name x) < l) xs
  All-below l e [] = (λ all. tt, λ all. tt)
  All-below l e (x ∷ xs) = (
    λ all. (omega (arith, all.0), (All-below l e xs).0 all.1),
    λ all. (omega (arith, all.0), (All-below l e xs).1 all.1),
  )

-- A copy with the number of nodes as its size.
copies_iff :
    (name : GraphNode → Bytes) (graph : Graph)
    → (map (λ n. take (length graph - 1) (name n)) graph ≡ map name graph)
      ↔ All (λ n. length (name n) < length graph) graph
copies_iff name [] = (λ e. tt, λ all. refl)
copies_iff name (n ∷ nodes) =
    let l = length (n ∷ nodes) in
    let a = map-take_iff name (l - 1) (n ∷ nodes) in
    let b = All-below name (l - 1) l (omega arith) (n ∷ nodes) in
    (λ e. b.0 (a.0 e), λ all. a.1 (b.1 all))

module _ {S : Type 0} (cdr : Cdr S) (w : IsWriter cdr)
    (identifiers_match : Option String → Option String → Bool) (kinds : Kinds) (info : GraphInfo)
    (node : Handle) (graph : Graph) (s : S) where
  -- For a valid node of a context that has received a graph, and the bytes of a graph whose texts
  -- and sequences have their bounds: rmw_get_node_names returns RMW_RET_OK; the names that it
  -- gives are the names of the nodes exactly if every name has fewer bytes than the graph has
  -- nodes, and so for the namespaces.
  pub rmw_get_node_names-cut :
      identifiers_match node.implementation_identifier (some eprosima_microxrcedds_identifier)
        ≡ true
      → info.initialized ≡ true
      → All IsNode graph
      → length graph < 2 ^ 32
      → cdr.init_buffer info.micro_buffer info.micro_buffer_length ≡ put_graph cdr w graph s
      → (names namespaces : List Bytes) × (rmw_get_node_names cdr identifiers_match kinds info
            (some node)
            true
          ≡ (ok, some (names, namespaces)))
        × ((names ≡ map (λ n. n.node_name) graph)
            ↔ All (λ n. length n.node_name < length graph) graph)
        × ((namespaces ≡ map (λ n. n.node_namespace) graph)
            ↔ All (λ n. length n.node_namespace < length graph) graph)
  unfolding rmw_get_node_names copy_names
  rmw_get_node_names-cut valid known all short written = (
    map (λ n. take (length graph - 1) n.node_name) graph,
    map (λ n. take (length graph - 1) n.node_namespace) graph,
    query-put cdr w identifiers_match info node graph s valid known all short written ([], [])
        (λ g. (ok, copy_names g)),
    copies_iff (λ n. n.node_name) graph,
    copies_iff (λ n. n.node_namespace) graph,
  )
