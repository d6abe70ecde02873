-- ===== src/Graph/Counting.antt =====
-- What rmw_count_publishers and rmw_count_subscribers count.
use Prim.Native.String.{String}
use rmw_microxrcedds.Base.{
  ℕ, ◌+◌, ◌^◌, ◌<◌, ◌≡◌, refl, ap, ◌∙◌, Bool, Bool-cases, inl, inr, true, some, Option, List, [],
  ◌∷◌, ◌++◌, length, length-append, arith, if◌then◌else◌,
}
use rmw_microxrcedds.Types.{Bytes}
use rmw_microxrcedds.State.{Handle}
use rmw_microxrcedds.Handles.{Ret, ok, eprosima_microxrcedds_identifier}
use rmw_microxrcedds.Graph.{Entity, Graph, Cdr, GraphInfo, query}
use rmw_microxrcedds.Graph.Decode.{All, IsNode, IsWriter, put_graph, fill_data-put}
use rmw_microxrcedds.Graph.Queries.{
  Kinds, matches, count_entities, count_nodes, rmw_count_entities, rmw_count_publishers,
  rmw_count_subscribers,
}

-- The entities of the graph that are of this kind and on this topic.
abbrev pub keep : (Entity → Bool) → List Entity → List Entity
keep test [] = []
keep test (e ∷ es) = if test e then e ∷ keep test es else keep test es

abbrev pub entities_on_topic : (kind : ℕ) → (topic_name : Bytes) → Graph → List Entity
entities_on_topic kind topic_name [] = []
entities_on_topic kind topic_name (n ∷ nodes) =
    keep (matches kind topic_name) n.entities ++ entities_on_topic kind topic_name nodes

module _ (kind : ℕ) (topic_name : Bytes) where
  count_entities-keep :
      (es : List Entity) (count : ℕ)
      → count_entities kind topic_name es count ≡ count + length (keep (matches kind topic_name) es)
  unfolding count_entities
  count_entities-keep [] count = omega arith
  count_entities-keep (e ∷ es) count = elim (Bool-cases (matches kind topic_name e)) [
    | inl yes' ↦ rw yes' (count_entities-keep es (count + 1) ∙ omega arith)
    | inr no' ↦ rw no' (count_entities-keep es count)
  ]

  count_nodes-entities :
      (graph : Graph) (count : ℕ)
      → count_nodes kind topic_name graph count
        ≡ count + length (entities_on_topic kind topic_name graph)
  unfolding count_nodes
  count_nodes-entities [] count = omega arith
  count_nodes-entities (n ∷ nodes) count =
      let here = keep (matches kind topic_name) n.entities in
      let e = count_entities-keep n.entities count in
      rw e (
        count_nodes-entities nodes (count + length here)
        ∙ omega (arith, length-append here (entities_on_topic kind topic_name nodes)))

module _ {S : Type 0} (cdr : Cdr S) (w : IsWriter cdr)
    (identifiers_match : Option String → Option String → Bool) (info : GraphInfo) (node : Handle)
    (graph : Graph) (s : S)
    (valid : identifiers_match node.implementation_identifier
        (some eprosima_microxrcedds_identifier)
      ≡ true)
    (known : info.initialized ≡ true) (all : All IsNode graph) (short : length graph < 2 ^ 32)
    (written : cdr.init_buffer info.micro_buffer info.micro_buffer_length
      ≡ put_graph cdr w graph s) where
  pub query-put :
      {A : Type 0} (empty : A) (look : Graph → Ret × A)
      → query cdr identifiers_match info (some node) true empty look
        ≡ ((look graph).0, some (look graph).1)
  unfolding query
  query-put empty look =
      rw (valid, known) (rw (fill_data-put cdr w graph info s all short written) refl)

  -- For a valid node of a context that has received a graph, and the bytes of a graph whose texts
  -- and sequences have their bounds: rmw_count_publishers and rmw_count_subscribers return
  -- RMW_RET_OK and how many publishers and subscribers of the graph that was written are on the
  -- topic.
  pub rmw_count-entities :
      (kinds : Kinds) (topic_name : Bytes)
      → (rmw_count_publishers cdr identifiers_match kinds info (some node) (some topic_name) true
          ≡ (ok, some (length (entities_on_topic kinds.publisher topic_name graph))))
        × (rmw_count_subscribers cdr identifiers_match kinds info (some node) (some topic_name) true
            ≡ (ok, some (length (entities_on_topic kinds.subscriber topic_name graph))))
  unfolding rmw_count_publishers rmw_count_subscribers rmw_count_entities
  rmw_count-entities kinds topic_name = (
    query-put 0 _
        ∙ ap (λ n. (ok, some n))
            (count_nodes-entities kinds.publisher topic_name graph 0 ∙ omega arith),
    query-put 0 _
        ∙ ap (λ n. (ok, some n))
            (count_nodes-entities kinds.subscriber topic_name graph 0 ∙ omega arith),
  )
