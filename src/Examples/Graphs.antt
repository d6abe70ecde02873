-- ===== src/Examples/Graphs.antt =====
-- The theorems on the graph, applied to two nodes. The codec writes a number as one element and a
-- string behind its length.
use rmw_microxrcedds.Base.{
  ℕ, ◌<◌, ◌≡◌, ◌↔◌, ◌⊎◌, refl, ap₂, arith, true, false, ltb, Option, none, some, List, [], ◌∷◌,
  ◌++◌, length, if◌then◌else◌,
}
use rmw_microxrcedds.Types.{Bytes, ObjectId}
use rmw_microxrcedds.State.{ObjectKind}
use rmw_microxrcedds.RequestIds.{take, drop}
use rmw_microxrcedds.RequestIds.RoundTrip.{take-append, drop-append}
use rmw_microxrcedds.Handles.{ok, error}
use rmw_microxrcedds.Xml.{bytes, NameLengths}
use rmw_microxrcedds.Graph.{GraphNode, Graph, Cdr, GraphInfo, rmw_graph_fill_data_from_buffer}
use rmw_microxrcedds.Graph.Setup.{Setup, GraphCall, rmw_graph_init}
use rmw_microxrcedds.Graph.Setup.Steps.{
  requests_data, started, asked, counted, rmw_graph_init-asked,
}
use rmw_microxrcedds.Graph.Decode.{All, IsNode, IsWriter, put_graph, fill_data-put}
use rmw_microxrcedds.Graph.Counting.{rmw_count-entities}
use rmw_microxrcedds.Graph.Queries.{
  Kinds, rmw_count_publishers, rmw_count_subscribers, rmw_get_node_names,
}
use rmw_microxrcedds.Graph.Cut.{rmw_get_node_names-cut}
use rmw_microxrcedds.Graph.Listing.{StringArrays}
use rmw_microxrcedds.Examples.{handle, reader_id, a_context, callbacks, no_id}

abbrev read_one : List ℕ → Option (ℕ × List ℕ)
read_one [] = none
read_one (n ∷ s) = some (n, s)

abbrev read_text : List ℕ → (size : ℕ) → Option (Bytes × List ℕ)
read_text [] size = none
read_text (n ∷ s) size = if ltb n size then some (take n s, drop n s) else none

abbrev cdr : Cdr (List ℕ)
cdr = record {
  init_buffer = λ b n. b;
  deserialize_uint8 = read_one;
  deserialize_uint32 = read_one;
  deserialize_string = read_text;
}

text_read :
    (t : Bytes) (size : ℕ) (s : List ℕ)
    → length t < size
    → read_text (length t ∷ (t ++ s)) size ≡ some (t, s)
text_read t size s h =
    let e : ltb (length t) size ≡ true = ground arith in
    rw e
      (ap₂ (λ a b. some (a, b)) (take-append (length t) t s refl) (drop-append (length t) t s refl))

abbrev writer : IsWriter cdr
writer = record {
  put_uint8 = λ n s. n ∷ s;
  put_uint32 = λ n s. n ∷ s;
  put_string = λ t s. length t ∷ (t ++ s);
  uint8_read = λ n s h. refl;
  uint32_read = λ n s h. refl;
  string_read = text_read;
}

abbrev kinds : Kinds
kinds = record { publisher = 0; subscriber = 1; service_server = 2; service_client = 3 }

abbrev talker : GraphNode
talker = record {
  node_namespace = bytes "/";
  node_name = bytes "a";
  entities =
      record { entity_type = 0; name = bytes "/chat"; types = bytes "T" ∷ [] }
      ∷ record { entity_type = 2; name = bytes "/sum"; types = [] }
      ∷ [];
}

abbrev listener : GraphNode
listener = record {
  node_namespace = bytes "/";
  node_name = bytes "listener";
  entities = record { entity_type = 1; name = bytes "/chat"; types = [] } ∷ [];
}

abbrev graph : Graph
graph = talker ∷ listener ∷ []

abbrev info : GraphInfo
info = record {
  initialized = true;
  has_changed = true;
  datareader_id = reader_id;
  micro_buffer = put_graph cdr writer graph [];
  micro_buffer_length = 60;
}

graph-IsNode : All IsNode graph
graph-IsNode = (
  (
    (refl, omega arith),
    (refl, omega arith),
    (
      (omega arith, (refl, omega arith), ((refl, omega arith), tt), omega arith),
      ((omega arith, (refl, omega arith), tt, omega arith), tt),
    ),
    omega arith,
  ),
  (
    (
      (refl, omega arith),
      (refl, omega arith),
      ((omega arith, (refl, omega arith), tt, omega arith), tt),
      omega arith,
    ),
    tt,
  ),
)

fill_data-put_example : rmw_graph_fill_data_from_buffer cdr info ≡ some graph
fill_data-put_example = fill_data-put cdr writer graph info [] graph-IsNode (omega arith) refl

rmw_count-entities_example :
    (rmw_count_publishers cdr (λ a b. true) kinds info (some handle) (some (bytes "/chat")) true
      ≡ (ok, some 1))
    × (rmw_count_subscribers cdr (λ a b. true) kinds info (some handle) (some (bytes "/chat")) true
        ≡ (ok, some 1))
rmw_count-entities_example =
    rmw_count-entities cdr writer (λ a b. true) info handle graph [] refl refl graph-IsNode
      (omega arith) refl kinds (bytes "/chat")

rmw_get_node_names-cut_example :
    (names namespaces : List Bytes) × (rmw_get_node_names cdr
        (λ a b. true)
        kinds
        info
        (some handle)
        true
      ≡ (ok, some (names, namespaces)))
    × ((names ≡ bytes "a" ∷ bytes "listener" ∷ []) ↔ All (λ n. length n.node_name < 2) graph)
    × ((namespaces ≡ bytes "/" ∷ bytes "/" ∷ []) ↔ All (λ n. length n.node_namespace < 2) graph)
rmw_get_node_names-cut_example =
    rmw_get_node_names-cut cdr writer (λ a b. true) kinds info handle graph [] refl refl
      graph-IsNode (omega arith) refl

abbrev arrays : StringArrays
arrays = record { capacity = λ n. n; names_fit = λ n. true; types_fit = λ p n. true }

abbrev fresh : Setup
fresh = record {
  context = a_context;
  graph_info = record {
    initialized = true;
    has_changed = true;
    datareader_id = no_id;
    micro_buffer = [];
    micro_buffer_length = 0;
  };
  participant_id = no_id;
  subscriber_id = no_id;
  topic_id = no_id;
  calls = [];
}

abbrev ids : ℕ → ObjectKind → ObjectId
ids n kind = record { id = n; type = 2 }

abbrev limits : NameLengths
limits = record { type_name = 50; topic_name = 30 }

rmw_graph_init-asked_example :
    let (ret, s') = rmw_graph_init 600 limits ids callbacks true fresh in
    (s'.context ≡ counted a_context)
    × (((ret ≡ ok)
          × (true ≡ true)
          × (topic_xml : Bytes) × (datareader_xml : Bytes) × (s'.calls
              ≡ asked ids fresh topic_xml datareader_xml))
        ⊎ ((ret ≡ error)
            × (new : List GraphCall) × (s'.calls ≡ new ++ started ids fresh)
            × (requests_data new ≡ false)))
rmw_graph_init-asked_example = rmw_graph_init-asked 600 limits ids callbacks true fresh
