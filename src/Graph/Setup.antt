-- ===== src/Graph/Setup.antt =====
-- `rmw_graph_init` of src/rmw_graph.c, in a build with RMW_UXRCE_GRAPH. The calls of the client
-- library are a list, the newest first; `uxr_object_id` and the answer of the agent are parameters,
-- and so are the callbacks of the message micro_ros_msgs/Graph.
pub mod Steps
use rmw_microxrcedds.Base.{
  ℕ, Bool, true, false, not, Option, none, some, List, [], ◌∷◌, ◌==◌, if◌then◌else◌,
}
use rmw_microxrcedds.Types.{
  Bytes, ObjectId, StreamId, QosProfile, MessageCallbacks, reliability_reliable, history_keep_last,
  durability_transient_local,
}
use rmw_microxrcedds.State.{
  Context, ObjectKind, participant_kind, topic_kind, subscriber_kind, datareader_kind,
}
use rmw_microxrcedds.Handles.{Ret, ok, error}
use rmw_microxrcedds.Session.{count_up}
use rmw_microxrcedds.Xml.{
  NameLengths, bytes, generate_name, build_subscriber_xml, build_topic_xml, build_datareader_xml,
}
use rmw_microxrcedds.Graph.{GraphInfo}

-- The calls `uxr_buffer_…` and `uxr_run_session_until_all_status`.
pub data GraphCall : Type 0 where
  create_participant_bin : ObjectId → (domain_id : ℕ) → (name : Bytes) → GraphCall
  create_subscriber_xml create_topic_xml create_datareader_xml :
      ObjectId → (parent : ObjectId) → (xml : Bytes) → GraphCall
  run_session : (requests : ℕ) → GraphCall
  request_data : StreamId → ObjectId → (input : StreamId) → GraphCall

-- The state, with the ids of the entities that `rmw_graph_info_t` keeps.
pub record Setup : Type 0 where
  pub context : Context
  pub graph_info : GraphInfo
  pub participant_id : ObjectId
  pub subscriber_id : ObjectId
  pub topic_id : ObjectId
  pub calls : List GraphCall

abbrev pub graph_subscription_qos_policies : QosProfile
graph_subscription_qos_policies = record {
  reliability = reliability_reliable;
  history = history_keep_last;
  durability = durability_transient_local;
  avoid_ros_namespace_conventions = true;
}

abbrev pub graph_topic_name : Bytes
graph_topic_name = bytes "ros_to_microros_graph"

-- The text of a builder, unless it returns 0.
abbrev pub accepted : Option Bytes × ℕ → Option Bytes
accepted (xml, written) = if written == 0 then none else xml

abbrev pub call : GraphCall → Setup → Setup
call c s = record (s) { calls = c ∷ s.calls }

-- `sizeof(rmw_uxrce_entity_naming_buffer)`; the limits of the names; `uxr_object_id`; the callbacks
-- of the graph's message; what `uxr_run_session_until_all_status` returns.
module _ {M : Type 0} (naming_buffer : ℕ) (lengths : NameLengths)
    (uxr_object_id : ℕ → ObjectKind → ObjectId) (members : MessageCallbacks M)
    (confirmed : Bool) where
  -- The entity numbers are taken in the order of the source.
  unfoldable pub setup_participant : Setup → Setup
  setup_participant s =
      let c = s.context in
      let id = uxr_object_id c.id_participant participant_kind in
      record s {
        graph_info = record (s.graph_info) { initialized = false; has_changed = false };
        context = record c { id_participant = count_up c.id_participant };
        participant_id = id;
        calls = create_participant_bin id 0 (bytes "microros_graph") ∷ s.calls;
      }

  -- The numbers of the datareader and of the topic.
  unfoldable pub setup_ids : Setup → Setup
  setup_ids s =
      let c = s.context in
      record s {
        context = record c {
          id_datareader = count_up c.id_datareader;
          id_topic = count_up c.id_topic;
        };
        graph_info = record (s.graph_info) {
          datareader_id = uxr_object_id c.id_datareader datareader_kind;
        };
        topic_id = uxr_object_id c.id_topic topic_kind;
      }

  -- The end, from the running of the session on.
  unfoldable pub setup_run : Setup → Ret × Setup
  setup_run s =
      let s1 = call (run_session 4) s in
      let c = s.context in
      if not confirmed then (error, s1) else (
        ok,
        call (request_data c.reliable_output s.graph_info.datareader_id c.reliable_input) s1,
      )

  unfoldable pub setup_datareader : Setup → Ret × Setup
  unfolding setup_run build_datareader_xml
  setup_datareader s =
      elim (accepted (
        build_datareader_xml lengths graph_topic_name members graph_subscription_qos_policies
          naming_buffer)) [
            | none ↦ (error, s)
            | some xml ↦
                setup_run
                  (call (create_datareader_xml s.graph_info.datareader_id s.subscriber_id xml) s)
          ]

  unfoldable pub setup_topic : Setup → Ret × Setup
  unfolding setup_datareader build_topic_xml
  setup_topic s =
      elim (accepted (
        build_topic_xml lengths graph_topic_name members graph_subscription_qos_policies
          naming_buffer)) [
            | none ↦ (error, s)
            | some xml ↦
                setup_datareader (call (create_topic_xml s.topic_id s.participant_id xml) s)
          ]

  unfoldable pub setup_subscriber : Setup → Ret × Setup
  unfolding build_subscriber_xml generate_name setup_ids setup_topic
  setup_subscriber s =
      let c = s.context in
      let id = uxr_object_id c.id_subscriber subscriber_kind in
      let (xml, written) = build_subscriber_xml (generate_name id 20).0 naming_buffer in
      let s1 = record s {
        context = record c { id_subscriber = count_up c.id_subscriber };
        subscriber_id = id;
      } in
      if written == 0
      then (error, s1)
      else setup_topic (setup_ids (call (create_subscriber_xml id s.participant_id xml) s1))

  -- The session is a member of the context, so the test of its address never fails.
  unfoldable pub rmw_graph_init : Setup → Ret × Setup
  unfolding setup_participant setup_subscriber
  rmw_graph_init s = setup_subscriber (setup_participant s)
