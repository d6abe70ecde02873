-- ===== src/State.antt =====
-- src/types.h and src/types.c: the remaining records, and the global state, which is the eight
-- static pools, the handles that were given to the user, and the XRCE session.
use Prim.Native.String.{String}
use rmw_microxrcedds.Base.{ℕ, Bool, Option, List}
use rmw_microxrcedds.Memory.{Ptr, Mempool}
use rmw_microxrcedds.Types.{
  Bytes, ObjectId, StreamId, QosProfile, MessageCallbacks, StaticInputBuffer, Topic, Service,
  Client, Subscription,
}

-- `rmw_uxrce_publisher_t`
pub record Publisher (M : Type 0) : Type 0 where
  pub rmw_handle : Ptr
  pub publisher_id : ObjectId
  pub datawriter_id : ObjectId
  pub type_support_callbacks : Option (MessageCallbacks M)
  pub cs_cb_size : Option (ℕ → ℕ)
  pub cs_cb_serialization : Option (List ℕ → List ℕ)
  pub topic : Ptr
  pub qos : QosProfile
  pub stream_id : StreamId
  pub owner_node : Ptr

-- `rmw_uxrce_node_t`
pub record Node : Type 0 where
  pub rmw_handle : Ptr
  pub context : Ptr
  pub participant_id : ObjectId

-- `rmw_context_impl_t`: the streams and the counters that number the entities.
pub record Context : Type 0 where
  pub reliable_input : StreamId
  pub reliable_output : StreamId
  pub best_effort_output : StreamId
  pub best_effort_input : StreamId
  pub creation_destroy_stream : StreamId
  pub id_participant : ℕ
  pub id_topic : ℕ
  pub id_publisher : ℕ
  pub id_datawriter : ℕ
  pub id_subscriber : ℕ
  pub id_datareader : ℕ
  pub id_requester : ℕ
  pub id_replier : ℕ

-- `rmw_publisher_t`, `rmw_subscription_t`, `rmw_service_t`, `rmw_client_t` and `rmw_node_t`;
-- `element` is their field `data`, `name` the string that was allocated for them.
pub record Handle : Type 0 where
  pub implementation_identifier : Option String
  pub element : Ptr
  pub name : Option Bytes

-- UXR_PARTICIPANT_ID and so on.
pub data ObjectKind : Type 0 where
  participant_kind topic_kind publisher_kind subscriber_kind datawriter_kind : ObjectKind
  datareader_kind requester_kind replier_kind : ObjectKind

-- `uxrQoSDurability`
pub data UxrDurability : Type 0 where
  uxr_volatile uxr_transient_local : UxrDurability

-- The calls `uxr_buffer_…_bin` with the arguments that this code computes.
pub data Request : Type 0 where
  create_participant_bin : ObjectId → (domain_id : ℕ) → Bytes → Request
  create_topic_bin : ObjectId → (participant : ObjectId) → Bytes → Bytes → Request
  create_publisher_bin create_subscriber_bin : ObjectId → (participant : ObjectId) → Request
  create_datawriter_bin create_datareader_bin :
      ObjectId → (parent topic : ObjectId) → (reliability history : Bool) → UxrDurability → Request
  create_requester_bin create_replier_bin :
      ObjectId
      → (participant : ObjectId)
      → (service_name request_type reply_type request_topic reply_topic : Bytes) → Request
  delete_entity : ObjectId → Request
  request_data : ObjectId → StreamId → Request

-- The XRCE client: the requests that were buffered, the newest first, and how often the session
-- was run. The last three fields are the client library's own: what
-- `uxr_run_session_until_all_status` returns at each run for a request id, the request id that a call of
-- `uxr_buffer_…` returns, and `uxr_object_id`.
pub record Session : Type 0 where
  pub sent : List Request
  pub runs : ℕ
  pub confirmed : (run request_id : ℕ) → Bool
  pub request_id : List Request → ℕ
  pub uxr_object_id : ℕ → ObjectKind → ObjectId

pub record Globals (M : Type 0) : Type 0 where
  pub session_memory : Mempool Context
  pub node_memory : Mempool Node
  pub publisher_memory : Mempool (Publisher M)
  pub subscription_memory : Mempool (Subscription M)
  pub service_memory : Mempool (Service M)
  pub client_memory : Mempool (Client M)
  pub topics_memory : Mempool (Topic M)
  pub static_buffer_memory : Mempool StaticInputBuffer
  pub handles : Ptr → Option Handle
  pub session : Session
