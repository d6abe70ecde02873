-- ===== src/Types.antt =====
-- src/types.h: the records behind the handles, and the static pools. `M` is the type of messages,
-- requests and responses; it belongs to the generated type support. Pointers to entities are the
-- addresses of their items, since `mem` is the first member of each of them.
use rmw_microxrcedds.Base.{ℕ, Bool, true, false, Option, List, ◌==◌, ◌&&◌}
use rmw_microxrcedds.Memory.{Ptr}

-- A C string, without the terminating zero.
abbrev pub Bytes : Type 0
Bytes = List ℕ

-- `uxrObjectId`
pub record ObjectId : Type 0 where
  pub id : ℕ
  pub type : ℕ

abbrev pub object_id_eq : ObjectId → ObjectId → Bool
object_id_eq a b = (a.id == b.id) && (a.type == b.type)

-- `uxrStreamId`, of which only the field `type` is read.
pub data StreamId : Type 0 where
  best_effort_stream reliable_stream : StreamId

-- `SampleIdentity`
pub record SampleIdentity : Type 0 where
  pub high : ℕ
  pub low : ℕ
  pub entity_kind : ℕ
  pub entity_key : List ℕ
  pub guid_prefix : List ℕ

-- `rmw_qos_profile_t`: the policies that this code reads.
pub data Reliability : Type 0 where
  reliability_system_default reliability_reliable reliability_best_effort : Reliability
  reliability_unknown : Reliability

pub data History : Type 0 where
  history_system_default history_keep_last history_keep_all history_unknown : History

pub data Durability : Type 0 where
  durability_system_default durability_transient_local durability_volatile : Durability
  durability_unknown : Durability

pub record QosProfile : Type 0 where
  pub reliability : Reliability
  pub history : History
  pub durability : Durability
  pub avoid_ros_namespace_conventions : Bool

-- `message_type_support_callbacks_t`: generated code. `cdr_deserialize` gets the buffer and its
-- length, and returns no message on failure.
pub record MessageCallbacks (M : Type 0) : Type 0 where
  pub message_namespace : Option Bytes
  pub message_name : Bytes
  pub get_serialized_size : M → ℕ
  pub cdr_serialize : M → Bool × List ℕ
  pub cdr_deserialize : List ℕ → ℕ → Option M

-- `service_type_support_callbacks_t`
pub record ServiceCallbacks (M : Type 0) : Type 0 where
  pub request_members : MessageCallbacks M
  pub response_members : MessageCallbacks M

-- The `void * owner` of a buffer: NULL, or a pointer into one of three arrays.
pub data Owner : Type 0 where
  nobody : Owner
  subscription : Ptr → Owner
  service : Ptr → Owner
  client : Ptr → Owner

unfoldable pub owner_eq : Owner → Owner → Bool
owner_eq nobody nobody = true
owner_eq (subscription p) (subscription q) = p == q
owner_eq (service p) (service q) = p == q
owner_eq (client p) (client q) = p == q
owner_eq _ _ = false

-- The union `related`: the member that was written last.
pub data Related : Type 0 where
  unset : Related
  reply_id : ℕ → Related
  sample_id : SampleIdentity → Related

-- `rmw_uxrce_static_input_buffer_t`
pub record StaticInputBuffer : Type 0 where
  pub buffer : List ℕ
  pub length : ℕ
  pub owner : Owner
  pub related : Related

-- `rmw_uxrce_topic_t`
pub record Topic (M : Type 0) : Type 0 where
  pub topic_id : ObjectId
  pub message_type_support_callbacks : Option (MessageCallbacks M)
  pub owner_node : Ptr

-- `rmw_uxrce_service_t`
pub record Service (M : Type 0) : Type 0 where
  pub rmw_handle : Ptr
  pub service_id : ObjectId
  pub type_support_callbacks : Option (ServiceCallbacks M)
  pub service_data_resquest : ℕ
  pub history_write_index : ℕ
  pub history_read_index : ℕ
  pub micro_buffer_in_use : Bool
  pub stream_id : StreamId
  pub owner_node : Ptr

-- `rmw_uxrce_client_t`
pub record Client (M : Type 0) : Type 0 where
  pub rmw_handle : Ptr
  pub client_id : ObjectId
  pub type_support_callbacks : Option (ServiceCallbacks M)
  pub client_data_request : ℕ
  pub stream_id : StreamId
  pub owner_node : Ptr

-- `rmw_uxrce_subscription_t`
pub record Subscription (M : Type 0) : Type 0 where
  pub rmw_handle : Ptr
  pub subscriber_id : ObjectId
  pub datareader_id : ObjectId
  pub type_support_callbacks : Option (MessageCallbacks M)
  pub topic : Ptr
  pub owner_node : Ptr
  pub qos : QosProfile
  pub stream_id : StreamId
