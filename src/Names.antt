-- ===== src/Names.antt =====
-- src/utils.c: the names that the entities have in DDS. A buffer of `size` bytes keeps the first
-- `size - 1` bytes of what `snprintf` prints, and `snprintf` returns the full length.
pub mod Truncation
use rmw_microxrcedds.Base.{
  ℕ, zero, suc, ◌+◌, ◌-◌, Bool, true, false, Option, none, some, List, [], ◌∷◌, ◌++◌, length,
}
use rmw_microxrcedds.Types.{Bytes, MessageCallbacks, ServiceCallbacks}
use rmw_microxrcedds.RequestIds.{take}

-- The bytes that end up in the buffer, and what is returned.
abbrev pub snprintf : (size : ℕ) → Bytes → Bytes × ℕ
snprintf size text = (take (size - 1) text, length text)

-- "rt", "rq", "rr", "Request" and "Reply"
abbrev pub ros_topic_prefix : Bytes
ros_topic_prefix = 114 ∷ 116 ∷ []

abbrev pub ros_request_prefix : Bytes
ros_request_prefix = 114 ∷ 113 ∷ []

abbrev pub ros_reply_prefix : Bytes
ros_reply_prefix = 114 ∷ 114 ∷ []

abbrev pub ros_request_subfix : Bytes
ros_request_subfix = 82 ∷ 101 ∷ 113 ∷ 117 ∷ 101 ∷ 115 ∷ 116 ∷ []

abbrev pub ros_reply_subfix : Bytes
ros_reply_subfix = 82 ∷ 101 ∷ 112 ∷ 108 ∷ 121 ∷ []

-- "::", "dds" and "_"
abbrev pub sep : Bytes
sep = 58 ∷ 58 ∷ []

abbrev pub protocol : Bytes
protocol = 100 ∷ 100 ∷ 115 ∷ []

abbrev pub suffix : Bytes
suffix = 95 ∷ []

-- The request topic and the reply topic; the function always returns 1.
unfoldable pub generate_service_topics : (service_name : Bytes) → (buffer_size : ℕ) → Bytes × Bytes
generate_service_topics service_name buffer_size = (
  (snprintf buffer_size (ros_request_prefix ++ service_name ++ ros_request_subfix)).0,
  (snprintf buffer_size (ros_reply_prefix ++ service_name ++ ros_reply_subfix)).0,
)

unfoldable pub scope : Option Bytes → Bytes
scope none = []
scope (some message_namespace) = message_namespace ++ sep

-- The size of the namespace, without its separator.
unfoldable pub scope_size : Option Bytes → ℕ
scope_size none = 0
scope_size (some message_namespace) = length message_namespace

module _ {M : Type 0} where
  abbrev pub full_type_name : MessageCallbacks M → Bytes
  full_type_name members =
      scope members.message_namespace ++ protocol ++ suffix ++ sep ++ members.message_name ++ suffix

  -- The name in the buffer, and the returned `full_name_size`.
  unfoldable pub generate_type_name : MessageCallbacks M → (buffer_size : ℕ) → Bytes × ℕ
  unfolding scope scope_size
  generate_type_name members buffer_size = (
    (snprintf buffer_size (full_type_name members)).0,
    length protocol
        + length suffix
        + length sep
        + length members.message_name
        + length suffix
        + scope_size members.message_namespace
        + 1,
  )

  unfoldable pub generate_service_types : ServiceCallbacks M → (buffer_size : ℕ) → Bytes × Bytes
  unfolding generate_type_name
  generate_service_types members buffer_size = (
    (generate_type_name members.request_members buffer_size).0,
    (generate_type_name members.response_members buffer_size).0,
  )

-- The returned number of `snprintf` is below 0 and at least the size of the buffer at no time, so
-- the function never returns 0 for a name that is too long.
unfoldable pub generate_topic_name : (topic_name : Bytes) → (full_topic_name_size : ℕ) → Bytes × ℕ
generate_topic_name topic_name full_topic_name_size =
    snprintf full_topic_name_size (ros_topic_prefix ++ topic_name)
