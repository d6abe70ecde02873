-- ===== src/Xml.antt =====
-- src/utils.c: the XML texts and the profile names of a build with RMW_UXRCE_USE_REFS or
-- RMW_UXRCE_GRAPH. A format is the list of the texts around its "%s", and a buffer that was not
-- written is none. Lengths are below 2^31, so that the `int` of `snprintf` holds them.
pub mod Services
pub mod Profiles
pub mod Identity
use Prim.Native.Char.{code}
use Prim.Native.String.{String}
use rmw_microxrcedds.Base.{
  ℕ, zero, suc, ◌+◌, ◌-◌, ◌*◌, ◌/◌, ◌%◌, Bool, true, false, not, ◌&&◌, ◌||◌, Option, none, some,
  List, [], ◌∷◌, ◌++◌, ltb, leb, ◌==◌, length, if◌then◌else◌,
}
use rmw_microxrcedds.Types.{
  Bytes, ObjectId, MessageCallbacks, ServiceCallbacks, QosProfile, Reliability,
  reliability_best_effort,
}
use rmw_microxrcedds.RequestIds.{drop}
use rmw_microxrcedds.Session.{is_best_effort}
use rmw_microxrcedds.Names.{
  snprintf, ros_topic_prefix, ros_request_prefix, ros_reply_prefix, ros_request_subfix,
  ros_reply_subfix, generate_type_name,
}

-- The bytes of an ASCII text.
abbrev pub bytes : String → Bytes
bytes String.[] = []
bytes (String.◌∷◌ c s) = code c ∷ bytes s

-- A format with its arguments.
abbrev pub fill : (format arguments : List Bytes) → Bytes
fill [] arguments = []
fill (text ∷ format) [] = text ++ fill format []
fill (text ∷ format) (a ∷ arguments) = text ++ a ++ fill format arguments

-- RMW_UXRCE_TYPE_NAME_MAX_LENGTH and RMW_UXRCE_TOPIC_NAME_MAX_LENGTH
pub record NameLengths : Type 0 where
  pub type_name : ℕ
  pub topic_name : ℕ

-- `sizeof` of an array that is initialised by a text.
abbrev pub size_of : Bytes → ℕ
size_of text = length text + 1

unfoldable pub build_participant_xml : (participant_name : Bytes) → (buffer_size : ℕ) → Bytes × ℕ
build_participant_xml participant_name buffer_size = snprintf buffer_size (
    fill (bytes "<dds><participant><rtps><name>" ∷ bytes "</name></rtps></participant></dds>" ∷ [])
      (participant_name ∷ []))

-- The buffers of the request topic and of the reply topic.
abbrev pub request_topic_size : NameLengths → ℕ
request_topic_size lengths =
    lengths.topic_name + 1 + size_of ros_request_prefix + 1 + size_of ros_request_subfix

abbrev pub reply_topic_size : NameLengths → ℕ
reply_topic_size lengths =
    lengths.topic_name + 1 + size_of ros_reply_prefix + 1 + size_of ros_reply_subfix

-- The two topics in their buffers, or none where the function returns 0. The second test of the
-- last branch is on the size of the other buffer.
unfoldable pub service_topics :
    NameLengths
    → (service_name : Bytes) → (avoid_ros_namespace_conventions : Bool) → Option (Bytes × Bytes)
service_topics lengths service_name false =
    let (request, ret) =
      snprintf (request_topic_size lengths)
        (ros_request_prefix ++ service_name ++ ros_request_subfix) in
    let (reply, ret') =
      snprintf (reply_topic_size lengths) (ros_reply_prefix ++ service_name ++ ros_reply_subfix) in
    if leb (request_topic_size lengths) ret
    then none
    else if leb (reply_topic_size lengths) ret'
    then none
    else some (request, reply)
service_topics lengths service_name true =
    let (request, ret) = snprintf (request_topic_size lengths) service_name in
    let (reply, ret') = snprintf (reply_topic_size lengths) service_name in
    if leb (request_topic_size lengths) ret
    then none
    else if leb (request_topic_size lengths) ret'
    then none
    else some (request, reply)

abbrev pub service_format : List Bytes
service_format =
    bytes "<dds><"
    ∷ bytes " profile_name=\""
    ∷ bytes "\" service_name=\""
    ∷ bytes "\" request_type=\""
    ∷ bytes "\" reply_type=\""
    ∷ bytes "\"><request_topic_name>"
    ∷ bytes "</request_topic_name><reply_topic_name>"
    ∷ bytes "</reply_topic_name></"
    ∷ bytes "></dds>"
    ∷ []

abbrev pub service_kind : (requester : Bool) → Bytes
service_kind true = bytes "requester"
service_kind false = bytes "replier"

-- `full_topic_name`: the bytes in its buffer.
unfoldable pub full_topic_name : NameLengths → QosProfile → (topic_name : Bytes) → Bytes
full_topic_name lengths qos topic_name =
    let size = lengths.topic_name + 1 + size_of ros_topic_prefix in
    if qos.avoid_ros_namespace_conventions
    then (snprintf size topic_name).0
    else (snprintf size (ros_topic_prefix ++ topic_name)).0

module _ {M : Type 0} (lengths : NameLengths) where
  unfoldable pub build_service_xml :
      (service_name_id service_name : Bytes)
      → (requester : Bool) → ServiceCallbacks M
      → QosProfile
      → (buffer_size : ℕ) → Option Bytes × ℕ
  unfolding service_topics generate_type_name
  build_service_xml service_name_id service_name requester members qos buffer_size =
      let request_type = (generate_type_name members.request_members lengths.type_name).0 in
      let reply_type = (generate_type_name members.response_members lengths.type_name).0 in
      elim (service_topics lengths service_name qos.avoid_ros_namespace_conventions) [
        | none ↦ (none, 0)
        | some topics ↦
            let (xml, ret) = snprintf buffer_size (
              fill service_format (
                service_kind requester
                ∷ service_name_id
                ∷ service_name
                ∷ request_type
                ∷ reply_type
                ∷ topics.0
                ∷ topics.1
                ∷ service_kind requester
                ∷ [])) in
            (some xml, ret)
      ]

  unfoldable pub build_topic_xml :
      (topic_name : Bytes) → MessageCallbacks M → QosProfile → (buffer_size : ℕ) → Option Bytes × ℕ
  unfolding full_topic_name generate_type_name
  build_topic_xml topic_name members qos buffer_size =
      let (type_name, size) = generate_type_name members lengths.type_name in
      if leb (length topic_name) lengths.topic_name && not (size == 0)
      then (let (xml, ret) = snprintf buffer_size (
            fill
              (bytes "<dds><topic><name>"
                ∷ bytes "</name><dataType>"
                ∷ bytes "</dataType></topic></dds>"
                ∷ [])
              (full_topic_name lengths qos topic_name ∷ type_name ∷ [])) in
          (some xml, ret))
      else (none, 0)

  unfoldable pub build_xml :
      (format : List Bytes)
      → (topic_name : Bytes) → MessageCallbacks M
      → QosProfile
      → (buffer_size : ℕ) → Option Bytes × ℕ
  unfolding full_topic_name generate_type_name
  build_xml format topic_name members qos buffer_size =
      let (type_name, size) = generate_type_name members lengths.type_name in
      let reliability =
        if is_best_effort qos.reliability then bytes "BEST_EFFORT" else bytes "RELIABLE" in
      if not (size == 0)
      then (let (xml, ret) =
            snprintf buffer_size (
              fill format
                (reliability ∷ full_topic_name lengths qos topic_name ∷ type_name ∷ [])) in
          (some xml, ret))
      else (none, 0)

  unfoldable pub build_datawriter_xml :
      (topic_name : Bytes) → MessageCallbacks M → QosProfile → (buffer_size : ℕ) → Option Bytes × ℕ
  unfolding build_xml
  build_datawriter_xml = build_xml (
      bytes
        "<dds><data_writer><historyMemoryPolicy>PREALLOCATED_WITH_REALLOC</historyMemoryPolicy><qos><reliability><kind>"
      ∷ bytes "</kind></reliability></qos><topic><kind>NO_KEY</kind><name>"
      ∷ bytes "</name><dataType>"
      ∷ bytes
          "</dataType><historyQos><kind>KEEP_ALL</kind></historyQos></topic></data_writer></dds>"
      ∷ [])

  unfoldable pub build_datareader_xml :
      (topic_name : Bytes) → MessageCallbacks M → QosProfile → (buffer_size : ℕ) → Option Bytes × ℕ
  unfolding build_xml
  build_datareader_xml = build_xml (
      bytes
        "<dds><data_reader><historyMemoryPolicy>PREALLOCATED_WITH_REALLOC</historyMemoryPolicy><qos><reliability><kind>"
      ∷ bytes "</kind></reliability></qos><topic><kind>NO_KEY</kind><name>"
      ∷ bytes "</name><dataType>"
      ∷ bytes
          "</dataType><historyQos><kind>KEEP_ALL</kind></historyQos></topic></data_reader></dds>"
      ∷ [])

-- The two builders that write an empty text and return 1.
unfoldable pub build_publisher_xml : (publisher_name : Bytes) → (buffer_size : ℕ) → Bytes × ℕ
build_publisher_xml publisher_name buffer_size = ([], 1)

unfoldable pub build_subscriber_xml : (subscriber_name : Bytes) → (buffer_size : ℕ) → Bytes × ℕ
build_subscriber_xml subscriber_name buffer_size = ([], 1)

-- The profile is copied with its terminating zero.
unfoldable pub build_participant_profile : (buffer_size : ℕ) → Option Bytes × Bool
build_participant_profile buffer_size =
    if leb (size_of (bytes "participant_profile")) buffer_size
    then (some (bytes "participant_profile"), true)
    else (none, false)

-- What the three functions below share: `topic_name++`, and the text behind the name.
unfoldable pub build_profile : (subfix topic_name : Bytes) → (buffer_size : ℕ) → Bytes × Bool
build_profile subfix topic_name buffer_size =
    let (profile, written) = snprintf buffer_size (drop 1 topic_name ++ subfix) in
    (profile, ltb 0 written && ltb written buffer_size)

unfoldable pub build_topic_profile : (topic_name : Bytes) → (buffer_size : ℕ) → Bytes × Bool
unfolding build_profile
build_topic_profile = build_profile (bytes "__t")

unfoldable pub build_datawriter_profile : (topic_name : Bytes) → (buffer_size : ℕ) → Bytes × Bool
unfolding build_profile
build_datawriter_profile = build_profile (bytes "__dw")

unfoldable pub build_datareader_profile : (topic_name : Bytes) → (buffer_size : ℕ) → Bytes × Bool
unfolding build_profile
build_datareader_profile = build_profile (bytes "__dr")

-- A number in decimal digits, of which there are at most `digits`.
unfoldable pub decimal : (digits n : ℕ) → Bytes
decimal zero n = []
decimal (suc digits) n =
    let high = decimal digits (n / 10) in (if ltb n 10 then [] else high) ++ (48 + n % 10) ∷ []

-- `"%hu_%hi"` of a uint16_t and a uint8_t.
unfoldable pub generate_name : ObjectId → (buffer_size : ℕ) → Bytes × ℕ
unfolding decimal
generate_name id buffer_size =
    snprintf buffer_size (decimal 5 id.id ++ bytes "_" ++ decimal 5 id.type)
