-- ===== src/Xml/Services.antt =====
-- Which service names reach the agent whole.
use rmw_microxrcedds.Base.{
  ℕ, ◌+◌, ◌-◌, ◌≤◌, ◌<◌, ◌≡◌, ◌≢◌, refl, ap, ap₂, Bool, true, false, none, some, [], ◌∷◌, ◌++◌, leb,
  length, length-append, arith, ◌⊎◌, inl, inr, Bool-cases,
}
use rmw_microxrcedds.Types.{Bytes, ServiceCallbacks, QosProfile}
use rmw_microxrcedds.RequestIds.{take}
use rmw_microxrcedds.Names.{
  ros_request_prefix, ros_reply_prefix, ros_request_subfix, ros_reply_subfix, generate_type_name,
}
use rmw_microxrcedds.Names.Truncation.{take-short}
use rmw_microxrcedds.Options.Address.{length-take}
use rmw_microxrcedds.Xml.{
  NameLengths, fill, service_format, service_kind, service_topics, build_service_xml,
  request_topic_size, reply_topic_size,
}

-- The text that names these two topics.
abbrev pub service_xml :
    {M : Type 0}
    → NameLengths
    → (service_name_id service_name : Bytes) → (requester : Bool) → ServiceCallbacks M
    → (request reply : Bytes) → Bytes
service_xml lengths service_name_id service_name requester members request reply =
    fill service_format (
      service_kind requester
      ∷ service_name_id
      ∷ service_name
      ∷ (generate_type_name members.request_members lengths.type_name).0
      ∷ (generate_type_name members.response_members lengths.type_name).0
      ∷ request
      ∷ reply
      ∷ service_kind requester
      ∷ [])

module _ (lengths : NameLengths) (service_name : Bytes) where
  request_length :
      length (ros_request_prefix ++ service_name ++ ros_request_subfix) ≡ length service_name + 9
  request_length =
      omega (arith, length-append (ros_request_prefix ++ service_name) ros_request_subfix)

  reply_length :
      length (ros_reply_prefix ++ service_name ++ ros_reply_subfix) ≡ length service_name + 7
  reply_length = omega (arith, length-append (ros_reply_prefix ++ service_name) ros_reply_subfix)

  service_topics-whole :
      length service_name < lengths.topic_name + 4
      → service_topics lengths service_name false
        ≡ some (
          ros_request_prefix ++ service_name ++ ros_request_subfix,
          ros_reply_prefix ++ service_name ++ ros_reply_subfix,
        )
  unfolding service_topics
  service_topics-whole h =
      let a : leb (request_topic_size lengths)
            (length (ros_request_prefix ++ service_name ++ ros_request_subfix))
          ≡ false =
        ground (arith, request_length) in
      let b : leb (reply_topic_size lengths)
            (length (ros_reply_prefix ++ service_name ++ ros_reply_subfix))
          ≡ false =
        ground (arith, reply_length) in
      let c =
        take-short (request_topic_size lengths - 1)
          (ros_request_prefix ++ service_name ++ ros_request_subfix)
          (omega (arith, request_length)) in
      let d =
        take-short (reply_topic_size lengths - 1)
          (ros_reply_prefix ++ service_name ++ ros_reply_subfix) (omega (arith, reply_length)) in
      rw (a, b) (ap₂ (λ x y. some (x, y)) c d)

  service_topics-refused :
      lengths.topic_name + 4 ≤ length service_name
      → service_topics lengths service_name false ≡ none
  unfolding service_topics
  service_topics-refused h =
      let b : leb (reply_topic_size lengths)
            (length (ros_reply_prefix ++ service_name ++ ros_reply_subfix))
          ≡ true =
        ground (arith, reply_length) in
      elim (Bool-cases (
        leb (request_topic_size lengths)
          (length (ros_request_prefix ++ service_name ++ ros_request_subfix)))) [
            | inl e ↦ rw e refl
            | inr e ↦ rw (e, b) refl
          ]

  service_topics-cut :
      lengths.topic_name + 11 ≤ length service_name
      → length service_name < lengths.topic_name + 13
      → service_topics lengths service_name true
        ≡ some (service_name, take (lengths.topic_name + 10) service_name)
  unfolding service_topics
  service_topics-cut lower upper =
      let a : leb (request_topic_size lengths) (length service_name) ≡ false = ground arith in
      let c = take-short (request_topic_size lengths - 1) service_name (omega arith) in
      let d : reply_topic_size lengths - 1 ≡ lengths.topic_name + 10 = omega arith in
      rw a (ap₂ (λ x n. some (x, take n service_name)) c d)

module _ {M : Type 0} (lengths : NameLengths) (service_name_id service_name : Bytes)
    (requester : Bool) (members : ServiceCallbacks M) (qos : QosProfile) (size : ℕ) where
  -- The text with both whole topics.
  abbrev whole_xml : Bytes
  whole_xml =
      service_xml lengths service_name_id service_name requester members
        (ros_request_prefix ++ service_name ++ ros_request_subfix)
        (ros_reply_prefix ++ service_name ++ ros_reply_subfix)

  -- For a service with the ROS naming conventions and a buffer that is larger than the text with
  -- the name and both whole topics behind their prefixes: build_service_xml writes this text and
  -- returns its length for a name of fewer than four bytes more than
  -- RMW_UXRCE_TOPIC_NAME_MAX_LENGTH; for a longer one it writes nothing and returns 0.
  pub build_service_xml-whole :
      qos.avoid_ros_namespace_conventions ≡ false
      → length whole_xml < size
      → let r = build_service_xml lengths service_name_id service_name requester members qos size in
        ((length service_name < lengths.topic_name + 4) × (r ≡ (some whole_xml, length whole_xml)))
        ⊎ ((lengths.topic_name + 4 ≤ length service_name) × (r ≡ (none, 0)))
  unfolding build_service_xml
  build_service_xml-whole ros fits =
      let c = take-short (size - 1) whole_xml (omega arith) in
      elim (Bool-cases (leb (lengths.topic_name + 4) (length service_name))) [
        | inl long ↦ inr (
          ground arith,
          rw (build_service_xml, ros, service_topics-refused lengths service_name (ground arith))
              refl,
        )
        | inr short ↦ inl (
          ground arith,
          rw (build_service_xml, ros, service_topics-whole lengths service_name (ground arith))
              (ap (λ t. (some t, length whole_xml)) c),
        )
      ]

  -- For a service without the ROS naming conventions and a name of 11 or 12 bytes more than
  -- RMW_UXRCE_TOPIC_NAME_MAX_LENGTH: build_service_xml does not refuse it, but the text that it
  -- makes names the whole request topic and a reply topic that has lost its end.
  pub build_service_xml-cut :
      qos.avoid_ros_namespace_conventions ≡ true
      → lengths.topic_name + 11 ≤ length service_name
      → length service_name < lengths.topic_name + 13
      → let text =
          service_xml lengths service_name_id service_name requester members service_name
            (take (lengths.topic_name + 10) service_name) in
        (build_service_xml lengths service_name_id service_name requester members qos size
          ≡ (some (take (size - 1) text), length text))
        × (take (lengths.topic_name + 10) service_name ≢ service_name)
  unfolding build_service_xml
  build_service_xml-cut plain lower upper = (
    rw (build_service_xml, plain, service_topics-cut lengths service_name lower upper) refl,
    λ e.
        let l = length-take (lengths.topic_name + 10) service_name in
        let n : length (take (lengths.topic_name + 10) service_name) ≡ length service_name =
          ap length e in
        omega arith,
  )
