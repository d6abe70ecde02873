-- ===== src/Examples/Texts.antt =====
-- The theorems on XML texts and profiles, applied to short names.
use rmw_microxrcedds.Base.{
  ◌+◌, ◌-◌, ◌≤◌, ◌<◌, ◌≡◌, ◌≢◌, ◌⊎◌, refl, ap, arith, true, none, some, ◌++◌, length,
}
use rmw_microxrcedds.Types.{Bytes, ObjectId, QosProfile}
use rmw_microxrcedds.RequestIds.{take}
use rmw_microxrcedds.Names.{
  ros_request_prefix, ros_reply_prefix, ros_request_subfix, ros_reply_subfix, generate_type_name,
}
use rmw_microxrcedds.Xml.{bytes, NameLengths, build_service_xml, generate_name}
use rmw_microxrcedds.Xml.Services.{service_xml, build_service_xml-whole, build_service_xml-cut}
use rmw_microxrcedds.Xml.Identity.{IsObjectId, generate_name-distinct}
use rmw_microxrcedds.Examples.{service_callbacks, default_qos}

abbrev lengths : NameLengths
lengths = record { type_name = 50; topic_name = 2 }

-- RMW_UXRCE_TOPIC_NAME_MAX_LENGTH and 11 bytes.
abbrev long_name : Bytes
long_name = bytes "/reset_motors"

abbrev plain_qos : QosProfile
plain_qos = record (default_qos) { avoid_ros_namespace_conventions = true }

build_service_xml-whole_example :
    let text =
      service_xml lengths
        (bytes "1_7")
        (bytes "/sum")
        true
        service_callbacks
        (ros_request_prefix ++ bytes "/sum" ++ ros_request_subfix)
        (ros_reply_prefix ++ bytes "/sum" ++ ros_reply_subfix) in
    let r =
      build_service_xml lengths
        (bytes "1_7")
        (bytes "/sum")
        true
        service_callbacks
        default_qos
        600 in
    ((4 < 2 + 4) × (r ≡ (some text, length text))) ⊎ ((2 + 4 ≤ 4) × (r ≡ (none, 0)))
unfolding generate_type_name
build_service_xml-whole_example =
    build_service_xml-whole lengths (bytes "1_7") (bytes "/sum") true service_callbacks default_qos
      600 refl (omega arith)

build_service_xml-cut_example :
    let text =
      service_xml lengths
        (bytes "1_7")
        long_name
        true
        service_callbacks
        long_name
        (take (2 + 10) long_name) in
    (build_service_xml lengths (bytes "1_7") long_name true service_callbacks plain_qos 600
      ≡ (some (take (600 - 1) text), length text))
    × (take (2 + 10) long_name ≢ long_name)
build_service_xml-cut_example =
    build_service_xml-cut lengths (bytes "1_7") long_name true service_callbacks plain_qos 600 refl
      (omega arith) (omega arith)

abbrev seven : ObjectId
seven = record { id = 7; type = 2 }

seven-IsObjectId : IsObjectId seven
seven-IsObjectId = record { id = omega arith; type = omega arith }

abbrev eight : ObjectId
eight = record { id = 8; type = 2 }

eight-IsObjectId : IsObjectId eight
eight-IsObjectId = record { id = omega arith; type = omega arith }

seven_is_not_eight : seven ≢ eight
seven_is_not_eight e = let n : seven.id ≡ eight.id = ap (λ o. o.id) e in omega arith

generate_name-distinct_example : (generate_name seven 20).0 ≢ (generate_name eight 20).0
generate_name-distinct_example =
    generate_name-distinct seven eight 20 seven-IsObjectId eight-IsObjectId (omega arith)
      seven_is_not_eight
