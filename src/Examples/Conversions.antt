-- ===== src/Examples/Conversions.antt =====
-- The theorems on request ids and names, applied to small ones.
use rmw_microxrcedds.Base.{ℕ, ◌<◌, ◌≡◌, refl, arith, List, [], ◌∷◌, ◌++◌}
use rmw_microxrcedds.Types.{SampleIdentity}
use rmw_microxrcedds.RequestIds.{RequestId, request_id_of, sample_identity_of}
use rmw_microxrcedds.RequestIds.RoundTrip.{sample_identity_of-request_id_of}
use rmw_microxrcedds.Names.{generate_topic_name}
use rmw_microxrcedds.Names.Truncation.{generate_topic_name-merged}

abbrev twelve : List ℕ
twelve = 1 ∷ 2 ∷ 3 ∷ 4 ∷ 5 ∷ 6 ∷ 7 ∷ 8 ∷ 9 ∷ 10 ∷ 11 ∷ 12 ∷ []

-- Negative, with the pattern of -2.
abbrev some_identity : SampleIdentity
some_identity = record {
  high = 0xffff_ffff;
  low = 0xffff_fffe;
  entity_kind = 3;
  entity_key = 4 ∷ 5 ∷ 6 ∷ [];
  guid_prefix = twelve;
}

sample_identity_of-request_id_of_example :
    sample_identity_of (request_id_of some_identity) ≡ some_identity
sample_identity_of-request_id_of_example =
    sample_identity_of-request_id_of some_identity
      (record { high = omega arith; low = omega arith; entity_key = refl; guid_prefix = refl })

abbrev some_request : RequestId
some_request = record { sequence_number = 0x1_0000_0002; writer_guid = 7 ∷ 8 ∷ 9 ∷ 10 ∷ twelve }

generate_topic_name-merged_example :
    ((generate_topic_name (twelve ++ 1 ∷ []) 15).0 ≡ (generate_topic_name (twelve ++ 2 ∷ []) 15).0)
    × (0 < (generate_topic_name (twelve ++ 1 ∷ []) 15).1)
    × (0 < (generate_topic_name (twelve ++ 2 ∷ []) 15).1)
generate_topic_name-merged_example =
    generate_topic_name-merged twelve (1 ∷ []) (2 ∷ []) 15 (omega arith)
