-- ===== src/RequestIds.antt =====
-- The conversions between `SampleIdentity` of the XRCE client and `rmw_request_id_t`, in
-- src/rmw_request.c and src/rmw_response.c. A signed number is its two's complement pattern, so
-- `int32_t` and `int64_t` are the numbers below 2^32 and 2^64.
pub mod Bits
pub mod RoundTrip
use Prim.Native.Nat.{bit_and, bit_or}
use rmw_microxrcedds.Base.{ℕ, zero, suc, ◌+◌, ◌*◌, ◌/◌, ◌%◌, ◌^◌, List, [], ◌∷◌, ◌++◌}
use rmw_microxrcedds.Types.{SampleIdentity}

-- `rmw_request_id_t`; `writer_guid` has 16 bytes.
pub record RequestId : Type 0 where
  pub sequence_number : ℕ
  pub writer_guid : List ℕ

abbrev pub take : ℕ → List ℕ → List ℕ
take zero xs = []
take (suc n) [] = []
take (suc n) (x ∷ xs) = x ∷ take n xs

abbrev pub drop : ℕ → List ℕ → List ℕ
drop zero xs = xs
drop (suc n) [] = []
drop (suc n) (x ∷ xs) = drop n xs

-- `writer_guid[0]`
abbrev pub head_or_zero : List ℕ → ℕ
head_or_zero [] = 0
head_or_zero (x ∷ xs) = x

-- From SampleIdentity to rmw_request_id_t, in `rmw_take_request`.
unfoldable pub request_id_of : SampleIdentity → RequestId
request_id_of s = record {
  sequence_number = bit_or (s.high * 2 ^ 32 % 2 ^ 64) s.low;
  writer_guid = s.entity_kind ∷ (take 3 s.entity_key ++ take 12 s.guid_prefix);
}

-- From rmw_request_id_t to SampleIdentity, in `rmw_send_response`.
unfoldable pub sample_identity_of : RequestId → SampleIdentity
sample_identity_of r = record {
  high = r.sequence_number / 2 ^ 32;
  low = bit_and (r.sequence_number % 2 ^ 32) 0xffff_ffff;
  entity_kind = head_or_zero r.writer_guid;
  entity_key = take 3 (drop 1 r.writer_guid);
  guid_prefix = take 12 (drop 4 r.writer_guid);
}
