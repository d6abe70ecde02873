-- ===== src/RequestIds/RoundTrip.antt =====
-- A request id names the request that it came from: the two conversions are inverse.
use rmw_microxrcedds.Base.{
  ℕ, zero, suc, ◌+◌, ◌-◌, ◌*◌, ◌/◌, ◌%◌, ◌^◌, ◌<◌, ◌≡◌, refl, ap, ap₂, ◌∙◌, arith, List, [], ◌∷◌,
  ◌++◌, length,
}
use Prim.Native.Nat.{bit_and, bit_or}
use rmw_microxrcedds.Types.{SampleIdentity}
use rmw_microxrcedds.RequestIds.{
  RequestId, take, drop, head_or_zero, request_id_of, sample_identity_of,
}
use rmw_microxrcedds.RequestIds.Bits.{bit_or-add, bit_and-ones}

-- The widths of the fields of a SampleIdentity.
pub record IsSampleIdentity (s : SampleIdentity) : Type 0 where
  pub high : s.high < 2 ^ 32
  pub low : s.low < 2 ^ 32
  pub entity_key : length s.entity_key ≡ 3
  pub guid_prefix : length s.guid_prefix ≡ 12

-- The widths of the fields of a rmw_request_id_t.
pub record IsRequestId (r : RequestId) : Type 0 where
  pub sequence_number : r.sequence_number < 2 ^ 64
  pub writer_guid : length r.writer_guid ≡ 16

take-all : (n : ℕ) (xs : List ℕ) → length xs ≡ n → take n xs ≡ xs
take-all zero [] h = refl
take-all (suc n) [] h = absurd (omega arith)
take-all zero (x ∷ xs) h = absurd (omega arith)
take-all (suc n) (x ∷ xs) h = ap (λ l. x ∷ l) (take-all n xs (omega arith))

pub take-append : (n : ℕ) (xs ys : List ℕ) → length xs ≡ n → take n (xs ++ ys) ≡ xs
take-append zero [] ys h = refl
take-append (suc n) [] ys h = absurd (omega arith)
take-append zero (x ∷ xs) ys h = absurd (omega arith)
take-append (suc n) (x ∷ xs) ys h = ap (λ l. x ∷ l) (take-append n xs ys (omega arith))

pub drop-append : (n : ℕ) (xs ys : List ℕ) → length xs ≡ n → drop n (xs ++ ys) ≡ ys
drop-append zero [] ys h = refl
drop-append (suc n) [] ys h = absurd (omega arith)
drop-append zero (x ∷ xs) ys h = absurd (omega arith)
drop-append (suc n) (x ∷ xs) ys h = drop-append n xs ys (omega arith)

take-take : (n : ℕ) (xs : List ℕ) → take n (take n xs) ≡ take n xs
take-take zero xs = refl
take-take (suc n) [] = refl
take-take (suc n) (x ∷ xs) = ap (λ l. x ∷ l) (take-take n xs)

take-append-drop : (n : ℕ) (xs : List ℕ) → take n xs ++ drop n xs ≡ xs
take-append-drop zero xs = refl
take-append-drop (suc n) [] = refl
take-append-drop (suc n) (x ∷ xs) = ap (λ l. x ∷ l) (take-append-drop n xs)

length-drop : (n : ℕ) (xs : List ℕ) → length (drop n xs) ≡ length xs - n
length-drop zero xs = omega arith
length-drop (suc n) [] = omega arith
length-drop (suc n) (x ∷ xs) = omega (arith, length-drop n xs)

-- The 64-bit number of two halves.
joined :
    (high low : ℕ)
    → high < 2 ^ 32
    → low < 2 ^ 32
    → bit_or (high * 2 ^ 32 % 2 ^ 64) low ≡ high * 2 ^ 32 + low
joined high low p q =
    let e : high * 2 ^ 32 % 2 ^ 64 ≡ high * 2 ^ 32 = omega arith in rw e (bit_or-add 32 high low q)

low_half : (n : ℕ) → bit_and (n % 2 ^ 32) 0xffff_ffff ≡ n % 2 ^ 32
low_half n = bit_and-ones 32 (n % 2 ^ 32) (omega arith)

-- For an identity whose fields have their widths: the identity that rmw_send_response makes of
-- the header of rmw_take_request is the one that arrived with the request.
pub sample_identity_of-request_id_of :
    (s : SampleIdentity) → IsSampleIdentity s → sample_identity_of (request_id_of s) ≡ s
unfolding sample_identity_of request_id_of
sample_identity_of-request_id_of s is =
    let n = joined s.high s.low is.high is.low in
    let key = take-all 3 s.entity_key is.entity_key in
    let pre = take-all 12 s.guid_prefix is.guid_prefix in
    let high : bit_or (s.high * 2 ^ 32 % 2 ^ 64) s.low / 2 ^ 32 ≡ s.high = rw n (omega arith) in
    let low : bit_and (bit_or (s.high * 2 ^ 32 % 2 ^ 64) s.low % 2 ^ 32) 0xffff_ffff ≡ s.low =
      rw (n, low_half) (omega arith) in
    let keys : take 3 (take 3 s.entity_key ++ take 12 s.guid_prefix) ≡ s.entity_key =
      rw (key, pre) (take-append 3 s.entity_key s.guid_prefix is.entity_key) in
    let prefix : take 12 (drop 3 (take 3 s.entity_key ++ take 12 s.guid_prefix)) ≡ s.guid_prefix =
      rw (key, pre, drop-append 3 s.entity_key s.guid_prefix is.entity_key) pre in
    λ i. record {
      high = high i;
      low = low i;
      entity_kind = s.entity_kind;
      entity_key = keys i;
      guid_prefix = prefix i;
    }

guid_back :
    (g : List ℕ)
    → length g ≡ 16
    → head_or_zero g ∷ (take 3 (take 3 (drop 1 g)) ++ take 12 (take 12 (drop 4 g))) ≡ g
guid_back [] h = absurd (omega arith)
guid_back (x ∷ xs) h =
    let pre = take-all 12 (drop 3 xs) (omega (arith, length-drop 3 xs)) in
    ap (λ l. x ∷ l)
      (ap₂ (λ a b. a ++ b) (take-take 3 xs) (take-take 12 (drop 3 xs) ∙ pre)
        ∙ take-append-drop 3 xs)

-- For a request id whose fields have their widths: it survives the conversion to a SampleIdentity
-- and back.
pub request_id_of-sample_identity_of :
    (r : RequestId) → IsRequestId r → request_id_of (sample_identity_of r) ≡ r
unfolding sample_identity_of request_id_of
request_id_of-sample_identity_of r is =
    let low = low_half r.sequence_number in
    let lt : r.sequence_number / 2 ^ 32 < 2 ^ 32 = omega (arith, is.sequence_number) in
    let n = joined (r.sequence_number / 2 ^ 32) (r.sequence_number % 2 ^ 32) lt (omega arith) in
    let number : bit_or (r.sequence_number / 2 ^ 32 * 2 ^ 32 % 2 ^ 64)
          (bit_and (r.sequence_number % 2 ^ 32) 0xffff_ffff)
        ≡ r.sequence_number =
      rw low (n ∙ omega arith) in
    let guid = guid_back r.writer_guid is.writer_guid in
    λ i. record { sequence_number = number i; writer_guid = guid i }
