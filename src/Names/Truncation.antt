-- ===== src/Names/Truncation.antt =====
-- What the fixed buffers do to the names.
use rmw_microxrcedds.Base.{
  ℕ, zero, suc, ◌+◌, ◌-◌, ◌≤◌, ◌<◌, ◌≡◌, refl, ap, ap₂, arith, [], ◌∷◌, ◌++◌, length, length-append,
  Option, none, some,
}
use rmw_microxrcedds.Types.{Bytes, MessageCallbacks}
use rmw_microxrcedds.RequestIds.{take}
use rmw_microxrcedds.Names.{
  ros_topic_prefix, generate_topic_name, generate_type_name, full_type_name, scope, scope_size,
  protocol, suffix, sep,
}

pub take-short : (n : ℕ) (xs : Bytes) → length xs ≤ n → take n xs ≡ xs
take-short zero [] h = refl
take-short (suc n) [] h = refl
take-short zero (x ∷ xs) h = absurd (omega arith)
take-short (suc n) (x ∷ xs) h = ap (λ l. x ∷ l) (take-short n xs (omega arith))

take-append_more :
    (n : ℕ) (xs ys zs : Bytes) → n ≤ length xs → take n (xs ++ ys) ≡ take n (xs ++ zs)
take-append_more zero xs ys zs h = refl
take-append_more (suc n) [] ys zs h = absurd (omega arith)
take-append_more (suc n) (x ∷ xs) ys zs h =
    ap (λ l. x ∷ l) (take-append_more n xs ys zs (omega arith))

-- For a topic name that fits with the prefix and the terminating zero: the DDS name is the prefix
-- and the whole name, and its length is returned.
pub generate_topic_name-fits :
    (topic_name : Bytes) (size : ℕ)
    → length topic_name + 2 < size
    → generate_topic_name topic_name size ≡ (ros_topic_prefix ++ topic_name, length topic_name + 2)
unfolding generate_topic_name
generate_topic_name-fits topic_name size h =
    ap₂ (λ a n. (a, n)) (take-short (size - 1) (ros_topic_prefix ++ topic_name) (omega arith))
      (omega arith)

-- For two topic names with the same first bytes that reach the end of the buffer: they get the
-- same DDS topic name, and both calls return a number above 0.
pub generate_topic_name-merged :
    (common rest rest' : Bytes) (size : ℕ)
    → size ≤ length common + 3
    → ((generate_topic_name (common ++ rest) size).0
        ≡ (generate_topic_name (common ++ rest') size).0)
      × (0 < (generate_topic_name (common ++ rest) size).1)
      × (0 < (generate_topic_name (common ++ rest') size).1)
unfolding generate_topic_name
generate_topic_name-merged common rest rest' size h = (
  take-append_more (size - 1) (ros_topic_prefix ++ common) rest rest' (omega arith),
  omega arith,
  omega arith,
)

size_with_namespace :
    (ns message_name : Bytes)
    → 6 + length message_name + 1 + length ns + 1 + length (ns ++ sep)
      ≡ length (ns ++ sep ++ protocol ++ suffix ++ sep ++ message_name ++ suffix) + 1 + length ns
size_with_namespace ns message_name =
    let a = length-append (ns ++ sep ++ protocol ++ suffix ++ sep ++ message_name) suffix in
    let b = length-append (ns ++ sep ++ protocol ++ suffix ++ sep) message_name in
    let c = length-append (ns ++ sep ++ protocol ++ suffix) sep in
    let d = length-append (ns ++ sep ++ protocol) suffix in
    let e = length-append (ns ++ sep) protocol in omega arith

size_of_parts :
    (message_namespace : Option Bytes) (message_name : Bytes)
    → 6
        + length message_name
        + 1
        + scope_size message_namespace
        + 1
        + length (scope message_namespace)
      ≡ length (scope message_namespace ++ protocol ++ suffix ++ sep ++ message_name ++ suffix)
        + 1
        + scope_size message_namespace
unfolding scope scope_size
size_of_parts none message_name = omega (arith, length-append message_name suffix)
size_of_parts (some ns) message_name = size_with_namespace ns message_name

-- The size that generate_type_name returns, together with the namespace and its separator, is the
-- space that the name needs together with the namespace: the separator is not counted.
pub generate_type_name-size :
    {M : Type 0} (members : MessageCallbacks M) (size : ℕ)
    → (generate_type_name members size).1 + length (scope members.message_namespace)
      ≡ length (full_type_name members) + 1 + scope_size members.message_namespace
unfolding generate_type_name scope scope_size
generate_type_name-size members size = size_of_parts members.message_namespace members.message_name
