-- ===== src/Xml/Identity.antt =====
-- The names that are made of object ids.
use Prim.Native.Nat.pow
use rmw_microxrcedds.Base.{
  ℕ, zero, suc, ◌+◌, ◌-◌, ◌*◌, ◌/◌, ◌%◌, ◌^◌, ◌≤◌, ◌<◌, ◌≡◌, ◌≢◌, refl, sym, ap, ◌∙◌, true, ◌&&◌,
  [], ◌∷◌, ◌++◌, ltb, leb, length, length-append, arith, inl, inr, Bool-cases, if◌then◌else◌,
}
use mathlib.Core.List.{append_assoc}
use rmw_microxrcedds.Types.{Bytes, ObjectId}
use rmw_microxrcedds.Names.Truncation.{take-short}
use rmw_microxrcedds.Xml.{bytes, decimal, generate_name}

-- Reading digits back, behind the number `n`.
unfoldable read : (n : ℕ) → Bytes → ℕ × Bytes
read n [] = (n, [])
read n (c ∷ rest) =
    let more = read (n * 10 + (c - 48)) rest in if leb 48 c && leb c 57 then more else (n, c ∷ rest)

read-digit : (n d : ℕ) (rest : Bytes) → d < 10 → read n ((48 + d) ∷ rest) ≡ read (n * 10 + d) rest
unfolding read
read-digit n d rest h =
    let a : leb 48 (48 + d) ≡ true = ground arith in
    let b : leb (48 + d) 57 ≡ true = ground arith in
    let c : n * 10 + (48 + d - 48) ≡ n * 10 + d = omega arith in rw (a, b, c) refl

read-decimal :
    (digits n : ℕ) (rest : Bytes)
    → n < 10 ^ digits
    → read 0 (decimal digits n ++ rest) ≡ read n rest
unfolding decimal
read-decimal zero n rest h = ap (λ k. read k rest) (omega (arith, pow.zero 10))
read-decimal (suc digits) n rest h =
    let p = pow.suc 10 digits in
    elim (Bool-cases (ltb n 10)) [
      | inl one ↦
          rw one (read-digit 0 (n % 10) rest (omega arith) ∙ ap (λ k. read k rest) (ground arith))
      | inr more ↦ rw more (
          ap (λ l. read 0 l) (append_assoc (decimal digits (n / 10)) ((48 + n % 10) ∷ []) rest)
          ∙ read-decimal digits (n / 10) ((48 + n % 10) ∷ rest) (omega arith)
          ∙ read-digit (n / 10) (n % 10) rest (omega arith)
          ∙ ap (λ k. read k rest) (omega arith))
    ]

length-decimal : (digits n : ℕ) → length (decimal digits n) ≤ digits
unfolding decimal
length-decimal zero n = omega arith
length-decimal (suc digits) n =
    let high = decimal digits (n / 10) in
    let ih = length-decimal digits (n / 10) in
    elim (Bool-cases (ltb n 10)) [
      | inl one ↦ rw one (omega arith)
      | inr more ↦ rw more (omega (arith, length-append high ((48 + n % 10) ∷ []), ih))
    ]

-- A uint16_t and a uint8_t.
pub record IsObjectId (object : ObjectId) : Type 0 where
  pub id : object.id < 65536
  pub type : object.type < 256

abbrev printed : ObjectId → Bytes
printed id = decimal 5 id.id ++ bytes "_" ++ decimal 5 id.type

read-number :
    (n : ℕ) (rest : Bytes) → n < 65536 → read 0 (decimal 5 n ++ 95 ∷ rest) ≡ (n, 95 ∷ rest)
unfolding read
read-number n rest h = read-decimal 5 n (95 ∷ rest) (omega arith)

read-last : (n : ℕ) → n < 65536 → (read 0 (decimal 5 n ++ [])).0 ≡ n
unfolding read
read-last n h = ap (λ r. r.0) (read-decimal 5 n [] (omega arith))

abbrev tail : Bytes → Bytes
tail [] = []
tail (c ∷ rest) = rest

printed-injective : (a b : ObjectId) → IsObjectId a → IsObjectId b → printed a ≡ printed b → a ≡ b
printed-injective a b p q e =
    let s = append_assoc (decimal 5 a.id) (bytes "_") (decimal 5 a.type) in
    let t = append_assoc (decimal 5 b.id) (bytes "_") (decimal 5 b.type) in
    let both : (a.id, 95 ∷ decimal 5 a.type) ≡ (b.id, 95 ∷ decimal 5 b.type) =
      sym (read-number a.id (decimal 5 a.type) p.id)
      ∙ ap (λ l. read 0 l) (sym s ∙ e ∙ t)
      ∙ read-number b.id (decimal 5 b.type) q.id in
    let types : decimal 5 a.type ≡ decimal 5 b.type = ap (λ r. tail r.1) both in
    let ids : a.id ≡ b.id = ap (λ r. r.0) both in
    let type : a.type ≡ b.type =
      sym (read-last a.type (omega (arith, p.type)))
      ∙ ap (λ l. (read 0 (l ++ [])).0) types
      ∙ read-last b.type (omega (arith, q.type)) in
    λ i. record { id = ids i; type = type i }

generate_name-printed : (a : ObjectId) (size : ℕ) → 12 ≤ size → (generate_name a size).0 ≡ printed a
unfolding generate_name
generate_name-printed a size h =
    let l = length-append (decimal 5 a.id ++ bytes "_") (decimal 5 a.type) in
    let m = length-append (decimal 5 a.id) (bytes "_") in
    let x = length-decimal 5 a.id in
    let y = length-decimal 5 a.type in take-short (size - 1) (printed a) (omega arith)

-- For two different object ids whose fields have their widths and a buffer of at least 12 bytes:
-- generate_name gives them different names.
pub generate_name-distinct :
    (a b : ObjectId) (size : ℕ)
    → IsObjectId a
    → IsObjectId b
    → 12 ≤ size
    → a ≢ b
    → (generate_name a size).0 ≢ (generate_name b size).0
generate_name-distinct a b size p q h ne e = ne (
    printed-injective a b p q
      (sym (generate_name-printed a size h) ∙ e ∙ generate_name-printed b size h))
