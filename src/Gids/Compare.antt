-- ===== src/Gids/Compare.antt =====
-- What rmw_compare_gids_equal says of the gids of two publishers.
use mathlib.Core.List.{append_assoc}
use rmw_microxrcedds.Base.{
  ℕ, zero, suc, ◌+◌, ◌-◌, ◌≤◌, ◌≡◌, refl, ap, ap₂, ◌∙◌, Bool, true, false, ◌&&◌, Option, some, List,
  [], ◌∷◌, ◌++◌, ltb, ◌==◌, length, arith,
}
use rmw_microxrcedds.Memory.{Ptr}
use rmw_microxrcedds.Handles.{ok}
use rmw_microxrcedds.Gids.{
  Gid, PublisherHandle, zeros, memcmp_is_zero, rmw_get_gid_for_publisher, rmw_compare_gids_equal,
}

-- The first parts of two places are compared, and then the rest.
memcmp_is_zero-append :
    (n extra : ℕ) (xs ys us vs : List ℕ)
    → length xs ≡ n
    → length ys ≡ n
    → memcmp_is_zero (n + extra) (xs ++ us) (ys ++ vs)
      ≡ (memcmp_is_zero n xs ys && memcmp_is_zero extra us vs)
unfolding memcmp_is_zero
memcmp_is_zero-append zero extra [] [] us vs a b =
    let e : 0 + extra ≡ extra = omega arith in ap (λ n. memcmp_is_zero n us vs) e
memcmp_is_zero-append zero extra (x ∷ xs) ys us vs a b = absurd (omega (arith, a))
memcmp_is_zero-append zero extra [] (y ∷ ys) us vs a b = absurd (omega (arith, b))
memcmp_is_zero-append (suc n) extra [] ys us vs a b = absurd (omega (arith, a))
memcmp_is_zero-append (suc n) extra (x ∷ xs) [] us vs a b = absurd (omega (arith, b))
memcmp_is_zero-append (suc n) extra (x ∷ xs) (y ∷ ys) us vs a b =
    let rest = memcmp_is_zero-append n extra xs ys us vs (omega (arith, a)) (omega (arith, b)) in
    let e : suc n + extra ≡ suc (n + extra) = omega arith in
    ap (λ m. memcmp_is_zero m (x ∷ xs ++ us) (y ∷ ys ++ vs)) e ∙ ground (arith, rest)

-- Two rests of zeros are equal.
memcmp_is_zero-zeros :
    (n extra : ℕ) (us vs : List ℕ)
    → memcmp_is_zero (n + extra) (zeros n ++ us) (zeros n ++ vs) ≡ memcmp_is_zero extra us vs
unfolding memcmp_is_zero zeros
memcmp_is_zero-zeros zero extra us vs =
    let e : 0 + extra ≡ extra = omega arith in ap (λ n. memcmp_is_zero n us vs) e
memcmp_is_zero-zeros (suc n) extra us vs =
    let e : suc n + extra ≡ suc (n + extra) = omega arith in
    ap (λ m. memcmp_is_zero m (zeros (suc n) ++ us) (zeros (suc n) ++ vs)) e
    ∙ memcmp_is_zero-zeros n extra us vs

module _ (identifier : Ptr) (id_size storage : ℕ) (publisher_id : Ptr → List ℕ)
    (stored : id_size ≤ storage) where
  abbrev gid_of : PublisherHandle → Gid → Option Gid
  gid_of publisher gid =
      (rmw_get_gid_for_publisher identifier id_size storage publisher_id (some publisher)
        (some gid)).1

  rmw_get_gid_for_publisher-ok :
      (publisher : PublisherHandle) (gid : Gid)
      → publisher.implementation_identifier ≡ identifier
      → gid_of publisher gid
        ≡ some
            (record (gid) { bytes = publisher_id publisher.element ++ zeros (storage - id_size) })
  unfolding rmw_get_gid_for_publisher
  rmw_get_gid_for_publisher-ok publisher gid e =
      let small : ltb storage id_size ≡ false = ground arith in
      let same : (publisher.implementation_identifier == identifier) ≡ true = ground arith in
      let e : rmw_get_gid_for_publisher identifier id_size storage publisher_id (some publisher)
            (some gid)
          ≡ (
            ok,
            some (record (gid) {
              bytes = publisher_id publisher.element ++ zeros (storage - id_size);
            }),
          ) =
        rw (same, small) refl in
      ap (λ r. r.1) e

  -- For an object id that fits into a gid, two publishers of this implementation whose ids have
  -- the size of an object id, and two gids that carry the implementation's identifier before they
  -- are filled: the gids that rmw_get_gid_for_publisher gives are compared with RMW_RET_OK, and
  -- are equal exactly if the ids of the publishers and the memory behind the two gids, as far as
  -- a gid is larger than its bytes, are equal.
  pub rmw_compare_gids_equal-publishers :
      (p q : PublisherHandle) (gid1 gid2 : Gid)
      → (extra : ℕ) (beyond1 beyond2 : List ℕ) (result : Bool)
      → p.implementation_identifier ≡ identifier
      → q.implementation_identifier ≡ identifier
      → gid1.implementation_identifier ≡ identifier
      → gid2.implementation_identifier ≡ identifier
      → length (publisher_id p.element) ≡ id_size
      → length (publisher_id q.element) ≡ id_size
      → rmw_compare_gids_equal identifier
          (storage + extra)
          beyond1
          beyond2
          (gid_of p gid1)
          (gid_of q gid2)
          result
        ≡ (
          ok,
          memcmp_is_zero id_size (publisher_id p.element) (publisher_id q.element)
              && memcmp_is_zero extra beyond1 beyond2,
        )
  unfolding rmw_compare_gids_equal
  rmw_compare_gids_equal-publishers p q gid1 gid2 extra beyond1 beyond2 result own1 own2 id1 id2
        size1 size2 =
      let own3 : (gid1.implementation_identifier == identifier) ≡ true = ground arith in
      let sizes : storage + extra ≡ id_size + (storage - id_size + extra) = omega arith in
      let pads = zeros (storage - id_size) in
      let whole : memcmp_is_zero (storage + extra) ((publisher_id p.element ++ pads) ++ beyond1)
            ((publisher_id q.element ++ pads) ++ beyond2)
          ≡ memcmp_is_zero (id_size + (storage - id_size + extra))
              (publisher_id p.element ++ (pads ++ beyond1))
              (publisher_id q.element ++ (pads ++ beyond2)) =
        rw
          (
            sizes,
            append_assoc (publisher_id p.element) pads beyond1,
            append_assoc (publisher_id q.element) pads beyond2,
          )
          refl in
      let own4 : (gid2.implementation_identifier == identifier) ≡ true = ground arith in
      ap₂ (λ a b. rmw_compare_gids_equal identifier (storage + extra) beyond1 beyond2 a b result)
        (rmw_get_gid_for_publisher-ok p gid1 own1) (rmw_get_gid_for_publisher-ok q gid2 own2)
      ∙ rw (rmw_compare_gids_equal, own3, own4)
          (ap (λ b. (ok, b))
            (whole
              ∙ memcmp_is_zero-append id_size (storage - id_size + extra) _ _ _ _ size1 size2
              ∙ ap
                  (λ b.
                    memcmp_is_zero id_size (publisher_id p.element) (publisher_id q.element) && b)
                  (memcmp_is_zero-zeros (storage - id_size) extra beyond1 beyond2)))
