-- ===== src/Memory/DoublePut.antt =====
-- An item that is given back twice.
use rmw_microxrcedds.Base.{◌≡◌, ◌≢◌, false, ap, ◌∙◌, arith, Option}
use rmw_microxrcedds.Memory.{
  Ptr, null, Mempool, Allocation, put_memory, get_memory, take_item, lock, unlock,
}
use rmw_microxrcedds.Memory.Get.{get_memory_rounds-take}
use rmw_microxrcedds.Memory.Put.{put_memory-front}

module _ {A : Type 0} where
  -- A first free item that is not NULL is handed out, and the item behind it is first then.
  get_memory-front :
      (al : Option (Allocation A)) (m : Mempool A) (x : Ptr)
      → m.freeitems ≡ x
      → x ≢ null
      → ((get_memory al m).0 ≡ x) × ((get_memory al m).1.freeitems ≡ (m.items x).next)
  unfolding get_memory take_item lock unlock
  get_memory-front al m x first ne =
      let e = get_memory_rounds-take 1 al m (ground arith) in
      (ap (λ r. r.0) e ∙ first, ap (λ r. r.1.freeitems) e ∙ ap (λ p. (m.items p).next) first)

  -- An item that is given back while it is the first free item is handed out twice.
  pub put_memory-front_again :
      (al : Option (Allocation A)) (m : Mempool A) (x : Ptr)
      → m.freeitems ≡ x
      → x ≢ null
      → let first = get_memory al (put_memory false m x) in
        (first.0 ≡ x) × ((get_memory al first.1).0 ≡ x)
  put_memory-front_again al m x front ne =
      let m2 = put_memory false m x in
      let p2 = put_memory-front m x in
      let g1 = get_memory-front al m2 x p2.0 ne in
      let g2 = get_memory-front al (get_memory al m2).1 x (g1.1 ∙ p2.1 ∙ front) ne in (g1.0, g2.0)

  -- After two calls of `put_memory` for one item, two calls of `get_memory` hand it out to two
  -- owners, whatever else the pool holds.
  pub put_memory-twice :
      (al : Option (Allocation A)) (m : Mempool A) (x : Ptr)
      → x ≢ null
      → let first = get_memory al (put_memory false (put_memory false m x) x) in
        (first.0 ≡ x) × ((get_memory al first.1).0 ≡ x)
  put_memory-twice al m x ne =
      put_memory-front_again al (put_memory false m x) x (put_memory-front m x).0 ne
