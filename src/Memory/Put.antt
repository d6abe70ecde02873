-- ===== src/Memory/Put.antt =====
-- `put_memory`.
use rmw_microxrcedds.Base.{
  ◌≡◌, ◌≢◌, refl, sym, subst, ap, ◌∙◌, Bool, false, ◌&&◌, List, [], ◌∷◌, ◌++◌, arith, ◌==◌, Option,
  has, has-append,
}
use rmw_microxrcedds.Memory.{
  Ptr, null, Mempool, Allocation, Items, set_next, back_link, unlink, push_front, lock, unlock,
  detach, push_free, put_memory, get_memory,
}
use rmw_microxrcedds.Memory.Lists.{
  DList, head_outside, push_front-off, set_prev-next, set_next-next, back_link-next, back_link-null,
  forward_link-null,
}
use rmw_microxrcedds.Memory.Invariant.{IsPool, detach-IsPool, push_free-IsPool, Distinct-drop}
use rmw_microxrcedds.Memory.Keeps.{Keeps, Keeps-trans, detach-Keeps, push_free-Keeps, locked-Keeps}
use rmw_microxrcedds.Memory.Get.{lock-IsPool, unlock-IsPool, get_memory-IsPool}

-- No item of a list stands at NULL.
ne_null_of_DList :
    (h : Items) (r p x : Ptr) (before after : List Ptr)
    → DList h r p (before ++ x ∷ after)
    → x ≢ null
ne_null_of_DList h r p x [] after d = d.1
ne_null_of_DList h r p x (y ∷ before) after d = ne_null_of_DList h y (h y).next x before after d.3

module _ {A : Type 0} where
  -- The item does not go to `rmw_free`.
  abbrev pub IsReturned : Bool → Mempool A → Ptr → Type 0
  IsReturned allow_dynamic m x = (allow_dynamic && (m.items x).is_dynamic_memory) ≡ false

  put_memory-state :
      (allow_dynamic : Bool) (m : Mempool A) (x : Ptr)
      → IsReturned allow_dynamic m x
      → put_memory allow_dynamic m x ≡ unlock (push_free (detach (lock m) x) x)
  unfolding put_memory
  put_memory-state allow_dynamic m x kept =
      rw (put_memory, (detach-Keeps (lock m) x).dynamic x) (rw kept)

  -- For an item that is allocated, wherever it stands in the allocated list, and that does not go
  -- to rmw_free: put_memory removes it from the allocated list and makes it the first free item,
  -- both lists stay well linked and disjoint, and the lock, the elements and the other fields are
  -- as before.
  pub put_memory-IsPool :
      (allow_dynamic : Bool) (m : Mempool A) (x : Ptr) (before after idle : List Ptr)
      → IsPool m (before ++ x ∷ after) idle
      → IsReturned allow_dynamic m x
      → IsPool (put_memory allow_dynamic m x) (before ++ after) (x ∷ idle)
        × Keeps m (put_memory allow_dynamic m x)
  put_memory-IsPool allow_dynamic m x before after idle is kept =
      let e = put_memory-state allow_dynamic m x kept in
      let out = Distinct-drop x before after idle is.distinct in
      let d = detach-IsPool (lock m) x before after idle (lock-IsPool m _ idle is) in
      let p =
        push_free-IsPool (detach (lock m) x) x (before ++ after) idle d
          (ne_null_of_DList m.items null m.allocateditems x before after is.allocated) out.0 in
      (
        subst (λ n. IsPool n (before ++ after) (x ∷ idle)) (sym e) (unlock-IsPool _ _ _ p),
        subst (Keeps m) (sym e) (
            locked-Keeps m _
              (Keeps-trans (detach-Keeps (lock m) x) (push_free-Keeps (detach (lock m) x) x))),
      )

  -- For an allocated item that does not go to rmw_free: after put_memory the next get_memory
  -- hands out this item, and the pool has the same free items as at first.
  pub get_memory-put_memory :
      (allow_dynamic : Bool) (al : Option (Allocation A)) (m : Mempool A) (x : Ptr)
      (before after idle : List Ptr)
      → IsPool m (before ++ x ∷ after) idle
      → IsReturned allow_dynamic m x
      → let n = (get_memory al (put_memory allow_dynamic m x)).1 in
        ((get_memory al (put_memory allow_dynamic m x)).0 ≡ x)
        × IsPool n (x ∷ before ++ after) idle
        × Keeps m n
  get_memory-put_memory allow_dynamic al m x before after idle is kept =
      let p = put_memory-IsPool allow_dynamic m x before after idle is kept in
      let g = get_memory-IsPool al (put_memory allow_dynamic m x) x (before ++ after) idle p.0 in
      (g.0, g.1, Keeps-trans p.1 g.2)

  -- An item that stands in no list, with NULL for both pointers, only joins the free list: so the
  -- initialisation of a pool and `get_memory` bring in new items.
  detach-alone :
      (m : Mempool A) (x : Ptr)
      → (m.items x).prev ≡ null
      → (m.items x).next ≡ null
      → (m.allocateditems == x) ≡ false
      → detach m x ≡ m
  unfolding detach unlink
  detach-alone m x back fwd out =
      rw (back, fwd, forward_link-null m.items null null refl, fwd)
        (rw (back_link-null m.items null (m.items x).prev refl, out))

  pub put_memory-new :
      (allow_dynamic : Bool) (m : Mempool A) (x : Ptr) (used idle : List Ptr)
      → IsPool m used idle
      → IsReturned allow_dynamic m x
      → (m.items x).prev ≡ null
      → (m.items x).next ≡ null
      → x ≢ null
      → has x (used ++ idle) ≡ false
      → IsPool (put_memory allow_dynamic m x) used (x ∷ idle)
        × Keeps m (put_memory allow_dynamic m x)
        × ((a : Ptr)
            → has a (x ∷ idle) ≡ false
            → (put_memory allow_dynamic m x).items a ≡ m.items a)
  unfolding lock unlock push_free
  put_memory-new allow_dynamic m x used idle is kept back fwd ne out =
      let front : has x used ≡ false = ground (arith, has-append x used idle) in
      let apart = head_outside m.items null m.allocateditems x used is.allocated front ne in
      let e : put_memory allow_dynamic m x ≡ unlock (push_free (lock m) x) =
        put_memory-state allow_dynamic m x kept
        ∙ ap (λ n. unlock (push_free n x)) (detach-alone (lock m) x back fwd (ground arith)) in
      (
        subst (λ n. IsPool n used (x ∷ idle)) (sym e)
            (unlock-IsPool _ _ _
              (push_free-IsPool (lock m) x used idle (lock-IsPool m _ _ is) ne out)),
        subst (Keeps m) (sym e) (locked-Keeps m _ (push_free-Keeps (lock m) x)),
        λ a off.
            ap (λ n. n.items a) e
            ∙ push_front-off m.items null m.freeitems x idle is.free ne
                (ground (arith, has-append x used idle)) a off,
      )

  -- Whatever the lists are, the item goes to the front of the free list.
  pub put_memory-front :
      (m : Mempool A) (x : Ptr)
      → ((put_memory false m x).freeitems ≡ x)
        × (((put_memory false m x).items x).next ≡ m.freeitems)
  unfolding put_memory push_front
  put_memory-front m x =
      let h = unlink m.items x in
      let h1 = set_next h x m.freeitems in
      (
        refl,
        set_prev-next (back_link h1 (h1 x).next x) x null x
            ∙ back_link-next h1 (h1 x).next x x
            ∙ set_next-next h x m.freeitems x refl,
      )
