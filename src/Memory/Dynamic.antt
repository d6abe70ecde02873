-- ===== src/Memory/Dynamic.antt =====
-- The builds with RMW_UXRCE_ALLOW_DYNAMIC_ALLOCATIONS.
use rmw_microxrcedds.Base.{
  ℕ, ◌+◌, ◌-◌, ◌≡◌, ◌≢◌, refl, sym, subst, ap, ap₂, ◌∙◌, Bool, true, false, List, [], ◌∷◌, ◌++◌,
  arith, some, has, has-append,
}
use rmw_microxrcedds.Memory.{
  Ptr, null, Mempool, Allocation, put_memory, get_memory, get_memory_rounds, lock, unlock, detach,
  grow, allocate_item, set_is_dynamic,
}
use rmw_microxrcedds.Memory.Lists.{frame, frame_off, SameOff, SameLinks}
use rmw_microxrcedds.Memory.Invariant.{IsPool, detach-IsPool}
use rmw_microxrcedds.Memory.Keeps.{detach-Keeps}
use rmw_microxrcedds.Memory.Get.{
  get_memory_rounds-IsPool, get_memory_rounds-grow, lock-IsPool, unlock-IsPool,
}
use rmw_microxrcedds.Memory.Put.{put_memory-new}

given_back : (n r k : ℕ) → n ≡ r - 1 → r ≡ k + 1 → n ≡ k
given_back n r k e f = omega arith

module _ {A : Type 0} where
  free_item : Mempool A → Ptr → Mempool A
  free_item n x = record n { freed = x ∷ (n.items x).element ∷ n.freed }

  put_memory-free_item :
      (m : Mempool A) (x : Ptr)
      → (m.items x).is_dynamic_memory ≡ true
      → put_memory true m x ≡ free_item (detach (lock m) x) x
  unfolding put_memory free_item
  put_memory-free_item m x dyn = rw (put_memory, (detach-Keeps (lock m) x).dynamic x) (rw dyn)

  -- For an allocated item from rmw_allocate in a build with dynamic memory: put_memory removes it
  -- from the pool and frees the element and the item, but keeps one lock.
  pub put_memory-dynamic :
      (m : Mempool A) (x : Ptr) (before after idle : List Ptr)
      → IsPool m (before ++ x ∷ after) idle
      → (m.items x).is_dynamic_memory ≡ true
      → let n = put_memory true m x in
        IsPool n (before ++ after) idle
        × (n.freed ≡ x ∷ (m.items x).element ∷ m.freed)
        × (n.mutex ≡ m.mutex + 1)
  unfolding free_item lock
  put_memory-dynamic m x before after idle is dyn =
      let e = put_memory-free_item m x dyn in
      let d = detach-IsPool (lock m) x before after idle (lock-IsPool m _ idle is) in
      let k = detach-Keeps (lock m) x in
      (
        subst (λ n. IsPool n (before ++ after) idle) (sym e)
            (record { allocated = d.allocated; free = d.free; distinct = d.distinct }),
        ap (λ n. n.freed) e ∙ ap₂ (λ a f. x ∷ a ∷ f) (k.element x) k.freed,
        ap (λ n. n.mutex) e ∙ k.mutex,
      )

  allocate_item-IsPool :
      (m : Mempool A) (al : Allocation A) (used idle : List Ptr)
      → IsPool m used idle
      → has al.item used ≡ false
      → has al.item idle ≡ false
      → IsPool (allocate_item m al) used idle
  unfolding allocate_item
  allocate_item-IsPool m al used idle is out1 out2 =
      let off : SameOff m.items (allocate_item m al).items al.item = λ a o. rw o in
      record {
        allocated = frame_off m.items _ null m.allocateditems al.item used off out1 is.allocated;
        free = frame_off m.items _ null m.freeitems al.item idle off out2 is.free;
        distinct = is.distinct;
      }

  set_is_dynamic-IsPool :
      (m : Mempool A) (x : Ptr) (b : Bool) (used idle : List Ptr)
      → IsPool m used idle
      → IsPool (set_is_dynamic m x b) used idle
  unfolding set_is_dynamic
  set_is_dynamic-IsPool m x b used idle is =
      let same : (xs : List Ptr) → SameLinks m.items (set_is_dynamic m x b).items xs =
        λ xs a i. (ground arith, ground arith) in
      record {
        allocated =
            frame m.items (set_is_dynamic m x b).items null m.allocateditems used (same used)
              is.allocated;
        free = frame m.items (set_is_dynamic m x b).items null m.freeitems idle (same idle) is.free;
        distinct = is.distinct;
      }

  -- The pool that the dynamic branch of `get_memory` takes from.
  record IsGrown (m n : Mempool A) (al : Allocation A) (used : List Ptr) : Type 0 where
    pool : IsPool n used (al.item ∷ [])
    element : (n.items al.item).element ≡ al.element
    dynamic : (n.items al.item).is_dynamic_memory ≡ true
    elements : n.elements ≡ (allocate_item m al).elements
    mutex : n.mutex ≡ m.mutex
    freed : n.freed ≡ m.freed

  grow-IsGrown :
      (m : Mempool A) (al : Allocation A) (used : List Ptr)
      → IsPool m used []
      → al.item ≢ null
      → has al.item used ≡ false
      → IsGrown m (grow m al) al used
  unfolding grow set_is_dynamic allocate_item
  grow-IsGrown m al used is ne out =
      let fresh = allocate_item-IsPool m al used [] is out refl in
      let p =
        put_memory-new true (allocate_item m al) al.item used [] fresh (ground arith) (ground arith)
          (ground arith) ne (ground (arith, has-append al.item used [])) in
      record {
        pool =
            set_is_dynamic-IsPool (put_memory true (allocate_item m al) al.item) al.item true used
              (al.item ∷ []) p.0;
        element = ground (arith, p.1.element al.item);
        dynamic = ground arith;
        elements = p.1.elements;
        mutex = p.1.mutex;
        freed = p.1.freed;
      }

  -- For an exhausted pool with dynamic memory and a new item that is not NULL and not in the
  -- pool: get_memory hands out the new item, with a cleared element and marked for rmw_free, and
  -- gives every lock back.
  pub get_memory-dynamic :
      (al : Allocation A) (m : Mempool A) (used : List Ptr)
      → IsPool m used []
      → m.is_dynamic_allowed ≡ true
      → al.item ≢ null
      → has al.item used ≡ false
      → let n = (get_memory (some al) m).1 in
        ((get_memory (some al) m).0 ≡ al.item)
        × IsPool n (al.item ∷ used) []
        × ((n.items al.item).element ≡ al.element)
        × (n.elements al.element ≡ al.cleared)
        × ((n.items al.item).is_dynamic_memory ≡ true)
        × (n.mutex ≡ m.mutex)
  unfolding get_memory lock unlock allocate_item
  get_memory-dynamic al m used is allowed ne out =
      let e = get_memory_rounds-grow 1 al m (ground (arith, is.free)) allowed in
      let g = grow-IsGrown (lock m) al used (lock-IsPool m used [] is) ne out in
      let t = get_memory_rounds-IsPool 0 (some al) (grow (lock m) al) al.item used [] g.pool in
      let r = get_memory_rounds 1 (some al) (grow (lock m) al) in
      (
        ap (λ q. q.0) e ∙ t.0,
        subst (λ q. IsPool q.1 (al.item ∷ used) []) (sym e) (unlock-IsPool r.1 _ [] t.1),
        ap (λ q. (q.1.items al.item).element) e ∙ t.2.element al.item ∙ g.element,
        ap (λ q. q.1.elements al.element) e
            ∙ ap (λ f. f al.element) (t.2.elements ∙ g.elements)
            ∙ ground arith,
        ap (λ q. (q.1.items al.item).is_dynamic_memory) e ∙ t.2.dynamic al.item ∙ g.dynamic,
        given_back _ _ _ (ap (λ q. q.1.mutex) e) (t.2.mutex ∙ g.mutex),
      )
