-- ===== src/Memory/Invariant.antt =====
-- The two lists of a pool, and what `get_memory` and `put_memory` do to them.
use mathlib.Core.List.{append_assoc}
use rmw_microxrcedds.Base.{
  ◌≡◌, ◌≢◌, sym, subst, ap, false, List, ◌∷◌, ◌++◌, arith, has, Distinct, has-append, Distinct-push,
  Disjoint-comm, Disjoint-cons, Distinct-pull, Disjoint-of_Distinct, Distinct-append_left,
  Distinct-append_right,
}
use rmw_microxrcedds.Memory.{Ptr, null, Mempool, back_link, unlink, take_item, detach, push_free}
use rmw_microxrcedds.Memory.Lists.{
  DList, frame, DList-back_link, DList-back_link_apart, push_front-DList, push_front-apart,
}
use rmw_microxrcedds.Memory.Unlink.{unlink-Detached}

module _ {A : Type 0} where
  -- The pool's allocated items are `used` and its free items `idle`, each list from its head.
  pub record IsPool (m : Mempool A) (used idle : List Ptr) : Type 0 where
    pub allocated : DList m.items null m.allocateditems used
    pub free : DList m.items null m.freeitems idle
    pub distinct : Distinct (used ++ idle)

pub Distinct-drop :
    (x : Ptr) (before after idle : List Ptr)
    → Distinct ((before ++ x ∷ after) ++ idle)
    → Distinct (x ∷ (before ++ after) ++ idle)
Distinct-drop x before after idle d =
    let all =
      Distinct-pull x before (after ++ idle)
        (subst Distinct (append_assoc before (x ∷ after) idle) d) in
    subst (λ l. Distinct (x ∷ l)) (sym (append_assoc before after idle)) all

module _ {A : Type 0} (m : Mempool A) where
  -- The first branch of `get_memory`, at the first free item.
  pub take_item-IsPool :
      (f : Ptr) (used idle : List Ptr)
      → IsPool m used (f ∷ idle)
      → IsPool (take_item m f) (f ∷ used) idle
  unfolding take_item
  take_item-IsPool f used idle is =
      let h = m.items in
      let a = m.allocateditems in
      let n = (h f).next in
      let h1 = back_link h n null in
      let all = Distinct-pull f used idle is.distinct in
      let ne = is.free.1 in
      let di = is.free.3 in
      let apart = Disjoint-comm used idle (Disjoint-of_Distinct used idle all.1) in
      let out : has f used ≡ false = ground (arith, has-append f used idle) in
      let out' : has f idle ≡ false = ground (arith, has-append f used idle) in
      let du1 : DList h1 null a used =
        DList-back_link_apart h f n null a null idle used di apart is.allocated in
      let di1 : DList h1 null n idle =
        DList-back_link h f n null idle (Distinct-append_right used idle all.1) di in
      record {
        allocated =
            push_front-DList h1 null a f used du1 ne out (Distinct-append_left used idle all.1);
        free =
            push_front-apart h1 null a f used du1 ne out null n idle
              (Disjoint-cons f idle used apart out') di1;
        distinct = all;
      }

  -- Putting an item in front of the free list.
  pub push_free-IsPool :
      (x : Ptr) (used idle : List Ptr)
      → IsPool m used idle
      → x ≢ null
      → has x (used ++ idle) ≡ false
      → IsPool (push_free m x) used (x ∷ idle)
  unfolding push_free
  push_free-IsPool x used idle is ne out =
      let h = m.items in
      let apart = Disjoint-of_Distinct used idle is.distinct in
      let out1 : has x used ≡ false = ground (arith, has-append x used idle) in
      let out2 : has x idle ≡ false = ground (arith, has-append x used idle) in
      let dis = Distinct-append_right used idle is.distinct in
      record {
        allocated =
            push_front-apart h null m.freeitems x idle is.free ne out2 null m.allocateditems used
              (Disjoint-cons x used idle apart out1) is.allocated;
        free = push_front-DList h null m.freeitems x idle is.free ne out2 dis;
        distinct = Distinct-push x used idle (out, is.distinct);
      }

  -- Taking an item out of the allocated list.
  pub detach-IsPool :
      (x : Ptr) (before after idle : List Ptr)
      → IsPool m (before ++ x ∷ after) idle
      → IsPool (detach m x) (before ++ after) idle
  unfolding detach
  detach-IsPool x before after idle is =
      let used = before ++ x ∷ after in
      let d =
        unlink-Detached m.items m.allocateditems x before after
          (Distinct-append_left used idle is.distinct) is.allocated in
      let apart = Disjoint-comm used idle (Disjoint-of_Distinct used idle is.distinct) in
      record {
        allocated = d.list;
        free =
            frame m.items (unlink m.items x) null m.freeitems idle
              (λ a i.
                let same = d.off a (apart a i) in (ap (λ t. t.prev) same, ap (λ t. t.next) same))
              is.free;
        distinct = (Distinct-drop x before after idle is.distinct).1;
      }
