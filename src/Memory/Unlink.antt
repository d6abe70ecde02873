-- ===== src/Memory/Unlink.antt =====
-- `unlink`, the first half of `put_memory`, takes one item out of the middle of a list.
use rmw_microxrcedds.Base.{
  ◌≡◌, ◌≢◌, refl, ap, ◌∙◌, true, false, List, [], ◌∷◌, ◌++◌, arith, ◌==◌, if◌then◌else◌, has,
  Distinct, has-append,
}
use rmw_microxrcedds.Memory.{Ptr, null, Items, back_link, forward_link, unlink}
use rmw_microxrcedds.Memory.Lists.{
  DList, DList-cons, frame_off, back_link-next, back_link-off, DList-back_link, forward_link-null,
  forward_link-next, forward_link-prev, forward_link-other,
}

-- `unlink` where the neighbours of the item are known.
unlink-eq :
    (h : Items) (x r n : Ptr)
    → (h x).prev ≡ r
    → (h x).next ≡ n
    → (x == r) ≡ false
    → unlink h x ≡ back_link (forward_link h r n) n r
unfolding unlink
unlink-eq h x r n ep en apart =
    let same : forward_link h r n x ≡ h x = forward_link-other h r n x apart in
    rw (ep, en, same, en, ep)

-- What unlinking `x` did to the part of the list behind the item `r`: the list is `ys` now, the
-- item `r` itself keeps its `prev`, and what stands off the old list `xs` is as it was.
pub record Unlinked (h g : Items) (r : Ptr) (xs ys : List Ptr) : Type 0 where
  pub rest : DList g r (g r).next ys
  pub back : (g r).prev ≡ (h r).prev
  pub off : (a : Ptr) → has a xs ≡ false → (a == r) ≡ false → g a ≡ h a

-- The item stands directly behind `r`.
unlink-here :
    (h : Items) (r x n : Ptr) (after : List Ptr)
    → r ≢ null
    → has r after ≡ false
    → Distinct after
    → DList h x n after
    → Unlinked h (back_link (forward_link h r n) n r) r (x ∷ after) after
unlink-here h r x n after ne out dis d = record {
  rest = rw to_next (DList-back_link h1 x n r after dis d1);
  back = ap (λ t. t.prev) (back_link-off h1 x n r r after d1 out) ∙ forward_link-prev h r n r;
  off = λ a oa oe. back_link-off h1 x n r a after d1 (ground arith) ∙ forward_link-other h r n a oe;
}
  where
    h1 : Items
    h1 = forward_link h r n

    d1 : DList h1 x n after
    d1 = frame_off h h1 x n r after (λ a. forward_link-other h r n a) out d

    to_next : (back_link h1 n r r).next ≡ n
    to_next = back_link-next h1 n r r ∙ forward_link-next h r n r refl ne

-- The item stands anywhere behind `r`.
unlink-behind :
    (h : Items) (r p x : Ptr) (before after : List Ptr)
    → r ≢ null
    → (h r).next ≡ p
    → has r (before ++ x ∷ after) ≡ false
    → Distinct (before ++ x ∷ after)
    → DList h r p (before ++ x ∷ after)
    → Unlinked h (unlink h x) r (before ++ x ∷ after) (before ++ after)
unlink-behind h r p x [] after ne fwd out dis (e, nx, back, d) =
    rw (unlink-eq h x r (h x).next back refl (ground arith))
      (unlink-here h r x (h x).next after ne (ground arith) dis.1 d)
unlink-behind h r p x (y ∷ before) after ne fwd out dis (e, ny, back, d) =
    let inner = unlink-behind h y (h y).next x before after ny refl dis.0 dis.1 d in
    let still : unlink h x r ≡ h r = inner.off r (ground arith) (ground arith) in
    record {
      rest =
          DList-cons (unlink h x) r _ _ y (before ++ after) (ap (λ t. t.next) still ∙ fwd ∙ e) ny
            (inner.back ∙ back) refl inner.rest;
      back = ap (λ t. t.prev) still;
      off = λ a oa oe. inner.off a (ground arith) (ground arith);
    }

-- The list without the item: `head` is where `put_memory` lets it begin.
pub record Detached (h : Items) (p x : Ptr) (xs ys : List Ptr) : Type 0 where
  pub list : DList (unlink h x) null (if p == x then (unlink h x x).next else p) ys
  pub off : (a : Ptr) → has a xs ≡ false → unlink h x a ≡ h a

-- The item stands anywhere in a whole list.
pub unlink-Detached :
    (h : Items) (p x : Ptr) (before after : List Ptr)
    → Distinct (before ++ x ∷ after)
    → DList h null p (before ++ x ∷ after)
    → Detached h p x (before ++ x ∷ after) (before ++ after)
unlink-Detached h p x [] after dis (e, nx, back, d) =
    let n = (h x).next in
    let eq : unlink h x ≡ back_link h n null =
      rw (unlink-eq h x null n back refl (ground arith), forward_link-null h null n refl) refl in
    let here : (p == x) ≡ true = ground arith in
    record {
      list = rw (here, eq, back_link-next h n null x) (DList-back_link h x n null after dis.1 d);
      off = λ a oa. rw eq (back_link-off h x n null a after d (ground arith));
    }
unlink-Detached h p x (y ∷ before) after dis (e, ny, back, d) =
    let inner = unlink-behind h y (h y).next x before after ny refl dis.0 dis.1 d in
    let there : (p == x) ≡ false = ground (arith, has-append y before (x ∷ after)) in
    record {
      list = rw there (
          DList-cons (unlink h x) null p _ y (before ++ after) e ny (inner.back ∙ back) refl
            inner.rest);
      off = λ a oa. inner.off a (ground arith) (ground arith);
    }
