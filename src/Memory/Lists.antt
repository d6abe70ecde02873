-- ===== src/Memory/Lists.antt =====
-- The doubly linked lists that the pointers of memory.c form, and what its pointer writes do to
-- them.
use rmw_microxrcedds.Base.{
  ◌≡◌, ◌≢◌, refl, sym, ap, ◌∙◌, inl, inr, true, false, List, [], ◌∷◌, arith, ◌==◌, Bool-cases,
  eq_of_==, has, Distinct, Disjoint,
}
use rmw_microxrcedds.Memory.{
  Ptr, null, Items, set_prev, set_next, back_link, forward_link, push_front,
}

-- From `p` the `next` pointers lead through `xs` to NULL, and the `prev` pointers lead back to `r`.
abbrev pub DList : Items → Ptr → Ptr → List Ptr → Type 0
DList h r p [] = p ≡ null
DList h r p (x ∷ xs) = (p ≡ x) × (x ≢ null) × ((h x).prev ≡ r) × DList h x (h x).next xs

-- `g` links the addresses of `xs` as `h` does.
abbrev pub SameLinks : Items → Items → List Ptr → Type 0
SameLinks h g xs =
    (a : Ptr) → has a xs ≡ true → ((g a).prev ≡ (h a).prev) × ((g a).next ≡ (h a).next)

pub frame :
    (h g : Items) (r p : Ptr) (xs : List Ptr) → SameLinks h g xs → DList h r p xs → DList g r p xs
frame h g r p [] same d = d
frame h g r p (x ∷ xs) same (e, ne, back, d) =
    let at = same x (ground arith) in
    (e, ne, at.0 ∙ back, rw at.1 (frame h g x (h x).next xs (λ a i. same a (ground arith)) d))

pub DList-cons :
    (h : Items) (r p n x : Ptr) (xs : List Ptr)
    → p ≡ x
    → x ≢ null
    → (h x).prev ≡ r
    → (h x).next ≡ n
    → DList h x n xs
    → DList h r p (x ∷ xs)
DList-cons h r p n x xs e ne back fwd d = (e, ne, back, rw fwd d)

-- The head of a list is NULL, or it is in the list.
pub head_outside :
    (h : Items) (r p a : Ptr) (xs : List Ptr)
    → DList h r p xs
    → has a xs ≡ false
    → a ≢ null
    → (a == p) ≡ false
head_outside h r p a [] d out ne = ground arith
head_outside h r p a (x ∷ xs) (e, _, _, _) out ne = ground arith

pub back_link-null : (h : Items) (p q : Ptr) → p ≡ null → back_link h p q ≡ h
unfolding back_link
back_link-null h p q e = ground arith

pub forward_link-null : (h : Items) (p q : Ptr) → p ≡ null → forward_link h p q ≡ h
unfolding forward_link
forward_link-null h p q e = ground arith

-- One address after a write.
module _ (h : Items) (p q a : Ptr) where
  pub set_prev-next : (set_prev h p q a).next ≡ (h a).next
  unfolding set_prev
  set_prev-next = ground arith

  pub set_prev-prev : a ≡ p → (set_prev h p q a).prev ≡ q
  unfolding set_prev
  set_prev-prev e = ground arith

  pub set_prev-other : (a == p) ≡ false → set_prev h p q a ≡ h a
  unfolding set_prev
  set_prev-other out = rw out

  pub set_next-prev : (set_next h p q a).prev ≡ (h a).prev
  unfolding set_next
  set_next-prev = ground arith

  pub set_next-next : a ≡ p → (set_next h p q a).next ≡ q
  unfolding set_next
  set_next-next e = ground arith

  pub set_next-other : (a == p) ≡ false → set_next h p q a ≡ h a
  unfolding set_next
  set_next-other out = rw out

  pub back_link-next : (back_link h p q a).next ≡ (h a).next
  unfolding back_link set_prev
  back_link-next = ground arith

  pub back_link-prev : a ≡ p → a ≢ null → (back_link h p q a).prev ≡ q
  unfolding back_link set_prev
  back_link-prev e ne = ground arith

  pub back_link-other : (a == p) ≡ false → back_link h p q a ≡ h a
  unfolding back_link set_prev
  back_link-other out = ground arith

  pub forward_link-next : a ≡ p → a ≢ null → (forward_link h p q a).next ≡ q
  unfolding forward_link set_next
  forward_link-next e ne = ground arith

  pub forward_link-prev : (forward_link h p q a).prev ≡ (h a).prev
  unfolding forward_link set_next
  forward_link-prev = ground arith

  pub forward_link-other : (a == p) ≡ false → forward_link h p q a ≡ h a
  unfolding forward_link set_next
  forward_link-other out = ground arith

-- `g` agrees with `h` off the address `p`.
abbrev pub SameOff : Items → Items → Ptr → Type 0
SameOff h g p = (a : Ptr) → (a == p) ≡ false → g a ≡ h a

pub frame_off :
    (h g : Items) (r p q : Ptr) (xs : List Ptr)
    → SameOff h g q
    → has q xs ≡ false
    → DList h r p xs
    → DList g r p xs
frame_off h g r p q xs same out d = frame h g r p xs (λ a i. at a i (same a (apart a i))) d
  where
    apart : (a : Ptr) → has a xs ≡ true → (a == q) ≡ false
    apart a i = elim (Bool-cases (a == q)) [
      | inl e ↦ let eq : a ≡ q = eq_of_== a q e in ground (arith, ap (λ b. has b xs) eq)
      | inr e ↦ e
    ]

    at :
        (a : Ptr)
        → has a xs ≡ true
        → g a ≡ h a
        → ((g a).prev ≡ (h a).prev) × ((g a).next ≡ (h a).next)
    at a i e = (ap (λ t. t.prev) e, ap (λ t. t.next) e)

pub frame-set_prev :
    (h : Items) (r p a q : Ptr) (xs : List Ptr)
    → has a xs ≡ false
    → DList h r p xs
    → DList (set_prev h a q) r p xs
frame-set_prev h r p a q xs = frame_off h (set_prev h a q) r p a xs (λ b. set_prev-other h a q b)

pub frame-set_next :
    (h : Items) (r p a q : Ptr) (xs : List Ptr)
    → has a xs ≡ false
    → DList h r p xs
    → DList (set_next h a q) r p xs
frame-set_next h r p a q xs = frame_off h (set_next h a q) r p a xs (λ b. set_next-other h a q b)

-- The idiom `if (head) { head->prev = q; }` turns the front of the list to `q`.
pub DList-back_link :
    (h : Items) (r p q : Ptr) (xs : List Ptr)
    → Distinct xs
    → DList h r p xs
    → DList (back_link h p q) q p xs
DList-back_link h r p q [] dis d = d
DList-back_link h r p q (x ∷ xs) dis (e, ne, back, d) =
    let g = back_link h p q in
    DList-cons g q p (h x).next x xs e ne (back_link-prev h p q x (sym e) ne)
      (back_link-next h p q x)
      (frame_off h g x (h x).next p xs (λ a. back_link-other h p q a) (rw e dis.0) d)

-- It leaves the other list alone.
pub DList-back_link_apart :
    (h : Items) (r p s t q : Ptr) (xs ys : List Ptr)
    → DList h r p xs
    → Disjoint xs ys
    → DList h s t ys
    → DList (back_link h p q) s t ys
DList-back_link_apart h r p s t q [] ys e apart d = rw (back_link-null h p q e) d
DList-back_link_apart h r p s t q (x ∷ xs) ys (e, ne, back, _) apart d =
    frame_off h (back_link h p q) s t p ys (λ a. back_link-other h p q a)
      (rw e (apart x (ground arith))) d

-- An address off the list is not written by `if (head) { head->prev = q; }`, nor is NULL.
pub back_link-off :
    (h : Items) (r p q a : Ptr) (xs : List Ptr)
    → DList h r p xs
    → has a xs ≡ false
    → back_link h p q a ≡ h a
back_link-off h r p q a [] d out = ap (λ g. g a) (back_link-null h p q d)
back_link-off h r p q a (x ∷ xs) (e, _, _, _) out = back_link-other h p q a (ground arith)

module _ (h : Items) (r p x : Ptr) (xs : List Ptr) (d : DList h r p xs) (ne : x ≢ null)
    (out : has x xs ≡ false) where
  -- What `push_front` does to the addresses off its list.
  pub push_front-off : (a : Ptr) → has a (x ∷ xs) ≡ false → push_front h x p a ≡ h a
  unfolding push_front
  push_front-off a off =
      let h1 = set_next h x p in
      let h2 = back_link h1 (h1 x).next x in
      let e : (h1 x).next ≡ p = set_next-next h x p x refl in
      let d1 : DList h1 r (h1 x).next xs = rw e (frame-set_next h r p x p xs out d) in
      set_prev-other h2 x null a (ground arith)
      ∙ back_link-off h1 r (h1 x).next x a xs d1 (ground arith)
      ∙ set_next-other h x p a (ground arith)

  -- The item becomes the head of the list.
  pub push_front-DList : Distinct xs → DList (push_front h x p) null x (x ∷ xs)
  unfolding push_front
  push_front-DList dis =
      let h1 = set_next h x p in
      let h2 = back_link h1 (h1 x).next x in
      let e : (h1 x).next ≡ p = set_next-next h x p x refl in
      let d1 : DList h1 r (h1 x).next xs = rw e (frame-set_next h r p x p xs out d) in
      let d2 : DList h2 x (h1 x).next xs = DList-back_link h1 r (h1 x).next x xs dis d1 in
      DList-cons (set_prev h2 x null) null x (h1 x).next x xs refl ne
        (set_prev-prev h2 x null x refl)
        (set_prev-next h2 x null x ∙ back_link-next h1 (h1 x).next x x)
        (frame-set_prev h2 x (h1 x).next x null xs out d2)

  -- A list apart from both stays a list.
  pub push_front-apart :
      (s t : Ptr) (ys : List Ptr)
      → Disjoint ys (x ∷ xs)
      → DList h s t ys
      → DList (push_front h x p) s t ys
  push_front-apart s t ys apart e =
      frame h (push_front h x p) s t ys
        (λ a i.
          let same = push_front-off a (apart a i) in (ap (λ t. t.prev) same, ap (λ t. t.next) same))
        e
