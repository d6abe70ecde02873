-- ===== src/Buffers/Mailbox.antt =====
-- The abstract view of the buffers: for each owner the samples that wait for it.
use rmw_microxrcedds.Base.{
  ◌≡◌, refl, sym, ap, subst, ◌∙◌, true, false, Option, none, some, List, [], ◌∷◌, arith, ◌==◌,
  if◌then◌else◌, has, has-append, ne_of_has, inl,
}
use rmw_microxrcedds.Memory.{Ptr, null, Mempool, get_memory, put_memory}
use rmw_microxrcedds.Memory.Keeps.{Keeps}
use rmw_microxrcedds.Memory.Static.{IsStatic, get_memory-IsStatic, put_memory-IsStatic}
use rmw_microxrcedds.Memory.Get.{get_memory-exhausted}
use rmw_microxrcedds.Types.{StaticInputBuffer, Owner, owner_eq, Related}
use rmw_microxrcedds.Buffers.{Incoming, buffer_at, write_buffer, written, fill_input, store_input}

-- The samples of an owner, in the order of the allocated list.
unfoldable pub mailbox : Mempool StaticInputBuffer → List Ptr → Owner → List StaticInputBuffer
mailbox m [] owner = []
mailbox m (x ∷ xs) owner =
    let rest = mailbox m xs owner in
    if owner_eq (buffer_at m x).owner owner then buffer_at m x ∷ rest else rest

mailbox-frame :
    (m n : Mempool StaticInputBuffer) (xs : List Ptr) (owner : Owner)
    → ((a : Ptr) → has a xs ≡ true → buffer_at n a ≡ buffer_at m a)
    → mailbox n xs owner ≡ mailbox m xs owner
unfolding mailbox
mailbox-frame m n [] owner same = refl
mailbox-frame m n (x ∷ xs) owner same =
    let e = same x (ground arith) in
    let ih = mailbox-frame m n xs owner (λ a i. same a (ground arith)) in rw (e, ih)

-- A kept pool has the same buffers.
buffer_at-Keeps :
    (m n : Mempool StaticInputBuffer) (a : Ptr) → Keeps m n → buffer_at n a ≡ buffer_at m a
buffer_at-Keeps m n a k = ap (λ e. e (n.items a).element) k.elements ∙ ap m.elements (k.element a)

pub mailbox-Keeps :
    (m n : Mempool StaticInputBuffer) (xs : List Ptr) (owner : Owner)
    → Keeps m n
    → mailbox n xs owner ≡ mailbox m xs owner
mailbox-Keeps m n xs owner k = mailbox-frame m n xs owner (λ a i. buffer_at-Keeps m n a k)

-- Writing one buffer of the pool.
module _ (m : Mempool StaticInputBuffer) (x : Ptr) (used idle : List Ptr) (b : StaticInputBuffer)
    (is : IsStatic m (x ∷ used) idle) where
  write_buffer-IsStatic : IsStatic (write_buffer m (m.items x).element b) (x ∷ used) idle
  write_buffer-IsStatic = record {
    pool = record {
      allocated = is.pool.allocated;
      free = is.pool.free;
      distinct = is.pool.distinct;
    };
    own = is.own;
    static = is.static;
  }

  buffer_at-write : buffer_at (write_buffer m (m.items x).element b) x ≡ b
  buffer_at-write = ground arith

  buffer_at-write_other :
      (a : Ptr)
      → has a used ≡ true
      → buffer_at (write_buffer m (m.items x).element b) a ≡ buffer_at m a
  buffer_at-write_other a i =
      let ex : (m.items x).element ≡ x = is.own x (ground arith) in
      let ea : (m.items a).element ≡ a = is.own a (ground (arith, has-append a used idle)) in
      let ne : (a == x) ≡ false =
        ne_of_has a x used i (ground (arith, has-append x used idle, is.pool.distinct.0)) in
      rw (ex, ea, ne) (ap m.elements (sym ea))

  mailbox-write :
      (owner : Owner)
      → mailbox (write_buffer m (m.items x).element b) (x ∷ used) owner
        ≡ (let rest = mailbox m used owner in if owner_eq b.owner owner then b ∷ rest else rest)
  unfolding mailbox
  mailbox-write owner =
      let n = write_buffer m (m.items x).element b in
      rw (buffer_at-write, mailbox-frame m n used owner buffer_at-write_other)

written-owner :
    (b : StaticInputBuffer) (owner : Owner) (related : Option Related) (sample : Incoming)
    → (written b owner related sample).owner ≡ owner
written-owner b owner none sample = refl
written-owner b owner (some r) sample = refl

-- What a sample that arrived does to the mailboxes: its owner's gets it as the first entry.
pub record Delivered (m n : Mempool StaticInputBuffer) (used idle : List Ptr) (f : Ptr)
    (owner : Owner) (b : StaticInputBuffer) : Type 0 where
  pub static : IsStatic n (f ∷ used) idle
  pub mailboxes :
      (o : Owner)
      → mailbox n (f ∷ used) o
        ≡ (if owner_eq owner o then b ∷ mailbox m used o else mailbox m used o)
  pub mutex : n.mutex ≡ m.mutex
  pub dynamic_allowed : n.is_dynamic_allowed ≡ m.is_dynamic_allowed

module _ (m : Mempool StaticInputBuffer) (owner : Owner) (related : Option Related)
    (sample : Incoming) where
  store_input-fill :
      (f : Ptr) (used idle : List Ptr)
      → IsStatic m used (f ∷ idle)
      → store_input m owner related sample ≡ fill_input (get_memory none m).1 f owner related sample
  unfolding store_input
  store_input-fill f used idle is =
      ap (λ p. fill_input (get_memory none m).1 p owner related sample)
        (get_memory-IsStatic m f used idle is).0

  -- A sample that can be read and that finds a free buffer is put in front of its owner's
  -- mailbox, and no other mailbox changes.
  pub store_input-Delivered :
      (f : Ptr) (used idle : List Ptr)
      → IsStatic m used (f ∷ idle)
      → sample.deserialized ≡ true
      → Delivered m
          (store_input m owner related sample)
          used
          idle
          f
          owner
          (written (buffer_at m f) owner related sample)
  unfolding fill_input
  store_input-Delivered f used idle is good =
      let g = get_memory-IsStatic m f used idle is in
      let m1 = (get_memory none m).1 in
      let b = written (buffer_at m1 f) owner related sample in
      let n = write_buffer m1 (m1.items f).element b in
      let ne : (f == null) ≡ false = ground (arith, is.pool.free.1) in
      let e : store_input m owner related sample ≡ n =
        store_input-fill f used idle is ∙ rw (ne, good) refl in
      let same : buffer_at m1 f ≡ buffer_at m f = buffer_at-Keeps m m1 f g.2 in
      let stored : Delivered m n used idle f owner b = record {
        static = write_buffer-IsStatic m1 f used idle b g.1;
        mailboxes = λ o.
            mailbox-write m1 f used idle b g.1 o
            ∙ rw
                (written-owner (buffer_at m1 f) owner related sample, mailbox-Keeps m m1 used o g.2)
                refl;
        mutex = g.2.mutex;
        dynamic_allowed = g.2.dynamic_allowed;
      } in
      subst (λ c. Delivered m (store_input m owner related sample) used idle f owner c)
        (ap (λ c. written c owner related sample) same)
        (subst (λ k. Delivered m k used idle f owner b) (sym e) stored)

  -- A sample that cannot be read gives its buffer back: the allocated and the free buffers, every
  -- mailbox and the lock are as before.
  pub store_input-failed :
      (f : Ptr) (used idle : List Ptr)
      → IsStatic m used (f ∷ idle)
      → sample.deserialized ≡ false
      → let n = store_input m owner related sample in
        IsStatic n used (f ∷ idle)
        × ((o : Owner) → mailbox n used o ≡ mailbox m used o)
        × (n.mutex ≡ m.mutex)
        × (n.is_dynamic_allowed ≡ m.is_dynamic_allowed)
  unfolding fill_input
  store_input-failed f used idle is bad =
      let g = get_memory-IsStatic m f used idle is in
      let m1 = (get_memory none m).1 in
      let b = written (buffer_at m1 f) owner related sample in
      let n = write_buffer m1 (m1.items f).element b in
      let ne : (f == null) ≡ false = ground (arith, is.pool.free.1) in
      let e : store_input m owner related sample ≡ put_memory false n f =
        store_input-fill f used idle is ∙ rw (ne, bad) refl in
      let p = put_memory-IsStatic n f [] used idle (write_buffer-IsStatic m1 f used idle b g.1) in
      (
        subst (λ k. IsStatic k used (f ∷ idle)) (sym e) p.0,
        λ o.
            ap (λ k. mailbox k used o) e
            ∙ mailbox-Keeps n (put_memory false n f) used o p.1
            ∙ mailbox-frame m1 n used o (buffer_at-write_other m1 f used idle b g.1)
            ∙ mailbox-Keeps m m1 used o g.2,
        ap (λ k. k.mutex) e ∙ p.1.mutex ∙ g.2.mutex,
        ap (λ k. k.is_dynamic_allowed) e ∙ p.1.dynamic_allowed ∙ g.2.dynamic_allowed,
      )

  -- Without a free buffer a sample is dropped and nothing changes.
  pub store_input-full :
      (used : List Ptr) → IsStatic m used [] → store_input m owner related sample ≡ m
  unfolding store_input fill_input
  store_input-full used is = let e = get_memory-exhausted none m used is.pool (inl refl) in rw e
