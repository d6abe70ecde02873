-- ===== src/Memory/Get.antt =====
-- `get_memory`.
use rmw_microxrcedds.Base.{
  ℕ, ◌≡◌, refl, sym, subst, ap, ◌∙◌, true, false, not, List, [], ◌∷◌, arith, ◌==◌, Option, none,
  some, suc, ◌⊎◌, inl, inr,
}
use rmw_microxrcedds.Memory.{
  Ptr, null, Mempool, Allocation, lock, unlock, has_memory, grow, take_item, take_free, get_memory,
  get_memory_rounds,
}
use rmw_microxrcedds.Memory.Invariant.{IsPool, take_item-IsPool}
use rmw_microxrcedds.Memory.Keeps.{Keeps, take_item-Keeps, locked-Keeps}

module _ {A : Type 0} where
  pub unlock-lock : (m : Mempool A) → unlock (lock m) ≡ m
  unfolding lock unlock
  unlock-lock m = ground arith

  has_memory-eq : (m : Mempool A) → has_memory m ≡ (not (m.freeitems == null), m)
  unfolding has_memory
  has_memory-eq m = rw (unlock-lock m)

  lock-free : (m : Mempool A) → (lock m).freeitems ≡ m.freeitems
  unfolding lock
  lock-free m = refl

  lock-allowed : (m : Mempool A) → (lock m).is_dynamic_allowed ≡ m.is_dynamic_allowed
  unfolding lock
  lock-allowed m = refl

  -- With a free item, `get_memory` hands out the first one.
  pub get_memory_rounds-take :
      (n : ℕ) (al : Option (Allocation A)) (m : Mempool A)
      → (m.freeitems == null) ≡ false
      → get_memory_rounds (suc n) al m ≡ (m.freeitems, unlock (take_item (lock m) m.freeitems))
  unfolding get_memory_rounds take_free
  get_memory_rounds-take n al m some_free =
      rw (get_memory_rounds, has_memory-eq (lock m), lock-free m, some_free)
        (rw (has_memory-eq (lock m), take_free, lock-free m))

  -- Without one, a build or a pool without dynamic memory gets NULL.
  get_memory_rounds-full :
      (n : ℕ) (al : Option (Allocation A)) (m : Mempool A)
      → (m.freeitems == null) ≡ true
      → (al ≡ none) ⊎ (m.is_dynamic_allowed ≡ false)
      → get_memory_rounds (suc n) al m ≡ (null, m)
  unfolding get_memory_rounds
  get_memory_rounds-full n none m full why =
      rw (get_memory_rounds, has_memory-eq (lock m), lock-free m, full)
        (rw (has_memory-eq (lock m), unlock-lock m))
  get_memory_rounds-full n (some al) m full (inl e) = cc
  get_memory_rounds-full n (some al) m full (inr e) =
      rw (get_memory_rounds, has_memory-eq (lock m), lock-free m, full)
        (simp (has_memory-eq, lock-allowed m ∙ e, unlock-lock))

  -- With it, the new item goes through the free list.
  pub get_memory_rounds-grow :
      (n : ℕ) (al : Allocation A) (m : Mempool A)
      → (m.freeitems == null) ≡ true
      → m.is_dynamic_allowed ≡ true
      → get_memory_rounds (suc n) (some al) m
        ≡ (let (item, m') = get_memory_rounds n (some al) (grow (lock m) al) in (item, unlock m'))
  unfolding get_memory_rounds lock
  get_memory_rounds-grow n al m full dyn =
      rw (get_memory_rounds, has_memory-eq (lock m), lock-free m, full)
        (rw (has_memory-eq (lock m), dyn))

  -- For a pool without a free item, in a build or a pool without dynamic memory: get_memory
  -- returns NULL and changes nothing.
  pub get_memory-exhausted :
      (al : Option (Allocation A)) (m : Mempool A) (used : List Ptr)
      → IsPool m used []
      → (al ≡ none) ⊎ (m.is_dynamic_allowed ≡ false)
      → get_memory al m ≡ (null, m)
  unfolding get_memory
  get_memory-exhausted al m used is why =
      get_memory_rounds-full 1 al m (ground (arith, is.free)) why

  get_memory_rounds-state :
      (n : ℕ) (al : Option (Allocation A)) (m : Mempool A) (f : Ptr) (used idle : List Ptr)
      → IsPool m used (f ∷ idle)
      → get_memory_rounds (suc n) al m ≡ (f, unlock (take_item (lock m) f))
  get_memory_rounds-state n al m f used idle is =
      get_memory_rounds-take n al m (ground (arith, is.free.0, is.free.1))
      ∙ ap (λ p. (p, unlock (take_item (lock m) p))) is.free.0

  pub lock-IsPool :
      (m : Mempool A) (used idle : List Ptr) → IsPool m used idle → IsPool (lock m) used idle
  unfolding lock
  lock-IsPool m used idle is = record {
    allocated = is.allocated;
    free = is.free;
    distinct = is.distinct;
  }

  pub unlock-IsPool :
      (m : Mempool A) (used idle : List Ptr) → IsPool m used idle → IsPool (unlock m) used idle
  unfolding unlock
  unlock-IsPool m used idle is = record {
    allocated = is.allocated;
    free = is.free;
    distinct = is.distinct;
  }

  pub get_memory_rounds-IsPool :
      (n : ℕ) (al : Option (Allocation A)) (m : Mempool A) (f : Ptr) (used idle : List Ptr)
      → IsPool m used (f ∷ idle)
      → ((get_memory_rounds (suc n) al m).0 ≡ f)
        × IsPool (get_memory_rounds (suc n) al m).1 (f ∷ used) idle
        × Keeps m (get_memory_rounds (suc n) al m).1
  get_memory_rounds-IsPool n al m f used idle is =
      let e = get_memory_rounds-state n al m f used idle is in
      let new = take_item-IsPool (lock m) f used idle (lock-IsPool m used (f ∷ idle) is) in
      (
        ap (λ r. r.0) e,
        subst (λ r. IsPool r.1 (f ∷ used) idle) (sym e) (unlock-IsPool _ (f ∷ used) idle new),
        subst (λ r. Keeps m r.1) (sym e)
            (locked-Keeps m (take_item (lock m) f) (take_item-Keeps (lock m) f)),
      )

  -- For a pool with a free item, in every build: get_memory hands out the first free item and
  -- moves it to the front of the allocated list, both lists stay well linked and disjoint, and
  -- the lock, the elements and the other fields are as before.
  pub get_memory-IsPool :
      (al : Option (Allocation A)) (m : Mempool A) (f : Ptr) (used idle : List Ptr)
      → IsPool m used (f ∷ idle)
      → ((get_memory al m).0 ≡ f)
        × IsPool (get_memory al m).1 (f ∷ used) idle
        × Keeps m (get_memory al m).1
  unfolding get_memory
  get_memory-IsPool = get_memory_rounds-IsPool 1
