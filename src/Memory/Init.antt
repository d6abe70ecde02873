-- ===== src/Memory/Init.antt =====
-- RMW_INIT_MEMORY of src/types.c: filling a pool from its static array.
use rmw_microxrcedds.Base.{
  ℕ, zero, suc, ◌+◌, ◌≡◌, ◌<◌, ◌≤◌, refl, sym, subst, ap, ◌∙◌, Bool, true, false, ◌&&◌, not, List,
  [], ◌∷◌, arith, ◌==◌, ltb, inl, inr, Bool-cases, if◌then◌else◌, has,
}
use rmw_microxrcedds.Memory.{Ptr, null, Mempool, put_memory}
use rmw_microxrcedds.Memory.Lists.{frame}
use rmw_microxrcedds.Memory.Invariant.{IsPool}
use rmw_microxrcedds.Memory.Put.{put_memory-new}

-- `&array[i].mem`. It is also `&array[i]`, since `mem` is the first member.
abbrev pub array_item : ℕ → Ptr
array_item i = suc i

-- The free list after `n` rounds.
abbrev pub array_items : ℕ → List Ptr
array_items zero = []
array_items (suc n) = array_item n ∷ array_items n

not-has-array_items : (n i : ℕ) → n ≤ i → has (array_item i) (array_items n) ≡ false
not-has-array_items zero i h = refl
not-has-array_items (suc n) i h = ground (arith, not-has-array_items n i)

module _ {A : Type 0} where
  unfoldable pub set_element : Mempool A → Ptr → Ptr → Mempool A
  set_element m p e = record m {
    items = λ a.
        if a == p then record (m.items a) { element = e; is_dynamic_memory = false } else m.items a;
  }

  set_element-prev :
      (m : Mempool A) (p e a : Ptr) → ((set_element m p e).items a).prev ≡ (m.items a).prev
  unfolding set_element
  set_element-prev m p e a = ground arith

  set_element-next :
      (m : Mempool A) (p e a : Ptr) → ((set_element m p e).items a).next ≡ (m.items a).next
  unfolding set_element
  set_element-next m p e a = ground arith

  set_element-IsPool :
      (m : Mempool A) (p e : Ptr) (used idle : List Ptr)
      → IsPool m used idle
      → IsPool (set_element m p e) used idle
  unfolding set_element
  set_element-IsPool m p e used idle is = record {
    allocated =
        frame m.items (set_element m p e).items null m.allocateditems used
          (λ a i. (set_element-prev m p e a, set_element-next m p e a)) is.allocated;
    free =
        frame m.items (set_element m p e).items null m.freeitems idle
          (λ a i. (set_element-prev m p e a, set_element-next m p e a)) is.free;
    distinct = is.distinct;
  }

  -- One round of the loop.
  unfoldable pub init_item : Bool → Mempool A → ℕ → Mempool A
  unfolding set_element
  init_item allow_dynamic m i =
      set_element (put_memory allow_dynamic m (array_item i)) (array_item i) (array_item i)

  -- The loop from `i` on, with `rounds` left.
  unfoldable pub init_items : Bool → (rounds i : ℕ) → Mempool A → Mempool A
  init_items allow_dynamic zero i m = m
  init_items allow_dynamic (suc rounds) i m =
      init_items allow_dynamic rounds (i + 1) (init_item allow_dynamic m i)

  -- What the initialisation writes before its loop.
  unfoldable pub empty_pool : (size_of_element : ℕ) → Mempool A → Mempool A
  empty_pool size_of_element m = record m {
    is_initialized = true;
    element_size = size_of_element;
    allocateditems = null;
    freeitems = null;
    is_dynamic_allowed = true;
  }

  unfoldable pub init_memory : Bool → (size_of_element : ℕ) → Mempool A → (size : ℕ) → Mempool A
  unfolding empty_pool init_items init_item
  init_memory allow_dynamic size_of_element m size =
      if ltb 0 size && not m.is_initialized
      then init_items allow_dynamic size 0 (empty_pool size_of_element m)
      else m

  -- The items from `i` on are untouched, those before hold their array element.
  record IsFilled (m : Mempool A) (i : ℕ) : Type 0 where
    pool : IsPool m [] (array_items i)
    back : (k : ℕ) → i ≤ k → (m.items (array_item k)).prev ≡ null
    fwd : (k : ℕ) → i ≤ k → (m.items (array_item k)).next ≡ null
    static : (k : ℕ) → (m.items (array_item k)).is_dynamic_memory ≡ false
    filled : (k : ℕ) → k < i → (m.items (array_item k)).element ≡ array_item k
    initialized : m.is_initialized ≡ true
    allowed : m.is_dynamic_allowed ≡ true

  init_item-IsFilled :
      (allow_dynamic : Bool) (m : Mempool A) (i : ℕ)
      → IsFilled m i
      → IsFilled (init_item allow_dynamic m i) (suc i)
  unfolding init_item
  init_item-IsFilled allow_dynamic m i f =
      let x = array_item i in
      let out = not-has-array_items i i (omega arith) in
      let p =
        put_memory-new allow_dynamic m x [] (array_items i) f.pool (ground (arith, f.static i))
          (f.back i (omega arith)) (f.fwd i (omega arith)) (omega arith) out in
      let n = put_memory allow_dynamic m x in
      let off : (k : ℕ) → suc i ≤ k → n.items (array_item k) ≡ m.items (array_item k) =
        λ k h. p.2 (array_item k) (ground (arith, not-has-array_items i k)) in
      record {
        pool = set_element-IsPool n x x [] (array_items (suc i)) p.0;
        back = λ k h.
            set_element-prev n x x (array_item k)
            ∙ ap (λ t. t.prev) (off k h)
            ∙ f.back k (omega arith);
        fwd = λ k h.
            set_element-next n x x (array_item k)
            ∙ ap (λ t. t.next) (off k h)
            ∙ f.fwd k (omega arith);
        static = λ k. ground (arith, p.1.dynamic (array_item k), f.static k);
        filled = λ k h. ground (arith, p.1.element (array_item k), f.filled k);
        initialized = p.1.initialized ∙ f.initialized;
        allowed = p.1.dynamic_allowed ∙ f.allowed;
      }

  init_items-IsFilled :
      (allow_dynamic : Bool) (rounds i : ℕ) (m : Mempool A)
      → IsFilled m i
      → IsFilled (init_items allow_dynamic rounds i m) (i + rounds)
  unfolding init_items
  init_items-IsFilled allow_dynamic zero i m f = subst (IsFilled m) (omega arith) f
  init_items-IsFilled allow_dynamic (suc rounds) i m f =
      let e : i + 1 + rounds ≡ i + suc rounds = omega arith in
      let step =
        subst (IsFilled (init_item allow_dynamic m i)) (omega arith)
          (init_item-IsFilled allow_dynamic m i f) in
      subst (IsFilled (init_items allow_dynamic rounds (i + 1) (init_item allow_dynamic m i))) e
        (init_items-IsFilled allow_dynamic rounds (i + 1) (init_item allow_dynamic m i) step)

  -- Memory of static storage duration.
  abbrev pub IsZeroed : Mempool A → Type 0
  IsZeroed m =
      (k : ℕ)
      → ((m.items (array_item k)).prev ≡ null)
        × ((m.items (array_item k)).next ≡ null)
        × ((m.items (array_item k)).is_dynamic_memory ≡ false)

  pub record IsReady (m : Mempool A) (size : ℕ) : Type 0 where
    pub pool : IsPool m [] (array_items size)
    pub element : (k : ℕ) → k < size → (m.items (array_item k)).element ≡ array_item k
    pub static : (k : ℕ) → (m.items (array_item k)).is_dynamic_memory ≡ false
    pub initialized : m.is_initialized ≡ true
    pub allowed : m.is_dynamic_allowed ≡ true

  init_memory-first :
      (allow_dynamic : Bool) (size_of_element : ℕ) (m : Mempool A) (size : ℕ)
      → m.is_initialized ≡ false
      → 0 < size
      → init_memory allow_dynamic size_of_element m size
        ≡ init_items allow_dynamic size 0 (empty_pool size_of_element m)
  unfolding init_memory
  init_memory-first allow_dynamic size_of_element m size new pos =
      let t : ltb 0 size ≡ true = ground arith in simp (t, new)

  pub init_memory-again :
      (allow_dynamic : Bool) (size_of_element : ℕ) (m : Mempool A) (size : ℕ)
      → m.is_initialized ≡ true
      → init_memory allow_dynamic size_of_element m size ≡ m
  unfolding init_memory
  init_memory-again allow_dynamic size_of_element m size old = elim (Bool-cases (ltb 0 size)) [
    | inl t ↦ simp (t, old)
    | inr t ↦ simp t
  ]

  empty_pool-IsFilled :
      (size_of_element : ℕ) (m : Mempool A) → IsZeroed m → IsFilled (empty_pool size_of_element m) 0
  unfolding empty_pool
  empty_pool-IsFilled size_of_element m zeroed = record {
    pool = record { allocated = refl; free = refl; distinct = tt };
    back = λ k h. (zeroed k).0;
    fwd = λ k h. (zeroed k).1;
    static = λ k. (zeroed k).2;
    filled = λ k h. absurd (omega arith);
    initialized = refl;
    allowed = refl;
  }

  IsReady-of_IsFilled : (m : Mempool A) (size : ℕ) → IsFilled m size → IsReady m size
  IsReady-of_IsFilled m size f = record {
    pool = f.pool;
    element = f.filled;
    static = f.static;
    initialized = f.initialized;
    allowed = f.allowed;
  }

  -- For a pool and an array of static storage and a size above 0: RMW_INIT_MEMORY puts every
  -- element of the array into the free list, the last one first, each with its own element, and a
  -- later initialisation changes nothing.
  pub init_memory-IsReady :
      (allow_dynamic : Bool) (size_of_element : ℕ) (m : Mempool A) (size : ℕ)
      → IsZeroed m
      → m.is_initialized ≡ false
      → 0 < size
      → let n = init_memory allow_dynamic size_of_element m size in
        IsReady n size
        × ((size_of_element' size' : ℕ) → init_memory allow_dynamic size_of_element' n size' ≡ n)
  init_memory-IsReady allow_dynamic size_of_element m size zeroed new pos =
      let first = empty_pool size_of_element m in
      let done =
        init_items-IsFilled allow_dynamic size 0 first
          (empty_pool-IsFilled size_of_element m zeroed) in
      let ready = IsReady-of_IsFilled _ size (subst (IsFilled _) (omega arith) done) in
      let e = init_memory-first allow_dynamic size_of_element m size new pos in
      let ready' = subst (λ n. IsReady n size) (sym e) ready in
      (ready', λ s t. init_memory-again allow_dynamic s _ t ready'.initialized)
