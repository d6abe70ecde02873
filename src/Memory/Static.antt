-- ===== src/Memory/Static.antt =====
-- Pools whose items are the first members of their array elements: every pool of a build without
-- dynamic allocations, and the pool of input buffers in every build.
use rmw_microxrcedds.Base.{
  ℕ, suc, ◌<◌, zero, ◌≡◌, refl, sym, ◌∙◌, true, false, none, List, [], ◌∷◌, ◌++◌, arith, ◌==◌,
  subst, eq_of_==, Bool-cases, inl, inr, has, has-append, has_middle, Distinct-pull,
}
use rmw_microxrcedds.Memory.{Ptr, Mempool, get_memory, put_memory}
use rmw_microxrcedds.Memory.Invariant.{IsPool}
use rmw_microxrcedds.Memory.Keeps.{Keeps}
use rmw_microxrcedds.Memory.Get.{get_memory-IsPool}
use rmw_microxrcedds.Memory.Put.{put_memory-IsPool}
use rmw_microxrcedds.Memory.Init.{IsReady, array_item, array_items}

module _ {A : Type 0} where
  -- A pool whose items all come from its array.
  pub record IsStatic (m : Mempool A) (used idle : List Ptr) : Type 0 where
    pub pool : IsPool m used idle
    pub own : (a : Ptr) → has a (used ++ idle) ≡ true → (m.items a).element ≡ a
    pub static : (a : Ptr) → has a (used ++ idle) ≡ true → (m.items a).is_dynamic_memory ≡ false

  pub get_memory-IsStatic :
      (m : Mempool A) (f : Ptr) (used idle : List Ptr)
      → IsStatic m used (f ∷ idle)
      → ((get_memory none m).0 ≡ f)
        × IsStatic (get_memory none m).1 (f ∷ used) idle
        × Keeps m (get_memory none m).1
  get_memory-IsStatic m f used idle is =
      let g = get_memory-IsPool none m f used idle is.pool in
      let at : (a : Ptr) → has a (f ∷ used ++ idle) ≡ true → has a (used ++ f ∷ idle) ≡ true =
        λ a i. has_middle a f used idle ∙ i in
      (
        g.0,
        record {
          pool = g.1;
          own = λ a i. g.2.element a ∙ is.own a (at a i);
          static = λ a i. g.2.dynamic a ∙ is.static a (at a i);
        },
        g.2,
      )

  pub put_memory-IsStatic :
      (m : Mempool A) (x : Ptr) (before after idle : List Ptr)
      → IsStatic m (before ++ x ∷ after) idle
      → IsStatic (put_memory false m x) (before ++ after) (x ∷ idle)
        × Keeps m (put_memory false m x)
  put_memory-IsStatic m x before after idle is =
      let p = put_memory-IsPool false m x before after idle is.pool refl in
      let at : (a : Ptr)
          → has a ((before ++ after) ++ x ∷ idle) ≡ true
          → has a ((before ++ x ∷ after) ++ idle) ≡ true =
        λ a i. moved a x before after idle ∙ i in
      (
        record {
          pool = p.0;
          own = λ a i. p.1.element a ∙ is.own a (at a i);
          static = λ a i. p.1.dynamic a ∙ is.static a (at a i);
        },
        p.1,
      )
    where
      moved :
          (a y : Ptr) (xs ys zs : List Ptr)
          → has a ((xs ++ y ∷ ys) ++ zs) ≡ has a ((xs ++ ys) ++ y ∷ zs)
      moved a y xs ys zs = ground (
        arith,
        has-append a (xs ++ y ∷ ys) zs,
        has_middle a y xs ys,
        has_middle a y (xs ++ ys) zs,
        has-append a (xs ++ ys) zs,
      )

  -- An item that is free stands nowhere in the allocated list.
  pub not-has-used :
      (m : Mempool A) (f : Ptr) (used idle : List Ptr)
      → IsStatic m used (f ∷ idle)
      → has f used ≡ false
  not-has-used m f used idle is =
      let all = Distinct-pull f used idle is.pool.distinct in ground (arith, has-append f used idle)

has-array_items :
    (size a : ℕ) → has a (array_items size) ≡ true → (k : ℕ) × (k < size) × (a ≡ array_item k)
has-array_items zero a h = cc
has-array_items (suc n) a h = elim (Bool-cases (a == array_item n)) [
  | inl e ↦ (n, omega arith, eq_of_== a (array_item n) e)
  | inr e ↦ let (k, lt, at) = has-array_items n a (ground arith) in (k, omega arith, at)
]

module _ {A : Type 0} where
  -- A pool that was just initialised hands out nothing else than its array.
  pub IsReady-IsStatic :
      (m : Mempool A) (size : ℕ) → IsReady m size → IsStatic m [] (array_items size)
  IsReady-IsStatic m size ready = record {
    pool = ready.pool;
    own = λ a i.
        let (k, lt, at) = has-array_items size a i in
        subst (λ p. (m.items p).element ≡ p) (sym at) (ready.element k lt);
    static = λ a i.
        let (k, lt, at) = has-array_items size a i in
        subst (λ p. (m.items p).is_dynamic_memory ≡ false) (sym at) (ready.static k);
  }
