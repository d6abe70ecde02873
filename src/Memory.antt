-- ===== src/Memory.antt =====
-- src/memory.h and src/memory.c: the pools of list items, at the level of their pointers.
-- An address is a number, and 0 is NULL. `items` is the memory that the items live in.
pub mod Lists
pub mod Unlink
pub mod Keeps
pub mod Invariant
pub mod Get
pub mod Put
pub mod DoublePut
pub mod Dynamic
pub mod Static
pub mod Walk
pub mod Init
use rmw_microxrcedds.Base.{
  ℕ, zero, suc, ◌+◌, ◌-◌, Bool, true, false, not, Option, none, some, List, ◌∷◌, ◌==◌, ◌&&◌,
  if◌then◌else◌,
}

abbrev pub Ptr : Type 0
Ptr = ℕ

abbrev pub null : Ptr
null = 0

-- `rmw_uxrce_mempool_item_t`; `element` is the field `data`.
pub record Item : Type 0 where
  pub prev : Ptr
  pub next : Ptr
  pub element : Ptr
  pub is_dynamic_memory : Bool

abbrev pub Items : Type 0
Items = Ptr → Item

-- `rmw_uxrce_mempool_t`, together with the memory that it points into: the items, the elements
-- behind their `data` pointers, and the addresses that were handed to `rmw_free`. `mutex` counts
-- the locks of the recursive mutex that the thread holds.
pub record Mempool (A : Type 0) : Type 0 where
  pub allocateditems : Ptr
  pub freeitems : Ptr
  pub element_size : ℕ
  pub is_initialized : Bool
  pub is_dynamic_allowed : Bool
  pub mutex : ℕ
  pub items : Items
  pub elements : Ptr → A
  pub freed : List Ptr

-- What the two calls of `rmw_allocate` return, and the element that `memset` leaves.
pub record Allocation (A : Type 0) : Type 0 where
  pub item : Ptr
  pub element : Ptr
  pub cleared : A

unfoldable pub set_prev : Items → Ptr → Ptr → Items
set_prev h p q a = if a == p then record (h a) { prev = q } else h a

unfoldable pub set_next : Items → Ptr → Ptr → Items
set_next h p q a = if a == p then record (h a) { next = q } else h a

-- `if (p) { p->prev = q; }`
unfoldable pub back_link : Items → Ptr → Ptr → Items
back_link h p q = if p == null then h else set_prev h p q

-- `if (p) { p->next = q; }`
unfoldable pub forward_link : Items → Ptr → Ptr → Items
forward_link h p q = if p == null then h else set_next h p q

-- `item->next = head; if (item->next) { item->next->prev = item; } item->prev = NULL;`
unfoldable pub push_front : Items → Ptr → Ptr → Items
push_front h item head =
    let h1 = set_next h item head in
    let h2 = back_link h1 (h1 item).next item in set_prev h2 item null

-- The first two statements of `put_memory`.
unfoldable pub unlink : Items → Ptr → Items
unlink h item =
    let h1 = forward_link h (h item).prev (h item).next in
    back_link h1 (h1 item).next (h1 item).prev

module _ {A : Type 0} where
  unfoldable pub lock : Mempool A → Mempool A
  lock m = record m { mutex = m.mutex + 1 }

  unfoldable pub unlock : Mempool A → Mempool A
  unlock m = record m { mutex = m.mutex - 1 }

  unfoldable pub has_memory : Mempool A → Bool × Mempool A
  unfolding lock unlock
  has_memory m = let m1 = lock m in (not (m1.freeitems == null), unlock m1)

  -- The first branch of `get_memory`.
  unfoldable pub take_item : Mempool A → Ptr → Mempool A
  take_item m item =
      let head = (m.items item).next in
      record m {
        freeitems = head;
        items = push_front (back_link m.items head null) item m.allocateditems;
        allocateditems = item;
      }

  unfoldable pub take_free : Mempool A → Ptr × Mempool A
  unfolding take_item
  take_free m = (m.freeitems, take_item m m.freeitems)

  -- The allocated list loses the item: the head of the list moves on if the item stands there.
  unfoldable pub detach : Mempool A → Ptr → Mempool A
  detach m item =
      let h = unlink m.items item in
      record m {
        items = h;
        allocateditems = if m.allocateditems == item then (h item).next else m.allocateditems;
      }

  unfoldable pub push_free : Mempool A → Ptr → Mempool A
  push_free m item = record m { items = push_front m.items item m.freeitems; freeitems = item }

  -- `allow_dynamic` is RMW_UXRCE_ALLOW_DYNAMIC_ALLOCATIONS. The branch that frees the item returns
  -- before UXR_UNLOCK.
  unfoldable pub put_memory : (allow_dynamic : Bool) → Mempool A → Ptr → Mempool A
  unfolding lock unlock detach push_free
  put_memory allow_dynamic m item =
      let m1 = detach (lock m) item in
      if allow_dynamic && (m1.items item).is_dynamic_memory
      then record m1 { freed = item ∷ (m1.items item).element ∷ m1.freed }
      else unlock (push_free m1 item)

  unfoldable pub set_is_dynamic : Mempool A → Ptr → Bool → Mempool A
  set_is_dynamic m p b = record m {
    items = λ a. if a == p then record (m.items a) { is_dynamic_memory = b } else m.items a;
  }

  -- The two `rmw_allocate` and the initialisation of the new item.
  unfoldable pub allocate_item : Mempool A → Allocation A → Mempool A
  allocate_item m al = record m {
    items = λ a.
        if a == al.item
        then record { prev = null; next = null; element = al.element; is_dynamic_memory = false }
        else m.items a;
    elements = λ a. if a == al.element then al.cleared else m.elements a;
  }

  -- The dynamic branch of `get_memory` up to its call of `get_memory`.
  unfoldable pub grow : Mempool A → Allocation A → Mempool A
  grow m al = set_is_dynamic (put_memory true (allocate_item m al) al.item) al.item true

  -- `get_memory` calls itself once, on fuel here. `some al` means that the build has
  -- RMW_UXRCE_ALLOW_DYNAMIC_ALLOCATIONS and what the allocator would return.
  unfoldable pub get_memory_rounds : ℕ → Option (Allocation A) → Mempool A → Ptr × Mempool A
  get_memory_rounds zero al m = (null, m)
  get_memory_rounds (suc n) al m = elim (has_memory (lock m)).0 [
    | true ↦ let (item, m') = take_free (has_memory (lock m)).1 in (item, unlock m')
    | false ↦ elim al [
      | none ↦ (null, unlock (has_memory (lock m)).1)
      | some a ↦
          if (has_memory (lock m)).1.is_dynamic_allowed
          then (let (item, m') = get_memory_rounds n (some a) (grow (has_memory (lock m)).1 a) in
              (item, unlock m'))
          else (null, unlock (has_memory (lock m)).1)
    ]
  ]

  unfoldable pub get_memory : Option (Allocation A) → Mempool A → Ptr × Mempool A
  unfolding get_memory_rounds grow lock unlock has_memory take_free put_memory set_is_dynamic
      allocate_item
  get_memory = get_memory_rounds 2
