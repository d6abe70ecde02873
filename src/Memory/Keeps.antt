-- ===== src/Memory/Keeps.antt =====
-- What the pool's functions leave alone.
use rmw_microxrcedds.Base.{◌≡◌, refl, ◌∙◌, arith}
use rmw_microxrcedds.Memory.{
  Ptr, Items, Mempool, set_prev, set_next, back_link, forward_link, push_front, unlink, lock,
  unlock, take_item, detach, push_free,
}

-- Every lock has been given back, the elements are as they were and nothing was freed; the items
-- keep their elements and their kind.
pub record Keeps {A : Type 0} (m n : Mempool A) : Type 0 where
  pub mutex : n.mutex ≡ m.mutex
  pub element_size : n.element_size ≡ m.element_size
  pub initialized : n.is_initialized ≡ m.is_initialized
  pub dynamic_allowed : n.is_dynamic_allowed ≡ m.is_dynamic_allowed
  pub elements : n.elements ≡ m.elements
  pub freed : n.freed ≡ m.freed
  pub element : (a : Ptr) → (n.items a).element ≡ (m.items a).element
  pub dynamic : (a : Ptr) → (n.items a).is_dynamic_memory ≡ (m.items a).is_dynamic_memory

module _ (h : Items) (p q a : Ptr) where
  set_prev-element : (set_prev h p q a).element ≡ (h a).element
  unfolding set_prev
  set_prev-element = ground arith

  set_prev-dynamic : (set_prev h p q a).is_dynamic_memory ≡ (h a).is_dynamic_memory
  unfolding set_prev
  set_prev-dynamic = ground arith

  set_next-element : (set_next h p q a).element ≡ (h a).element
  unfolding set_next
  set_next-element = ground arith

  set_next-dynamic : (set_next h p q a).is_dynamic_memory ≡ (h a).is_dynamic_memory
  unfolding set_next
  set_next-dynamic = ground arith

  back_link-element : (back_link h p q a).element ≡ (h a).element
  unfolding back_link
  back_link-element = ground (arith, set_prev-element)

  back_link-dynamic : (back_link h p q a).is_dynamic_memory ≡ (h a).is_dynamic_memory
  unfolding back_link
  back_link-dynamic = ground (arith, set_prev-dynamic)

  forward_link-element : (forward_link h p q a).element ≡ (h a).element
  unfolding forward_link
  forward_link-element = ground (arith, set_next-element)

  forward_link-dynamic : (forward_link h p q a).is_dynamic_memory ≡ (h a).is_dynamic_memory
  unfolding forward_link
  forward_link-dynamic = ground (arith, set_next-dynamic)

ruleset kept_fields = (
  set_prev-element, set_prev-dynamic, set_next-element, set_next-dynamic, back_link-element,
  back_link-dynamic, forward_link-element, forward_link-dynamic,
)

module _ {A : Type 0} where
  pub Keeps-refl : (m : Mempool A) → Keeps m m
  Keeps-refl m = record {
    mutex = refl;
    element_size = refl;
    initialized = refl;
    dynamic_allowed = refl;
    elements = refl;
    freed = refl;
    element = λ a. refl;
    dynamic = λ a. refl;
  }

  pub Keeps-trans : {l m n : Mempool A} → Keeps l m → Keeps m n → Keeps l n
  Keeps-trans j k = record {
    mutex = k.mutex ∙ j.mutex;
    element_size = k.element_size ∙ j.element_size;
    initialized = k.initialized ∙ j.initialized;
    dynamic_allowed = k.dynamic_allowed ∙ j.dynamic_allowed;
    elements = k.elements ∙ j.elements;
    freed = k.freed ∙ j.freed;
    element = λ a. k.element a ∙ j.element a;
    dynamic = λ a. k.dynamic a ∙ j.dynamic a;
  }

  pub take_item-Keeps : (m : Mempool A) (x : Ptr) → Keeps m (take_item m x)
  unfolding take_item push_front
  take_item-Keeps m x = record {
    mutex = refl;
    element_size = refl;
    initialized = refl;
    dynamic_allowed = refl;
    elements = refl;
    freed = refl;
    element = λ a. simp kept_fields;
    dynamic = λ a. simp kept_fields;
  }

  pub detach-Keeps : (m : Mempool A) (x : Ptr) → Keeps m (detach m x)
  unfolding detach unlink
  detach-Keeps m x = record {
    mutex = refl;
    element_size = refl;
    initialized = refl;
    dynamic_allowed = refl;
    elements = refl;
    freed = refl;
    element = λ a. simp kept_fields;
    dynamic = λ a. simp kept_fields;
  }

  pub push_free-Keeps : (m : Mempool A) (x : Ptr) → Keeps m (push_free m x)
  unfolding push_free push_front
  push_free-Keeps m x = record {
    mutex = refl;
    element_size = refl;
    initialized = refl;
    dynamic_allowed = refl;
    elements = refl;
    freed = refl;
    element = λ a. simp kept_fields;
    dynamic = λ a. simp kept_fields;
  }

  -- A section under the lock.
  pub locked-Keeps : (m n : Mempool A) → Keeps (lock m) n → Keeps m (unlock n)
  unfolding lock unlock
  locked-Keeps m n k = record {
    mutex = omega (arith, k.mutex);
    element_size = k.element_size;
    initialized = k.initialized;
    dynamic_allowed = k.dynamic_allowed;
    elements = k.elements;
    freed = k.freed;
    element = k.element;
    dynamic = k.dynamic;
  }
