-- ===== src/Topic/Count.antt =====
-- `topic_count` against the lists of the two pools.
use rmw_microxrcedds.Base.{
  ℕ, zero, suc, ◌+◌, ◌<◌, ◌≡◌, ap, ◌∙◌, Bool, true, false, some, List, [], ◌∷◌, arith, ◌==◌,
  if◌then◌else◌, length, Bool-cases, inl, inr,
}
use rmw_microxrcedds.Memory.{Ptr, null, Items}
use rmw_microxrcedds.Memory.Lists.{DList}
use rmw_microxrcedds.Memory.Invariant.{IsPool}
use rmw_microxrcedds.State.{Globals}
use rmw_microxrcedds.Topic.{count_items, publishes, subscribes, topic_count}

-- How many items of a list pass the test.
abbrev pub number : (Ptr → Bool) → List Ptr → ℕ
number test [] = 0
number test (x ∷ xs) = if test x then suc (number test xs) else number test xs

count_items-number :
    (fuel : ℕ) (h : Items) (r p : Ptr) (test : Ptr → Bool) (xs : List Ptr) (count : ℕ)
    → DList h r p xs
    → length xs < fuel
    → count_items fuel h p test count ≡ some (count + number test xs)
unfolding count_items
count_items-number zero h r p test xs count d lt = absurd (omega arith)
count_items-number (suc fuel) h r p test [] count d lt =
    let e : (p == null) ≡ true = ground arith in rw e (ap some (omega arith))
count_items-number (suc fuel) h r p test (x ∷ xs) count (e, ne, _, d) lt =
    let f : (x == null) ≡ false = ground arith in
    let ih : (c : ℕ) → count_items fuel h (h x).next test c ≡ some (c + number test xs) =
      λ c. count_items-number fuel h x (h x).next test xs c d (omega arith) in
    rw (e, f)
      (elim (Bool-cases (test x)) [
        | inl t ↦ rw t (ih (count + 1) ∙ ap some (omega arith))
        | inr t ↦ rw t (ih count)
      ])

module _ {M : Type 0} where
  -- For well linked pools of publishers and subscriptions and more fuel than allocated items:
  -- topic_count ends, and returns how many allocated publishers and subscriptions belong to the
  -- node and have a topic.
  pub topic_count-number :
      (fuel : ℕ) (g : Globals M) (custom_node : Ptr) (pubs pub_idle subs sub_idle : List Ptr)
      → IsPool g.publisher_memory pubs pub_idle
      → IsPool g.subscription_memory subs sub_idle
      → length pubs < fuel
      → length subs < fuel
      → topic_count fuel g custom_node
        ≡ some (number (publishes g custom_node) pubs + number (subscribes g custom_node) subs)
  unfolding topic_count
  topic_count-number fuel g custom_node pubs pub_idle subs sub_idle pis sis plt slt =
      let a =
        count_items-number fuel g.publisher_memory.items null g.publisher_memory.allocateditems
          (publishes g custom_node) pubs 0 pis.allocated plt in
      let b =
        count_items-number fuel g.subscription_memory.items null
          g.subscription_memory.allocateditems (subscribes g custom_node) subs
          (0 + number (publishes g custom_node) pubs) sis.allocated slt in
      rw (topic_count, a) (b ∙ ap some (omega arith))
