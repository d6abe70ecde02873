-- ===== src/Examples/Pools.antt =====
-- The theorems on pools, applied to the pools of the parent.
use rmw_microxrcedds.Base.{ℕ, ◌≡◌, refl, arith, true, false, none, some, [], ◌∷◌}
use rmw_microxrcedds.Memory.{Mempool, Allocation, get_memory, put_memory}
use rmw_microxrcedds.Memory.Keeps.{Keeps}
use rmw_microxrcedds.Memory.Invariant.{IsPool}
use rmw_microxrcedds.Memory.Get.{get_memory-IsPool}
use rmw_microxrcedds.Memory.Put.{put_memory-IsPool, get_memory-put_memory}
use rmw_microxrcedds.Memory.DoublePut.{put_memory-twice}
use rmw_microxrcedds.Memory.Dynamic.{put_memory-dynamic, get_memory-dynamic}
use rmw_microxrcedds.Memory.Init.{init_memory, IsReady, init_memory-IsReady}
use rmw_microxrcedds.Examples.{
  chain_pool, full_pool, zero_pool, chain_pool-IsStatic, full_pool-IsStatic,
}

abbrev five : ℕ
five = 5

get_memory-IsPool_example :
    ((get_memory none (chain_pool five)).0 ≡ 4)
    × IsPool (get_memory none (chain_pool five)).1 (4 ∷ 1 ∷ 2 ∷ 3 ∷ []) []
    × Keeps (chain_pool five) (get_memory none (chain_pool five)).1
get_memory-IsPool_example =
    get_memory-IsPool none (chain_pool five) 4 (1 ∷ 2 ∷ 3 ∷ []) [] (chain_pool-IsStatic five).pool

put_memory-IsPool_example :
    IsPool (put_memory false (chain_pool five) 2) (1 ∷ 3 ∷ []) (2 ∷ 4 ∷ [])
    × Keeps (chain_pool five) (put_memory false (chain_pool five) 2)
put_memory-IsPool_example =
    put_memory-IsPool false (chain_pool five) 2 (1 ∷ []) (3 ∷ []) (4 ∷ [])
      (chain_pool-IsStatic five).pool refl

get_memory-put_memory_example :
    let n = (get_memory none (put_memory false (chain_pool five) 2)).1 in
    ((get_memory none (put_memory false (chain_pool five) 2)).0 ≡ 2)
    × IsPool n (2 ∷ 1 ∷ 3 ∷ []) (4 ∷ [])
    × Keeps (chain_pool five) n
get_memory-put_memory_example =
    get_memory-put_memory false none (chain_pool five) 2 (1 ∷ []) (3 ∷ []) (4 ∷ [])
      (chain_pool-IsStatic five).pool refl

put_memory-twice_example :
    let first = get_memory none (put_memory false (put_memory false (chain_pool five) 2) 2) in
    (first.0 ≡ 2) × ((get_memory none first.1).0 ≡ 2)
put_memory-twice_example = put_memory-twice none (chain_pool five) 2 (omega arith)

abbrev new_item : Allocation ℕ
new_item = record { item = 50; element = 60; cleared = 0 }

get_memory-dynamic_example :
    let n = (get_memory (some new_item) (full_pool five)).1 in
    ((get_memory (some new_item) (full_pool five)).0 ≡ 50)
    × IsPool n (50 ∷ 1 ∷ 2 ∷ 3 ∷ []) []
    × ((n.items 50).element ≡ 60)
    × (n.elements 60 ≡ 0)
    × ((n.items 50).is_dynamic_memory ≡ true)
    × (n.mutex ≡ 0)
get_memory-dynamic_example =
    get_memory-dynamic new_item (full_pool five) (1 ∷ 2 ∷ 3 ∷ []) (full_pool-IsStatic five).pool
      refl (omega arith) refl

-- The chain, with items from `rmw_allocate`.
abbrev dynamic_pool : Mempool ℕ
dynamic_pool = record (chain_pool five) {
  items = λ a. record ((chain_pool five).items a) { is_dynamic_memory = true };
}

dynamic_pool-IsPool : IsPool dynamic_pool (1 ∷ 2 ∷ 3 ∷ []) (4 ∷ [])
dynamic_pool-IsPool = record {
  allocated = (chain_pool-IsStatic five).pool.allocated;
  free = (chain_pool-IsStatic five).pool.free;
  distinct = (chain_pool-IsStatic five).pool.distinct;
}

put_memory-dynamic_example :
    let n = put_memory true dynamic_pool 2 in
    IsPool n (1 ∷ 3 ∷ []) (4 ∷ []) × (n.freed ≡ 2 ∷ 2 ∷ []) × (n.mutex ≡ 1)
put_memory-dynamic_example =
    put_memory-dynamic dynamic_pool 2 (1 ∷ []) (3 ∷ []) (4 ∷ []) dynamic_pool-IsPool refl

init_memory-IsReady_example :
    let n = init_memory false 8 (zero_pool five) 3 in
    IsReady n 3 × ((element_size size : ℕ) → init_memory false element_size n size ≡ n)
init_memory-IsReady_example =
    init_memory-IsReady false 8 (zero_pool five) 3 (λ k. (refl, refl, refl)) refl (omega arith)
