-- ===== src/Examples/Destroying.antt =====
-- The theorem on the loop of rmw_destroy_node, applied to three publishers of two nodes.
use rmw_microxrcedds.Base.{
  ℕ, ◌+◌, ◌-◌, ◌≡◌, refl, arith, true, some, List, [], ◌∷◌, ◌==◌, if◌then◌else◌,
}
use rmw_microxrcedds.Memory.Static.{IsStatic}
use rmw_microxrcedds.State.{Globals}
use rmw_microxrcedds.Handles.{Ret, ok, is_uxrce_rmw_identifier_valid}
use rmw_microxrcedds.Entities.Nodes.{destroy_publishers}
use rmw_microxrcedds.Entities.Nodes.Publishing.{HaveHandles, destroy_publishers-others}
use rmw_microxrcedds.Examples.{chain_pool, a_publisher, handle, state}

-- The handle of publisher `p` stands at 100 + p, and only the second one belongs to node 1.
abbrev busy : Globals (List ℕ)
busy = record (state) {
  publisher_memory = record (chain_pool a_publisher) {
    elements =
        λ a. record (a_publisher) { rmw_handle = a + 100; owner_node = if a == 2 then 1 else 7 };
  };
  handles = λ p. some (record (handle) { element = p - 100 });
}

valid : is_uxrce_rmw_identifier_valid handle.implementation_identifier ≡ true
unfolding is_uxrce_rmw_identifier_valid
valid = refl

busy-HaveHandles : HaveHandles busy (1 ∷ 2 ∷ 3 ∷ [])
busy-HaveHandles a i = record {
  handle = record (handle) { element = a + 100 - 100 };
  known = refl;
  valid = valid;
  at = omega arith;
}

busy-IsStatic : IsStatic busy.publisher_memory (1 ∷ 2 ∷ 3 ∷ []) (4 ∷ [])
busy-IsStatic = record {
  pool = record {
    allocated =
        (refl, omega arith, refl, (refl, omega arith, refl, (refl, omega arith, refl, refl)));
    free = (refl, omega arith, refl, refl);
    distinct = (refl, (refl, (refl, (refl, tt))));
  };
  own = λ a i. refl;
  static = λ a i. refl;
}

destroy_publishers-others_example :
    (r : Ret) × (g' : Globals (List ℕ)) × (destroy_publishers 4 handle busy ok ≡ some (r, g'))
    × IsStatic g'.publisher_memory (1 ∷ 3 ∷ []) (2 ∷ 4 ∷ [])
    × HaveHandles g' (1 ∷ 3 ∷ [])
destroy_publishers-others_example =
    destroy_publishers-others handle valid (omega arith) 4 busy (1 ∷ 2 ∷ 3 ∷ []) (4 ∷ []) ok
      busy-IsStatic busy-HaveHandles (omega arith)
