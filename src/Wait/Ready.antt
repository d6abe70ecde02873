-- ===== src/Wait/Ready.antt =====
-- Which entities `rmw_wait` keeps.
use rmw_microxrcedds.Base.{
  ℕ, ◌<◌, ◌≡◌, refl, ap, ◌∙◌, Bool, true, false, ◌||◌, some, List, [], ◌∷◌, arith, ◌==◌,
  if◌then◌else◌, length, Bool-cases, inl, inr, not, ◌&&◌, has, eq_of_==,
}
use rmw_microxrcedds.Memory.{Ptr, null, Mempool}
use rmw_microxrcedds.Memory.Static.{IsStatic}
use rmw_microxrcedds.Types.{StaticInputBuffer, Owner}
use rmw_microxrcedds.Buffers.{find_static_input_buffer_by_owner}
use rmw_microxrcedds.Buffers.Mailbox.{mailbox}
use rmw_microxrcedds.Buffers.Taken.{Search, missing, present, find-Search}
use rmw_microxrcedds.State.{Globals}
use rmw_microxrcedds.Types.{subscription, service, client}
use rmw_microxrcedds.Handles.{ok, timeout}
use rmw_microxrcedds.Wait.{check_owners, check_guards, collect}

abbrev pub is_empty : List StaticInputBuffer → Bool
is_empty [] = true
is_empty (b ∷ bs) = false

-- Those whose mailbox is empty become NULL.
abbrev pub ready : Mempool StaticInputBuffer → List Ptr → (Ptr → Owner) → List Ptr → List Ptr
ready m used owner [] = []
ready m used owner (p ∷ ps) =
    (if is_empty (mailbox m used (owner p)) then null else p) ∷ ready m used owner ps

abbrev pub any_ready : Mempool StaticInputBuffer → List Ptr → (Ptr → Owner) → List Ptr → Bool
any_ready m used owner [] = false
any_ready m used owner (p ∷ ps) =
    if is_empty (mailbox m used (owner p)) then any_ready m used owner ps else true

module _ (fuel : ℕ) (m : Mempool StaticInputBuffer) (used idle : List Ptr)
    (is : IsStatic m used idle) (lt : length used < fuel) where
  find-is_empty :
      (o : Owner)
      → (x : Ptr) × (find_static_input_buffer_by_owner fuel m o ≡ some x)
        × ((x == null) ≡ is_empty (mailbox m used o))
  find-is_empty o = go (find-Search fuel m used idle o is lt)
    where
      go :
          Search m used idle o (find_static_input_buffer_by_owner fuel m o)
          → (x : Ptr) × (find_static_input_buffer_by_owner fuel m o ≡ some x)
            × ((x == null) ≡ is_empty (mailbox m used o))
      go (missing e empty) = (null, e, rw empty refl)
      go (present x e ne t) = (x, e, rw t.taken ne)

  -- The loop ends.
  pub check_owners-ready :
      (owner : Ptr → Owner) (ps : List Ptr)
      → check_owners fuel m owner ps ≡ some (ready m used owner ps, any_ready m used owner ps)
  unfolding check_owners
  check_owners-ready owner [] = refl
  check_owners-ready owner (p ∷ ps) =
      let (x, e, n) = find-is_empty (owner p) in
      rw (e, check_owners-ready owner ps)
        (rw n (elim (Bool-cases (is_empty (mailbox m used (owner p)))) [
          | inl y ↦ rw y refl
          | inr y ↦ rw y refl
        ]))

-- The loop of rmw_wait over the guard conditions resets every triggered condition of the array,
-- and leaves the flags of all others as they were.
pub check_guards-reset :
    (triggered : Ptr → Bool) (ps : List Ptr) (a : Ptr)
    → (check_guards triggered ps).2 a ≡ (triggered a && not (has a ps))
unfolding check_guards
check_guards-reset triggered [] a = ground arith
check_guards-reset triggered (p ∷ ps) a = elim (Bool-cases (triggered p)) [
  | inl yes' ↦
      rw yes' (check_guards-reset (λ c. if c == p then false else triggered c) ps a ∙ ground arith)
  | inr no' ↦ rw no' (
      check_guards-reset triggered ps a ∙ elim (Bool-cases (a == p)) [
        | inl e ↦
            let off : triggered a ≡ false = ap triggered (eq_of_== a p e) ∙ no' in ground arith
        | inr e ↦ ground arith
      ])
]

module _ {M : Type 0} (fuel : ℕ) (g : Globals M) (used idle : List Ptr)
    (is : IsStatic g.static_buffer_memory used idle) (lt : length used < fuel) where
  -- For a well formed pool of buffers and more fuel than allocated buffers: after the sessions
  -- were run rmw_wait ends, leaves in the arrays exactly the services, clients and subscriptions
  -- whose mailbox is not empty, NULL standing for each of the others, treats the guard conditions
  -- by its loop over them, and returns RMW_RET_OK if an entity has a sample or that loop found a
  -- triggered condition, and RMW_RET_TIMEOUT otherwise.
  pub collect-ready :
      (triggered : Ptr → Bool) (services clients subscriptions guards : List Ptr)
      → let m = g.static_buffer_memory in
        collect fuel g triggered services clients subscriptions guards
        ≡ some (record {
          services = ready m used service services;
          clients = ready m used client clients;
          subscriptions = ready m used subscription subscriptions;
          guard_conditions = (check_guards triggered guards).0;
          triggered = (check_guards triggered guards).2;
          ret =
              if any_ready m used service services
                || any_ready m used client clients
                || any_ready m used subscription subscriptions
                || (check_guards triggered guards).1
              then ok
              else timeout;
        })
  unfolding collect
  collect-ready triggered services clients subscriptions guards =
      let m = g.static_buffer_memory in
      rw
        (
          collect,
          check_owners-ready fuel m used idle is lt service services,
          check_owners-ready fuel m used idle is lt client clients,
          check_owners-ready fuel m used idle is lt subscription subscriptions,
        )
        refl
