-- ===== src/Wait/Guards.antt =====
-- src/rmw_guard_condition.c and src/rmw_trigger_guard_condition.c, and how a triggered condition
-- ends the waiting.
use Prim.Native.String.{String}
use rmw_microxrcedds.Base.{
  ◌<◌, ◌≡◌, refl, ap, ◌∙◌, Bool, Bool-cases, inl, inr, true, false, not, ◌||◌, Option, none, some,
  List, [], ◌∷◌, ◌==◌, ℕ, length, has, eq_of_==, arith, if◌then◌else◌,
}
use rmw_microxrcedds.Memory.{Ptr, null}
use rmw_microxrcedds.Memory.Static.{IsStatic}
use rmw_microxrcedds.State.{Globals}
use rmw_microxrcedds.Handles.{
  Ret, ok, error, rmw_get_implementation_identifier, is_uxrce_rmw_identifier_valid,
}
use rmw_microxrcedds.Wait.{Waited, check_guards, collect}
use rmw_microxrcedds.Types.{service, client, subscription}
use rmw_microxrcedds.Wait.Ready.{any_ready, check_guards-reset, collect-ready}

-- `rmw_guard_condition_t`; `has_triggered` is its field `data`, which points to the flag.
pub record GuardCondition : Type 0 where
  pub context : Ptr
  pub implementation_identifier : Option String
  pub has_triggered : Ptr

-- The guard conditions that were given to the user, and their flags.
pub record Guards : Type 0 where
  pub conditions : Ptr → Option GuardCondition
  pub triggered : Ptr → Bool

-- `handle` and `flag` are what the two calls of `rmw_allocate` return; none is a write through NULL.
unfoldable pub rmw_create_guard_condition :
    (handle flag : Ptr) → Guards → (context : Ptr) → Option (Ptr × Guards)
rmw_create_guard_condition handle flag g context =
    if (handle == null) || (flag == null)
    then none
    else some (
      handle,
      record {
        conditions = λ a.
            if a == handle
            then some (record {
              context = context;
              implementation_identifier = rmw_get_implementation_identifier;
              has_triggered = flag;
            })
            else g.conditions a;
        triggered = λ a. if a == flag then false else g.triggered a;
      },
    )

-- The flag is not freed.
unfoldable pub rmw_destroy_guard_condition : Guards → (guard_condition : Ptr) → Ret × Guards
rmw_destroy_guard_condition g guard_condition =
    (ok, record g { conditions = λ a. if a == guard_condition then none else g.conditions a })

unfoldable pub rmw_trigger_guard_condition :
    Guards → (guard_condition : Option GuardCondition) → Ret × Guards
rmw_trigger_guard_condition g none = (error, g)
rmw_trigger_guard_condition g (some c) =
    if not (is_uxrce_rmw_identifier_valid c.implementation_identifier)
    then (error, g)
    else (ok, record g { triggered = λ a. if a == c.has_triggered then true else g.triggered a })

-- A triggered condition of the array is noticed.
check_guards-has :
    (triggered : Ptr → Bool) (ps : List Ptr) (a : Ptr)
    → has a ps ≡ true
    → triggered a ≡ true
    → (check_guards triggered ps).1 ≡ true
unfolding check_guards
check_guards-has triggered [] a i on = absurd cc
check_guards-has triggered (p ∷ ps) a i on = elim (Bool-cases (triggered p)) [
  | inl yes' ↦ rw yes' refl
  | inr no' ↦ rw no' (elim (Bool-cases (a == p)) [
    | inl e ↦ absurd (let s : triggered a ≡ triggered p = ap triggered (eq_of_== a p e) in cc)
    | inr e ↦ check_guards-has triggered ps a (ground arith) on
  ])
]

-- The flags with that of the condition set.
abbrev set_flag : Guards → GuardCondition → Ptr → Bool
set_flag guards c a = if a == c.has_triggered then true else guards.triggered a

rmw_trigger_guard_condition-valid :
    (guards : Guards) (c : GuardCondition)
    → is_uxrce_rmw_identifier_valid c.implementation_identifier ≡ true
    → ((rmw_trigger_guard_condition guards (some c)).0 ≡ ok)
      × ((rmw_trigger_guard_condition guards (some c)).1.triggered ≡ set_flag guards c)
unfolding rmw_trigger_guard_condition
rmw_trigger_guard_condition-valid guards c valid = (rw valid refl, rw valid refl)

module _ {M : Type 0} (fuel : ℕ) (g : Globals M) (used idle : List Ptr)
    (is : IsStatic g.static_buffer_memory used idle) (lt : length used < fuel) where
  -- For a well formed pool of buffers, more fuel than allocated buffers, a guard condition of
  -- this implementation, and an array that has it: after rmw_trigger_guard_condition the part of
  -- rmw_wait behind the sessions ends with RMW_RET_OK, and the condition is then no longer
  -- triggered.
  pub rmw_trigger_guard_condition-collect :
      (guards : Guards) (c : GuardCondition)
      (services clients subscriptions guard_conditions : List Ptr)
      → is_uxrce_rmw_identifier_valid c.implementation_identifier ≡ true
      → has c.has_triggered guard_conditions ≡ true
      → let r = rmw_trigger_guard_condition guards (some c) in
        (w : Waited) × (r.0 ≡ ok)
        × (collect fuel g r.1.triggered services clients subscriptions guard_conditions ≡ some w)
        × (w.ret ≡ ok)
        × (w.triggered c.has_triggered ≡ false)
  rmw_trigger_guard_condition-collect guards c services clients subscriptions guard_conditions valid
        i =
      let on = set_flag guards c in
      let self : on c.has_triggered ≡ true = ground arith in
      let seen = check_guards-has on guard_conditions c.has_triggered i self in
      let off : (check_guards on guard_conditions).2 c.has_triggered ≡ false =
        check_guards-reset on guard_conditions c.has_triggered ∙ ground arith in
      let e = rmw_trigger_guard_condition-valid guards c valid in
      let m = g.static_buffer_memory in
      let some_entity =
        any_ready m used service services
        || any_ready m used client clients
        || any_ready m used subscription subscriptions in
      (
        _,
        e.0,
        ap (λ t. collect fuel g t services clients subscriptions guard_conditions) e.1
            ∙ collect-ready fuel g used idle is lt on services clients subscriptions
                guard_conditions,
        rw seen (let t : (some_entity || true) ≡ true = ground arith in rw t refl),
        off,
      )
