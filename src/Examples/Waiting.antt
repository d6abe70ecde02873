-- ===== src/Examples/Waiting.antt =====
-- The theorems on waiting, applied to the state of the parent.
use rmw_microxrcedds.Base.{◌≡◌, refl, arith, Bool, true, false, ◌==◌, some, [], ◌∷◌}
use rmw_microxrcedds.Memory.{Ptr}
use rmw_microxrcedds.Types.{owner_eq}
use rmw_microxrcedds.Buffers.Mailbox.{mailbox}
use rmw_microxrcedds.Handles.{ok, rmw_get_implementation_identifier, is_uxrce_rmw_identifier_valid}
use rmw_microxrcedds.Wait.Guards.{
  GuardCondition, Guards, rmw_trigger_guard_condition, rmw_trigger_guard_condition-collect,
}
use rmw_microxrcedds.Wait.{Waited, Time, int_max, wait_milliseconds, check_guards, collect}
use rmw_microxrcedds.Wait.Timeout.{wait_milliseconds-minimum}
use rmw_microxrcedds.Wait.Ready.{collect-ready}
use rmw_microxrcedds.Examples.{chain_pool-IsStatic, a_buffer, state}

-- A year.
abbrev year : Time
year = record { sec = 31_536_000; nsec = 5_000_000 }

wait_milliseconds-minimum_example : wait_milliseconds 7 (some year) ≡ int_max
wait_milliseconds-minimum_example = wait_milliseconds-minimum 7 year (omega arith) (omega arith)

-- Of the conditions, 21 was triggered.
abbrev flags : Ptr → Bool
flags a = a == 21

-- Samples wait for the second subscription only.
collect-ready_example :
    collect 4 state flags (1 ∷ []) [] (1 ∷ 2 ∷ 3 ∷ []) (20 ∷ 21 ∷ [])
    ≡ some (record {
      services = 0 ∷ [];
      clients = [];
      subscriptions = 0 ∷ 2 ∷ 0 ∷ [];
      guard_conditions = 0 ∷ 21 ∷ [];
      triggered = (check_guards flags (20 ∷ 21 ∷ [])).2;
      ret = ok;
    })
unfolding mailbox owner_eq check_guards
collect-ready_example =
    collect-ready 4 state (1 ∷ 2 ∷ 3 ∷ []) (4 ∷ []) (chain_pool-IsStatic a_buffer) (omega arith)
      flags (1 ∷ []) [] (1 ∷ 2 ∷ 3 ∷ []) (20 ∷ 21 ∷ [])

abbrev a_guard : GuardCondition
a_guard = record {
  context = 1;
  implementation_identifier = rmw_get_implementation_identifier;
  has_triggered = 20;
}

abbrev guards : Guards
guards = record { conditions = λ a. some a_guard; triggered = λ a. false }

valid : is_uxrce_rmw_identifier_valid a_guard.implementation_identifier ≡ true
unfolding is_uxrce_rmw_identifier_valid
valid = refl

rmw_trigger_guard_condition-collect_example :
    let r = rmw_trigger_guard_condition guards (some a_guard) in
    (w : Waited) × (r.0 ≡ ok)
    × (collect 4 state r.1.triggered [] [] (1 ∷ []) (21 ∷ 20 ∷ []) ≡ some w)
    × (w.ret ≡ ok)
    × (w.triggered 20 ≡ false)
rmw_trigger_guard_condition-collect_example =
    rmw_trigger_guard_condition-collect 4 state (1 ∷ 2 ∷ 3 ∷ []) (4 ∷ [])
      (chain_pool-IsStatic a_buffer) (omega arith) guards a_guard [] [] (1 ∷ []) (21 ∷ 20 ∷ [])
      valid refl
