-- ===== src/Wait.antt =====
-- src/rmw_wait.c. The session is run by the client library, which calls the callbacks of Receive.
pub mod Timeout
pub mod Ready
pub mod Guards
use rmw_microxrcedds.Base.{
  ℕ, ◌+◌, ◌-◌, ◌*◌, ◌/◌, ◌%◌, ◌^◌, Bool, true, false, ◌||◌, Option, none, some, List, [], ◌∷◌, ◌==◌,
  ltb, leb, if◌then◌else◌,
}
use rmw_microxrcedds.Memory.{Ptr, null, Mempool}
use rmw_microxrcedds.Types.{StaticInputBuffer, Owner, subscription, service, client}
use rmw_microxrcedds.State.{Globals}
use rmw_microxrcedds.Buffers.{find_static_input_buffer_by_owner}
use rmw_microxrcedds.Receive.{◌>>=◌}
use rmw_microxrcedds.Handles.{Ret, ok, timeout}

-- `rmw_time_t`
pub record Time : Type 0 where
  pub sec : ℕ
  pub nsec : ℕ

abbrev pub uint64_max : ℕ
uint64_max = 2 ^ 64 - 1

-- INT_MAX, where `int` has 32 bits
abbrev pub int_max : ℕ
int_max = 2 ^ 31 - 1

-- The first part of `rmw_wait`, in milliseconds. `infinite` is UXR_TIMEOUT_INF of the client
-- library, as a `uint64_t`.
unfoldable pub wait_milliseconds : (infinite : ℕ) → Option Time → ℕ
wait_milliseconds infinite none = infinite
wait_milliseconds infinite (some t) =
    let timeout = t.sec * 1000 % 2 ^ 64 in
    let timeout_ms = t.nsec / 1_000_000 in
    let sum = (timeout + timeout_ms) % 2 ^ 64 in
    if leb (uint64_max / 1000) t.sec
    then int_max
    else if leb (uint64_max - timeout) timeout_ms
    then int_max
    else if ltb int_max sum
    then int_max
    else sum

-- The loop over the subscriptions, services or clients: those without a sample become NULL.
unfoldable pub check_owners :
    (fuel : ℕ)
    → Mempool StaticInputBuffer
    → (owner : Ptr → Owner) → List Ptr
    → Option (List Ptr × Bool)
check_owners fuel m owner [] = some ([], false)
check_owners fuel m owner (p ∷ ps) = do
  item ← find_static_input_buffer_by_owner fuel m (owner p)
  (rest, buffered) ← check_owners fuel m owner ps
  some (if item == null then (null ∷ rest, buffered) else (p ∷ rest, true))

-- The loop over the guard conditions: those that have not been triggered become NULL, and the
-- others are reset. The flags are memory, since one condition may stand in the list twice.
unfoldable pub check_guards : (triggered : Ptr → Bool) → List Ptr → List Ptr × Bool × (Ptr → Bool)
check_guards triggered [] = ([], false, triggered)
check_guards triggered (p ∷ ps) =
    let reset = check_guards (λ a. if a == p then false else triggered a) ps in
    let kept = check_guards triggered ps in
    if triggered p then (p ∷ reset.0, true, reset.2) else (null ∷ kept.0, kept.1, kept.2)

-- What is left in the four arrays, the flags, and the return code.
pub record Waited : Type 0 where
  pub services : List Ptr
  pub clients : List Ptr
  pub subscriptions : List Ptr
  pub guard_conditions : List Ptr
  pub triggered : Ptr → Bool
  pub ret : Ret

-- The part of `rmw_wait` after the sessions were run. An array that is NULL is empty.
unfoldable pub collect :
    {M : Type 0}
    → (fuel : ℕ) → Globals M
    → (triggered : Ptr → Bool) → (services clients subscriptions guard_conditions : List Ptr)
    → Option Waited
unfolding check_owners check_guards
collect fuel g triggered services clients subscriptions guard_conditions = do
  let m = g.static_buffer_memory
  (left_services, some_service) ← check_owners fuel m service services
  (left_clients, some_client) ← check_owners fuel m client clients
  (left_subscriptions, some_subscription) ← check_owners fuel m subscription subscriptions
  let guards = check_guards triggered guard_conditions
  some (record {
    services = left_services;
    clients = left_clients;
    subscriptions = left_subscriptions;
    guard_conditions = guards.0;
    triggered = guards.2;
    ret = if some_service || some_client || some_subscription || guards.1 then ok else timeout;
  })
