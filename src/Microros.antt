-- ===== src/Microros.antt =====
-- src/rmw_microros: ping.c, time_sync.c, custom_transport.c and continous_serialization.c. What the
-- client library answers for a session is a parameter.
pub mod Ping
use rmw_microxrcedds.Base.{
  ℕ, zero, suc, Bool, true, false, not, ◌&&◌, ◌||◌, Option, none, some, List, [], ◌∷◌, ◌==◌,
  if◌then◌else◌,
}
use rmw_microxrcedds.Memory.{Ptr, null}
use rmw_microxrcedds.State.{Globals, Publisher, Handle}
use rmw_microxrcedds.Handles.{Ret, ok, error, invalid_argument}
use rmw_microxrcedds.Session.{write_element}
use rmw_microxrcedds.Options.{is_null}
use rmw_microxrcedds.Receive.{is_ok, ◌>>=◌}

-- `rmw_uxrce_transport_params_t` of a build for a custom transport; NULL is none.
pub record CustomTransport (F : Type 0) : Type 0 where
  pub framing : Bool
  pub args : Ptr
  pub open_cb : Option F
  pub close_cb : Option F
  pub write_cb : Option F
  pub read_cb : Option F

unfoldable pub rmw_uros_set_custom_transport :
    {F : Type 0} → (given defaults : CustomTransport F) → Ret × CustomTransport F
rmw_uros_set_custom_transport given defaults =
    if not (is_null given.open_cb)
      && not (is_null given.close_cb)
      && not (is_null given.write_cb)
      && not (is_null given.read_cb)
    then (ok, given)
    else (invalid_argument, defaults)

module _ {M : Type 0} where
  unfoldable pub rmw_uros_set_continous_serialization_callbacks :
      Globals M → (publisher : Handle) → Option (ℕ → ℕ) → Option (List ℕ → List ℕ) → Globals M
  rmw_uros_set_continous_serialization_callbacks g publisher size_cb serialization_cb =
      let p = publisher.element in
      record g {
        publisher_memory =
            write_element g.publisher_memory p (record (g.publisher_memory.elements p) {
              cs_cb_size = size_cb;
              cs_cb_serialization = serialization_cb;
            });
      }

  -- The context of the first session, or none.
  abbrev pub first_context : Globals M → Option Ptr
  first_context g =
      let item = g.session_memory.allocateditems in
      if item == null then none else some (g.session_memory.items item).element

  -- What `session.synchronized`, `uxr_epoch_millis`, `uxr_epoch_nanos` and `uxr_sync_session` give
  -- for a context.
  unfoldable pub rmw_uros_epoch_synchronized : (synchronized : Ptr → Bool) → Globals M → Bool
  rmw_uros_epoch_synchronized synchronized g = elim (first_context g) [
    | none ↦ false
    | some context ↦ synchronized context
  ]

  unfoldable pub rmw_uros_epoch_millis : (uxr_epoch_millis : Ptr → ℕ) → Globals M → ℕ
  rmw_uros_epoch_millis uxr_epoch_millis g = elim (first_context g) [
    | none ↦ 0
    | some context ↦ uxr_epoch_millis context
  ]

  unfoldable pub rmw_uros_epoch_nanos : (uxr_epoch_nanos : Ptr → ℕ) → Globals M → ℕ
  rmw_uros_epoch_nanos uxr_epoch_nanos g = elim (first_context g) [
    | none ↦ 0
    | some context ↦ uxr_epoch_nanos context
  ]

  unfoldable pub rmw_uros_sync_session :
      (uxr_sync_session : Ptr → (timeout_ms : ℕ) → Bool) → Globals M → (timeout_ms : ℕ) → Ret
  rmw_uros_sync_session uxr_sync_session g timeout_ms = elim (first_context g) [
    | none ↦ error
    | some context ↦ if uxr_sync_session context timeout_ms then ok else error
  ]

  -- The loop of `rmw_uros_ping_agent` from an item on: whether an agent has answered, and the
  -- contexts that were asked. `none` means that the fuel ran out.
  unfoldable pub ping_sessions :
      (fuel : ℕ)
      → (uxr_ping_agent_attempts : Ptr → Bool) → Globals M
      → (item : Ptr) → Option (Bool × List Ptr)
  ping_sessions zero ping g item = none
  ping_sessions (suc fuel) ping g item =
      let context = (g.session_memory.items item).element in
      let next = (g.session_memory.items item).next in
      let rest = ping_sessions fuel ping g next >>= (λ r. some (r.0, context ∷ r.1)) in
      if not (next == null) && not (ping context) then rest else some (ping context, context ∷ [])

  -- `transport_init` is the result of `rmw_uxrce_transport_init` and `ping` that of
  -- `uxr_ping_agent_attempts`, for the time and the attempts that were given; without a session the
  -- agent is pinged over a transport of its own.
  unfoldable pub rmw_uros_ping_agent :
      (fuel : ℕ)
      → (transport_init : Ret) → (ping_transport : Bool) → (uxr_ping_agent_attempts : Ptr → Bool)
      → Globals M
      → Option (Ret × List Ptr)
  unfolding ping_sessions
  rmw_uros_ping_agent fuel transport_init ping_transport ping g =
      if g.session_memory.allocateditems == null
      then (if not (is_ok transport_init)
          then some (transport_init, [])
          else some (if ping_transport then ok else error, []))
      else (do
        (success, asked) ← ping_sessions fuel ping g g.session_memory.allocateditems
        some (if success then ok else error, asked))
