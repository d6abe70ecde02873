-- ===== src/Init/Steps.antt =====
-- rmw_init against the pool of sessions: which item it takes, and what happens to the pool.
use rmw_microxrcedds.Base.{
  ◌≡◌, refl, Bool-cases, inl, inr, false, none, some, List, [], ◌∷◌, arith, ◌==◌,
}
use rmw_microxrcedds.Memory.{Ptr, null, get_memory}
use rmw_microxrcedds.Memory.Static.{IsStatic, get_memory-IsStatic}
use rmw_microxrcedds.Memory.Get.{get_memory-exhausted}
use rmw_microxrcedds.State.{Globals}
use rmw_microxrcedds.Topic.Life.{write_element-IsStatic}
use rmw_microxrcedds.Handles.{error}
use rmw_microxrcedds.Receive.{is_ok}
use rmw_microxrcedds.Options.{TransportParams}
use rmw_microxrcedds.Init.{
  Arrays, ClientLibrary, RmwContext, World, init_first_pools, init_other_pools, zero_counters,
  set_session, open_session, connect, init_context,
}

module _ {M : Type 0} (client : ClientLibrary) (arrays : Arrays) (params : TransportParams)
    (context : RmwContext) (w : World M) where
  -- The pool of sessions before and after an item was taken from it.
  abbrev pub before_session : Globals M
  before_session = init_first_pools arrays w.globals

  -- The state in which the transport is opened, when `f` is the item that was taken.
  abbrev pub after_pools : (f : Ptr) → Globals M
  after_pools f =
      let sessions = (get_memory none before_session.session_memory).1 in
      init_other_pools arrays (
        set_session (record before_session { session_memory = sessions }) f
          (zero_counters (sessions.elements f)))

  pub init_context-taken :
      (f : Ptr) (used idle : List Ptr)
      → IsStatic before_session.session_memory used (f ∷ idle)
      → init_context client arrays params context w ≡ (
        (
          (connect client params (record w { globals = after_pools f }) f).0,
          record context { impl = some f },
        ),
        (connect client params (record w { globals = after_pools f }) f).1,
      )
  unfolding init_context
  init_context-taken f used idle is =
      let t = get_memory-IsStatic before_session.session_memory f used idle is in
      let ne : (f == null) ≡ false = ground (arith, is.pool.free.1) in
      let own : ((get_memory none before_session.session_memory).1.items f).element ≡ f =
        t.1.own f (ground arith) in
      rw (t.0, ne, own) refl

  pub init_context-full :
      (used : List Ptr)
      → IsStatic before_session.session_memory used []
      → init_context client arrays params context w
        ≡ ((error, context), record w { globals = before_session })
  unfolding init_context
  init_context-full used is =
      rw (get_memory-exhausted none before_session.session_memory used is.pool (inl refl)) refl

  pub after_pools-IsStatic :
      (f : Ptr) (used idle : List Ptr)
      → IsStatic before_session.session_memory used (f ∷ idle)
      → IsStatic (after_pools f).session_memory (f ∷ used) idle
  unfolding init_other_pools
  after_pools-IsStatic f used idle is =
      write_element-IsStatic _ f _ (f ∷ used) idle
        (get_memory-IsStatic before_session.session_memory f used idle is).1

  pub after_pools-initialized :
      (f : Ptr) (used idle : List Ptr)
      → IsStatic before_session.session_memory used (f ∷ idle)
      → (after_pools f).session_memory.is_initialized ≡ before_session.session_memory.is_initialized
  unfolding init_other_pools
  after_pools-initialized f used idle is =
      (get_memory-IsStatic before_session.session_memory f used idle is).2.initialized

module _ {M : Type 0} (client : ClientLibrary) (params : TransportParams) (w : World M)
    (p : Ptr) where
  -- Connecting changes an element of the pool at most.
  pub connect-IsStatic :
      (used idle : List Ptr)
      → IsStatic w.globals.session_memory used idle
      → IsStatic (connect client params w p).1.globals.session_memory used idle
  unfolding connect open_session
  connect-IsStatic used idle is = elim (Bool-cases (is_ok (client.transport_init params))) [
    | inr no' ↦ rw (connect, no') is
    | inl up ↦ elim (Bool-cases client.uxr_create_session) [
      | inr no' ↦ rw (connect, up, no') (write_element-IsStatic _ p _ used idle is)
      | inl yes' ↦ rw (connect, up, yes') (write_element-IsStatic _ p _ used idle is)
    ]
  ]
