-- ===== src/Init/Lost.antt =====
-- What is lost when rmw_init fails after it took a session.
use rmw_microxrcedds.Base.{
  ℕ, zero, suc, ◌≡◌, refl, sym, ap, subst, ◌∙◌, Bool-cases, inl, inr, true, false, ◌&&◌, some, List,
  [], ◌∷◌, length,
}
use rmw_microxrcedds.Memory.{Ptr}
use rmw_microxrcedds.Memory.Init.{init_memory-again}
use rmw_microxrcedds.Memory.Static.{IsStatic}
use rmw_microxrcedds.Handles.{error, eprosima_microxrcedds_identifier}
use rmw_microxrcedds.Receive.{is_ok}
use rmw_microxrcedds.Options.{RmwInitOptions, TransportParams, Platform}
use rmw_microxrcedds.Init.{
  Arrays, ClientLibrary, RmwContext, zero_context, fill_context, World, init_first_pools,
  open_session, connect, init_context, rmw_init,
}
use rmw_microxrcedds.Init.Steps.{
  before_session, after_pools, init_context-taken, init_context-full, after_pools-IsStatic,
  after_pools-initialized, connect-IsStatic,
}

module _ {M : Type 0} where
  -- The pool of sessions was initialised, `used` are its allocated and `idle` its free items.
  pub record HasSessions (w : World M) (used idle : List Ptr) : Type 0 where
    pub static : IsStatic w.globals.session_memory used idle
    pub initialized : w.globals.session_memory.is_initialized ≡ true

  before_session-same :
      (client : ClientLibrary) (arrays : Arrays) (params : TransportParams) (context : RmwContext)
      (w : World M)
      → w.globals.session_memory.is_initialized ≡ true
      → (before_session client arrays params context w).session_memory ≡ w.globals.session_memory
  unfolding init_first_pools
  before_session-same client arrays params context w e =
      init_memory-again false arrays.sessions.element_size w.globals.session_memory
        arrays.sessions.count e

  connect-initialized :
      (client : ClientLibrary) (params : TransportParams) (w : World M) (p : Ptr)
      → (connect client params w p).1.globals.session_memory.is_initialized
        ≡ w.globals.session_memory.is_initialized
  unfolding connect open_session
  connect-initialized client params w p = elim (Bool-cases (is_ok (client.transport_init params))) [
    | inr no' ↦ rw (connect, no') refl
    | inl up ↦ elim (Bool-cases client.uxr_create_session) [
      | inr no' ↦ rw (connect, up, no') refl
      | inl yes' ↦ rw (connect, up, yes') refl
    ]
  ]

  connect-fails :
      (client : ClientLibrary) (params : TransportParams) (w : World M) (p : Ptr)
      → (is_ok (client.transport_init params) && client.uxr_create_session) ≡ false
      → is_ok (connect client params w p).0 ≡ false
  unfolding connect open_session
  connect-fails client params w p fails = elim (Bool-cases (is_ok (client.transport_init params))) [
    | inr no' ↦ rw (connect, no') no'
    | inl up ↦
        let no' : client.uxr_create_session ≡ false = rw up at fails in rw (connect, up, no') refl
  ]

  module _ (arrays : Arrays) (platform : Platform) (options : RmwInitOptions)
      (params : TransportParams) (given : options.impl ≡ some params)
      (valid : platform.identifiers_match options.implementation_identifier
          (some eprosima_microxrcedds_identifier)
        ≡ true) where
    pub rmw_init-checked :
        (client : ClientLibrary) (context : RmwContext) (w : World M)
        → let r = init_context client arrays params (fill_context options context) w in
          rmw_init client arrays platform (some options) (some context) w
          ≡ ((r.0.0, some r.0.1), r.1)
    unfolding rmw_init
    rmw_init-checked client context w = rw (given, valid) refl

    rmw_init-taken :
        (client : ClientLibrary) (context : RmwContext) (w : World M) (f : Ptr)
        (used idle : List Ptr)
        → HasSessions w used (f ∷ idle)
        → HasSessions
            (rmw_init client arrays platform (some options) (some context) w).1
            (f ∷ used)
            idle
    rmw_init-taken client context w f used idle is =
        let same =
          before_session-same client arrays params (fill_context options context) w
            is.initialized in
        let pool : IsStatic _ used (f ∷ idle) =
          subst (λ m. IsStatic m used (f ∷ idle)) (sym same) is.static in
        let e =
          init_context-taken client arrays params (fill_context options context) w f used idle
            pool in
        let g = after_pools client arrays params (fill_context options context) w f in
        rw (rmw_init-checked client context w, e)
          (record {
            static =
                connect-IsStatic client params (record w { globals = g }) f (f ∷ used) idle
                  (after_pools-IsStatic client arrays params (fill_context options context) w f used
                    idle pool);
            initialized =
                connect-initialized client params (record w { globals = g }) f
                ∙ after_pools-initialized client arrays params (fill_context options context) w f
                    used idle pool
                ∙ ap (λ m. m.is_initialized) same
                ∙ is.initialized;
          })

    rmw_init-full :
        (client : ClientLibrary) (context : RmwContext) (w : World M) (used : List Ptr)
        → HasSessions w used []
        → let r = rmw_init client arrays platform (some options) (some context) w in
          (r.0.0 ≡ error) × (r.1.calls ≡ w.calls)
    rmw_init-full client context w used is =
        let same =
          before_session-same client arrays params (fill_context options context) w
            is.initialized in
        let pool : IsStatic _ used [] = subst (λ m. IsStatic m used []) (sym same) is.static in
        let e = init_context-full client arrays params (fill_context options context) w used pool in
        rw (rmw_init-checked client context w, e) (refl, refl)

    rmw_init-fails :
        (client : ClientLibrary) (context : RmwContext) (w : World M) (used idle : List Ptr)
        → HasSessions w used idle
        → (is_ok (client.transport_init params) && client.uxr_create_session) ≡ false
        → is_ok (rmw_init client arrays platform (some options) (some context) w).0.0 ≡ false
    rmw_init-fails client context w used [] is fails =
        ap is_ok (rmw_init-full client context w used is).0
    rmw_init-fails client context w used (f ∷ idle) is fails =
        let same =
          before_session-same client arrays params (fill_context options context) w
            is.initialized in
        let pool : IsStatic _ used (f ∷ idle) =
          subst (λ m. IsStatic m used (f ∷ idle)) (sym same) is.static in
        let e =
          init_context-taken client arrays params (fill_context options context) w f used idle
            pool in
        let g = after_pools client arrays params (fill_context options context) w f in
        rw (rmw_init-checked client context w, e)
          (connect-fails client params (record w { globals = g }) f fails)

    -- The state after `n` calls of rmw_init with the same options, each on a context of its own.
    abbrev pub attempts : ClientLibrary → ℕ → World M → World M
    attempts client zero w = w
    attempts client (suc n) w =
        attempts client n (rmw_init client arrays platform (some options) (some zero_context) w).1

    attempts-HasSessions :
        (client : ClientLibrary) (w : World M) (used idle : List Ptr)
        → HasSessions w used idle
        → (all : List Ptr) × HasSessions (attempts client (length idle) w) all []
    attempts-HasSessions client w used [] is = (used, is)
    attempts-HasSessions client w used (f ∷ idle) is =
        attempts-HasSessions client
          (rmw_init client arrays platform (some options) (some zero_context) w).1 (f ∷ used) idle
          (rmw_init-taken client zero_context w f used idle is)

    -- For an initialised pool of sessions and valid options, when the transport cannot be opened
    -- or the agent does not create the session: rmw_init fails and keeps the session that it
    -- took, so that after as many failures as there were free sessions every rmw_init, also with
    -- a transport and an agent that work, returns RMW_RET_ERROR without a call of the client
    -- library.
    pub rmw_init-lost :
        (client working : ClientLibrary) (w : World M) (used idle : List Ptr)
        → HasSessions w used idle
        → (is_ok (client.transport_init params) && client.uxr_create_session) ≡ false
        → let last = attempts client (length idle) w in
          let r = rmw_init working arrays platform (some options) (some zero_context) last in
          (is_ok (rmw_init client arrays platform (some options) (some zero_context) w).0.0 ≡ false)
          × (r.0.0 ≡ error)
          × (r.1.calls ≡ last.calls)
    rmw_init-lost client working w used idle is fails =
        let (all, full) = attempts-HasSessions client w used idle is in
        let empty = rmw_init-full working zero_context (attempts client (length idle) w) all full in
        (rmw_init-fails client zero_context w used idle is fails, empty.0, empty.1)
