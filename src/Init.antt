-- ===== src/Init.antt =====
-- src/rmw_init.c: the life of a context. The XRCE session and the transport belong to the client
-- library; what this code does to them is the list of its calls.
pub mod Steps
pub mod Ready
pub mod Lost
use Prim.Native.String.{String}
use rmw_microxrcedds.Base.{
  ℕ, zero, suc, Bool, true, false, not, Option, none, some, List, ◌∷◌, ltb, ◌==◌, if◌then◌else◌,
}
use rmw_microxrcedds.Memory.{Ptr, null, Mempool, get_memory, put_memory}
use rmw_microxrcedds.Memory.Init.{init_memory}
use rmw_microxrcedds.Types.{StreamId}
use rmw_microxrcedds.State.{Globals, Context}
use rmw_microxrcedds.Handles.{
  Ret, ok, error, invalid_argument, incorrect_rmw_implementation, eprosima_microxrcedds_identifier,
}
use rmw_microxrcedds.Session.{write_element}
use rmw_microxrcedds.Options.{RmwInitOptions, TransportParams, Platform, is_null}
use rmw_microxrcedds.Receive.{is_ok, ◌>>=◌}
use rmw_microxrcedds.Entities.Nodes.{rmw_destroy_node}

-- The number of elements of a static array, and the size of one.
pub record ArraySize : Type 0 where
  pub count : ℕ
  pub element_size : ℕ

-- RMW_UXRCE_MAX_SESSIONS and so on: the arguments of the eight initialisations.
pub record Arrays : Type 0 where
  pub sessions : ArraySize
  pub static_input_buffers : ArraySize
  pub nodes : ArraySize
  pub subscriptions : ArraySize
  pub publishers : ArraySize
  pub services : ArraySize
  pub clients : ArraySize
  pub topics : ArraySize

-- RMW_UXRCE_ENTITY_CREATION_DESTROY_TIMEOUT, and what the client library answers: the result of `rmw_uxrce_transport_init`, the streams, and `uxr_create_session`.
pub record ClientLibrary : Type 0 where
  pub entity_creation_destroy_timeout : ℕ
  pub transport_init : TransportParams → Ret
  pub reliable_input : StreamId
  pub reliable_output : StreamId
  pub best_effort_input : StreamId
  pub best_effort_output : StreamId
  pub uxr_create_session : Bool

-- The calls of the client library, with the context that they are about. The callbacks are those of
-- Receive.
pub data Call : Type 0 where
  transport_init : Ptr → TransportParams → Call
  init_session : Ptr → (client_key : ℕ) → Call
  set_topic_callback set_status_callback set_request_callback set_reply_callback : Ptr → Call
  create_session delete_session close_transport : Ptr → Call

-- `rmw_context_t`
pub record RmwContext : Type 0 where
  pub instance_id : ℕ
  pub implementation_identifier : Option String
  pub actual_domain_id : ℕ
  pub impl : Option Ptr

-- `rmw_get_zero_initialized_context`
abbrev pub zero_context : RmwContext
zero_context = record {
  instance_id = 0;
  implementation_identifier = none;
  actual_domain_id = 0;
  impl = none;
}

-- The fields of the context that rmw_init sets first.
unfoldable pub fill_context : RmwInitOptions → RmwContext → RmwContext
fill_context options context = record context {
  instance_id = options.instance_id;
  implementation_identifier = some eprosima_microxrcedds_identifier;
  actual_domain_id = options.domain_id;
}

-- The global state of the functions below, with the calls so far, the newest first.
pub record World (M : Type 0) : Type 0 where
  pub globals : Globals M
  pub calls : List Call

-- RMW_INIT_MEMORY of one pool.
abbrev pub init_pool : {A : Type 0} → ArraySize → Mempool A → Mempool A
init_pool size m = init_memory false size.element_size m size.count

unfoldable pub zero_counters : Context → Context
zero_counters c = record c {
  id_participant = 0;
  id_topic = 0;
  id_publisher = 0;
  id_datawriter = 0;
  id_subscriber = 0;
  id_datareader = 0;
  id_requester = 0;
  id_replier = 0;
}

unfoldable pub create_streams : ClientLibrary → Context → Context
create_streams client c = record c {
  reliable_input = client.reliable_input;
  reliable_output = client.reliable_output;
  best_effort_input = client.best_effort_input;
  best_effort_output = client.best_effort_output;
  creation_destroy_stream =
      if ltb 0 client.entity_creation_destroy_timeout
      then client.reliable_output
      else client.best_effort_output;
}

module _ {M : Type 0} where
  abbrev pub call : World M → Call → World M
  call w c = record w { calls = c ∷ w.calls }

  -- The pools of sessions and of input buffers.
  unfoldable pub init_first_pools : Arrays → Globals M → Globals M
  init_first_pools arrays g = record g {
    session_memory = init_pool arrays.sessions g.session_memory;
    static_buffer_memory = record (init_pool arrays.static_input_buffers g.static_buffer_memory) {
      is_dynamic_allowed = false;
    };
  }

  unfoldable pub init_other_pools : Arrays → Globals M → Globals M
  init_other_pools arrays g = record g {
    node_memory = init_pool arrays.nodes g.node_memory;
    subscription_memory = init_pool arrays.subscriptions g.subscription_memory;
    publisher_memory = init_pool arrays.publishers g.publisher_memory;
    service_memory = init_pool arrays.services g.service_memory;
    client_memory = init_pool arrays.clients g.client_memory;
    topics_memory = init_pool arrays.topics g.topics_memory;
  }

  abbrev pub set_session : Globals M → Ptr → Context → Globals M
  set_session g p c = record g { session_memory = write_element g.session_memory p c }

  -- `on_topic`, `on_status`, `on_request` and `on_reply`.
  abbrev pub set_callbacks : World M → (context_impl : Ptr) → World M
  set_callbacks w p =
      call
        (call (call (call w (set_topic_callback p)) (set_status_callback p))
          (set_request_callback p))
        (set_reply_callback p)

  -- From `uxr_init_session` to the end.
  unfoldable pub open_session :
      ClientLibrary → TransportParams → World M → (context_impl : Ptr) → Ret × World M
  unfolding create_streams
  open_session client params w p =
      let c = create_streams client (w.globals.session_memory.elements p) in
      let w1 = record (set_callbacks (call w (init_session p params.client_key)) p) {
        globals = set_session w.globals p c;
      } in
      let w2 = call w1 (create_session p) in
      if client.uxr_create_session then (ok, w2) else (error, call w2 (close_transport p))

  -- From the transport on.
  unfoldable pub connect :
      ClientLibrary → TransportParams → World M → (context_impl : Ptr) → Ret × World M
  unfolding open_session
  connect client params w p =
      let w1 = call w (transport_init p params) in
      let ret = client.transport_init params in
      if is_ok ret then open_session client params w1 p else (ret, w1)

  -- The part behind the checks of the arguments, on the context whose first fields are set.
  unfoldable pub init_context :
      ClientLibrary → Arrays → TransportParams → RmwContext → World M → (Ret × RmwContext) × World M
  unfolding init_first_pools get_memory zero_counters init_other_pools connect
  init_context client arrays params context w =
      let g1 = init_first_pools arrays w.globals in
      let (memory_node, sessions) = get_memory none g1.session_memory in
      let g2 = record g1 { session_memory = sessions } in
      if memory_node == null
      then ((error, context), record w { globals = g2 })
      else (let p = (sessions.items memory_node).element in
          let g3 = set_session g2 p (zero_counters (sessions.elements p)) in
          let g4 = init_other_pools arrays g3 in
          let (ret, w1) = connect client params (record w { globals = g4 }) p in
          ((ret, record context { impl = some p }), w1))

  -- The result, `*context` and the state. The session pool is of a build without dynamic
  -- allocations.
  unfoldable pub rmw_init :
      ClientLibrary
      → Arrays
      → Platform
      → Option RmwInitOptions
      → Option RmwContext
      → World M
      → (Ret × Option RmwContext) × World M
  unfolding init_context fill_context
  rmw_init client arrays platform none context w = ((invalid_argument, context), w)
  rmw_init client arrays platform (some options) none w = ((invalid_argument, none), w)
  rmw_init client arrays platform (some options) (some context) w = elim options.impl [
    | none ↦ ((invalid_argument, some context), w)
    | some params ↦
        if not (
          platform.identifiers_match options.implementation_identifier
            (some eprosima_microxrcedds_identifier))
        then ((incorrect_rmw_implementation, some context), w)
        else (let ((ret, done), w1) =
              init_context client arrays params (fill_context options context) w in
            ((ret, some done), w1))
  ]

  unfoldable pub fini_session_memory : Globals M → (session : Ptr) → Globals M
  fini_session_memory g session = record g {
    session_memory = put_memory false g.session_memory session;
  }

  -- The loop of `rmw_context_fini` over the nodes; `none` means that the fuel ran out.
  unfoldable pub destroy_nodes :
      (fuel rounds : ℕ)
      → (context_impl : Ptr) → Globals M
      → (item : Ptr) → Ret
      → Option (Ret × Globals M)
  unfolding rmw_destroy_node
  destroy_nodes fuel zero p g item ret = none
  destroy_nodes fuel (suc rounds) p g item ret =
      let custom_node = g.node_memory.elements (g.node_memory.items item).element in
      let next = (g.node_memory.items item).next in
      let step =
        if custom_node.context == p
        then rmw_destroy_node fuel g custom_node.rmw_handle
        else some (ret, g) in
      let rest = step >>= (λ r. destroy_nodes fuel rounds p r.1 next r.0) in
      if item == null then some (ret, g) else rest

  -- The result, `*context` and the state; a context without `impl` is read through NULL.
  unfoldable pub rmw_context_fini :
      (fuel : ℕ) → RmwContext → World M → Option ((Ret × RmwContext) × World M)
  unfolding destroy_nodes fini_session_memory
  rmw_context_fini fuel context w = do
    p ← context.impl
    (ret, g) ← destroy_nodes fuel fuel p w.globals w.globals.node_memory.allocateditems ok
    let w1 = record (call w (delete_session p)) { globals = fini_session_memory g p }
    some ((ret, record context { impl = none }), call w1 (close_transport p))

  unfoldable pub rmw_shutdown :
      (fuel : ℕ)
      → Platform
      → Option RmwContext
      → World M
      → Option ((Ret × Option RmwContext) × World M)
  unfolding rmw_context_fini
  rmw_shutdown fuel platform none w = some ((invalid_argument, none), w)
  rmw_shutdown fuel platform (some context) w =
      if not (
        platform.identifiers_match context.implementation_identifier
          (some eprosima_microxrcedds_identifier))
      then some ((incorrect_rmw_implementation, some context), w)
      else (do
        ((ret, done), w1) ← rmw_context_fini fuel context w
        some ((ret, some (if is_ok ret then zero_context else done)), w1))
