-- ===== src/Init/Ready.antt =====
-- What rmw_init leaves when it starts from static storage.
use rmw_microxrcedds.Base.{
  ℕ, suc, ◌<◌, ◌≡◌, refl, subst, ◌∙◌, Bool, true, false, some, List, [], ◌∷◌, ◌++◌, ◌==◌, arith,
}
use rmw_microxrcedds.Memory.{Ptr, Mempool}
use rmw_microxrcedds.Memory.Init.{IsZeroed, array_item, array_items, init_memory-IsReady}
use rmw_microxrcedds.Memory.Static.{IsStatic, IsReady-IsStatic}
use rmw_microxrcedds.State.{Globals, Context}
use rmw_microxrcedds.Topic.Life.{write_element-IsStatic}
use rmw_microxrcedds.Handles.{ok, eprosima_microxrcedds_identifier}
use rmw_microxrcedds.Options.{RmwInitOptions, TransportParams, Platform}
use rmw_microxrcedds.Init.{
  ArraySize, Arrays, ClientLibrary, RmwContext, World, fill_context, Call, transport_init,
  init_session, set_topic_callback, set_status_callback, set_request_callback, set_reply_callback,
  create_session, init_pool, init_first_pools, init_other_pools, zero_counters, create_streams,
  set_session, open_session, connect, rmw_init,
}
use rmw_microxrcedds.Init.Steps.{
  before_session, after_pools, init_context-taken, after_pools-IsStatic,
}
use rmw_microxrcedds.Init.Lost.{rmw_init-checked}

-- A pool and its array as the program starts.
pub record IsFresh {A : Type 0} (m : Mempool A) (size : ArraySize) : Type 0 where
  pub zeroed : IsZeroed m
  pub new : m.is_initialized ≡ false
  pub positive : 0 < size.count

-- Every item of the pool is free.
abbrev pub AllFree : {A : Type 0} → Mempool A → ArraySize → Type 0
AllFree m size = IsStatic m [] (array_items size.count)

init_pool-AllFree :
    {A : Type 0} (m : Mempool A) (size : ArraySize)
    → IsFresh m size
    → AllFree (init_pool size m) size
init_pool-AllFree m size is =
    IsReady-IsStatic _ size.count
      (init_memory-IsReady false size.element_size m size.count is.zeroed is.new is.positive).0

IsStatic-allowed :
    {A : Type 0} (m : Mempool A) (b : Bool) (used idle : List Ptr)
    → IsStatic m used idle
    → IsStatic (record m { is_dynamic_allowed = b }) used idle
IsStatic-allowed m b used idle is = record {
  pool = record { allocated = is.pool.allocated; free = is.pool.free; distinct = is.pool.distinct };
  own = is.own;
  static = is.static;
}

-- The numbers of the next entities of a context.
abbrev pub counters : Context → List ℕ
counters c =
    c.id_participant ∷ c.id_topic ∷ c.id_publisher ∷ c.id_datawriter ∷ c.id_subscriber
    ∷ c.id_datareader ∷ c.id_requester ∷ c.id_replier ∷ []

-- The calls that open a session, the last one first.
abbrev pub session_calls : Ptr → TransportParams → List Call
session_calls p params =
    create_session p
    ∷ set_reply_callback p
    ∷ set_request_callback p
    ∷ set_status_callback p
    ∷ set_topic_callback p
    ∷ init_session p params.client_key
    ∷ transport_init p params
    ∷ []

module _ {M : Type 0} where
  pub record IsStarting (g : Globals M) (arrays : Arrays) : Type 0 where
    pub sessions : IsFresh g.session_memory arrays.sessions
    pub buffers : IsFresh g.static_buffer_memory arrays.static_input_buffers
    pub nodes : IsFresh g.node_memory arrays.nodes
    pub subscriptions : IsFresh g.subscription_memory arrays.subscriptions
    pub publishers : IsFresh g.publisher_memory arrays.publishers
    pub services : IsFresh g.service_memory arrays.services
    pub clients : IsFresh g.client_memory arrays.clients
    pub topics : IsFresh g.topics_memory arrays.topics

  -- One session is in use, everything else is free.
  pub record IsStarted (g : Globals M) (arrays : Arrays) (p : Ptr) (n : ℕ) : Type 0 where
    pub sessions : IsStatic g.session_memory (p ∷ []) (array_items n)
    pub buffers : AllFree g.static_buffer_memory arrays.static_input_buffers
    pub static_buffers : g.static_buffer_memory.is_dynamic_allowed ≡ false
    pub nodes : AllFree g.node_memory arrays.nodes
    pub subscriptions : AllFree g.subscription_memory arrays.subscriptions
    pub publishers : AllFree g.publisher_memory arrays.publishers
    pub services : AllFree g.service_memory arrays.services
    pub clients : AllFree g.client_memory arrays.clients
    pub topics : AllFree g.topics_memory arrays.topics

  -- The state before the transport is opened.
  after_pools-IsStarted :
      (client : ClientLibrary) (arrays : Arrays) (params : TransportParams) (context : RmwContext)
      (w : World M) (n : ℕ)
      → IsStarting w.globals arrays
      → arrays.sessions.count ≡ suc n
      → IsStatic
          (before_session client arrays params context w).session_memory
          []
          (array_item n ∷ array_items n)
        × IsStarted
            (after_pools client arrays params context w (array_item n))
            arrays
            (array_item n)
            n
  unfolding init_first_pools init_other_pools
  after_pools-IsStarted client arrays params context w n is e =
      let free =
        subst
          (λ k. IsStatic (init_pool arrays.sessions w.globals.session_memory) [] (array_items k)) e
          (init_pool-AllFree w.globals.session_memory arrays.sessions is.sessions) in
      (
        free,
        record {
          sessions =
              after_pools-IsStatic client arrays params context w (array_item n) [] (array_items n)
                free;
          buffers =
              IsStatic-allowed _ false [] _
                (init_pool-AllFree _ arrays.static_input_buffers is.buffers);
          static_buffers = refl;
          nodes = init_pool-AllFree _ arrays.nodes is.nodes;
          subscriptions = init_pool-AllFree _ arrays.subscriptions is.subscriptions;
          publishers = init_pool-AllFree _ arrays.publishers is.publishers;
          services = init_pool-AllFree _ arrays.services is.services;
          clients = init_pool-AllFree _ arrays.clients is.clients;
          topics = init_pool-AllFree _ arrays.topics is.topics;
        },
      )

  abbrev pub session_at : World M → Ptr → Context
  session_at w p = w.globals.session_memory.elements p

  unfoldable connected : ClientLibrary → TransportParams → World M → Ptr → World M
  connected client params w p = record {
    globals = set_session w.globals p (create_streams client (w.globals.session_memory.elements p));
    calls = session_calls p params ++ w.calls;
  }

  connect-connected :
      (client : ClientLibrary) (params : TransportParams) (w : World M) (p : Ptr)
      → client.transport_init params ≡ ok
      → client.uxr_create_session ≡ true
      → connect client params w p ≡ (ok, connected client params w p)
  unfolding connect open_session connected
  connect-connected client params w p up created = rw (up, created) refl

  connected-IsStarted :
      (client : ClientLibrary) (params : TransportParams) (arrays : Arrays) (w : World M) (p : Ptr)
      (n : ℕ)
      → IsStarted w.globals arrays p n
      → IsStarted (connected client params w p).globals arrays p n
  unfolding connected
  connected-IsStarted client params arrays w p n is = record {
    sessions = write_element-IsStatic _ p _ (p ∷ []) (array_items n) is.sessions;
    buffers = is.buffers;
    static_buffers = is.static_buffers;
    nodes = is.nodes;
    subscriptions = is.subscriptions;
    publishers = is.publishers;
    services = is.services;
    clients = is.clients;
    topics = is.topics;
  }

  connected-counters :
      (client : ClientLibrary) (arrays : Arrays) (params : TransportParams) (context : RmwContext)
      (w : World M) (p : Ptr)
      → counters (
          session_at
            (connected client params
              (record w { globals = after_pools client arrays params context w p })
              p)
            p)
        ≡ 0 ∷ 0 ∷ 0 ∷ 0 ∷ 0 ∷ 0 ∷ 0 ∷ 0 ∷ []
  unfolding connected init_other_pools zero_counters create_streams
  connected-counters client arrays params context w p =
      let e : (p == p) ≡ true = ground arith in rw e refl

  -- For a state of static storage, arrays that are not empty, and valid options, when the
  -- transport opens and the agent creates the session: rmw_init returns RMW_RET_OK and a context
  -- with the identifier and the domain of the options; its session, the last of the array, is the
  -- only item in use, every other item of the eight pools is free, the buffers never become
  -- dynamic, the numbers of the entities start at 0, and the client library was called for the
  -- transport, for the session with the key of the options, for the four callbacks, and for the
  -- creation of the session, in this order.
  pub rmw_init-IsStarted :
      (client : ClientLibrary) (arrays : Arrays) (platform : Platform) (options : RmwInitOptions)
      (params : TransportParams) (context : RmwContext) (w : World M) (n : ℕ)
      → options.impl ≡ some params
      → platform.identifiers_match options.implementation_identifier
          (some eprosima_microxrcedds_identifier)
        ≡ true
      → IsStarting w.globals arrays
      → arrays.sessions.count ≡ suc n
      → client.transport_init params ≡ ok
      → client.uxr_create_session ≡ true
      → (context' : RmwContext) × (w' : World M) × (rmw_init client arrays platform
            (some options)
            (some context)
            w
          ≡ ((ok, some context'), w'))
        × (context'.impl ≡ some (array_item n))
        × (context'.implementation_identifier ≡ some eprosima_microxrcedds_identifier)
        × (context'.actual_domain_id ≡ options.domain_id)
        × IsStarted w'.globals arrays (array_item n) n
        × (counters (session_at w' (array_item n)) ≡ 0 ∷ 0 ∷ 0 ∷ 0 ∷ 0 ∷ 0 ∷ 0 ∷ 0 ∷ [])
        × (w'.calls ≡ session_calls (array_item n) params ++ w.calls)
  unfolding fill_context connected
  rmw_init-IsStarted client arrays platform options params context w n given valid is count up
        created =
      let filled = fill_context options context in
      let p = array_item n in
      let ready = after_pools-IsStarted client arrays params filled w n is count in
      let w1 = record w { globals = after_pools client arrays params filled w p } in
      let e = init_context-taken client arrays params filled w p [] (array_items n) ready.0 in
      (
        record filled { impl = some p },
        connected client params w1 p,
        rmw_init-checked arrays platform options params given valid client context w
            ∙ rw (e, connect-connected client params w1 p up created) refl,
        refl,
        refl,
        refl,
        connected-IsStarted client params arrays w1 p n ready.1,
        connected-counters client arrays params filled w p,
        refl,
      )
