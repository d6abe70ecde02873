-- ===== src/Examples/Starting.antt =====
-- The theorems on the options and on the start of a context, applied to a small build.
use rmw_microxrcedds.Base.{
  ◌++◌, ℕ, ◌≡◌, ◌<◌, ◌≤◌, ◌↔◌, refl, arith, true, false, some, List, [], ◌∷◌,
}
use rmw_microxrcedds.Types.{reliable_stream, best_effort_stream}
use rmw_microxrcedds.Handles.{ok, error, eprosima_microxrcedds_identifier}
use rmw_microxrcedds.Receive.{is_ok}
use rmw_microxrcedds.Options.{
  TransportParams, RmwInitOptions, zero_options, Platform, rmw_init_options_init,
  rmw_uros_options_set_udp_address,
}
use rmw_microxrcedds.Options.Key.{rmw_init_options_init-ends}
use rmw_microxrcedds.Options.Address.{rmw_uros_options_set_udp_address-cut}
use rmw_microxrcedds.Init.{
  ArraySize, Arrays, ClientLibrary, RmwContext, zero_context, World, rmw_init,
}
use rmw_microxrcedds.Init.Ready.{
  session_calls, IsFresh, IsStarting, IsStarted, counters, session_at, rmw_init-IsStarted,
}
use rmw_microxrcedds.Init.Lost.{HasSessions, attempts, rmw_init-lost}
use rmw_microxrcedds.Examples.{
  zero_pool, chain_pool-IsStatic, a_context, a_publisher, a_subscription, a_service, a_client,
  a_topic, a_buffer, state, no_id,
}

abbrev params : TransportParams
params = record { agent_address = 49 ∷ []; agent_port = 56 ∷ []; client_key = 77 }

-- The first number that `rand` returns is a multiple of 2 ^ 32.
abbrev platform : Platform
platform = record {
  default_udp_ip = 49 ∷ 50 ∷ [];
  default_udp_port = 56 ∷ 57 ∷ [];
  rand = λ i. i;
  allocated = some params;
  identifiers_match = λ a b. true;
}

abbrev options : RmwInitOptions
options = record {
  instance_id = 1;
  implementation_identifier = some eprosima_microxrcedds_identifier;
  allocator_is_valid = true;
  enclave = 47 ∷ [];
  domain_id = 30;
  impl = some params;
}

rmw_init_options_init-ends_example :
    (done : RmwInitOptions) × (key : ℕ) × (rmw_init_options_init 2 platform true (some zero_options)
      ≡ some (ok, some done))
    × (done.implementation_identifier ≡ some eprosima_microxrcedds_identifier)
    × (done.impl
        ≡ some
            (record { agent_address = 49 ∷ 50 ∷ []; agent_port = 56 ∷ 57 ∷ []; client_key = key }))
    × (0 < key)
    × (key < 4294967296)
rmw_init_options_init-ends_example =
    rmw_init_options_init-ends 2 platform zero_options params 1 refl refl (omega arith)
      (omega arith) (omega arith) (omega arith)

abbrev five_digits : List ℕ
five_digits = 49 ∷ 50 ∷ 51 ∷ 52 ∷ 53 ∷ []

rmw_uros_options_set_udp_address-cut_example :
    (stored : TransportParams) × (rmw_uros_options_set_udp_address
        (some (49 ∷ []))
        (some five_digits)
        (some options)
      ≡ some (ok, some (record (options) { impl = some stored })))
    × (stored.client_key ≡ 77)
    × ((stored.agent_address ≡ 49 ∷ []) ↔ (1 ≤ 15))
    × ((stored.agent_port ≡ five_digits) ↔ (5 ≤ 4))
rmw_uros_options_set_udp_address-cut_example =
    rmw_uros_options_set_udp_address-cut (49 ∷ []) five_digits options params refl (omega arith)
      (omega arith)

abbrev three : ArraySize
three = record { count = 3; element_size = 8 }

abbrev arrays : Arrays
arrays = record {
  sessions = three;
  static_input_buffers = three;
  nodes = three;
  subscriptions = three;
  publishers = three;
  services = three;
  clients = three;
  topics = three;
}

abbrev library : ClientLibrary
library = record {
  entity_creation_destroy_timeout = 1000;
  transport_init = λ p. ok;
  reliable_input = reliable_stream;
  reliable_output = reliable_stream;
  best_effort_input = best_effort_stream;
  best_effort_output = best_effort_stream;
  uxr_create_session = true;
}

abbrev unreachable : ClientLibrary
unreachable = record (library) { transport_init = λ p. error }

abbrev start : World (List ℕ)
start = record {
  globals = record (state) {
    session_memory = zero_pool a_context;
    node_memory = zero_pool (record { rmw_handle = 0; context = 0; participant_id = no_id });
    publisher_memory = zero_pool a_publisher;
    subscription_memory = zero_pool a_subscription;
    service_memory = zero_pool a_service;
    client_memory = zero_pool a_client;
    topics_memory = zero_pool a_topic;
    static_buffer_memory = zero_pool a_buffer;
  };
  calls = [];
}

zero_pool-IsFresh : {A : Type 0} (e : A) → IsFresh (zero_pool e) three
zero_pool-IsFresh e = record {
  zeroed = λ k. (refl, refl, refl);
  new = refl;
  positive = omega arith;
}

start-IsStarting : IsStarting start.globals arrays
start-IsStarting = record {
  sessions = zero_pool-IsFresh _;
  buffers = zero_pool-IsFresh _;
  nodes = zero_pool-IsFresh _;
  subscriptions = zero_pool-IsFresh _;
  publishers = zero_pool-IsFresh _;
  services = zero_pool-IsFresh _;
  clients = zero_pool-IsFresh _;
  topics = zero_pool-IsFresh _;
}

rmw_init-IsStarted_example :
    (context' : RmwContext) × (w' : World (List ℕ)) × (rmw_init library arrays platform
        (some options)
        (some zero_context)
        start
      ≡ ((ok, some context'), w'))
    × (context'.impl ≡ some 3)
    × (context'.implementation_identifier ≡ some eprosima_microxrcedds_identifier)
    × (context'.actual_domain_id ≡ 30)
    × IsStarted w'.globals arrays 3 2
    × (counters (session_at w' 3) ≡ 0 ∷ 0 ∷ 0 ∷ 0 ∷ 0 ∷ 0 ∷ 0 ∷ 0 ∷ [])
    × (w'.calls ≡ session_calls 3 params ++ [])
rmw_init-IsStarted_example =
    rmw_init-IsStarted library arrays platform options params zero_context start 2 refl refl
      start-IsStarting refl refl refl

-- The state of the parent: one session is free.
abbrev running : World (List ℕ)
running = record { globals = state; calls = [] }

running-HasSessions : HasSessions running (1 ∷ 2 ∷ 3 ∷ []) (4 ∷ [])
running-HasSessions = record { static = chain_pool-IsStatic a_context; initialized = refl }

rmw_init-lost_example :
    let last = attempts arrays platform options params refl refl unreachable 1 running in
    let r = rmw_init library arrays platform (some options) (some zero_context) last in
    (is_ok (rmw_init unreachable arrays platform (some options) (some zero_context) running).0.0
      ≡ false)
    × (r.0.0 ≡ error)
    × (r.1.calls ≡ last.calls)
rmw_init-lost_example =
    rmw_init-lost arrays platform options params refl refl unreachable library running
      (1 ∷ 2 ∷ 3 ∷ []) (4 ∷ []) running-HasSessions refl
