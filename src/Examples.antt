-- ===== src/Examples.antt =====
-- Small pools and a small state, on which the theorems are applied.
pub mod Pools
pub mod Receiving
pub mod Topics
pub mod Conversions
pub mod Creation
pub mod Waiting
pub mod Sending
pub mod Agents
pub mod Destroying
pub mod Graphs
pub mod Identities
pub mod Texts
pub mod Starting
use rmw_microxrcedds.Base.{
  ℕ, ◌+◌, ◌-◌, ◌≡◌, ◌≢◌, refl, Bool, true, false, not, ◌||◌, length, Option, none, some, List, [],
  ◌∷◌, arith, ◌==◌, if◌then◌else◌,
}
use rmw_microxrcedds.Memory.{Ptr, Item, Mempool}
use rmw_microxrcedds.Memory.Static.{IsStatic}
use rmw_microxrcedds.Types.{
  ObjectId, QosProfile, reliability_reliable, history_keep_last, durability_volatile,
  MessageCallbacks, ServiceCallbacks, StaticInputBuffer, subscription, unset, Subscription, Service,
  Client, Topic, reliable_stream, best_effort_stream,
}
use rmw_microxrcedds.State.{Globals, Publisher, Node, Context, Handle, Session}
use rmw_microxrcedds.Handles.{rmw_get_implementation_identifier}

-- Four items: 1, 2 and 3 are allocated in this order, 4 is free.
abbrev pub chain : Ptr → Item
chain a = record {
  prev = if a == 4 then 0 else a - 1;
  next = if (a == 3) || (a == 4) then 0 else a + 1;
  element = a;
  is_dynamic_memory = false;
}

module _ {A : Type 0} (e : A) where
  abbrev pub chain_pool : Mempool A
  chain_pool = record {
    allocateditems = 1;
    freeitems = 4;
    element_size = 8;
    is_initialized = true;
    is_dynamic_allowed = true;
    mutex = 0;
    items = chain;
    elements = λ a. e;
    freed = [];
  }

  -- The same items without the free one.
  abbrev pub full_pool : Mempool A
  full_pool = record (chain_pool) { freeitems = 0 }

  -- An array of static storage duration.
  abbrev pub zero_pool : Mempool A
  zero_pool = record {
    allocateditems = 0;
    freeitems = 0;
    element_size = 0;
    is_initialized = false;
    is_dynamic_allowed = false;
    mutex = 0;
    items = λ a. record { prev = 0; next = 0; element = 0; is_dynamic_memory = false };
    elements = λ a. e;
    freed = [];
  }

  pub chain_pool-IsStatic : IsStatic chain_pool (1 ∷ 2 ∷ 3 ∷ []) (4 ∷ [])
  chain_pool-IsStatic = record {
    pool = record {
      allocated =
          (refl, omega arith, refl, (refl, omega arith, refl, (refl, omega arith, refl, refl)));
      free = (refl, omega arith, refl, refl);
      distinct = (refl, (refl, (refl, (refl, tt))));
    };
    own = λ a i. refl;
    static = λ a i. refl;
  }

  pub full_pool-IsStatic : IsStatic full_pool (1 ∷ 2 ∷ 3 ∷ []) []
  full_pool-IsStatic = record {
    pool = record {
      allocated =
          (refl, omega arith, refl, (refl, omega arith, refl, (refl, omega arith, refl, refl)));
      free = refl;
      distinct = (refl, (refl, (refl, tt)));
    };
    own = λ a i. refl;
    static = λ a i. refl;
  }

abbrev pub no_id : ObjectId
no_id = record { id = 0; type = 0 }

abbrev pub reader_id : ObjectId
reader_id = record { id = 7; type = 6 }

abbrev pub default_qos : QosProfile
default_qos = record {
  reliability = reliability_reliable;
  history = history_keep_last;
  durability = durability_volatile;
  avoid_ros_namespace_conventions = false;
}

-- Messages are lists of bytes, and the first byte is the length.
abbrev pub callbacks : MessageCallbacks (List ℕ)
callbacks = record {
  message_namespace = some (115 ∷ 116 ∷ 100 ∷ []);
  message_name = 73 ∷ [];
  get_serialized_size = λ m. length m + 1;
  cdr_serialize = λ m. (true, length m ∷ m);
  cdr_deserialize = λ b n. elim b [ [] ↦ none | x ∷ xs ↦ if x + 1 == n then some xs else none ];
}

abbrev pub service_callbacks : ServiceCallbacks (List ℕ)
service_callbacks = record { request_members = callbacks; response_members = callbacks }

abbrev pub a_buffer : StaticInputBuffer
a_buffer = record { buffer = 1 ∷ 9 ∷ []; length = 2; owner = subscription 2; related = unset }

abbrev pub a_subscription : Subscription (List ℕ)
a_subscription = record {
  rmw_handle = 100;
  subscriber_id = no_id;
  datareader_id = reader_id;
  type_support_callbacks = some callbacks;
  topic = 1;
  owner_node = 1;
  qos = default_qos;
  stream_id = reliable_stream;
}

abbrev pub a_service : Service (List ℕ)
a_service = record {
  rmw_handle = 101;
  service_id = no_id;
  type_support_callbacks = some service_callbacks;
  service_data_resquest = 12;
  history_write_index = 0;
  history_read_index = 0;
  micro_buffer_in_use = false;
  stream_id = reliable_stream;
  owner_node = 1;
}

abbrev pub a_client : Client (List ℕ)
a_client = record {
  rmw_handle = 102;
  client_id = no_id;
  type_support_callbacks = some service_callbacks;
  client_data_request = 13;
  stream_id = reliable_stream;
  owner_node = 1;
}

abbrev pub a_publisher : Publisher (List ℕ)
a_publisher = record {
  rmw_handle = 103;
  publisher_id = no_id;
  datawriter_id = no_id;
  type_support_callbacks = some callbacks;
  cs_cb_size = none;
  cs_cb_serialization = none;
  topic = 1;
  qos = default_qos;
  stream_id = reliable_stream;
  owner_node = 1;
}

abbrev pub a_topic : Topic (List ℕ)
a_topic = record {
  topic_id = no_id;
  message_type_support_callbacks = some callbacks;
  owner_node = 1;
}

abbrev pub a_context : Context
a_context = record {
  reliable_input = reliable_stream;
  reliable_output = reliable_stream;
  best_effort_output = best_effort_stream;
  best_effort_input = best_effort_stream;
  creation_destroy_stream = reliable_stream;
  id_participant = 0;
  id_topic = 5;
  id_publisher = 0;
  id_datawriter = 0;
  id_subscriber = 0;
  id_datareader = 0;
  id_requester = 0;
  id_replier = 0;
}

abbrev pub handle : Handle
handle = record {
  implementation_identifier = rmw_get_implementation_identifier;
  element = 1;
  name = none;
}

-- Every pool is the chain, and the agent confirms every request but the first.
abbrev pub state : Globals (List ℕ)
state = record {
  session_memory = chain_pool a_context;
  node_memory = chain_pool (record { rmw_handle = 104; context = 1; participant_id = no_id });
  publisher_memory = chain_pool a_publisher;
  subscription_memory = chain_pool a_subscription;
  service_memory = chain_pool a_service;
  client_memory = chain_pool a_client;
  topics_memory = chain_pool a_topic;
  static_buffer_memory = chain_pool a_buffer;
  handles = λ p. some (handle);
  session = record {
    sent = [];
    runs = 0;
    confirmed = λ n id. not (n == 0);
    request_id = λ rs. length rs + 10;
    uxr_object_id = λ n k. record { id = n; type = 2 };
  };
}
