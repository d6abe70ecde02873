-- ===== src/Examples/Receiving.antt =====
-- The theorems on receiving, applied to the state of the parent: three subscriptions, services and
-- clients, and three samples that wait for the second subscription.
use rmw_microxrcedds.Base.{◌≡◌, refl, arith, true, false, none, some, List, [], ◌∷◌, ◌==◌}
use rmw_microxrcedds.Memory.{Ptr, Mempool}
use rmw_microxrcedds.Memory.Walk.{first}
use rmw_microxrcedds.Types.{SampleIdentity, StaticInputBuffer, owner_eq, subscription, client}
use rmw_microxrcedds.State.{Handle}
use rmw_microxrcedds.RequestIds.{request_id_of}
use rmw_microxrcedds.Buffers.{
  Incoming, buffer_at, written, store_input, find_static_input_buffer_by_owner,
}
use rmw_microxrcedds.Buffers.Mailbox.{mailbox, Delivered, store_input-Delivered}
use rmw_microxrcedds.Buffers.Taken.{Taken, Search, find-Search}
use rmw_microxrcedds.Handles.{error, is_uxrce_rmw_identifier_valid}
use rmw_microxrcedds.Receive.{
  finished, on_topic, on_request, on_reply, rmw_take, rmw_take_with_info, rmw_take_request,
  rmw_take_response, rmw_take_sequence,
}
use rmw_microxrcedds.Receive.Take.{with_buffers, rmw_take_with_info-sample}
use rmw_microxrcedds.Receive.Sequence.{Reads, rmw_take_sequence-Reads}
use rmw_microxrcedds.Receive.Deliver.{subscription_for, service_for, client_for}
use rmw_microxrcedds.Receive.Arrival.{
  Unchanged, rmw_take-on_topic, rmw_take_request-on_request, rmw_take_response-on_reply,
}
use rmw_microxrcedds.Examples.{
  chain_pool, chain_pool-IsStatic, a_buffer, a_subscription, a_service, a_client, callbacks,
  service_callbacks, reader_id, state, handle,
}

abbrev used : List Ptr
used = 1 ∷ 2 ∷ 3 ∷ []

abbrev sample : Incoming
sample = record { length = 3; bytes = 2 ∷ 8 ∷ 9 ∷ []; deserialized = true }

abbrev broken : Incoming
broken = record (sample) { deserialized = false }

abbrev identity : SampleIdentity
identity = record {
  high = 1;
  low = 2;
  entity_kind = 3;
  entity_key = 4 ∷ 5 ∷ 6 ∷ [];
  guid_prefix = 1 ∷ 2 ∷ 3 ∷ 4 ∷ 5 ∷ 6 ∷ 7 ∷ 8 ∷ 9 ∷ 10 ∷ 11 ∷ 12 ∷ [];
}

valid : is_uxrce_rmw_identifier_valid handle.implementation_identifier ≡ true
unfolding is_uxrce_rmw_identifier_valid
valid = refl

at_first_subscription :
    ((subscription_for 9 state used reader_id == 0) ≡ false)
    × ((state.subscription_memory.items (subscription_for 9 state used reader_id)).element ≡ 1)
unfolding first
at_first_subscription = (refl, refl)

at_first_service :
    ((service_for 9 state used 12 == 0) ≡ false)
    × ((state.service_memory.items (service_for 9 state used 12)).element ≡ 1)
unfolding first
at_first_service = (refl, refl)

at_first_client :
    ((client_for 9 state used 13 == 0) ≡ false)
    × ((state.client_memory.items (client_for 9 state used 13)).element ≡ 1)
unfolding first
at_first_client = (refl, refl)

rmw_take-on_topic_example :
    (m n : Mempool StaticInputBuffer) × (on_topic 9 state reader_id sample
      ≡ some (with_buffers state m))
    × (rmw_take 9 (with_buffers state m) handle
        ≡ some (with_buffers state n, finished (some (8 ∷ 9 ∷ []))))
    × Unchanged state.static_buffer_memory n used []
rmw_take-on_topic_example =
    rmw_take-on_topic 9 state handle 4 used [] (chain_pool-IsStatic a_buffer) (omega arith) valid
      sample refl reader_id used (4 ∷ []) callbacks (chain_pool-IsStatic a_subscription).pool
      (omega arith) at_first_subscription.0 at_first_subscription.1 refl

rmw_take_request-on_request_example :
    (m n : Mempool StaticInputBuffer) × (on_request 9 state 12 identity sample
      ≡ some (with_buffers state m))
    × (rmw_take_request 9 (with_buffers state m) handle
        ≡ some (with_buffers state n, finished (some (8 ∷ 9 ∷ [])), some (request_id_of identity)))
    × Unchanged state.static_buffer_memory n used []
rmw_take_request-on_request_example =
    rmw_take_request-on_request 9 state handle 4 used [] (chain_pool-IsStatic a_buffer)
      (omega arith) valid sample refl 12 identity used (4 ∷ []) service_callbacks
      (chain_pool-IsStatic a_service).pool (omega arith) at_first_service.0 at_first_service.1 refl

rmw_take_response-on_reply_example :
    (m n : Mempool StaticInputBuffer) × (on_reply 9 state 13 77 sample
      ≡ some (with_buffers state m))
    × (rmw_take_response 9 (with_buffers state m) handle
        ≡ some (with_buffers state n, finished (some (8 ∷ 9 ∷ [])), some 77))
    × Unchanged state.static_buffer_memory n used []
rmw_take_response-on_reply_example =
    rmw_take_response-on_reply 9 state handle 4 used [] (chain_pool-IsStatic a_buffer) (omega arith)
      valid sample refl 13 77 used (4 ∷ []) service_callbacks (chain_pool-IsStatic a_client).pool
      (omega arith) at_first_client.0 at_first_client.1 refl

store_input-Delivered_example :
    Delivered
      (chain_pool a_buffer)
      (store_input (chain_pool a_buffer) (client 3) none sample)
      used
      []
      4
      (client 3)
      (written (buffer_at (chain_pool a_buffer) 4) (client 3) none sample)
store_input-Delivered_example =
    store_input-Delivered (chain_pool a_buffer) (client 3) none sample 4 used []
      (chain_pool-IsStatic a_buffer) refl

find-Search_example :
    Search
      (chain_pool a_buffer)
      used
      (4 ∷ [])
      (subscription 2)
      (find_static_input_buffer_by_owner 4 (chain_pool a_buffer) (subscription 2))
find-Search_example =
    find-Search 4 (chain_pool a_buffer) used (4 ∷ []) (subscription 2)
      (chain_pool-IsStatic a_buffer) (omega arith)

-- A handle on the second subscription, for which the samples wait.
abbrev second : Handle
second = record (handle) { element = 2 }

waiting : mailbox (chain_pool a_buffer) used (subscription 2) ≡ a_buffer ∷ a_buffer ∷ a_buffer ∷ []
unfolding mailbox owner_eq
waiting = refl

nothing_waits : mailbox (chain_pool a_buffer) used (subscription 1) ≡ []
unfolding mailbox owner_eq
nothing_waits = refl

rmw_take_with_info-sample_example :
    (n : Mempool StaticInputBuffer) × (rmw_take_with_info 9 state second
      ≡ some (with_buffers state n, finished (some (9 ∷ []))))
    × Taken (chain_pool a_buffer) n used (4 ∷ []) (subscription 2) a_buffer
rmw_take_with_info-sample_example =
    rmw_take_with_info-sample 9 state second used (4 ∷ []) (chain_pool-IsStatic a_buffer)
      (omega arith) valid callbacks a_buffer (a_buffer ∷ a_buffer ∷ []) refl waiting

-- A handle of another implementation.
abbrev foreign : Handle
foreign = record (handle) { implementation_identifier = none }

not_ours : is_uxrce_rmw_identifier_valid foreign.implementation_identifier ≡ false
unfolding is_uxrce_rmw_identifier_valid
not_ours = refl

waiting-Reads :
    Reads callbacks
      (mailbox (chain_pool a_buffer) used (subscription 2))
      ((9 ∷ []) ∷ (9 ∷ []) ∷ (9 ∷ []) ∷ [])
unfolding mailbox owner_eq
waiting-Reads = (refl, (refl, (refl, refl)))

-- Five messages are asked for, and three wait.
rmw_take_sequence-Reads_example :
    (n : Mempool StaticInputBuffer) × (rmw_take_sequence 9 state second 5
      ≡ some (with_buffers state n, error, (9 ∷ []) ∷ (9 ∷ []) ∷ (9 ∷ []) ∷ []))
rmw_take_sequence-Reads_example =
    rmw_take_sequence-Reads 9 second callbacks valid 5 state used (4 ∷ [])
      ((9 ∷ []) ∷ (9 ∷ []) ∷ (9 ∷ []) ∷ []) refl (chain_pool-IsStatic a_buffer) (omega arith)
      waiting-Reads
