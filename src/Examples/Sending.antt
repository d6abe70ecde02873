-- ===== src/Examples/Sending.antt =====
-- The theorems on sending, applied to the state of the parent.
use rmw_microxrcedds.Base.{
  Option, ℕ, ◌+◌, ◌-◌, ltb, if◌then◌else◌, ◌≡◌, refl, arith, true, false, some, ◌==◌, List, [], ◌∷◌,
  ◌++◌,
}
use rmw_microxrcedds.Memory.{Ptr, Mempool}
use rmw_microxrcedds.Types.{SampleIdentity, StaticInputBuffer, reliable_stream}
use rmw_microxrcedds.RequestIds.{RequestId}
use rmw_microxrcedds.Memory.Walk.{first}
use rmw_microxrcedds.Buffers.{Incoming}
use rmw_microxrcedds.Handles.{ok, is_uxrce_rmw_identifier_valid}
use rmw_microxrcedds.Receive.{finished, on_request, rmw_take_request}
use rmw_microxrcedds.Receive.Take.{with_buffers}
use rmw_microxrcedds.Receive.Deliver.{service_for}
use rmw_microxrcedds.Send.{submitted, unlocked, Library, deliver, rmw_send_response}
use rmw_microxrcedds.Send.Publish.{Streams}
use rmw_microxrcedds.Send.Replies.{rmw_send_response-on_request}
use rmw_microxrcedds.Examples.{
  chain_pool-IsStatic, a_buffer, a_service, service_callbacks, no_id, state, handle,
}

-- Every stream can be prepared, and the agent confirms every delivery.
abbrev library : Library
library = record {
  uxr_prepare_output_stream = λ out stream object n. 5;
  uxr_run_session_until_confirm_delivery = λ out. true;
  uxr_serialize_SampleIdentity =
      λ s. s.high ∷ s.low ∷ s.entity_kind ∷ (s.entity_key ++ s.guid_prefix);
}

abbrev identity : SampleIdentity
identity = record {
  high = 1;
  low = 2;
  entity_kind = 3;
  entity_key = 4 ∷ 5 ∷ 6 ∷ [];
  guid_prefix = 1 ∷ 2 ∷ 3 ∷ 4 ∷ 5 ∷ 6 ∷ 7 ∷ 8 ∷ 9 ∷ 10 ∷ 11 ∷ 12 ∷ [];
}

abbrev sample : Incoming
sample = record { length = 3; bytes = 2 ∷ 8 ∷ 9 ∷ []; deserialized = true }

abbrev used : List Ptr
used = 1 ∷ 2 ∷ 3 ∷ []

valid : is_uxrce_rmw_identifier_valid handle.implementation_identifier ≡ true
unfolding is_uxrce_rmw_identifier_valid
valid = refl

at_first_service :
    ((service_for 9 state used 12 == 0) ≡ false)
    × ((state.service_memory.items (service_for 9 state used 12)).element ≡ 1)
unfolding first
at_first_service = (refl, refl)

-- A session with one lock, and the bytes that were sent.
record Wire : Type 0 where
  locks : ℕ
  sent : List ℕ

-- Four bytes fit into the stream, and longer messages are sent in fragments.
abbrev streams : Streams Wire ℕ (List ℕ)
streams = record {
  uxr_prepare_output_stream =
      λ s stream object n. if ltb 4 n then (0, 0, s) else (5, 0, record s { locks = s.locks + 1 });
  uxr_prepare_output_stream_fragmented = λ flush_callback s stream object n.
      let s1 = (flush_callback s).1 in (6, 0, record s1 { locks = s1.locks + 1 });
  uxr_run_session_until_confirm_delivery = λ s. (true, s);
  uxr_flash_output_streams = λ s. s;
  unlock_stream_id = λ s stream. record s { locks = s.locks - 1 };
  cdr_serialize = λ functions message mb s.
      (true, mb, record s { sent = (functions.cdr_serialize message).1 ++ s.sent });
  serialize_more = λ callback mb s. (mb, record s { sent = callback s.sent });
}

abbrev idle_wire : Wire
idle_wire = record { locks = 0; sent = [] }

abbrev given : Option (List ℕ)
given = some (8 ∷ 9 ∷ [])

rmw_send_response-on_request_example :
    (m k : Mempool StaticInputBuffer) × (header : RequestId) × (on_request 9 state 12 identity
        sample
      ≡ some (with_buffers state m))
    × (rmw_take_request 9 (with_buffers state m) handle
        ≡ some (with_buffers state k, finished (some (8 ∷ 9 ∷ [])), some header))
    × (rmw_send_response library [] (with_buffers state k) handle header (7 ∷ [])
        ≡ some (
          ok,
          (deliver library
              (unlocked reliable_stream
                ∷ submitted reliable_stream no_id 26
                    ((1 ∷ 2 ∷ 3 ∷ 4 ∷ 5 ∷ 6 ∷ identity.guid_prefix) ++ 1 ∷ 7 ∷ [])
                ∷ [])
              reliable_stream).1,
        ))
rmw_send_response-on_request_example =
    rmw_send_response-on_request library [] 9 state handle 4 used [] (chain_pool-IsStatic a_buffer)
      (omega arith) valid sample refl 12 identity used (4 ∷ []) service_callbacks (7 ∷ [])
      (chain_pool-IsStatic a_service).pool (omega arith) at_first_service.0 at_first_service.1 refl
      (record { high = omega arith; low = omega arith; entity_key = refl; guid_prefix = refl }) refl
