-- ===== src/Send/Replies.antt =====
-- A response goes back to the request that it answers, and what a client learns of its request.
use rmw_microxrcedds.Base.{
  ℕ, suc, ◌+◌, ◌%◌, ◌^◌, ◌<◌, ◌≡◌, refl, true, false, some, List, ◌∷◌, ◌++◌, ◌==◌, length,
}
use rmw_microxrcedds.Memory.{Ptr, null, Mempool}
use rmw_microxrcedds.Memory.Invariant.{IsPool}
use rmw_microxrcedds.Memory.Static.{IsStatic}
use rmw_microxrcedds.Types.{StreamId, ObjectId, ServiceCallbacks, SampleIdentity, StaticInputBuffer}
use rmw_microxrcedds.State.{Globals, Handle}
use rmw_microxrcedds.RequestIds.{RequestId, request_id_of, sample_identity_of}
use rmw_microxrcedds.RequestIds.RoundTrip.{IsSampleIdentity, sample_identity_of-request_id_of}
use rmw_microxrcedds.Buffers.{Incoming}
use rmw_microxrcedds.Handles.{ok, is_uxrce_rmw_identifier_valid}
use rmw_microxrcedds.Receive.{finished, on_request, rmw_take_request}
use rmw_microxrcedds.Receive.Take.{with_buffers}
use rmw_microxrcedds.Receive.Deliver.{service_for}
use rmw_microxrcedds.Receive.Arrival.{rmw_take_request-on_request}
use rmw_microxrcedds.Send.{
  submitted, unlocked, invalid_request_id, Library, Output, deliver, rmw_send_response,
}

-- What sending these bytes leaves, whatever the agent answers.
abbrev pub after_sending : Library → Output → StreamId → ObjectId → ℕ → List ℕ → Output
after_sending library out stream object n bytes =
    (deliver library (unlocked stream ∷ submitted stream object n bytes ∷ out) stream).1

module _ {M : Type 0} (library : Library) (out : Output) where
  rmw_send_response-header :
      (g : Globals M) (handle : Handle) (header : RequestId) (identity : SampleIdentity)
      (response : M) (callbacks : ServiceCallbacks M)
      → is_uxrce_rmw_identifier_valid handle.implementation_identifier ≡ true
      → (g.service_memory.elements handle.element).type_support_callbacks ≡ some callbacks
      → sample_identity_of header ≡ identity
      → let custom_service = g.service_memory.elements handle.element in
        let functions = callbacks.response_members in
        let n = (functions.get_serialized_size response + 24) % 2 ^ 32 in
        (library.uxr_prepare_output_stream out custom_service.stream_id custom_service.service_id n
            == invalid_request_id)
          ≡ false
        → rmw_send_response library out g handle header response
          ≡ some (
            ok,
            after_sending library out custom_service.stream_id custom_service.service_id n (
                library.uxr_serialize_SampleIdentity identity
                ++ (functions.cdr_serialize response).1),
          )
  unfolding rmw_send_response
  rmw_send_response-header g handle header identity response callbacks valid typed same ready =
      rw (valid, typed, same, ready) refl

  -- For a request that can be read, that arrives while a buffer is free and for whose request id
  -- an allocated service is found, and whose identity has the widths of its fields:
  -- rmw_take_request on a valid handle of that service hands out a header with which the next
  -- rmw_send_response, when the stream of the service can be prepared, returns RMW_RET_OK and
  -- submits, on that stream and for that service, exactly the identity that arrived with the
  -- request and the bytes of the response behind it.
  pub rmw_send_response-on_request :
      (fuel : ℕ) (g : Globals M) (handle : Handle) (f : Ptr) (used idle : List Ptr)
      (is : IsStatic g.static_buffer_memory used (f ∷ idle)) (lt : suc (length used) < fuel)
      (valid : is_uxrce_rmw_identifier_valid handle.implementation_identifier ≡ true)
      (sample : Incoming) (good : sample.deserialized ≡ true) (request_id : ℕ)
      (identity : SampleIdentity) (services service_idle : List Ptr)
      (callbacks : ServiceCallbacks M) (response : M)
      → IsPool g.service_memory services service_idle
      → length services < fuel
      → (service_for fuel g services request_id == null) ≡ false
      → (g.service_memory.items (service_for fuel g services request_id)).element ≡ handle.element
      → (g.service_memory.elements handle.element).type_support_callbacks ≡ some callbacks
      → IsSampleIdentity identity
      → let custom_service = g.service_memory.elements handle.element in
        let functions = callbacks.response_members in
        let n = (functions.get_serialized_size response + 24) % 2 ^ 32 in
        (library.uxr_prepare_output_stream out custom_service.stream_id custom_service.service_id n
            == invalid_request_id)
          ≡ false
        → (m k : Mempool StaticInputBuffer) × (header : RequestId) × (on_request fuel g request_id
              identity sample
            ≡ some (with_buffers g m))
          × (rmw_take_request fuel (with_buffers g m) handle
              ≡ some (
                with_buffers g k,
                finished (callbacks.request_members.cdr_deserialize sample.bytes sample.length),
                some header,
              ))
          × (rmw_send_response library out (with_buffers g k) handle header response
              ≡ some (
                ok,
                after_sending library out custom_service.stream_id custom_service.service_id n (
                    library.uxr_serialize_SampleIdentity identity
                    ++ (functions.cdr_serialize response).1),
              ))
  rmw_send_response-on_request fuel g handle f used idle is lt valid sample good request_id identity
        services service_idle callbacks response pool short found at typed widths ready =
      let (m, k, arrived, taken, _) =
        rmw_take_request-on_request fuel g handle f used idle is lt valid sample good request_id
          identity services service_idle callbacks pool short found at typed in
      (
        m,
        k,
        request_id_of identity,
        arrived,
        taken,
        rmw_send_response-header (with_buffers g k) handle (request_id_of identity) identity
            response callbacks valid typed (sample_identity_of-request_id_of identity widths) ready,
      )
