-- ===== src/Send.antt =====
-- Sending: `rmw_send_request` of src/rmw_request.c and `rmw_send_response` of src/rmw_response.c;
-- the child Publish is `rmw_publish` of src/rmw_publish.c. The output streams belong to the XRCE client; what
-- these functions do to them is the list of their calls.
pub mod Publish
pub mod Publishing
pub mod Replies
use rmw_microxrcedds.Base.{
  ℕ, ◌+◌, ◌%◌, ◌^◌, Bool, not, ◌&&◌, ◌||◌, Option, none, some, List, ◌∷◌, ◌++◌, ◌==◌, if◌then◌else◌,
}
use rmw_microxrcedds.Memory.{null}
use rmw_microxrcedds.Types.{
  ObjectId, StreamId, best_effort_stream, reliable_stream, SampleIdentity, MessageCallbacks,
}
use rmw_microxrcedds.RequestIds.{RequestId, sample_identity_of}
use rmw_microxrcedds.State.{Globals, Handle}
use rmw_microxrcedds.Handles.{
  Ret, ok, error, incorrect_rmw_implementation, is_uxrce_rmw_identifier_valid,
}

-- One effect on the session: bytes were written behind a prepared header, the stream was unlocked,
-- the output streams were flashed, the session was run until the delivery is confirmed.
pub data Effect : Type 0 where
  submitted : StreamId → ObjectId → (length : ℕ) → List ℕ → Effect
  unlocked : StreamId → Effect
  flashed confirming : Effect

-- The client library. The function that prepares a stream returns a request id.
pub record Library : Type 0 where
  pub uxr_prepare_output_stream : List Effect → StreamId → ObjectId → ℕ → ℕ
  pub uxr_run_session_until_confirm_delivery : List Effect → Bool
  pub uxr_serialize_SampleIdentity : SampleIdentity → List ℕ

-- UXR_INVALID_REQUEST_ID
abbrev pub invalid_request_id : ℕ
invalid_request_id = 0

-- The output of the session, the newest effect first.
abbrev pub Output : Type 0
Output = List Effect

module _ (library : Library) where
  -- A best-effort stream is flashed, on a reliable one the session is run until the delivery is
  -- confirmed. The result is `none` where nothing is waited for.
  unfoldable pub deliver : Output → StreamId → Option Bool × Output
  deliver out best_effort_stream = (none, flashed ∷ out)
  deliver out reliable_stream =
      (some (library.uxr_run_session_until_confirm_delivery out), confirming ∷ out)

  module _ {M : Type 0} where
    -- The result, and the number that is written to `*sequence_id`.
    unfoldable pub rmw_send_request :
        Output
        → Globals M
        → (client : Handle) → (ros_request : M) → Option ((Ret × Option ℕ) × Output)
    unfolding deliver
    rmw_send_request out g client request =
        if not (is_uxrce_rmw_identifier_valid client.implementation_identifier)
        then some ((incorrect_rmw_implementation, none), out)
        else (let custom_client = g.client_memory.elements client.element in
            elim custom_client.type_support_callbacks [
              | none ↦ none
              | some members ↦
                  let functions = members.request_members in
                  let request_length = functions.get_serialized_size request in
                  let stream = custom_client.stream_id in
                  let id =
                    library.uxr_prepare_output_stream out stream custom_client.client_id
                      request_length in
                  let written =
                    submitted stream custom_client.client_id request_length
                      (functions.cdr_serialize request).1 in
                  if id == invalid_request_id
                  then some ((error, some id), out)
                  else some ((ok, some id), (deliver (unlocked stream ∷ written ∷ out) stream).1)
            ])

    unfoldable pub rmw_send_response :
        Output
        → Globals M
        → (service : Handle) → (request_header : RequestId) → (ros_response : M)
        → Option (Ret × Output)
    unfolding deliver sample_identity_of
    rmw_send_response out g service header response =
        if not (is_uxrce_rmw_identifier_valid service.implementation_identifier)
        then some (incorrect_rmw_implementation, out)
        else (let custom_service = g.service_memory.elements service.element in
            elim custom_service.type_support_callbacks [
              | none ↦ none
              | some members ↦
                  let sample_id = sample_identity_of header in
                  let functions = members.response_members in
                  let response_length = (functions.get_serialized_size response + 24) % 2 ^ 32 in
                  let stream = custom_service.stream_id in
                  let written = submitted stream custom_service.service_id response_length (
                    library.uxr_serialize_SampleIdentity sample_id
                    ++ (functions.cdr_serialize response).1) in
                  if library.uxr_prepare_output_stream out stream custom_service.service_id
                      response_length
                    == invalid_request_id
                  then some (error, out)
                  else some (ok, (deliver (unlocked stream ∷ written ∷ out) stream).1)
            ])
