-- ===== src/Send/Publish.antt =====
-- `rmw_publish` and `flush_session` of src/rmw_publish.c. A message that does not fit into the
-- stream is sent in fragments, between which the client library calls `flush_session`.
use rmw_microxrcedds.Base.{ℕ, Bool, true, not, ◌&&◌, Option, none, some, List, ◌==◌, if◌then◌else◌}
use rmw_microxrcedds.Memory.{null}
use rmw_microxrcedds.Types.{
  ObjectId, StreamId, best_effort_stream, reliable_stream, MessageCallbacks,
}
use rmw_microxrcedds.State.{Globals, Publisher, Handle}
use rmw_microxrcedds.Handles.{Ret, ok, error, is_uxrce_rmw_identifier_valid}
use rmw_microxrcedds.Send.{invalid_request_id}

-- The client library and the generated code: `S` is the state of a session, `B` that of a
-- `ucdrBuffer`. The functions that prepare a stream return a request id and the buffer;
-- `cdr_serialize` is the function of a type support, `serialize_more` how the callback of the user,
-- `cs_cb_serialization`, acts on the buffer. A full buffer of a fragmented stream makes the library
-- flush in these two.
pub record Streams (S B M : Type 0) : Type 0 where
  pub uxr_prepare_output_stream : S → StreamId → ObjectId → ℕ → ℕ × B × S
  pub uxr_prepare_output_stream_fragmented :
      (flush_callback : S → Bool × S) → S → StreamId → ObjectId → ℕ → ℕ × B × S
  pub uxr_run_session_until_confirm_delivery : S → Bool × S
  pub uxr_flash_output_streams : S → S
  pub unlock_stream_id : S → StreamId → S
  pub cdr_serialize : MessageCallbacks M → M → B → S → Bool × B × S
  pub serialize_more : (List ℕ → List ℕ) → B → S → B × S

module _ {S B M : Type 0} (streams : Streams S B M) where
  unfoldable pub flush_session : S → Bool × S
  flush_session session = streams.uxr_run_session_until_confirm_delivery session

  -- The condition of `rmw_publish`, with the buffer: the stream, or else the fragmented stream, was
  -- prepared.
  unfoldable pub prepare : S → StreamId → ObjectId → (topic_length : ℕ) → Bool × B × S
  unfolding flush_session
  prepare session stream object topic_length =
      let (id, mb, session1) =
        streams.uxr_prepare_output_stream session stream object topic_length in
      let (id', mb', session2) =
        streams.uxr_prepare_output_stream_fragmented flush_session session1 stream object
          topic_length in
      if not (id == invalid_request_id)
      then (true, mb, session1)
      else (not (id' == invalid_request_id), mb', session2)

  unfoldable pub serialize : Publisher M → MessageCallbacks M → M → B → S → Bool × S
  serialize custom_publisher functions message mb session =
      let (written, mb1, session1) = streams.cdr_serialize functions message mb session in
      elim custom_publisher.cs_cb_serialization [
        | none ↦ (written, session1)
        | some callback ↦ (written, (streams.serialize_more callback mb1 session1).1)
      ]

  -- The flash, or the run with `written &= …`.
  unfoldable pub finish : StreamId → (written : Bool) → S → Bool × S
  finish best_effort_stream written session = (written, streams.uxr_flash_output_streams session)
  finish reliable_stream written session =
      let (delivered, session1) = streams.uxr_run_session_until_confirm_delivery session in
      (written && delivered, session1)

  -- The part behind the checks of the arguments.
  unfoldable pub publish_message : Publisher M → MessageCallbacks M → M → S → Ret × S
  unfolding prepare serialize finish
  publish_message custom_publisher functions message session =
      let stream = custom_publisher.stream_id in
      let size = functions.get_serialized_size message in
      let topic_length : ℕ = elim custom_publisher.cs_cb_size [
        | none ↦ size
        | some callback ↦ callback size
      ] in
      let (prepared, mb, session1) =
        prepare session stream custom_publisher.datawriter_id topic_length in
      let (written, session2) = serialize custom_publisher functions message mb session1 in
      let (sent, session3) = finish stream written (streams.unlock_stream_id session2 stream) in
      if prepared then (if sent then ok else error, session3) else (error, session1)

  -- `none` is a read through NULL.
  unfoldable pub rmw_publish :
      Globals M → (publisher : Option Handle) → (ros_message : Option M) → S → Option (Ret × S)
  unfolding publish_message
  rmw_publish g none message session = some (error, session)
  rmw_publish g (some publisher) none session = some (error, session)
  rmw_publish g (some publisher) (some message) session =
      if not (is_uxrce_rmw_identifier_valid publisher.implementation_identifier)
      then some (error, session)
      else if publisher.element == null
      then some (error, session)
      else (let custom_publisher = g.publisher_memory.elements publisher.element in
          elim custom_publisher.type_support_callbacks [
            | none ↦ none
            | some functions ↦ some (publish_message custom_publisher functions message session)
          ])
