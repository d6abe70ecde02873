-- ===== src/Send/Publishing.antt =====
-- What rmw_publish does to the lock of the stream, and when it returns RMW_RET_OK.
use rmw_microxrcedds.Base.{
  false, ℕ, ◌+◌, ◌-◌, ◌≡◌, ◌⊎◌, ◌&&◌, Bool, true, none, some, List, ◌==◌, if◌then◌else◌,
}
use rmw_microxrcedds.Types.{
  StreamId, ObjectId, best_effort_stream, reliable_stream, MessageCallbacks,
}
use rmw_microxrcedds.State.{Publisher}
use rmw_microxrcedds.Handles.{Ret, ok, error}
use rmw_microxrcedds.Send.{invalid_request_id}
use rmw_microxrcedds.Send.Publish.{Streams, prepare}

-- How often a session's streams are locked: the functions that prepare a stream lock it if they
-- return a request id, and what flushes or runs the session leaves the lock alone.
pub record Locks {S B M : Type 0} (streams : Streams S B M) : Type 0 where
  pub locked : S → ℕ
  pub prepared :
      (s : S) (stream : StreamId) (object : ObjectId) (n : ℕ)
      → let (id, mb, s') = streams.uxr_prepare_output_stream s stream object n in
        locked s' ≡ (if id == invalid_request_id then locked s else locked s + 1)
  pub run : (s : S) → locked (streams.uxr_run_session_until_confirm_delivery s).1 ≡ locked s
  pub fragmented :
      (flush_callback : S → Bool × S) (s : S) (stream : StreamId) (object : ObjectId) (n : ℕ)
      → ((s1 : S) → locked (flush_callback s1).1 ≡ locked s1)
      → let (id, mb, s') =
          streams.uxr_prepare_output_stream_fragmented flush_callback s stream object n in
        locked s' ≡ (if id == invalid_request_id then locked s else locked s + 1)
  pub flashed : (s : S) → locked (streams.uxr_flash_output_streams s) ≡ locked s
  pub unlocked :
      (s : S) (stream : StreamId) → locked (streams.unlock_stream_id s stream) ≡ locked s - 1
  pub serialized :
      (functions : MessageCallbacks M) (message : M) (mb : B) (s : S)
      → let (written, mb', s') = streams.cdr_serialize functions message mb s in
        locked s' ≡ locked s
  pub serialized_more :
      (callback : List ℕ → List ℕ) (mb : B) (s : S)
      → locked (streams.serialize_more callback mb s).1 ≡ locked s

module _ {S B M : Type 0} (streams : Streams S B M) (locks : Locks streams) where
  -- Nothing is waited for on a best-effort stream; on a reliable one `delivered` is what the run of
  -- the session in the state `s` returned, which ended in `s'`.
  abbrev pub Delivered : StreamId → (s : S) → (delivered : Bool) → (s' : S) → Type 0
  Delivered stream s delivered s' =
      ((stream ≡ best_effort_stream) × (delivered ≡ true))
      ⊎ ((stream ≡ reliable_stream)
          × (streams.uxr_run_session_until_confirm_delivery s ≡ (delivered, s')))

  -- The length that the stream is prepared for.
  abbrev pub length_of : Publisher M → MessageCallbacks M → M → ℕ
  length_of p functions message =
      let size = functions.get_serialized_size message in
      elim p.cs_cb_size [ none ↦ size | some callback ↦ callback size ]

  -- No stream was prepared and the result is an error; or the message was serialized into the
  -- prepared buffer and delivered, and the result says whether both succeeded.
  abbrev pub Outcome : Publisher M → MessageCallbacks M → M → (s : S) → Ret → (s' : S) → Type 0
  Outcome p functions message s ret s' =
      let (prepared, mb, s1) =
        prepare streams s p.stream_id p.datawriter_id (length_of p functions message) in
      let written = (streams.cdr_serialize functions message mb s1).0 in
      ((prepared ≡ false) × (ret ≡ error))
      ⊎ ((prepared ≡ true)
          × (s2 : S) × (delivered : Bool) × Delivered p.stream_id s2 delivered s'
          × (ret ≡ (if written && delivered then ok else error)))
