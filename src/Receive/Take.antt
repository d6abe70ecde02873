-- ===== src/Receive/Take.antt =====
-- `rmw_take`, `rmw_take_with_info`, `rmw_take_request` and `rmw_take_response` against the
-- mailboxes.
use rmw_microxrcedds.Base.{
  ℕ, ◌<◌, ◌≡◌, ap, ◌∙◌, true, false, none, some, List, [], ◌∷◌, ◌==◌, length,
}
use rmw_microxrcedds.Memory.{Ptr, null, Mempool, put_memory}
use rmw_microxrcedds.Memory.Static.{IsStatic}
use rmw_microxrcedds.Types.{
  MessageCallbacks, ServiceCallbacks, SampleIdentity, StaticInputBuffer, subscription, service,
  client, sample_id, reply_id,
}
use rmw_microxrcedds.State.{Globals, Handle}
use rmw_microxrcedds.RequestIds.{request_id_of}
use rmw_microxrcedds.Buffers.{buffer_at, find_static_input_buffer_by_owner}
use rmw_microxrcedds.Buffers.Mailbox.{mailbox}
use rmw_microxrcedds.Buffers.Taken.{Taken, find-none, find-first}
use rmw_microxrcedds.Handles.{error, incorrect_rmw_implementation, is_uxrce_rmw_identifier_valid}
use rmw_microxrcedds.Receive.{
  refused, finished, give_back, rmw_take_with_info, rmw_take_request, rmw_take_response,
}

module _ {M : Type 0} where
  -- The state with another pool of buffers.
  abbrev pub with_buffers : Globals M → Mempool StaticInputBuffer → Globals M
  with_buffers g n = record g { static_buffer_memory = n }

  -- For a handle of another implementation: rmw_take_with_info returns RMW_RET_ERROR and the
  -- functions for requests and replies RMW_RET_INCORRECT_RMW_IMPLEMENTATION, without taking
  -- anything or changing the state.
  pub take-foreign :
      (fuel : ℕ) (g : Globals M) (handle : Handle)
      → is_uxrce_rmw_identifier_valid handle.implementation_identifier ≡ false
      → (rmw_take_with_info fuel g handle ≡ some (g, refused error))
        × (rmw_take_request fuel g handle ≡ some (g, refused incorrect_rmw_implementation, none))
        × (rmw_take_response fuel g handle ≡ some (g, refused incorrect_rmw_implementation, none))
  unfolding rmw_take_with_info rmw_take_request rmw_take_response
  take-foreign fuel g handle foreign = (rw foreign, rw foreign, rw foreign)

-- The three functions once the search has found the item `x`.
module _ {M : Type 0} (fuel : ℕ) (g : Globals M) (handle : Handle) (x : Ptr)
    (valid : is_uxrce_rmw_identifier_valid handle.implementation_identifier ≡ true)
    (not_null : (x == null) ≡ false) where
  rmw_take_request-found :
      (callbacks : ServiceCallbacks M) (identity : SampleIdentity) (b : StaticInputBuffer)
      → find_static_input_buffer_by_owner fuel g.static_buffer_memory (service handle.element)
        ≡ some x
      → buffer_at g.static_buffer_memory x ≡ b
      → (g.service_memory.elements handle.element).type_support_callbacks ≡ some callbacks
      → b.related ≡ sample_id identity
      → rmw_take_request fuel g handle
        ≡ some (
          give_back g x,
          finished (callbacks.request_members.cdr_deserialize b.buffer b.length),
          some (request_id_of identity),
        )
  unfolding rmw_take_request
  rmw_take_request-found callbacks identity b found same typed tagged =
      let tag : (buffer_at g.static_buffer_memory x).related ≡ sample_id identity =
        ap (λ c. c.related) same ∙ tagged in
      rw (valid, found, not_null, tag, typed)
        (ap
          (λ c. some (
            give_back g x,
            finished (callbacks.request_members.cdr_deserialize c.buffer c.length),
            some (request_id_of identity),
          ))
          same)

  rmw_take_response-found :
      (callbacks : ServiceCallbacks M) (id : ℕ) (b : StaticInputBuffer)
      → find_static_input_buffer_by_owner fuel g.static_buffer_memory (client handle.element)
        ≡ some x
      → buffer_at g.static_buffer_memory x ≡ b
      → (g.client_memory.elements handle.element).type_support_callbacks ≡ some callbacks
      → b.related ≡ reply_id id
      → rmw_take_response fuel g handle
        ≡ some (
          give_back g x,
          finished (callbacks.response_members.cdr_deserialize b.buffer b.length),
          some id,
        )
  unfolding rmw_take_response
  rmw_take_response-found callbacks id b found same typed tagged =
      let tag : (buffer_at g.static_buffer_memory x).related ≡ reply_id id =
        ap (λ c. c.related) same ∙ tagged in
      rw (valid, found, not_null, tag, typed)
        (ap
          (λ c. some (
            give_back g x,
            finished (callbacks.response_members.cdr_deserialize c.buffer c.length),
            some id,
          ))
          same)

module _ {M : Type 0} (fuel : ℕ) (g : Globals M) (handle : Handle) (used idle : List Ptr)
    (is : IsStatic g.static_buffer_memory used idle) (lt : length used < fuel)
    (valid : is_uxrce_rmw_identifier_valid handle.implementation_identifier ≡ true) where
  -- For a valid handle whose subscription has no waiting sample: rmw_take_with_info returns an
  -- error with taken false, and changes nothing.
  pub rmw_take_with_info-empty :
      mailbox g.static_buffer_memory used (subscription handle.element) ≡ []
      → rmw_take_with_info fuel g handle ≡ some (g, refused error)
  unfolding rmw_take_with_info
  rmw_take_with_info-empty empty =
      let e =
        find-none fuel g.static_buffer_memory used idle (subscription handle.element) is lt empty in
      rw (valid, e)

  -- For a valid handle whose subscription has a waiting sample: rmw_take_with_info returns what
  -- the type support makes of the first one, and removes this sample and no other, whether or not
  -- it could be deserialised.
  pub rmw_take_with_info-sample :
      (callbacks : MessageCallbacks M) (b : StaticInputBuffer) (rest : List StaticInputBuffer)
      → (g.subscription_memory.elements handle.element).type_support_callbacks ≡ some callbacks
      → mailbox g.static_buffer_memory used (subscription handle.element) ≡ b ∷ rest
      → (n : Mempool StaticInputBuffer) × (rmw_take_with_info fuel g handle
          ≡ some (with_buffers g n, finished (callbacks.cdr_deserialize b.buffer b.length)))
        × Taken g.static_buffer_memory n used idle (subscription handle.element) b
  unfolding rmw_take_with_info give_back
  rmw_take_with_info-sample callbacks b rest typed full =
      let (x, f) =
        find-first fuel g.static_buffer_memory used idle (subscription handle.element) is lt b rest
          full in
      (
        put_memory false g.static_buffer_memory x,
        rw (valid, f.found, f.not_null) (rw (typed, f.sample)),
        f.given_back,
      )

  -- `rmw_take_request`: the header is the identity that the callback stored with the sample.
  pub rmw_take_request-empty :
      mailbox g.static_buffer_memory used (service handle.element) ≡ []
      → rmw_take_request fuel g handle ≡ some (g, refused error, none)
  unfolding rmw_take_request
  rmw_take_request-empty empty =
      let e =
        find-none fuel g.static_buffer_memory used idle (service handle.element) is lt empty in
      rw (valid, e)

  pub rmw_take_request-sample :
      (callbacks : ServiceCallbacks M) (identity : SampleIdentity) (b : StaticInputBuffer)
      (rest : List StaticInputBuffer)
      → (g.service_memory.elements handle.element).type_support_callbacks ≡ some callbacks
      → mailbox g.static_buffer_memory used (service handle.element) ≡ b ∷ rest
      → b.related ≡ sample_id identity
      → (n : Mempool StaticInputBuffer) × (rmw_take_request fuel g handle
          ≡ some (
            with_buffers g n,
            finished (callbacks.request_members.cdr_deserialize b.buffer b.length),
            some (request_id_of identity),
          ))
        × Taken g.static_buffer_memory n used idle (service handle.element) b
  unfolding rmw_take_request give_back
  rmw_take_request-sample callbacks identity b rest typed full tagged =
      let (x, f) =
        find-first fuel g.static_buffer_memory used idle (service handle.element) is lt b rest
          full in
      (
        put_memory false g.static_buffer_memory x,
        rmw_take_request-found fuel g handle x valid f.not_null callbacks identity b f.found
            f.sample typed tagged,
        f.given_back,
      )

  -- `rmw_take_response`: the sequence number is the reply id that the callback stored.
  pub rmw_take_response-empty :
      mailbox g.static_buffer_memory used (client handle.element) ≡ []
      → rmw_take_response fuel g handle ≡ some (g, refused error, none)
  unfolding rmw_take_response
  rmw_take_response-empty empty =
      let e = find-none fuel g.static_buffer_memory used idle (client handle.element) is lt empty in
      rw (valid, e)

  pub rmw_take_response-sample :
      (callbacks : ServiceCallbacks M) (id : ℕ) (b : StaticInputBuffer)
      (rest : List StaticInputBuffer)
      → (g.client_memory.elements handle.element).type_support_callbacks ≡ some callbacks
      → mailbox g.static_buffer_memory used (client handle.element) ≡ b ∷ rest
      → b.related ≡ reply_id id
      → (n : Mempool StaticInputBuffer) × (rmw_take_response fuel g handle
          ≡ some (
            with_buffers g n,
            finished (callbacks.response_members.cdr_deserialize b.buffer b.length),
            some id,
          ))
        × Taken g.static_buffer_memory n used idle (client handle.element) b
  unfolding rmw_take_response give_back
  rmw_take_response-sample callbacks id b rest typed full tagged =
      let (x, f) =
        find-first fuel g.static_buffer_memory used idle (client handle.element) is lt b rest
          full in
      (
        put_memory false g.static_buffer_memory x,
        rmw_take_response-found fuel g handle x valid f.not_null callbacks id b f.found f.sample
            typed tagged,
        f.given_back,
      )
