-- ===== src/Receive/Arrival.antt =====
-- A sample from its callback to the function that takes it.
use rmw_microxrcedds.Base.{
  ℕ, suc, ◌<◌, ◌≡◌, refl, sym, subst, ◌∙◌, true, false, Bool-cases, inl, inr, none, some, List, ◌∷◌,
  ◌==◌, length,
}
use rmw_microxrcedds.Memory.{Ptr, null, Mempool}
use rmw_microxrcedds.Memory.Invariant.{IsPool}
use rmw_microxrcedds.Memory.Static.{IsStatic}
use rmw_microxrcedds.Types.{
  ObjectId, MessageCallbacks, ServiceCallbacks, SampleIdentity, StaticInputBuffer, Owner, owner_eq,
  subscription, service, client, sample_id, reply_id,
}
use rmw_microxrcedds.State.{Globals, Handle}
use rmw_microxrcedds.RequestIds.{request_id_of}
use rmw_microxrcedds.Buffers.{Incoming, buffer_at, written, store_input}
use rmw_microxrcedds.Buffers.Mailbox.{mailbox, Delivered, store_input-Delivered}
use rmw_microxrcedds.Buffers.Taken.{Taken, owner_eq_refl, eq_of_owner_eq}
use rmw_microxrcedds.Handles.{is_uxrce_rmw_identifier_valid}
use rmw_microxrcedds.Receive.{
  finished, on_topic, on_request, on_reply, rmw_take, rmw_take_request, rmw_take_response,
}
use rmw_microxrcedds.Receive.Take.{
  with_buffers, rmw_take_with_info-sample, rmw_take_request-sample, rmw_take_response-sample,
}
use rmw_microxrcedds.Receive.Deliver.{
  subscription_for, service_for, client_for, on_topic_lem, on_request_lem, on_reply_lem,
}

-- What a delivery and the next taking of the same owner do together: nothing to any mailbox.
pub record Unchanged (m n : Mempool StaticInputBuffer) (used idle : List Ptr) : Type 0 where
  pub left : List Ptr
  pub free : Ptr
  pub static : IsStatic n left (free ∷ idle)
  pub mailboxes : (o : Owner) → mailbox n left o ≡ mailbox m used o

module _ (m n k : Mempool StaticInputBuffer) (used idle : List Ptr) (f : Ptr) (owner : Owner)
    (b : StaticInputBuffer) (d : Delivered m n used idle f owner b) where
  Delivered-owner : mailbox n (f ∷ used) owner ≡ b ∷ mailbox m used owner
  Delivered-owner = d.mailboxes owner ∙ rw (owner_eq_refl owner) refl

  Taken-owner :
      (left : List Ptr)
      → mailbox n (f ∷ used) owner ≡ b ∷ mailbox k left owner
      → mailbox k left owner ≡ mailbox m used owner
  Taken-owner left e = let d1 = Delivered-owner in cc

  Taken-mailbox :
      (t : Taken n k (f ∷ used) idle owner b) (o : Owner) → mailbox k t.left o ≡ mailbox m used o
  Taken-mailbox t o = elim (Bool-cases (owner_eq owner o)) [
    | inl same ↦
        subst (λ w. mailbox k t.left w ≡ mailbox m used w) (eq_of_owner_eq owner o same)
          (Taken-owner t.left t.taken)
    | inr other ↦
        let now : mailbox n (f ∷ used) o ≡ mailbox k t.left o = t.mailboxes o ∙ rw other refl in
        sym now ∙ d.mailboxes o ∙ rw other refl
  ]

  Delivered-Taken : Taken n k (f ∷ used) idle owner b → Unchanged m k used idle
  Delivered-Taken t = record {
    left = t.left;
    free = t.free;
    static = t.static;
    mailboxes = Taken-mailbox t;
  }

module _ {M : Type 0} (fuel : ℕ) (g : Globals M) (handle : Handle) (f : Ptr) (used idle : List Ptr)
    (is : IsStatic g.static_buffer_memory used (f ∷ idle)) (lt : suc (length used) < fuel)
    (valid : is_uxrce_rmw_identifier_valid handle.implementation_identifier ≡ true)
    (sample : Incoming) (good : sample.deserialized ≡ true) where
  -- For a sample that can be read, that arrives while a buffer is free and for whose reader an
  -- allocated subscription is found: the next rmw_take on a valid handle of that subscription
  -- returns what its type support makes of exactly the bytes and the length that arrived, before
  -- all older samples, and every mailbox is then what it was before the arrival.
  pub rmw_take-on_topic :
      (object_id : ObjectId) (subs subs_idle : List Ptr) (callbacks : MessageCallbacks M)
      → IsPool g.subscription_memory subs subs_idle
      → length subs < fuel
      → (subscription_for fuel g subs object_id == null) ≡ false
      → (g.subscription_memory.items (subscription_for fuel g subs object_id)).element
        ≡ handle.element
      → (g.subscription_memory.elements handle.element).type_support_callbacks ≡ some callbacks
      → (m n : Mempool StaticInputBuffer) × (on_topic fuel g object_id sample
          ≡ some (with_buffers g m))
        × (rmw_take fuel (with_buffers g m) handle
            ≡ some
                (with_buffers g n, finished (callbacks.cdr_deserialize sample.bytes sample.length)))
        × Unchanged g.static_buffer_memory n used idle
  unfolding rmw_take
  rmw_take-on_topic object_id subs subs_idle callbacks pool short found at typed =
      let owner = subscription handle.element in
      let m = store_input g.static_buffer_memory owner none sample in
      let b = written (buffer_at g.static_buffer_memory f) owner none sample in
      let d = store_input-Delivered g.static_buffer_memory owner none sample f used idle is good in
      let (n, taken, t) =
        rmw_take_with_info-sample fuel (with_buffers g m) handle (f ∷ used) idle d.static lt valid
          callbacks b (mailbox g.static_buffer_memory used owner) typed
          (Delivered-owner g.static_buffer_memory m g.static_buffer_memory used idle f owner b d) in
      (
        m,
        n,
        on_topic_lem fuel g object_id sample subs subs_idle pool short ∙ rw (found, at) refl,
        taken,
        Delivered-Taken g.static_buffer_memory m n used idle f owner b d t,
      )

  -- For a request that can be read, that arrives while a buffer is free and for whose request id
  -- an allocated service is found: the next rmw_take_request on a valid handle of that service
  -- returns what its type support makes of the bytes that arrived, with the header made from the
  -- identity that arrived with them, and every mailbox is then what it was before the arrival.
  pub rmw_take_request-on_request :
      (request_id : ℕ) (identity : SampleIdentity) (services service_idle : List Ptr)
      (callbacks : ServiceCallbacks M)
      → IsPool g.service_memory services service_idle
      → length services < fuel
      → (service_for fuel g services request_id == null) ≡ false
      → (g.service_memory.items (service_for fuel g services request_id)).element ≡ handle.element
      → (g.service_memory.elements handle.element).type_support_callbacks ≡ some callbacks
      → (m n : Mempool StaticInputBuffer) × (on_request fuel g request_id identity sample
          ≡ some (with_buffers g m))
        × (rmw_take_request fuel (with_buffers g m) handle
            ≡ some (
              with_buffers g n,
              finished (callbacks.request_members.cdr_deserialize sample.bytes sample.length),
              some (request_id_of identity),
            ))
        × Unchanged g.static_buffer_memory n used idle
  rmw_take_request-on_request request_id identity services service_idle callbacks pool short found
        at typed =
      let owner = service handle.element in
      let m = store_input g.static_buffer_memory owner (some (sample_id identity)) sample in
      let b =
        written (buffer_at g.static_buffer_memory f) owner (some (sample_id identity)) sample in
      let d =
        store_input-Delivered g.static_buffer_memory owner (some (sample_id identity)) sample f used
          idle is good in
      let (n, taken, t) =
        rmw_take_request-sample fuel (with_buffers g m) handle (f ∷ used) idle d.static lt valid
          callbacks identity b (mailbox g.static_buffer_memory used owner) typed
          (Delivered-owner g.static_buffer_memory m g.static_buffer_memory used idle f owner b d)
          refl in
      (
        m,
        n,
        on_request_lem fuel g request_id identity sample services service_idle pool short
            ∙ rw (found, at) refl,
        taken,
        Delivered-Taken g.static_buffer_memory m n used idle f owner b d t,
      )

  -- For a reply that can be read, that arrives while a buffer is free and for whose request id an
  -- allocated client is found: the next rmw_take_response on a valid handle of that client
  -- returns what its type support makes of the bytes that arrived, with the reply id that arrived
  -- with them as the sequence number, and every mailbox is then what it was before the arrival.
  pub rmw_take_response-on_reply :
      (request_id id : ℕ) (clients client_idle : List Ptr) (callbacks : ServiceCallbacks M)
      → IsPool g.client_memory clients client_idle
      → length clients < fuel
      → (client_for fuel g clients request_id == null) ≡ false
      → (g.client_memory.items (client_for fuel g clients request_id)).element ≡ handle.element
      → (g.client_memory.elements handle.element).type_support_callbacks ≡ some callbacks
      → (m n : Mempool StaticInputBuffer) × (on_reply fuel g request_id id sample
          ≡ some (with_buffers g m))
        × (rmw_take_response fuel (with_buffers g m) handle
            ≡ some (
              with_buffers g n,
              finished (callbacks.response_members.cdr_deserialize sample.bytes sample.length),
              some id,
            ))
        × Unchanged g.static_buffer_memory n used idle
  rmw_take_response-on_reply request_id id clients client_idle callbacks pool short found at typed =
      let owner = client handle.element in
      let m = store_input g.static_buffer_memory owner (some (reply_id id)) sample in
      let b = written (buffer_at g.static_buffer_memory f) owner (some (reply_id id)) sample in
      let d =
        store_input-Delivered g.static_buffer_memory owner (some (reply_id id)) sample f used idle
          is good in
      let (n, taken, t) =
        rmw_take_response-sample fuel (with_buffers g m) handle (f ∷ used) idle d.static lt valid
          callbacks id b (mailbox g.static_buffer_memory used owner) typed
          (Delivered-owner g.static_buffer_memory m g.static_buffer_memory used idle f owner b d)
          refl in
      (
        m,
        n,
        on_reply_lem fuel g request_id id sample clients client_idle pool short
            ∙ rw (found, at) refl,
        taken,
        Delivered-Taken g.static_buffer_memory m n used idle f owner b d t,
      )
