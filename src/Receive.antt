-- ===== src/Receive.antt =====
-- Receiving: src/callbacks.c, src/rmw_take.c, `rmw_take_request` of src/rmw_request.c and
-- `rmw_take_response` of src/rmw_response.c.

pub mod Take
pub mod Deliver
pub mod Arrival
pub mod Sequence
use rmw_microxrcedds.Base.{
  ℕ, zero, suc, Bool, true, false, not, Option, none, some, List, [], ◌++◌, option_list, ◌==◌, ◌&&◌,
  if◌then◌else◌,
}
use rmw_microxrcedds.Memory.{Ptr, null, put_memory}
use rmw_microxrcedds.Memory.Walk.{walk}
use rmw_microxrcedds.Types.{
  ObjectId, object_id_eq, SampleIdentity, MessageCallbacks, StaticInputBuffer, Owner, subscription,
  service, client, Related, reply_id, sample_id,
}
use rmw_microxrcedds.RequestIds.{RequestId, request_id_of}
use rmw_microxrcedds.State.{Globals, Handle}
use rmw_microxrcedds.Buffers.{Incoming, buffer_at, find_static_input_buffer_by_owner, store_input}
use rmw_microxrcedds.Handles.{
  Ret, ok, error, incorrect_rmw_implementation, is_uxrce_rmw_identifier_valid,
}

abbrev pub is_ok : Ret → Bool
is_ok ok = true
is_ok _ = false

-- `none` is a loop that does not end within the fuel, or a read through NULL.
infixl 5 ◌>>=◌
abbrev pub ◌>>=◌ {ℓ κ} : {A : Type ℓ} {B : Type κ} → Option A → (A → Option B) → Option B
none >>= f = none
some a >>= f = f a

-- What a `rmw_take…` function returns: its result, `*taken`, and the message that it wrote.
pub record TakeResult (A : Type 0) : Type 0 where
  pub ret : Ret
  pub taken : Bool
  pub message : Option A

abbrev pub refused : {A : Type 0} → Ret → TakeResult A
refused r = record { ret = r; taken = false; message = none }

-- The end of the three functions: the result of the deserialisation decides.
abbrev pub finished : {A : Type 0} → Option A → TakeResult A
finished none = refused error
finished (some a) = record { ret = ok; taken = true; message = some a }

-- Reading a member of the union `related` other than the one that was written is not modelled.
abbrev pub sample_id_of : Related → Option SampleIdentity
sample_id_of (sample_id s) = some s
sample_id_of _ = none

abbrev pub reply_id_of : Related → Option ℕ
reply_id_of (reply_id n) = some n
reply_id_of _ = none

module _ {M : Type 0} where
  -- `on_topic`, built without RMW_UXRCE_GRAPH.
  unfoldable pub on_topic : (fuel : ℕ) → Globals M → ObjectId → Incoming → Option (Globals M)
  on_topic fuel g object_id sample = do
    let subs = g.subscription_memory
    item ←
        walk fuel subs.items subs.allocateditems
          (λ p. object_id_eq (subs.elements (subs.items p).element).datareader_id object_id)
    if item == null
        then some g
        else some (record g {
          static_buffer_memory =
              store_input g.static_buffer_memory (subscription (subs.items item).element) none
                sample;
        })

  unfoldable pub on_request :
      (fuel : ℕ) → Globals M → (request_id : ℕ) → SampleIdentity → Incoming → Option (Globals M)
  on_request fuel g request_id identity sample = do
    let services = g.service_memory
    item ←
        walk fuel services.items services.allocateditems
          (λ p. (services.elements (services.items p).element).service_data_resquest == request_id)
    if item == null
        then some g
        else some (record g {
          static_buffer_memory =
              store_input g.static_buffer_memory (service (services.items item).element)
                (some (sample_id identity)) sample;
        })

  unfoldable pub on_reply :
      (fuel : ℕ) → Globals M → (request_id id : ℕ) → Incoming → Option (Globals M)
  on_reply fuel g request_id id sample = do
    let clients = g.client_memory
    item ←
        walk fuel clients.items clients.allocateditems
          (λ p. (clients.elements (clients.items p).element).client_data_request == request_id)
    if item == null
        then some g
        else some (record g {
          static_buffer_memory =
              store_input g.static_buffer_memory (client (clients.items item).element)
                (some (reply_id id)) sample;
        })

  unfoldable pub give_back : Globals M → Ptr → Globals M
  give_back g item = record g {
    static_buffer_memory = put_memory false g.static_buffer_memory item;
  }

  unfoldable pub rmw_take_with_info :
      (fuel : ℕ) → Globals M → Handle → Option (Globals M × TakeResult M)
  rmw_take_with_info fuel g handle =
      if not (is_uxrce_rmw_identifier_valid handle.implementation_identifier)
      then some (g, refused error)
      else (do
        item ←
            find_static_input_buffer_by_owner fuel g.static_buffer_memory
              (subscription handle.element)
        if item == null then some (g, refused error) else do
          let b = buffer_at g.static_buffer_memory item
          callbacks ← (g.subscription_memory.elements handle.element).type_support_callbacks
          some (give_back g item, finished (callbacks.cdr_deserialize b.buffer b.length)))

  unfoldable pub rmw_take : (fuel : ℕ) → Globals M → Handle → Option (Globals M × TakeResult M)
  unfolding rmw_take_with_info
  rmw_take = rmw_take_with_info

  -- The loop of `rmw_take_sequence`, with the messages that were taken so far.
  unfoldable pub take_sequence_loop :
      (fuel rounds : ℕ) → Globals M → Handle → List M → Ret → Option (Globals M × Ret × List M)
  unfolding rmw_take_with_info
  take_sequence_loop fuel zero g handle taken ret = some (g, ret, taken)
  take_sequence_loop fuel (suc rounds) g handle taken ret = do
    (g', r) ← rmw_take_with_info fuel g handle
    let more = take_sequence_loop fuel rounds g' handle (taken ++ option_list r.message) r.ret
    if is_ok r.ret && r.taken then more else some (g', r.ret, taken)

  -- `rmw_take_sequence`: the return code and the messages, of which `*taken` is the number.
  unfoldable pub rmw_take_sequence :
      (fuel : ℕ) → Globals M → Handle → (count : ℕ) → Option (Globals M × Ret × List M)
  unfolding take_sequence_loop
  rmw_take_sequence fuel g handle count =
      if not (is_uxrce_rmw_identifier_valid handle.implementation_identifier)
      then some (g, error, [])
      else take_sequence_loop fuel count g handle [] ok

  -- `rmw_take_request`. The header is what the identity of the sample is turned into.
  unfoldable pub rmw_take_request :
      (fuel : ℕ) → Globals M → Handle → Option (Globals M × TakeResult M × Option RequestId)
  rmw_take_request fuel g handle =
      if not (is_uxrce_rmw_identifier_valid handle.implementation_identifier)
      then some (g, refused incorrect_rmw_implementation, none)
      else (do
        item ←
            find_static_input_buffer_by_owner fuel g.static_buffer_memory (service handle.element)
        if item == null then some (g, refused error, none) else do
          let b = buffer_at g.static_buffer_memory item
          identity ← sample_id_of b.related
          callbacks ← (g.service_memory.elements handle.element).type_support_callbacks
          some (
            give_back g item,
            finished (callbacks.request_members.cdr_deserialize b.buffer b.length),
            some (request_id_of identity),
          ))

  -- `rmw_take_response`. Of the header only the sequence number is written.
  unfoldable pub rmw_take_response :
      (fuel : ℕ) → Globals M → Handle → Option (Globals M × TakeResult M × Option ℕ)
  rmw_take_response fuel g handle =
      if not (is_uxrce_rmw_identifier_valid handle.implementation_identifier)
      then some (g, refused incorrect_rmw_implementation, none)
      else (do
        item ← find_static_input_buffer_by_owner fuel g.static_buffer_memory (client handle.element)
        if item == null then some (g, refused error, none) else do
          let b = buffer_at g.static_buffer_memory item
          id ← reply_id_of b.related
          callbacks ← (g.client_memory.elements handle.element).type_support_callbacks
          some (
            give_back g item,
            finished (callbacks.response_members.cdr_deserialize b.buffer b.length),
            some id,
          ))
