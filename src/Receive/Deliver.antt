-- ===== src/Receive/Deliver.antt =====
-- `on_topic`, `on_request` and `on_reply`: for whom a sample is stored.
use rmw_microxrcedds.Base.{ℕ, ◌<◌, ◌≡◌, none, some, List, arith, ◌==◌, if◌then◌else◌, length}
use rmw_microxrcedds.Memory.{Ptr, null}
use rmw_microxrcedds.Memory.Invariant.{IsPool}
use rmw_microxrcedds.Memory.Walk.{first, walk-first}
use rmw_microxrcedds.Types.{
  ObjectId, object_id_eq, SampleIdentity, subscription, service, client, sample_id, reply_id,
}
use rmw_microxrcedds.State.{Globals}
use rmw_microxrcedds.Buffers.{Incoming, store_input}
use rmw_microxrcedds.Receive.{on_topic, on_request, on_reply}
use rmw_microxrcedds.Receive.Take.{with_buffers}

module _ {M : Type 0} (fuel : ℕ) (g : Globals M) where
  -- The subscription that a topic sample is for: the first allocated one with the reader's id.
  abbrev pub subscription_for : List Ptr → ObjectId → Ptr
  subscription_for subs object_id =
      first
        (λ p.
          object_id_eq
            (g.subscription_memory.elements (g.subscription_memory.items p).element).datareader_id
            object_id)
        subs

  abbrev pub service_for : List Ptr → ℕ → Ptr
  service_for services request_id =
      first
        (λ p.
          (g.service_memory.elements (g.service_memory.items p).element).service_data_resquest
          == request_id)
        services

  abbrev pub client_for : List Ptr → ℕ → Ptr
  client_for clients request_id =
      first
        (λ p.
          (g.client_memory.elements (g.client_memory.items p).element).client_data_request
          == request_id)
        clients

  -- What each callback does, once it is known for whom the sample is.
  pub on_topic_lem :
      (object_id : ObjectId) (sample : Incoming) (subs idle : List Ptr)
      → IsPool g.subscription_memory subs idle
      → length subs < fuel
      → on_topic fuel g object_id sample ≡ (
          let p = subscription_for subs object_id in
          some (
            if p == null
            then g
            else with_buffers g (
                store_input g.static_buffer_memory
                  (subscription (g.subscription_memory.items p).element)
                  none
                  sample)))
  unfolding on_topic
  on_topic_lem object_id sample subs idle is lt =
      let w =
        walk-first fuel g.subscription_memory.items null g.subscription_memory.allocateditems
          (λ p.
            object_id_eq
              (g.subscription_memory.elements (g.subscription_memory.items p).element).datareader_id
              object_id)
          subs is.allocated lt in
      rw w (ground arith)

  pub on_request_lem :
      (request_id : ℕ) (identity : SampleIdentity) (sample : Incoming) (services idle : List Ptr)
      → IsPool g.service_memory services idle
      → length services < fuel
      → on_request fuel g request_id identity sample ≡ (
          let p = service_for services request_id in
          some (
            if p == null
            then g
            else with_buffers g (
                store_input g.static_buffer_memory
                  (service (g.service_memory.items p).element)
                  (some (sample_id identity))
                  sample)))
  unfolding on_request
  on_request_lem request_id identity sample services idle is lt =
      let w =
        walk-first fuel g.service_memory.items null g.service_memory.allocateditems
          (λ p.
            (g.service_memory.elements (g.service_memory.items p).element).service_data_resquest
            == request_id)
          services is.allocated lt in
      rw w (ground arith)

  pub on_reply_lem :
      (request_id id : ℕ) (sample : Incoming) (clients idle : List Ptr)
      → IsPool g.client_memory clients idle
      → length clients < fuel
      → on_reply fuel g request_id id sample ≡ (
          let p = client_for clients request_id in
          some (
            if p == null
            then g
            else with_buffers g (
                store_input g.static_buffer_memory
                  (client (g.client_memory.items p).element)
                  (some (reply_id id))
                  sample)))
  unfolding on_reply
  on_reply_lem request_id id sample clients idle is lt =
      let w =
        walk-first fuel g.client_memory.items null g.client_memory.allocateditems
          (λ p.
            (g.client_memory.elements (g.client_memory.items p).element).client_data_request
            == request_id)
          clients is.allocated lt in
      rw w (ground arith)
