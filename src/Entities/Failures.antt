-- ===== src/Entities/Failures.antt =====
-- What is left of an entity whose last request the agent does not confirm.
use rmw_microxrcedds.Base.{
  ℕ, ◌+◌, ◌≡◌, ◌≢◌, refl, sym, ap, subst, ◌∙◌, true, false, none, some, List, ◌∷◌, ◌++◌, arith,
  ◌==◌,
}
use rmw_microxrcedds.Memory.{Ptr, null, get_memory, put_memory}
use rmw_microxrcedds.Memory.Put.{put_memory-front}
use rmw_microxrcedds.Memory.DoublePut.{put_memory-front_again}
use rmw_microxrcedds.Memory.Static.{IsStatic, put_memory-IsStatic}
use rmw_microxrcedds.Types.{Bytes, QosProfile, ServiceCallbacks, reliable_stream}
use rmw_microxrcedds.State.{Globals, Handle}
use rmw_microxrcedds.Handles.{is_uxrce_rmw_identifier_valid}
use rmw_microxrcedds.Session.{
  write_element, context_of, buffer_request, last_request_id, run_xrce_session, run_last,
}
use rmw_microxrcedds.Topic.Life.{write_element-IsStatic}
use rmw_microxrcedds.Entities.{
  Lengths, fini_publisher_memory, fini_service_memory, fini_subscription_memory,
}
use rmw_microxrcedds.Entities.Publishers.{
  publisher_at, fail_publisher, put_publisher, announce_datawriter, create_datawriter,
}
use rmw_microxrcedds.Entities.Services.{
  service_at, fail_service, put_service, announce_replier, create_replier,
}
use rmw_microxrcedds.Entities.Subscriptions.{
  subscription_at, fail_subscription, put_subscription, announce_datareader, create_datareader,
}

module _ {M : Type 0} where
  -- The session of the node creates entities on a reliable stream, and the next run fails, or
  -- succeeds, for whatever request.
  abbrev pub Refuses : Globals M → (custom_node : Ptr) → Type 0
  Refuses g custom_node =
      ((context_of g custom_node).creation_destroy_stream ≡ reliable_stream)
      × ((r : ℕ) → g.session.confirmed g.session.runs r ≡ false)

  abbrev pub Accepts : Globals M → (custom_node : Ptr) → Type 0
  Accepts g custom_node =
      ((context_of g custom_node).creation_destroy_stream ≡ reliable_stream)
      × ((r : ℕ) → g.session.confirmed g.session.runs r ≡ true)

  -- The state after such a run: one run more.
  abbrev pub ran : Globals M → Globals M
  ran g = record g { session = record (g.session) { runs = g.session.runs + 1 } }

  pub run-refused : (g : Globals M) (n : Ptr) → Refuses g n → run_last g n ≡ (false, ran g)
  unfolding run_last
  run-refused g n (reliable, no') = rw (run_xrce_session, reliable, no' (last_request_id g)) refl

  pub run-accepted : (g : Globals M) (n : Ptr) → Accepts g n → run_last g n ≡ (true, ran g)
  unfolding run_last
  run-accepted g n (reliable, yes') = rw (run_xrce_session, reliable, yes' (last_request_id g)) refl

  pub fini_publisher_memory-pool :
      (g : Globals M) (rp p : Ptr) (h : Handle)
      → g.handles rp ≡ some h
      → is_uxrce_rmw_identifier_valid h.implementation_identifier ≡ true
      → h.element ≡ p
      → p ≢ null
      → (fini_publisher_memory g rp).publisher_memory
        ≡ put_memory false
            (write_element g.publisher_memory p (record (publisher_at g p) { rmw_handle = null }))
            p
  unfolding fini_publisher_memory
  fini_publisher_memory-pool g rp p h known valid at ne =
      let alive : (p == null) ≡ false = ground arith in
      rw (fini_publisher_memory, known, valid, at, alive) refl

  create_datawriter-run :
      (g : Globals M) (rp p : Ptr) (qos_policies : QosProfile)
      → Refuses g (publisher_at g p).owner_node
      → create_datawriter g rp p qos_policies
        ≡ fail_publisher (put_publisher (ran (announce_datawriter g p qos_policies)) p) rp
  unfolding create_datawriter announce_datawriter buffer_request
  create_datawriter-run g rp p qos_policies refuses =
      rw
        (
          create_datawriter,
          run-refused (announce_datawriter g p qos_policies) (publisher_at g p).owner_node
              (ground arith, refuses.1),
        )
        refl

  -- For a publisher whose handle already has its data, when the agent does not confirm the
  -- datawriter: create_datawriter returns NULL and has given the item of the publisher back twice,
  -- so that the next two calls of get_memory hand out one item to two publishers.
  pub create_datawriter-refused :
      (g : Globals M) (rp p : Ptr) (qos_policies : QosProfile) (h : Handle)
      → g.handles rp ≡ some h
      → is_uxrce_rmw_identifier_valid h.implementation_identifier ≡ true
      → h.element ≡ p
      → p ≢ null
      → Refuses g (publisher_at g p).owner_node
      → let (result, g') = create_datawriter g rp p qos_policies in
        let first = get_memory none g'.publisher_memory in
        (result ≡ null) × (first.0 ≡ p) × ((get_memory none first.1).0 ≡ p)
  unfolding announce_datawriter buffer_request
  create_datawriter-refused g rp p qos_policies h known valid at ne refuses =
      let e = create_datawriter-run g rp p qos_policies refuses in
      let g1 = put_publisher (ran (announce_datawriter g p qos_policies)) p in
      let m =
        write_element g1.publisher_memory p (record (publisher_at g1 p) { rmw_handle = null }) in
      let pool : (create_datawriter g rp p qos_policies).1.publisher_memory ≡ put_memory false m p =
        ap (λ r. r.1.publisher_memory) e ∙ fini_publisher_memory-pool g1 rp p h known valid at ne in
      let twice =
        put_memory-front_again none m p
          (put_memory-front (announce_datawriter g p qos_policies).publisher_memory p).0 ne in
      (
        ap (λ r. r.0) e,
        ap (λ n. (get_memory none n).0) pool ∙ twice.0,
        ap (λ n. (get_memory none (get_memory none n).1).0) pool ∙ twice.1,
      )

  fini_service_memory-pool :
      (g : Globals M) (rs p : Ptr) (h : Handle)
      → g.handles rs ≡ some h
      → is_uxrce_rmw_identifier_valid h.implementation_identifier ≡ true
      → h.element ≡ p
      → p ≢ null
      → (fini_service_memory g rs).service_memory
        ≡ put_memory false
            (write_element g.service_memory p (record (service_at g p) { rmw_handle = null }))
            p
  unfolding fini_service_memory
  fini_service_memory-pool g rs p h known valid at ne =
      let alive : (p == null) ≡ false = ground arith in
      rw (fini_service_memory, known, valid, at, alive) refl

  create_replier-run :
      (lengths : Lengths) (g : Globals M) (rs p : Ptr) (callbacks : ServiceCallbacks M)
      (service_name : Bytes) (qos_policies : QosProfile)
      → Refuses g (service_at g p).owner_node
      → create_replier lengths g rs p callbacks service_name qos_policies
        ≡ fail_service
            (put_service (ran (announce_replier lengths g rs p callbacks service_name)) p)
            rs
  unfolding create_replier announce_replier buffer_request
  create_replier-run lengths g rs p callbacks service_name qos_policies refuses =
      rw
        (
          create_replier,
          run-refused (announce_replier lengths g rs p callbacks service_name)
              (service_at g p).owner_node (ground arith, refuses.1),
        )
        refl

  -- For a service whose handle exists, when the agent does not confirm the replier:
  -- create_replier returns NULL and has given the item of the service back twice, so that the
  -- next two calls of get_memory hand out one item to two services.
  pub create_replier-refused :
      (lengths : Lengths) (g : Globals M) (rs p : Ptr) (callbacks : ServiceCallbacks M)
      (service_name : Bytes) (qos_policies : QosProfile) (h : Handle)
      → g.handles rs ≡ some h
      → is_uxrce_rmw_identifier_valid h.implementation_identifier ≡ true
      → p ≢ null
      → Refuses g (service_at g p).owner_node
      → let (result, g') = create_replier lengths g rs p callbacks service_name qos_policies in
        let first = get_memory none g'.service_memory in
        (result ≡ null) × (first.0 ≡ p) × ((get_memory none first.1).0 ≡ p)
  unfolding announce_replier buffer_request
  create_replier-refused lengths g rs p callbacks service_name qos_policies h known valid ne
        refuses =
      let e = create_replier-run lengths g rs p callbacks service_name qos_policies refuses in
      let g1 = put_service (ran (announce_replier lengths g rs p callbacks service_name)) p in
      let m = write_element g1.service_memory p (record (service_at g1 p) { rmw_handle = null }) in
      let handle : g1.handles rs ≡ some (record h { element = p }) = ground (arith, known) in
      let pool : (create_replier lengths g rs p callbacks service_name
            qos_policies).1.service_memory
          ≡ put_memory false m p =
        ap (λ r. r.1.service_memory) e
        ∙ fini_service_memory-pool g1 rs p (record h { element = p }) handle valid refl ne in
      let twice =
        put_memory-front_again none m p
          (put_memory-front (announce_replier lengths g rs p callbacks service_name).service_memory
            p).0
          ne in
      (
        ap (λ r. r.0) e,
        ap (λ n. (get_memory none n).0) pool ∙ twice.0,
        ap (λ n. (get_memory none (get_memory none n).1).0) pool ∙ twice.1,
      )

  fini_subscription_memory-no_data :
      (g : Globals M) (rs : Ptr) (h : Handle)
      → g.handles rs ≡ some h
      → is_uxrce_rmw_identifier_valid h.implementation_identifier ≡ true
      → h.element ≡ null
      → ((fini_subscription_memory g rs).subscription_memory ≡ g.subscription_memory)
        × ((fini_subscription_memory g rs).handles rs ≡ none)
  unfolding fini_subscription_memory
  fini_subscription_memory-no_data g rs h known valid at =
      let dead : (h.element == null) ≡ true = ground arith in
      (
        rw (fini_subscription_memory, known, valid, dead) refl,
        rw (fini_subscription_memory, known, valid) (ground arith),
      )

  create_datareader-run :
      (g : Globals M) (rs p : Ptr) (qos_policies : QosProfile)
      → Refuses g (subscription_at g p).owner_node
      → create_datareader g rs p qos_policies
        ≡ fail_subscription (put_subscription (ran (announce_datareader g p qos_policies)) p) rs
  unfolding create_datareader announce_datareader buffer_request
  create_datareader-run g rs p qos_policies refuses =
      rw
        (
          create_datareader,
          run-refused (announce_datareader g p qos_policies) (subscription_at g p).owner_node
              (ground arith, refuses.1),
        )
        refl

  -- For a subscription whose item is allocated and whose handle has no data yet, when the agent
  -- does not confirm the datareader: create_datareader returns NULL, frees the handle, and
  -- has given the item back once: it is the first free item, and both lists are well linked and
  -- disjoint.
  pub create_datareader-refused :
      (g : Globals M) (rs p : Ptr) (qos_policies : QosProfile) (h : Handle)
      (before after idle : List Ptr)
      → IsStatic g.subscription_memory (before ++ p ∷ after) idle
      → g.handles rs ≡ some h
      → is_uxrce_rmw_identifier_valid h.implementation_identifier ≡ true
      → h.element ≡ null
      → Refuses g (subscription_at g p).owner_node
      → let (result, g') = create_datareader g rs p qos_policies in
        (result ≡ null)
        × (g'.handles rs ≡ none)
        × IsStatic g'.subscription_memory (before ++ after) (p ∷ idle)
  unfolding announce_datareader buffer_request
  create_datareader-refused g rs p qos_policies h before after idle is known valid at refuses =
      let e = create_datareader-run g rs p qos_policies refuses in
      let a = announce_datareader g p qos_policies in
      let f = fini_subscription_memory-no_data (put_subscription (ran a) p) rs h known valid at in
      let pool : (create_datareader g rs p qos_policies).1.subscription_memory
          ≡ put_memory false a.subscription_memory p =
        ap (λ r. r.1.subscription_memory) e ∙ f.0 in
      let before_put : IsStatic a.subscription_memory (before ++ p ∷ after) idle =
        write_element-IsStatic g.subscription_memory p _ (before ++ p ∷ after) idle is in
      (
        ap (λ r. r.0) e,
        ap (λ r. r.1.handles rs) e ∙ f.1,
        subst (λ n. IsStatic n (before ++ after) (p ∷ idle)) (sym pool)
            (put_memory-IsStatic a.subscription_memory p before after idle before_put).0,
      )
