-- ===== src/Entities/Refused/Publishers.antt =====
-- rmw_create_subscription, when the agent does not confirm the datawriter.
use rmw_microxrcedds.Base.{
  ℕ, ◌+◌, ◌≡◌, ◌≢◌, refl, sym, ap, ap₂, subst, ◌∙◌, true, false, not, none, some, List, ◌∷◌, arith,
  ◌==◌, if◌then◌else◌,
}
use rmw_microxrcedds.Memory.{Ptr, null, get_memory}
use rmw_microxrcedds.Memory.Static.{IsStatic, get_memory-IsStatic}
use rmw_microxrcedds.Types.{Bytes, MessageCallbacks, QosProfile}
use rmw_microxrcedds.State.{Globals, Handle}
use rmw_microxrcedds.Handles.{is_uxrce_rmw_identifier_valid}
use rmw_microxrcedds.Session.{context_of, buffer_request, run_last, set_handle, handle_at}
use rmw_microxrcedds.Topic.{announce_topic, create_topic}
use rmw_microxrcedds.Entities.{Lengths, HandleMemory, with_callbacks}
use rmw_microxrcedds.Entities.Publishers.{
  publisher_at, set_publisher, fail_publisher, put_publisher, init_publisher, announce_publisher,
  create_datawriter, create_publisher_entity, create_publisher_topic, create_publisher,
  rmw_create_publisher,
}
use rmw_microxrcedds.Entities.Failures.{Accepts, ran, run-accepted, create_datawriter-refused}
use rmw_microxrcedds.Entities.Refused.{
  RefusesThird, announced, create_topic-accepted, identified, new_handle,
}

module _ {M : Type 0} where
  announce_publisher-accepted :
      (g : Globals M) (p : Ptr)
      → Accepts g (publisher_at g p).owner_node
      → run_last (announce_publisher g p) (publisher_at g p).owner_node
        ≡ (true, ran (announce_publisher g p))
  unfolding announce_publisher buffer_request
  announce_publisher-accepted g p accepts =
      run-accepted (announce_publisher g p) (publisher_at g p).owner_node (ground arith, accepts.1)

  -- The result is NULL, and the next two calls of get_memory hand out the item `p`.
  abbrev pub GivesTwice : Ptr → Ptr × Globals M → Type 0
  GivesTwice p (result, g') =
      let first = get_memory none g'.publisher_memory in
      (result ≡ null) × (first.0 ≡ p) × ((get_memory none first.1).0 ≡ p)

  -- The handle has its data.
  abbrev with_data : Globals M → Ptr → Ptr → Globals M
  with_data g rp p =
      set_handle g rp
        (elim (handle_at g rp) [ none ↦ none | some h ↦ some (record h { element = p }) ])

  create_publisher_entity-accepted :
      (g : Globals M) (rp p : Ptr) (qos_policies : QosProfile)
      → Accepts g (publisher_at g p).owner_node
      → create_publisher_entity g rp p qos_policies
        ≡ create_datawriter (with_data (ran (announce_publisher g p)) rp p) rp p qos_policies
  unfolding create_publisher_entity
  create_publisher_entity-accepted g rp p qos_policies accepts =
      ap
        (λ r.
          if not r.0
          then fail_publisher (put_publisher r.1 p) rp
          else create_datawriter (with_data r.1 rp p) rp p qos_policies)
        (announce_publisher-accepted g p accepts)

  with_data-handle :
      (g : Globals M) (rp p : Ptr) (h : Handle)
      → g.handles rp ≡ some h
      → (with_data g rp p).handles rp ≡ some (record h { element = p })
  with_data-handle g rp p h known = let e : (rp == rp) ≡ true = ground arith in rw (e, known) refl

  create_publisher_entity-refused :
      (g : Globals M) (rp p : Ptr) (qos_policies : QosProfile) (h : Handle)
      → p ≢ null
      → g.handles rp ≡ some h
      → is_uxrce_rmw_identifier_valid h.implementation_identifier ≡ true
      → Accepts g (publisher_at g p).owner_node
      → ((r : ℕ) → g.session.confirmed (g.session.runs + 1) r ≡ false)
      → GivesTwice p (create_publisher_entity g rp p qos_policies)
  unfolding announce_publisher buffer_request
  create_publisher_entity-refused g rp p qos_policies h ne known valid accepts refuses =
      let g1 = ran (announce_publisher g p) in
      let owner : (publisher_at g1 p).owner_node ≡ (publisher_at g p).owner_node = ground arith in
      subst (λ t. GivesTwice p t)
        (sym (create_publisher_entity-accepted g rp p qos_policies accepts))
        (create_datawriter-refused (with_data g1 rp p) rp p qos_policies (record h { element = p })
          (with_data-handle g1 rp p h known) valid refl ne (ground (arith, accepts.0), refuses))

  -- The state behind the creation of the topic of a publisher.
  unfoldable topic_ready : Lengths → Globals M → Ptr → Bytes → MessageCallbacks M → Ptr → Globals M
  unfolding announce_topic buffer_request
  topic_ready lengths g p name callbacks f =
      let g1 =
        set_publisher g p (record (publisher_at g p) { type_support_callbacks = some callbacks }) in
      let g2 = ran (announced lengths g1 (publisher_at g p).owner_node name callbacks f) in
      set_publisher g2 p (record (publisher_at g2 p) { topic = f })

  create_publisher_topic-accepted :
      (lengths : Lengths) (g : Globals M) (rp p : Ptr) (callbacks : MessageCallbacks M)
      (name : Bytes) (qos_policies : QosProfile) (f : Ptr) (used idle : List Ptr)
      → IsStatic g.topics_memory used (f ∷ idle)
      → Accepts g (publisher_at g p).owner_node
      → create_publisher_topic lengths g rp p (with_callbacks callbacks) name qos_policies
        ≡ create_publisher_entity (topic_ready lengths g p name callbacks f) rp p qos_policies
  unfolding create_publisher_topic topic_ready
  create_publisher_topic-accepted lengths g rp p callbacks name qos_policies f used idle is
        accepts =
      let g1 =
        set_publisher g p (record (publisher_at g p) { type_support_callbacks = some callbacks }) in
      let n : (publisher_at g1 p).owner_node ≡ (publisher_at g p).owner_node = ground arith in
      let live : (f == null) ≡ false = ground (arith, is.pool.free.1) in
      ap
        (λ o.
          let r = create_topic lengths.topic_name lengths.type_name g1 o name callbacks in
          let g3 = set_publisher r.1 p (record (publisher_at r.1 p) { topic = r.0 }) in
          if r.0 == null
          then fail_publisher g3 rp
          else create_publisher_entity g3 rp p qos_policies)
        n
      ∙ ap
          (λ r.
            let g3 = set_publisher r.1 p (record (publisher_at r.1 p) { topic = r.0 }) in
            if r.0 == null
            then fail_publisher g3 rp
            else create_publisher_entity g3 rp p qos_policies)
          (create_topic-accepted lengths g1 (publisher_at g p).owner_node name callbacks f used idle
            is accepts)
      ∙ ap
          (λ b.
            if b
            then fail_publisher (topic_ready lengths g p name callbacks f) rp
            else create_publisher_entity (topic_ready lengths g p name callbacks f) rp p
                qos_policies)
          live

  -- What the creation of the topic leaves alone.
  topic_ready-keeps :
      (lengths : Lengths) (g : Globals M) (p : Ptr) (name : Bytes) (callbacks : MessageCallbacks M)
      (f : Ptr)
      → let g' = topic_ready lengths g p name callbacks f in
        (g'.handles ≡ g.handles)
        × ((publisher_at g' p).owner_node ≡ (publisher_at g p).owner_node)
        × ((n : Ptr)
            → (context_of g' n).creation_destroy_stream ≡ (context_of g n).creation_destroy_stream)
        × (g'.session.runs ≡ g.session.runs + 1)
        × (g'.session.confirmed ≡ g.session.confirmed)
  unfolding topic_ready
  topic_ready-keeps lengths g p name callbacks f =
      (refl, ground arith, λ n. ground arith, refl, refl)

  create_publisher_topic-refused :
      (lengths : Lengths) (g : Globals M) (rp p : Ptr) (callbacks : MessageCallbacks M)
      (name : Bytes) (qos_policies : QosProfile) (h : Handle) (f : Ptr)
      (topics_used topics_idle : List Ptr)
      → p ≢ null
      → IsStatic g.topics_memory topics_used (f ∷ topics_idle)
      → g.handles rp ≡ some h
      → is_uxrce_rmw_identifier_valid h.implementation_identifier ≡ true
      → RefusesThird g (publisher_at g p).owner_node
      → GivesTwice p
          (create_publisher_topic lengths g rp p (with_callbacks callbacks) name qos_policies)
  create_publisher_topic-refused lengths g rp p callbacks name qos_policies h f topics_used
        topics_idle ne topics known valid refuses =
      let g' = topic_ready lengths g p name callbacks f in
      let (handles, owner, stream, runs, confirmed) =
        topic_ready-keeps lengths g p name callbacks f in
      let accepts : Accepts g' (publisher_at g' p).owner_node = (
        ap (λ n. (context_of g' n).creation_destroy_stream) owner
            ∙ stream (publisher_at g p).owner_node
            ∙ refuses.reliable,
        λ r. ap₂ (λ c n. c n r) confirmed runs ∙ refuses.second r,
      ) in
      let e =
        create_publisher_topic-accepted lengths g rp p callbacks name qos_policies f topics_used
          topics_idle topics (refuses.reliable, refuses.first) in
      subst (λ t. GivesTwice p t) (sym e)
        (create_publisher_entity-refused g' rp p qos_policies h ne (ap (λ t. t rp) handles ∙ known)
          valid accepts (λ r. ap₂ (λ c n. c (n + 1) r) confirmed runs ∙ refuses.third r))

  -- What is written into the new element.
  abbrev new_publisher : Globals M → Ptr → Ptr → QosProfile → Ptr → Globals M
  new_publisher g rp n qos_policies p =
      set_publisher g p (init_publisher g rp n qos_policies (publisher_at g p))

  -- The state behind get_memory.
  abbrev taken_publisher : HandleMemory → Globals M → Bytes → Globals M
  taken_publisher memory g name =
      record (set_handle g memory.address (some (new_handle memory name))) {
        publisher_memory = (get_memory none g.publisher_memory).1;
      }

  create_publisher-taken :
      (lengths : Lengths) (memory : HandleMemory) (g : Globals M) (node : Handle)
      (callbacks : MessageCallbacks M) (name : Bytes) (qos_policies : QosProfile) (p : Ptr)
      (used idle : List Ptr)
      → memory.has_name ≡ true
      → IsStatic g.publisher_memory used (p ∷ idle)
      → create_publisher lengths memory g node (with_callbacks callbacks) name qos_policies
        ≡ create_publisher_topic lengths
            (new_publisher
              (taken_publisher memory g name)
              memory.address
              node.element
              qos_policies
              p)
            memory.address
            p
            (with_callbacks callbacks)
            name
            qos_policies
  unfolding create_publisher
  create_publisher-taken lengths memory g node callbacks name qos_policies p used idle named is =
      let rp = memory.address in
      let g1 = set_handle g rp (some (new_handle memory name)) in
      let m = get_memory none g.publisher_memory in
      let t = get_memory-IsStatic g.publisher_memory p used idle is in
      let live : (p == null) ≡ false = ground (arith, is.pool.free.1) in
      let own : (m.1.items p).element ≡ p = t.1.own p (ground arith) in
      let g2 = record g1 { publisher_memory = m.1 } in
      let inner : Ptr → Ptr × Globals M = λ q.
        create_publisher_topic lengths (new_publisher g2 rp node.element qos_policies q) rp q
          (with_callbacks callbacks) name qos_policies in
      let body : Ptr → Ptr × Globals M =
        λ q. if q == null then fail_publisher g2 rp else inner (m.1.items q).element in
      ap (λ b. if not b then fail_publisher g1 rp else body m.0) named
      ∙ ap body t.0
      ∙ ap (λ b. if b then fail_publisher g2 rp else inner (m.1.items p).element) live
      ∙ ap inner own

  rmw_create_publisher-valid :
      (lengths : Lengths) (memory : HandleMemory) (g : Globals M) (node : Handle)
      (callbacks : MessageCallbacks M) (x : ℕ) (name : Bytes) (qos_policies : QosProfile)
      → is_uxrce_rmw_identifier_valid node.implementation_identifier ≡ true
      → rmw_create_publisher lengths memory g
          (some node)
          (some (with_callbacks callbacks))
          (some (x ∷ name))
          (some qos_policies)
        ≡ create_publisher lengths memory g node (with_callbacks callbacks) (x ∷ name) qos_policies
  unfolding rmw_create_publisher
  rmw_create_publisher-valid lengths memory g node callbacks x name qos_policies valid =
      ap
        (λ b.
          if b
          then create_publisher lengths memory g node (with_callbacks callbacks) (x ∷ name)
              qos_policies
          else (null, g))
        valid

  -- For a node of this implementation, a free publisher and a free topic, memory for the handle
  -- and its name, and an agent that on a reliable stream confirms the topic and the publisher but
  -- not the datawriter: rmw_create_publisher returns NULL and has given the item of the publisher
  -- back twice, so that the next two calls of get_memory hand out one item to two publishers.
  pub rmw_create_publisher-refused :
      (lengths : Lengths) (memory : HandleMemory) (g : Globals M) (node : Handle)
      (callbacks : MessageCallbacks M) (x : ℕ) (name : Bytes) (qos_policies : QosProfile) (p : Ptr)
      (used idle : List Ptr) (f : Ptr) (topics_used topics_idle : List Ptr)
      → is_uxrce_rmw_identifier_valid node.implementation_identifier ≡ true
      → memory.has_name ≡ true
      → IsStatic g.publisher_memory used (p ∷ idle)
      → IsStatic g.topics_memory topics_used (f ∷ topics_idle)
      → RefusesThird g node.element
      → let (result, g') =
          rmw_create_publisher lengths memory g
            (some node)
            (some (with_callbacks callbacks))
            (some (x ∷ name))
            (some qos_policies) in
        let first = get_memory none g'.publisher_memory in
        (result ≡ null) × (first.0 ≡ p) × ((get_memory none first.1).0 ≡ p)
  rmw_create_publisher-refused lengths memory g node callbacks x name qos_policies p used idle f
        topics_used topics_idle valid named is topics refuses =
      let rp = memory.address in
      let t = get_memory-IsStatic g.publisher_memory p used idle is in
      let g2 = taken_publisher memory g (x ∷ name) in
      let g3 = new_publisher g2 rp node.element qos_policies p in
      let owner : (publisher_at g3 p).owner_node ≡ node.element = ground arith in
      let third : RefusesThird g3 (publisher_at g3 p).owner_node =
        subst (λ n. RefusesThird g3 n) (sym owner)
          (record {
            reliable = refuses.reliable;
            first = refuses.first;
            second = refuses.second;
            third = refuses.third;
          }) in
      subst (λ r. GivesTwice p r)
        (sym (
          rmw_create_publisher-valid lengths memory g node callbacks x name qos_policies valid
          ∙ create_publisher-taken lengths memory g node callbacks (x ∷ name) qos_policies p used
              idle named is))
        (create_publisher_topic-refused lengths g3 rp p callbacks (x ∷ name) qos_policies
          (new_handle memory (x ∷ name)) f topics_used topics_idle is.pool.free.1 topics
          (ground arith) identified third)
