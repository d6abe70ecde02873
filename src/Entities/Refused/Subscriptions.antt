-- ===== src/Entities/Refused/Subscriptions.antt =====
-- rmw_create_subscription, when the agent does not confirm the datareader.
use rmw_microxrcedds.Base.{
  ℕ, ◌+◌, ◌≡◌, refl, sym, ap, ap₂, subst, ◌∙◌, true, false, not, none, some, List, [], ◌∷◌, ◌++◌,
  arith, ◌==◌, if◌then◌else◌,
}
use rmw_microxrcedds.Memory.{Ptr, null, get_memory}
use rmw_microxrcedds.Memory.Static.{IsStatic, get_memory-IsStatic}
use rmw_microxrcedds.Types.{Bytes, MessageCallbacks, QosProfile}
use rmw_microxrcedds.State.{Globals, Handle}
use rmw_microxrcedds.Handles.{is_uxrce_rmw_identifier_valid}
use rmw_microxrcedds.Session.{context_of, buffer_request, run_last, set_handle}
use rmw_microxrcedds.Topic.{announce_topic, create_topic}
use rmw_microxrcedds.Topic.Life.{write_element-IsStatic}
use rmw_microxrcedds.Entities.{Lengths, HandleMemory, with_callbacks}
use rmw_microxrcedds.Entities.Subscriptions.{
  subscription_at, set_subscription, fail_subscription, put_subscription, announce_subscriber,
  create_datareader, create_subscriber, create_subscription_topic, create_subscription,
  rmw_create_subscription,
}
use rmw_microxrcedds.Entities.Failures.{Accepts, ran, run-accepted, create_datareader-refused}
use rmw_microxrcedds.Entities.Refused.{
  RefusesThird, announced, create_topic-accepted, identified, new_handle,
}

module _ {M : Type 0} where
  announce_subscriber-accepted :
      (g : Globals M) (p : Ptr)
      → Accepts g (subscription_at g p).owner_node
      → run_last (announce_subscriber g p) (subscription_at g p).owner_node
        ≡ (true, ran (announce_subscriber g p))
  unfolding announce_subscriber buffer_request
  announce_subscriber-accepted g p accepts =
      run-accepted (announce_subscriber g p) (subscription_at g p).owner_node
        (ground arith, accepts.1)

  create_subscriber-accepted :
      (g : Globals M) (rs p : Ptr) (qos_policies : QosProfile)
      → Accepts g (subscription_at g p).owner_node
      → create_subscriber g rs p qos_policies
        ≡ create_datareader (ran (announce_subscriber g p)) rs p qos_policies
  unfolding create_subscriber
  create_subscriber-accepted g rs p qos_policies accepts =
      ap
        (λ r.
          if not r.0
          then fail_subscription (put_subscription r.1 p) rs
          else create_datareader r.1 rs p qos_policies)
        (announce_subscriber-accepted g p accepts)

  create_subscriber-refused :
      (g : Globals M) (rs p : Ptr) (qos_policies : QosProfile) (h : Handle)
      (before after idle : List Ptr)
      → IsStatic g.subscription_memory (before ++ p ∷ after) idle
      → g.handles rs ≡ some h
      → is_uxrce_rmw_identifier_valid h.implementation_identifier ≡ true
      → h.element ≡ null
      → Accepts g (subscription_at g p).owner_node
      → ((r : ℕ) → g.session.confirmed (g.session.runs + 1) r ≡ false)
      → let (result, g') = create_subscriber g rs p qos_policies in
        (result ≡ null)
        × (g'.handles rs ≡ none)
        × IsStatic g'.subscription_memory (before ++ after) (p ∷ idle)
  unfolding announce_subscriber buffer_request
  create_subscriber-refused g rs p qos_policies h before after idle is known valid at accepts
        refuses =
      subst
        (λ t.
          (t.0 ≡ null)
          × (t.1.handles rs ≡ none)
          × IsStatic t.1.subscription_memory (before ++ after) (p ∷ idle))
        (sym (create_subscriber-accepted g rs p qos_policies accepts))
        (create_datareader-refused (ran (announce_subscriber g p)) rs p qos_policies h before after
          idle (write_element-IsStatic g.subscription_memory p _ (before ++ p ∷ after) idle is)
          known valid at (ground (arith, accepts.0), refuses))

  -- The state behind the creation of the topic of a subscription.
  unfoldable topic_ready : Lengths → Globals M → Ptr → Bytes → MessageCallbacks M → Ptr → Globals M
  unfolding announce_topic buffer_request
  topic_ready lengths g p name callbacks f =
      let g1 =
        set_subscription g p
          (record (subscription_at g p) { type_support_callbacks = some callbacks }) in
      let g2 = ran (announced lengths g1 (subscription_at g p).owner_node name callbacks f) in
      set_subscription g2 p (record (subscription_at g2 p) { topic = f })

  create_subscription_topic-accepted :
      (lengths : Lengths) (g : Globals M) (rs p : Ptr) (callbacks : MessageCallbacks M)
      (name : Bytes) (qos_policies : QosProfile) (f : Ptr) (used idle : List Ptr)
      → IsStatic g.topics_memory used (f ∷ idle)
      → Accepts g (subscription_at g p).owner_node
      → create_subscription_topic lengths g rs p (with_callbacks callbacks) name qos_policies
        ≡ create_subscriber (topic_ready lengths g p name callbacks f) rs p qos_policies
  unfolding create_subscription_topic topic_ready
  create_subscription_topic-accepted lengths g rs p callbacks name qos_policies f used idle is
        accepts =
      let g1 =
        set_subscription g p
          (record (subscription_at g p) { type_support_callbacks = some callbacks }) in
      let n : (subscription_at g1 p).owner_node ≡ (subscription_at g p).owner_node = ground arith in
      let live : (f == null) ≡ false = ground (arith, is.pool.free.1) in
      ap
        (λ o.
          let r = create_topic lengths.topic_name lengths.type_name g1 o name callbacks in
          let g3 = set_subscription r.1 p (record (subscription_at r.1 p) { topic = r.0 }) in
          if r.0 == null then fail_subscription g3 rs else create_subscriber g3 rs p qos_policies)
        n
      ∙ ap
          (λ r.
            let g3 = set_subscription r.1 p (record (subscription_at r.1 p) { topic = r.0 }) in
            if r.0 == null then fail_subscription g3 rs else create_subscriber g3 rs p qos_policies)
          (create_topic-accepted lengths g1 (subscription_at g p).owner_node name callbacks f used
            idle is accepts)
      ∙ ap
          (λ b.
            if b
            then fail_subscription (topic_ready lengths g p name callbacks f) rs
            else create_subscriber (topic_ready lengths g p name callbacks f) rs p qos_policies)
          live

  -- What the creation of the topic leaves alone.
  topic_ready-keeps :
      (lengths : Lengths) (g : Globals M) (p : Ptr) (name : Bytes) (callbacks : MessageCallbacks M)
      (f : Ptr)
      → let g' = topic_ready lengths g p name callbacks f in
        (g'.handles ≡ g.handles)
        × ((used idle : List Ptr)
            → IsStatic g.subscription_memory used idle
            → IsStatic g'.subscription_memory used idle)
        × ((subscription_at g' p).owner_node ≡ (subscription_at g p).owner_node)
        × ((n : Ptr)
            → (context_of g' n).creation_destroy_stream ≡ (context_of g n).creation_destroy_stream)
        × (g'.session.runs ≡ g.session.runs + 1)
        × (g'.session.confirmed ≡ g.session.confirmed)
  unfolding topic_ready
  topic_ready-keeps lengths g p name callbacks f = (
    refl,
    λ used idle is.
        write_element-IsStatic _ p _ used idle
          (write_element-IsStatic g.subscription_memory p _ used idle is),
    ground arith,
    λ n. ground arith,
    refl,
    refl,
  )

  create_subscription_topic-refused :
      (lengths : Lengths) (g : Globals M) (rs p : Ptr) (callbacks : MessageCallbacks M)
      (name : Bytes) (qos_policies : QosProfile) (h : Handle) (used idle : List Ptr) (f : Ptr)
      (topics_used topics_idle : List Ptr)
      → IsStatic g.subscription_memory (p ∷ used) idle
      → IsStatic g.topics_memory topics_used (f ∷ topics_idle)
      → g.handles rs ≡ some h
      → is_uxrce_rmw_identifier_valid h.implementation_identifier ≡ true
      → h.element ≡ null
      → RefusesThird g (subscription_at g p).owner_node
      → let (result, g') =
          create_subscription_topic lengths g rs p (with_callbacks callbacks) name qos_policies in
        (result ≡ null) × (g'.handles rs ≡ none) × IsStatic g'.subscription_memory used (p ∷ idle)
  create_subscription_topic-refused lengths g rs p callbacks name qos_policies h used idle f
        topics_used topics_idle is topics known valid at refuses =
      let g' = topic_ready lengths g p name callbacks f in
      let (handles, static, owner, stream, runs, confirmed) =
        topic_ready-keeps lengths g p name callbacks f in
      let accepts : Accepts g' (subscription_at g' p).owner_node = (
        ap (λ n. (context_of g' n).creation_destroy_stream) owner
            ∙ stream (subscription_at g p).owner_node
            ∙ refuses.reliable,
        λ r. ap₂ (λ c n. c n r) confirmed runs ∙ refuses.second r,
      ) in
      let e =
        create_subscription_topic-accepted lengths g rs p callbacks name qos_policies f topics_used
          topics_idle topics (refuses.reliable, refuses.first) in
      subst
        (λ t.
          (t.0 ≡ null) × (t.1.handles rs ≡ none) × IsStatic t.1.subscription_memory used (p ∷ idle))
        (sym e)
        (create_subscriber-refused g' rs p qos_policies h [] used idle (static (p ∷ used) idle is)
          (ap (λ t. t rs) handles ∙ known) valid at accepts
          (λ r. ap₂ (λ c n. c (n + 1) r) confirmed runs ∙ refuses.third r))

  -- What is written into the new element.
  abbrev new_subscription : Globals M → Ptr → Ptr → QosProfile → Ptr → Globals M
  new_subscription g rs n qos_policies p =
      set_subscription g p
        (record (subscription_at g p) { rmw_handle = rs; owner_node = n; qos = qos_policies })

  -- The state behind get_memory.
  abbrev taken_subscription : HandleMemory → Globals M → Bytes → Globals M
  taken_subscription memory g name =
      record (set_handle g memory.address (some (new_handle memory name))) {
        subscription_memory = (get_memory none g.subscription_memory).1;
      }

  create_subscription-taken :
      (lengths : Lengths) (memory : HandleMemory) (g : Globals M) (node : Handle)
      (callbacks : MessageCallbacks M) (name : Bytes) (qos_policies : QosProfile) (p : Ptr)
      (used idle : List Ptr)
      → memory.has_name ≡ true
      → IsStatic g.subscription_memory used (p ∷ idle)
      → create_subscription lengths memory g node (with_callbacks callbacks) name qos_policies
        ≡ create_subscription_topic lengths
            (new_subscription
              (taken_subscription memory g name)
              memory.address
              node.element
              qos_policies
              p)
            memory.address
            p
            (with_callbacks callbacks)
            name
            qos_policies
  unfolding create_subscription
  create_subscription-taken lengths memory g node callbacks name qos_policies p used idle named is =
      let rs = memory.address in
      let g1 = set_handle g rs (some (new_handle memory name)) in
      let m = get_memory none g.subscription_memory in
      let t = get_memory-IsStatic g.subscription_memory p used idle is in
      let live : (p == null) ≡ false = ground (arith, is.pool.free.1) in
      let own : (m.1.items p).element ≡ p = t.1.own p (ground arith) in
      let g2 = record g1 { subscription_memory = m.1 } in
      let inner : Ptr → Ptr × Globals M = λ q.
        create_subscription_topic lengths (new_subscription g2 rs node.element qos_policies q) rs q
          (with_callbacks callbacks) name qos_policies in
      let body : Ptr → Ptr × Globals M =
        λ q. if q == null then fail_subscription g2 rs else inner (m.1.items q).element in
      ap (λ b. if not b then fail_subscription g1 rs else body m.0) named
      ∙ ap body t.0
      ∙ ap (λ b. if b then fail_subscription g2 rs else inner (m.1.items p).element) live
      ∙ ap inner own

  rmw_create_subscription-valid :
      (lengths : Lengths) (memory : HandleMemory) (g : Globals M) (node : Handle)
      (callbacks : MessageCallbacks M) (x : ℕ) (name : Bytes) (qos_policies : QosProfile)
      → is_uxrce_rmw_identifier_valid node.implementation_identifier ≡ true
      → rmw_create_subscription lengths memory g
          (some node)
          (some (with_callbacks callbacks))
          (some (x ∷ name))
          (some qos_policies)
        ≡ create_subscription lengths memory g node
            (with_callbacks callbacks)
            (x ∷ name)
            qos_policies
  unfolding rmw_create_subscription
  rmw_create_subscription-valid lengths memory g node callbacks x name qos_policies valid =
      ap
        (λ b.
          if b
          then create_subscription lengths memory g node (with_callbacks callbacks) (x ∷ name)
              qos_policies
          else (null, g))
        valid

  -- For a node of this implementation, a free subscription and a free topic, memory for the
  -- handle and its name, and an agent that on a reliable stream confirms the topic and the
  -- subscriber but not the datareader: rmw_create_subscription returns NULL, frees the handle,
  -- and has given the item of the subscription back once: the pool has the used and the free
  -- items that it had.
  pub rmw_create_subscription-refused :
      (lengths : Lengths) (memory : HandleMemory) (g : Globals M) (node : Handle)
      (callbacks : MessageCallbacks M) (x : ℕ) (name : Bytes) (qos_policies : QosProfile) (p : Ptr)
      (used idle : List Ptr) (f : Ptr) (topics_used topics_idle : List Ptr)
      → is_uxrce_rmw_identifier_valid node.implementation_identifier ≡ true
      → memory.has_name ≡ true
      → IsStatic g.subscription_memory used (p ∷ idle)
      → IsStatic g.topics_memory topics_used (f ∷ topics_idle)
      → RefusesThird g node.element
      → let (result, g') =
          rmw_create_subscription lengths memory g
            (some node)
            (some (with_callbacks callbacks))
            (some (x ∷ name))
            (some qos_policies) in
        (result ≡ null)
        × (g'.handles memory.address ≡ none)
        × IsStatic g'.subscription_memory used (p ∷ idle)
  rmw_create_subscription-refused lengths memory g node callbacks x name qos_policies p used idle f
        topics_used topics_idle valid named is topics refuses =
      let rs = memory.address in
      let t = get_memory-IsStatic g.subscription_memory p used idle is in
      let g2 = taken_subscription memory g (x ∷ name) in
      let g3 = new_subscription g2 rs node.element qos_policies p in
      let owner : (subscription_at g3 p).owner_node ≡ node.element = ground arith in
      let third : RefusesThird g3 (subscription_at g3 p).owner_node =
        subst (λ n. RefusesThird g3 n) (sym owner)
          (record {
            reliable = refuses.reliable;
            first = refuses.first;
            second = refuses.second;
            third = refuses.third;
          }) in
      subst
        (λ r.
          (r.0 ≡ null) × (r.1.handles rs ≡ none) × IsStatic r.1.subscription_memory used (p ∷ idle))
        (sym (
          rmw_create_subscription-valid lengths memory g node callbacks x name qos_policies valid
          ∙ create_subscription-taken lengths memory g node callbacks (x ∷ name) qos_policies p used
              idle named is))
        (create_subscription_topic-refused lengths g3 rs p callbacks (x ∷ name) qos_policies
          (new_handle memory (x ∷ name)) used idle f topics_used topics_idle
          (write_element-IsStatic g2.subscription_memory p _ (p ∷ used) idle t.1) topics
          (ground arith) identified refl third)
