-- ===== src/Topic/Life.antt =====
-- `create_topic` and `destroy_topic` against the pool of topics and the requests that were sent.
use rmw_microxrcedds.Base.{
  ℕ, ◌≡◌, ◌≢◌, refl, sym, ap, subst, ◌∙◌, Bool, true, false, none, List, [], ◌∷◌, ◌++◌, arith, ◌==◌,
  if◌then◌else◌, Bool-cases, ◌⊎◌, inl, inr,
}
use rmw_microxrcedds.Memory.{Ptr, null, Mempool, get_memory}
use rmw_microxrcedds.Memory.Static.{IsStatic, get_memory-IsStatic, put_memory-IsStatic}
use rmw_microxrcedds.Memory.Get.{get_memory-exhausted}
use rmw_microxrcedds.Types.{Bytes, MessageCallbacks, StreamId, best_effort_stream, reliable_stream}
use rmw_microxrcedds.State.{Globals, topic_kind, create_topic_bin, delete_entity}
use rmw_microxrcedds.Handles.{error}
use rmw_microxrcedds.Names.{generate_topic_name, generate_type_name}
use rmw_microxrcedds.Session.{
  write_element, context_of, participant_of, buffer_request, next_request_id, last_request_id,
  run_xrce_session, run_last,
}
use rmw_microxrcedds.Topic.{fini_topic_memory, announce_topic, create_topic, destroy_topic}

module _ {A : Type 0} where
  pub write_element-IsStatic :
      (m : Mempool A) (e : Ptr) (b : A) (used idle : List Ptr)
      → IsStatic m used idle
      → IsStatic (write_element m e b) used idle
  write_element-IsStatic m e b used idle is = record {
    pool = record {
      allocated = is.pool.allocated;
      free = is.pool.free;
      distinct = is.pool.distinct;
    };
    own = is.own;
    static = is.static;
  }

pub stream-cases : (s : StreamId) → (s ≡ best_effort_stream) ⊎ (s ≡ reliable_stream)
stream-cases best_effort_stream = inl refl
stream-cases reliable_stream = inr refl

module _ {M : Type 0} where
  -- Will the run for the next request succeed? On a best-effort stream always, on a reliable one if
  -- the agent confirms the request.
  abbrev pub confirms : Globals M → (custom_node : Ptr) → Bool
  confirms g n = elim (context_of g n).creation_destroy_stream [
    | best_effort_stream ↦ true
    | reliable_stream ↦ g.session.confirmed g.session.runs (next_request_id g)
  ]

  -- What the run of the session leaves alone.
  pub run_xrce_session-keeps :
      (g : Globals M) (n : Ptr) (r : ℕ)
      → ((run_xrce_session g n r).1.topics_memory ≡ g.topics_memory)
        × ((run_xrce_session g n r).1.session.sent ≡ g.session.sent)
  unfolding run_xrce_session
  run_xrce_session-keeps g n r = elim (stream-cases (context_of g n).creation_destroy_stream) [
    | inl e ↦ (rw (run_xrce_session, e) refl, rw (run_xrce_session, e) refl)
    | inr e ↦ (rw (run_xrce_session, e) refl, rw (run_xrce_session, e) refl)
  ]

  pub fini_topic_memory-IsStatic :
      (g : Globals M) (t : Ptr) (before after idle : List Ptr)
      → IsStatic g.topics_memory (before ++ t ∷ after) idle
      → IsStatic (fini_topic_memory g t).topics_memory (before ++ after) (t ∷ idle)
        × (((fini_topic_memory g t).topics_memory.elements t).owner_node ≡ null)
  unfolding fini_topic_memory
  fini_topic_memory-IsStatic g t before after idle is = (
    write_element-IsStatic _ t _ (before ++ after) (t ∷ idle)
        (put_memory-IsStatic g.topics_memory t before after idle is).0,
    ground arith,
  )

  fini_topic_memory-sent :
      (g : Globals M) (t : Ptr) → (fini_topic_memory g t).session.sent ≡ g.session.sent
  unfolding fini_topic_memory
  fini_topic_memory-sent g t = refl

  destroy_topic-dead :
      (g : Globals M) (t : Ptr)
      → (g.topics_memory.elements t).owner_node ≡ null
      → destroy_topic g t ≡ (error, g)
  unfolding destroy_topic
  destroy_topic-dead g t dead =
      let e : ((g.topics_memory.elements t).owner_node == null) ≡ true = ground arith in rw e refl

  module _ (topic_size type_size : ℕ) (g : Globals M) (n : Ptr) (name : Bytes)
      (callbacks : MessageCallbacks M) where
    -- Without a free topic create_topic returns NULL, sends nothing and changes nothing.
    pub create_topic-exhausted :
        (used : List Ptr)
        → IsStatic g.topics_memory used []
        → create_topic topic_size type_size g n name callbacks ≡ (null, g)
    unfolding create_topic
    create_topic-exhausted used is =
        let e = get_memory-exhausted none g.topics_memory used is.pool (inl refl) in rw e

    -- The state in which the session is run, with `f` the topic that the pool gave.
    abbrev announced : Ptr → Globals M
    announced f =
        announce_topic topic_size type_size
          (record g { topics_memory = (get_memory none g.topics_memory).1 }) n name callbacks f

    announced-IsStatic :
        (f : Ptr) (used idle : List Ptr)
        → IsStatic g.topics_memory used (f ∷ idle)
        → IsStatic (announced f).topics_memory (f ∷ used) idle
    unfolding announce_topic buffer_request
    announced-IsStatic f used idle is =
        write_element-IsStatic _ f _ (f ∷ used) idle
          (get_memory-IsStatic g.topics_memory f used idle is).1

    pub create_topic-run :
        (f : Ptr) (used idle : List Ptr)
        → IsStatic g.topics_memory used (f ∷ idle)
        → create_topic topic_size type_size g n name callbacks ≡ (
            let (answered, g3) = run_last (announced f) n in
            if answered then (f, g3) else (null, fini_topic_memory g3 f))
    unfolding create_topic
    create_topic-run f used idle is =
        let t = get_memory-IsStatic g.topics_memory f used idle is in
        let ne : (f == null) ≡ false = ground (arith, is.pool.free.1) in
        let own : ((get_memory none g.topics_memory).1.items f).element ≡ f =
          t.1.own f (ground arith) in
        rw (t.0, ne, own) refl

    -- Announcing the topic changes neither the stream nor the answer.
    announced-answer : (f : Ptr) → (run_last (announced f) n).0 ≡ confirms g n
    unfolding announce_topic buffer_request run_last
    announced-answer f =
        let s : (context_of (announced f) n).creation_destroy_stream
            ≡ (context_of g n).creation_destroy_stream =
          ground arith in
        elim (stream-cases (context_of g n).creation_destroy_stream) [
          | inl e ↦ let t = s ∙ e in rw (run_xrce_session, t) (rw (confirms, e) refl)
          | inr e ↦ let t = s ∙ e in rw (run_xrce_session, t) (rw (confirms, e) refl)
        ]

    announced-topic :
        (f : Ptr)
        → (((announced f).topics_memory.elements f).owner_node ≡ n)
          × (((announced f).topics_memory.elements f).topic_id
              ≡ g.session.uxr_object_id (context_of g n).id_topic topic_kind)
          × ((announced f).session.sent
              ≡ create_topic_bin
                  (g.session.uxr_object_id (context_of g n).id_topic topic_kind)
                  (participant_of g n)
                  (generate_topic_name name topic_size).0
                  (generate_type_name callbacks type_size).0
                ∷ g.session.sent)
    unfolding announce_topic buffer_request
    announced-topic f = (ground arith, ground arith, refl)

    -- With a free topic: create_topic sends one creation request. If the stream is best effort or
    -- the agent confirms the request, it returns the first free topic, which is then allocated
    -- and marked with its node and its id; otherwise it returns NULL and the pool has the
    -- allocated and the free topics that it had before.
    pub create_topic-IsStatic :
        (f : Ptr) (used idle : List Ptr)
        → IsStatic g.topics_memory used (f ∷ idle)
        → let (topic, g') = create_topic topic_size type_size g n name callbacks in
          let id = g.session.uxr_object_id (context_of g n).id_topic topic_kind in
          (g'.session.sent
            ≡ create_topic_bin id
                (participant_of g n)
                (generate_topic_name name topic_size).0
                (generate_type_name callbacks type_size).0
              ∷ g.session.sent)
          × (((confirms g n ≡ true)
                × (topic ≡ f)
                × IsStatic g'.topics_memory (f ∷ used) idle
                × ((g'.topics_memory.elements f).owner_node ≡ n)
                × ((g'.topics_memory.elements f).topic_id ≡ id))
              ⊎ ((confirms g n ≡ false)
                  × (topic ≡ null)
                  × IsStatic g'.topics_memory used (f ∷ idle)
                  × ((g'.topics_memory.elements f).owner_node ≡ null)))
    unfolding run_last
    create_topic-IsStatic f used idle is =
        let e = create_topic-run f used idle is in
        let k = run_xrce_session-keeps (announced f) n (last_request_id (announced f)) in
        let a = announced-topic f in
        let answer = announced-answer f in
        let g3 = (run_last (announced f) n).1 in
        let s =
          subst (λ m. IsStatic m (f ∷ used) idle) (sym k.0) (announced-IsStatic f used idle is) in
        elim (Bool-cases (run_last (announced f) n).0) [
          | inl yes' ↦
              let done : create_topic topic_size type_size g n name callbacks ≡ (f, g3) =
                e ∙ rw yes' refl in
              (
                ap (λ r. r.1.session.sent) done ∙ k.1 ∙ a.2,
                inl (
                  sym answer ∙ yes',
                  ap (λ r. r.0) done,
                  subst (λ r. IsStatic r.1.topics_memory (f ∷ used) idle) (sym done) s,
                  ap (λ r. (r.1.topics_memory.elements f).owner_node) done
                      ∙ ap (λ m. (m.elements f).owner_node) k.0
                      ∙ a.0,
                  ap (λ r. (r.1.topics_memory.elements f).topic_id) done
                      ∙ ap (λ m. (m.elements f).topic_id) k.0
                      ∙ a.1,
                ),
              )
          | inr no' ↦
              let done : create_topic topic_size type_size g n name callbacks
                  ≡ (null, fini_topic_memory g3 f) =
                e ∙ rw no' refl in
              let z = fini_topic_memory-IsStatic g3 f [] used idle s in
              (
                ap (λ r. r.1.session.sent) done ∙ fini_topic_memory-sent g3 f ∙ k.1 ∙ a.2,
                inr (
                  sym answer ∙ no',
                  ap (λ r. r.0) done,
                  subst (λ r. IsStatic r.1.topics_memory used (f ∷ idle)) (sym done) z.0,
                  ap (λ r. (r.1.topics_memory.elements f).owner_node) done ∙ z.1,
                ),
              )
        ]

  -- For an allocated topic with a node: destroy_topic sends one deletion request and makes the
  -- topic free, whatever the agent answers, and a second call for the same topic returns an error
  -- and changes nothing.
  pub destroy_topic-again :
      (g : Globals M) (t : Ptr) (before after idle : List Ptr)
      → IsStatic g.topics_memory (before ++ t ∷ after) idle
      → (g.topics_memory.elements t).owner_node ≢ null
      → let g' = (destroy_topic g t).1 in
        IsStatic g'.topics_memory (before ++ after) (t ∷ idle)
        × (g'.session.sent ≡ delete_entity (g.topics_memory.elements t).topic_id ∷ g.session.sent)
        × (destroy_topic g' t ≡ (error, g'))
  unfolding destroy_topic buffer_request run_last
  destroy_topic-again g t before after idle is live =
      let n = (g.topics_memory.elements t).owner_node in
      let g1 = buffer_request g (delete_entity (g.topics_memory.elements t).topic_id) in
      let g2 = (run_last g1 n).1 in
      let k = run_xrce_session-keeps g1 n (last_request_id g1) in
      let alive : (n == null) ≡ false = ground arith in
      let done : (destroy_topic g t).1 ≡ fini_topic_memory g2 t = rw alive refl in
      let z =
        fini_topic_memory-IsStatic g2 t before after idle
          (subst (λ m. IsStatic m (before ++ t ∷ after) idle) (sym k.0) is) in
      (
        subst (λ s. IsStatic s.topics_memory (before ++ after) (t ∷ idle)) (sym done) z.0,
        ap (λ s. s.session.sent) done ∙ fini_topic_memory-sent g2 t ∙ k.1,
        destroy_topic-dead (destroy_topic g t).1 t
            (ap (λ s. (s.topics_memory.elements t).owner_node) done ∙ z.1),
      )
