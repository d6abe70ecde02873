-- ===== src/Entities/Nodes/Publishing.antt =====
-- What rmw_destroy_publisher does to the pool of publishers and to the handles, and what
-- rmw_destroy_node leaves of the publishers.
use rmw_microxrcedds.Base.{
  ℕ, ◌<◌, ◌≡◌, ◌≢◌, refl, sym, subst, ap, ◌∙◌, Bool-cases, inl, inr, true, false, none, some,
  some-inj, List, [], ◌∷◌, ◌++◌, ◌==◌, length, has, has_middle, ne_of_has, eq_of_==, Distinct-pull,
  Distinct-append_left, arith, if◌then◌else◌,
}
use rmw_microxrcedds.Memory.{Ptr, null, Mempool, put_memory}
use rmw_microxrcedds.Memory.Static.{IsStatic, put_memory-IsStatic}
use rmw_microxrcedds.State.{Globals, Publisher, Handle, delete_entity}
use rmw_microxrcedds.Handles.{Ret, is_uxrce_rmw_identifier_valid}
use rmw_microxrcedds.Session.{
  write_element, context_of, buffer_request, next_request_id, last_request_id, run_xrce_session,
  run_last,
}
use rmw_microxrcedds.Topic.{fini_topic_memory, destroy_topic}
use rmw_microxrcedds.Topic.Life.{write_element-IsStatic, stream-cases}
use rmw_microxrcedds.Entities.{fini_publisher_memory}
use rmw_microxrcedds.Entities.Publishers.{publisher_at, destroy_publisher, rmw_destroy_publisher}
use rmw_microxrcedds.Entities.Failures.{fini_publisher_memory-pool}
use rmw_microxrcedds.Entities.Nodes.{destroy_owned, destroy_publishers}
use rmw_microxrcedds.Entities.Nodes.Sweep.{
  DList-next, head_of-DList, others, released, Removed, destroy_owned-Swept,
}

module _ {M : Type 0} where
  -- Neither the publishers nor the handles have changed.
  record Frame (g g' : Globals M) : Type 0 where
    publishers : g'.publisher_memory ≡ g.publisher_memory
    handles : g'.handles ≡ g.handles

  Frame-trans : {f g h : Globals M} → Frame f g → Frame g h → Frame f h
  Frame-trans a b = record {
    publishers = b.publishers ∙ a.publishers;
    handles = b.handles ∙ a.handles;
  }

  run_xrce_session-Frame : (g : Globals M) (n : Ptr) (r : ℕ) → Frame g (run_xrce_session g n r).1
  unfolding run_xrce_session
  run_xrce_session-Frame g n r = elim (stream-cases (context_of g n).creation_destroy_stream) [
    | inl e ↦ record {
      publishers = rw (run_xrce_session, e) refl;
      handles = rw (run_xrce_session, e) refl;
    }
    | inr e ↦ record {
      publishers = rw (run_xrce_session, e) refl;
      handles = rw (run_xrce_session, e) refl;
    }
  ]

  destroy_topic-Frame : (g : Globals M) (t : Ptr) → Frame g (destroy_topic g t).1
  unfolding destroy_topic buffer_request fini_topic_memory run_last
  destroy_topic-Frame g t =
      let n = (g.topics_memory.elements t).owner_node in
      let g1 = buffer_request g (delete_entity (g.topics_memory.elements t).topic_id) in
      let f = run_xrce_session-Frame g1 n (last_request_id g1) in
      elim (Bool-cases (n == null)) [
        | inl dead ↦ rw (destroy_topic, dead) (record { publishers = refl; handles = refl })
        | inr live ↦
            rw (destroy_topic, live) (record { publishers = f.publishers; handles = f.handles })
      ]

  fini_publisher_memory-handles :
      (g : Globals M) (rp p a : Ptr) (h : Handle)
      → g.handles rp ≡ some h
      → is_uxrce_rmw_identifier_valid h.implementation_identifier ≡ true
      → (fini_publisher_memory g rp).handles a ≡ (if a == rp then none else g.handles a)
  unfolding fini_publisher_memory
  fini_publisher_memory-handles g rp p a h known valid =
      rw (fini_publisher_memory, known, valid) refl

  -- The handle of a publisher is this implementation's, and its data is the publisher.
  pub record HasHandle (g : Globals M) (p : Ptr) : Type 0 where
    pub handle : Handle
    pub known : g.handles (publisher_at g p).rmw_handle ≡ some handle
    pub valid : is_uxrce_rmw_identifier_valid handle.implementation_identifier ≡ true
    pub at : handle.element ≡ p

  -- The state in which the memory of the publisher is given back.
  destroy_publisher-Frame :
      (g : Globals M) (rp p : Ptr)
      → (g5 : Globals M) × ((destroy_publisher g rp p).1 ≡ fini_publisher_memory g5 rp) × Frame g g5
  unfolding destroy_publisher buffer_request
  destroy_publisher-Frame g rp p =
      let n = (publisher_at g p).owner_node in
      let g1 = (destroy_topic g (publisher_at g p).topic).1 in
      let g2 = buffer_request g1 (delete_entity (publisher_at g1 p).datawriter_id) in
      let g3 = buffer_request g2 (delete_entity (publisher_at g2 p).publisher_id) in
      let a = destroy_topic-Frame g (publisher_at g p).topic in
      let b : Frame g g3 = record { publishers = a.publishers; handles = a.handles } in
      let c = run_xrce_session-Frame g3 n (next_request_id g1) in
      let g4 = (run_xrce_session g3 n (next_request_id g1)).1 in
      let d = run_xrce_session-Frame g4 n (next_request_id g2) in
      ((run_xrce_session g4 n (next_request_id g2)).1, refl, Frame-trans b (Frame-trans c d))

  -- All of the listed publishers have their handles.
  abbrev pub HaveHandles : Globals M → List Ptr → Type 0
  HaveHandles g used = (a : Ptr) → has a used ≡ true → HasHandle g a

  module _ (node : Handle)
      (valid : is_uxrce_rmw_identifier_valid node.implementation_identifier ≡ true)
      (full : node.element ≢ null) where
    abbrev destroy : Globals M → Ptr → Ret × Globals M
    destroy s p = rmw_destroy_publisher s (some node) (publisher_at s p).rmw_handle

    rmw_destroy_publisher-known :
        (g : Globals M) (x : Ptr)
        → HasHandle g x
        → x ≢ null
        → destroy g x ≡ destroy_publisher g (publisher_at g x).rmw_handle x
    unfolding rmw_destroy_publisher
    rmw_destroy_publisher-known g x is ne =
        let a : (node.element == null) ≡ false = ground arith in
        let b : (x == null) ≡ false = ground arith in
        rw (valid, a, is.known, is.valid, is.at, b) refl

    abbrev cleared : Globals M → Ptr → Mempool (Publisher M)
    cleared g x =
        write_element g.publisher_memory x (record (publisher_at g x) { rmw_handle = null })

    destroy-pool :
        (g : Globals M) (x : Ptr)
        → HasHandle g x
        → x ≢ null
        → ((destroy g x).1.publisher_memory ≡ put_memory false (cleared g x) x)
          × ((a : Ptr)
              → (destroy g x).1.handles a
                ≡ (if a == (publisher_at g x).rmw_handle then none else g.handles a))
    destroy-pool g x is ne =
        let rp = (publisher_at g x).rmw_handle in
        let (g5, e, f) = destroy_publisher-Frame g rp x in
        let known : g5.handles rp ≡ some is.handle = ap (λ t. t rp) f.handles ∙ is.known in
        let at = ap (λ r. r.1) (rmw_destroy_publisher-known g x is ne) ∙ e in
        (
          ap (λ s. s.publisher_memory) at
              ∙ fini_publisher_memory-pool g5 rp x is.handle known is.valid is.at ne
              ∙ ap
                  (λ m.
                    put_memory false
                      (write_element m x (record (m.elements x) { rmw_handle = null })) x)
                  f.publishers,
          λ a.
              ap (λ s. s.handles a) at
              ∙ fini_publisher_memory-handles g5 rp x a is.handle known is.valid
              ∙ ap (λ t. if a == rp then none else t a) f.handles,
        )

    cleared-element :
        (g : Globals M) (x a : Ptr)
        → ((a == x) ≡ false → (cleared g x).elements a ≡ publisher_at g a)
          × (((cleared g x).elements a).owner_node ≡ (publisher_at g a).owner_node)
    cleared-element g x a = elim (Bool-cases (a == x)) [
      | inl e ↦
          (λ ne. absurd cc, rw e (ap (λ p. (publisher_at g p).owner_node) (sym (eq_of_== a x e))))
      | inr e ↦ (λ ne. rw e refl, rw e refl)
    ]

    -- Two publishers have two handles.
    handles-distinct :
        (g : Globals M) (a x : Ptr)
        → HasHandle g a
        → HasHandle g x
        → (a == x) ≡ false
        → ((publisher_at g a).rmw_handle == (publisher_at g x).rmw_handle) ≡ false
    handles-distinct g a x p q ne =
        elim (Bool-cases ((publisher_at g a).rmw_handle == (publisher_at g x).rmw_handle)) [
          | inr other ↦ other
          | inl same ↦
              let e : p.handle ≡ q.handle =
                some-inj (sym p.known ∙ ap g.handles (eq_of_== _ _ same) ∙ q.known) in
              let f : a ≡ x = sym p.at ∙ ap (λ h. h.element) e ∙ q.at in
              let t : (a == x) ≡ true = ground arith in cc
        ]

    destroy-Removed :
        (g : Globals M) (x : Ptr) (before after idle : List Ptr)
        → IsStatic g.publisher_memory (before ++ x ∷ after) idle
        → HaveHandles g (before ++ x ∷ after)
        → Removed
            (λ s. s.publisher_memory)
            (λ s p. (publisher_at s p).owner_node)
            destroy
            node.element
            HaveHandles
            g
            (destroy g x).1
            before
            after
            (x ∷ idle)
    destroy-Removed g x before after idle is good =
        let ne =
          (DList-next g.publisher_memory.items null g.publisher_memory.allocateditems x before after
            is.pool.allocated).0 in
        let here = good x (ground (arith, has_middle x x before after)) in
        let (pool, handles) = destroy-pool g x here ne in
        let s =
          put_memory-IsStatic (cleared g x) x before after idle
            (write_element-IsStatic g.publisher_memory x _ (before ++ x ∷ after) idle is) in
        let at : (a : Ptr) → publisher_at (destroy g x).1 a ≡ (cleared g x).elements a =
          λ a. ap (λ m. m.elements a) pool ∙ ap (λ t. t a) s.1.elements in
        let out =
          (Distinct-pull x before after
            (Distinct-append_left (before ++ x ∷ after) idle is.pool.distinct)).0 in
        record {
          static = subst (λ m. IsStatic m (before ++ after) (x ∷ idle)) (sym pool) s.0;
          good = λ a i.
              let apart = ne_of_has a x (before ++ after) i out in
              let old = good a (ground (arith, has_middle a x before after)) in
              let same : publisher_at (destroy g x).1 a ≡ publisher_at g a =
                at a ∙ (cleared-element g x a).0 apart in
              let other = handles-distinct g a x old here apart in
              record {
                handle = old.handle;
                known =
                    ap (λ p. (destroy g x).1.handles p.rmw_handle) same
                    ∙ handles (publisher_at g a).rmw_handle
                    ∙ rw other old.known;
                valid = old.valid;
                at = old.at;
              };
          owners = λ a. ap (λ p. p.owner_node) (at a) ∙ (cleared-element g x a).1;
        }

    -- For a valid node, a pool of publishers that all have their handles, and more fuel than
    -- allocated publishers: the loop of rmw_destroy_node over the publishers ends, whatever the
    -- agent answers, and leaves in use exactly the publishers of other nodes, in their order and
    -- with their handles; the items of the node's publishers have been put in front of the free
    -- ones, one after the other, and no item is lost.
    pub destroy_publishers-others :
        (fuel : ℕ) (g : Globals M) (used idle : List Ptr) (ret : Ret)
        → IsStatic g.publisher_memory used idle
        → HaveHandles g used
        → length used < fuel
        → let left = others (λ p. (publisher_at g p).owner_node == node.element) used in
          let free = released (λ p. (publisher_at g p).owner_node == node.element) used idle in
          (r : Ret) × (g' : Globals M) × (destroy_publishers fuel node g ret ≡ some (r, g'))
          × IsStatic g'.publisher_memory left free
          × HaveHandles g' left
    unfolding destroy_publishers
    destroy_publishers-others fuel g used idle ret is good lt =
        let (r, g', e, w) =
          destroy_owned-Swept (λ s. s.publisher_memory) (λ s p. (publisher_at s p).owner_node)
            destroy node.element HaveHandles destroy-Removed fuel g [] used idle ret lt is good in
        let start =
          head_of-DList g.publisher_memory.items null g.publisher_memory.allocateditems used
            is.pool.allocated in
        let from_start =
          ap
            (λ item.
              destroy_owned fuel (λ s p. s.publisher_memory.items p)
                (λ s p. (publisher_at s p).owner_node) destroy node.element g item ret)
            start in
        (r, g', from_start ∙ e, w.static, w.good)
