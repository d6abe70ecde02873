-- ===== src/Graph/Setup/Steps.antt =====
-- What rmw_graph_init asks of the agent.
use rmw_microxrcedds.Base.{
  ℕ, ◌≡◌, refl, ◌⊎◌, inl, inr, Bool, Bool-cases, Option-cases, true, false, List, [], ◌∷◌, ◌++◌,
}
use rmw_microxrcedds.Types.{Bytes, ObjectId, MessageCallbacks}
use rmw_microxrcedds.State.{
  Context, ObjectKind, participant_kind, topic_kind, subscriber_kind, datareader_kind,
}
use rmw_microxrcedds.Handles.{ok, error}
use rmw_microxrcedds.Session.{count_up}
use rmw_microxrcedds.Xml.{NameLengths, bytes, build_topic_xml, build_datareader_xml}
use rmw_microxrcedds.Graph.Setup.{
  Setup, GraphCall, create_participant_bin, create_subscriber_xml, create_topic_xml,
  create_datareader_xml, run_session, request_data, accepted, graph_topic_name,
  graph_subscription_qos_policies, rmw_graph_init, setup_datareader, setup_topic,
}

-- Is data requested by one of the calls?
abbrev pub requests_data : List GraphCall → Bool
requests_data [] = false
requests_data (request_data _ _ _ ∷ rest) = true
requests_data (_ ∷ rest) = requests_data rest

module _ (uxr_object_id : ℕ → ObjectKind → ObjectId) where
  -- The four ids that the entities of the graph get.
  abbrev participant : Setup → ObjectId
  participant s = uxr_object_id s.context.id_participant participant_kind

  abbrev subscriber : Setup → ObjectId
  subscriber s = uxr_object_id s.context.id_subscriber subscriber_kind

  abbrev topic : Setup → ObjectId
  topic s = uxr_object_id s.context.id_topic topic_kind

  abbrev datareader : Setup → ObjectId
  datareader s = uxr_object_id s.context.id_datareader datareader_kind

  -- The first two requests.
  abbrev pub started : Setup → List GraphCall
  started s =
      create_subscriber_xml (subscriber s) (participant s) []
      ∷ create_participant_bin (participant s) 0 (bytes "microros_graph")
      ∷ s.calls

  -- All calls, for the texts that describe the topic and the datareader.
  abbrev pub asked : Setup → (topic_xml datareader_xml : Bytes) → List GraphCall
  asked s topic_xml datareader_xml =
      request_data s.context.reliable_output (datareader s) s.context.reliable_input
      ∷ run_session 4
      ∷ create_datareader_xml (datareader s) (subscriber s) datareader_xml
      ∷ create_topic_xml (topic s) (participant s) topic_xml
      ∷ started s

-- The four numbers have been counted up once.
abbrev pub counted : Context → Context
counted c = record c {
  id_participant = count_up c.id_participant;
  id_subscriber = count_up c.id_subscriber;
  id_datareader = count_up c.id_datareader;
  id_topic = count_up c.id_topic;
}

module _ {M : Type 0} (naming_buffer : ℕ) (lengths : NameLengths)
    (uxr_object_id : ℕ → ObjectKind → ObjectId) (members : MessageCallbacks M)
    (confirmed : Bool) where
  -- rmw_graph_init counts up the four numbers once on every branch. Either it returns RMW_RET_OK:
  -- the agent has confirmed the requests, which were the participant, the subscriber and the
  -- topic of this participant, and the datareader of this subscriber, and data is then requested
  -- from this datareader; or it returns RMW_RET_ERROR and has not requested data.
  pub rmw_graph_init-asked :
      (s : Setup)
      → let (ret, s') = rmw_graph_init naming_buffer lengths uxr_object_id members confirmed s in
        (s'.context ≡ counted s.context)
        × (((ret ≡ ok)
              × (confirmed ≡ true)
              × (topic_xml : Bytes) × (datareader_xml : Bytes) × (s'.calls
                  ≡ asked uxr_object_id s topic_xml datareader_xml))
            ⊎ ((ret ≡ error)
                × (new : List GraphCall) × (s'.calls ≡ new ++ started uxr_object_id s)
                × (requests_data new ≡ false)))
  unfolding rmw_graph_init build_topic_xml
  rmw_graph_init-asked s =
      let t = accepted (
        build_topic_xml lengths graph_topic_name members graph_subscription_qos_policies
          naming_buffer) in
      let d = accepted (
        build_datareader_xml lengths graph_topic_name members graph_subscription_qos_policies
          naming_buffer) in
      elim (Option-cases t) [
        | inl e ↦ rw (rmw_graph_init, setup_topic, e) (refl, inr (refl, [], refl, refl))
        | inr (x, e) ↦ elim (Option-cases d) [
          | inl f ↦
              rw (rmw_graph_init, setup_topic, e, setup_datareader, f)
                (
                  refl,
                  inr (
                    refl,
                    create_topic_xml (topic uxr_object_id s) (participant uxr_object_id s) x ∷ [],
                    refl,
                    refl,
                  ),
                )
          | inr (y, f) ↦ elim (Bool-cases confirmed) [
            | inl g ↦
                rw (rmw_graph_init, setup_topic, e, setup_datareader, f, g)
                  (refl, inl (refl, refl, x, y, refl))
            | inr g ↦
                rw (rmw_graph_init, setup_topic, e, setup_datareader, f, g)
                  (
                    refl,
                    inr (
                      refl,
                      run_session 4
                          ∷ create_datareader_xml (datareader uxr_object_id s)
                              (subscriber uxr_object_id s) y
                          ∷ create_topic_xml (topic uxr_object_id s) (participant uxr_object_id s) x
                          ∷ [],
                      refl,
                      refl,
                    ),
                  )
          ]
        ]
      ]
