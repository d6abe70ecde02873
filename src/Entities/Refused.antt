-- ===== src/Entities/Refused.antt =====
-- What the creation of a publisher and that of a subscription share until the agent refuses their
-- third request.
pub mod Subscriptions
pub mod Publishers
use rmw_microxrcedds.Base.{
  ℕ, ◌+◌, ◌≡◌, ◌≢◌, refl, sym, ap, ap₂, subst, ◌∙◌, true, false, not, none, some, List, [], ◌∷◌,
  ◌++◌, arith, ◌==◌, if◌then◌else◌,
}
use rmw_microxrcedds.Memory.{Ptr, null, get_memory, put_memory}
use rmw_microxrcedds.Memory.Static.{IsStatic, get_memory-IsStatic}
use rmw_microxrcedds.Types.{Bytes, MessageCallbacks, QosProfile, reliable_stream}
use rmw_microxrcedds.State.{
  Globals, Handle, subscriber_kind, publisher_kind, create_subscriber_bin, create_publisher_bin,
}
use rmw_microxrcedds.Handles.{is_uxrce_rmw_identifier_valid, rmw_get_implementation_identifier}
use rmw_microxrcedds.Session.{
  write_element, count_up, context_of, set_context, participant_of, buffer_request, run_last,
  set_handle,
}
use rmw_microxrcedds.Topic.{announce_topic, create_topic}
use rmw_microxrcedds.Topic.Life.{write_element-IsStatic, create_topic-run}
use rmw_microxrcedds.Entities.{Lengths, HandleMemory, with_callbacks}
use rmw_microxrcedds.Entities.Publishers.{
  publisher_at, set_publisher, fail_publisher, put_publisher, init_publisher, announce_publisher,
  create_datawriter, create_publisher_entity, create_publisher_topic, create_publisher,
  rmw_create_publisher,
}
use rmw_microxrcedds.Entities.Subscriptions.{
  subscription_at, set_subscription, fail_subscription, put_subscription, announce_subscriber,
  create_datareader, create_subscriber, create_subscription_topic, create_subscription,
  rmw_create_subscription,
}
use rmw_microxrcedds.Entities.Failures.{
  Refuses, Accepts, ran, run-accepted, create_datawriter-refused, create_datareader-refused,
}

pub identified : is_uxrce_rmw_identifier_valid rmw_get_implementation_identifier ≡ true
unfolding is_uxrce_rmw_identifier_valid
identified = refl

-- The handle that is given out, without data.
abbrev pub new_handle : HandleMemory → Bytes → Handle
new_handle memory name = record {
  implementation_identifier = rmw_get_implementation_identifier;
  element = null;
  name = if memory.has_name then some name else none;
}

module _ {M : Type 0} where
  -- Requests on a reliable stream, of which the agent confirms two and not the third.
  pub record RefusesThird (g : Globals M) (custom_node : Ptr) : Type 0 where
    pub reliable : (context_of g custom_node).creation_destroy_stream ≡ reliable_stream
    pub first : (r : ℕ) → g.session.confirmed g.session.runs r ≡ true
    pub second : (r : ℕ) → g.session.confirmed (g.session.runs + 1) r ≡ true
    pub third : (r : ℕ) → g.session.confirmed (g.session.runs + 1 + 1) r ≡ false

  -- The state in which the session runs for the topic.
  abbrev pub announced : Lengths → Globals M → Ptr → Bytes → MessageCallbacks M → Ptr → Globals M
  announced lengths g n name callbacks f =
      announce_topic lengths.topic_name lengths.type_name
        (record g { topics_memory = (get_memory none g.topics_memory).1 }) n name callbacks f

  pub create_topic-accepted :
      (lengths : Lengths) (g : Globals M) (n : Ptr) (name : Bytes) (callbacks : MessageCallbacks M)
      (f : Ptr) (used idle : List Ptr)
      → IsStatic g.topics_memory used (f ∷ idle)
      → Accepts g n
      → create_topic lengths.topic_name lengths.type_name g n name callbacks
        ≡ (f, ran (announced lengths g n name callbacks f))
  unfolding announce_topic buffer_request
  create_topic-accepted lengths g n name callbacks f used idle is accepts =
      create_topic-run lengths.topic_name lengths.type_name g n name callbacks f used idle is
      ∙ rw (run-accepted (announced lengths g n name callbacks f) n (ground arith, accepts.1)) refl
