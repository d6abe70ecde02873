-- ===== src/Session.antt =====
-- `run_xrce_session` of src/utils.c, and the small steps that the functions on entities share:
-- buffering a request, counting up an entity number, writing an element of a pool.
use rmw_microxrcedds.Base.{
  ℕ, ◌+◌, ◌%◌, ◌^◌, Bool, true, false, Option, [], ◌∷◌, ◌==◌, if◌then◌else◌,
}
use rmw_microxrcedds.Memory.{Ptr, Mempool}
use rmw_microxrcedds.Types.{
  best_effort_stream, reliable_stream, ObjectId, Reliability, reliability_reliable,
  reliability_system_default, reliability_best_effort, History, history_keep_last, Durability,
  durability_volatile,
}
use rmw_microxrcedds.State.{
  Globals, Context, Handle, Request, UxrDurability, uxr_volatile, uxr_transient_local,
}

module _ {A : Type 0} where
  abbrev pub write_element : Mempool A → Ptr → A → Mempool A
  write_element m e b = record m { elements = λ a. if a == e then b else m.elements a }

-- `n++` on a `uint16_t`
abbrev pub count_up : ℕ → ℕ
count_up n = (n + 1) % 2 ^ 16

module _ {M : Type 0} where
  -- `custom_node->context`
  abbrev pub context_of : Globals M → (custom_node : Ptr) → Context
  context_of g custom_node = g.session_memory.elements (g.node_memory.elements custom_node).context

  abbrev pub set_context : Globals M → (custom_node : Ptr) → Context → Globals M
  set_context g custom_node c = record g {
    session_memory = write_element g.session_memory (g.node_memory.elements custom_node).context c;
  }

  abbrev pub participant_of : Globals M → (custom_node : Ptr) → ObjectId
  participant_of g custom_node = (g.node_memory.elements custom_node).participant_id

  -- A call of `uxr_buffer_…`.
  unfoldable pub buffer_request : Globals M → Request → Globals M
  buffer_request g r = record g { session = record (g.session) { sent = r ∷ g.session.sent } }

  -- The request id that the next call of `uxr_buffer_…` returns.
  abbrev pub next_request_id : Globals M → ℕ
  next_request_id g = g.session.request_id g.session.sent

  -- The request id that the last call of `uxr_buffer_…` returned.
  abbrev pub last_request_id : Globals M → ℕ
  last_request_id g = elim g.session.sent [ [] ↦ 0 | r ∷ before ↦ g.session.request_id before ]

  -- On a best-effort stream the requests are only flushed, on a reliable one the result is the
  -- client's.
  unfoldable pub run_xrce_session :
      Globals M → (custom_node : Ptr) → (requests : ℕ) → Bool × Globals M
  run_xrce_session g custom_node requests =
      elim (context_of g custom_node).creation_destroy_stream [
        | best_effort_stream ↦ (true, g)
        | reliable_stream ↦ (
          g.session.confirmed g.session.runs requests,
          record g { session = record (g.session) { runs = g.session.runs + 1 } },
        )
      ]

  -- The run for the request that was buffered last.
  unfoldable pub run_last : Globals M → (custom_node : Ptr) → Bool × Globals M
  unfolding run_xrce_session
  run_last g custom_node = run_xrce_session g custom_node (last_request_id g)

  abbrev pub handle_at : Globals M → Ptr → Option Handle
  handle_at g p = g.handles p

  abbrev pub set_handle : Globals M → Ptr → Option Handle → Globals M
  set_handle g p h = record g { handles = λ a. if a == p then h else g.handles a }

-- The tests on the profile in the functions that create entities.
abbrev pub is_best_effort : Reliability → Bool
is_best_effort reliability_best_effort = true
is_best_effort _ = false

abbrev pub wants_reliability : Reliability → Bool
wants_reliability reliability_reliable = true
wants_reliability reliability_system_default = true
wants_reliability _ = false

abbrev pub keeps_last : History → Bool
keeps_last history_keep_last = true
keeps_last _ = false

abbrev pub durability_of : Durability → UxrDurability
durability_of durability_volatile = uxr_volatile
durability_of _ = uxr_transient_local
