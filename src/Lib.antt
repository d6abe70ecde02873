-- ===== src/Lib.antt =====
-- A model of rmw_microxrcedds, the ROS 2 middleware layer over Micro XRCE-DDS, with the theorems
-- that its components keep what they promise. Paths are from the repository's root.
--
-- The program has no heap of its own: every entity that the user creates, and every sample that
-- arrives, lives in an element of a static pool. Memory models rmw_microxrcedds_c/src/memory.c,
-- where the two lists of a pool are linked through pointers: an address is a number, 0 is NULL,
-- and the items are a function of addresses. Memory.Lists and Memory.Unlink describe these lists
-- by the lists of their items, Memory.Invariant, Memory.Get and Memory.Put say what the
-- operations do to them, Memory.Init the initialisation in rmw_microxrcedds_c/src/types.c,
-- Memory.Static the pools without dynamic memory, Memory.Dynamic those with it, Memory.Walk the
-- loop that other components run over a pool.
--
-- Types and State are the records of rmw_microxrcedds_c/src/types.h and the global pools; Handles
-- is the check of rmw_microxrcedds_c/src/utils.c that a handle belongs to this implementation.
--
-- Buffers is the pool of samples that arrived: rmw_uxrce_find_static_input_buffer_by_owner of
-- types.c, and the block that the callbacks of rmw_microxrcedds_c/src/callbacks.c share. Its
-- abstract view is a mailbox of samples for each owner. Receive models the callbacks,
-- rmw_microxrcedds_c/src/rmw_take.c, rmw_take_request of rmw_request.c and rmw_take_response of
-- rmw_response.c; Receive.Arrival follows a sample from its callback to the function that takes
-- it. RequestIds models the conversions between the identity of a request and rmw_request_id_t in
-- rmw_request.c and rmw_response.c.
--
-- Names, Xml and Session model rmw_microxrcedds_c/src/utils.c: the names of the entities, the XML
-- texts, profiles and names made of object ids, and run_xrce_session. Topic models
-- rmw_microxrcedds_topic.c; Entities models the functions of types.c that give entities back, and
-- its children rmw_publisher.c, rmw_subscription.c, rmw_service.c, rmw_client.c and rmw_node.c:
-- creation and destruction, in the order of the source, with the requests to the agent as a list.
-- Entities.Failures is about the last requests of these creations when the agent does not confirm
-- them, Entities.Refused about whole creations that end so, Entities.Nodes.Sweep and
-- Entities.Nodes.Publishing about the loops of rmw_destroy_node.
--
-- Options and Init model rmw_microxrcedds_c/src/rmw_init.c and
-- rmw_microxrcedds_c/src/rmw_microros/init_options.c: the options of a context, and rmw_init,
-- rmw_shutdown and rmw_context_fini, which initialise the pools and call the client library for
-- the transport and the session. Send models rmw_send_request of rmw_request.c and
-- rmw_send_response of rmw_response.c over the output streams of the client library, and
-- Send.Publish rmw_microxrcedds_c/src/rmw_publish.c, where the session, the buffer and the
-- functions that act on them are parameters; Send.Replies follows a request from its callback to
-- the response that is sent.
--
-- Graph models rmw_microxrcedds_c/src/rmw_graph.c and the functions that look into the graph:
-- Graph.Queries those of rmw_count.c, rmw_node_names.c and rmw_get_topic_endpoint_info.c,
-- Graph.Listing those of rmw_topic_names_and_types.c, rmw_service_names_and_types.c and
-- rmw_node_info_and_types.c. Graph.Setup is rmw_graph_init, with its requests as a list.
-- Graph.Decode reads back what a writer of the CDR library wrote; the other children say what the
-- functions find in it.
--
-- Gids models rmw_get_gid_for_publisher.c and rmw_compare_gids_equal.c of rmw_microxrcedds_c/src.
--
-- Microros models ping.c, time_sync.c, custom_transport.c and continous_serialization.c of
-- rmw_microxrcedds_c/src/rmw_microros.
--
-- Wait models rmw_microxrcedds_c/src/rmw_wait.c: the timeout, and the part after the sessions
-- were run, in which the client library has called the callbacks; Wait.Guards models
-- rmw_guard_condition.c and rmw_trigger_guard_condition.c.
--
-- Examples has small states, and applies the theorems to them.
--
-- Loops over a pool run on fuel, and none is the result when it runs out; more fuel than
-- allocated items is enough. Locks are counted: the mutex of a pool is recursive, and one thread
-- is modelled. Builds without RMW_UXRCE_GRAPH and RMW_UXRCE_USE_REFS are modelled, except in
-- Graph and Xml, and builds for UDP over IPv4; RMW_UXRCE_ALLOW_DYNAMIC_ALLOCATIONS is an argument
-- of the operations on pools and is off in the entities. The client library is a parameter of the
-- state: the request ids it returns, its uxr_object_id, and whether it confirms a request id at a
-- run; flushing has no effect on the entities. All contexts share the list of requests. The calls
-- of the client library in Init and their order, and the effects of Send on the output streams,
-- are lists, the newest first. What stands in memory for an object id and behind a gid, the CDR
-- library, the arrays of strings of rcutils, rand and RMW_CHECK_TYPE_IDENTIFIERS_MATCH are
-- parameters. The type support is a parameter: the callbacks that its tables hold. Strings are
-- lists of bytes without the terminating zero, and a buffer of n bytes keeps n - 1 of them.
--
-- Not modelled: the running of the sessions in rmw_wait with its shares of the timeout in
-- floating point, the call of rmw_graph_init in rmw_init, the opening of transports, discovery,
-- which runs a session of the client library from a callback of that library, wait sets, which
-- keep no state, and functions that only report that they are not implemented.
pub mod Base
pub mod Memory
pub mod Types
pub mod State
pub mod Buffers
pub mod Handles
pub mod Names
pub mod Session
pub mod Topic
pub mod Entities
pub mod Wait
pub mod Send
pub mod Options
pub mod Init
pub mod Xml
pub mod Graph
pub mod Gids
pub mod Microros
pub mod Examples
pub mod RequestIds
pub mod Receive
