-- ===== src/Lib.antt =====
-- Verification of the DSA SDK and broker in C.
--
-- A broker connects links: programs that offer a tree of nodes (responders) or use the nodes of others (requesters). It
-- answers a request only if the requester has the permission for the path, and forwards each value of a subscribed node
-- over the WebSocket of the subscriber, with a window of messages that are not acknowledged yet. The SDK holds the
-- collections that both sides use.
--
-- The parts, and the files that model them:
--
--   Prelude: names of the libraries, tests on numbers, C arrays as lists, signed results, byte strings, and the type Run
--     of code that may fault (access outside a block, or through NULL) or run out of fuel.
--   Col/Ringbuffer: sdk/src/col/ringbuffer.c (rb_init, rb_push, rb_pop, rb_front, rb_at, rb_count, rb_free). Window, Inv,
--     Queue, Refine, Trace and Free compare it with a bounded queue; Assign treats a write through a pointer of rb_at.
--   Col/Vector: sdk/src/col/vector.c. The storage and the updates are in Vector, the searches in Vector/Search; Inv, Erase,
--     Find, RemoveIf, Sorted and Lookup hold the theorems.
--   Col/Map: sdk/src/col/map.c. The table is the list of its chains. Chain and Place describe one chain, Inv and Entries the
--     whole table, Refine and Trace compare it with an association list; Empty, Failure and Hash treat the end of a map,
--     a failed allocation, and the hash and comparison functions.
--   Col/LinkedList: sdk/src/col/list.c and sdk/include/dslink/col/list.h, on a store of linked nodes. Ring says what list the
--     nodes stand for, Update and Correct treat one operation, Trace a sequence.
--   Col/Listener: sdk/src/col/listener.c. Dispatch and RemoveAll treat callbacks that take out or free their listener.
--   Text/Base64: sdk/src/base64_url.c. Tables is the alphabet, Bounds and RoundTrip hold the theorems.
--   Text/Compare, Text/Escape: dslink_str_starts_with, dslink_str_escape and dslink_str_unescape of sdk/src/utils.c.
--   Broker/Permission: broker/src/permission/permission.c on the trees of broker/include/broker/node.h. Groups loads the
--     groups of a requester, Tree is the data, Access the walk of get_permission, Json and Update the lists as JSON and
--     their replacement. Spec states what a permission is; Correct, Inherit and Stored compare the code with it.
--   Broker/Node: broker/src/node/node.c. Resolve compares broker_node_get with a walk along names, Path treats the paths that
--     broker_node_add gives, Confusion the node of a link and a node below it.
--   Broker/Query: broker/src/query/query.c. Meaning and Complete describe what a pattern matches, Prune and Visit the walk over
--     the nodes that registers listeners, Parse the text of a query.
--   Broker/Subscription: broker/src/subscription.c and broker_ws_send_obj of broker/src/net/ws.c. Sending holds
--     sendQueuedMessages, sendMessage and addPendingAck; Window describes it on lists, and Acks, Stops, Rounds and Sent connect
--     the two. Acknowledge is check_subscription_ack, and Skips what one round of it sends. Enqueue, Removal, Clear and
--     Release treat addToMessageQueue, removeFromMessageQueue, broker_clear_messsage_ids and the part of
--     broker_free_sub_requester that touches the queue.
--
--   Broker/Subscribe: broker/src/msg/msg_subscribe.c and msg_unsubscribe.c, with the functions of subscription.c and
--     stream.c that they call. Streams holds the streams and what their links are asked for, Handle the subscribers,
--     Requests the requests. Registry is what the tables and the streams say of the subscribers. Views, Keeps and Values
--     are the steps that leave it, Free, Join, Attach, New and Rename those that change it; Tables, Remove, Add and Move
--     show that it stays consistent, Origin says where its subscribers come from. Correct, Freed and Unsubscribe treat one
--     request, Trace a sequence of them, Qos the quality of service and its queue.
--
-- How they interact: a subscriber's queue is a ring buffer, whose elements sendQueuedMessages stamps through rb_at; the
-- acknowledgements that a link owes are a vector; a subscription request asks for the permission, finds the node in the
-- tree and hands values to the queue; a listener is a node of a linked list; permissions use the comparisons of Text and
-- walk the tree, and queries walk the tree of Broker/Node.
--
-- How C is read. A pointer to a struct is an Option, none for NULL. A block is the list of its elements, and a pointer into
-- it an index; reads and writes outside it fault. A uint32_t wraps (add32, sub32; as_int where it is returned as an int). An int result is a ℤ of its own with
-- pos and negsuc. malloc and realloc are parameters, as are callbacks and comparison functions. What a cleanup function is
-- called on is an output. A C string is the list of its bytes without the final NUL; char is signed.
--
-- Fuel. pop_all and remove_acknowledged take more units than the buffer has elements, the searches more than the range is
-- long, the walks that replace a permission list more than the path has bytes, send_loop more than the window has room, and
-- the loops over linked lists more than the list has nodes: each round uses one element, or one name of the path.
-- decode_loop is structural on the number of rounds that base64_url_decode computes, and the other loops on their lists.
--
-- Not modelled: release of memory outside linked lists, reference counts, log output, sockets, TLS and the event loop, the
-- vendored libraries in deps (Jansson is a parameter with its laws), dslink_map_free, streams other than those of
-- subscriptions, the end of a link, the other message handlers, which pass JSON on, the parser of addresses, and the
-- storage, of which Broker/Subscribe has the entries by their paths. A map of children is an association list, in the order
-- of insertion; a table of Broker/Subscribe is a function. That memory does not run out while messages are sent, and that
-- every update has a JSON text, are hypotheses (Broker/Subscription/Window.IsWorking).
pub mod Prelude
pub mod Col
pub mod Text
pub mod Broker
