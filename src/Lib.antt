-- ===== src/Lib.antt =====
-- adaptiveservice finds and serves micro services across four scopes, the process, the operating
-- system, the local network and the wide network. A server registers a service in the registry of
-- each scope that it publishes in; a client that discovers a service asks these registries,
-- nearest first, dials what they name, and exchanges messages over the connections, which can be
-- traced.
--
-- The parts, their files here, and the code that they model:
-- - Prelude: what the parts share, among it Go's strings as lists of bytes (Texts), with the
--   spaces of unicode.IsSpace and strings.Fields in Spaces, and its maps as association lists (Maps,
--   Entries).
-- - Wildcard: WildcardMatch of adaptiveservice.go, the test of names and IDs against a pattern that
--   all registries use. Wildcard/Glob says what a pattern means.
-- - Names: toPublisherServiceName, fromPublisherServiceName, toUDSAddr and fromUDSAddr of
--   registry.go, and checkNameConvention of server.go. A call that panics returns none.
-- - ProcessRegistry: the chanRegistry of registry.go and its functions.
-- - RootRegistry: rootRegistry of registry.go with the handlers of regServiceInWAN, delServiceInWAN
--   and queryServiceInWAN, one round of registryCheckSaver, its record file, and the start from
--   that file. The answers of pingService, the times of a round and the address of the connection are
--   arguments. Times are seconds.
-- - Tracer: messageTracer of messagetracing_svc.go with its two handlers. An element of
--   container/list is a number. Tracer/Spec is the specification, a list of sessions; Tracer/Race
--   runs the two critical sections of two handlers in turn.
-- - MessageQueue: putMetaMsg and a round of reorder of scalamsgq.go, with the messages that come in
--   while it runs.
-- - Framing: the frames that Send and receiver of streamtransportclient.go (and, alike, of
--   streamtransportserver.go) write and read. The receiver runs for so many turns; as many as there
--   are messages are enough.
-- - Sockets: lookupServiceUDSAnon, lookupServiceUDSDir, queryServiceOS and the filter of
--   lookupServiceLAN of registry.go. What the file system answers is an argument. Sockets/Words has
--   the loops that gather and the lists of provider IDs, Sockets/Anon the anonymous sockets;
--   Sockets/Offers says what the socket directory offers, and Sockets/Dir has the lookup in it.
-- - LanRegistry: registryLAN of registry.go, the loop of run with a function for each of its cases,
--   and its record file. Packets, pings and times are arguments; times are seconds.
--   LanRegistry/LanQuery has queryServiceInLAN, which takes the lock twice: its two parts are steps,
--   and LanRegistry/Cache is about the steps of many queries in any order. LanRegistry/Hosts puts two
--   hosts together.
-- - Tracing: what to trace, TraceMsgByNameWithFilters, UnTraceMsgAll and getTracingID of
--   messagetracing.go. Tracing/Race runs two goroutines of getTracingID.
-- - Delivery: traceMsg and the goroutine of msgTraceHelper of messagetracing.go, which moves on the
--   outcomes of Discover and of Send.
-- - Report: ReadTracedMsg of messagetracing.go. Report/Calls has the calls whose records it prints.
-- - Server: canHandle, the transports that publish starts, the loop of Serve and doClose of server.go;
--   Server/Init has init with the builtin services that it publishes, Server/Publish has publish,
--   Publish, PublishIn and Serve, which call init first, and Server/Retry is about a second init after
--   one that failed.
--   What is found in the process and the network is an argument.
-- - WorkerPool: workerpool.go, with the worker, a round of autoScaler and QueryMsgQInfo of
--   scalamsgq.go. A goroutine is a cell of a store; Step has the calls and the steps of goroutines.
--   WorkerPool/Invariant, Removal and Turns have the invariant, Drain the end of close, and Stuck a
--   worker that is removed too early.
-- - Client: Discover of client.go. A Round holds what a turn of the loop gets from outside: the
--   answers of the lookups, the dials that succeed, and the choice of addresses. Client/Spec says
--   what a turn is to find, and Client/Keys that no service of it is there twice.
--
-- A handler or a function that holds a lock throughout is one step; a round of registryCheckSaver is
-- one step too, though it lets go of the locks while it dials; it has a time and an answer of
-- pingService for each provider that it visits. Loops over maps and lists are
-- structural recursion; the loop of Discover is recursion on its timeout, the number of turns that
-- are left; only the receiver of Framing takes fuel. Numbers are not bounded: none of them comes
-- near the width of its type, and that the counters of WorkerPool do not fall below zero is
-- proved.
--
-- Not modelled: the streams of the transports, what a worker does with a message, the capacity of
-- the channels of the message queue, the broadcast of the LAN registry, the options of a server,
-- and the services that only report a value. In Client the sorting of addresses by score and
-- latency is part of the choice, and a negative timeout, which waits forever, is left out.
-- Logging, reflection, files and sockets are outside of the model.
pub mod Prelude
pub mod Wildcard
pub mod Names
pub mod ProcessRegistry
pub mod RootRegistry
pub mod LanRegistry
pub mod Tracer
pub mod Tracing
pub mod MessageQueue
pub mod Framing
pub mod Client
pub mod Sockets
pub mod WorkerPool
pub mod Delivery
pub mod Report
pub mod Server
