-- ===== src/Lib.antt =====
-- OpenCMW's Majordomo broker and workers, and the URIs and topics that they are addressed by.
--
-- Clients send requests and subscriptions to the broker, workers register services with it. The
-- broker queues a request for the service whose name is the shortest prefix of the name asked for,
-- hands it to a waiting worker, and passes replies and notifications on. A topic is a service name
-- with parameters; it travels as a URI in messages and as a text in ZMQ subscriptions.
--
-- The parts, by file:
--   Base       numbers, lists, byte strings, association lists for the program's maps, and the
--              result of a call that can throw. `undefined` marks what C++ leaves undefined.
--   Uri        src/core/include/URI.hpp: Codec (encode, decode), Parse (parseURI), Query
--              (queryParamMap), Factory (UriFactory::toString, build), Authority
--              (parseAuthority).
--   Topic      src/core/include/Topic.hpp: the constructor, fromMdpTopic, toMdpTopic,
--              fromZmqTopic, toZmqTopic; ParamMap is the sorted map of the parameters.
--   Matcher    src/majordomo/include/majordomo/SubscriptionMatcher.hpp and
--              src/core/include/Filters.hpp.
--   TimingCtx  src/core/include/TimingCtx.hpp: the constructor from a selector's text, matches and
--              toString.
--   Broker     src/majordomo/include/majordomo/Broker.hpp: the state is one record, and each member
--              function is a function from the time, its arguments and a broker to a broker (or to
--              a result, where it can throw or be undefined). Rbac is Rbac.hpp beside it, Queue the
--              struct Service's queues, Subscriptions, Services, Workers, Dns, Notifications,
--              WorkerMessages (processWorker), Clients (processClients, purgeClients and the
--              internal services), Messages (receiveMessage, handleRestMessage, sendHeartbeats).
--   Disruptor  src/disruptor/include/disruptor/: the ring buffer that the program's threads exchange
--              events by. Sequence (Sequence.hpp), Single and Multi (the two strategies of
--              ClaimStrategy.hpp), Threads (next, tryNext, publishEvent and tryPublishEvent as
--              steps of any number of publishers and dependents over one memory), Poller
--              (EventPoller of RingBuffer.hpp).
--   Serialiser src/serialiser/include/: IoBuffer (IoBuffer.hpp) with Puts (that a value finds room)
--              and Items (values one behind the other), YaS (the header of the protocol and, in
--              Fields, the headers of its fields, in IoSerialiserYaS.hpp; what the type of a field
--              writes is a parameter that adds its bytes).
--   Worker     src/majordomo/include/majordomo/Worker.hpp, BasicWorker: Requests (processRequest and
--              the permissions of roles), Receive (connectToBroker and what arrives at the
--              sockets), Run (the loop of run). Receive/Mirror, Follow and Forward put it beside
--              the broker: the filters of one are the frames of the other.
--   LongPolling src/core/include/LongPollingBatch.hpp: encodeBatch and decodeBatch.
--   DnsStorage src/services/include/services/: dns_types.hpp, dns_storage.hpp and the handler of
--              dns.hpp.
--   ReaderWriterLock src/core/include/ReaderWriterLock.hpp, as steps of any number of threads.
--
-- The worker takes what its sockets receive, what zmq_connect returns, the readings of the clock and
-- the calls of notify by other threads as lists of rounds; its handler is a function that may
-- throw. A use of a socket that was reset is `undefined`.
--
-- Pointers to workers are their ids. Messages to sockets, socket filters and calls of the REST
-- server are entries of the list `sent`. The clock is an argument, one reading per operation. An
-- unordered map is a list in the order in which the program meets its entries; where a result must
-- not depend on that order, the order is an argument. Characters are byte values, and the tests of
-- the C library are those of its "C" locale.
--
-- The memory of the ring buffer is sequentially consistent: a step of a thread is one atomic load,
-- store or exchange, or the write of one entry. Its sequences are numbers of events, one more than
-- in the source, so that its -1 is 0; the marks of the slots wrap at 2 ^ 32 as there. The results
-- on its threads hold for any number of publishers and steps, by an invariant; their condition that
-- the minimum is read in one piece excludes the body of getMinimumSequence that reads it twice.
--
-- A buffer is the list of its bytes; a read behind them or a write behind the block is `undefined`,
-- and numbers are their bytes in two's complement. An allocation succeeds.
--
-- Loops over views take fuel: queryParamMap the length of the query, as each round takes a
-- character, dispatch the number of waiting workers, as each round takes a worker, and decodeBatch
-- the length of the body, as each round takes a boundary line. Without fuel queryParamMap gives an
-- error of its own, `endless`. That each is enough is proved with the loop.
--
-- Not modelled: ZMQ, HTTP and TLS input and output, the polling of sockets, threads other
-- than those of the ring buffer and of the lock, the wait strategies and sequence barriers of the
-- ring buffer, the serialisers other than those parts, the typed wrapper of the worker, the file of
-- the DNS storage, the clients, and third-party code.
pub mod Base
pub mod Uri
pub mod Topic
pub mod Matcher
pub mod TimingCtx
pub mod Broker
pub mod Disruptor
pub mod Serialiser
pub mod LongPolling
pub mod Worker
pub mod DnsStorage
pub mod ReaderWriterLock
