-- ===== src/Lib.antt =====
-- Pancake: a proxy that hides access patterns to an encrypted key-value store.
--
-- Clients send gets and puts to the proxy. A key has several replicas, each stored under a label of
-- its own on the servers. The proxy mixes requests with fake ones into a batch; for each operation it
-- picks a replica, reads it, and encrypts it again to write it back. A put is written to one
-- replica at first: the update cache remembers the value, and which replicas have yet to receive it.
--
--   Base          natural numbers, lists, texts, dictionaries, and the result of a call (`Run`): a
--                 value, or a fault such as an exception, a failed assertion, a read out of bounds,
--                 or a pop that waits
--   Double        the arithmetic of `double`, as a parameter: nothing is assumed of it
--   Util          proxy/src/util.cpp; random numbers are a stream that the environment chooses
--   Cuckoo        libcuckoo's map, a parameter with its documented laws; Cuckoo/Assoc meets them
--   UpdateCache   proxy/src/update_cache.cpp, one function for each method. Pending says what the
--                 cache owes a replica, and Deliveries, Resize and Sample what the methods do to that
--   Operation     proxy/src/operation.h
--   Queue         proxy/src/queue.h; a method is one step, since it holds the mutex throughout
--   Distribution  proxy/src/distribution.cpp
--   Storage       libstorage/src/storage_interface.h with the contract that the proxy relies on;
--                 Storage/Rocksdb and Storage/Redis are libstorage/src/rocksdb.cpp and redis.cpp over
--                 client libraries that are parameters
--   Engine        what the proxy relies on in proxy/src/encryption_engine.h: what the engine can
--                 carry comes back. Below it encryption_engine.cpp over OpenSSL, a parameter: Cipher
--                 and Mac are its methods, Carries shows that it is such an engine, and what it
--                 carries, Verify and Setup are on signatures and on the constructors
--   Proxy         proxy/src/pancake_proxy.h, the members. Proxy/Replicas is `insert_replicas` and
--                 `create_replicas`, Proxy/Batch `create_security_batch`, Proxy/Execute
--                 `execute_batch`, Proxy/Requests the calls of clients with the responder, `flush` and
--                 `close`, and Proxy/Swapping `update_distribution` with the functions that it calls:
--                 Released, Assigned and Moved say what becomes of labels.
--                 Proxy/Consumer is `consumer_thread` step by step: Ordered is the map that answers,
--                 Steps what holds between steps, Turns steps among those of others, and Told what a
--                 waiting client finds
--   Trace         server/src/proxy_server.cpp, the loader of a trace file; Written is how files look
--   Wire          service/src/thrift.cpp, thrift_response_service.cpp and proxy_types.cpp: structs are
--                 read and written by a protocol, a parameter (Wire/Protocol). Reading is the loop
--                 that all structs share, Args the structs, Client and Processor both ends of a call,
--                 Response the answer to a call that does not wait, with
--                 libclient/src/command_response_reader.cpp. Parsing and Structs are rules for round
--                 trips, Remote puts client and processor together, Ends is on the loops' ends,
--                 Required and Fields are on fields that are missing or not known
--   Service       service/src/thrift_handler.cpp and thrift_response_client_map.cpp: a handler is the
--                 object that a processor serves, and registers the connection that answers go to.
--                 Served puts the proxy behind a handler, Responded follows an answer of the responder
--   Libclient     libclient/src/async_proxy_client.cpp, in turns of its user and its thread; Received
--                 puts a server at the other end
--   Tests         concrete runs
--
-- The map that the proxy stands for: Proxy/Execute/Model says when proxy, update cache and servers
-- together hold one value for each key (`Models`): each replica holds it, or is owed it by the cache.
-- `Refines` adds that replicas have distinct labels and that none is missing.
--
-- Loops are recursion on the list that they walk, or on the rounds that are left, which the code
-- fixes before the loop. Only the loops that read a struct have fuel: one round more than the input
-- has bytes, which is enough, as each round takes a byte at least. Of a number type, `int` is the
-- natural numbers: counts and indices stay far below 2^31, and where the code would go below zero
-- the model has the fault that follows. An `int64_t` that is sent, and a
-- negative `int` that `stoi` returns, is its bit pattern. `rand()` and
-- the uniform distribution keep their bounds.
--
-- Not modelled: memcached.cpp and thrift_response.cpp, which no build file compiles; the path ORAM
-- headers, which declare only; of the transport code the byte counts, the depth trackers, the event
-- handlers, which nobody sets, and the concurrent client, which nobody uses; the set-up of server and
-- client connections, and proxy_client.cpp, which passes its calls on; the rest of the server
-- program; `init` of the proxy, which starts the threads. A call that waits takes what the other
-- threads do in the meantime as an argument, and the state of the proxy after an exception is not
-- followed. An exception is known by its text.
pub mod Base
pub mod Double
pub mod Util
pub mod Cuckoo
pub mod UpdateCache
pub mod Operation
pub mod Queue
pub mod Distribution
pub mod Storage
pub mod Engine
pub mod Proxy
pub mod Trace
pub mod Tests
pub mod Wire
pub mod Service
pub mod Libclient
