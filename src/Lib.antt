-- ===== src/Lib.antt =====
-- A verification library for the ATS FastCGI plugin: what the plugin does with the requests and the
-- responses that pass between Traffic Server and a FastCGI application.
--
-- A request that is not answered from the cache gets an intercept. The server (src/server.cc) gives it
-- a connection of its thread's pool (src/connection_pool.cc) or puts it into the thread's queue
-- (src/request_queue.cc). `FCGIClientRequest` (src/ats_fcgi_client.cc) writes the request headers and
-- the body as FastCGI records into a buffer, which goes to the application; the blocks of bytes that
-- come back are decoded, record by record, and their contents go to the client. The record that ends
-- the response frees the connection, which serves the next request of the queue.
--
-- The files and the code that they model:
--   Protocol: src/fcgi_protocol.h and the byte macros of src/ats_fcgi_client.h.
--   Record: `fcgiProcessHeader`, `fcgiProcessContent`, `fcgiProcessRecord` of src/ats_fcgi_client.cc.
--     A chunk is the list of its bytes, `FCGIRecordList` a record, and an access outside a chunk or a
--     block is the outcome `fault`. Record/Sound has the records that are read without a fault.
--   Response: `fcgiProcessBuffer`, `fcgiDecodeRecordChunk` and `convert_mime_hdr_to_string` of the same
--     file.
--   Transfer: `interceptTransferData` of src/server.cc and the sequence of the read events.
--   Request: `createBeginRequest`, `postBodyChunk`, `emptyParam`, `addClientRequest` and what they call,
--     of src/ats_fcgi_client.cc. The buffer and the offset of `pBuffInc` in it are explicit.
--   StringMap: the `std::map` of the request headers.
--   Config: src/fcgi_config.cc. Config/Keys has the names of the keys and their look-up, Config/Line the
--     reading of a line, Config/Settings and Config/Access the configuration, what a line sets in it and
--     its getters and setters, and Config/Init `initFcgiParam` and `initConfig`. Config/Stored
--     describes, by the options' names, what the lines of a file set. `TSError` adds to a list of reports.
--   Headers: `GenerateFcgiRequestHeaders` of src/ats_fcgi_client.cc.
--   Client: the constructor of `FCGIClientRequest` of the same file, with the buffer that it allocates.
--     Client/Working has the configurations with which the plugin can work.
--   Queue: src/request_queue.cc.
--   Connection: `createFCGIClient` and `releaseFCGIClient` of src/server_connection.cc, and the heap of
--     the connections. Connection/Address has the address that `createConnection` reads.
--   Intercept: `ServerIntercept` of src/server_intercept.h; what the plugin asks of Traffic Server, as a
--     list of effects; and the environment of a server, which its configuration and the transactions
--     are in.
--   Pool: src/connection_pool.cc.
--   Server: `connect`, `reConnect`, `initiateBackendConnection`, `removeIntercept`,
--     `connectionClosed`, the look-ups and the event `TS_EVENT_NET_CONNECT` of src/server.cc, as one
--     event thread sees them. Server/Events has the other events of `handlePHPConnectionEvents`, and
--     `setResponseOutputComplete` and the destructor of src/server_intercept.cc. Server/Writing has
--     `writeRequestHeader`, `writeRequestBody` and `writeRequestBodyComplete`, `phpWrite` of
--     src/server_connection.cc, and `consume` and `handleInputComplete` of src/server_intercept.cc.
--     Server/Reachable is a step relation on its states: those that it comes to are those after any
--     of these calls and events, in any order, as long as less than 2^32 request ids are used.
--   Plugin: src/ats_fastcgi.cc. Plugin/Thread has `ThreadData` and `setupThreadLocalStorage` of
--     src/server.cc, Plugin/Hook `handleReadCacheLookupComplete`, and Plugin/Init `TSPluginInit`.
--   Profiler: src/Profiler.h, which nothing of the plugin uses.
--   Common: Booleans, lists, integers, C strings, C memory and texts, for all of these.
--   Tests: the theorems at concrete inputs.
--
-- Numbers are natural numbers; `size_t` wraps at 2^64, `uint32_t` and `int` lengths at 2^32, and a
-- length that is a C `int` is taken to be below 2^31: of a longer name, value or chunk of the body, the
-- model truncates the length that is written but copies the whole. The loop of `fcgiProcessBuffer` runs on fuel,
-- two rounds for each byte of the chunk and two more, which every chunk leaves some of. The loop that
-- sets a thread up runs on the list of the answers to its rounds. The other loops are structural.
--
-- Parameters: `TSmalloc`, as the bytes of a new block; Traffic Server's MIME parser, printer and
-- header table, as the record `Mime`; what a transaction says of its client request, as the record
-- `Transaction`; what `TSVConnClosedGet`, `TSVConnWrite` and `TSIOBufferWrite` answer, as
-- arguments of a call, so that `TSVConnClosedGet` of the null `vc_` of a connection that was never
-- connected has an answer too and is no fault; for the server, these first three and the configuration, as the record
-- `Environment`, which stays the same while the server runs; the answers of the `pthread` functions, of
-- `std::regex_search` and of the statistics' functions; the configuration files, as the lines that
-- `TSfgets` gives of a name. The string functions of the C library that the configuration is read
-- with are written out in Common/CStrings.
--
-- Not modelled: mutexes, and the counting in statistics, which change no other state; debug output and
-- the functions that only print; `InterceptIOChannel::write`, which nothing calls; what Traffic Server
-- does with an effect; src/configuru.hpp, a copy of another project's library; the PHP examples, the
-- start script and the sample configuration.
mod Common
pub mod Protocol
pub mod Record
pub mod Response
pub mod Transfer
pub mod Request
pub mod StringMap
pub mod Queue
pub mod Connection
pub mod Intercept
pub mod Plugin
pub mod Profiler
pub mod Pool
pub mod Server
pub mod Config
pub mod Headers
pub mod Client
mod Tests
