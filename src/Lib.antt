-- ===== src/Lib.antt =====
-- Avant: a verification library for the connection and message layer of the server.
--
-- The program runs one main thread, several workers and one `other` thread. The main thread accepts
-- clients and hands each to a worker; a worker speaks TCP, WebSocket or HTTP with its clients; the
-- other thread runs the Lua machine and the IPC streams to other processes. The threads talk over
-- tunnels, socket pairs that carry packages with a length in front, all of them through main.
--
-- Which file models what:
--   Buffer         src/utility/vec_str_buffer.cpp: the byte queue of a connection
--   Proto          src/proto/proto_util.cpp: the length prefix; Proto/Frame is the loop that takes
--                  packages off a buffer, Proto/Reader, Deliver and Chunks the shared laws of a loop
--                  that reads such a stream in pieces, Proto/Fuel the end of the loop
--   Session        the flags of a connection and what the application hands to the other thread
--   Stream         src/app/stream_app.cpp: on_process_connection and its handlers
--   StreamCtx      src/connection/stream_ctx.cpp: on_event, try_send_flush, send_data
--   Http           src/connection/http_ctx.cpp and the body's limits of src/app/http_app.cpp:
--                  Http/Parser has the callbacks of llhttp, Http/Site what surrounds a context and
--                  Http/Event on_create, on_close and on_event
--   Upgrade        src/connection/websocket_ctx.cpp: the handshake and the events of a WebSocket
--   Websocket      src/app/websocket_app.cpp: frames in both directions
--   Tunnel         the parse loop of on_tunnel_event in src/workers/worker.cpp,
--                  src/workers/other.cpp and src/server/server.cpp
--   TunnelId       src/global/tunnel_id.h and tunnel_id.cpp: the names of the tunnels' ends
--   Gid            server_gen_gid and other_gen_gid
--   Balance        server::on_listen_event: to which worker a client goes
--   Route          worker::tunnel_forward, other::tunnel_forward and server::on_tunnel_process
--   MainTunnel     server::tunnel_forward and try_send_flush_tunnel, over the pool of the main thread
--   Connection     src/connection/connection.cpp: on_alloc and on_release
--   ConnectionMgr  src/connection/connection_mgr.cpp: the pool and its three indices
--   Worker         src/workers/worker.cpp: closing a client, forwarding to clients; Worker/Client
--                  takes a client from the main thread, and closes one that is late; Worker/Send
--                  sends a client's message to clients of all workers
--   Other          src/workers/other.cpp: the connections of the IPC streams
--   Timer          src/external/avant-timer: the timers of a worker
--   Ipc            src/app/other_app.cpp: the IPC streams and `authenticated_ipc_pair`
--   Base           containers, words, bits and names that all of these use
--
-- State and operations: an object is a record with the source's field names, a method a function
-- from the state to the state, with its return value where it has one. An unordered_map is an
-- association list, an unordered_set a list without repetition, whose order no statement uses. A
-- byte is a natural number; `size_t` arithmetic is written out modulo 2^64. A pointer into the pool
-- is its index. Calls of the system are recorded in the state, and what the system answers comes as
-- an argument. Generated protocol code, std::string::max_size and the handlers of other components
-- are parameters, with what the code relies on as named hypotheses.
--
-- Fuel: the loops over a socket run on the list of its answers. The loop over a buffer runs on the
-- number of bytes waiting. A run of the body that goes on takes at least one byte, so this is enough.
-- The loop over the timers runs on the seconds that the queued timers are behind, all together: a
-- round runs a timer, which leaves the queue or moves on by its interval, which is not zero. In
-- Other, `depth` bounds how often closing an IPC stream and connecting again call one another; a
-- client that connecting closes is none that this program has opened, so one such call is enough.
--
-- Not modelled: TLS of streams, the files and folders that HTTP serves, the event poller, sockets,
-- start-up and configuration, the Lua bindings, and the other libraries under external/. llhttp and
-- OpenSSL are parameters. Logging is left out of every operation, and so are the samples of traffic.
pub mod Base
pub mod Buffer
pub mod Proto
pub mod Session
pub mod Stream
pub mod Tunnel
pub mod Ipc
pub mod Connection
pub mod ConnectionMgr
pub mod TunnelId
pub mod Gid
pub mod Http
pub mod Upgrade
pub mod Balance
pub mod Route
pub mod MainTunnel
pub mod Other
pub mod Websocket
pub mod StreamCtx
pub mod Worker
pub mod Timer
