-- ===== src/Lib.antt =====
-- LightRPC: a model of the RPC library under code/, with the properties that make it correct.
--
-- A client (code/rpc/rpc_client.h, rpc_client.cc) gives each call an id, keeps its callback in
-- `pending_calls_`, sets a timer and sends the request as a frame. The server (rpc_server.h,
-- rpc_server.cc) decodes the frames that arrive, queues a task for each request in the thread pool,
-- and the task invokes the registered method and sends the response, which the client matches by
-- its id. The files:
--   Buffer       code/base/buffer: the input buffer; its operations under their names in snake
--                case. Buffer/Fifo specifies it as a queue of bytes.
--   Codec        code/protocol/codec.h: frames, `encode` and `decode`.
--   ErrorCode    code/base/error_code/rpc_error_code.h.
--   ThreadPool   code/base/pool/threadpool.h: each locked section is a function, and `run` takes
--                any sequence of them.
--   Timer        code/base/timer: `add_timer`, `tick` (`advance`, `visit`, `sweep`), `remove_timer`.
--   Rpc          code/protocol/base_proto/rpc.proto: the two messages.
--   Service      code/rpc/rpc_service.*: the registry and `invoke`; `typed_callback` is the lambda of
--                `RpcServer::Register`.
--   ReadLoop     the loop that both `onMessage` functions share, on the buffer and the codec;
--                `receive` runs it on each chunk, as `TcpConnection::handleRead` does.
--   Server       `RpcServer::onMessage` and its task, on the pool, the codec and the registry.
--   Client       `RpcClient::CallRaw` and all that answers a call; `run` takes any sequence of its
--                steps.
--   RequestId    (Client/RequestId) `GenerateRequestId`.
--   Channel      code/network/core/channel.*: watched events and their dispatch.
--   Epoller      code/network/epoll/epoller.*: registration, over `epoll_ctl` as a parameter.
--   EventLoop    code/network/core/event_loop.*: the loop's thread and the others, as steps on the
--                queue of functors, the wake-up descriptor and `quit_`.
--   Connection   code/network/tcp/tcp_connection.*: reading, sending and closing on the loop's thread,
--                with its channel; Connection/Remote is `send` and `close` from other threads.
--   TcpServer    code/network/tcp/tcp_server.*: the connections that are accepted, closed and stopped;
--                `Hosted` adds the functors that `Start`, `StopAccepting` and `Stop` queue from
--                another thread.
--   TcpClient    code/network/tcp/tcp_client.*: connecting and disconnecting; TcpClient/Contract is its
--                specification, a machine of four phases.
--   Lifecycle    `RpcClient::Start` and `Stop`: their caller's steps interleaved with the loop's thread,
--                from its creation to its end.
--   Shutdown     `RpcServer::Stop`: its caller's steps interleaved with the loop's, the functors it
--                queues, and what they do to the connections of TcpServer.
--   Log          code/base/log: the building of a line, the choice of the file, and (Log/Queue) the
--                queue to the writing thread.
--   TypedCall    `RpcClient::Call`, from end to end through `typed_callback`.
--   System       a client and a server over one connection: events of the client, reads of both sides
--                in chunks of any size, workers, stop and close, in any order. System/Link is one
--                direction's stream, System/Serving what has become of each request.
--   Examples     examples/server_example.cc and client_example.cc: the three methods, the client's
--                wait, the requests of its four calls and what their callbacks print;
--                Examples/Replies runs them on System.
--   Prelude      shared names, Boolean tests, words, lists, association lists. Tests: shared inputs;
--                each component's tests apply its theorems to concrete inputs.
--
-- Conventions. A `std::string` is the list of its bytes; `size_t` and `uint32_t` are native numbers
-- with their wrap-around written out. Assertions are empty, as in the release build that
-- CMakeLists.txt sets. A callback is a number where only its being run matters. Parameters are the
-- protobuf library (`ProtoMessage`), `std::hash`, `std::to_string`, the clock and the kernel's
-- results. The read loop is a recursion on fuel of one more than the readable bytes: a round takes
-- four bytes at least, and `on_message-Ends` shows that it is enough. All other loops are structural.
--
-- Not modelled: the system calls' own behaviour, except as parameters; `Start` of the server; the
-- loop's timer calls, which only queue those of Timer; the random numbers of request ids; the names
-- of log files beyond their date and part; generated code. Server and Client see only `send` and
-- `close` of a connection; System has one connection, and there what is sent reaches the stream at
-- once, even where the client's connection has gone; the client's reads are not stopped either. Both
-- only add runs to those of the code.
pub mod Prelude
pub mod Buffer
pub mod Codec
pub mod ErrorCode
pub mod ThreadPool
pub mod Timer
pub mod Rpc
pub mod Service
pub mod ReadLoop
pub mod Server
pub mod Client
pub mod Channel
pub mod Epoller
pub mod EventLoop
pub mod Connection
pub mod TcpServer
pub mod TcpClient
pub mod Log
pub mod Lifecycle
pub mod System
pub mod Examples
pub mod Shutdown
pub mod TypedCall
pub mod Tests
