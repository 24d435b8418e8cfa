-- ===== src/Lib.antt =====
-- raner: a C++ library of TCP servers and clients on an epoll event loop.
--
-- An EventLoop drives an EpollServer, which waits for events of the kernel, puts the descriptors
-- concerned on a ready list and calls `OnEvent` of the callback registered for each. A
-- TCPConnection is such a callback: it reads into one ByteBuffer and hands it to the user, and it
-- sends what the user writes directly or through a second ByteBuffer once the kernel takes bytes
-- again.
--
-- - Common: Boolean tests, lists and tables over the native numbers, bits of a mask, and the result
--   of a call, which may be a failed assertion, a LOG(FATAL), a length error or a bad pointer.
-- - Buffer: raner/byte_buffer.h and raner/byte_buffer.cc. A buffer is the vector with the two
--   indexes; `size_t` has 64 bits and wraps around. Buffer/Contents and Buffer/Valid define the
--   bytes held and the well-formed buffers; Buffer/Writes, Buffer/Reads and Buffer/Integers treat
--   the methods of those kinds.
-- - Endian: raner/endian.h, for either byte order of the host.
-- - Kernel: epoll_ctl(2) and fcntl(2) as a record of operations and laws, a parameter of the rest.
-- - Epoll: raner/epoll_server.h and raner/epoll_server.cc, the descriptor table and the ready list.
--   Epoll/Dispatch has the loop over the ready list; Epoll/Invariant the invariant with its
--   preservation by each method; Epoll/Masks the events registered for a descriptor.
-- - Socket: raner/socket.h and raner/socket.cc, with the answers of the system as parameters.
--   Socket/Setup opens a listening or a connecting socket and accepts; Socket/Transfer reads and
--   writes, with the loops that go on until a number of bytes is through.
-- - Connection: raner/tcp_connection.h and raner/tcp_connection.cc. Connection/Stream treats a
--   connection as a byte stream, Connection/States its states and what the user is told of them,
--   Connection/Server what it does to the EpollServer.
-- - Client: raner/tcp_client.h and raner/tcp_client.cc, a client that connects, tries again with a
--   growing delay, and hands its socket to a connection. Client/Well has its invariant, kept by the
--   methods in Client/Methods and by events in Client/Events; Client/Backoff treats the delays.
-- - Server: raner/tcp_server.h and raner/tcp_server.cc, a server that accepts, keeps a table of its
--   connections and posts tasks to their loops. Server/Accepting follows a connection through it,
--   Server/Deaf a server whose accept has failed.
-- - Loop: raner/event_loop.h and raner/event_loop.cc, the functors queued for a loop by any thread
--   (Loop/Order).
-- - Alarms: the alarms of raner/epoll_server.cc and raner/epoll_timer.cc. Alarms/Order treats the
--   multimap of alarms; Alarms/Invariant ties the timers to it, in Steps, Methods and Timers for
--   the methods of a timer and in Firing for the loop that calls what is due.
-- - Wait: a whole round of the EpollServer, raner/epoll_server.cc: how long it waits (Wait/Bounds)
--   and what it leaves (Wait/Rounds).
-- - Codec: examples/chat/codec.h, messages behind their lengths (Codec/Frames, Codec/Stream).
-- - Ttcp: examples/ttcp/ttcp.cc, both sides of the throughput test. Ttcp/Transmit, Ttcp/Receive,
--   Ttcp/Received and Ttcp/Connected have the handlers on their own; Ttcp/Session puts the sides and
--   the streams between them together, as steps that hand over a piece of a stream (Session/Ends).
-- - Chat: examples/chat/server_threaded_efficient.cc, the list of connections that the threads of the
--   chat server share by use counts, beside a plain server (Chat/Plain). Chat/Refinement ties the two
--   together for any interleaving of the threads; Chat/Snapshots follows one broadcast.
-- - Thread: raner/event_loop_thread.cc, the start and the end of a loop's thread as interleaved steps
--   of two threads, in order (Thread/Handshake) and with a loop that quits too early (Thread/Lost).
-- - LoopPool: raner/event_loop_thread_pool.h and raner/event_loop_thread_pool.cc, the choice of a
--   loop for a connection. LoopPool/Turns treats the round robin.
--
-- The loop over the ready list runs on fuel, as much as the list has entries: each round takes one
-- off, and what a callback calls puts none on it. The loops of Socket/Transfer have one round more
-- than bytes to move, since a round that goes on moves at least one, and the loop of Codec takes a
-- message off the buffer in each round. The loop over the alarms takes one that is due off the
-- multimap in each round, and those of ttcp take at least a byte off the buffer. Without fuel the
-- model fails an assertion, so that a theorem that excludes failed assertions shows the fuel to be
-- enough.
--
-- Descriptors are natural numbers, with one number for -1. The counts of bytes that the source casts
-- to int are not cut off, except where a comment says so.
--
-- What is not modelled: the construction and the end of an EpollServer with its wake pipe, the
-- clock, options and addresses of sockets, and the example programs but for the codec, ttcp and the
-- chat server that shares its list.
pub mod Common
pub mod Buffer
pub mod Endian
pub mod Kernel
pub mod Epoll
pub mod Socket
pub mod Connection
pub mod LoopPool
pub mod Client
pub mod Server
pub mod Codec
pub mod Loop
pub mod Alarms
pub mod Wait
pub mod Ttcp
pub mod Chat
pub mod Thread
