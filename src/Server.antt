-- ===== src/Server.antt =====
-- raner/tcp_server.cc: the class TCPServer, on its own loop's thread but for the arguments `in_loop`.
-- A connection's name is the number in it, and its callback number is that plus the server's. Tasks
-- posted to other loops are values in `posted`, oldest first, each with its loop.
pub mod Accepting
pub mod Deaf
mod Tests
use raner.Common.{
  ℕ, ◌+◌, Bool, true, false, not, Option, none, some, List, [], ◌∷◌, ◌++◌, ◌==◌, Table, update,
  bit_and, if◌then◌else◌, Outcome, ok, fault, assertion, fatal, bad_pointer, require, ◌>>=◌, ◌>>◌,
}
use raner.Socket.{Socket, make_socket}
use raner.Socket.Setup
use raner.Socket.Setup.{Calls, Accepted, accepted, accept_failed, accept, peer_addr, emfile}
use raner.Kernel.{Kernel}
use raner.Epoll.{EpollServer, register_fd, unregister_fd, epoll_in}
use raner.Connection.{
  TcpConnection, World, Upcall, Functor, make_connection, connect_established, connect_destroyed,
}
use raner.LoopPool
use raner.LoopPool.{LoopPool, get_next_loop}

-- What is posted to a loop.
pub data Task : Type 0 where
  create_socket : Task
  establish : ℕ → Task
  remove : ℕ → Task
  destroy : TcpConnection → Task

pub record Held : Type 0 where
  pub loop : ℕ
  pub conn : TcpConnection

pub record TcpServer : Type 0 where
  pub id : ℕ
  pub empty_host : Bool
  pub port : ℕ
  pub socket : Option Socket
  pub listenning : Bool
  pub idle_fd : ℕ
  pub pool : LoopPool
  pub has_write_complete_callback : Bool
  pub started : ℕ
  pub next_conn_id : ℕ
  pub connections : Table Held

pub make_server : ℕ → Bool → ℕ → ℕ → ℕ → TcpServer
make_server id empty_host port idle_fd base_loop = record {
  id = id;
  empty_host = empty_host;
  port = port;
  socket = none;
  listenning = false;
  idle_fd = idle_fd;
  pool = LoopPool.make_pool base_loop;
  has_write_complete_callback = false;
  started = 0;
  next_conn_id = 1;
  connections = λ k. none;
}

module _ (os : Kernel) where
  -- With the EpollServer of the server's own loop. `discards` are the descriptors on which a
  -- connection was accepted to be closed at once, the latest first.
  pub record ServerWorld : Type 0 where
    pub self : TcpServer
    pub open self use *
    pub epoll : EpollServer os
    pub posted : List (ℕ × Task)
    pub conn_queue : List Functor
    pub upcalls : List Upcall
    pub discards : List ℕ

  abbrev pub set_self : TcpServer → ServerWorld → ServerWorld
  set_self s w = record w { self = s }

  abbrev pub post : ℕ → Task → ServerWorld → ServerWorld
  post loop task w = record w { posted = w.posted ++ (loop, task) ∷ [] }

  -- `socket_->`
  abbrev pub with_socket : ServerWorld → (Socket → Outcome ServerWorld) → Outcome ServerWorld
  with_socket w f = elim w.socket [ none ↦ fault bad_pointer | some k ↦ f k ]

  abbrev pub on_epoll :
      (EpollServer os → Outcome (EpollServer os)) → ServerWorld → Outcome ServerWorld
  on_epoll f w = f w.epoll >>= λ e. ok (record w { epoll = e })

  -- Failing to listen is a `LOG(FATAL)`.
  pub create_socket_and_listen : Bool → Calls → ServerWorld → Outcome ServerWorld
  create_socket_and_listen debug calls w =
      Setup.listen debug calls w.empty_host w.port make_socket >>= λ r.
      require r.1 fatal
      >> on_epoll (register_fd os r.0.fd w.id epoll_in)
          (set_self (record (w.self) { socket = some r.0; listenning = true }) w)

  -- `new_loops` are the loops of the threads that the pool starts.
  pub start : Bool → Bool → Calls → List ℕ → ServerWorld → Outcome ServerWorld
  unfolding create_socket_and_listen
  start debug in_loop calls new_loops w =
      let w₁ = set_self (record (w.self) { started = w.started + 1 }) w in
      if w.started == 0
      then (LoopPool.start new_loops w.pool >>= λ p.
          let w₂ = set_self (record (w₁.self) { pool = p }) w₁ in
          require (not w.listenning) assertion
          >> (if in_loop
              then create_socket_and_listen debug calls w₂
              else ok (post w.pool.base_loop create_socket w₂)))
      else ok w₁

  -- A call on a connection of the server's own loop.
  abbrev pub on_held :
      ℕ → Held → (World os → Outcome (World os)) → ServerWorld → Outcome ServerWorld
  on_held name h f w =
      f (record { conn = h.conn; server = w.epoll; queue = w.conn_queue; upcalls = w.upcalls })
      >>= λ v. ok (record w {
        self = record (w.self) {
          connections = update w.connections name (some (record h { conn = v.conn }));
        };
        epoll = v.server;
        conn_queue = v.queue;
        upcalls = v.upcalls;
      })

  -- The entry of the map is made, and the connection established on its loop.
  pub hold : ℕ → Held → ServerWorld → Outcome ServerWorld
  hold name h w =
      let w' =
        set_self
          (record (w.self) {
            connections = update w.connections name (some h);
            next_conn_id = name + 1;
          })
          w in
      if h.loop == w.pool.base_loop
      then on_held name h (connect_established os) w'
      else ok (post h.loop (establish name) w')

  pub new_connection : Bool → Option ℕ → Socket → ServerWorld → Outcome ServerWorld
  unfolding hold
  new_connection debug peer client_socket w = get_next_loop w.pool >>= λ r.
      peer_addr debug peer client_socket >>= λ k.
      hold w.next_conn_id
        (record {
          loop = r.0;
          conn = record (make_connection (w.id + w.next_conn_id) k) {
            has_write_complete_callback = w.has_write_complete_callback;
          };
        })
        (set_self (record (w.self) { pool = r.1 }) w)

  -- `idle_fd_` is closed, a connection accepted in its place and closed, and `idle_fd_` opened again.
  pub make_room : ℕ → ServerWorld → Outcome ServerWorld
  make_room new_idle_fd w = with_socket w (λ k.
      ok (record w {
        self = record (w.self) { idle_fd = new_idle_fd };
        discards = k.fd ∷ w.discards;
      }))

  -- The `errno` that `accept` left; a failure of `fcntl` is taken for another.
  abbrev pub errno_of : Accepted → ℕ
  errno_of (accept_failed errno) = errno
  errno_of (accepted fd family port) = 0

  pub handle_read : Bool → Accepted → Calls → Option ℕ → ℕ → ServerWorld → Outcome ServerWorld
  unfolding new_connection make_room
  handle_read debug answer calls peer new_idle_fd w = with_socket w (λ k.
      accept debug answer calls k make_socket >>= λ r.
      let w' = set_self (record (w.self) { socket = some r.0 }) w in
      if r.2
      then new_connection debug peer r.1 w'
      else (if errno_of answer == emfile then make_room new_idle_fd w' else ok w'))

  pub on_event : Bool → Accepted → Calls → Option ℕ → ℕ → ℕ → ServerWorld → Outcome ServerWorld
  unfolding handle_read
  on_event debug answer calls peer new_idle_fd in_events w =
      if bit_and in_events epoll_in == 0
      then ok w
      else handle_read debug answer calls peer new_idle_fd w

  pub remove_connection_in_loop : ℕ → ServerWorld → Outcome ServerWorld
  remove_connection_in_loop name w = elim (w.connections name) [
    | none ↦ fault assertion
    | some h ↦ ok (
        post h.loop (destroy h.conn)
          (set_self (record (w.self) { connections = update w.connections name none }) w))
  ]

  pub remove_connection : Bool → ℕ → ServerWorld → Outcome ServerWorld
  unfolding remove_connection_in_loop
  remove_connection in_loop name w =
      if in_loop
      then remove_connection_in_loop name w
      else ok (post w.pool.base_loop (remove name) w)

  -- The destructor, with the names of the connections held.
  pub destroy_all : List ℕ → ServerWorld → Outcome ServerWorld
  destroy_all [] w = ok w
  destroy_all (name ∷ names) w =
      let rest = destroy_all names in
      elim (w.connections name) [
        | none ↦ rest w
        | some h ↦
            if h.loop == w.pool.base_loop
            then (on_held name h (connect_destroyed os) w >>= rest)
            else rest (post h.loop (destroy h.conn) w)
      ]

  pub destruct : List ℕ → ServerWorld → Outcome ServerWorld
  unfolding destroy_all
  destruct names w =
      destroy_all names w >>= λ w'. with_socket w' (λ k. on_epoll (unregister_fd os k.fd) w')
