-- ===== src/Client.antt =====
-- raner/tcp_client.cc: the class TCPClient, on its loop's thread but for the argument `in_loop`.
-- Functors queued with `QueueInLoop` are values in `queue`. The client's own callback number in the
-- EpollServer is `id`, and a connection's is that plus the number in its name. The timer is `none`
-- until it is made; then it has the delay in milliseconds that it was last set to, while it is set.
pub mod Well
pub mod Methods
pub mod Events
pub mod Backoff
mod Tests
use raner.Common.{
  ℕ, ◌+◌, ◌*◌, min, Bool, true, false, not, Option, none, some, List, [], ◌∷◌, ◌++◌, ◌==◌, ◌&&◌,
  bit_and, if◌then◌else◌, Outcome, ok, fault, assertion, bad_pointer, require, ◌>>=◌, ◌>>◌,
}
use raner.Socket
use raner.Socket.{Socket, make_socket}
use raner.Socket.Setup
use raner.Socket.Setup.{Calls}
use raner.Kernel.{Kernel}
use raner.Epoll.{EpollServer, register_fd, unregister_fd, epoll_out, epoll_err}
use raner.Connection
use raner.Connection.{TcpConnection, World, Upcall, Functor, make_connection, connect_established}

pub data State : Type 0 where
  disconnected connecting connected : State

abbrev pub is : State → State → Bool
is disconnected disconnected = true
is connecting connecting = true
is connected connected = true
is _ _ = false

-- kInitRetryIntervalMs
abbrev pub init_retry_interval_ms : ℕ
init_retry_interval_ms = 500

-- kMaxRetryIntervalMs
abbrev pub max_retry_interval_ms : ℕ
max_retry_interval_ms = 30 * 1000

pub data ClientFunctor : Type 0 where
  start_later : ClientFunctor
  stop_later : ClientFunctor
  destroy_later : TcpConnection → ClientFunctor

pub record TcpClient : Type 0 where
  pub id : ℕ
  pub empty_host : Bool
  pub port : ℕ
  pub wants : Bool
  pub state : State
  pub retry_interval_ms : ℕ
  pub socket : Option Socket
  pub reconnect_timer : Option (Option ℕ)
  pub has_write_complete_callback : Bool
  pub retry : Bool
  pub next_conn_id : ℕ
  pub connection : Option TcpConnection

pub make_client : ℕ → Bool → ℕ → TcpClient
make_client id empty_host port = record {
  id = id;
  empty_host = empty_host;
  port = port;
  wants = false;
  state = disconnected;
  retry_interval_ms = init_retry_interval_ms;
  socket = none;
  reconnect_timer = none;
  has_write_complete_callback = false;
  retry = false;
  next_conn_id = 1;
  connection = none;
}

module _ (os : Kernel) where
  pub record ClientWorld : Type 0 where
    pub client : TcpClient
    pub open client use *
    pub server : EpollServer os
    pub queue : List ClientFunctor
    pub conn_queue : List Functor
    pub upcalls : List Upcall

  abbrev pub set_client : TcpClient → ClientWorld → ClientWorld
  set_client c w = record w { client = c }

  abbrev pub set_state : State → ClientWorld → ClientWorld
  set_state st w = set_client (record (w.client) { state = st }) w

  abbrev pub later : ClientFunctor → ClientWorld → ClientWorld
  later f w = record w { queue = w.queue ++ f ∷ [] }

  -- `socket_->`
  abbrev pub with_socket : ClientWorld → (Socket → Outcome ClientWorld) → Outcome ClientWorld
  with_socket w f = elim w.socket [ none ↦ fault bad_pointer | some k ↦ f k ]

  abbrev pub on_server :
      (EpollServer os → Outcome (EpollServer os)) → ClientWorld → Outcome ClientWorld
  on_server f w = f w.server >>= λ s. ok (record w { server = s })

  abbrev pub unregister : ClientWorld → Outcome ClientWorld
  unregister w = with_socket w (λ k. on_server (unregister_fd os k.fd) w)

  abbrev pub next_interval : ℕ → ℕ
  next_interval interval = min (interval * 2) max_retry_interval_ms

  -- The private `retry`.
  pub try_again : ClientWorld → Outcome ClientWorld
  try_again w = with_socket w (λ k.
      let w' =
        set_client (record (w.client) { socket = some (Socket.close k); state = disconnected }) w in
      ok (
        if w.wants
        then set_client
            (record (w'.client) {
              reconnect_timer = some (some w.retry_interval_ms);
              retry_interval_ms = next_interval w.retry_interval_ms;
            })
            w'
        else w'))

  -- The private `connecting`.
  pub begin_connecting : ClientWorld → Outcome ClientWorld
  begin_connecting w =
      let w' = set_state connecting w in
      with_socket w' (λ k. on_server (register_fd os k.fd w.id epoll_out) w')

  -- The private `connect`, with the answers of the system.
  pub connect_in_loop : Bool → Calls → ClientWorld → Outcome ClientWorld
  unfolding try_again begin_connecting
  connect_in_loop debug calls w = Setup.connect debug calls w.empty_host w.port make_socket >>= λ r.
      let w' = set_client (record (w.client) { socket = some r.0 }) w in
      if r.1 then begin_connecting w' else try_again w'

  pub start_in_loop : Bool → Calls → ClientWorld → Outcome ClientWorld
  unfolding connect_in_loop
  start_in_loop debug calls w =
      require (is w.state disconnected) assertion
      >> (if w.wants then connect_in_loop debug calls w else ok w)

  -- `Connect`, which is also the timer's callback.
  pub connect : Bool → Bool → Calls → ClientWorld → Outcome ClientWorld
  unfolding start_in_loop
  connect in_loop debug calls w =
      let w' = set_client (record (w.client) { wants = true }) w in
      if in_loop then start_in_loop debug calls w' else ok (later start_later w')

  pub stop : ClientWorld → ClientWorld
  stop w = later stop_later (set_client (record (w.client) { wants = false }) w)

  pub stop_in_loop : ClientWorld → Outcome ClientWorld
  unfolding try_again
  stop_in_loop w = elim w.state [
    | connecting ↦ unregister (set_state disconnected w) >>= try_again
    | _ ↦ ok w
  ]

  -- The world of a connection of the client.
  abbrev pub conn_world : TcpConnection → ClientWorld → World os
  conn_world c w = record { conn = c; server = w.server; queue = w.conn_queue; upcalls = w.upcalls }

  abbrev pub back : World os → ClientWorld → ClientWorld
  back v w = record w {
    client = record (w.client) { connection = some (v.conn) };
    server = v.server;
    conn_queue = v.queue;
    upcalls = v.upcalls;
  }

  pub disconnect : Bool → ClientWorld → ClientWorld
  disconnect in_loop w =
      let w' = set_client (record (w.client) { wants = false }) w in
      elim w.connection [
        | none ↦ w'
        | some c ↦ back (Connection.shutdown os in_loop (conn_world c w')) w'
      ]

  pub restart : Bool → Calls → ClientWorld → Outcome ClientWorld
  unfolding start_in_loop
  restart debug calls w = start_in_loop debug calls (
      set_client
        (record (w.client) {
          state = disconnected;
          retry_interval_ms = init_retry_interval_ms;
          wants = true;
        })
        w)

  -- `newConnection`, with the socket moved out of `socket_`.
  pub adopt : Socket → ClientWorld → Outcome ClientWorld
  adopt k w =
      let c = record (make_connection (w.id + w.next_conn_id) k) {
        has_write_complete_callback = w.has_write_complete_callback;
      } in
      let w' =
        set_client
          (record (w.client) {
            next_conn_id = w.next_conn_id + 1;
            socket = none;
            connection = some c;
          })
          w in
      connect_established os (conn_world c w') >>= λ v. ok (back v w')

  pub new_connection : ClientWorld → Outcome ClientWorld
  unfolding adopt
  new_connection w = with_socket w (λ k. adopt k w)

  -- The close callback of the connection that the client holds.
  pub remove_connection : Bool → Calls → ClientWorld → Outcome ClientWorld
  unfolding restart
  remove_connection debug calls w = elim w.connection [
    | none ↦ fault assertion
    | some c ↦
        let w' = later (destroy_later c) (set_client (record (w.client) { connection = none }) w) in
        if w.retry && w.wants then restart debug calls w' else ok w'
  ]

  -- `socket_error` is what `GetSocketError` answers, 0 if the socket is connected.
  pub handle_write : ℕ → ClientWorld → Outcome ClientWorld
  unfolding try_again new_connection
  handle_write socket_error w = elim w.state [
    | connecting ↦ unregister w >>= λ w₁.
        if socket_error == 0
        then (let w₂ = set_state connected w₁ in
            if w.wants
            then new_connection w₂
            else with_socket w₂
                (λ k. ok (set_client (record (w₂.client) { socket = some (Socket.close k) }) w₂)))
        else try_again w₁
    | disconnected ↦ ok w
    | connected ↦ fault assertion
  ]

  pub handle_error : ℕ → ClientWorld → Outcome ClientWorld
  unfolding try_again
  handle_error socket_error w = elim w.state [
    | connecting ↦ unregister w >>= λ w₁. if socket_error == 0 then ok w₁ else try_again w₁
    | _ ↦ ok w
  ]

  -- `OnEvent`, with the answers of `GetSocketError` in either handler.
  pub on_event : ℕ → ℕ → ℕ → ClientWorld → Outcome ClientWorld
  unfolding handle_write handle_error
  on_event in_events write_answer error_answer w = do
    w₁ ← if bit_and in_events epoll_out == 0 then ok w else handle_write write_answer w
    if bit_and in_events epoll_err == 0 then ok w₁ else handle_error error_answer w₁
