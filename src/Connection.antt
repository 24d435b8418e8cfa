-- ===== src/Connection.antt =====
-- raner/tcp_connection.cc: the class TCPConnection, with the parts of EventLoop that it calls. The
-- functions run on the loop's thread, but those with an argument `in_loop`. Functors queued with
-- `QueueInLoop` are values in `queue`, oldest first, and the calls of the user's callbacks are
-- recorded in `upcalls`, the latest first.
pub mod Stream
pub mod States
pub mod Server
mod Tests
use raner.Common.{
  ℕ, ◌+◌, ◌-◌, ◌*◌, ◌^◌, ◌≤◌, Bool, true, false, not, Option, some, none, List, [], ◌∷◌, ◌++◌,
  length, drop, ltb, leb, ◌==◌, ◌&&◌, ◌||◌, if◌then◌else◌, bit_and, Outcome, ok, fault, assertion,
  require, ◌>>=◌, ◌>>◌,
}
use raner.Buffer
use raner.Buffer.{
  ByteBuffer, ReadResult, failed, bytes_read, add_size, sub_size, readable_bytes, bytes_at_read,
  read_fd, skip_read_bytes,
}
use raner.Socket
use raner.Socket.{Socket, SendResult, sent, send_failed, eagain, epipe, econnreset, shutdown_write}
use raner.Kernel.{Kernel}
use raner.Epoll.{
  EpollServer, epoll_in, epoll_out, epoll_err, register_fd, unregister_fd, has_register_read,
  has_register_write, start_read, stop_read, start_write, stop_write,
}

pub data State : Type 0 where
  disconnected connecting connected disconnecting : State

abbrev pub is : State → State → Bool
is disconnected disconnected = true
is connecting connecting = true
is connected connected = true
is disconnecting disconnecting = true
is _ _ = false

pub data Functor : Type 0 where
  write_complete : Functor
  high_water_mark_reached : ℕ → Functor
  send_later : List ℕ → Functor
  shutdown_later : Functor
  force_close_later : Functor
  start_read_later : Functor
  stop_read_later : Functor

-- `connection_callback` is told whether `Connected()` holds.
pub data Upcall : Type 0 where
  connection_callback : Bool → Upcall
  message_callback : Upcall
  close_callback : Upcall

pub record TcpConnection : Type 0 where
  pub id : ℕ
  pub state : State
  pub reading : Bool
  pub socket : Socket
  pub has_write_complete_callback : Bool
  pub has_high_water_mark_callback : Bool
  pub high_water_mark : ℕ
  pub input_buffer : ByteBuffer
  pub output_buffer : ByteBuffer
  -- The delay in microseconds of `force_close_delay_timer_`, once it is set.
  pub force_close_delay : Option ℕ

-- The constructor, on an accepted or connected socket.
pub make_connection : ℕ → Socket → TcpConnection
make_connection id socket = record {
  id = id;
  state = connecting;
  reading = true;
  socket = socket;
  has_write_complete_callback = false;
  has_high_water_mark_callback = false;
  high_water_mark = 64 * 1024 * 1024;
  input_buffer = Buffer.make_buffer Buffer.initial_size;
  output_buffer = Buffer.make_buffer Buffer.initial_size;
  force_close_delay = none;
}

module _ (os : Kernel) where
  pub record World : Type 0 where
    pub conn : TcpConnection
    pub open conn use *
    pub server : EpollServer os
    pub queue : List Functor
    pub upcalls : List Upcall

  abbrev pub set_conn : TcpConnection → World → World
  set_conn c w = record w { conn = c }

  abbrev pub set_state : State → World → World
  set_state st w = set_conn (record (w.conn) { state = st }) w

  abbrev pub queue_in_loop : Functor → World → World
  queue_in_loop f w = record w { queue = w.queue ++ f ∷ [] }

  abbrev pub queue_if : Bool → Functor → World → World
  queue_if b f w = record w { queue = if b then w.queue ++ f ∷ [] else w.queue }

  abbrev pub upcall : Upcall → World → World
  upcall u w = record w { upcalls = u ∷ w.upcalls }

  abbrev pub fd_of : World → ℕ
  fd_of w = w.socket.fd

  -- A call of the loop's EpollServer.
  abbrev pub on_server : (EpollServer os → Outcome (EpollServer os)) → World → Outcome World
  on_server f w = f w.server >>= λ s. ok (record w { server = s })

  abbrev pub is_writing : World → Bool
  is_writing w = has_register_write os (fd_of w) w.server

  -- A direct write: how many bytes went out, and whether the error is a fault.
  pub record Attempt : Type 0 where
    pub world : World
    pub nwrote : ℕ
    pub fault_error : Bool

  abbrev pub is_fault : ℕ → Bool
  is_fault errno = not (errno == eagain) && (errno == epipe || errno == econnreset)

  -- The bytes go to the output buffer, and EPOLLOUT is asked for.
  pub append_output : List ℕ → World → Outcome World
  append_output bytes w = do
    out ← Buffer.write bytes w.output_buffer
    let w' = set_conn (record (w.conn) { output_buffer = out }) w
    if is_writing w' then ok w' else on_server (start_write os (fd_of w')) w'

  module _ (debug : Bool) (send : List ℕ → SendResult) where
    pub write_directly : List ℕ → World → Outcome Attempt
    write_directly bytes w = Socket.write debug send bytes w.socket >>= λ r.
        let w' = set_conn (record (w.conn) { socket = r.0 }) w in
        elim r.1 [
          | sent n ↦ ok (record {
            world =
                queue_if (sub_size (length bytes) n == 0 && w.has_write_complete_callback)
                  write_complete w';
            nwrote = n;
            fault_error = false;
          })
          | send_failed errno ↦ ok (record { world = w'; nwrote = 0; fault_error = is_fault errno })
        ]

    pub buffer_rest : List ℕ → Attempt → Outcome World
    unfolding append_output
    buffer_rest bytes a =
        let w = a.world in
        let remaining = sub_size (length bytes) a.nwrote in
        let old_len = readable_bytes w.output_buffer in
        require (leb remaining (length bytes)) assertion
        >> (if not a.fault_error && ltb 0 remaining
            then (do
              let high =
                  leb w.high_water_mark (add_size old_len remaining)
                  && ltb old_len w.high_water_mark
                  && w.has_high_water_mark_callback
              append_output (drop a.nwrote bytes)
                  (queue_if high (high_water_mark_reached (add_size old_len remaining)) w))
            else ok w)

    pub send_now : List ℕ → World → Outcome World
    unfolding write_directly buffer_rest
    send_now bytes w =
        (if not (is_writing w) && readable_bytes w.output_buffer == 0
          then write_directly bytes w
          else ok (record { world = w; nwrote = 0; fault_error = false }))
        >>= buffer_rest bytes

    -- `send` stands for the system call, made once at most.
    pub send_in_loop : List ℕ → World → Outcome World
    unfolding send_now
    send_in_loop bytes w = elim w.state [ disconnected ↦ ok w | _ ↦ send_now bytes w ]

    -- `Send(std::string_view)`; the other overloads end in it.
    pub send_bytes : Bool → List ℕ → World → Outcome World
    unfolding send_in_loop
    send_bytes in_loop bytes w = elim w.state [
      | connected ↦
          if in_loop then send_in_loop bytes w else ok (queue_in_loop (send_later bytes) w)
      | _ ↦ ok w
    ]

    -- `Send(ByteBuffer*)`, with what it leaves in the caller's buffer.
    pub send_buffer : Bool → ByteBuffer → World → Outcome (World × ByteBuffer)
    unfolding send_in_loop
    send_buffer in_loop buf w = elim w.state [
      | connected ↦
          if in_loop
          then (do
            w' ← send_in_loop (bytes_at_read (readable_bytes buf) buf) w
            ok (w', Buffer.skip_all buf))
          else (do
            (bytes, rest) ← Buffer.skip_all_as_string buf
            ok (queue_in_loop (send_later bytes) w, rest))
      | _ ↦ ok (w, buf)
    ]

  pub shutdown_in_loop : World → World
  shutdown_in_loop w =
      if is_writing w then w else set_conn (record (w.conn) { socket = shutdown_write w.socket }) w

  pub shutdown : Bool → World → World
  unfolding shutdown_in_loop
  shutdown in_loop w = elim w.state [
    | connected ↦
        let w' = set_state disconnecting w in
        if in_loop then shutdown_in_loop w' else queue_in_loop shutdown_later w'
    | _ ↦ w
  ]

  abbrev pub is_open : State → Bool
  is_open st = is st connected || is st disconnecting

  pub force_close : World → World
  force_close w =
      if is_open w.state then queue_in_loop force_close_later (set_state disconnecting w) else w

  -- The delay is in microseconds; the timer calls `ForceClose`.
  pub force_close_with_delay : ℕ → World → World
  force_close_with_delay delay w =
      if is_open w.state
      then set_conn (record (w.conn) { state = disconnecting; force_close_delay = some delay }) w
      else w

  pub handle_close : World → Outcome World
  handle_close w = do
    require (is_open w.state) assertion
    let w₁ = set_state disconnected w
    w₂ ← on_server (unregister_fd os (fd_of w₁)) w₁
    ok (upcall close_callback (upcall (connection_callback false) w₂))

  pub force_close_in_loop : World → Outcome World
  unfolding handle_close
  force_close_in_loop w = if is_open w.state then handle_close w else ok w

  pub start_read_in_loop : World → Outcome World
  start_read_in_loop w =
      if not w.reading || not (has_register_read os (fd_of w) w.server)
      then (do
        w' ← on_server (start_read os (fd_of w)) w
        ok (set_conn (record (w'.conn) { reading = true }) w'))
      else ok w

  pub stop_read_in_loop : World → Outcome World
  stop_read_in_loop w =
      if w.reading || has_register_read os (fd_of w) w.server
      then (do
        w' ← on_server (stop_read os (fd_of w)) w
        ok (set_conn (record (w'.conn) { reading = false }) w'))
      else ok w

  pub connect_established : World → Outcome World
  connect_established w = do
    require (is w.state connecting) assertion
    let w₁ = set_state connected w
    w₂ ← on_server (register_fd os (fd_of w₁) w₁.id epoll_in) w₁
    ok (upcall (connection_callback true) w₂)

  pub connect_destroyed : World → Outcome World
  connect_destroyed w = elim w.state [
    | connected ↦
        let w₁ = set_state disconnected w in
        on_server (unregister_fd os (fd_of w₁)) w₁ >>= λ w₂.
        ok (upcall (connection_callback false) w₂)
    | _ ↦ ok w
  ]

  -- On an error `handleError` only asks for the socket's error and logs it.
  pub handle_read : (ℕ → ReadResult) → World → Outcome World
  unfolding handle_close
  handle_read readv w = read_fd readv w.input_buffer >>= λ r.
      let w' = set_conn (record (w.conn) { input_buffer = r.0 }) w in
      elim r.1 [
        | failed errno ↦ ok w'
        | bytes_read [] ↦ handle_close w'
        | bytes_read (x ∷ xs) ↦ ok (upcall message_callback w')
      ]

  -- The end of `handleWrite` once no byte waits, in a state.
  pub after_drain : State → World → World
  unfolding shutdown_in_loop
  after_drain disconnecting w = shutdown_in_loop w
  after_drain connected w = w
  after_drain connecting w = w
  after_drain disconnected w = w

  pub wrote : SendResult → World → Outcome World
  unfolding after_drain
  wrote (send_failed errno) w = ok w
  wrote (sent n) w = if n == 0 then ok w else (do
    out ← skip_read_bytes n w.output_buffer
    let w₁ = set_conn (record (w.conn) { output_buffer = out }) w
    (if readable_bytes out == 0
        then (on_server (stop_write os (fd_of w₁)) w₁ >>= λ w₂.
            ok (after_drain w₂.state (queue_if w₂.has_write_complete_callback write_complete w₂)))
        else ok w₁))

  pub handle_write : Bool → (List ℕ → SendResult) → World → Outcome World
  unfolding wrote
  handle_write debug send w =
      if is_writing w
      then (do
        (k, r) ←
            Socket.write debug send (bytes_at_read (readable_bytes w.output_buffer) w.output_buffer)
              w.socket
        wrote r (set_conn (record (w.conn) { socket = k }) w))
      else ok w

  -- `OnEvent`; `out_ready_mask` stays 0.
  pub on_event : Bool → (ℕ → ReadResult) → (List ℕ → SendResult) → ℕ → World → Outcome World
  unfolding handle_read handle_write
  on_event debug readv send in_events w = do
    w₁ ← if bit_and in_events epoll_in == 0 then ok w else handle_read readv w
    if bit_and in_events epoll_out == 0 then ok w₁ else handle_write debug send w₁
