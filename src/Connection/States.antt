-- ===== src/Connection/States.antt =====
-- The states of a TCPConnection, and what the user is told of them.
pub mod Sends
pub mod Lifecycle
pub mod Events
pub mod Calls
use raner.Common.{
  ℕ, ◌+◌, ◌≡◌, refl, sym, ap, ◌∙◌, ◌⊎◌, Bool, true, false, not, List, [], ◌∷◌, ◌==◌, length, drop,
  leb, ltb, ◌&&◌, ◌||◌, bit_and, arith, if◌then◌else◌, Bool-cases, inl, inr, Outcome, ok, fault,
  assertion, require, ◌>>=◌, ◌>>◌, IfOk, IfOk-bind, IfOk-then, IfOk-require, subst,
}
use raner.Buffer
use raner.Buffer.{ReadResult, failed, bytes_read, read_fd, skip_read_bytes}
use raner.Socket
use raner.Socket.{SendResult, sent, send_failed}
use raner.Kernel.{Kernel}
use raner.Epoll.{EpollServer, start_write, register_fd, unregister_fd, epoll_in, epoll_out}
use raner.Connection.{
  State, disconnected, connecting, connected, disconnecting, Upcall, upcall, queue_in_loop,
  shutdown_later, connection_callback, message_callback, close_callback, TcpConnection, set_conn,
  set_state, fd_of, World, Attempt, on_server, is_writing, is_open, is, append_output,
  write_directly, buffer_rest, send_now, send_in_loop, send_bytes, shutdown_in_loop, shutdown,
  force_close, force_close_with_delay, handle_close, force_close_in_loop, start_read_in_loop,
  stop_read_in_loop, connect_established, connect_destroyed, handle_read, after_drain, wrote,
  handle_write, on_event,
}

-- How often the connection callback was called with `Connected()` true, or false.
abbrev pub told : Bool → List Upcall → ℕ
told b [] = 0
told true (connection_callback true ∷ l) = 1 + told true l
told true (connection_callback false ∷ l) = told true l
told false (connection_callback true ∷ l) = told false l
told false (connection_callback false ∷ l) = 1 + told false l
told b (message_callback ∷ l) = told b l
told b (close_callback ∷ l) = told b l

abbrev pub started : State → ℕ
started connecting = 0
started connected = 1
started disconnecting = 1
started disconnected = 1

abbrev pub ended : State → ℕ
ended connecting = 0
ended connected = 0
ended disconnecting = 0
ended disconnected = 1

module _ (os : Kernel) where
  -- The user was told of the start once it happened and of the end once it happened, each once.
  pub record IsTold (w : World os) : Type 0 where
    pub start : told true w.upcalls ≡ started w.state
    pub end : told false w.upcalls ≡ ended w.state

  pub record Still (w w' : World os) : Type 0 where
    pub same_start : started w'.state ≡ started w.state
    pub same_end : ended w'.state ≡ ended w.state
    pub same_told : (b : Bool) → told b w'.upcalls ≡ told b w.upcalls

  pub Still-refl : (w : World os) → Still w w
  Still-refl w = record { same_start = refl; same_end = refl; same_told = λ b. refl }

  pub Still-trans : {u v w : World os} → Still u v → Still v w → Still u w
  Still-trans s t = record {
    same_start = t.same_start ∙ s.same_start;
    same_end = t.same_end ∙ s.same_end;
    same_told = λ b. t.same_told b ∙ s.same_told b;
  }

  pub Still-IsTold : {w w' : World os} → Still w w' → IsTold w → IsTold w'
  Still-IsTold s v = record {
    start = s.same_told true ∙ v.start ∙ sym s.same_start;
    end = s.same_told false ∙ v.end ∙ sym s.same_end;
  }

  pub SendResult-cases :
      (r : SendResult) → ((n : ℕ) × (r ≡ sent n)) ⊎ ((errno : ℕ) × (r ≡ send_failed errno))
  SendResult-cases (sent n) = inl (n, refl)
  SendResult-cases (send_failed errno) = inr (errno, refl)

  pub ReadResult-cases :
      (r : ReadResult)
      → ((bytes : List ℕ) × (r ≡ bytes_read bytes)) ⊎ ((errno : ℕ) × (r ≡ failed errno))
  ReadResult-cases (bytes_read bytes) = inl (bytes, refl)
  ReadResult-cases (failed errno) = inr (errno, refl)

  pub on_server-Still :
      (f : EpollServer os → Outcome (EpollServer os)) (w₀ w : World os)
      → Still w₀ w
      → IfOk (Still w₀) (on_server os f w)
  on_server-Still f w₀ w s =
      IfOk-bind (Still w₀) (f w.server) _
        (λ t. record { same_start = s.same_start; same_end = s.same_end; same_told = s.same_told })

  pub open_state : (st : State) → is_open os st ≡ true → (started st ≡ 1) × (ended st ≡ 0)
  open_state disconnected e = cc
  open_state connecting e = cc
  open_state connected e = (refl, refl)
  open_state disconnecting e = (refl, refl)
