-- ===== src/Connection/States/Sends.antt =====
-- Sending and shutting down leave what the user is told of alone.
use raner.Common.{
  ℕ, ◌≡◌, refl, sym, ap, ◌⊎◌, Bool, false, not, List, ◌==◌, length, drop, leb, ltb, ◌&&◌, arith,
  Bool-cases, inl, inr, ok, assertion, require, IfOk, IfOk-bind, IfOk-then, subst,
}
use raner.Buffer
use raner.Buffer.{ReadResult, failed, bytes_read, read_fd, skip_read_bytes}
use raner.Socket
use raner.Socket.{SendResult, sent, send_failed}
use raner.Kernel.{Kernel}
use raner.Epoll.{start_write}
use raner.Connection.{
  State, disconnected, connecting, connected, disconnecting, queue_in_loop, shutdown_later,
  set_conn, set_state, fd_of, World, Attempt, is_writing, append_output, write_directly,
  buffer_rest, send_now, send_in_loop, shutdown_in_loop, shutdown,
}
use raner.Connection.States.{started, ended, Still, Still-refl, SendResult-cases, on_server-Still}

module _ (os : Kernel) where
  append_output-Still :
      (bytes : List ℕ) (w₀ w : World os)
      → Still os w₀ w
      → IfOk (Still os w₀) (append_output os bytes w)
  unfolding append_output
  append_output-Still bytes w₀ w s =
      IfOk-bind (Still os w₀) (Buffer.write bytes w.output_buffer) _ (λ out.
        let w' = set_conn os (record (w.conn) { output_buffer = out }) w in
        let same : Still os w₀ w' = record {
          same_start = s.same_start;
          same_end = s.same_end;
          same_told = s.same_told;
        } in
        elim (Bool-cases (is_writing os w')) [
          | inl on ↦ rw on same
          | inr off ↦ rw off (on_server-Still os (start_write os (fd_of os w')) w₀ w' same)
        ])

  write_directly-Still :
      (debug : Bool) (send : List ℕ → SendResult) (bytes : List ℕ) (w : World os)
      → IfOk (λ a. Still os w a.world) (write_directly os debug send bytes w)
  unfolding write_directly
  write_directly-Still debug send bytes w =
      IfOk-bind (λ a. Still os w a.world) (Socket.write debug send bytes w.socket) _
        (λ r. elim (SendResult-cases os r.1) [
          | inl (n, e) ↦ rw e (record { same_start = refl; same_end = refl; same_told = λ b. refl })
          | inr (errno, e) ↦
              rw e (record { same_start = refl; same_end = refl; same_told = λ b. refl })
        ])

  buffer_rest-Still :
      (debug : Bool) (send : List ℕ → SendResult) (bytes : List ℕ) (w₀ : World os) (a : Attempt os)
      → Still os w₀ a.world
      → IfOk (Still os w₀) (buffer_rest os debug send bytes a)
  unfolding buffer_rest
  buffer_rest-Still debug send bytes w₀ a s =
      let rest = Buffer.sub_size (length bytes) a.nwrote in
      IfOk-bind (Still os w₀) (require (leb rest (length bytes)) assertion) _ (λ u.
        elim (Bool-cases (not a.fault_error && ltb 0 rest)) [
          | inl some_left ↦ rw some_left (
              append_output-Still (drop a.nwrote bytes) w₀ _ (record {
                same_start = s.same_start;
                same_end = s.same_end;
                same_told = s.same_told;
              }))
          | inr done ↦ rw done s
        ])

  send_now-Still :
      (debug : Bool) (send : List ℕ → SendResult) (bytes : List ℕ) (w : World os)
      → IfOk (Still os w) (send_now os debug send bytes w)
  unfolding send_now
  send_now-Still debug send bytes w =
      elim (Bool-cases (not (is_writing os w) && Buffer.readable_bytes w.output_buffer == 0)) [
        | inl direct ↦ rw direct (
            IfOk-then (λ a. Still os w a.world) (Still os w) (write_directly os debug send bytes w)
              (buffer_rest os debug send bytes) (write_directly-Still debug send bytes w)
              (λ a s. buffer_rest-Still debug send bytes w a s))
        | inr queued ↦ rw queued (
            buffer_rest-Still debug send bytes w
              (record { world = w; nwrote = 0; fault_error = false }) (Still-refl os w))
      ]

  State-cases :
      (st : State)
      → (st ≡ disconnected) ⊎ (st ≡ connecting) ⊎ (st ≡ connected) ⊎ (st ≡ disconnecting)
  State-cases disconnected = inl refl
  State-cases connecting = inr (inl refl)
  State-cases connected = inr (inr (inl refl))
  State-cases disconnecting = inr (inr (inr refl))

  pub send_in_loop-Still :
      (debug : Bool) (send : List ℕ → SendResult) (bytes : List ℕ) (w : World os)
      → IfOk (Still os w) (send_in_loop os debug send bytes w)
  unfolding send_in_loop
  send_in_loop-Still debug send bytes w = by_state w.state refl
    where
      sends :
          send_in_loop os debug send bytes w ≡ send_now os debug send bytes w
          → IfOk (Still os w) (send_in_loop os debug send bytes w)
      sends same = subst (IfOk (Still os w)) (sym same) (send_now-Still debug send bytes w)

      gives_up :
          send_in_loop os debug send bytes w ≡ ok w
          → IfOk (Still os w) (send_in_loop os debug send bytes w)
      gives_up same = subst (IfOk (Still os w)) (sym same) (Still-refl os w)

      by_state :
          (st : State) → w.state ≡ st → IfOk (Still os w) (send_in_loop os debug send bytes w)
      by_state disconnected e = gives_up (ground (arith, e))
      by_state connecting e = sends (ground (arith, e))
      by_state connected e = sends (ground (arith, e))
      by_state disconnecting e = sends (ground (arith, e))

  pub shutdown_in_loop-Still :
      (w₀ w : World os) → Still os w₀ w → Still os w₀ (shutdown_in_loop os w)
  unfolding shutdown_in_loop
  shutdown_in_loop-Still w₀ w s = elim (Bool-cases (is_writing os w)) [
    | inl on ↦ rw on s
    | inr off ↦
        rw off
          (record { same_start = s.same_start; same_end = s.same_end; same_told = s.same_told })
  ]

  pub shutdown-Still : (in_loop : Bool) (w : World os) → Still os w (shutdown os in_loop w)
  unfolding shutdown
  shutdown-Still in_loop w = by_state w.state refl
    where
      closing : World os
      closing = set_state os disconnecting w

      begins : w.state ≡ connected → Still os w closing
      begins e = record {
        same_start = ap started (sym e);
        same_end = ap ended (sym e);
        same_told = λ b. refl;
      }

      queued : Still os w closing → Still os w (queue_in_loop os shutdown_later closing)
      queued s = record {
        same_start = s.same_start;
        same_end = s.same_end;
        same_told = s.same_told;
      }

      becomes :
          (w' : World os)
          → shutdown os in_loop w ≡ w'
          → Still os w w'
          → Still os w (shutdown os in_loop w)
      becomes w' same s = subst (Still os w) (sym same) s

      by_state : (st : State) → w.state ≡ st → Still os w (shutdown os in_loop w)
      by_state disconnected e = becomes w (ground (arith, e)) (Still-refl os w)
      by_state connecting e = becomes w (ground (arith, e)) (Still-refl os w)
      by_state disconnecting e = becomes w (ground (arith, e)) (Still-refl os w)
      by_state connected e = elim (Bool-cases in_loop) [
        | inl here ↦
            becomes (shutdown_in_loop os closing) (ground (arith, e, here))
              (shutdown_in_loop-Still w closing (begins e))
        | inr away ↦
            becomes (queue_in_loop os shutdown_later closing) (ground (arith, e, away))
              (queued (begins e))
      ]
