-- ===== src/Connection/States/Events.antt =====
-- The events of a TCPConnection.
use raner.Common.{
  ℕ, refl, inl, inr, Bool, List, ◌==◌, bit_and, Bool-cases, List-cases, if◌then◌else◌, Outcome, ok,
  fault, IfOk, IfOk-bind, IfOk-then,
}
use raner.Buffer.{ReadResult, read_fd, skip_read_bytes, readable_bytes, bytes_at_read}
use raner.Socket
use raner.Socket.{Socket, SendResult, sent, send_failed}
use raner.Kernel.{Kernel}
use raner.Epoll.{stop_write, epoll_in, epoll_out}
use raner.Connection.{
  State, disconnected, connecting, connected, disconnecting, World, set_conn, fd_of, on_server,
  is_writing, handle_read, after_drain, wrote, handle_write, on_event,
}
use raner.Connection.States.{
  IsTold, Still, Still-refl, Still-IsTold, on_server-Still, ReadResult-cases,
}
use raner.Connection.States.Sends.{shutdown_in_loop-Still}
use raner.Connection.States.Lifecycle.{handle_close-IsTold}

module _ (os : Kernel) where
  pub IfOk-IsTold :
      (w : World os) (m : Outcome (World os))
      → IsTold os w
      → IfOk (Still os w) m
      → IfOk (IsTold os) m
  IfOk-IsTold w (ok w') v s = Still-IsTold os s v
  IfOk-IsTold w (fault e) v s = tt

  handle_read-IsTold :
      (readv : ℕ → ReadResult) (w : World os)
      → IsTold os w
      → IfOk (IsTold os) (handle_read os readv w)
  unfolding handle_read
  handle_read-IsTold readv w v = IfOk-bind (IsTold os) (read_fd readv w.input_buffer) _ (λ r.
      let w' = set_conn os (record (w.conn) { input_buffer = r.0 }) w in
      let v' : IsTold os w' = record { start = v.start; end = v.end } in
      elim (ReadResult-cases os r.1) [
        | inr (errno, e) ↦ rw e v'
        | inl (bytes, e) ↦ elim (List-cases bytes) [
          | inl closed ↦ rw (e, closed) (handle_close-IsTold os w' v')
          | inr (x, xs, some_read) ↦ rw (e, some_read) (record { start = v.start; end = v.end })
        ]
      ])

  after_drain-Still :
      (st : State) (w₀ w : World os) → Still os w₀ w → Still os w₀ (after_drain os st w)
  unfolding after_drain
  after_drain-Still disconnecting w₀ w s = shutdown_in_loop-Still os w₀ w s
  after_drain-Still connected w₀ w s = s
  after_drain-Still connecting w₀ w s = s
  after_drain-Still disconnected w₀ w s = s

  wrote-Still :
      (r : SendResult) (w₀ w : World os) → Still os w₀ w → IfOk (Still os w₀) (wrote os r w)
  unfolding wrote
  wrote-Still (send_failed errno) w₀ w s = s
  wrote-Still (sent n) w₀ w s = elim (Bool-cases (n == 0)) [
    | inl nothing ↦ rw nothing s
    | inr some_sent ↦ rw some_sent (
        IfOk-bind (Still os w₀) (skip_read_bytes n w.output_buffer) _ (λ out.
          let w₁ = set_conn os (record (w.conn) { output_buffer = out }) w in
          let s₁ : Still os w₀ w₁ = record {
            same_start = s.same_start;
            same_end = s.same_end;
            same_told = s.same_told;
          } in
          elim (Bool-cases (readable_bytes out == 0)) [
            | inr part ↦ rw part s₁
            | inl all ↦ rw all (
                IfOk-then (Still os w₀) (Still os w₀)
                  (on_server os (stop_write os (fd_of os w₁)) w₁) _
                  (on_server-Still os (stop_write os (fd_of os w₁)) w₀ w₁ s₁)
                  (λ w₂ s₂. after_drain-Still w₂.state w₀ _ (record {
                    same_start = s₂.same_start;
                    same_end = s₂.same_end;
                    same_told = s₂.same_told;
                  })))
          ]))
  ]

  handle_write-Still :
      (debug : Bool) (f : List ℕ → SendResult) (w : World os)
      → IfOk (Still os w) (handle_write os debug f w)
  unfolding handle_write
  handle_write-Still debug f w = elim (Bool-cases (is_writing os w)) [
    | inl on ↦ rw on (
        IfOk-bind (Still os w)
          (Socket.write debug f (bytes_at_read (readable_bytes w.output_buffer) w.output_buffer)
            w.socket)
          _
          (λ r.
            wrote-Still r.1 w _
              (record { same_start = refl; same_end = refl; same_told = λ b. refl })))
    | inr off ↦ rw off (Still-refl os w)
  ]

  pub on_event-IsTold :
      (debug : Bool) (readv : ℕ → ReadResult) (f : List ℕ → SendResult) (in_events : ℕ)
      (w : World os)
      → IsTold os w
      → IfOk (IsTold os) (on_event os debug readv f in_events w)
  unfolding on_event
  on_event-IsTold debug readv f in_events w v =
      IfOk-then (IsTold os) (IsTold os)
        (if bit_and in_events epoll_in == 0 then ok w else handle_read os readv w) _ read
        (λ w₁ v₁. written w₁ v₁)
    where
      read :
          IfOk
            (IsTold os)
            (if bit_and in_events epoll_in == 0 then ok w else handle_read os readv w)
      read = elim (Bool-cases (bit_and in_events epoll_in == 0)) [
        | inl e ↦ rw e v
        | inr e ↦ rw e (handle_read-IsTold readv w v)
      ]

      written :
          (w₁ : World os)
          → IsTold os w₁
          → IfOk
              (IsTold os)
              (if bit_and in_events epoll_out == 0 then ok w₁ else handle_write os debug f w₁)
      written w₁ v₁ = elim (Bool-cases (bit_and in_events epoll_out == 0)) [
        | inl e ↦ rw e v₁
        | inr e ↦
            rw e (IfOk-IsTold w₁ (handle_write os debug f w₁) v₁ (handle_write-Still debug f w₁))
      ]
