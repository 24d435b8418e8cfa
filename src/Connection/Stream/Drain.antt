-- ===== src/Connection/Stream/Drain.antt =====
-- `handleWrite` loses, repeats and reorders nothing.
use raner.Common.{
  ℕ, ◌-◌, ◌≤◌, ◌≡◌, refl, sym, ap, ◌∙◌, subst, inl, inr, Bool, true, false, not, List, [], ◌++◌,
  length, take, drop, ◌==◌, append_assoc, take-append-drop, length-drop, arith, Bool-cases,
  List-cases, Outcome, ok, ◌>>=◌, Ends, Ends-bind, Ends-map,
}
use raner.Buffer.{ByteBuffer, readable_bytes, bytes_at_read}
use raner.Buffer.Contents.{contents}
use raner.Buffer.Valid.{IsValid, readable-eq-length}
use raner.Buffer.Reads.{skip_read_bytes-Leaves}
use raner.Socket
use raner.Socket.{Socket, SendResult, sent, send_failed}
use raner.Kernel.{Kernel}
use raner.Epoll.{has_register_write, stop_write}
use raner.Epoll.Masks.{IsRegistered, stop_write-Ends}
use raner.Connection.{
  State, disconnected, connecting, connected, disconnecting, World, write_complete, set_conn,
  queue_if, fd_of, on_server, is_writing, shutdown_in_loop, after_drain, wrote, handle_write,
}
use raner.Connection.Stream.{IsWell, stream, Works}

module _ (os : Kernel) where
  shutdown_in_loop-IsWell :
      (w : World os)
      → IsWell os w
      → IsWell os (shutdown_in_loop os w) × (stream os (shutdown_in_loop os w) ≡ stream os w)
  unfolding shutdown_in_loop
  shutdown_in_loop-IsWell w v = elim (Bool-cases (is_writing os w)) [
    | inl on ↦ simp on (v, refl)
    | inr off ↦
        let (fd, wire) = Socket.shutdown_write_lem w.socket in
        simp off (
          record {
            out = v.out;
            registered = subst (λ f. IsRegistered os f w.server) (sym fd) v.registered;
            writing = ap (λ f. has_register_write os f w.server) fd ∙ v.writing;
          },
          ap (λ l. l ++ contents w.output_buffer) wire,
        )
  ]

  after_drain-IsWell :
      (st : State) (w : World os)
      → IsWell os w
      → IsWell os (after_drain os st w) × (stream os (after_drain os st w) ≡ stream os w)
  unfolding after_drain
  after_drain-IsWell disconnecting w v = shutdown_in_loop-IsWell w v
  after_drain-IsWell connected w v = (v, refl)
  after_drain-IsWell connecting w v = (v, refl)
  after_drain-IsWell disconnected w v = (v, refl)

  stop_and_drain : World os → Outcome (World os)
  stop_and_drain w = on_server os (stop_write os (fd_of os w)) w >>= λ w₂.
      ok (after_drain os w₂.state (queue_if os w₂.has_write_complete_callback write_complete w₂))

  -- The output buffer after `handleWrite` sent all that it held.
  all_sent-IsWell :
      (w : World os)
      → IsValid w.output_buffer
      → contents w.output_buffer ≡ []
      → IsRegistered os (fd_of os w) w.server
      → Ends (λ w'. IsWell os w' × (stream os w' ≡ stream os w)) (stop_and_drain w)
  unfolding stop_and_drain
  all_sent-IsWell w out empty at =
      Ends-bind _ _ (on_server os (stop_write os (fd_of os w)) w) _
        (Ends-bind _ (λ w₂. IsWell os w₂ × (stream os w₂ ≡ stream os w))
          (stop_write os (fd_of os w) w.server) _ (stop_write-Ends os (fd_of os w) w.server at)
          (λ s (at', off). (
            record {
              out = out;
              registered = at';
              writing = off ∙ sym (ap (λ l. not (length l == 0)) empty);
            },
            refl,
          )))
        (λ w₂ (v, same).
          let w₃ = queue_if os w₂.has_write_complete_callback write_complete w₂ in
          let (v', same') =
            after_drain-IsWell w₂.state w₃
              (record { out = v.out; registered = v.registered; writing = v.writing }) in
          (v', same' ∙ same))

  wrote-IsWell :
      (n : ℕ) (w : World os)
      → IsWell os w
      → n ≤ length (contents w.output_buffer)
      → Ends
          (λ w'. IsWell os w' × (stream os w' ≡ w.socket.wire ++ drop n (contents w.output_buffer)))
          (wrote os (sent n) w)
  unfolding wrote stop_and_drain
  wrote-IsWell n w v h = elim (Bool-cases (n == 0)) [
    | inl nothing ↦
        rw (nothing, Ends)
          (v, ap (λ m. w.socket.wire ++ drop m (contents w.output_buffer)) (sym (n_zero nothing)))
    | inr some_sent ↦
        let (out, e, v', held) = skip_read_bytes-Leaves n w.output_buffer v.out h in
        elim (Bool-cases (readable_bytes out == 0)) [
          | inl all ↦
              let w₁ = set_conn os (record (w.conn) { output_buffer = out }) w in
              rw (some_sent, e, all, Ends)
                (Ends-map (λ w'. IsWell os w' × (stream os w' ≡ stream os w₁))
                  (λ w'.
                    IsWell os w'
                    × (stream os w' ≡ w.socket.wire ++ drop n (contents w.output_buffer)))
                  (stop_and_drain w₁) (λ w' p. (p.0, p.1 ∙ ap (◌++◌ w.socket.wire) held))
                  (all_sent-IsWell w₁ v' (none_left out v' all) v.registered))
          | inr part ↦
              rw (some_sent, e, part, Ends)
                (
                  record { out = v'; registered = v.registered; writing = still out v' part held },
                  ap (◌++◌ w.socket.wire) held,
                )
        ]
  ]
    where
      n_zero : (n == 0) ≡ true → n ≡ 0
      n_zero nothing = ground (arith, nothing)

      still :
          (out : ByteBuffer)
          → IsValid out
          → (readable_bytes out == 0) ≡ false
          → contents out ≡ drop n (contents w.output_buffer)
          → is_writing os w ≡ not (length (contents out) == 0)
      still out v' part held = ground (
        arith,
        v.writing,
        part,
        readable-eq-length v',
        ap length held,
        length-drop n (contents w.output_buffer),
      )

      none_left :
          (out : ByteBuffer) → IsValid out → (readable_bytes out == 0) ≡ true → contents out ≡ []
      none_left out v' all = elim (List-cases (contents out)) [
        | inl e ↦ e
        | inr (x, rest, e) ↦ absurd (ground (arith, all, readable-eq-length v', ap length e))
      ]

  whole : (b : ByteBuffer) → IsValid b → bytes_at_read (readable_bytes b) b ≡ contents b
  whole b v = ap (λ m. bytes_at_read m b) (size b v)
    where
      size : (b : ByteBuffer) → IsValid b → readable_bytes b ≡ b.writer_index - b.reader_index
      size b v = omega (arith, v.ordered, v.inside, v.small)

  -- On a connection with a valid output buffer, a registered descriptor and EPOLLOUT asked for
  -- exactly if bytes wait, where send works, handleWrite leaves the stream as it is and keeps
  -- EPOLLOUT asked for exactly while bytes wait, also where it goes on to shut the write side
  -- down. It returns, unless a system call on the epoll instance fails.
  pub handle_write-stream :
      (debug : Bool) (send : List ℕ → SendResult) (w : World os)
      → Works os send
      → IsWell os w
      → Ends (λ w'. IsWell os w' × (stream os w' ≡ stream os w)) (handle_write os debug send w)
  unfolding handle_write
  handle_write-stream debug send w works v = elim (Bool-cases (is_writing os w)) [
    | inr off ↦ rw (off, Ends) (v, refl)
    | inl on ↦
        let held = bytes_at_read (readable_bytes w.output_buffer) w.output_buffer in
        let (n, went, fits) = works held in
        let k = record (w.socket) { wire = w.socket.wire ++ take n held } in
        let w₁ = set_conn os (record (w.conn) { socket = k }) w in
        rw on (
          subst
            (λ m.
              Ends (λ w'. IsWell os w' × (stream os w' ≡ stream os w))
                (m >>= λ r. wrote os r.1 (set_conn os (record (w.conn) { socket = r.0 }) w)))
            (sym (Socket.write_sent debug send held w.socket n went))
            (Ends-map (λ w'. IsWell os w' × (stream os w' ≡ k.wire ++ drop n held))
              (λ w'. IsWell os w' × (stream os w' ≡ stream os w)) (wrote os (sent n) w₁)
              (λ w' p. (
                p.0,
                p.1
                    ∙ append_assoc w.socket.wire (take n held) (drop n held)
                    ∙ ap (◌++◌ w.socket.wire)
                        (take-append-drop n held ∙ whole w.output_buffer v.out),
              ))
              (subst
                (λ l.
                  Ends (λ w'. IsWell os w' × (stream os w' ≡ k.wire ++ drop n l))
                    (wrote os (sent n) w₁))
                (sym (whole w.output_buffer v.out))
                (wrote-IsWell n w₁
                  (record { out = v.out; registered = v.registered; writing = v.writing })
                  (subst (λ l. n ≤ length l) (whole w.output_buffer v.out) fits)))))
  ]
