-- ===== src/Connection/Stream/Send.antt =====
-- `sendInLoop` loses, repeats and reorders nothing.
use raner.Common.{
  ℕ, ◌+◌, ◌≤◌, ◌<◌, ◌≡◌, refl, sym, ap, ◌∙◌, ◌≢◌, subst, ◌⊎◌, inl, inr, Bool, true, false, not,
  List, [], ◌++◌, length, take, drop, ltb, leb, ◌==◌, append-nil, append_assoc, take-append-drop,
  drop_all, length-drop, length-append, le→leb, arith, Bool-cases, List-cases, Ends, Ends-bind,
  Ends-map,
}
use raner.Buffer.{ByteBuffer, max_size, sub_size, readable_bytes}
use raner.Buffer.Contents.{contents}
use raner.Buffer.Valid.{IsValid, readable-eq-length}
use raner.Buffer.Writes.{write-Leaves}
use raner.Socket
use raner.Socket.{Socket, SendResult, sent, send_failed}
use raner.Kernel.{Kernel}
use raner.Epoll.{start_write}
use raner.Epoll.Masks.{IsRegistered, start_write-Ends}
use raner.Connection.{
  disconnected, World, Attempt, fd_of, is_writing, write_directly, append_output, buffer_rest,
  send_now, send_in_loop,
}
use raner.Connection.Stream.{IsWell, stream, Works}

module _ (os : Kernel) where
  -- Between the direct write and the end of `sendInLoop`: `done` is what the kernel had before.
  record IsMidway (b : ByteBuffer) (done bytes : List ℕ) (a : Attempt os) : Type 0 where
    out : IsValid a.world.output_buffer
    registered : IsRegistered os (fd_of os a.world) a.world.server
    writing : is_writing os a.world ≡ not (length (contents a.world.output_buffer) == 0)
    same : a.world.output_buffer ≡ b
    no_fault : a.fault_error ≡ false
    some_sent : a.nwrote ≤ length bytes
    went : a.world.socket.wire ≡ done ++ take a.nwrote bytes
    in_order : (contents a.world.output_buffer ≡ []) ⊎ (a.nwrote ≡ 0)

  append-drop :
      (done bytes waiting : List ℕ) (n : ℕ)
      → (waiting ≡ []) ⊎ (n ≡ 0)
      → (done ++ take n bytes) ++ (waiting ++ drop n bytes) ≡ (done ++ waiting) ++ bytes
  append-drop done bytes waiting n (inl e) = rw e (
      append_assoc done (take n bytes) (drop n bytes)
      ∙ ap (◌++◌ done) (take-append-drop n bytes)
      ∙ ap (λ l. l ++ bytes) (sym (append-nil done)))
  append-drop done bytes waiting n (inr e) =
      rw e (
        ap (λ l. l ++ (waiting ++ bytes)) (append-nil done) ∙ sym (append_assoc done waiting bytes))

  write_directly-IsMidway :
      (debug : Bool) (send : List ℕ → SendResult) (bytes : List ℕ) (w : World os)
      → Works os send
      → IsWell os w
      → contents w.output_buffer ≡ []
      → Ends (IsMidway w.output_buffer w.socket.wire bytes) (write_directly os debug send bytes w)
  unfolding write_directly
  write_directly-IsMidway debug send bytes w works v empty =
      let (n, went, fits) = works bytes in
      let e = Socket.write_sent debug send bytes w.socket n went in
      rw (e, Ends)
        (record {
          out = v.out;
          registered = v.registered;
          writing = v.writing;
          same = refl;
          no_fault = refl;
          some_sent = fits;
          went = refl;
          in_order = inl empty;
        })

  -- More bytes wait, so EPOLLOUT is asked for, if it was not.
  append_output-IsWell :
      (bytes : List ℕ) (w : World os)
      → IsValid w.output_buffer
      → IsRegistered os (fd_of os w) w.server
      → is_writing os w ≡ not (length (contents w.output_buffer) == 0)
      → 0 < length bytes
      → w.output_buffer.writer_index + length bytes ≤ max_size
      → Ends
          (λ w'.
            IsWell os w' × (stream os w' ≡ w.socket.wire ++ (contents w.output_buffer ++ bytes)))
          (append_output os bytes w)
  unfolding append_output
  append_output-IsWell bytes w v registered writing some_more fits =
      let (out, e, v', held) = write-Leaves bytes w.output_buffer v fits in
      let count = ap length held ∙ length-append (contents w.output_buffer) bytes in
      let more : (length (contents out) == 0) ≡ false = ground (arith, count) in
      elim (Bool-cases (is_writing os w)) [
        | inl on ↦
            rw (e, on, Ends)
              (
                record { out = v'; registered = registered; writing = ground (arith, on, more) },
                ap (◌++◌ w.socket.wire) held,
              )
        | inr off ↦
            rw (e, off)
              (Ends-bind _ _ (start_write os (fd_of os w) w.server) _
                (start_write-Ends os (fd_of os w) w.server registered)
                (λ s p. (
                  record { out = v'; registered = p.0; writing = p.1 ∙ ground (arith, more) },
                  ap (◌++◌ w.socket.wire) held,
                )))
      ]

  buffer_rest-IsWell :
      (debug : Bool) (send : List ℕ → SendResult) (b : ByteBuffer) (done bytes : List ℕ)
      (a : Attempt os)
      → IsMidway b done bytes a
      → b.writer_index + length bytes ≤ max_size
      → Ends
          (λ w'. IsWell os w' × (stream os w' ≡ (done ++ contents b) ++ bytes))
          (buffer_rest os debug send bytes a)
  unfolding buffer_rest
  buffer_rest-IsWell debug send b done bytes a m fits =
      elim (Bool-cases (ltb 0 (sub_size (length bytes) a.nwrote))) [
        | inl more ↦
            rw (all_bounds, m.no_fault, more)
              (Ends-map _ _ (append_output os (drop n bytes) _)
                (λ w' p. (p.0, p.1 ∙ ordered ∙ held_before))
                (append_output-IsWell (drop n bytes) _ m.out m.registered m.writing
                  (ground (arith, length-drop n bytes))
                  (omega
                    (arith, length-drop n bytes, ap (λ (c : ByteBuffer). c.writer_index) m.same))))
        | inr all ↦
            rw (all_bounds, m.no_fault, all)
              (
                record { out = m.out; registered = m.registered; writing = m.writing },
                whole all ∙ held_before,
              )
      ]
    where
      w : World os
      w = a.world

      n : ℕ
      n = a.nwrote

      kept : List ℕ
      kept = contents w.output_buffer

      held_before : (done ++ kept) ++ bytes ≡ (done ++ contents b) ++ bytes
      held_before = ap (λ c. (done ++ contents c) ++ bytes) m.same

      all_bounds : leb (sub_size (length bytes) n) (length bytes) ≡ true
      all_bounds = le→leb _ _ (omega (arith, m.some_sent))

      ordered : w.socket.wire ++ (kept ++ drop n bytes) ≡ (done ++ kept) ++ bytes
      ordered = rw m.went (append-drop done bytes kept n m.in_order)

      whole : ltb 0 (sub_size (length bytes) n) ≡ false → stream os w ≡ (done ++ kept) ++ bytes
      whole h =
          ap (◌++◌ w.socket.wire) (
            sym (ap (◌++◌ kept) (drop_all n bytes (ground (arith, m.some_sent))) ∙ append-nil kept))
          ∙ ordered

  send_now-stream :
      (debug : Bool) (send : List ℕ → SendResult) (bytes : List ℕ) (w : World os)
      → Works os send
      → IsWell os w
      → w.output_buffer.writer_index + length bytes ≤ max_size
      → Ends
          (λ w'. IsWell os w' × (stream os w' ≡ stream os w ++ bytes))
          (send_now os debug send bytes w)
  unfolding send_now
  send_now-stream debug send bytes w works v fits = elim (Bool-cases (is_writing os w)) [
    | inl on ↦ rw on (
        buffer_rest-IsWell debug send w.output_buffer w.socket.wire bytes _
          (record {
            out = v.out;
            registered = v.registered;
            writing = v.writing;
            same = refl;
            no_fault = refl;
            some_sent = omega arith;
            went = sym (append-nil w.socket.wire);
            in_order = inr refl;
          })
          fits)
    | inr off ↦
        rw (off, idle off)
          (Ends-bind _ _ (write_directly os debug send bytes w) (buffer_rest os debug send bytes)
            (write_directly-IsMidway debug send bytes w works v (empty off))
            (λ a m. buffer_rest-IsWell debug send w.output_buffer w.socket.wire bytes a m fits))
  ]
    where
      idle : is_writing os w ≡ false → (readable_bytes w.output_buffer == 0) ≡ true
      idle off = ground (arith, v.writing, readable-eq-length v.out)

      empty : is_writing os w ≡ false → contents w.output_buffer ≡ []
      empty off = elim (List-cases (contents w.output_buffer)) [
        | inl e ↦ e
        | inr (x, rest, e) ↦ absurd (ground (arith, v.writing, ap length e))
      ]

  -- On a connection that is not disconnected, with a valid output buffer, a registered descriptor
  -- and EPOLLOUT asked for exactly if bytes wait, whose send works and into whose output buffer
  -- the message fits, sendInLoop puts the message at the end of the stream (the bytes the kernel
  -- has, then the bytes that wait) and asks for EPOLLOUT exactly if bytes wait. It returns, unless
  -- a system call on the epoll instance fails.
  pub send_in_loop-stream :
      (debug : Bool) (send : List ℕ → SendResult) (bytes : List ℕ) (w : World os)
      → Works os send
      → IsWell os w
      → w.state ≢ disconnected
      → w.output_buffer.writer_index + length bytes ≤ max_size
      → Ends
          (λ w'. IsWell os w' × (stream os w' ≡ stream os w ++ bytes))
          (send_in_loop os debug send bytes w)
  unfolding send_in_loop
  send_in_loop-stream debug send bytes w works v up fits =
      subst (Ends (λ w'. IsWell os w' × (stream os w' ≡ stream os w ++ bytes)))
        (sym (ground (arith, up))) (send_now-stream debug send bytes w works v fits)
