-- ===== src/Connection/Stream.antt =====
-- TCPConnection as a byte stream: what is accepted to be sent, and where it stands.
pub mod Send
pub mod Drain
use raner.Common.{
  ℕ, ◌+◌, ◌-◌, ◌≤◌, ◌<◌, ◌≡◌, refl, sym, ap, ◌∙◌, ◌≢◌, subst, ◌⊎◌, inl, inr, Bool, true, false, not,
  List, [], ◌++◌, length, take, drop, ltb, leb, ◌==◌, append-nil, append_assoc, take-append-drop,
  drop_all, length-drop, length-append, le→leb, arith, Bool-cases, List-cases, Outcome, ok, ◌>>=◌,
  Ends, Ends-bind, Ends-map,
}
use raner.Buffer.{ByteBuffer, max_size, sub_size, readable_bytes, bytes_at_read}
use raner.Buffer.Contents.{contents}
use raner.Buffer.Valid.{IsValid, readable-eq-length}
use raner.Buffer.Writes.{write-Leaves}
use raner.Buffer.Reads.{skip_read_bytes-Leaves}
use raner.Socket
use raner.Socket.{Socket, SendResult, sent, send_failed}
use raner.Kernel.{Kernel}
use raner.Epoll.{has_register_write, start_write, stop_write}
use raner.Epoll.Masks.{IsRegistered, start_write-Ends, stop_write-Ends}
use raner.Connection.{
  State, disconnected, connecting, connected, disconnecting, World, Attempt, write_complete,
  set_conn, queue_if, fd_of, on_server, is_writing, write_directly, append_output, buffer_rest,
  send_now, send_in_loop, shutdown_in_loop, after_drain, wrote, handle_write,
}

module _ (os : Kernel) where
  -- EPOLLOUT is asked for exactly while bytes wait in the output buffer.
  pub record IsWell (w : World os) : Type 0 where
    pub out : IsValid w.output_buffer
    pub registered : IsRegistered os (fd_of os w) w.server
    pub writing : is_writing os w ≡ not (length (contents w.output_buffer) == 0)

  -- All that was accepted to be sent: what the kernel has, then what waits.
  abbrev pub stream : World os → List ℕ
  stream w = w.socket.wire ++ contents w.output_buffer

  -- A send that found no error: it accepted some of the first bytes.
  abbrev pub Works : (List ℕ → SendResult) → Type 0
  Works send = (bytes : List ℕ) → (n : ℕ) × (send bytes ≡ sent n) × (n ≤ length bytes)
