-- ===== src/Socket/Setup/Failing.antt =====
-- A failed `Accept` that the debug checks let pass.
use raner.Common.{ℕ, ◌≡◌, refl, Bool, false, true, not, ◌||◌, ◌==◌, arith, ok}
use raner.Socket.{Socket, eagain, close, is_closed, closed_fd, set_socket_error}
use raner.Socket.Setup.{Calls, accept, accept_failed}

-- It closes the socket that listens.
pub accept_failed_lem :
    (debug : Bool) (errno : ℕ) (calls : Calls) (k new_socket : Socket)
    → (not debug || not (errno == eagain)) ≡ true
    → is_closed k ≡ false
    → (k' : Socket) × (accept debug (accept_failed errno) calls k new_socket
        ≡ ok (k', new_socket, false))
      × (k'.fd ≡ closed_fd)
unfolding accept set_socket_error close
accept_failed_lem debug errno calls k new_socket pass live =
    (close (record k { socket_error = true }), rw pass refl, ground (arith, live))

-- On a socket that is closed already.
pub accept_closed_lem :
    (debug : Bool) (errno : ℕ) (calls : Calls) (k new_socket : Socket)
    → (not debug || not (errno == eagain)) ≡ true
    → k.fd ≡ closed_fd
    → (k' : Socket) × (accept debug (accept_failed errno) calls k new_socket
        ≡ ok (k', new_socket, false))
      × (k'.fd ≡ closed_fd)
unfolding accept set_socket_error close
accept_closed_lem debug errno calls k new_socket pass gone =
    (close (record k { socket_error = true }), rw pass refl, ground (arith, gone))
