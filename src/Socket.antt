-- ===== src/Socket.antt =====
-- raner/socket.cc: the part of the class Socket that the connections use. A descriptor is the bit
-- pattern of an `int`. `wire` is what the kernel accepted from `send`, oldest first, and
-- `write_shut` whether the write side was shut down: the effects of the calls on the peer.
pub mod Setup
pub mod Transfer
mod Tests
use raner.Common.{
  ℕ, ◌-◌, ◌^◌, ◌≡◌, Bool, true, false, not, List, [], ◌++◌, take, leb, ◌==◌, ◌||◌, if◌then◌else◌,
  arith, Outcome, ok, assertion, require, ◌>>=◌, ◌>>◌,
}

-- -1
abbrev pub closed_fd : ℕ
closed_fd = 2 ^ 32 - 1

-- EWOULDBLOCK has the same value.
abbrev pub eagain : ℕ
eagain = 11

abbrev pub epipe : ℕ
epipe = 32

abbrev pub econnreset : ℕ
econnreset = 104

pub data Family : Type 0 where
  inet inet6 other_family : Family

pub record Socket : Type 0 where
  pub fd : ℕ
  pub port : ℕ
  pub family : Family
  pub socket_error : Bool
  pub wire : List ℕ
  pub write_shut : Bool

abbrev pub is_closed : Socket → Bool
is_closed k = leb (2 ^ 31) k.fd

-- The constructor.
unfoldable pub make_socket : Socket
make_socket = record {
  fd = closed_fd;
  port = 0;
  family = inet;
  socket_error = false;
  wire = [];
  write_shut = false;
}

unfoldable pub close : Socket → Socket
close k = if is_closed k then k else record k { fd = closed_fd }

-- `setSocketError`; its `DCHECK`s are compiled into debug builds only.
unfoldable pub set_socket_error : Bool → ℕ → Socket → Outcome Socket
unfolding close
set_socket_error debug errno k = do
  require (not debug || not (errno == eagain)) assertion
  ok (close (record k { socket_error = true }))

-- What `send` returned, `HANDLE_EINTR` done: so many of the first bytes were accepted, or an errno.
pub data SendResult : Type 0 where
  sent : ℕ → SendResult
  send_failed : ℕ → SendResult

-- `Write`; `NonBlockingWrite` is the same with one more `DCHECK`.
pub write : Bool → (List ℕ → SendResult) → List ℕ → Socket → Outcome (Socket × SendResult)
unfolding set_socket_error
write debug send bytes k = elim (send bytes) [
  | sent n ↦ ok (record k { wire = k.wire ++ take n bytes }, sent n)
  | send_failed errno ↦ set_socket_error debug errno k >>= λ k'. ok (k', send_failed errno)
]

pub shutdown_write : Socket → Socket
shutdown_write k = if is_closed k then k else record k { write_shut = true }

pub write_sent :
    (debug : Bool) (send : List ℕ → SendResult) (bytes : List ℕ) (k : Socket) (n : ℕ)
    → send bytes ≡ sent n
    → write debug send bytes k ≡ ok (record k { wire = k.wire ++ take n bytes }, sent n)
unfolding write
write_sent debug send bytes k n e = rw (e, write)

pub shutdown_write_lem :
    (k : Socket) → ((shutdown_write k).fd ≡ k.fd) × ((shutdown_write k).wire ≡ k.wire)
unfolding shutdown_write
shutdown_write_lem k = ground arith
