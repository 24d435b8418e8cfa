-- ===== src/Socket/Setup.antt =====
-- raner/socket.cc: how a Socket is opened for listening or connecting, and how it accepts. What the
-- system calls return is a parameter; an option that is set only for speed is left out.
pub mod Owner
pub mod Failing
use raner.Common.{
  ℕ, ◌^◌, ◌≤◌, ◌<◌, ◌≡◌, refl, sym, ap, ◌∙◌, Bool, true, false, not, Option, none, some, ◌==◌, ◌&&◌,
  leb, ltb, bit_and, arith, if◌then◌else◌, Outcome, ok, fault, fatal, bad_pointer, assertion,
  require, ◌>>=◌, ◌>>◌, Option-cases, Bool-cases, inl, inr,
}
use raner.Socket.{
  Socket, Family, inet, inet6, other_family, close, closed_fd, is_closed, set_socket_error,
}

-- EINPROGRESS
abbrev pub einprogress : ℕ
einprogress = 115

abbrev pub emfile : ℕ
emfile = 24

-- `getsockname`: the port, or an errno.
pub data Named : Type 0 where
  port_is : ℕ → Named
  not_named : ℕ → Named

-- The results of the calls made once each for one socket; an error is the errno.
pub record Calls : Type 0 where
  -- `getaddrinfo`: the family of the first address.
  pub resolved : Option Family
  -- `socket`
  pub opened : ℕ
  -- `fcntl(F_GETFL)`, and whether `fcntl(F_SETFL)` worked.
  pub flags : Option ℕ
  pub set_flags : Bool
  pub bound : Option ℕ
  pub listened : Option ℕ
  pub named : Named
  pub connected : Option ℕ

-- O_NONBLOCK
abbrev pub nonblock : ℕ
nonblock = 2048

unfoldable pub set_non_blocking : Calls → Bool
set_non_blocking calls = elim calls.flags [
  | none ↦ false
  | some flags ↦ if bit_and flags nonblock == 0 then calls.set_flags else true
]

unfoldable pub init_internal : Calls → Socket → Socket × Bool
unfolding set_non_blocking
init_internal calls k =
    let k' = record k { fd = calls.opened } in
    if is_closed k' then (k', false) else (k', set_non_blocking calls)

abbrev pub is_tcp : Family → Bool
is_tcp inet = true
is_tcp inet6 = true
is_tcp other_family = false

module _ (debug : Bool) (calls : Calls) where
  -- After a failure the list is freed by a pointer that was never set.
  unfoldable pub resolve : Socket → Outcome (Socket × Bool)
  unfolding set_socket_error
  resolve k = elim calls.resolved [
    | none ↦ set_socket_error debug 0 k >>= λ k'. fault bad_pointer
    | some family ↦ ok (record k { family = family }, true)
  ]

  -- An empty host is the loopback address.
  unfoldable pub init : Bool → ℕ → Socket → Outcome (Socket × Bool)
  unfolding resolve init_internal
  init empty_host port k =
      (if empty_host
        then ok (record k { port = port; family = inet }, true)
        else resolve (record k { port = port }))
      >>= λ r.
          if r.1 then (require (is_tcp r.0.family) fatal >> ok (init_internal calls r.0)) else ok r

  unfoldable pub failing : ℕ → Socket → Outcome (Socket × Bool)
  unfolding set_socket_error
  failing errno k = set_socket_error debug errno k >>= λ k'. ok (k', false)

  -- `getsockname` is asked for the port where none was given.
  pub take_port : Socket → Outcome (Socket × Bool)
  unfolding failing
  take_port k =
      if k.port == 0 && is_tcp k.family
      then elim calls.named [
        | not_named errno ↦ failing errno k
        | port_is port ↦ ok (record k { port = port }, true)
      ]
      else ok (k, true)

  pub bind_and_listen : Socket → Outcome (Socket × Bool)
  unfolding failing take_port
  bind_and_listen k = elim calls.bound [
    | some errno ↦ failing errno k
    | none ↦ elim calls.listened [ some errno ↦ failing errno k | none ↦ take_port k ]
  ]

  -- The private `connect`; its `DCHECK` on the flags of the descriptor is left out.
  unfoldable pub connect_socket : Socket → Outcome (Socket × Bool)
  unfolding failing
  connect_socket k = elim calls.connected [
    | none ↦ ok (k, true)
    | some errno ↦ if errno == einprogress then ok (k, true) else failing errno k
  ]

  abbrev pub close_unless : Socket × Bool → Socket × Bool
  close_unless r = if r.1 then r else (close r.0, false)

  pub listen : Bool → ℕ → Socket → Outcome (Socket × Bool)
  unfolding init bind_and_listen close
  listen empty_host port k = init empty_host port k >>= λ r.
      (if r.1 then bind_and_listen r.0 else ok r) >>= λ r'. ok (close_unless r')

  unfoldable pub connect : Bool → ℕ → Socket → Outcome (Socket × Bool)
  unfolding init connect_socket close
  connect empty_host port k = init empty_host port k >>= λ r.
      (if r.1 then connect_socket r.0 else ok r) >>= λ r'. ok (close_unless r')

-- What `accept` returned: a descriptor with the peer's family and port, or an errno.
pub data Accepted : Type 0 where
  accepted : ℕ → Family → ℕ → Accepted
  accept_failed : ℕ → Accepted

-- `Accept`, with the listening socket and the new one after it; `calls` are those on the latter.
pub accept : Bool → Accepted → Calls → Socket → Socket → Outcome (Socket × Socket × Bool)
unfolding set_socket_error set_non_blocking
accept debug (accept_failed errno) calls k new_socket =
    set_socket_error debug errno k >>= λ k'. ok (k', new_socket, false)
accept debug (accepted fd family port) calls k new_socket =
    ok (k, record new_socket { fd = fd; port = port; family = family }, set_non_blocking calls)

-- What `GetPeerAddr` does to the socket; `failed` is the errno of a `getpeername` that fails.
unfoldable pub peer_addr : Bool → Option ℕ → Socket → Outcome Socket
peer_addr debug failed k = elim failed [ none ↦ ok k | some errno ↦ set_socket_error debug errno k ]
