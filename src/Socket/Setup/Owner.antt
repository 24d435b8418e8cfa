-- ===== src/Socket/Setup/Owner.antt =====
-- A Socket owns a descriptor exactly if opening it succeeded.
use raner.Common.{
  ℕ, ◌≡◌, refl, Bool, true, false, ◌==◌, ◌&&◌, arith, ◌⊎◌, if◌then◌else◌, Bool-cases, Option-cases,
  some, inl, inr, Outcome, ok, fatal, require, ◌>>=◌, ◌>>◌, Ends, Ends-bind,
}
use raner.Socket.{Socket, Family, inet, set_socket_error, close, is_closed}
use raner.Socket.Setup.{
  Calls, Named, port_is, not_named, einprogress, is_tcp, set_non_blocking, init_internal, resolve,
  init, failing, take_port, bind_and_listen, connect_socket, close_unless, listen, connect,
}

close-closed : (k : Socket) → is_closed (close k) ≡ true
unfolding close
close-closed k = ground arith

-- What opening a socket leaves: the descriptor from `socket`, open, or a closed socket.
abbrev pub IsOwner : Calls → Socket × Bool → Type 0
IsOwner calls (k, true) = (k.fd ≡ calls.opened) × (is_closed k ≡ false)
IsOwner calls (k, false) = is_closed k ≡ true

-- Before the last step, a failure may leave the descriptor open.
abbrev MayOwn : Calls → Socket × Bool → Type 0
MayOwn calls (k, true) = (k.fd ≡ calls.opened) × (is_closed k ≡ false)
MayOwn calls (k, false) = Unit {0}

-- `getaddrinfo` finds an address.
abbrev pub Finds : Calls → Type 0
Finds calls = (family : Family) × (calls.resolved ≡ some family)

-- It does for a host that is not empty; for an empty one it is not called.
abbrev pub Resolves : Bool → Calls → Type 0
Resolves true calls = Unit {0}
Resolves false calls = Finds calls

pub Finds-Resolves : (empty_host : Bool) (calls : Calls) → Finds calls → Resolves empty_host calls
Finds-Resolves true calls found = tt
Finds-Resolves false calls found = found

module _ (calls : Calls) where
  close_unless-IsOwner :
      (r : Socket × Bool) → MayOwn calls r → IsOwner calls (close_unless false calls r)
  close_unless-IsOwner (k, true) p = p
  close_unless-IsOwner (k, false) p = close-closed k

  init_internal-MayOwn : (k : Socket) → MayOwn calls (init_internal calls k)
  unfolding init_internal
  init_internal-MayOwn k = elim (Bool-cases (is_closed (record k { fd = calls.opened }))) [
    | inl shut ↦ rw shut tt
    | inr open_now ↦ elim (Bool-cases (set_non_blocking calls)) [
      | inl e ↦ rw (open_now, e) (refl, open_now)
      | inr e ↦ rw (open_now, e) tt
    ]
  ]

  failing-MayOwn : (errno : ℕ) (k : Socket) → Ends (MayOwn calls) (failing false calls errno k)
  unfolding failing set_socket_error
  failing-MayOwn errno k = tt

  resolve-Ends : (k : Socket) → Finds calls → Ends (λ r. Unit {0}) (resolve false calls k)
  unfolding resolve set_socket_error
  resolve-Ends k (family, e) = rw e tt

  after_resolve :
      (r : Socket × Bool)
      → Ends (MayOwn calls) (
          if r.1 then (require (is_tcp r.0.family) fatal >> ok (init_internal calls r.0)) else ok r)
  after_resolve (k, false) = tt
  after_resolve (k, true) = elim (Bool-cases (is_tcp k.family)) [
    | inl tcp ↦ rw tcp (init_internal-MayOwn k)
    | inr other ↦ rw other tt
  ]

  init-MayOwn :
      (empty_host : Bool) (port : ℕ) (k : Socket)
      → Resolves empty_host calls
      → Ends (MayOwn calls) (init false calls empty_host port k)
  unfolding init
  init-MayOwn true port k found = after_resolve (record k { port = port; family = inet }, true)
  init-MayOwn false port k found =
      Ends-bind (λ r. Unit {0}) (MayOwn calls) (resolve false calls (record k { port = port })) _
        (resolve-Ends (record k { port = port }) found) (λ r u. after_resolve r)

  abbrev Opened : Socket → Type 0
  Opened k = (k.fd ≡ calls.opened) × (is_closed k ≡ false)

  Named-cases :
      (n : Named) → ((port : ℕ) × (n ≡ port_is port)) ⊎ ((errno : ℕ) × (n ≡ not_named errno))
  Named-cases (port_is port) = inl (port, refl)
  Named-cases (not_named errno) = inr (errno, refl)

  take_port-MayOwn : (k : Socket) → Opened k → Ends (MayOwn calls) (take_port false calls k)
  unfolding take_port
  take_port-MayOwn k p = elim (Bool-cases (k.port == 0 && is_tcp k.family)) [
    | inr given ↦ rw given p
    | inl asked ↦ elim (Named-cases calls.named) [
      | inl (port, e) ↦ rw (asked, e) p
      | inr (errno, e) ↦ rw (asked, e) (failing-MayOwn errno k)
    ]
  ]

  bind_and_listen-MayOwn :
      (k : Socket) → Opened k → Ends (MayOwn calls) (bind_and_listen false calls k)
  unfolding bind_and_listen
  bind_and_listen-MayOwn k p = elim (Option-cases calls.bound) [
    | inr (errno, e) ↦ rw e (failing-MayOwn errno k)
    | inl e ↦ elim (Option-cases calls.listened) [
      | inr (errno, e') ↦ rw (e, e') (failing-MayOwn errno k)
      | inl e' ↦ rw (e, e') (take_port-MayOwn k p)
    ]
  ]

  connect_socket-MayOwn :
      (k : Socket) → Opened k → Ends (MayOwn calls) (connect_socket false calls k)
  unfolding connect_socket
  connect_socket-MayOwn k p = elim (Option-cases calls.connected) [
    | inl e ↦ rw e p
    | inr (errno, e) ↦ elim (Bool-cases (errno == einprogress)) [
      | inl going ↦ rw (e, going) p
      | inr bad ↦ rw (e, bad) (failing-MayOwn errno k)
    ]
  ]

  -- The second step is made if the first worked; then a failure closes the socket.
  two_steps :
      (first : Outcome (Socket × Bool)) (second : Socket → Outcome (Socket × Bool))
      → Ends (MayOwn calls) first
      → ((k : Socket) → Opened k → Ends (MayOwn calls) (second k))
      → Ends (IsOwner calls) (
          first >>= λ r.
          (if r.1 then second r.0 else ok r) >>= λ r'. ok (close_unless false calls r'))
  two_steps first second p q =
      Ends-bind (MayOwn calls) (IsOwner calls) first
        (λ r. (if r.1 then second r.0 else ok r) >>= λ r'. ok (close_unless false calls r')) p
        then_second
    where
      then_second :
          (r : Socket × Bool)
          → MayOwn calls r
          → Ends
              (IsOwner calls)
              ((if r.1 then second r.0 else ok r) >>= λ r'. ok (close_unless false calls r'))
      then_second (k, false) u = close-closed k
      then_second (k, true) o =
          Ends-bind (MayOwn calls) (IsOwner calls) (second k)
            (λ r'. ok (close_unless false calls r')) (q k o) close_unless-IsOwner

  -- BindAndListen, with debug checks off, if the host is empty or getaddrinfo finds an address of
  -- it, returns, unless the address is of another family than IPv4 and IPv6, which is fatal. On
  -- success the socket holds the descriptor that the system opened; on a failure, whichever of the
  -- later steps failed, it holds none.
  pub listen-IsOwner :
      (empty_host : Bool) (port : ℕ) (k : Socket)
      → Resolves empty_host calls
      → Ends (IsOwner calls) (listen false calls empty_host port k)
  unfolding listen
  listen-IsOwner empty_host port k found =
      two_steps (init false calls empty_host port k) (bind_and_listen false calls)
        (init-MayOwn empty_host port k found) bind_and_listen-MayOwn

  -- Connect, with debug checks off, if the host is empty or getaddrinfo finds an address of it,
  -- returns, unless the address is of another family than IPv4 and IPv6, which is fatal. On
  -- success the socket holds the descriptor that the system opened; on a failure, whichever of the
  -- later steps failed, it holds none.
  pub connect-IsOwner :
      (empty_host : Bool) (port : ℕ) (k : Socket)
      → Resolves empty_host calls
      → Ends (IsOwner calls) (connect false calls empty_host port k)
  unfolding connect
  connect-IsOwner empty_host port k found =
      two_steps (init false calls empty_host port k) (connect_socket false calls)
        (init-MayOwn empty_host port k found) connect_socket-MayOwn
