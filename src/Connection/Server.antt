-- ===== src/Connection/Server.antt =====
-- What a TCPConnection does to the EpollServer of its loop.
use raner.Common.{
  ◌≡◌, refl, Bool, true, false, Outcome, ok, fault, fatal, assertion, length_error, bad_pointer,
  require, ◌>>=◌, Safe, Safe-bind, Bool-cases, inl, inr, arith,
}
use raner.Kernel.{Kernel}
use raner.Epoll.{EpollServer, register_fd, epoll_in}
use raner.Epoll.Invariant.{Inv, Keeps, Returns}
use raner.Epoll.Invariant.Register.{register_fd-Keeps}
use raner.Connection.{
  State, disconnected, connecting, connected, disconnecting, is, World, on_server, set_state, fd_of,
  connection_callback, upcall, connect_established, shutdown, shutdown_in_loop, is_writing,
}

module _ (os : Kernel) where
  on_server-Safe :
      (f : EpollServer os → Outcome (EpollServer os)) (w : World os)
      → Returns os (Keeps os w.server) (f w.server)
      → Safe (λ w'. Inv os w'.server) (on_server os f w)
  on_server-Safe f w r = by (f w.server) r
    where
      by :
          (m : Outcome (EpollServer os))
          → Returns os (Keeps os w.server) m
          → Safe (λ w'. Inv os w'.server) (m >>= λ s. ok (record w { server = s }))
      by (ok s) k = k.inv
      by (fault fatal) k = tt
      by (fault assertion) k = tt
      by (fault length_error) k = absurd k
      by (fault bad_pointer) k = absurd k

  pub connect_established-Safe :
      (w : World os) → Inv os w.server → Safe (λ w'. Inv os w'.server) (connect_established os w)
  unfolding connect_established
  connect_established-Safe w v =
      Safe-bind (λ u. Unit {0}) (λ w'. Inv os w'.server) (require (is w.state connecting) assertion)
        (λ u.
          on_server os (register_fd os (fd_of os w) w.id epoll_in) (set_state os connected w)
          >>= λ w₂. ok (upcall os (connection_callback true) w₂))
        (fresh (is w.state connecting))
        (λ u p.
          Safe-bind (λ w₂. Inv os w₂.server) (λ w'. Inv os w'.server)
            (on_server os (register_fd os (fd_of os w) w.id epoll_in) (set_state os connected w))
            (λ w₂. ok (upcall os (connection_callback true) w₂))
            (on_server-Safe (register_fd os (fd_of os w) w.id epoll_in) (set_state os connected w)
              (register_fd-Keeps os (fd_of os w) w.id epoll_in w.server v))
            (λ w₂ i. i))
    where
      fresh : (b : Bool) → Safe (λ u. Unit {0}) (require b assertion)
      fresh true = tt
      fresh false = tt

  shutdown_in_loop-server : (w : World os) → (shutdown_in_loop os w).server ≡ w.server
  unfolding shutdown_in_loop
  shutdown_in_loop-server w = elim (Bool-cases (is_writing os w)) [
    | inl e ↦ rw e refl
    | inr e ↦ rw e refl
  ]

  pub shutdown-server : (in_loop : Bool) (w : World os) → (shutdown os in_loop w).server ≡ w.server
  unfolding shutdown
  shutdown-server in_loop w = by_state w.state refl
    where
      by_state : (st : State) → w.state ≡ st → (shutdown os in_loop w).server ≡ w.server
      by_state disconnected e = ground (arith, e)
      by_state connecting e = ground (arith, e)
      by_state disconnecting e = ground (arith, e)
      by_state connected e =
          ground (arith, e, shutdown_in_loop-server (set_state os disconnecting w))
