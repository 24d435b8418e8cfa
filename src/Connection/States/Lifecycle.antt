-- ===== src/Connection/States/Lifecycle.antt =====
-- The calls that begin and end a connection tell the user of it.
use raner.Common.{
  ◌+◌, ◌≡◌, refl, sym, ap, ◌∙◌, true, false, arith, Outcome, ok, assertion, ◌>>=◌, IfOk, IfOk-bind,
  IfOk-then, IfOk-require, subst,
}
use raner.Kernel.{Kernel}
use raner.Epoll.{EpollServer, register_fd, unregister_fd, epoll_in}
use raner.Connection.{
  State, disconnected, connecting, connected, disconnecting, upcall, connection_callback, set_state,
  fd_of, World, on_server, is_open, is, handle_close, connect_established, connect_destroyed,
}
use raner.Connection.States.{told, started, ended, IsTold, open_state}

module _ (os : Kernel) where
  -- The state is set, the server told, and then the user.
  told_end :
      (f : EpollServer os → Outcome (EpollServer os)) (w : World os)
      → started w.state ≡ 1
      → ended w.state ≡ 0
      → IsTold os w
      → IfOk
          (λ w₂.
            (w₂.state ≡ disconnected) × (told true w₂.upcalls ≡ 1) × (told false w₂.upcalls ≡ 0))
          (on_server os f (set_state os disconnected w))
  told_end f w one none_yet v =
      IfOk-bind
        (λ w₂. (w₂.state ≡ disconnected) × (told true w₂.upcalls ≡ 1) × (told false w₂.upcalls ≡ 0))
        (f w.server) _ (λ t. (refl, v.start ∙ one, v.end ∙ none_yet))

  pub handle_close-IsTold : (w : World os) → IsTold os w → IfOk (IsTold os) (handle_close os w)
  unfolding handle_close
  handle_close-IsTold w v = IfOk-require (IsTold os) (is_open os w.state) assertion _ (λ open_now.
      let (one, none_yet) = open_state os w.state open_now in
      IfOk-then _ (IsTold os)
        (on_server os (unregister_fd os (fd_of os w)) (set_state os disconnected w)) _
        (told_end (unregister_fd os (fd_of os w)) w one none_yet v)
        (λ w₂ (st, start, end). record {
          start = start ∙ ap started (sym st);
          end = ap (λ n. 1 + n) end ∙ ap ended (sym st);
        }))

  pub connect_destroyed-IsTold :
      (w : World os) → IsTold os w → IfOk (IsTold os) (connect_destroyed os w)
  unfolding connect_destroyed
  connect_destroyed-IsTold w v = by_state w.state refl
    where
      same : connect_destroyed os w ≡ ok w → IfOk (IsTold os) (connect_destroyed os w)
      same e = subst (IfOk (IsTold os)) (sym e) v

      closes :
          w.state ≡ connected
          → connect_destroyed os w ≡ (
              on_server os (unregister_fd os (fd_of os w)) (set_state os disconnected w) >>= λ w₂.
              ok (upcall os (connection_callback false) w₂))
      closes e = ground (arith, e)

      by_state : (st : State) → w.state ≡ st → IfOk (IsTold os) (connect_destroyed os w)
      by_state disconnected e = same (ground (arith, e))
      by_state connecting e = same (ground (arith, e))
      by_state disconnecting e = same (ground (arith, e))
      by_state connected e = subst (IfOk (IsTold os)) (sym (closes e)) (
          IfOk-then
            (λ w₂.
              (w₂.state ≡ disconnected) × (told true w₂.upcalls ≡ 1) × (told false w₂.upcalls ≡ 0))
            (IsTold os) (on_server os (unregister_fd os (fd_of os w)) (set_state os disconnected w))
            (λ w₂. ok (upcall os (connection_callback false) w₂))
            (told_end (unregister_fd os (fd_of os w)) w (ap started e) (ap ended e) v)
            (λ w₂ (st, start, end). record {
              start = start ∙ ap started (sym st);
              end = ap (λ n. 1 + n) end ∙ ap ended (sym st);
            }))

  pub connect_established-IsTold :
      (w : World os) → IsTold os w → IfOk (IsTold os) (connect_established os w)
  unfolding connect_established
  connect_established-IsTold w v =
      IfOk-require (IsTold os) (is w.state connecting) assertion _ (λ fresh.
        IfOk-then
          (λ w₂. (w₂.state ≡ connected) × (told true w₂.upcalls ≡ 0) × (told false w₂.upcalls ≡ 0))
          (IsTold os)
          (on_server os (register_fd os (fd_of os w) w.id epoll_in) (set_state os connected w)) _
          (IfOk-bind
            (λ w₂.
              (w₂.state ≡ connected) × (told true w₂.upcalls ≡ 0) × (told false w₂.upcalls ≡ 0))
            (register_fd os (fd_of os w) w.id epoll_in w.server) _
            (λ t. (
              refl,
              v.start ∙ (fresh_state w.state fresh).0,
              v.end ∙ (fresh_state w.state fresh).1,
            )))
          (λ w₂ (st, start, end). record {
            start = ap (λ n. 1 + n) start ∙ ap started (sym st);
            end = end ∙ ap ended (sym st);
          }))
    where
      fresh_state : (st : State) → is st connecting ≡ true → (started st ≡ 0) × (ended st ≡ 0)
      fresh_state disconnected e = cc
      fresh_state connecting e = (refl, refl)
      fresh_state connected e = cc
      fresh_state disconnecting e = cc
