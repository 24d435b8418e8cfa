-- ===== src/Connection/States/Calls.antt =====
-- Any sequence of calls of a TCPConnection, its events and its queued functors.
use raner.Common.{
  ℕ, ◌≡◌, refl, sym, subst, inl, inr, Bool, true, not, List, [], ◌∷◌, Bool-cases, arith, ◌||◌,
  Outcome, ok, ◌>>=◌, IfOk, IfOk-then,
}
use raner.Buffer.{ReadResult}
use raner.Socket.{SendResult}
use raner.Kernel.{Kernel}
use raner.Epoll.{start_read, stop_read, has_register_read}
use raner.Connection.{
  State, disconnected, connecting, connected, disconnecting, World, queue_in_loop, send_later,
  fd_of, on_server, is_open, send_in_loop, send_bytes, shutdown_in_loop, shutdown, force_close,
  force_close_with_delay, force_close_in_loop, handle_close, start_read_in_loop, stop_read_in_loop,
  connect_established, connect_destroyed, on_event,
}
use raner.Connection.States.Events.{IfOk-IsTold, on_event-IsTold}
use raner.Connection.States.{open_state, IsTold, Still, Still-refl, Still-IsTold, on_server-Still}
use raner.Connection.States.Sends.{send_in_loop-Still, shutdown_in_loop-Still, shutdown-Still}
use raner.Connection.States.Lifecycle.{
  handle_close-IsTold, connect_destroyed-IsTold, connect_established-IsTold,
}

-- A call of a method, a functor that the loop runs, or an event.
pub data Command : Type 0 where
  establish : Command
  destroy : Command
  send : Bool → (List ℕ → SendResult) → Bool → List ℕ → Command
  send_now : Bool → (List ℕ → SendResult) → List ℕ → Command
  shut : Bool → Command
  shut_now : Command
  force : Command
  force_after : ℕ → Command
  force_now : Command
  read_on : Command
  read_off : Command
  event : Bool → (ℕ → ReadResult) → (List ℕ → SendResult) → ℕ → Command

module _ (os : Kernel) where
  pub run : Command → World os → Outcome (World os)
  run establish w = connect_established os w
  run destroy w = connect_destroyed os w
  run (send debug f in_loop bytes) w = send_bytes os debug f in_loop bytes w
  run (send_now debug f bytes) w = send_in_loop os debug f bytes w
  run (shut in_loop) w = ok (shutdown os in_loop w)
  run shut_now w = ok (shutdown_in_loop os w)
  run force w = ok (force_close os w)
  run (force_after delay) w = ok (force_close_with_delay os delay w)
  run force_now w = force_close_in_loop os w
  run read_on w = start_read_in_loop os w
  run read_off w = stop_read_in_loop os w
  run (event debug readv f in_events) w = on_event os debug readv f in_events w

  pub run_all : List Command → World os → Outcome (World os)
  unfolding run
  run_all [] w = ok w
  run_all (c ∷ cs) w = run c w >>= run_all cs

  send_bytes-Still :
      (debug : Bool) (f : List ℕ → SendResult) (in_loop : Bool) (bytes : List ℕ) (w : World os)
      → IfOk (Still os w) (send_bytes os debug f in_loop bytes w)
  unfolding send_bytes
  send_bytes-Still debug f in_loop bytes w = by_state w.state refl
    where
      becomes :
          (m : Outcome (World os))
          → send_bytes os debug f in_loop bytes w ≡ m
          → IfOk (Still os w) m
          → IfOk (Still os w) (send_bytes os debug f in_loop bytes w)
      becomes m same s = subst (IfOk (Still os w)) (sym same) s

      by_state :
          (st : State) → w.state ≡ st → IfOk (Still os w) (send_bytes os debug f in_loop bytes w)
      by_state disconnected e = becomes (ok w) (ground (arith, e)) (Still-refl os w)
      by_state connecting e = becomes (ok w) (ground (arith, e)) (Still-refl os w)
      by_state disconnecting e = becomes (ok w) (ground (arith, e)) (Still-refl os w)
      by_state connected e = elim (Bool-cases in_loop) [
        | inl here ↦
            becomes (send_in_loop os debug f bytes w) (ground (arith, e, here))
              (send_in_loop-Still os debug f bytes w)
        | inr away ↦
            becomes (ok (queue_in_loop os (send_later bytes) w)) (ground (arith, e, away))
              (record { same_start = refl; same_end = refl; same_told = λ b. refl })
      ]

  force_close-Still : (w : World os) → Still os w (force_close os w)
  unfolding force_close
  force_close-Still w = elim (Bool-cases (is_open os w.state)) [
    | inl e ↦
        let (one, none_yet) = open_state os w.state e in
        rw e (record { same_start = sym one; same_end = sym none_yet; same_told = λ b. refl })
    | inr e ↦ rw e (Still-refl os w)
  ]

  force_close_with_delay-Still :
      (delay : ℕ) (w : World os) → Still os w (force_close_with_delay os delay w)
  unfolding force_close_with_delay
  force_close_with_delay-Still delay w = elim (Bool-cases (is_open os w.state)) [
    | inl e ↦
        let (one, none_yet) = open_state os w.state e in
        rw e (record { same_start = sym one; same_end = sym none_yet; same_told = λ b. refl })
    | inr e ↦ rw e (Still-refl os w)
  ]

  force_close_in_loop-IsTold :
      (w : World os) → IsTold os w → IfOk (IsTold os) (force_close_in_loop os w)
  unfolding force_close_in_loop
  force_close_in_loop-IsTold w v = elim (Bool-cases (is_open os w.state)) [
    | inl e ↦ subst (IfOk (IsTold os)) (sym (closes e)) (handle_close-IsTold os w v)
    | inr e ↦ rw e v
  ]
    where
      closes : is_open os w.state ≡ true → force_close_in_loop os w ≡ handle_close os w
      closes e = ground (arith, e)

  start_read_in_loop-Still : (w : World os) → IfOk (Still os w) (start_read_in_loop os w)
  unfolding start_read_in_loop
  start_read_in_loop-Still w =
      elim (Bool-cases (not w.reading || not (has_register_read os (fd_of os w) w.server))) [
        | inl e ↦ rw e (
            IfOk-then (Still os w) (Still os w) (on_server os (start_read os (fd_of os w)) w) _
              (on_server-Still os (start_read os (fd_of os w)) w w (Still-refl os w))
              (λ w' s. record {
                same_start = s.same_start;
                same_end = s.same_end;
                same_told = s.same_told;
              }))
        | inr e ↦ rw e (Still-refl os w)
      ]

  stop_read_in_loop-Still : (w : World os) → IfOk (Still os w) (stop_read_in_loop os w)
  unfolding stop_read_in_loop
  stop_read_in_loop-Still w =
      elim (Bool-cases (w.reading || has_register_read os (fd_of os w) w.server)) [
        | inl e ↦ rw e (
            IfOk-then (Still os w) (Still os w) (on_server os (stop_read os (fd_of os w)) w) _
              (on_server-Still os (stop_read os (fd_of os w)) w w (Still-refl os w))
              (λ w' s. record {
                same_start = s.same_start;
                same_end = s.same_end;
                same_told = s.same_told;
              }))
        | inr e ↦ rw e (Still-refl os w)
      ]

  run-IsTold : (c : Command) (w : World os) → IsTold os w → IfOk (IsTold os) (run c w)
  unfolding run
  run-IsTold establish w v = connect_established-IsTold os w v
  run-IsTold destroy w v = connect_destroyed-IsTold os w v
  run-IsTold (send debug f in_loop bytes) w v =
      IfOk-IsTold os w _ v (send_bytes-Still debug f in_loop bytes w)
  run-IsTold (send_now debug f bytes) w v =
      IfOk-IsTold os w _ v (send_in_loop-Still os debug f bytes w)
  run-IsTold (shut in_loop) w v = Still-IsTold os (shutdown-Still os in_loop w) v
  run-IsTold shut_now w v = Still-IsTold os (shutdown_in_loop-Still os w w (Still-refl os w)) v
  run-IsTold force w v = Still-IsTold os (force_close-Still w) v
  run-IsTold (force_after delay) w v = Still-IsTold os (force_close_with_delay-Still delay w) v
  run-IsTold force_now w v = force_close_in_loop-IsTold w v
  run-IsTold read_on w v = IfOk-IsTold os w _ v (start_read_in_loop-Still w)
  run-IsTold read_off w v = IfOk-IsTold os w _ v (stop_read_in_loop-Still w)
  run-IsTold (event debug readv f in_events) w v = on_event-IsTold os debug readv f in_events w v

  -- After any sequence of calls of a connection's methods, queued functors and events, whatever
  -- the system answers, if the process is still up: the user has been told of the start if and
  -- only if the connection has left the state connecting, of the end if and only if it is
  -- disconnected, and of neither twice, provided this held before.
  pub run_all-IsTold :
      (cs : List Command) (w : World os) → IsTold os w → IfOk (IsTold os) (run_all cs w)
  unfolding run_all
  run_all-IsTold [] w v = v
  run_all-IsTold (c ∷ cs) w v =
      IfOk-then (IsTold os) (IsTold os) (run c w) (run_all cs) (run-IsTold c w v)
        (λ w' v'. run_all-IsTold cs w' v')
