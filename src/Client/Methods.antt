-- ===== src/Client/Methods.antt =====
-- The methods of a TCPClient keep its invariant.
use raner.Common.{
  ◌+◌, ◌≡◌, refl, sym, ap, ◌∙◌, subst, Bool, true, false, Option, none, some, arith, Bool-cases,
  Option-cases, inl, inr, if◌then◌else◌, Outcome, ok, fault, assertion, bad_pointer, require, ◌>>=◌,
  Safe, Safe-bind, Safe-map, require-Safe, Ends-Safe,
}
use raner.Socket
use raner.Socket.{Socket, make_socket}
use raner.Socket.Setup
use raner.Socket.Setup.{Calls}
use raner.Socket.Setup.Owner.{IsOwner, Finds, Finds-Resolves, connect-IsOwner}
use raner.Kernel.{Kernel}
use raner.Epoll.{register_fd, epoll_out}
use raner.Epoll.Invariant.{Inv}
use raner.Epoll.Invariant.Register.{register_fd-Keeps}
use raner.Connection
use raner.Connection.{TcpConnection, World, make_connection, connect_established}
use raner.Connection.Server.{connect_established-Safe, shutdown-server}
use raner.Client.{
  State, disconnected, connecting, connected, is, ClientWorld, set_client, set_state, with_socket,
  on_server, unregister, init_retry_interval_ms, try_again, begin_connecting, connect_in_loop,
  start_in_loop, connect, stop, stop_in_loop, conn_world, back, disconnect, restart, adopt,
  new_connection,
}
use raner.Client.Well.{has, if-Safe, IsWell, on_server-Safe, unregister-Safe, try_again-Safe}

module _ (os : Kernel) where
  begin_connecting-Safe :
      (w : ClientWorld os)
      → IsWell os w
      → has w.socket ≡ true
      → Safe (IsWell os) (begin_connecting os w)
  unfolding begin_connecting
  begin_connecting-Safe w v there = elim (Option-cases w.socket) [
    | inl e ↦ absurd (ground (arith, e, there))
    | inr (k, e) ↦
        let w' = set_state os connecting w in
        let v' : IsWell os w' = record {
          low = v.low;
          high = v.high;
          timer = v.timer;
          there = λ c. there;
          server_inv = v.server_inv;
        } in
        rw (e, Safe)
          (Safe-map (λ u. IsWell os u × (u.client ≡ w'.client)) (IsWell os)
            (on_server os (register_fd os k.fd w.id epoll_out) w') (λ u p. p.0)
            (on_server-Safe os (register_fd os k.fd w.id epoll_out) w'
              (register_fd-Keeps os k.fd w.id epoll_out w.server v.server_inv) v'))
  ]

  connect_in_loop-Safe :
      (calls : Calls) (w : ClientWorld os)
      → Finds calls
      → IsWell os w
      → Safe (IsWell os) (connect_in_loop os false calls w)
  unfolding connect_in_loop
  connect_in_loop-Safe calls w found v =
      Safe-bind (IsOwner calls) (IsWell os)
        (Setup.connect false calls w.empty_host w.port make_socket) _
        (Ends-Safe (IsOwner calls) _ (
          connect-IsOwner calls w.empty_host w.port make_socket
            (Finds-Resolves w.empty_host calls found)))
        (λ r owner.
          let w' = set_client os (record (w.client) { socket = some r.0 }) w in
          let v' : IsWell os w' = record {
            low = v.low;
            high = v.high;
            timer = v.timer;
            there = λ c. refl;
            server_inv = v.server_inv;
          } in
          elim (Bool-cases r.1) [
            | inl good ↦ rw good (begin_connecting-Safe w' v' refl)
            | inr bad ↦ rw bad (try_again-Safe os w' v' refl)
          ])

  pub start_in_loop-Safe :
      (calls : Calls) (w : ClientWorld os)
      → Finds calls
      → IsWell os w
      → Safe (IsWell os) (start_in_loop os false calls w)
  unfolding start_in_loop
  start_in_loop-Safe calls w found v =
      Safe-bind (λ u. Unit {0}) (IsWell os) (require (is w.state disconnected) assertion) _
        (require-Safe (is w.state disconnected))
        (λ u p.
          if-Safe (IsWell os) w.wants (connect_in_loop os false calls w) (ok w)
            (connect_in_loop-Safe calls w found v) v)

  -- A change of the fields that the invariant does not speak of.
  abbrev with_wants : Bool → ClientWorld os → ClientWorld os
  with_wants b w = set_client os (record (w.client) { wants = b }) w

  with_wants-IsWell : (b : Bool) (w : ClientWorld os) → IsWell os w → IsWell os (with_wants b w)
  with_wants-IsWell b w v = record {
    low = v.low;
    high = v.high;
    timer = v.timer;
    there = v.there;
    server_inv = v.server_inv;
  }

  pub connect-Safe :
      (in_loop : Bool) (calls : Calls) (w : ClientWorld os)
      → Finds calls
      → IsWell os w
      → Safe (IsWell os) (connect os in_loop false calls w)
  unfolding connect
  connect-Safe true calls w found v =
      start_in_loop-Safe calls (with_wants true w) found (with_wants-IsWell true w v)
  connect-Safe false calls w found v = record {
    low = v.low;
    high = v.high;
    timer = v.timer;
    there = v.there;
    server_inv = v.server_inv;
  }

  pub stop-IsWell : (w : ClientWorld os) → IsWell os w → IsWell os (stop os w)
  unfolding stop
  stop-IsWell w v = record {
    low = v.low;
    high = v.high;
    timer = v.timer;
    there = v.there;
    server_inv = v.server_inv;
  }

  -- Deregistration, then a step that finds the socket in its place.
  pub then_step :
      (w : ClientWorld os) (f : ClientWorld os → Outcome (ClientWorld os))
      → IsWell os w
      → has w.socket ≡ true
      → ((u : ClientWorld os) → IsWell os u → u.client ≡ w.client → Safe (IsWell os) (f u))
      → Safe (IsWell os) (unregister os w >>= f)
  then_step w f v there k =
      Safe-bind (λ u. IsWell os u × (u.client ≡ w.client)) (IsWell os) (unregister os w) f
        (unregister-Safe os w v there) (λ u p. k u p.0 p.1)

  pub still_there :
      (w u : ClientWorld os) → u.client ≡ w.client → has w.socket ≡ true → has u.socket ≡ true
  still_there w u e there = ap (λ c. has c.socket) e ∙ there

  pub stop_in_loop-Safe : (w : ClientWorld os) → IsWell os w → Safe (IsWell os) (stop_in_loop os w)
  unfolding stop_in_loop
  stop_in_loop-Safe w v = by_state w.state refl
    where
      down : ClientWorld os
      down = set_state os disconnected w

      becomes :
          (m : Outcome (ClientWorld os))
          → stop_in_loop os w ≡ m
          → Safe (IsWell os) m
          → Safe (IsWell os) (stop_in_loop os w)
      becomes m e s = subst (Safe (IsWell os)) (sym e) s

      by_state : (st : State) → w.state ≡ st → Safe (IsWell os) (stop_in_loop os w)
      by_state disconnected e = becomes (ok w) (ground (arith, e)) v
      by_state connected e = becomes (ok w) (ground (arith, e)) v
      by_state connecting e = becomes (unregister os down >>= try_again os) (ground (arith, e)) (
          then_step down (try_again os)
            (record {
              low = v.low;
              high = v.high;
              timer = v.timer;
              there = λ c. v.there e;
              server_inv = v.server_inv;
            })
            (v.there e) (λ u v' same. try_again-Safe os u v' (still_there down u same (v.there e))))

  pub restart-Safe :
      (calls : Calls) (w : ClientWorld os)
      → Finds calls
      → IsWell os w
      → Safe (IsWell os) (restart os false calls w)
  unfolding restart
  restart-Safe calls w found v =
      let w' =
        set_client os
          (record (w.client) {
            state = disconnected;
            retry_interval_ms = init_retry_interval_ms;
            wants = true;
          })
          w in
      let v' : IsWell os w' = record {
        low = omega arith;
        high = omega arith;
        timer = v.timer;
        there = λ c. cc c;
        server_inv = v.server_inv;
      } in
      start_in_loop-Safe calls w' found v'

  pub disconnect-IsWell :
      (in_loop : Bool) (w : ClientWorld os) → IsWell os w → IsWell os (disconnect os in_loop w)
  unfolding disconnect
  disconnect-IsWell in_loop w v = elim (Option-cases w.connection) [
    | inl e ↦ subst (IsWell os) (sym (idle e)) (with_wants-IsWell false w v)
    | inr (c, e) ↦ subst (IsWell os) (sym (shuts c e)) (record {
      low = v.low;
      high = v.high;
      timer = v.timer;
      there = v.there;
      server_inv =
          subst (Inv os) (sym (shutdown-server os in_loop (conn_world os c (with_wants false w))))
            v.server_inv;
    })
  ]
    where
      idle : w.connection ≡ none → disconnect os in_loop w ≡ with_wants false w
      idle e = ground (arith, e)

      shuts :
          (c : TcpConnection)
          → w.connection ≡ some c
          → disconnect os in_loop w
            ≡ back os
                (Connection.shutdown os in_loop (conn_world os c (with_wants false w)))
                (with_wants false w)
      shuts c e = ground (arith, e)

  adopt-Safe :
      (k : Socket) (w : ClientWorld os)
      → IsWell os w
      → w.state ≡ connected
      → Safe (IsWell os) (adopt os k w)
  unfolding adopt
  adopt-Safe k w v up =
      let c = record (make_connection (w.id + w.next_conn_id) k) {
        has_write_complete_callback = w.has_write_complete_callback;
      } in
      let w' =
        set_client os
          (record (w.client) {
            next_conn_id = w.next_conn_id + 1;
            socket = none;
            connection = some c;
          })
          w in
      Safe-bind (λ (u : World os). Inv os u.server) (IsWell os)
        (connect_established os (conn_world os c w')) (λ u. ok (back os u w'))
        (connect_established-Safe os (conn_world os c w') v.server_inv)
        (λ u inv. record {
          low = v.low;
          high = v.high;
          timer = v.timer;
          there = λ now. cc (up, now);
          server_inv = inv;
        })

  -- A step on the socket, which is there.
  with_socket-Safe :
      (w : ClientWorld os) (f : Socket → Outcome (ClientWorld os))
      → has w.socket ≡ true
      → ((k : Socket) → Safe (IsWell os) (f k))
      → Safe (IsWell os) (with_socket os w f)
  with_socket-Safe w f there h = by w.socket there
    where
      by :
          (o : Option Socket)
          → has o ≡ true
          → Safe (IsWell os) (elim o [ none ↦ fault bad_pointer | some k ↦ f k ])
      by none e = cc e
      by (some k) e = h k

  -- What `handleWrite` does once the socket is connected.
  pub connected-Safe :
      (w u : ClientWorld os)
      → IsWell os u
      → has u.socket ≡ true
      → Safe (IsWell os) (
          if w.wants
          then new_connection os (set_state os connected u)
          else with_socket os (set_state os connected u) (λ k. ok (
              set_client os
                (record ((set_state os connected u).client) { socket = some (Socket.close k) })
                (set_state os connected u))))
  unfolding new_connection
  connected-Safe w u v there =
      let up = set_state os connected u in
      let v' : IsWell os up = record {
        low = v.low;
        high = v.high;
        timer = v.timer;
        there = λ c. there;
        server_inv = v.server_inv;
      } in
      if-Safe (IsWell os) w.wants (with_socket os up (λ k. adopt os k up)) _
        (with_socket-Safe up (λ k. adopt os k up) there (λ k. adopt-Safe k up v' refl))
        (with_socket-Safe up
          (λ k. ok (set_client os (record (up.client) { socket = some (Socket.close k) }) up)) there
          (λ k. record {
            low = v.low;
            high = v.high;
            timer = v.timer;
            there = λ c. refl;
            server_inv = v.server_inv;
          }))
