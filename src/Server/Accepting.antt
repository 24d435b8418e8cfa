-- ===== src/Server/Accepting.antt =====
-- What TCPServer does with a connection from the accept to its removal.
use raner.Common.{
  ℕ, ◌+◌, ◌≡◌, refl, sym, ap, subst, Bool, false, Option, none, some, [], ◌∷◌, ◌++◌, append_assoc,
  ◌==◌, ==_refl, ==_iff, ◌∙◌, update, arith, Bool-cases, inl, inr, if◌then◌else◌, ok, ◌>>=◌, Ends,
}
use raner.Socket.{Socket}
use raner.Socket.Setup.{peer_addr}
use raner.Kernel.{Kernel}
use raner.Connection.{TcpConnection, make_connection}
use raner.LoopPool.{LoopPool, get_next_loop}
use raner.Server.{
  Held, ServerWorld, establish, destroy, set_self, post, hold, new_connection,
  remove_connection_in_loop,
}

module _ (os : Kernel) where
  -- The connection that `newConnection` makes.
  abbrev pub made : Socket → ServerWorld os → TcpConnection
  made client_socket w = record (make_connection (w.id + w.next_conn_id) client_socket) {
    has_write_complete_callback = w.has_write_complete_callback;
  }

  -- The entry that is made for it, by a loop.
  abbrev entry : ℕ → Socket → ServerWorld os → Held
  entry loop client_socket w = record { loop = loop; conn = made client_socket w }

  -- The server once the connection has been handed to another loop.
  handed_over : ℕ → LoopPool → Socket → ServerWorld os → ServerWorld os
  handed_over loop p client_socket w = post os loop (establish w.next_conn_id) (
      set_self os
        (record (w.self) {
          pool = p;
          connections = update w.connections w.next_conn_id (some (entry loop client_socket w));
          next_conn_id = w.next_conn_id + 1;
        })
        w)

  new_connection_lem :
      (debug : Bool) (peer : Option ℕ) (client_socket k : Socket) (w : ServerWorld os) (loop : ℕ)
      (p : LoopPool)
      → peer_addr debug peer client_socket ≡ ok k
      → get_next_loop w.pool ≡ ok (loop, p)
      → (loop == p.base_loop) ≡ false
      → new_connection os debug peer client_socket w ≡ ok (handed_over loop p k w)
  unfolding new_connection hold handed_over
  new_connection_lem debug peer client_socket k w loop p named next away =
      rw (next, named, away) refl

  remove_lem :
      (name : ℕ) (h : Held) (w : ServerWorld os)
      → w.connections name ≡ some h
      → remove_connection_in_loop os name w
        ≡ ok (
            post os h.loop
              (destroy h.conn)
              (set_self os (record (w.self) { connections = update w.connections name none }) w))
  unfolding remove_connection_in_loop
  remove_lem name h w e = ground (arith, e)

  -- A connection that newConnection hands to another loop, where GetPeerAddr passes its debug
  -- check, under a fresh name and that is removed next leaves the table of connections as it was
  -- and the next name one further, and its loop is posted the start of the connection before its
  -- end.
  pub remove-new_connection :
      (debug : Bool) (peer : Option ℕ) (client_socket k : Socket) (w : ServerWorld os) (loop : ℕ)
      (p : LoopPool)
      → peer_addr debug peer client_socket ≡ ok k
      → get_next_loop w.pool ≡ ok (loop, p)
      → (loop == p.base_loop) ≡ false
      → w.connections w.next_conn_id ≡ none
      → Ends
          (λ w'.
            ((name : ℕ) → w'.connections name ≡ w.connections name)
            × (w'.next_conn_id ≡ w.next_conn_id + 1)
            × (w'.posted
                ≡ w.posted ++ (loop, establish w.next_conn_id) ∷ (loop, destroy (made k w)) ∷ []))
          (new_connection os debug peer client_socket w
            >>= remove_connection_in_loop os w.next_conn_id)
  unfolding handed_over
  remove-new_connection debug peer client_socket k w loop p named next away fresh =
      let w₁ = handed_over loop p k w in
      let held : w₁.connections w.next_conn_id ≡ some (entry loop k w) =
        ap (λ b. if b then some (entry loop k w) else w.connections w.next_conn_id)
          (==_refl w.next_conn_id) in
      subst (Ends Left)
        (sym (
          ap (λ m. m >>= remove_connection_in_loop os w.next_conn_id)
            (new_connection_lem debug peer client_socket k w loop p named next away)
          ∙ remove_lem w.next_conn_id (entry loop k w) w₁ held))
        (
          same,
          refl,
          append_assoc w.posted ((loop, establish w.next_conn_id) ∷ [])
              ((loop, destroy (made k w)) ∷ []),
        )
    where
      Left : ServerWorld os → Type 0
      Left w' =
          ((name : ℕ) → w'.connections name ≡ w.connections name)
          × (w'.next_conn_id ≡ w.next_conn_id + 1)
          × (w'.posted
              ≡ w.posted ++ (loop, establish w.next_conn_id) ∷ (loop, destroy (made k w)) ∷ [])

      same :
          (name : ℕ)
          → (if name == w.next_conn_id
              then none
              else (if name == w.next_conn_id then some (entry loop k w) else w.connections name))
            ≡ w.connections name
      same name = elim (Bool-cases (name == w.next_conn_id)) [
        | inl e ↦ rw e (sym (ap w.connections ((==_iff name w.next_conn_id).0 e) ∙ fresh))
        | inr e ↦ rw e refl
      ]
