-- ===== src/Server/Deaf.antt =====
-- A TCPServer whose accept has failed once.
use raner.Common.{
  ℕ, ◌≡◌, refl, sym, ap, ◌∙◌, subst, Bool, true, false, not, ◌||◌, Option, some, List, [], ◌∷◌,
  ◌==◌, arith, Bool-cases, inl, inr, Outcome, ok, ◌>>=◌, Ends, Ends-bind,
}
use raner.Socket.{Socket, make_socket, eagain, is_closed, closed_fd}
use raner.Socket.Setup.{Calls, Accepted, accept, accept_failed, emfile}
use raner.Socket.Setup.Failing.{accept_failed_lem, accept_closed_lem}
use raner.Kernel.{Kernel}
use raner.Server.{ServerWorld, with_socket, make_room, handle_read}

-- EBADF
abbrev pub ebadf : ℕ
ebadf = 9

-- What the system answers when the server is told of a connection: to `accept` on a descriptor, and
-- to the calls after it.
pub record Incoming : Type 0 where
  pub accepts : ℕ → Accepted
  pub calls : Calls
  pub peer : Option ℕ
  pub new_idle_fd : ℕ

-- `accept` fails with EBADF on -1.
abbrev pub KnowsClosed : Incoming → Type 0
KnowsClosed i = i.accepts closed_fd ≡ accept_failed ebadf

abbrev pub AllKnow : List Incoming → Type 0
AllKnow [] = Unit {0}
AllKnow (i ∷ rest) = KnowsClosed i × AllKnow rest

module _ (os : Kernel) (debug : Bool) where
  pub reads : List Incoming → ServerWorld os → Outcome (ServerWorld os)
  reads [] w = ok w
  reads (i ∷ rest) w =
      with_socket os w (λ k. handle_read os debug (i.accepts k.fd) i.calls i.peer i.new_idle_fd w)
      >>= reads rest

  -- The server has the connections that it had in `w`, and none can come.
  pub record IsDeaf (w w' : ServerWorld os) : Type 0 where
    pub same_connections : w'.connections ≡ w.connections
    pub same_next : w'.next_conn_id ≡ w.next_conn_id
    pub same_listenning : w'.listenning ≡ w.listenning
    pub same_posted : w'.posted ≡ w.posted
    pub closed : (k : Socket) × (w'.socket ≡ some k) × (k.fd ≡ closed_fd)

  -- A failed `accept` that leaves the socket closed.
  failed_step :
      (errno : ℕ) (i : Incoming) (k k' : Socket) (w w' : ServerWorld os)
      → w'.socket ≡ some k
      → k'.fd ≡ closed_fd
      → accept debug (accept_failed errno) i.calls k make_socket ≡ ok (k', make_socket, false)
      → w'.connections ≡ w.connections
      → w'.next_conn_id ≡ w.next_conn_id
      → w'.listenning ≡ w.listenning
      → w'.posted ≡ w.posted
      → Ends (IsDeaf w) (handle_read os debug (accept_failed errno) i.calls i.peer i.new_idle_fd w')
  unfolding handle_read make_room
  failed_step errno i k k' w w' at shut e c n l p =
      rw (at, e)
        (elim (Bool-cases (errno == emfile)) [
          | inl full ↦ rw full (record {
            same_connections = c;
            same_next = n;
            same_listenning = l;
            same_posted = p;
            closed = (k', refl, shut);
          })
          | inr other ↦ rw other (record {
            same_connections = c;
            same_next = n;
            same_listenning = l;
            same_posted = p;
            closed = (k', refl, shut);
          })
        ])

  reads-IsDeaf :
      (incoming : List Incoming) (w w' : ServerWorld os)
      → AllKnow incoming
      → IsDeaf w w'
      → Ends (IsDeaf w) (reads incoming w')
  unfolding reads
  reads-IsDeaf [] w w' knows d = d
  reads-IsDeaf (i ∷ rest) w w' (knows, others) d =
      let (k, at, gone) = d.closed in
      let (k', e, shut) = accept_closed_lem debug ebadf i.calls k make_socket (ground arith) gone in
      let fails : i.accepts k.fd ≡ accept_failed ebadf = ap i.accepts gone ∙ knows in
      let step : Outcome (ServerWorld os) =
        handle_read os debug (accept_failed ebadf) i.calls i.peer i.new_idle_fd w' in
      let same : with_socket os w'
            (λ k. handle_read os debug (i.accepts k.fd) i.calls i.peer i.new_idle_fd w')
          ≡ step =
        rw (at, fails) refl in
      subst (λ m. Ends (IsDeaf w) (m >>= reads rest)) (sym same)
        (Ends-bind (IsDeaf w) (IsDeaf w) step (reads rest)
          (failed_step ebadf i k k' w w' at shut e d.same_connections d.same_next d.same_listenning
            d.same_posted)
          (λ w₁ d₁. reads-IsDeaf rest w w₁ others d₁))

  -- Once an accept has failed on a server that listens, in a debug build with another errno than
  -- EAGAIN, the listening socket is closed, and whatever the server is told to read after that, on
  -- a system where accept fails with EBADF on descriptor -1: the calls return, the server has the
  -- connections that it had, makes and posts no other, and still takes itself to listen.
  pub failed_accept_lem :
      (errno : ℕ) (first : Incoming) (rest : List Incoming) (k : Socket) (w : ServerWorld os)
      → w.socket ≡ some k
      → is_closed k ≡ false
      → first.accepts k.fd ≡ accept_failed errno
      → (not debug || not (errno == eagain)) ≡ true
      → AllKnow rest
      → Ends (IsDeaf w) (reads (first ∷ rest) w)
  unfolding reads
  failed_accept_lem errno first rest k w at live fails pass others =
      let (k', e, shut) = accept_failed_lem debug errno first.calls k make_socket pass live in
      let step : Outcome (ServerWorld os) =
        handle_read os debug (accept_failed errno) first.calls first.peer first.new_idle_fd w in
      let same : with_socket os w (λ k.
        handle_read os debug (first.accepts k.fd) first.calls first.peer first.new_idle_fd w)
          ≡ step =
        rw (at, fails) refl in
      subst (λ m. Ends (IsDeaf w) (m >>= reads rest)) (sym same)
        (Ends-bind (IsDeaf w) (IsDeaf w) step (reads rest)
          (failed_step errno first k k' w w at shut e refl refl refl refl)
          (λ w₁ d₁. reads-IsDeaf rest w w₁ others d₁))
