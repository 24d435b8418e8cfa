-- ===== src/Server/Tests.antt =====
-- TCPServer on a kernel that grants every call.
use raner.Common.{List, ◌==◌, if◌then◌else◌, ℕ, ◌≡◌, refl, true, none, some, [], ◌∷◌, Ends, ◌>>=◌}
use raner.Socket.{Socket, make_socket, closed_fd, inet}
use raner.Socket.Setup.{peer_addr, Calls, port_is, Accepted, accepted, accept_failed, emfile}
use raner.Epoll.Tests.{granting, empty_server}
use raner.LoopPool.{LoopPool, get_next_loop}
use raner.Server.{
  ServerWorld, establish, destroy, make_server, new_connection, remove_connection_in_loop,
}
use raner.Server.Deaf.{ebadf, Incoming, IsDeaf, reads, failed_accept_lem}
use raner.Server.Accepting.{made, remove-new_connection}

abbrev no_calls : Calls
no_calls = record {
  resolved = some inet;
  opened = 5;
  flags = some 2;
  set_flags = true;
  bound = none;
  listened = none;
  named = port_is 4000;
  connected = none;
}

abbrev fresh : ServerWorld granting
fresh = record {
  self = make_server 100 true 80 9 1;
  epoll = empty_server;
  posted = [];
  conn_queue = [];
  upcalls = [];
  discards = [];
}

abbrev listening_socket : Socket
listening_socket = record make_socket { fd = 7 }

abbrev two_loops : LoopPool
two_loops = record { base_loop = 1; started = true; loops = 2 ∷ 3 ∷ []; next = 0 }

abbrev serving : ServerWorld granting
serving = record fresh {
  self = record (make_server 100 true 80 9 1) {
    socket = some listening_socket;
    listenning = true;
    pool = two_loops;
  };
}

-- Any descriptor but -1 has a connection to accept.
abbrev one_waits : ℕ → Accepted
one_waits fd = if fd == closed_fd then accept_failed ebadf else accepted 8 inet 4000

abbrev incoming : (ℕ → Accepted) → Incoming
incoming answer = record { accepts = answer; calls = no_calls; peer = none; new_idle_fd = 10 }

abbrev after_emfile : List Incoming
after_emfile = incoming (λ fd. accept_failed emfile) ∷ incoming one_waits ∷ incoming one_waits ∷ []

failed_accept_lem_example :
    Ends (IsDeaf granting true serving) (reads granting true after_emfile serving)
unfolding make_server
failed_accept_lem_example =
    failed_accept_lem granting true emfile (incoming (λ fd. accept_failed emfile))
      (incoming one_waits ∷ incoming one_waits ∷ []) listening_socket serving refl refl refl refl
      (refl, (refl, tt))

remove-new_connection_example :
    Ends
      (λ w'.
        ((name : ℕ) → w'.connections name ≡ none)
        × (w'.next_conn_id ≡ 2)
        × (w'.posted
            ≡ (2, establish 1) ∷ (2, destroy (made granting listening_socket serving)) ∷ []))
      (new_connection granting true none listening_socket serving
        >>= remove_connection_in_loop granting 1)
unfolding make_server get_next_loop peer_addr
remove-new_connection_example =
    remove-new_connection granting true none listening_socket listening_socket serving 2
      (record two_loops { next = 1 }) refl refl refl refl
