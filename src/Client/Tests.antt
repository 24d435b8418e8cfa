-- ===== src/Client/Tests.antt =====
-- TCPClient on a kernel that grants every call.
use raner.Common.{◌*◌, ◌^◌, refl, true, false, none, some, List, [], ◌∷◌, Ends}
use raner.Socket
use raner.Socket.{closed_fd, make_socket, inet}
use raner.Socket.Setup
use raner.Socket.Setup.{Calls, port_is, einprogress}
use raner.Epoll.{epoll_out}
use raner.Epoll.Tests.{granting, empty_server}
use raner.Client.{ClientWorld, make_client}
use raner.Client.Events.{
  Command, begin, event, stop_soon, stop_now, timer_fires, connection_closed, run_all,
}
use raner.Client.Backoff.{Fails, Waits, firings, failures_lem}

abbrev slow_calls : Calls
slow_calls = record {
  resolved = some inet;
  opened = 5;
  flags = some 2;
  set_flags = true;
  bound = none;
  listened = none;
  named = port_is 4000;
  connected = some einprogress;
}

abbrev idle : ClientWorld granting
idle = record {
  client = make_client 9 false 80;
  server = empty_server;
  queue = [];
  conn_queue = [];
  upcalls = [];
}

-- The first attempt fails, the timer starts the next, which succeeds.
abbrev second_attempt : List Command
second_attempt =
    begin true slow_calls
    ∷ event epoll_out 111 0
    ∷ timer_fires slow_calls
    ∷ event epoll_out 0 0
    ∷ connection_closed slow_calls
    ∷ stop_soon
    ∷ stop_now
    ∷ []

-- ECONNREFUSED
abbrev refused_calls : Calls
refused_calls = record slow_calls { connected = some 111 }

refused_calls-Fails : Fails false 80 refused_calls
unfolding Setup.connect Setup.init Setup.resolve Setup.init_internal Setup.set_non_blocking
    Setup.connect_socket Setup.failing Socket.set_socket_error Socket.close make_socket
refused_calls-Fails =
    (record make_socket { fd = closed_fd; port = 80; family = inet; socket_error = true }, refl)

failures_lem_example : Ends (Waits granting (500 * 2 ^ 2)) (
    run_all granting (begin true refused_calls ∷ firings (refused_calls ∷ refused_calls ∷ [])) idle)
unfolding make_client
failures_lem_example =
    failures_lem granting refused_calls (refused_calls ∷ refused_calls ∷ []) idle refl refl
      (refused_calls-Fails, (refused_calls-Fails, (refused_calls-Fails, tt)))
