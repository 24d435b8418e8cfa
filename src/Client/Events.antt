-- ===== src/Client/Events.antt =====
-- Any sequence of calls, events and queued functors of a TCPClient.
use raner.Common.{ℕ, Bool, true, false, none, some, List, [], ◌∷◌, Outcome, ok, ◌>>=◌}
use raner.Socket
use raner.Socket.{Socket, make_socket}
use raner.Socket.Setup.{Calls}
use raner.Socket.Setup.Owner.{Finds}
use raner.Kernel.{Kernel}
use raner.Client.{
  ClientWorld, set_client, start_in_loop, connect, stop, stop_in_loop, disconnect,
  remove_connection, on_event,
}

-- A call of a method, a functor that the loop runs, the timer, or an event, with the answers of the
-- system.
pub data Command : Type 0 where
  begin : Bool → Calls → Command
  begin_now : Calls → Command
  stop_soon : Command
  stop_now : Command
  hang_up : Bool → Command
  timer_fires : Calls → Command
  connection_closed : Calls → Command
  event : ℕ → ℕ → ℕ → Command

-- Where an attempt to connect is made, the host has an address.
abbrev pub Resolved : Command → Type 0
Resolved (begin in_loop calls) = Finds calls
Resolved (begin_now calls) = Finds calls
Resolved stop_soon = Unit {0}
Resolved stop_now = Unit {0}
Resolved (hang_up in_loop) = Unit {0}
Resolved (timer_fires calls) = Finds calls
Resolved (connection_closed calls) = Finds calls
Resolved (event in_events write_answer error_answer) = Unit {0}

abbrev pub AllResolved : List Command → Type 0
AllResolved [] = Unit {0}
AllResolved (c ∷ cs) = Resolved c × AllResolved cs

module _ (os : Kernel) where
  -- The timer is no longer set when it calls back.
  unfoldable pub run : Command → ClientWorld os → Outcome (ClientWorld os)
  run (begin in_loop calls) w = connect os in_loop false calls w
  run (begin_now calls) w = start_in_loop os false calls w
  run stop_soon w = ok (stop os w)
  run stop_now w = stop_in_loop os w
  run (hang_up in_loop) w = ok (disconnect os in_loop w)
  run (timer_fires calls) w =
      connect os true false calls
        (set_client os (record (w.client) { reconnect_timer = some none }) w)
  run (connection_closed calls) w = remove_connection os false calls w
  run (event in_events write_answer error_answer) w =
      on_event os in_events write_answer error_answer w

  unfoldable pub run_all : List Command → ClientWorld os → Outcome (ClientWorld os)
  unfolding run
  run_all [] w = ok w
  run_all (c ∷ cs) w = run c w >>= run_all cs
