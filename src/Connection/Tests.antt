-- ===== src/Connection/Tests.antt =====
-- TCPConnection on a kernel that grants every call.
use raner.Common.{
  IfOk, ℕ, ◌≡◌, refl, List, [], ◌∷◌, length, true, false, none, some, update, arith, Ends, min,
}
use raner.Buffer.{bytes_read}
use raner.Socket.{inet, SendResult, sent}
use raner.Epoll.{has_register_write}
use raner.Epoll.Tests.{granting}
use raner.Connection.{make_connection, connected, World, send_in_loop, handle_write}
use raner.Connection.States.{IsTold}
use raner.Connection.States.Calls.{
  Command, establish, destroy, send, shut, event, run_all, run_all-IsTold,
}
use raner.Connection.Stream.{IsWell, stream, Works}
use raner.Connection.Stream.Send.{send_in_loop-stream}
use raner.Connection.Stream.Drain.{handle_write-stream}

-- Descriptor 3 is registered for reading and writing, since two bytes wait.
abbrev writing : World granting
writing = record {
  conn = record {
    id = 1;
    state = connected;
    reading = true;
    socket = record {
      fd = 3;
      port = 80;
      family = inet;
      socket_error = false;
      wire = 1 ∷ [];
      write_shut = false;
    };
    has_write_complete_callback = true;
    has_high_water_mark_callback = false;
    high_water_mark = 100;
    input_buffer = record { buffer = 0 ∷ []; reader_index = 0; writer_index = 0 };
    output_buffer = record { buffer = 9 ∷ 2 ∷ 3 ∷ 0 ∷ []; reader_index = 1; writer_index = 3 };
    force_close_delay = none;
  };
  server = record {
    cb_map =
        update (λ fd. none) 3
          (some (record {
            cb = some 1;
            linked = false;
            event_mask = 5;
            events_asserted = 4;
            events_to_fake = 0;
            in_use = true;
          }));
    ready_list = [];
    tmp_list = [];
    ready_list_size = 0;
    kernel = update (λ fd. none) 3 (some 29);
    calls = [];
  };
  queue = [];
  upcalls = [];
}

writing-IsWell : IsWell granting writing
unfolding has_register_write
writing-IsWell = record {
  out = record { ordered = omega arith; inside = omega arith; small = omega arith };
  registered = (_, 1, refl, refl);
  writing = refl;
}

-- The kernel takes one byte at a time.
abbrev send_one : List ℕ → SendResult
send_one bytes = sent (min 1 (length bytes))

send_one-Works : Works granting send_one
send_one-Works bytes = (min 1 (length bytes), refl, omega arith)

send_in_loop-stream_example :
    Ends
      (λ w'. IsWell granting w' × (stream granting w' ≡ 1 ∷ 2 ∷ 3 ∷ 4 ∷ 5 ∷ []))
      (send_in_loop granting true send_one (4 ∷ 5 ∷ []) writing)
send_in_loop-stream_example =
    send_in_loop-stream granting true send_one (4 ∷ 5 ∷ []) writing send_one-Works writing-IsWell
      (ground arith) (omega arith)

handle_write-stream_example :
    Ends
      (λ w'. IsWell granting w' × (stream granting w' ≡ 1 ∷ 2 ∷ 3 ∷ []))
      (handle_write granting true send_one writing)
handle_write-stream_example =
    handle_write-stream granting true send_one writing send_one-Works writing-IsWell

-- A connection that has just been made.
abbrev fresh : World granting
fresh = record writing {
  conn = make_connection 1 (record {
    fd = 3;
    port = 80;
    family = inet;
    socket_error = false;
    wire = [];
    write_shut = false;
  });
}

fresh-IsTold : IsTold granting fresh
unfolding make_connection
fresh-IsTold = record { start = refl; end = refl }

-- The peer closes after a message.
abbrev peer_closes : List Command
peer_closes =
    establish
    ∷ send true send_one true (4 ∷ 5 ∷ [])
    ∷ shut true
    ∷ event true (λ room. bytes_read []) send_one 1
    ∷ destroy
    ∷ []

run_all-IsTold_example : IfOk (IsTold granting) (run_all granting peer_closes fresh)
run_all-IsTold_example = run_all-IsTold granting peer_closes fresh fresh-IsTold
