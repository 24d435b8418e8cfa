-- ===== src/Epoll/Tests.antt =====
-- EpollServer on a kernel that grants every call.
use raner.Common.{
  ℕ, ◌≡◌, refl, sym, ap, true, false, Option, none, some, List, [], ◌∷◌, Table, update, arith,
}
use raner.Kernel.{Kernel, watched_mask}
use raner.Epoll.{
  on_modification, CbAndEventMask, EpollServer, epoll_in, epoll_out, has_register_read,
  has_register_write, start_write, stop_read,
}
use raner.Epoll.Dispatch.{
  Action, register, unregister, modify, event, ready, not_ready, Handler, act_all,
  call_ready_list_callbacks,
}
use raner.Epoll.Dispatch.Safety.{act_all-Keeps, call_ready_list_callbacks-Done}
use raner.Epoll.Invariant.{Inv, Keeps, Returns}
use raner.Epoll.Masks.{
  SameElsewhere, has_register_write-switch_write, has_register_read-switch_read,
}

pub granted : {k k' : Table ℕ} {g : ℕ} → some k ≡ some k' → k' g ≡ k g
granted {k} {k'} {g} e = ap (value k g) (sym e)
  where
    value : Table ℕ → ℕ → Option (Table ℕ) → Option ℕ
    value k g none = k g
    value k g (some t) = t g

abbrev pub granting : Kernel
granting = record {
  State = Table ℕ;
  interest = λ k. k;
  epoll_ctl = λ k op fd mask. some (update k fd (watched_mask op mask));
  get_flags = λ k fd. some 2;
  set_flags = λ k fd flags. some k;
  epoll_ctl_law = λ k op fd mask k' g e. granted e;
  set_flags_law = λ k fd flags k' g e. granted e;
}

abbrev reading_entry : CbAndEventMask
reading_entry = record {
  cb = some 7;
  linked = false;
  event_mask = epoll_in;
  events_asserted = 0;
  events_to_fake = 0;
  in_use = false;
}

-- Descriptor 3 is registered for reading and is on the ready list.

abbrev pub empty_server : EpollServer granting
empty_server = record {
  cb_map = λ fd. none;
  ready_list = [];
  tmp_list = [];
  ready_list_size = 0;
  kernel = λ fd. none;
  calls = [];
}

pub empty_server-Inv : Inv granting empty_server
empty_server-Inv = record {
  links = λ fd. refl;
  distinct = ground arith;
  size = refl;
  sound = λ fd. refl;
  watches = λ fd. refl;
}

abbrev one_ready : EpollServer granting
one_ready = record {
  cb_map =
      update (λ fd. none) 3 (some (record reading_entry { linked = true; events_asserted = 1 }));
  ready_list = 3 ∷ [];
  tmp_list = [];
  ready_list_size = 1;
  kernel = update (λ fd. none) 3 (some 25);
  calls = [];
}

one_ready-Inv : Inv granting one_ready
one_ready-Inv = record {
  links = λ fd. ground arith;
  distinct = ground arith;
  size = refl;
  sound = λ fd. ground arith;
  watches = λ fd. ground arith;
}

-- The callback unregisters its own descriptor, registers another and asks to be called again.
abbrev busy_handler : Handler
busy_handler cb fd in_events =
    (unregister fd ∷ register 4 8 epoll_out ∷ ready 4 epoll_out ∷ [], in_events)

call_ready_list_callbacks-Done_example :
    Returns granting
      (λ s'. Inv granting s' × (s'.tmp_list ≡ []))
      (call_ready_list_callbacks granting busy_handler one_ready)
call_ready_list_callbacks-Done_example =
    call_ready_list_callbacks-Done granting busy_handler one_ready one_ready-Inv refl

abbrev six_actions : List Action
six_actions =
    register 4 8 epoll_out
    ∷ modify 3 epoll_in epoll_out
    ∷ event 4 epoll_out
    ∷ not_ready 3
    ∷ ready 3 epoll_in
    ∷ unregister 4
    ∷ []

act_all-Keeps_example :
    Returns granting (Keeps granting one_ready) (act_all granting six_actions one_ready)
act_all-Keeps_example = act_all-Keeps granting six_actions one_ready one_ready-Inv

-- The server after a call that is known to return.
abbrev after_write : EpollServer granting
after_write = record one_ready {
  cb_map =
      update one_ready.cb_map 3
        (some (record reading_entry { linked = true; events_asserted = 1; event_mask = 5 }));
  calls = on_modification 7 3 5 ∷ [];
  kernel = update one_ready.kernel 3 (some 29);
}

has_register_write_example :
    (has_register_write granting 3 after_write ≡ true)
    × (has_register_read granting 3 after_write ≡ has_register_read granting 3 one_ready)
    × SameElsewhere granting 3 one_ready after_write
unfolding start_write
has_register_write_example =
    has_register_write-switch_write granting true 3 7
      (record reading_entry { linked = true; events_asserted = 1 }) one_ready after_write refl refl
      refl

abbrev after_stop : EpollServer granting
after_stop = record one_ready {
  cb_map =
      update one_ready.cb_map 3
        (some (record reading_entry { linked = true; events_asserted = 1; event_mask = 0 }));
  calls = on_modification 7 3 0 ∷ [];
  kernel = update one_ready.kernel 3 (some 24);
}

has_register_read_example :
    (has_register_read granting 3 after_stop ≡ false)
    × (has_register_write granting 3 after_stop ≡ has_register_write granting 3 one_ready)
    × SameElsewhere granting 3 one_ready after_stop
unfolding stop_read
has_register_read_example =
    has_register_read-switch_read granting false 3 7
      (record reading_entry { linked = true; events_asserted = 1 }) one_ready after_stop refl refl
      refl
