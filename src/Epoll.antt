-- ===== src/Epoll.antt =====
-- raner/epoll_server.cc: the descriptor table and the ready list of the class EpollServer.
-- `cb_map_` is a table by descriptor. An entry's place in an intrusive list is its descriptor's
-- place in `ready_list` or `tmp_list`, and `le_prev != NULL` is `linked`. A callback is a number,
-- and the calls of its virtual methods but `OnEvent` (Epoll/Dispatch) are recorded in `calls`,
-- the latest first: the overrides of them in the repository are empty.
pub mod Dispatch
pub mod Invariant
pub mod Masks
pub mod Tests
use raner.Common.{
  ℕ, ◌+◌, ◌-◌, ◌^◌, Bool, true, false, not, Option, none, some, List, [], ◌∷◌, Table, update,
  remove, bit_and, bit_or, ◌==◌, if◌then◌else◌, Outcome, ok, fault, assertion, fatal, bad_pointer,
  require, ◌>>=◌, ◌>>◌, ◌||◌, ◌&&◌,
}
use raner.Kernel.{Kernel, Ctl, ctl_add, ctl_mod, ctl_del}

abbrev pub epoll_in : ℕ
epoll_in = 1

abbrev pub epoll_out : ℕ
epoll_out = 4

abbrev pub epoll_err : ℕ
epoll_err = 8

abbrev pub epoll_hup : ℕ
epoll_hup = 16

-- `~ mask` of an `int`.
abbrev pub complement : ℕ → ℕ
complement mask = 2 ^ 32 - 1 - mask

pub record CbAndEventMask : Type 0 where
  pub cb : Option ℕ
  pub linked : Bool
  pub event_mask : ℕ
  pub events_asserted : ℕ
  pub events_to_fake : ℕ
  pub in_use : Bool

abbrev pub is_empty : List ℕ → Bool
is_empty [] = true
is_empty (x ∷ xs) = false

pub data Call : Type 0 where
  on_registration : ℕ → ℕ → ℕ → Call
  on_modification : ℕ → ℕ → ℕ → Call
  on_unregistration : ℕ → ℕ → Bool → Call

module _ (os : Kernel) where
  open os use {State, epoll_ctl, get_flags, set_flags}

  pub record EpollServer : Type 0 where
    pub cb_map : Table CbAndEventMask
    pub ready_list : List ℕ
    pub tmp_list : List ℕ
    pub ready_list_size : ℕ
    pub kernel : State
    pub calls : List Call

  -- `LIST_INSERT_HEAD` on `ready_list_`, unless the entry is in a list.
  pub add_to_ready_list : ℕ → CbAndEventMask → EpollServer → EpollServer
  add_to_ready_list fd e s = if e.linked then s else record s {
    cb_map = update s.cb_map fd (some (record e { linked = true }));
    ready_list = fd ∷ s.ready_list;
    ready_list_size = s.ready_list_size + 1;
  }

  -- `LIST_REMOVE` from whichever list the entry is in, with the `DCHECK`s behind it.
  pub remove_from_ready_list : ℕ → CbAndEventMask → EpollServer → Outcome EpollServer
  remove_from_ready_list fd e s =
      if e.linked
      then (do
        let s' = record s {
          cb_map = update s.cb_map fd (some (record e { linked = false }));
          ready_list = remove fd s.ready_list;
          tmp_list = remove fd s.tmp_list;
          ready_list_size = s.ready_list_size - 1;
        }
        require (not (s'.ready_list_size == 0) || is_empty s'.ready_list && is_empty s'.tmp_list)
            assertion
        ok s')
      else ok s

  abbrev pub record_call : Call → EpollServer → EpollServer
  record_call c s = record s { calls = c ∷ s.calls }

  -- An error of `epoll_ctl` or `fcntl` is a `LOG(FATAL)`.
  abbrev pub or_fatal : Option State → EpollServer → Outcome EpollServer
  or_fatal none s = fault fatal
  or_fatal (some k) s = ok (record s { kernel = k })

  pub del_fd : ℕ → EpollServer → Outcome EpollServer
  del_fd fd s = or_fatal (epoll_ctl s.kernel ctl_del fd 0) s

  -- `event_mask | EPOLLERR | EPOLLHUP`.
  abbrev pub watched : ℕ → ℕ
  watched mask = bit_or (bit_or mask epoll_err) epoll_hup

  pub add_fd : ℕ → ℕ → EpollServer → Outcome EpollServer
  add_fd fd mask s = or_fatal (epoll_ctl s.kernel ctl_add fd (watched mask)) s

  pub mod_fd : ℕ → ℕ → EpollServer → Outcome EpollServer
  mod_fd fd mask s = or_fatal (epoll_ctl s.kernel ctl_mod fd (watched mask)) s

  -- O_NONBLOCK
  abbrev pub nonblock : ℕ
  nonblock = 2048

  pub set_nonblocking : ℕ → EpollServer → Outcome EpollServer
  set_nonblocking fd s = elim (get_flags s.kernel fd) [
    | none ↦ fault fatal
    | some flags ↦
        if bit_and flags nonblock == 0
        then or_fatal (set_flags s.kernel fd (bit_or flags nonblock)) s
        else ok s
  ]

  abbrev pub fresh_entry : ℕ → ℕ → CbAndEventMask
  fresh_entry cb mask = record {
    cb = some cb;
    linked = false;
    event_mask = mask;
    events_asserted = 0;
    events_to_fake = 0;
    in_use = false;
  }

  -- The entry that `fd_i` points to, after calls that may have changed it.
  abbrev pub deref {ℓ} : {A : Type ℓ} → EpollServer → ℕ → (CbAndEventMask → Outcome A) → Outcome A
  deref s fd k = elim (s.cb_map fd) [ none ↦ fault bad_pointer | some e ↦ k e ]

  abbrev pub put : EpollServer → ℕ → CbAndEventMask → EpollServer
  put s fd e = record s { cb_map = update s.cb_map fd (some e) }

  -- The branches of `RegisterFD` on what the table holds for the descriptor.
  replace_fd : ℕ → ℕ → ℕ → CbAndEventMask → EpollServer → Outcome EpollServer
  unfolding remove_from_ready_list mod_fd add_fd
  replace_fd fd cb mask e s = do
    s' ← elim e.cb [
      | some other ↦ remove_from_ready_list fd e s >>= λ s₁.
          mod_fd fd mask (record_call (on_unregistration other fd true) s₁)
      | none ↦ add_fd fd mask s
    ]
    deref s' fd
        (λ e'. ok (put s' fd (record e' { cb = some cb; event_mask = mask; events_to_fake = 0 })))

  insert_fd : ℕ → ℕ → ℕ → EpollServer → Outcome EpollServer
  unfolding add_fd
  insert_fd fd cb mask s = do s' ← add_fd fd mask s; ok (put s' fd (fresh_entry cb mask))

  -- `cb` is not null.
  pub register_fd : ℕ → ℕ → ℕ → EpollServer → Outcome EpollServer
  unfolding replace_fd insert_fd set_nonblocking
  register_fd fd cb mask s = do
    s' ← elim (s.cb_map fd) [ some e ↦ replace_fd fd cb mask e s | none ↦ insert_fd fd cb mask s ]
    s″ ← set_nonblocking fd s'
    ok (record_call (on_registration cb fd mask) s″)

  -- `UnregisterFD` where the entry has a callback.
  drop_fd : ℕ → ℕ → CbAndEventMask → EpollServer → Outcome EpollServer
  unfolding remove_from_ready_list del_fd
  drop_fd fd cb e s = do
    s₁ ← remove_from_ready_list fd e s
    s₂ ← del_fd fd s₁
    let s₃ = record_call (on_unregistration cb fd false) s₂
    deref s₃ fd (λ e'. ok (
        if e'.in_use
        then put s₃ fd (record e' { cb = none; event_mask = 0; events_to_fake = 0 })
        else record s₃ { cb_map = update s₃.cb_map fd none }))

  -- What a method does with an entry that has a callback; the others are left alone.
  abbrev pub if_registered :
      ℕ → EpollServer → (ℕ → CbAndEventMask → Outcome EpollServer) → Outcome EpollServer
  if_registered fd s k = elim (s.cb_map fd) [
    | none ↦ ok s
    | some e ↦ elim e.cb [ none ↦ ok s | some cb ↦ k cb e ]
  ]

  pub unregister_fd : ℕ → EpollServer → Outcome EpollServer
  unfolding drop_fd
  unregister_fd fd s = if_registered fd s (λ cb e. drop_fd fd cb e s)

  abbrev pub modified : ℕ → ℕ → ℕ → ℕ
  modified mask remove_event add_event = bit_or (bit_and mask (complement remove_event)) add_event

  pub modify_fd : ℕ → ℕ → ℕ → EpollServer → Outcome EpollServer
  unfolding mod_fd
  modify_fd fd remove_event add_event s = if_registered fd s (λ cb e.
      let mask = modified e.event_mask remove_event add_event in
      mod_fd fd mask (put s fd (record e { event_mask = mask })) >>= λ s'.
      ok (record_call (on_modification cb fd mask) s'))

  pub modify_callback : ℕ → ℕ → EpollServer → Outcome EpollServer
  unfolding modify_fd
  modify_callback fd mask s = modify_fd fd (2 ^ 32 - 1) mask s

  pub stop_read : ℕ → EpollServer → Outcome EpollServer
  unfolding modify_fd
  stop_read fd s = modify_fd fd epoll_in 0 s

  pub start_read : ℕ → EpollServer → Outcome EpollServer
  unfolding modify_fd
  start_read fd s = modify_fd fd 0 epoll_in s

  pub stop_write : ℕ → EpollServer → Outcome EpollServer
  unfolding modify_fd
  stop_write fd s = modify_fd fd epoll_out 0 s

  pub start_write : ℕ → EpollServer → Outcome EpollServer
  unfolding modify_fd
  start_write fd s = modify_fd fd 0 epoll_out s

  abbrev has_event : ℕ → ℕ → EpollServer → Bool
  has_event event fd s = elim (s.cb_map fd) [
    | none ↦ false
    | some e ↦ not (bit_and e.event_mask event == 0)
  ]

  pub has_register_read : ℕ → EpollServer → Bool
  has_register_read fd s = has_event epoll_in fd s

  unfoldable pub has_register_write : ℕ → EpollServer → Bool
  has_register_write fd s = has_event epoll_out fd s

  pub handle_event : ℕ → ℕ → EpollServer → Outcome EpollServer
  unfolding add_to_ready_list
  handle_event fd mask s = if_registered fd s (λ cb e.
      let e' = record e { events_asserted = mask } in ok (add_to_ready_list fd e' (put s fd e')))

  pub set_fd_ready : ℕ → ℕ → EpollServer → Outcome EpollServer
  unfolding add_to_ready_list
  set_fd_ready fd events_to_fake s = if_registered fd s (λ cb e.
      let e' = record e { events_to_fake = events_to_fake } in
      ok (add_to_ready_list fd e' (put s fd e')))

  pub set_fd_not_ready : ℕ → EpollServer → Outcome EpollServer
  unfolding remove_from_ready_list
  set_fd_not_ready fd s = elim (s.cb_map fd) [
    | none ↦ ok s
    | some e ↦ remove_from_ready_list fd e s
  ]

  pub is_fd_ready : ℕ → EpollServer → Bool
  is_fd_ready fd s = elim (s.cb_map fd) [
    | none ↦ false
    | some e ↦ elim e.cb [ none ↦ false | some cb ↦ e.linked ]
  ]
