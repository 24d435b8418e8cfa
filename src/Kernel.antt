-- ===== src/Kernel.antt =====
-- The system calls that raner/epoll_server.cc makes on a file descriptor, as an interface. The
-- laws are what epoll_ctl(2) and fcntl(2) document; whether a call succeeds is left open.
use raner.Common.{ℕ, Option, some, none, Table, update, ◌≡◌}

pub data Ctl : Type 0 where
  ctl_add ctl_mod ctl_del : Ctl

-- What a call that succeeded did to the set of descriptors watched.
abbrev pub watched_mask : Ctl → ℕ → Option ℕ
watched_mask ctl_add mask = some mask
watched_mask ctl_mod mask = some mask
watched_mask ctl_del mask = none

pub record Kernel : Type 1 where
  pub State : Type 0
  -- The interest set of the epoll instance: the event mask of each descriptor in it.
  pub interest : State → Table ℕ
  -- `none` is an error return.
  pub epoll_ctl : State → Ctl → ℕ → ℕ → Option State
  pub get_flags : State → ℕ → Option ℕ
  pub set_flags : State → ℕ → ℕ → Option State
  pub epoll_ctl_law :
      (k : State) (op : Ctl) (fd mask : ℕ) (k' : State) (g : ℕ)
      → epoll_ctl k op fd mask ≡ some k'
      → interest k' g ≡ update (interest k) fd (watched_mask op mask) g
  pub set_flags_law :
      (k : State) (fd flags : ℕ) (k' : State) (g : ℕ)
      → set_flags k fd flags ≡ some k'
      → interest k' g ≡ interest k g
