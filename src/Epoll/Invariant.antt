-- ===== src/Epoll/Invariant.antt =====
-- The invariant of EpollServer's descriptor table, ready list and interest set.
pub mod ReadyList
pub mod Methods
pub mod Register
use raner.Common.{
  ℕ, ◌+◌, ◌≤◌, ◌≡◌, Bool, true, false, not, ◌&&◌, ◌||◌, Option, none, some, List, ◌++◌, length, mem,
  AreDistinct, Outcome, ok, fault, fatal, assertion, bad_pointer, length_error,
}
use raner.Kernel.{Kernel}
use raner.Epoll.{CbAndEventMask, EpollServer, watched}

abbrev pub Slot : Type 0
Slot = Option CbAndEventMask

abbrev pub linked_in : Slot → Bool
linked_in none = false
linked_in (some e) = e.linked

abbrev pub in_use_in : Slot → Bool
in_use_in none = false
in_use_in (some e) = e.in_use

-- An entry without a callback is in no list, and a call of `OnEvent` for it is under way.
abbrev pub is_sound : Slot → Bool
is_sound none = true
is_sound (some e) = elim e.cb [ none ↦ not e.linked && e.in_use | some cb ↦ true ]

module _ (os : Kernel) where
  open os use {interest}

  -- What the kernel is to watch for a descriptor.
  abbrev pub wanted : Slot → Option ℕ
  wanted none = none
  wanted (some e) = elim e.cb [ none ↦ none | some cb ↦ some (watched os e.event_mask) ]

  pub record Inv (s : EpollServer os) : Type 0 where
    pub links : (fd : ℕ) → linked_in (s.cb_map fd) ≡ (mem fd s.ready_list || mem fd s.tmp_list)
    pub distinct : AreDistinct (s.ready_list ++ s.tmp_list)
    pub size : s.ready_list_size ≡ length s.ready_list + length s.tmp_list
    pub sound : (fd : ℕ) → is_sound (s.cb_map fd) ≡ true
    pub watches : (fd : ℕ) → interest s.kernel fd ≡ wanted (s.cb_map fd)

  -- What every method does from a state `s` of which the invariant holds: it keeps the invariant,
  -- leaves each `in_use` as it was, and adds nothing to `tmp_list_`.
  pub record Keeps (s s' : EpollServer os) : Type 0 where
    pub inv : Inv s'
    pub same_use : (fd : ℕ) → in_use_in (s'.cb_map fd) ≡ in_use_in (s.cb_map fd)
    pub shorter : length s'.tmp_list ≤ length s.tmp_list

  -- The call returns, or the process is down on a system call's error. No `DCHECK` fails, and no
  -- null or dangling pointer is dereferenced.
  abbrev pub Returns : (EpollServer os → Type 0) → Outcome (EpollServer os) → Type 0
  Returns P (ok s) = P s
  Returns P (fault fatal) = Unit
  Returns P (fault assertion) = ⊥
  Returns P (fault length_error) = ⊥
  Returns P (fault bad_pointer) = ⊥
