-- ===== src/Epoll/Dispatch/Waking.antt =====
-- What follows a return of `epoll_wait`, events and callbacks together.
use raner.Common.{
  ℕ, ◌≤◌, ◌≡◌, refl, ap, Bool, true, false, List, [], ◌∷◌, length, arith, if◌then◌else◌, Outcome,
  ok,
}
use raner.Kernel.{Kernel}
use raner.Epoll.{EpollServer, is_empty, handle_event}
use raner.Epoll.Invariant.{Inv, Keeps, Returns}
use raner.Epoll.Invariant.Methods.{Keeps-refl, Keeps-trans, handle_event-Keeps}
use raner.Epoll.Dispatch.{Handler, handle_events, handle_and_call, call_ready_list_callbacks}
use raner.Epoll.Dispatch.Safety.{Returns-bind, call_ready_list_callbacks-Done}

none_left : (l : List ℕ) → length l ≤ 0 → l ≡ []
none_left [] h = refl
none_left (x ∷ l) h = absurd (omega arith)

module _ (os : Kernel) where
  handle_events-Keeps :
      (events : List (ℕ × ℕ)) (s₀ s : EpollServer os)
      → Keeps os s₀ s
      → Returns os (Keeps os s₀) (handle_events os events s)
  unfolding handle_events
  handle_events-Keeps [] s₀ s k = k
  handle_events-Keeps ((fd, mask) ∷ events) s₀ s k =
      Returns-bind os (Keeps os s) (Keeps os s₀) (handle_event os fd mask s)
        (handle_events os events) (handle_event-Keeps os fd mask s k.inv)
        (λ t k'. handle_events-Keeps events s₀ t (Keeps-trans os k k'))

  -- The invariant, between two rounds.
  abbrev pub Rests : EpollServer os → Type 0
  Rests s = Inv os s × (s.tmp_list ≡ [])

  if-Rests :
      (b : Bool) (m n : Outcome (EpollServer os))
      → Returns os Rests m
      → Returns os Rests n
      → Returns os Rests (if b then m else n)
  if-Rests true m n p q = p
  if-Rests false m n p q = q

  pub handle_and_call-Rests :
      (on_event : Handler) (events : List (ℕ × ℕ)) (s : EpollServer os)
      → Rests s
      → Returns os Rests (handle_and_call os on_event events s)
  unfolding handle_and_call
  handle_and_call-Rests on_event events s r =
      Returns-bind os (Keeps os s) Rests (handle_events os events s)
        (λ t. if is_empty t.ready_list then ok t else call_ready_list_callbacks os on_event t)
        (handle_events-Keeps events s s (Keeps-refl os s (r.0))) then_call
    where
      then_call :
          (t : EpollServer os)
          → Keeps os s t
          → Returns os Rests
              (if is_empty t.ready_list then ok t else call_ready_list_callbacks os on_event t)
      then_call t k =
          let empty : t.tmp_list ≡ [] =
            none_left t.tmp_list (omega (arith, k.shorter, ap length (r.1))) in
          if-Rests (is_empty t.ready_list) (ok t) (call_ready_list_callbacks os on_event t)
            (k.inv, empty) (call_ready_list_callbacks-Done os on_event t k.inv empty)
