-- ===== src/Loop/Order.antt =====
-- EventLoop runs what is queued in the order of the calls, once each, and never sleeps on it.
use raner.Common.{
  ℕ, ◌+◌, ◌≤◌, ◌<◌, ◌≡◌, refl, sym, ap, ap₂, ◌∙◌, subst, Bool, true, false, inl, inr, ◌⊎◌, List, [],
  ◌∷◌, ◌++◌, append-nil, append_assoc, arith, if◌then◌else◌, Ends,
}
use raner.Loop.{
  EventLoop, Act, queue, leave, quit, queue_in_loop, act, acts, Happening, poll, call_all,
  do_pending_functors, round, rounds, loop,
}

-- What calls of methods do: they queue functors, and while functors run they wake the loop for it.
record Adds (l l' : EventLoop) : Type 0 where
  queued : List ℕ
  pending : l'.pending_functors ≡ l.pending_functors ++ queued
  requests : l'.requested ≡ l.requested ++ queued
  calls : l'.calling_pending_functors ≡ l.calling_pending_functors
  same : l'.ran ≡ l.ran
  more : l.wakes ≤ l'.wakes
  woken : l.calling_pending_functors ≡ true → (queued ≡ []) ⊎ (0 < l'.wakes)

act-Adds : (a : Act) (l : EventLoop) → Adds l (act a l)
unfolding act queue_in_loop quit
act-Adds (queue in_loop f) l = record {
  queued = f ∷ [];
  pending = ground arith;
  requests = ground arith;
  calls = ground arith;
  same = ground arith;
  more = ground arith;
  woken = λ c. inr (ground (arith, c));
}
act-Adds (leave in_loop) l = record {
  queued = [];
  pending = ground (arith, append-nil l.pending_functors);
  requests = ground (arith, append-nil l.requested);
  calls = ground arith;
  same = ground arith;
  more = ground arith;
  woken = λ c. inl refl;
}

Adds-none : (l : EventLoop) → Adds l l
Adds-none l = record {
  queued = [];
  pending = sym (append-nil l.pending_functors);
  requests = sym (append-nil l.requested);
  calls = refl;
  same = refl;
  more = omega arith;
  woken = λ c. inl refl;
}

Adds-then : {l m n : EventLoop} → Adds l m → Adds m n → Adds l n
Adds-then {l} {m} {n} a b = record {
  queued = a.queued ++ b.queued;
  pending =
      b.pending
      ∙ ap (λ q. q ++ b.queued) a.pending
      ∙ append_assoc l.pending_functors a.queued b.queued;
  requests =
      b.requests ∙ ap (λ q. q ++ b.queued) a.requests ∙ append_assoc l.requested a.queued b.queued;
  calls = b.calls ∙ a.calls;
  same = b.same ∙ a.same;
  more = omega (arith, a.more, b.more);
  woken = λ c. elim (a.woken c) [
    | inr w ↦ inr (omega (arith, w, b.more))
    | inl e ↦ elim (b.woken (a.calls ∙ c)) [
      | inr w ↦ inr w
      | inl e' ↦ inl (ap (λ q. q ++ b.queued) e ∙ e')
    ]
  ];
}

acts-Adds : (todo : List Act) (l : EventLoop) → Adds l (acts todo l)
unfolding acts
acts-Adds [] l = Adds-none l
acts-Adds (a ∷ todo) l = Adds-then (act-Adds a l) (acts-Adds todo (act a l))

Adds-after :
    {l m : EventLoop} (fs : List ℕ)
    → Adds l m
    → Adds (record l { ran = l.ran ++ fs }) (record m { ran = m.ran ++ fs })
Adds-after {l} {m} fs a = record {
  queued = a.queued;
  pending = a.pending;
  requests = a.requests;
  calls = a.calls;
  same = ap (λ r. r ++ fs) a.same;
  more = a.more;
  woken = a.woken;
}

-- Nothing that was requested is lost or run twice, or out of its turn, and what waits has been
-- woken for.
pub record IsReady (l : EventLoop) : Type 0 where
  pub idle : l.calling_pending_functors ≡ false
  pub in_order : l.requested ≡ l.ran ++ l.pending_functors
  pub awake : (l.pending_functors ≡ []) ⊎ (0 < l.wakes)

if-IsReady : (c : Bool) (l m : EventLoop) → IsReady l → IsReady m → IsReady (if c then l else m)
if-IsReady true l m p q = p
if-IsReady false l m p q = q

module _ (does : ℕ → List Act) where
  -- The functors run in their order; what they queue waits, and has been woken for.
  call_all-Adds :
      (fs : List ℕ) (l : EventLoop) → Adds (record l { ran = l.ran ++ fs }) (call_all does fs l)
  unfolding call_all
  call_all-Adds [] l =
      subst (λ r. Adds (record l { ran = r }) l) (sym (append-nil l.ran)) (Adds-none l)
  call_all-Adds (f ∷ fs) l =
      let l₁ : EventLoop = record l { ran = l.ran ++ f ∷ [] } in
      let a = Adds-after fs (acts-Adds (does f) l₁) in
      let b = call_all-Adds fs (acts (does f) l₁) in
      subst (λ r. Adds (record l { ran = r }) (call_all does fs (acts (does f) l₁)))
        (append_assoc l.ran (f ∷ []) fs) (Adds-then a b)

  -- doPendingFunctors calls each functor that waits once, in the order of the requests. Those that
  -- are requested meanwhile are not called but wait in their order, and if there are any the loop
  -- has been woken.
  pub do_pending_functors-IsReady :
      (l : EventLoop)
      → l.requested ≡ l.ran ++ l.pending_functors
      → IsReady (do_pending_functors does l)
        × ((do_pending_functors does l).ran ≡ l.ran ++ l.pending_functors)
  unfolding do_pending_functors
  do_pending_functors-IsReady l e =
      let a =
        call_all-Adds l.pending_functors
          (record l { calling_pending_functors = true; pending_functors = [] }) in
      (
        record {
          idle = refl;
          in_order = a.requests ∙ ap (λ q. q ++ a.queued) e ∙ sym (ap₂ ◌++◌ a.same a.pending);
          awake = elim (a.woken refl) [
            | inl none_queued ↦ inl (a.pending ∙ none_queued)
            | inr w ↦ inr w
          ];
        },
        a.same,
      )

  poll_lem :
      (h : Happening) (l : EventLoop)
      → l.requested ≡ l.ran ++ l.pending_functors
      → (poll h l).requested ≡ (poll h l).ran ++ (poll h l).pending_functors
  poll_lem h l e =
      kept (acts-Adds h.after (record (acts h.before l) { wakes = 0 }))
        (kept (acts-Adds h.before l) e)
    where
      kept :
          {m n : EventLoop}
          → Adds m n
          → m.requested ≡ m.ran ++ m.pending_functors
          → n.requested ≡ n.ran ++ n.pending_functors
      kept {m} {n} a q =
          a.requests
          ∙ ap (λ r. r ++ a.queued) q
          ∙ append_assoc m.ran m.pending_functors a.queued
          ∙ sym (ap₂ ◌++◌ a.same a.pending)

  round-IsReady : (h : Happening) (l : EventLoop) → IsReady l → IsReady (round does h l)
  unfolding round
  round-IsReady h l r =
      (do_pending_functors-IsReady (record (poll h l) { iteration = (poll h l).iteration + 1 })
        (poll_lem h l r.in_order)).0

  rounds-IsReady : (hs : List Happening) (l : EventLoop) → IsReady l → IsReady (rounds does hs l)
  unfolding rounds
  rounds-IsReady [] l r = r
  rounds-IsReady (h ∷ hs) l r =
      if-IsReady l.quitting l (rounds does hs (round does h l)) r
        (rounds-IsReady hs (round does h l) (round-IsReady h l r))

  -- Loop implements a queue: if what QueueInLoop was given is what ran and then what waits, in
  -- order and each once, the loop is not within doPendingFunctors, and the wake pipe has been
  -- written to if functors wait, it is so when the loop ends, whatever calls this thread and
  -- others make while it polls and runs; the loop is again not within doPendingFunctors, and if
  -- functors wait the pipe that ends the next poll has been written to.
  pub loop-IsReady :
      (hs : List Happening) (l : EventLoop)
      → l.looping ≡ false
      → IsReady l
      → Ends (λ l'. IsReady l' × (l'.looping ≡ false)) (loop does hs l)
  unfolding loop
  loop-IsReady hs l still r =
      let start : EventLoop = record l { looping = true; quitting = false } in
      let r' =
        rounds-IsReady hs start
          (record { idle = r.idle; in_order = r.in_order; awake = r.awake }) in
      rw still (record { idle = r'.idle; in_order = r'.in_order; awake = r'.awake }, refl)
