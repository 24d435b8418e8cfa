-- ===== src/Loop.antt =====
-- raner/event_loop.h and raner/event_loop.cc: the class EventLoop. A functor is a number, and
-- `does` says which methods of the loop are called while it runs, by itself or by other threads.
-- `in_loop` says whether a call comes from the loop's thread. `ran` and `requested` are the history:
-- the functors called by `doPendingFunctors` and those given to `QueueInLoop`, oldest first.
-- `wakes` counts the bytes in the pipe that `Wake` writes to.
pub mod Order
mod Tests
use raner.Common.{
  ℕ, ◌+◌, Bool, true, false, not, ◌||◌, List, [], ◌∷◌, ◌++◌, if◌then◌else◌, Outcome, ok, fault,
  assertion, require, ◌>>=◌, ◌>>◌,
}

pub record EventLoop : Type 0 where
  pub looping : Bool
  pub quitting : Bool
  pub calling_pending_functors : Bool
  pub iteration : ℕ
  pub pending_functors : List ℕ
  pub wakes : ℕ
  pub ran : List ℕ
  pub requested : List ℕ

pub make_loop : EventLoop
make_loop = record {
  looping = false;
  quitting = false;
  calling_pending_functors = false;
  iteration = 0;
  pending_functors = [];
  wakes = 0;
  ran = [];
  requested = [];
}

-- A call of a method of the loop.
pub data Act : Type 0 where
  queue : Bool → ℕ → Act
  leave : Bool → Act

abbrev pub wake : EventLoop → EventLoop
wake l = record l { wakes = l.wakes + 1 }

pub quit : Bool → EventLoop → EventLoop
quit in_loop l = let l' = record l { quitting = true } in if in_loop then l' else wake l'

pub queue_in_loop : Bool → ℕ → EventLoop → EventLoop
queue_in_loop in_loop f l =
    let l' = record l {
      pending_functors = l.pending_functors ++ f ∷ [];
      requested = l.requested ++ f ∷ [];
    } in
    if not in_loop || l.calling_pending_functors then wake l' else l'

pub act : Act → EventLoop → EventLoop
act (queue in_loop f) l = queue_in_loop in_loop f l
act (leave in_loop) l = quit in_loop l

pub acts : List Act → EventLoop → EventLoop
acts [] l = l
acts (a ∷ rest) l = acts rest (act a l)

-- What happens between two rounds of the ready list: the calls until the pipe is read empty, and
-- those from there on.
pub record Happening : Type 0 where
  pub before : List Act
  pub after : List Act

-- `WaitForEventsAndExecuteCallbacks`, as far as it concerns the loop.
abbrev pub poll : Happening → EventLoop → EventLoop
poll h l = acts h.after (record (acts h.before l) { wakes = 0 })

module _ (does : ℕ → List Act) where
  pub run_in_loop : Bool → ℕ → EventLoop → EventLoop
  run_in_loop in_loop f l = if in_loop then acts (does f) l else queue_in_loop false f l

  pub call_all : List ℕ → EventLoop → EventLoop
  call_all [] l = l
  call_all (f ∷ fs) l = call_all fs (acts (does f) (record l { ran = l.ran ++ f ∷ [] }))

  pub do_pending_functors : EventLoop → EventLoop
  do_pending_functors l =
      let l' = record l { calling_pending_functors = true; pending_functors = [] } in
      record (call_all l.pending_functors l') { calling_pending_functors = false }

  pub round : Happening → EventLoop → EventLoop
  round h l = let l' = poll h l in do_pending_functors (record l' { iteration = l'.iteration + 1 })

  pub rounds : List Happening → EventLoop → EventLoop
  rounds [] l = l
  rounds (h ∷ hs) l = let rest = rounds hs (round h l) in if l.quitting then l else rest

  -- As long as there are happenings left.
  pub loop : List Happening → EventLoop → Outcome EventLoop
  loop hs l = do
    require (not l.looping) assertion
    ok (record (rounds hs (record l { looping = true; quitting = false })) { looping = false })
