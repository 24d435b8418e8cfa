-- ===== src/Loop/Tests.antt =====
-- A loop whose functors queue further ones.
use raner.Common.{ℕ, zero, suc, ◌≡◌, refl, true, false, List, [], ◌∷◌, inl, Ends}
use raner.Loop.{EventLoop, Act, queue, leave, make_loop, Happening, loop, do_pending_functors}
use raner.Loop.Order.{IsReady, loop-IsReady, do_pending_functors-IsReady}

-- Functor 1 queues 2 and 3; another thread queues 4 while 2 runs; 3 ends the loop.
abbrev does : ℕ → List Act
does zero = []
does (suc zero) = queue true 2 ∷ queue true 3 ∷ []
does (suc (suc zero)) = queue false 4 ∷ []
does (suc (suc (suc n))) = leave true ∷ []

abbrev happenings : List Happening
happenings =
    record { before = queue false 1 ∷ []; after = queue true 5 ∷ [] }
    ∷ record { before = []; after = [] }
    ∷ record { before = []; after = [] }
    ∷ []

make_loop-IsReady : IsReady make_loop
unfolding make_loop
make_loop-IsReady = record { idle = refl; in_order = refl; awake = inl refl }

loop-IsReady_example :
    Ends (λ l'. IsReady l' × (l'.looping ≡ false)) (loop does happenings make_loop)
unfolding make_loop
loop-IsReady_example = loop-IsReady does happenings make_loop refl make_loop-IsReady

abbrev two_wait : EventLoop
two_wait = record {
  looping = true;
  quitting = false;
  calling_pending_functors = false;
  iteration = 7;
  pending_functors = 1 ∷ 2 ∷ [];
  wakes = 0;
  ran = 9 ∷ [];
  requested = 9 ∷ 1 ∷ 2 ∷ [];
}

do_pending_functors-IsReady_example :
    IsReady (do_pending_functors does two_wait)
    × ((do_pending_functors does two_wait).ran ≡ 9 ∷ 1 ∷ 2 ∷ [])
do_pending_functors-IsReady_example = do_pending_functors-IsReady does two_wait refl
