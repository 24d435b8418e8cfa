-- ===== src/LoopPool/Tests.antt =====
-- EventLoopThreadPool with three threads.
use raner.Common.{◌≡◌, refl, true, [], ◌∷◌, ok}
use raner.LoopPool.{LoopPool}
use raner.LoopPool.Turns.{turns, turns-round}

abbrev three_loops : LoopPool
three_loops = record { base_loop = 1; started = true; loops = 5 ∷ 6 ∷ 7 ∷ []; next = 0 }

turns-round_example : turns 3 three_loops ≡ ok (5 ∷ 6 ∷ 7 ∷ [], three_loops)
turns-round_example = turns-round three_loops refl refl
