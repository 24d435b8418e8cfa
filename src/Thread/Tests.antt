-- ===== src/Thread/Tests.antt =====
-- An EventLoopThread from its start to its end, and one whose loop is made to quit at once.
use raner.Common.{◌≤◌, ◌≡◌, refl, true, false, ◌⊎◌}
use raner.Thread.{
  checking, waiting, joining, gone, starting, looping, ended, publishes, wakes, waits, finds,
  returns, destroys, quits, Reach, here, next,
}
use raner.Thread.Handshake.{CanStep, went_wrong, handshake_ends}
use raner.Thread.Lost.{tests_loop, start_loop_lost}

-- The caller waits, is woken, and has called the destructor.
abbrev until_join : Reach false checking starting false false joining looping true true 4
until_join =
    next (next (next (next (next (next (next here waits) wakes) waits) publishes) finds) returns)
      destroys

handshake_ends_example :
    (4 ≤ 6)
    × (went_wrong joining ≡ false)
    × (((joining ≡ gone) × (looping ≡ ended)) ⊎ CanStep joining looping true true)
handshake_ends_example = handshake_ends until_join

-- The loop quits before the caller is past its wait.
abbrev too_early : Reach true checking starting false false checking ended false false 2
too_early = next (next (next here waits) publishes) (quits refl)

start_loop_lost_example : (tests_loop waiting ≡ true) × (ended ≡ ended)
start_loop_lost_example = start_loop_lost too_early refl (next here waits)
