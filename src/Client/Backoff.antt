-- ===== src/Client/Backoff.antt =====
-- The delays of a TCPClient whose attempts to connect fail one after the other.
use raner.Common.{
  ℕ, suc, ◌*◌, ◌^◌, ◌≡◌, refl, sym, ap, ◌∙◌, subst, min, Bool, true, false, some, none, List, [],
  ◌∷◌, length, arith, ok, ◌>>=◌, Ends,
}
use raner.Socket
use raner.Socket.{Socket, make_socket}
use raner.Socket.Setup
use raner.Socket.Setup.{Calls}
use raner.Kernel.{Kernel}
use raner.Client.{
  disconnected, ClientWorld, set_client, next_interval, init_retry_interval_ms,
  max_retry_interval_ms, try_again, connect_in_loop, start_in_loop, connect,
}
use raner.Client.Events.{Command, begin, timer_fires, run, run_all}

doubled : (p n : ℕ) → p * 2 * 2 ^ n ≡ p * 2 ^ suc n
doubled p n = grind arith

-- With these answers of the system the socket is not connected.
abbrev pub Fails : Bool → ℕ → Calls → Type 0
Fails empty_host port calls =
    (k : Socket) × (Setup.connect false calls empty_host port make_socket ≡ ok (k, false))

abbrev pub AllFail : Bool → ℕ → List Calls → Type 0
AllFail empty_host port [] = Unit {0}
AllFail empty_host port (calls ∷ rest) = Fails empty_host port calls × AllFail empty_host port rest

-- The timer fires, and fires again.
abbrev pub firings : List Calls → List Command
firings [] = []
firings (calls ∷ rest) = timer_fires calls ∷ firings rest

module _ (os : Kernel) where
  -- It is set to `delay`, and the next delay is at hand.
  pub record Waits (delay : ℕ) (w : ClientWorld os) : Type 0 where
    pub delayed : w.reconnect_timer ≡ some (some (min delay max_retry_interval_ms))
    pub next_delay : w.retry_interval_ms ≡ min (delay * 2) max_retry_interval_ms
    pub idle : w.state ≡ disconnected

  after_failure : Socket → ClientWorld os → ClientWorld os
  after_failure k w =
      set_client os
        (record (w.client) {
          wants = true;
          socket = some (Socket.close k);
          state = disconnected;
          reconnect_timer = some (some w.retry_interval_ms);
          retry_interval_ms = next_interval os w.retry_interval_ms;
        })
        w

  attempt_lem :
      (calls : Calls) (k : Socket) (w : ClientWorld os)
      → w.state ≡ disconnected
      → Setup.connect false calls w.empty_host w.port make_socket ≡ ok (k, false)
      → connect os true false calls w ≡ ok (after_failure k w)
  unfolding connect start_in_loop connect_in_loop try_again after_failure
  attempt_lem calls k w e failed = rw (e, failed) refl

  after_failure-Waits :
      (p : ℕ) (k : Socket) (w : ClientWorld os)
      → w.retry_interval_ms ≡ min p max_retry_interval_ms
      → Waits p (after_failure k w)
  unfolding after_failure
  after_failure-Waits p k w i = record {
    delayed = ap (λ d. some (some d)) i;
    next_delay = ap (next_interval os) i ∙ omega arith;
    idle = refl;
  }

  firings_lem :
      (attempts : List Calls) (p : ℕ) (w : ClientWorld os)
      → Waits p w
      → AllFail w.empty_host w.port attempts
      → Ends (Waits (p * 2 ^ length attempts)) (run_all os (firings attempts) w)
  unfolding run_all run after_failure
  firings_lem [] p w v fail =
      let once : p ≡ p * 2 ^ 0 = omega arith in subst (λ d. Waits d w) once v
  firings_lem (calls ∷ attempts) p w v ((k, failed), fail) =
      let fired : ClientWorld os =
        set_client os (record (w.client) { reconnect_timer = some none }) w in
      subst (Ends (Waits (p * 2 ^ suc (length attempts))))
        (sym
          (ap (λ m. m >>= run_all os (firings attempts)) (attempt_lem calls k fired v.idle failed)))
        (subst (λ d. Ends (Waits d) (run_all os (firings attempts) (after_failure k fired)))
          (doubled p (length attempts))
          (firings_lem attempts (p * 2) (after_failure k fired)
            (after_failure-Waits (p * 2) k fired v.next_delay) fail))

  -- When Connect, of a client that is disconnected and has the first delay, fails to make a
  -- connection, and so does each of n firings of the reconnect timer after it, with debug checks
  -- off and whichever way the socket's Connect returns false: the calls return, the client is
  -- disconnected, the timer is set to the smaller of 500 * 2 ^ n and 30000 ms, and the delay after
  -- that is the smaller of twice 500 * 2 ^ n and 30000 ms.
  pub failures_lem :
      (calls : Calls) (attempts : List Calls) (w : ClientWorld os)
      → w.state ≡ disconnected
      → w.retry_interval_ms ≡ init_retry_interval_ms
      → AllFail w.empty_host w.port (calls ∷ attempts)
      → Ends
          (Waits (500 * 2 ^ length attempts))
          (run_all os (begin true calls ∷ firings attempts) w)
  unfolding run_all run after_failure
  failures_lem calls attempts w e i ((k, failed), fail) =
      subst (Ends (Waits (500 * 2 ^ length attempts)))
        (sym (ap (λ m. m >>= run_all os (firings attempts)) (attempt_lem calls k w e failed)))
        (firings_lem attempts 500 (after_failure k w) (after_failure-Waits 500 k w i) fail)
