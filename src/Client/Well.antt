-- ===== src/Client/Well.antt =====
-- The invariant of a TCPClient with its EpollServer, and the steps of connecting and retrying.
use raner.Common.{
  ℕ, ◌≤◌, ◌≡◌, refl, Bool, true, false, Option, none, some, arith, Bool-cases, Option-cases, inl,
  inr, if◌then◌else◌, Outcome, ok, fault, fatal, length_error, assertion, bad_pointer, ◌>>=◌, Safe,
}
use raner.Kernel.{Kernel}
use raner.Epoll.{EpollServer, unregister_fd}
use raner.Epoll.Invariant.{Inv, Keeps, Returns}
use raner.Epoll.Invariant.Methods.{unregister_fd-Keeps}
use raner.Client.{
  connecting, ClientWorld, on_server, unregister, init_retry_interval_ms, max_retry_interval_ms,
  try_again,
}

abbrev pub has {ℓ} : {A : Type ℓ} → Option A → Bool
has none = false
has (some a) = true

abbrev pub delay : Option (Option ℕ) → ℕ
delay none = 0
delay (some none) = 0
delay (some (some ms)) = ms

pub if-Safe {ℓ} :
    {A : Type ℓ} (P : A → Type 0) (c : Bool) (m n : Outcome A)
    → Safe P m
    → Safe P n
    → Safe P (if c then m else n)
if-Safe P true m n p q = p
if-Safe P false m n p q = q

module _ (os : Kernel) where
  -- The delays stay between half a second and thirty, a client that is connecting has a socket,
  -- and the server keeps its invariant.
  pub record IsWell (w : ClientWorld os) : Type 0 where
    pub low : init_retry_interval_ms ≤ w.retry_interval_ms
    pub high : w.retry_interval_ms ≤ max_retry_interval_ms
    pub timer : delay w.reconnect_timer ≤ max_retry_interval_ms
    pub there : w.state ≡ connecting → has w.socket ≡ true
    pub server_inv : Inv os w.server

  pub on_server-Safe :
      (f : EpollServer os → Outcome (EpollServer os)) (w : ClientWorld os)
      → Returns os (Keeps os w.server) (f w.server)
      → IsWell w
      → Safe (λ w'. IsWell w' × (w'.client ≡ w.client)) (on_server os f w)
  on_server-Safe f w r v = by (f w.server) r
    where
      by :
          (m : Outcome (EpollServer os))
          → Returns os (Keeps os w.server) m
          → Safe
              (λ w'. IsWell w' × (w'.client ≡ w.client))
              (m >>= λ s. ok (record w { server = s }))
      by (ok s) k = (
        record { low = v.low; high = v.high; timer = v.timer; there = v.there; server_inv = k.inv },
        refl,
      )
      by (fault fatal) k = tt
      by (fault assertion) k = tt
      by (fault length_error) k = absurd k
      by (fault bad_pointer) k = absurd k

  pub unregister-Safe :
      (w : ClientWorld os)
      → IsWell w
      → has w.socket ≡ true
      → Safe (λ w'. IsWell w' × (w'.client ≡ w.client)) (unregister os w)
  unregister-Safe w v there = elim (Option-cases w.socket) [
    | inl e ↦ absurd (ground (arith, e, there))
    | inr (k, e) ↦
        rw (e, Safe)
          (on_server-Safe (unregister_fd os k.fd) w
            (unregister_fd-Keeps os k.fd w.server v.server_inv) v)
  ]

  pub try_again-Safe :
      (w : ClientWorld os) → IsWell w → has w.socket ≡ true → Safe IsWell (try_again os w)
  unfolding try_again
  try_again-Safe w v there = elim (Option-cases w.socket) [
    | inl e ↦ absurd (ground (arith, e, there))
    | inr (k, e) ↦ elim (Bool-cases w.wants) [
      | inl on ↦
          rw (e, on, Safe)
            (record {
              low = omega (arith, v.low, v.high);
              high = omega arith;
              timer = v.high;
              there = λ c. refl;
              server_inv = v.server_inv;
            })
      | inr off ↦
          rw (e, off, Safe)
            (record {
              low = v.low;
              high = v.high;
              timer = v.timer;
              there = λ c. refl;
              server_inv = v.server_inv;
            })
    ]
  ]
