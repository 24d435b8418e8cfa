-- ===== src/Socket/Transfer/Loops.antt =====
-- `WriteNumBytes` ends, and sends what it counts.
use raner.Common.{
  ℕ, zero, suc, ◌+◌, ◌-◌, ◌^◌, ◌≤◌, ◌<◌, ◌≡◌, refl, sym, ap, ◌∙◌, Bool, true, not, ◌||◌, List, [],
  ◌∷◌, ◌++◌, length, take, drop, ltb, ◌==◌, arith, append_assoc, append-nil, length-drop,
  Bool-cases, inl, inr, ◌⊎◌, ok, Ends, Ends-bind, take_all,
}
use raner.Socket.{
  eagain, close, Socket, SendResult, sent, send_failed, write, write_sent, set_socket_error,
}
use raner.Socket.Transfer.{int_of, write_loop, write_num_bytes}

-- No call accepts more bytes than it is given.
abbrev pub AcceptsSome : (ℕ → List ℕ → SendResult) → Type 0
AcceptsSome sends = (i n : ℕ) (bytes : List ℕ) → sends i bytes ≡ sent n → n ≤ length bytes

-- Each call accepts a byte, if it is given one.
abbrev pub Progresses : (ℕ → List ℕ → SendResult) → Type 0
Progresses sends =
    (i : ℕ) (bytes : List ℕ) → 0 < length bytes → (n : ℕ) × (sends i bytes ≡ sent n) × (0 < n)

-- A call that fails passes the `DCHECK` on its errno, which there is in debug builds.
abbrev pub ChecksPass : Bool → (ℕ → List ℕ → SendResult) → Type 0
ChecksPass debug sends =
    (i errno : ℕ) (bytes : List ℕ)
    → 0 < length bytes
    → sends i bytes ≡ send_failed errno
    → (not debug || not (errno == eagain)) ≡ true

take_more : (n m sum : ℕ) (l : List ℕ) → sum ≡ n + m → take sum l ≡ take n l ++ take m (drop n l)
take_more zero m sum l e = ap (λ k. take k l) (omega arith)
take_more (suc n) zero zero [] e = refl
take_more (suc n) (suc m) zero [] e = refl
take_more (suc n) zero (suc sum) [] e = refl
take_more (suc n) (suc m) (suc sum) [] e = refl
take_more (suc n) m zero (x ∷ l) e = absurd (omega arith)
take_more (suc n) m (suc sum) (x ∷ l) e = ap (◌∷◌ x) (take_more n m sum l (omega arith))

abbrev pub counted : SendResult → ℕ
counted (sent n) = n
counted (send_failed errno) = 0

SendResult-cases :
    (r : SendResult) → ((n : ℕ) × (r ≡ sent n)) ⊎ ((errno : ℕ) × (r ≡ send_failed errno))
SendResult-cases (sent n) = inl (n, refl)
SendResult-cases (send_failed errno) = inr (errno, refl)

close-wire : (k : Socket) → (close k).wire ≡ k.wire
unfolding close
close-wire k = ground arith

write_failed :
    (debug : Bool) (f : List ℕ → SendResult) (bytes : List ℕ) (errno : ℕ) (k : Socket)
    → f bytes ≡ send_failed errno
    → (not debug || not (errno == eagain)) ≡ true
    → write debug f bytes k ≡ ok (close (record k { socket_error = true }), send_failed errno)
unfolding write set_socket_error
write_failed debug f bytes errno k e pass = rw (e, write, pass) refl

module _ (debug : Bool) (sends : ℕ → List ℕ → SendResult) (bytes : List ℕ) (start : List ℕ) where
  -- What is counted is what went out.
  abbrev Counted : Socket × ℕ → Type 0
  Counted r =
      (r.1 ≤ length bytes)
      × (r.0.wire ≡ start ++ take r.1 bytes)
      × (Progresses sends → r.1 ≡ length bytes)

  write_loop-Counted :
      (fuel i written : ℕ) (k : Socket)
      → AcceptsSome sends
      → ChecksPass debug sends
      → written ≤ length bytes
      → length bytes - written < fuel
      → k.wire ≡ start ++ take written bytes
      → Ends Counted (write_loop fuel debug sends i bytes written k)
  unfolding write_loop
  write_loop-Counted zero i written k some pass h enough e = absurd (omega arith)
  write_loop-Counted (suc fuel) i written k some pass h enough e =
      elim (Bool-cases (ltb written (length bytes))) [
        | inr done ↦ rw done (h, e, λ p. ground arith)
        | inl more ↦ elim (SendResult-cases (sends i (drop written bytes))) [
          | inr (errno, failed) ↦
              rw
                (
                  more,
                  write_failed debug (sends i) (drop written bytes) errno k failed
                      (pass i errno (drop written bytes) (goes_on more) failed),
                )
                (
                  h,
                  close-wire (record k { socket_error = true }) ∙ e,
                  λ p. absurd (never_fails p more failed),
                )
          | inl (n, went) ↦
              let k' = record k { wire = k.wire ++ take n (drop written bytes) } in
              let fits = some i n (drop written bytes) went in
              let e' : k'.wire ≡ start ++ take (written + n) bytes =
                ap (λ l. l ++ take n (drop written bytes)) e
                ∙ append_assoc start (take written bytes) (take n (drop written bytes))
                ∙ ap (◌++◌ start) (sym (take_more written n (written + n) bytes refl)) in
              rw (more, write_sent debug (sends i) (drop written bytes) k n went)
                (elim (Bool-cases (n == 0)) [
                  | inl nothing ↦
                      rw nothing
                        (h, unchanged n nothing, λ p. absurd (never_none p more went nothing))
                  | inr some_sent ↦ rw some_sent (
                      write_loop-Counted fuel (suc i) (written + n) k' some pass
                        (omega (arith, fits, length-drop written bytes))
                        (ground (arith, enough, some_sent)) e')
                ])
        ]
      ]
    where
      goes_on : ltb written (length bytes) ≡ true → 0 < length (drop written bytes)
      goes_on more = ground (arith, more, length-drop written bytes)

      never_fails :
          {errno : ℕ}
          → Progresses sends
          → ltb written (length bytes) ≡ true
          → sends i (drop written bytes) ≡ send_failed errno
          → ⊥
      never_fails p more failed =
          let (n, went, _) = p i (drop written bytes) (goes_on more) in cc (went, failed)

      never_none :
          {n : ℕ}
          → Progresses sends
          → ltb written (length bytes) ≡ true
          → sends i (drop written bytes) ≡ sent n
          → (n == 0) ≡ true
          → ⊥
      never_none p more went nothing =
          let (m, went', pos) = p i (drop written bytes) (goes_on more) in
          let same = ap counted (sym went' ∙ went) in ground (arith, pos, same, nothing)

      unchanged :
          (n : ℕ)
          → (n == 0) ≡ true
          → k.wire ++ take n (drop written bytes) ≡ start ++ take written bytes
      unchanged n nothing =
          let zero_sent : n ≡ 0 = ground (arith, nothing) in
          ap (λ m. k.wire ++ take m (drop written bytes)) zero_sent ∙ append-nil k.wire ∙ e

  counts :
      (P : Socket × ℕ → Type 0) (k : Socket)
      → k.wire ≡ start
      → AcceptsSome sends
      → ChecksPass debug sends
      → ((r : Socket × ℕ) → Counted r → P (r.0, int_of r.1))
      → Ends P (write_num_bytes debug sends bytes k)
  unfolding write_num_bytes
  counts P k e some pass then =
      Ends-bind Counted P (write_loop (length bytes + 1) debug sends 0 bytes 0 k)
        (λ r. ok (r.0, int_of r.1))
        (write_loop-Counted (length bytes + 1) 0 0 k some pass (omega arith) (omega arith)
          (e ∙ sym (append-nil start)))
        then

-- WriteNumBytes of a message of less than 2 ^ 31 bytes, if no send accepts more bytes than those
-- offered, and in a debug build none fails with EAGAIN, returns, also where a send fails or
-- accepts nothing: the count that it returns is at most the length of the message, and that many
-- first bytes of the message have gone out, and no others.
pub write_num_bytes_lem :
    (debug : Bool) (sends : ℕ → List ℕ → SendResult) (bytes : List ℕ) (k : Socket)
    → AcceptsSome sends
    → ChecksPass debug sends
    → length bytes < 2 ^ 31
    → Ends
        (λ r. (r.1 ≤ length bytes) × (r.0.wire ≡ k.wire ++ take r.1 bytes))
        (write_num_bytes debug sends bytes k)
write_num_bytes_lem debug sends bytes k some pass short =
    counts debug sends bytes k.wire
      (λ r. (r.1 ≤ length bytes) × (r.0.wire ≡ k.wire ++ take r.1 bytes)) k refl some pass
      (λ r c.
        let whole : r.1 ≡ int_of r.1 = omega (arith, c.0, short) in
        (omega (arith, whole, c.0), c.1 ∙ ap (λ n. k.wire ++ take n bytes) whole))

-- WriteNumBytes of a message of less than 2 ^ 31 bytes, if each send accepts at least one byte of
-- those offered and no more than those, returns with the whole message on the wire and says that
-- it wrote it all.
pub write_num_bytes_all :
    (debug : Bool) (sends : ℕ → List ℕ → SendResult) (bytes : List ℕ) (k : Socket)
    → AcceptsSome sends
    → Progresses sends
    → length bytes < 2 ^ 31
    → Ends
        (λ r. (r.1 ≡ length bytes) × (r.0.wire ≡ k.wire ++ bytes))
        (write_num_bytes debug sends bytes k)
write_num_bytes_all debug sends bytes k some p short =
    counts debug sends bytes k.wire (λ r. (r.1 ≡ length bytes) × (r.0.wire ≡ k.wire ++ bytes)) k
      refl some
      (λ i errno rest offered failed.
        let (n, went, pos) = p i rest offered in absurd (cc (went, failed)))
      (λ r c.
        let all : r.1 ≡ length bytes = c.2 p in
        let whole : r.1 ≡ int_of r.1 = omega (arith, all, short) in
        (
          omega (arith, all, whole),
          c.1
              ∙ ap (◌++◌ k.wire)
                  (ap (λ n. take n bytes) all ∙ take_all (length bytes) bytes (omega arith)),
        ))
