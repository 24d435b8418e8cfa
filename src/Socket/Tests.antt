-- ===== src/Socket/Tests.antt =====
-- Sockets with given answers of the system.
use raner.Common.{
  zero, suc, ℕ, ◌≡◌, ◌≤◌, refl, ap, true, false, none, some, List, [], ◌∷◌, length, take, min,
  arith, Ends, subst,
}
use raner.Socket.{SendResult, sent, send_failed, econnreset, make_socket, inet6}
use raner.Socket.Setup.{Calls, port_is, listen, connect, einprogress}
use raner.Socket.Setup.Owner.{IsOwner, listen-IsOwner, connect-IsOwner}
use raner.Socket.Transfer.{write_num_bytes}
use raner.Socket.Transfer.Loops.{
  AcceptsSome, ChecksPass, Progresses, write_num_bytes_lem, write_num_bytes_all, counted,
}

abbrev slow_connect : Calls
slow_connect = record {
  resolved = some inet6;
  opened = 5;
  flags = some 2;
  set_flags = true;
  bound = none;
  listened = none;
  named = port_is 4000;
  connected = some einprogress;
}

connect-IsOwner_example :
    Ends (IsOwner slow_connect) (connect false slow_connect false 80 make_socket)
connect-IsOwner_example = connect-IsOwner slow_connect false 80 make_socket (inet6, refl)

listen-IsOwner_example : Ends (IsOwner slow_connect) (listen false slow_connect false 0 make_socket)
listen-IsOwner_example = listen-IsOwner slow_connect false 0 make_socket (inet6, refl)

-- At most two bytes go out at a time.
abbrev two_at_once : ℕ → List ℕ → SendResult
two_at_once i bytes = sent (min 2 (length bytes))

two_at_once-AcceptsSome : AcceptsSome two_at_once
two_at_once-AcceptsSome i n bytes e = subst (λ m. m ≤ length bytes) (ap counted e) (omega arith)

two_at_once-Progresses : Progresses two_at_once
two_at_once-Progresses i bytes h = (min 2 (length bytes), refl, omega arith)

-- The first call sends two bytes, the others fail with ECONNRESET.
abbrev reset_after_one : ℕ → List ℕ → SendResult
reset_after_one zero bytes = sent (min 2 (length bytes))
reset_after_one (suc i) bytes = send_failed econnreset

abbrev errno_in : SendResult → ℕ
errno_in (sent n) = 0
errno_in (send_failed errno) = errno

reset_after_one-AcceptsSome : AcceptsSome reset_after_one
reset_after_one-AcceptsSome zero n bytes e =
    subst (λ m. m ≤ length bytes) (ap counted e) (omega arith)
reset_after_one-AcceptsSome (suc i) n bytes e = absurd (cc e)

reset_after_one-ChecksPass : ChecksPass true reset_after_one
reset_after_one-ChecksPass zero errno bytes h e = absurd (cc e)
reset_after_one-ChecksPass (suc i) errno bytes h e =
    let same : econnreset ≡ errno = ap errno_in e in ground (arith, same)

write_num_bytes_lem_example :
    Ends
      (λ r. (r.1 ≤ 3) × (r.0.wire ≡ take r.1 (7 ∷ 8 ∷ 9 ∷ [])))
      (write_num_bytes true reset_after_one (7 ∷ 8 ∷ 9 ∷ []) make_socket)
unfolding make_socket
write_num_bytes_lem_example =
    write_num_bytes_lem true reset_after_one (7 ∷ 8 ∷ 9 ∷ []) make_socket
      reset_after_one-AcceptsSome reset_after_one-ChecksPass (omega arith)

write_num_bytes_all_example :
    Ends
      (λ r. (r.1 ≡ 3) × (r.0.wire ≡ 7 ∷ 8 ∷ 9 ∷ []))
      (write_num_bytes true two_at_once (7 ∷ 8 ∷ 9 ∷ []) make_socket)
unfolding make_socket
write_num_bytes_all_example =
    write_num_bytes_all true two_at_once (7 ∷ 8 ∷ 9 ∷ []) make_socket two_at_once-AcceptsSome
      two_at_once-Progresses (omega arith)
