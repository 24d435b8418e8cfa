-- ===== src/Socket/Transfer.antt =====
-- raner/socket.cc: reading, and the loops that read or write a given number of bytes. The answers
-- of the system calls are a function of the number of calls made before. A call moves less than
-- 2 ^ 31 bytes, so that `Read` and `Write` do not cut its count off.
pub mod Loops
use raner.Common.{
  ℕ, zero, suc, ◌+◌, ◌-◌, ◌%◌, ◌^◌, ◌≤◌, ◌<◌, ◌≡◌, refl, sym, ap, ◌∙◌, Bool, true, false, List, [],
  ◌∷◌, ◌++◌, length, take, drop, ltb, ◌==◌, arith, if◌then◌else◌, Outcome, ok, fault, assertion,
  ◌>>=◌, ◌>>◌,
}
use raner.Socket.{Socket, SendResult, sent, send_failed, set_socket_error, write}

-- `static_cast<int>` of a `size_t`; from 2 ^ 31 on it stands for a negative number.
abbrev pub int_of : ℕ → ℕ
int_of n = n % 2 ^ 32

pub data Received : Type 0 where
  read_bytes : List ℕ → Received
  read_failed : ℕ → Received

-- `Read` of a buffer with room for `count` bytes.
pub read : Bool → (ℕ → Received) → ℕ → Socket → Outcome (Socket × Received)
unfolding set_socket_error
read debug answer count k = elim (answer count) [
  | read_bytes bytes ↦ ok (k, read_bytes bytes)
  | read_failed errno ↦ set_socket_error debug errno k >>= λ k'. ok (k', read_failed errno)
]

-- The loop of `ReadNumBytes`: `got` are the bytes read, and fuel bounds the calls.
pub read_loop : ℕ → Bool → (ℕ → ℕ → Received) → ℕ → ℕ → List ℕ → Socket → Outcome (Socket × List ℕ)
unfolding read
read_loop zero debug answers round num_bytes got k = fault assertion
read_loop (suc fuel) debug answers round num_bytes got k =
    let rest = read_loop fuel debug answers (suc round) num_bytes in
    if ltb (length got) num_bytes
    then (read debug (answers round) (num_bytes - length got) k >>= λ r. elim r.1 [
      | read_failed errno ↦ ok (r.0, got)
      | read_bytes [] ↦ ok (r.0, got)
      | read_bytes (x ∷ xs) ↦ rest (got ++ x ∷ xs) r.0
    ])
    else ok (k, got)

-- `ReadNumBytes`, with what is in the buffer and the count that it returns: each call but the last
-- brings a byte.
pub read_num_bytes : Bool → (ℕ → ℕ → Received) → ℕ → Socket → Outcome (Socket × List ℕ × ℕ)
unfolding read_loop
read_num_bytes debug answers num_bytes k =
    read_loop (num_bytes + 1) debug answers 0 num_bytes [] k >>= λ r.
    ok (r.0, r.1, int_of (length r.1))

-- The loop of `WriteNumBytes`: `written` counts the bytes sent.
pub write_loop :
    ℕ → Bool → (ℕ → List ℕ → SendResult) → ℕ → List ℕ → ℕ → Socket → Outcome (Socket × ℕ)
write_loop zero debug sends round bytes written k = fault assertion
write_loop (suc fuel) debug sends round bytes written k =
    let rest = write_loop fuel debug sends (suc round) bytes in
    if ltb written (length bytes)
    then (write debug (sends round) (drop written bytes) k >>= λ r. elim r.1 [
      | send_failed errno ↦ ok (r.0, written)
      | sent n ↦ if n == 0 then ok (r.0, written) else rest (written + n) r.0
    ])
    else ok (k, written)

pub write_num_bytes : Bool → (ℕ → List ℕ → SendResult) → List ℕ → Socket → Outcome (Socket × ℕ)
unfolding write_loop
write_num_bytes debug sends bytes k =
    write_loop (length bytes + 1) debug sends 0 bytes 0 k >>= λ r. ok (r.0, int_of r.1)

pub write_string : Bool → (ℕ → List ℕ → SendResult) → List ℕ → Socket → Outcome (Socket × ℕ)
unfolding write_num_bytes
write_string debug sends bytes k = write_num_bytes debug sends bytes k
