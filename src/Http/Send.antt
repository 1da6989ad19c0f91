-- ===== src/Http/Send.antt =====
-- http/src/http_conn.cpp, write() and unmap(). What each writev returns is an input; the bytes that
-- it takes are those that the iovecs point at. epoll_ctl and munmap are recorded as calls.
pub mod Position
pub mod Progress
pub mod Torn
mod Tests
use my_web_server_cmake.Prelude.{
  ℕ, ◌+◌, Bool, true, false, Option, none, some, List, [], ◌∷◌, ◌++◌, length, take, drop, ltb, leb,
  ◌||◌, ◌==◌, if◌then◌else◌, ℤ, pos, negsuc, ◌+ℤ◌, ◌-ℤ◌, leb_ℤ,
}
use my_web_server_cmake.Http.Text.{Bytes}
use my_web_server_cmake.Http.Conn.{Conn, init, Base, in_write_buff, in_file, Iovec}

-- What writev returns: a number of bytes, EAGAIN, or another error.
pub data Writev : Type 0 where
  wrote : ℕ → Writev
  eagain failed : Writev

-- The calls that write() makes beside writev.
pub data Call : Type 0 where
  modfd_in modfd_out munmap : Call

-- `no_answer`: the writev of the next round has not returned. `fault`: an iovec reads outside its
-- array.
pub data Outcome : Type 0 where
  returned : Bool → Conn → (sent : Bytes) → List Call → Outcome
  fault no_answer : Outcome

-- `len` bytes of an array from a signed offset. An empty iovec is not looked at.
unfoldable pub slice : Bytes → ℤ → ℤ → Option Bytes
slice b off (negsuc n) = none
slice b (negsuc m) (pos len) = if len == 0 then some [] else none
slice b (pos i) (pos len) =
    if len == 0 || leb (i + len) (length b) then some (take len (drop i b)) else none

-- The mapped file, where NULL has no bytes.
abbrev pub mapped : Option Bytes → Bytes
mapped none = []
mapped (some f) = f

unfoldable pub read_base : Conn → Base → ℤ → Option Bytes
unfolding slice
read_base c (in_write_buff off) len = slice c.m_write_buff off len
read_base c (in_file off) len = slice (mapped c.m_file_address) off len

abbrev pub append? : Option Bytes → Option Bytes → Option Bytes
append? (some a) (some b) = some (a ++ b)
append? _ _ = none

-- The bytes that writev is offered.
unfoldable pub gather : Conn → Option Bytes
gather c =
    let first = read_base c c.iv0.iov_base c.iv0.iov_len in
    if c.m_iv_count == 1 then first else append? first (read_base c c.iv1.iov_base c.iv1.iov_len)

-- unmap(): its test is the wrong way round, so a file that is mapped stays mapped.
unfoldable pub unmap : Conn → Conn × List Call
unmap c = elim c.m_file_address [
  | none ↦ (record c { m_file_address = none }, munmap ∷ [])
  | some f ↦ (c, [])
]

-- The counts and the iovecs after `n` bytes have gone.
unfoldable pub advance : ℕ → Conn → Conn
advance n c =
    let have = c.bytes_have_send +ℤ pos n in
    let left = c.bytes_to_send -ℤ pos n in
    if leb_ℤ c.iv0.iov_len have
    then record c {
      bytes_have_send = have;
      bytes_to_send = left;
      iv0 = record { iov_base = c.iv0.iov_base; iov_len = pos 0 };
      iv1 = record { iov_base = in_file (have -ℤ pos c.m_write_index); iov_len = left };
    }
    else record c {
      bytes_have_send = have;
      bytes_to_send = left;
      iv0 = record { iov_base = in_write_buff have; iov_len = c.iv0.iov_len -ℤ have };
    }

-- The end of an answer.
unfoldable pub finish : Conn → Bytes → Outcome
unfolding unmap
finish c sent =
    let (c', calls) = unmap c in
    if c'.m_linger
    then returned true (init c') sent (calls ++ modfd_in ∷ [])
    else returned false c' sent (calls ++ modfd_in ∷ [])

-- `while (1)`, a round for each writev that returns. `sent` is what has gone.
unfoldable pub write_loop : List Writev → Conn → Bytes → Outcome
write_loop [] c sent = no_answer
write_loop (eagain ∷ rest) c sent = returned true c sent (modfd_out ∷ [])
write_loop (failed ∷ rest) c sent = returned false (unmap c).0 sent (unmap c).1
write_loop (wrote n ∷ rest) c sent = elim (gather c) [
  | none ↦ fault
  | some bytes ↦
      let c' = advance n c in
      let sent' = sent ++ take n bytes in
      elim (leb_ℤ c'.bytes_to_send (pos 0)) [
        | true ↦ finish c' sent'
        | false ↦ write_loop rest c' sent'
      ]
]

unfoldable pub is_zero : ℤ → Bool
is_zero (pos n) = n == 0
is_zero (negsuc n) = false

-- One call of write(). `sent` is what earlier calls have sent of the same answer.
unfoldable pub write : List Writev → Conn → Bytes → Outcome
unfolding is_zero
write results c sent =
    if is_zero c.bytes_to_send
    then returned true (init c) sent (modfd_in ∷ [])
    else write_loop results c sent
