-- ===== src/Http/Send/Torn.antt =====
-- A head that goes out in more than two pieces.
use my_web_server_cmake.Prelude.{
  ℕ, ◌+◌, ◌-◌, ◌≤◌, ◌<◌, ◌≡◌, arith, refl, ◌∙◌, ap₂, subst, false, some, none, Option, List, [],
  ◌∷◌, length, ℤ, pos, negsuc, leb_ℤ, ◌==◌,
}
use my_web_server_cmake.Http.Text.{Bytes}
use my_web_server_cmake.Http.Conn.{Conn, in_file}
use my_web_server_cmake.Http.Send.{
  Writev, wrote, fault, gather, advance, read_base, slice, is_zero, write_loop, write, append?,
  mapped,
}
use my_web_server_cmake.Http.Send.Position.{Sending, advance-Sending, gather-Sending}

-- After two pieces that leave a part of the head, but no more than the first piece was.
record TornHead (h f : Bytes) (k : ℕ) (c : Conn) : Type 0 where
  left : c.bytes_to_send ≡ pos (length h + length f - k)
  base : c.iv1.iov_base ≡ in_file (negsuc (length h - k - 1))
  len : c.iv1.iov_len ≡ pos (length h + length f - k)
  two : c.m_iv_count ≡ 2

advance-torn :
    (h f : Bytes) (k n : ℕ) (c : Conn)
    → Sending h f k c
    → k < length h
    → k + n < length h
    → length h ≤ k + (k + n)
    → TornHead h f (k + n) (advance n c)
unfolding advance
advance-torn h f k n c s lt lt' le = record {
  left = ground arith;
  base = ground arith;
  len = ground arith;
  two = ground arith;
}

slice-before : (b : Bytes) (m n : ℕ) → 0 < n → slice b (negsuc m) (pos n) ≡ none
unfolding slice
slice-before b m n h = ground arith

append?-none : (o : Option Bytes) → append? o none ≡ none
append?-none none = refl
append?-none (some a) = refl

outside : (c : Conn) (m n : ℕ) → 0 < n → read_base c (in_file (negsuc m)) (pos n) ≡ none
unfolding read_base
outside c m n h = slice-before (mapped c.m_file_address) m n h

gather-torn : (h f : Bytes) (k : ℕ) (c : Conn) → TornHead h f k c → k < length h → gather c ≡ none
unfolding gather
gather-torn h f k c t lt = rw (not_one, second) (append?-none _)
  where
    not_one : (c.m_iv_count == 1) ≡ false
    not_one = ground (arith, t.two)

    second : read_base c c.iv1.iov_base c.iv1.iov_len ≡ none
    second =
        ap₂ (read_base c) t.base t.len
        ∙ outside c (length h - k - 1) (length h + length f - k) (omega arith)

more-left : (m : ℕ) (z : ℤ) → z ≡ pos m → 0 < m → leb_ℤ z (pos 0) ≡ false
more-left m z e h = ground arith

loop-torn :
    (h f : Bytes) (n n' n'' : ℕ) (rest : List Writev) (c : Conn) (sent : Bytes)
    → Sending h f 0 c
    → n + n' < length h
    → length h ≤ n + (n + n')
    → write_loop (wrote n ∷ wrote n' ∷ wrote n'' ∷ rest) c sent ≡ fault
unfolding write_loop
loop-torn h f n n' n'' rest c sent s lt le =
    let c1 = advance n c in
    let c2 = advance n' c1 in
    let s1 = advance-Sending h f 0 n c s (omega arith) (λ p q. absurd (omega arith)) in
    let at_n : Sending h f n c1 = subst (λ k. Sending h f k c1) (omega arith) s1 in
    let torn = advance-torn h f n n' c1 at_n (omega arith) lt le in
    rw (gather-Sending h f 0 c s, write_loop)
      (rw (more-left _ c1.bytes_to_send at_n.left (omega arith)) (
        rw (gather-Sending h f n c1 at_n, write_loop)
          (rw (more-left _ c2.bytes_to_send torn.left (omega arith))
            (rw (gather-torn h f (n + n') c2 torn lt, write_loop) refl))))

-- A head that needs three pieces reads outside the file. If the first two writev of an answer leave a
-- part of the head that is no longer than the first piece, then the third writev is offered an iovec
-- that starts in front of the mapped file: write() compares all that has been sent with what is left
-- in the iovec of the head, and so takes the head for sent.
pub write-torn_head :
    (h f : Bytes) (n n' n'' : ℕ) (rest : List Writev) (c : Conn)
    → Sending h f 0 c
    → n + n' < length h
    → length h ≤ n + (n + n')
    → write (wrote n ∷ wrote n' ∷ wrote n'' ∷ rest) c [] ≡ fault
unfolding write
write-torn_head h f n n' n'' rest c s lt le =
    let more : is_zero c.bytes_to_send ≡ false = ground (arith, s.left) in
    rw more (loop-torn h f n n' n'' rest c [] s lt le)
