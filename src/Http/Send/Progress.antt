-- ===== src/Http/Send/Progress.antt =====
-- What the client is sent.
use my_web_server_cmake.Prelude.{
  ℕ, zero, suc, ◌+◌, ◌≤◌, ◌<◌, ◌≡◌, ◌⊎◌, inl, inr, arith, refl, ◌∙◌, ap, subst, true, false, Option,
  none, some, List, [], ◌∷◌, ◌++◌, length, take, drop, length-append, pos, take-length, leb_ℤ,
  if◌then◌else◌, Bool-cases,
}
use my_web_server_cmake.Http.Text.{Bytes}
use my_web_server_cmake.Http.Conn.{Conn, init}
use my_web_server_cmake.Http.Send.{
  Writev, wrote, eagain, failed, Call, munmap, Outcome, returned, no_answer, advance, unmap, finish,
  is_zero, write_loop, write, modfd_in, modfd_out,
}
use my_web_server_cmake.Http.Send.Position.{Sending, InTwo, advance-Sending, gather-Sending}

-- The documented results of writev, for an answer of `total` bytes of which `k` have gone, whose
-- head of `h` bytes goes out in at most two pieces: no call takes more than is left.
abbrev pub Fits : (h : Bytes) (total k : ℕ) → List Writev → Type 0
Fits h total k [] = Unit {0}
Fits h total k (wrote n ∷ rest) = (k + n ≤ total) × InTwo h k n × Fits h total (k + n) rest
Fits h total k (eagain ∷ rest) = Unit {0}
Fits h total k (failed ∷ rest) = Unit {0}

take-drop-append :
    (k n j : ℕ) (b : Bytes) → j ≡ k + n → j ≤ length b → take k b ++ take n (drop k b) ≡ take j b
take-drop-append zero n j b e h = ap (λ m. take m b) (omega arith)
take-drop-append (suc k) n zero b e h = absurd (omega arith)
take-drop-append (suc k) n (suc j) [] e h = absurd (omega arith)
take-drop-append (suc k) n (suc j) (x ∷ b) e h =
    ap (◌∷◌ x) (take-drop-append k n j b (omega arith) (omega arith))

-- The bytes that the results take up to the first error, and that error.
abbrev pub written_of : List Writev → ℕ
written_of [] = 0
written_of (wrote n ∷ rest) = n + written_of rest
written_of (eagain ∷ rest) = 0
written_of (failed ∷ rest) = 0

abbrev pub error_of : List Writev → Option Writev
error_of [] = none
error_of (wrote n ∷ rest) = error_of rest
error_of (eagain ∷ rest) = some eagain
error_of (failed ∷ rest) = some failed

-- How one call of write() ends that starts with `k` bytes sent. It is finished when all of `h ++ f` has
-- gone. Otherwise the first error decides: with EAGAIN it waits for the socket, and with another error
-- the socket has failed; with none the next writev has not returned. What has gone is then the prefix
-- of `j` bytes, and the connection can go on from there.
pub data Ends (h f : Bytes) (k : ℕ) (c : Conn) (results : List Writev) : Outcome → Type 0 where
  finished :
      (d : Conn) (o : Outcome)
      → k + written_of results ≡ length h + length f
      → Sending h f (length h + length f) d
      → d.m_linger ≡ c.m_linger
      → o ≡ finish d (h ++ f)
      → Ends h f k c results o
  waits :
      (d : Conn) (j : ℕ) (o : Outcome)
      → j ≡ k + written_of results
      → j < length h + length f
      → error_of results ≡ some eagain
      → Sending h f j d
      → o ≡ returned true d (take j (h ++ f)) (modfd_out ∷ [])
      → Ends h f k c results o
  broken :
      (d : Conn) (j : ℕ) (o : Outcome)
      → j ≡ k + written_of results
      → j < length h + length f
      → error_of results ≡ some failed
      → Sending h f j d
      → o ≡ returned false d (take j (h ++ f)) []
      → Ends h f k c results o
  pending :
      (o : Outcome)
      → k + written_of results < length h + length f
      → error_of results ≡ none
      → o ≡ no_answer
      → Ends h f k c results o

-- unmap() does nothing with a file that is mapped.
unmap_mapped : (c : Conn) (f : Bytes) → c.m_file_address ≡ some f → unmap c ≡ (c, [])
unfolding unmap
unmap_mapped c f e =
    ap
      (λ a. elim a as (λ x. Conn × List Call) [
        | none ↦ (record c { m_file_address = none }, munmap ∷ [])
        | some g ↦ (c, [])
      ])
      e

module _ (h f : Bytes) where
  left-zero :
      (k : ℕ) (c : Conn)
      → Sending h f k c
      → leb_ℤ c.bytes_to_send (pos 0) ≡ true
      → k ≡ length h + length f
  left-zero k c s e = ground arith

  linger-advance : (n : ℕ) (c : Conn) → (advance n c).m_linger ≡ c.m_linger
  unfolding advance
  linger-advance n c = ground arith

  left-more :
      (k : ℕ) (c : Conn)
      → Sending h f k c
      → leb_ℤ c.bytes_to_send (pos 0) ≡ false
      → k < length h + length f
  left-more k c s e = ground (arith, s.left)

  Fits-written :
      (results : List Writev) (k : ℕ)
      → k ≤ length h + length f
      → Fits h (length h + length f) k results
      → k + written_of results ≤ length h + length f
  Fits-written [] k le fits = omega arith
  Fits-written (wrote n ∷ rest) k le (le', two, fits) =
      omega (arith, Fits-written rest (k + n) le' fits)
  Fits-written (eagain ∷ rest) k le fits = omega arith
  Fits-written (failed ∷ rest) k le fits = omega arith

  Ends-wrote :
      (k n : ℕ) (c d : Conn) (rest : List Writev) (o : Outcome)
      → d.m_linger ≡ c.m_linger
      → Ends h f (k + n) d rest o
      → Ends h f k c (wrote n ∷ rest) o
  Ends-wrote k n c d rest o e (finished d' o' all s l q) = finished d' o' (omega arith) s (l ∙ e) q
  Ends-wrote k n c d rest o e (waits d' j o' at_j lt error s q) =
      waits d' j o' (omega arith) lt error s q
  Ends-wrote k n c d rest o e (broken d' j o' at_j lt error s q) =
      broken d' j o' (omega arith) lt error s q
  Ends-wrote k n c d rest o e (pending o' lt error q) = pending o' (omega arith) error q

  still_mapped : (k : ℕ) (c : Conn) → Sending h f k c → unmap c ≡ (c, [])
  still_mapped k c s = unmap_mapped c f s.file

  write_loop-Ends :
      (results : List Writev) (k : ℕ) (c : Conn)
      → Sending h f k c
      → k < length h + length f
      → Fits h (length h + length f) k results
      → Ends h f k c results (write_loop results c (take k (h ++ f)))
  unfolding write_loop
  write_loop-Ends [] k c s lt fits = pending _ (omega arith) refl refl
  write_loop-Ends (eagain ∷ rest) k c s lt fits = waits c k _ (omega arith) lt refl s refl
  write_loop-Ends (failed ∷ rest) k c s lt fits =
      broken c k _ (omega arith) lt refl s
        (ap (λ u. returned false u.0 (take k (h ++ f)) u.1) (still_mapped k c s))
  write_loop-Ends (wrote n ∷ rest) k c s lt (le, two, fits) =
      let s' = advance-Sending h f k n c s le two in
      let sent = take-drop-append k n (k + n) (h ++ f) refl (omega (arith, length-append h f)) in
      rw (gather-Sending h f k c s, write_loop)
        (elim (Bool-cases (leb_ℤ (advance n c).bytes_to_send (pos 0))) [
          | inl e ↦
              let done = left-zero (k + n) (advance n c) s' e in
              rw (e, sent)
                (finished (advance n c) _ (omega (arith, done, Fits-written rest (k + n) le fits))
                  (subst (λ m. Sending h f m (advance n c)) done s') (linger-advance n c)
                  (ap (finish (advance n c))
                    (take-length (k + n) (h ++ f) (omega (arith, length-append h f)))))
          | inr e ↦
              let rec =
                write_loop-Ends rest (k + n) (advance n c) s' (left-more (k + n) (advance n c) s' e)
                  fits in
              rw (e, sent) (Ends-wrote k n c (advance n c) rest _ (linger-advance n c) rec)
        ])

  -- One call of write() sends the answer on without loss. It starts with `k` bytes of the head and the
  -- mapped file sent and some left, and with any results of writev that take no more than is left and
  -- take the head in at most two pieces. If the results up to the first error take all that is left,
  -- write() finishes with exactly the head and the file sent. Otherwise what has been sent is the prefix
  -- that these results have taken, and the connection can go on from there: after EAGAIN write()
  -- returns true and epoll waits for output, after another error it returns false with no call made,
  -- and without an error its next writev has not returned.
  pub write-Ends :
      (results : List Writev) (k : ℕ) (c : Conn)
      → Sending h f k c
      → k < length h + length f
      → Fits h (length h + length f) k results
      → Ends h f k c results (write results c (take k (h ++ f)))
  unfolding write
  write-Ends results k c s lt fits =
      let more : is_zero c.bytes_to_send ≡ false = ground (arith, s.left) in
      rw more (write_loop-Ends results k c s lt fits)

  -- The results take all that is left, with no error in between.
  abbrev pub Reaches : ℕ → List Writev → Type 0
  Reaches k [] = ⊥
  Reaches k (wrote n ∷ rest) =
      (k + n ≡ length h + length f)
      ⊎ ((k + n < length h + length f) × InTwo h k n × Reaches (k + n) rest)
  Reaches k (eagain ∷ rest) = ⊥
  Reaches k (failed ∷ rest) = ⊥

  -- How an answer ends: with a keep-alive the connection is cleared for the next request, and without
  -- one it is left to be closed. In both cases epoll waits for input, and munmap is not called.
  abbrev pub answered : Conn → Outcome
  answered d =
      if d.m_linger
      then returned true (init d) (h ++ f) (modfd_in ∷ [])
      else returned false d (h ++ f) (modfd_in ∷ [])

  finish-answered : (k : ℕ) (d : Conn) → Sending h f k d → finish d (h ++ f) ≡ answered d
  unfolding finish unmap
  finish-answered k d s = ground (arith, s.file)

  write_loop-finishes :
      (results : List Writev) (k : ℕ) (c : Conn)
      → Sending h f k c
      → Reaches k results
      → (d : Conn) × (d.m_file_address ≡ some f)
        × (d.m_linger ≡ c.m_linger)
        × (write_loop results c (take k (h ++ f)) ≡ answered d)
  unfolding write_loop
  write_loop-finishes [] k c s r = absurd r
  write_loop-finishes (eagain ∷ rest) k c s r = absurd r
  write_loop-finishes (failed ∷ rest) k c s r = absurd r
  write_loop-finishes (wrote n ∷ rest) k c s (inl e) =
      let d = advance n c in
      let s' = advance-Sending h f k n c s (omega arith) (λ p q. omega arith) in
      let over : leb_ℤ d.bytes_to_send (pos 0) ≡ true = ground (arith, s'.left) in
      let whole = length-append h f in
      (
        d,
        s'.file,
        linger-advance n c,
        rw (gather-Sending h f k c s, write_loop)
            (rw
              (
                over,
                take-drop-append k n (k + n) (h ++ f) refl (omega arith),
                take-length (k + n) (h ++ f) (omega arith),
              )
              (finish-answered (k + n) d s')),
      )
  write_loop-finishes (wrote n ∷ rest) k c s (inr (lt, two, r)) =
      let s' = advance-Sending h f k n c s (omega arith) two in
      let more : leb_ℤ (advance n c).bytes_to_send (pos 0) ≡ false = ground (arith, s'.left) in
      let (d, file, linger, e) = write_loop-finishes rest (k + n) (advance n c) s' r in
      (
        d,
        file,
        linger ∙ linger-advance n c,
        rw (gather-Sending h f k c s, write_loop)
            (rw
              (more, take-drop-append k n (k + n) (h ++ f) refl (omega (arith, length-append h f)))
              e),
      )

  -- The whole answer is sent. Started on an answer with `k` bytes sent and some left, with results of
  -- writev that take all of it without an error, and the head in at most two pieces, write() ends with
  -- exactly the head and the file sent. It returns true and clears the connection for a request with
  -- keep-alive, and returns false otherwise; and the file is not unmapped.
  pub write-finishes :
      (results : List Writev) (k : ℕ) (c : Conn)
      → Sending h f k c
      → k < length h + length f
      → Reaches k results
      → (d : Conn) × (d.m_file_address ≡ some f)
        × (d.m_linger ≡ c.m_linger)
        × (write results c (take k (h ++ f)) ≡ answered d)
  unfolding write
  write-finishes results k c s lt r =
      let more : is_zero c.bytes_to_send ≡ false = ground (arith, s.left) in
      let (d, file, linger, e) = write_loop-finishes results k c s r in (d, file, linger, rw more e)
