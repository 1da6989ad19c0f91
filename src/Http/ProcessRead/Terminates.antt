-- ===== src/Http/ProcessRead/Terminates.antt =====
-- http/src/http_conn.cpp, process_read: the end of its loop, and the indices that it leaves.
use my_web_server_cmake.Prelude.{
  ℕ, zero, suc, ◌+◌, ◌-◌, ◌*◌, ◌≤◌, ◌<◌, ◌≡◌, arith, refl, subst, length,
}
use my_web_server_cmake.Http.Conn.{
  Conn, HttpCode, CheckState, check_state_requestline, check_state_header, check_state_content,
  no_request, get_request, bad_request,
}
use my_web_server_cmake.Http.Line.{LineStatus, line_ok, line_bad, line_open, parse_line}
use my_web_server_cmake.Http.Line.Scan.{parse_line-Within}
use my_web_server_cmake.Http.Request.{
  done, fault, out_of_fuel, Reply, parse_request_line, parse_headers, parse_content,
}
use my_web_server_cmake.Http.ProcessRead.{
  Next, stop, again, after_request_line, after_headers, after_content, handle_line, process_line,
  after_line, line_there, round_at, round, process_read_loop, process_read,
}
use my_web_server_cmake.Http.ProcessRead.Frame.{
  Kept, Keeps, parse_request_line-Keeps, parse_headers-Keeps, parse_content-Keeps,
}

-- The indices of a connection that is being read are in order, inside the buffer.
pub record IsReading (c : Conn) : Type 0 where
  pub lines : c.m_start_line ≤ c.m_check_index
  pub checked : c.m_check_index ≤ c.m_read_index
  pub stored : c.m_read_index ≤ length c.m_read_buf

-- What is left to do, as a number that every round makes smaller.
abbrev pub measure : LineStatus → Conn → ℕ
measure line_ok c = 2 * (c.m_read_index - c.m_check_index) + 1
measure _ c = 2 * (c.m_read_index - c.m_check_index)

-- A reply of the handler of a complete request: it is no NO_REQUEST, and does not lack fuel.
abbrev pub IsFinal : Reply → Type 0
IsFinal (done (no_request, d)) = ⊥
IsFinal out_of_fuel = ⊥
IsFinal _ = Unit {0}

-- A reply that asks for more bytes leaves the indices in order, and `n` bytes received.
abbrev pub EndsWell : ℕ → Reply → Type 0
EndsWell n (done (no_request, d)) = IsReading d × (d.m_read_index ≡ n)
EndsWell n out_of_fuel = ⊥
EndsWell n _ = Unit {0}

EndsWell-of_final : (n : ℕ) (r : Reply) → IsFinal r → EndsWell n r
EndsWell-of_final n (done (no_request, d)) h = absurd h
EndsWell-of_final n (done (_, d)) h = tt
EndsWell-of_final n fault h = tt
EndsWell-of_final n out_of_fuel h = h

module _ (do_request : Conn → Reply) (final : (c : Conn) → IsFinal (do_request c)) where
  -- How handling a line goes on: to an end, or with the indices kept.
  abbrev Goes : Conn → Next → Type 0
  Goes c (stop r) = EndsWell c.m_read_index r
  Goes c (again s d) = Kept c d

  after_request_line-Goes : (c : Conn) (r : Reply) → Keeps c r → Goes c (after_request_line r)
  after_request_line-Goes c (done (bad_request, d)) k = tt
  after_request_line-Goes c (done (_, d)) k = k
  after_request_line-Goes c fault k = tt
  after_request_line-Goes c out_of_fuel k = absurd k

  after_headers-Goes :
      (c : Conn) (r : HttpCode × Conn) → Kept c r.1 → Goes c (after_headers do_request r)
  after_headers-Goes c (bad_request, d) k = tt
  after_headers-Goes c (get_request, d) k =
      EndsWell-of_final c.m_read_index (do_request d) (final d)
  after_headers-Goes c (_, d) k = k

  -- Behind the headers a line that is not the last makes the next round call parse_line.
  abbrev GoesOpen : Conn → Next → Type 0
  GoesOpen c (stop r) = EndsWell c.m_read_index r
  GoesOpen c (again s d) = (s ≡ line_open) × Kept c d

  after_content-GoesOpen :
      (c : Conn) (r : Reply) → Keeps c r → GoesOpen c (after_content do_request r)
  after_content-GoesOpen c (done (get_request, d)) k =
      EndsWell-of_final c.m_read_index (do_request d) (final d)
  after_content-GoesOpen c (done (_, d)) k = (refl, k)
  after_content-GoesOpen c fault k = tt
  after_content-GoesOpen c out_of_fuel k = absurd k

  GoesOpen→Goes : (c : Conn) (n : Next) → GoesOpen c n → Goes c n
  GoesOpen→Goes c (stop r) g = g
  GoesOpen→Goes c (again s d) (_, k) = k

  handle_line-Goes :
      (state : CheckState) (text : ℕ) (c : Conn) → Goes c (handle_line do_request state text c)
  unfolding handle_line
  handle_line-Goes check_state_requestline text c =
      after_request_line-Goes c (parse_request_line text c) (parse_request_line-Keeps text c)
  handle_line-Goes check_state_header text c =
      after_headers-Goes c (parse_headers text c) (parse_headers-Keeps text c)
  handle_line-Goes check_state_content text c =
      GoesOpen→Goes c _
        (after_content-GoesOpen c (parse_content text c) (parse_content-Keeps text c))

  handle_content-GoesOpen :
      (text : ℕ) (c : Conn) → GoesOpen c (handle_line do_request check_state_content text c)
  unfolding handle_line
  handle_content-GoesOpen text c =
      after_content-GoesOpen c (parse_content text c) (parse_content-Keeps text c)

  -- What a round does: it ends the loop well, or keeps the indices in order and has less left to do.
  abbrev Lowers : LineStatus → Conn → Next → Type 0
  Lowers s c (stop r) = EndsWell c.m_read_index r
  Lowers s c (again s' d) =
      IsReading d × (d.m_read_index ≡ c.m_read_index) × (measure s' d < measure s c)

  measure-le :
      (s : LineStatus) (c : Conn) → measure s c ≤ 2 * (c.m_read_index - c.m_check_index) + 1
  measure-le line_ok c = omega arith
  measure-le _ c = omega arith

  le-measure : (s : LineStatus) (c : Conn) → 2 * (c.m_read_index - c.m_check_index) ≤ measure s c
  le-measure line_ok c = omega arith
  le-measure _ c = omega arith

  -- The body of the loop, behind a line that moved the index on.
  line-Lowers :
      (s : LineStatus) (c d : Conn) (n : Next)
      → IsReading d
      → d.m_read_index ≡ c.m_read_index
      → c.m_check_index < d.m_check_index
      → Goes (record d { m_start_line = d.m_check_index }) n
      → Lowers s c n
  line-Lowers s c d (stop r) v e lt g = subst (λ n. EndsWell n r) e g
  line-Lowers s c d (again s' d') v e lt k =
      (omega arith, omega arith, omega (arith, measure-le s' d', le-measure s c))

  content-Lowers :
      (c : Conn) (n : Next)
      → IsReading c
      → GoesOpen (record c { m_start_line = c.m_check_index }) n
      → Lowers line_ok c n
  content-Lowers c (stop r) v g = g
  content-Lowers c (again s' d') v (e, k) = rw e (omega arith, omega arith, omega arith)

  line_there-Lowers :
      (s t : LineStatus) (c d : Conn)
      → IsReading d
      → d.m_read_index ≡ c.m_read_index
      → (t ≡ line_ok → c.m_check_index < d.m_check_index)
      → Lowers s c (line_there do_request d t)
  unfolding process_line
  line_there-Lowers s line_ok c d v e lt =
      line-Lowers s c d _ v e (lt refl) (handle_line-Goes d.m_check_state d.m_start_line _)
  line_there-Lowers s _ c d v e lt = (v, e)

  parsed-Lowers :
      (s : LineStatus) (c : Conn)
      → IsReading c
      → let o = parse_line c.m_read_buf c.m_read_index c.m_check_index in
        Lowers s c (line_there do_request (after_line do_request c o) o.status)
  parsed-Lowers s c v =
      let w = parse_line-Within c.m_read_buf c.m_read_index c.m_check_index v.checked in
      line_there-Lowers s _ c _ (omega arith) refl w.advanced

  round_at-Lowers :
      (s : LineStatus) (state : CheckState) (c : Conn)
      → IsReading c
      → Lowers s c (round_at do_request s state c)
  unfolding round_at
  round_at-Lowers line_ok check_state_content c v =
      content-Lowers c _ v (handle_content-GoesOpen c.m_start_line _)
  round_at-Lowers line_ok _ c v = parsed-Lowers line_ok c v
  round_at-Lowers line_bad state c v = parsed-Lowers line_bad c v
  round_at-Lowers line_open state c v = parsed-Lowers line_open c v

  process_read_loop-EndsWell :
      (n : ℕ) (s : LineStatus) (c : Conn)
      → IsReading c
      → measure s c < n
      → EndsWell c.m_read_index (process_read_loop do_request n s c)
  unfolding process_read_loop round
  process_read_loop-EndsWell zero s c v h = absurd (omega arith)
  process_read_loop-EndsWell (suc n) s c v h =
      next (round do_request s c) (round_at-Lowers s c.m_check_state c v)
        (process_read_loop-EndsWell n)
    where
      next :
          (r : Next)
          → Lowers s c r
          → ((s' : LineStatus) (d : Conn)
              → IsReading d
              → measure s' d < n
              → EndsWell d.m_read_index (process_read_loop do_request n s' d))
          → EndsWell c.m_read_index
              (elim r [ stop q ↦ q | again s' c' ↦ process_read_loop do_request n s' c' ])
      next (stop q) l rec = l
      next (again s' d) (w, e, lt) rec =
          subst (λ k. EndsWell k (process_read_loop do_request n s' d)) e (rec s' d w (omega arith))

  -- process_read always ends: it does not run out of its rounds, whatever bytes were received. Where
  -- it asks for more bytes, the start of the line, the index of the next byte to look at and the
  -- number of bytes received are still in order inside `m_read_buf`, and no byte was received. The
  -- handler of complete requests is assumed to end with a reply that is not NO_REQUEST.
  pub process_read-EndsWell :
      (c : Conn) → IsReading c → EndsWell c.m_read_index (process_read do_request c)
  unfolding process_read
  process_read-EndsWell c v = process_read_loop-EndsWell _ line_ok c v (omega arith)
