-- ===== src/Http/Line/Scan.antt =====
-- http/src/http_conn.cpp, parse_line: where it stops, and which bytes it changes.
use my_web_server_cmake.Prelude.{
  ℕ, zero, suc, ◌+◌, ◌-◌, ◌≤◌, ◌<◌, ◌≡◌, ◌≢◌, arith, length, length-set, set, get_elem?,
  get_elem?-set_ne, refl, ◌∙◌,
}
use my_web_server_cmake.Http.Text.{Bytes}
use my_web_server_cmake.Http.Line.{
  line_ok, LineResult, parse_line_step, parse_line_loop, parse_line,
}

-- The index does not move back or pass the received bytes; the buffer keeps its size, and no byte
-- is written behind the index nor, on an incomplete or a bad line, at all.
pub record Within (b : Bytes) (r c : ℕ) (o : LineResult) : Type 0 where
  pub forward : c ≤ o.check_index
  pub received : o.check_index ≤ r
  pub same_size : length o.buf ≡ length b
  pub past : (j : ℕ) → o.check_index ≤ j → get_elem? o.buf j ≡ get_elem? b j
  pub unread : o.status ≢ line_ok → o.buf ≡ b
  pub advanced : o.status ≡ line_ok → c < o.check_index

two_sets :
    (b : Bytes) (i k j : ℕ) → i < j → k < j → get_elem? (set (set b i 0) k 0) j ≡ get_elem? b j
two_sets b i k j h h' =
    get_elem?-set_ne (set b i 0) k j 0 (omega arith) ∙ get_elem?-set_ne b i j 0 (omega arith)

parse_line_step-past :
    (b : Bytes) (r c : ℕ) (rest : LineResult) (j : ℕ)
    → (rest.check_index ≤ j → get_elem? rest.buf j ≡ get_elem? b j)
    → (parse_line_step b r c rest).check_index ≤ j
    → get_elem? (parse_line_step b r c rest).buf j ≡ get_elem? b j
unfolding parse_line_step
parse_line_step-past b r c rest j w h =
    ground (arith, two_sets b c (c + 1) j, two_sets b (c - 1) c j)

parse_line_step-Within :
    (b : Bytes) (r c : ℕ) (rest : LineResult)
    → c < r
    → Within b r (c + 1) rest
    → Within b r c (parse_line_step b r c rest)
unfolding parse_line_step
parse_line_step-Within b r c rest h w = record {
  forward = ground arith;
  received = ground arith;
  same_size = ground (
    arith,
    length-set b c 0,
    length-set (set b c 0) (c + 1) 0,
    length-set b (c - 1) 0,
    length-set (set b (c - 1) 0) c 0,
  );
  past = λ j q. parse_line_step-past b r c rest j (w.past j) q;
  unread = ground arith;
  advanced = ground arith;
}

pub parse_line_loop-Within :
    (n : ℕ) (b : Bytes) (r c : ℕ) → c + n ≡ r → Within b r c (parse_line_loop n b r c)
unfolding parse_line_loop
parse_line_loop-Within zero b r c e = record {
  forward = omega arith;
  received = omega arith;
  same_size = refl;
  past = λ j q. refl;
  unread = λ q. refl;
  advanced = λ q. cc;
}
parse_line_loop-Within (suc n) b r c e =
    parse_line_step-Within b r c _ (omega arith)
      (parse_line_loop-Within n b r (c + 1) (omega arith))

-- parse_line, started inside the received bytes, ends inside them. It never moves its index back,
-- changes no byte at or behind the index it stops at, keeps the size of the buffer, changes nothing
-- at all unless it completes a line, and moves on by at least one byte when it does.
pub parse_line-Within : (b : Bytes) (r c : ℕ) → c ≤ r → Within b r c (parse_line b r c)
unfolding parse_line
parse_line-Within b r c h = parse_line_loop-Within (r - c) b r c (omega arith)
