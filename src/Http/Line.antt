-- ===== src/Http/Line.antt =====
-- http/src/http_conn.cpp, parse_line: the inner state machine, which cuts the received bytes into
-- lines. `m_read_buf`, `m_read_index` and `m_check_index` are its only state, and are passed.
pub mod Scan
pub mod Resume
pub mod Cut
mod Tests
use my_web_server_cmake.Prelude.{ℕ, zero, suc, ◌+◌, ◌-◌, Bool, ◌&&◌, ltb, ◌==◌, if◌then◌else◌, set}
use my_web_server_cmake.Http.Text.{Bytes, at, cr, lf}

-- LINE_STATUS
pub data LineStatus : Type 0 where
  line_ok line_bad line_open : LineStatus

-- What a call leaves: its result, `m_read_buf` and `m_check_index`.
pub record LineResult : Type 0 where
  pub status : LineStatus
  pub buf : Bytes
  pub check_index : ℕ

abbrev pub result : LineStatus → Bytes → ℕ → LineResult
result s b c = record { status = s; buf = b; check_index = c }

-- The body of the loop at `c`, where `rest` is what the remaining rounds give.
unfoldable pub parse_line_step : Bytes → (read_index c : ℕ) → LineResult → LineResult
parse_line_step b r c rest =
    if at b c == cr
    then if c + 1 == r
      then result line_open b c
      else if at b (c + 1) == lf
      then result line_ok (set (set b c 0) (c + 1) 0) (c + 2)
      else result line_bad b c
    else if at b c == lf
    then if ltb 1 c && at b (c - 1) == cr
      then result line_ok (set (set b (c - 1) 0) c 0) (c + 1)
      else result line_bad b c
    else rest

-- The loop, with the number of rounds left to `m_read_index`.
unfoldable pub parse_line_loop : ℕ → Bytes → (read_index c : ℕ) → LineResult
parse_line_loop zero b r c = result line_open b c
parse_line_loop (suc n) b r c =
    let rest = parse_line_loop n b r (c + 1) in parse_line_step b r c rest

unfoldable pub parse_line : Bytes → (read_index check_index : ℕ) → LineResult
unfolding parse_line_loop parse_line_step
parse_line b r c = parse_line_loop (r - c) b r c
