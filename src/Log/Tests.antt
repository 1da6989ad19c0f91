-- ===== src/Log/Tests.antt =====
-- The log on a day, with files of two lines.
use my_web_server_cmake.Prelude.{
  ◌≡◌, ◌≤◌, inl, inr, refl, arith, Bool, true, false, none, some, List, [], ◌∷◌, length, replicate,
  pos, negsuc,
}
use my_web_server_cmake.Prelude.Run.{done}
use my_web_server_cmake.Http.Text.{Bytes, codes, slash, strrchr, last_index_of, cstr, until_nul}
use my_web_server_cmake.Http.Text.Decimal.{dec}
use my_web_server_cmake.BlockQueue.{BlockQueue, next_index}
use my_web_server_cmake.BlockQueue.Refine.{Holds}
use my_web_server_cmake.Log.{Log, Time, new_log, date_prefix, zero_padded, init, rotate}
use my_web_server_cmake.Log.Write.{stamp, level_text, write_log, write_next}
use my_web_server_cmake.Log.Names.{Named, Next, Rotated, file_path, rotate-Named}
use my_web_server_cmake.Log.Start.{init-Named}
use my_web_server_cmake.Log.Queue.{texts, all_lines}
use my_web_server_cmake.Log.InOrder.{
  Working, Logged, line_of, write_log-Logged, write_next-in_order,
}

abbrev day : Time
day = record { year = 2024; month = 5; mday = 26; hour = 9; min = 30; sec = 7; usec = 12 }

abbrev always : Bytes → Bool
always path = true

abbrev dir : Bytes
dir = codes "./"

abbrev name : Bytes
name = codes "runLog"

-- One line has been written, the next one fills the file.
abbrev one_line : Log
one_line = record {
  m_log_queue = none;
  m_fp = some (file_path day 0 dir name);
  dir_name = dir;
  log_name = name;
  m_split_lines = 2;
  m_log_buf_size = 100;
  m_count = 1;
  m_close_log = pos 0;
  m_is_async = false;
  m_buf = replicate 100 0;
  m_today = 26;
  written = (file_path day 0 dir name, codes "a") ∷ [];
}

one_line-Named : Named day one_line
one_line-Named = record { today = refl; fp = refl }

one_line-Working : Working one_line []
one_line-Working = record {
  day = day;
  named = one_line-Named;
  lines = inl (refl, refl);
  some_lines = omega arith;
}

rotate-Named_example :
    (m : Log) × (rotate always day one_line ≡ done m) × Next day day one_line m × Rotated one_line m
rotate-Named_example =
    rotate-Named always (λ path. refl) day one_line day (omega arith) one_line-Named

-- `./runLog`
abbrev file : Bytes
file = codes "./runLog"

file_slash : strrchr file 0 slash ≡ some 1
unfolding strrchr last_index_of cstr until_nul
file_slash = refl

short_date : length (date_prefix day) ≤ 15
unfolding date_prefix zero_padded dec
short_date = ground arith

short_stamp : length (stamp day 1) ≤ 47
unfolding stamp zero_padded dec level_text
short_stamp = ground arith

init-Named_example :
    (l : Log) × (init always file (pos 0) 100 2 (pos 8) day new_log ≡ done (true, l))
    × Named day l
    × (l.m_today ≡ 26)
    × (l.dir_name ≡ dir)
    × (l.log_name ≡ name)
    × (l.m_count ≡ 0)
    × (l.written ≡ [])
    × (l.m_split_lines ≡ 2)
init-Named_example =
    init-Named always file (pos 0) 100 2 (pos 8) day 1 (λ path. refl) file_slash (omega arith)
      (omega arith) short_date (omega arith)

write_log-Logged_example :
    (m : Log) × (queued' : List Bytes) × (write_log always day 1 (codes "b") one_line ≡ done m)
    × Working m queued'
    × Logged one_line [] m queued' (line_of day 1 (codes "b"))
write_log-Logged_example =
    write_log-Logged always day 1 (codes "b") one_line [] (λ path. refl) one_line-Working
      short_stamp (omega (arith, short_stamp)) ((λ z. omega (arith, z)), tt)

-- With a queue, in which a line waits.
abbrev waiting : BlockQueue Bytes
waiting = record {
  m_array = codes "b" ∷ [] ∷ [];
  m_size = 1;
  m_max_size = 2;
  m_front = negsuc 0;
  m_back = pos 0;
}

waiting-Holds : Holds waiting (codes "b" ∷ [])
unfolding next_index
waiting-Holds = (
  0,
  record {
    array = refl;
    head_in = omega arith;
    bounded = omega arith;
    size = refl;
    front = refl;
    back = refl;
    last = λ p. refl;
    stored = (refl, tt);
  },
)

abbrev with_waiting : Log
with_waiting = record one_line { m_is_async = true; m_log_queue = some waiting }

with_waiting-Working : Working with_waiting (codes "b" ∷ [])
with_waiting-Working = record {
  day = day;
  named = record { today = refl; fp = refl };
  lines = inr (waiting, refl, refl, waiting-Holds);
  some_lines = omega arith;
}

write_next-in_order_example :
    (m : Log) × (write_next [] with_waiting ≡ done (true, m))
    × Working m []
    × (texts m.written ≡ codes "a" ∷ codes "b" ∷ [])
    × (all_lines m [] ≡ codes "a" ∷ codes "b" ∷ [])
write_next-in_order_example =
    write_next-in_order [] with_waiting (codes "b") [] with_waiting-Working
