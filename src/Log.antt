-- ===== src/Log.antt =====
-- log/src/log.cpp and log/include/log.h: the log, which names its files by the day and by the number of
-- lines, and which a queue can put between those who log and the file. fopen(), the time, and the text
-- that vsnprintf makes of a format and its arguments are inputs. A `FILE *` is the path that it was opened
-- with, NULL is `none`; the lines are recorded with the paths of their files. Each part under `m_mutex`
-- is one step. fflush() does not show.
pub mod Write
pub mod Names
pub mod Start
pub mod Stamp
pub mod Lines
pub mod Queue
pub mod InOrder
mod Tests
use my_web_server_cmake.Prelude.{
  ℕ, zero, suc, ◌+◌, ◌-◌, ◌/◌, ◌%◌, Bool, true, false, not, ◌&&◌, ◌||◌, Option, none, some, List,
  [], ◌∷◌, ◌++◌, length, take, drop, replicate, ltb, leb, ◌==◌, if◌then◌else◌, ℤ, pos, negsuc,
}
use my_web_server_cmake.Prelude.Run.{Run, done, fault, out_of_fuel, ◌>>=◌}
use my_web_server_cmake.Http.Text.{Bytes, codes, slash, cstr, strrchr, overwrite}
use my_web_server_cmake.Http.Text.Decimal.{dec}
use my_web_server_cmake.BlockQueue
use my_web_server_cmake.BlockQueue.{BlockQueue, Result, Wakeup, block_queue, full, push, pop}

-- The time, as localtime() and gettimeofday() give it: the year counts from 0, the month from 1.
pub record Time : Type 0 where
  pub year : ℕ
  pub month : ℕ
  pub mday : ℕ
  pub hour : ℕ
  pub min : ℕ
  pub sec : ℕ
  pub usec : ℕ

-- `dir_name` and `log_name` are the strings in these arrays. `written` is what fputs was given.
pub record Log : Type 0 where
  pub m_log_queue : Option (BlockQueue Bytes)
  pub m_fp : Option Bytes
  pub dir_name : Bytes
  pub log_name : Bytes
  pub m_split_lines : ℕ
  pub m_log_buf_size : ℕ
  pub m_count : ℕ
  pub m_close_log : ℤ
  pub m_is_async : Bool
  pub m_buf : Bytes
  pub m_today : ℕ
  pub written : List (Bytes × Bytes)

-- Log(), on the zeros of a static variable
unfoldable pub new_log : Log
new_log = record {
  m_log_queue = none;
  m_fp = none;
  dir_name = [];
  log_name = [];
  m_split_lines = 0;
  m_log_buf_size = 0;
  m_count = 0;
  m_close_log = pos 0;
  m_is_async = false;
  m_buf = [];
  m_today = 0;
  written = [];
}

-- `%0wd`
unfoldable pub zero_padded : (w : ℕ) → ℕ → Bytes
zero_padded w n = let digits = dec n in replicate (w - length digits) 48 ++ digits

-- "%d_%02d_%02d_"
unfoldable pub date_prefix : Time → Bytes
unfolding zero_padded
date_prefix t =
    dec t.year
    ++ codes "_"
    ++ zero_padded 2 t.month
    ++ codes "_"
    ++ zero_padded 2 t.mday
    ++ codes "_"

-- What snprintf(s, n, …) leaves of a text.
abbrev pub snprintf : ℕ → Bytes → Bytes
snprintf n text = take (n - 1) text

abbrev pub name_room : ℕ
name_room = 128

-- The names of the files of the day of `t`: the first, and one behind it.
unfoldable pub day_name : Time → (dir_name log_name : Bytes) → Bytes
day_name t dir_name log_name = snprintf 255 (dir_name ++ (snprintf 16 (date_prefix t) ++ log_name))

unfoldable pub part_name : Time → (part : ℕ) → (dir_name log_name : Bytes) → Bytes
part_name t part dir_name log_name =
    snprintf 255 (dir_name ++ (snprintf 16 (date_prefix t) ++ (log_name ++ codes "." ++ dec part)))

abbrev pub with_queue : ℤ → Log → Log
with_queue (pos (suc n)) l = record l {
  m_is_async = true;
  m_log_queue = block_queue [] (pos (suc n));
}
with_queue _ l = l

module _ (fopen : Bytes → Bool) where
  abbrev pub opened : Bytes → Option Bytes
  opened path = if fopen path then some path else none

  -- The end of init, with the name of the file.
  unfoldable pub open_log : Bytes → Time → Log → Bool × Log
  open_log path t l =
      let fp = opened path in
      (elim fp [ none ↦ false | some p ↦ true ], record l { m_today = t.mday; m_fp = fp })

  -- The file's name in init, with the directory's and the rest of it kept. The arrays have 128 bytes.
  unfoldable pub name_log : Time → (file_name : Bytes) → Log → Run (Bool × Log)
  unfolding open_log
  name_log t file_name l = elim (strrchr file_name 0 slash) [
    | none ↦ done (open_log (snprintf 255 (date_prefix t ++ file_name)) t l)
    | some p ↦
        let dir = take (p + 1) file_name in
        let name = drop (p + 1) file_name in
        if ltb (length name) name_room && ltb (length dir) name_room
        then done (
            open_log (snprintf 255 (dir ++ (date_prefix t ++ name))) t
              (record l { dir_name = dir; log_name = name }))
        else fault
  ]

  -- init, on a new Log
  unfoldable pub init :
      (file_name : Bytes) (close_log : ℤ) (log_buf_size split_lines : ℕ) (max_queue_size : ℤ)
      → Time
      → Log
      → Run (Bool × Log)
  unfolding name_log
  init file_name close_log log_buf_size split_lines max_queue_size t l =
      name_log t file_name (record (with_queue max_queue_size l) {
        m_close_log = close_log;
        m_log_buf_size = log_buf_size;
        m_buf = replicate log_buf_size 0;
        m_split_lines = split_lines;
      })

  -- The first part of write_log under the lock: a new day or the end of a file's lines opens another.
  unfoldable pub rotate : Time → Log → Run Log
  unfolding day_name part_name
  rotate t l =
      let count = l.m_count + 1 in
      if not (l.m_today == t.mday)
      then (elim l.m_fp [
        | none ↦ fault
        | some p ↦ done (record l {
          m_today = t.mday;
          m_count = 0;
          m_fp = opened (day_name t l.dir_name l.log_name);
        })
      ])
      else if l.m_split_lines == 0
      then fault
      else if count % l.m_split_lines == 0
      then (elim l.m_fp [
        | none ↦ fault
        | some p ↦ done (record l {
          m_count = count;
          m_fp = opened (part_name t (count / l.m_split_lines) l.dir_name l.log_name);
        })
      ])
      else done (record l { m_count = count })
