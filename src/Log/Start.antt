-- ===== src/Log/Start.antt =====
-- log/src/log.cpp, init: the first file.
use native.Mathlib.Nat.{div-eq_of_lt}
use my_web_server_cmake.Prelude.{
  ℕ, zero, suc, ◌+◌, ◌/◌, ◌≡◌, ◌≤◌, ◌<◌, refl, Bool, true, some, [], ◌++◌, ap, ◌∙◌, sym, length,
  take, drop, take-length, lt→ltb, ℤ, pos, negsuc, replicate,
}
use my_web_server_cmake.Prelude.Run.{done}
use my_web_server_cmake.Http.Text.{Bytes, slash, strrchr}
use my_web_server_cmake.Log.{
  Log, Time, new_log, date_prefix, snprintf, open_log, with_queue, name_log, init, day_name,
}
use my_web_server_cmake.Log.Names.{Named, Rotated, file_path, file_path-day}

name_log-Named :
    (fopen : Bytes → Bool) (file : Bytes) (t : Time) (p : ℕ) (l : Log)
    → ((path : Bytes) → fopen path ≡ true)
    → strrchr file 0 slash ≡ some p
    → length (drop (p + 1) file) < 128
    → length (take (p + 1) file) < 128
    → length (date_prefix t) ≤ 15
    → 0 < l.m_split_lines
    → l.m_count ≡ 0
    → (m : Log) × (name_log fopen t file l ≡ done (true, m))
      × Named t m
      × (m.dir_name ≡ take (p + 1) file)
      × (m.log_name ≡ drop (p + 1) file)
      × (m.m_count ≡ l.m_count)
      × Rotated l m
unfolding name_log open_log day_name
name_log-Named fopen file t p l opens found short_name short_dir short_date some_lines none_yet =
    let dir = take (p + 1) file in
    let name = drop (p + 1) file in
    let path = snprintf 255 (dir ++ (date_prefix t ++ name)) in
    let whole = take-length 15 (date_prefix t) short_date in
    let part = ap (λ c. c / l.m_split_lines) none_yet ∙ div-eq_of_lt some_lines in
    (
      record l { dir_name = dir; log_name = name; m_today = t.mday; m_fp = some path },
      rw
          (
            name_log,
            found,
            lt→ltb (length name) 128 short_name,
            lt→ltb (length dir) 128 short_dir,
            opens path,
          )
          refl,
      record {
        today = refl;
        fp =
            ap (λ d. some (snprintf 255 (dir ++ (d ++ name)))) (sym whole)
            ∙ ap some (file_path-day t dir name)
            ∙ ap (λ k. some (file_path t k dir name)) (sym part);
      },
      refl,
      refl,
      refl,
      record {
        queue = refl;
        is_async = refl;
        buf = refl;
        size = refl;
        lines = refl;
        written = refl;
      },
    )

with_queue-new :
    (max_queue_size : ℤ)
    → ((with_queue max_queue_size new_log).m_count ≡ 0)
      × ((with_queue max_queue_size new_log).written ≡ [])
unfolding new_log
with_queue-new (pos zero) = (refl, refl)
with_queue-new (pos (suc n)) = (refl, refl)
with_queue-new (negsuc n) = (refl, refl)

-- The log starts right. For a file name with a directory, both in their arrays, init at the time `t`
-- with a number of lines that is not 0 ends, where fopen() succeeds and the date of `t` has at most 15
-- characters. It returns true; the directory is the file name up to its last slash and the name what is
-- behind it; the open file is the first one of the year, month and day of `t` with this directory and
-- this name; and no line is counted or written.
pub init-Named :
    (fopen : Bytes → Bool) (file : Bytes) (close_log : ℤ) (size split : ℕ) (max_queue_size : ℤ)
    (t : Time) (p : ℕ)
    → ((path : Bytes) → fopen path ≡ true)
    → strrchr file 0 slash ≡ some p
    → length (drop (p + 1) file) < 128
    → length (take (p + 1) file) < 128
    → length (date_prefix t) ≤ 15
    → 0 < split
    → (l : Log) × (init fopen file close_log size split max_queue_size t new_log ≡ done (true, l))
      × Named t l
      × (l.m_today ≡ t.mday)
      × (l.dir_name ≡ take (p + 1) file)
      × (l.log_name ≡ drop (p + 1) file)
      × (l.m_count ≡ 0)
      × (l.written ≡ [])
      × (l.m_split_lines ≡ split)
unfolding init
init-Named fopen file close_log size split max_queue_size t p opens found short_name short_dir
      short_date some_lines =
    let (no_count, no_lines) = with_queue-new max_queue_size in
    let l0 = record (with_queue max_queue_size new_log) {
      m_close_log = close_log;
      m_log_buf_size = size;
      m_buf = replicate size 0;
      m_split_lines = split;
    } in
    let (m, e, n, dir, name, count, r) =
      name_log-Named fopen file t p l0 opens found short_name short_dir short_date some_lines
        no_count in
    (m, e, n, n.today, dir, name, count ∙ no_count, r.written ∙ no_lines, r.lines)
