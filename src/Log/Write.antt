-- ===== src/Log/Write.antt =====
-- log/src/log.cpp, write_log, and the loop of log/include/log.h that writes the lines of the queue.
use my_web_server_cmake.Prelude.{
  ℕ, ◌+◌, ◌-◌, Bool, true, false, none, some, List, [], ◌∷◌, ◌++◌, length, ltb, ◌==◌, if◌then◌else◌,
}
use my_web_server_cmake.Prelude.Run.{Run, done, fault, out_of_fuel, ◌>>=◌}
use my_web_server_cmake.Http.Text.{Bytes, codes, cstr, overwrite}
use my_web_server_cmake.Http.Text.Decimal.{dec}
use my_web_server_cmake.BlockQueue
use my_web_server_cmake.BlockQueue.{BlockQueue, Result, Wakeup, block_queue, full, push, pop}
use my_web_server_cmake.Log.{Log, Time, zero_padded, snprintf, rotate}

-- The text of a level.
unfoldable pub level_text : ℕ → Bytes
level_text level =
    if level == 0
    then codes "[debug]:"
    else if level == 2
    then codes "[warn]:"
    else if level == 3
    then codes "[erro]:"
    else codes "[info]:"

-- "%d-%02d-%02d %02d:%02d:%02d.%06ld %s "
unfoldable pub stamp : Time → (level : ℕ) → Bytes
unfolding zero_padded level_text
stamp t level =
    dec t.year
    ++ codes "-"
    ++ zero_padded 2 t.month
    ++ codes "-"
    ++ zero_padded 2 t.mday
    ++ codes " "
    ++ zero_padded 2 t.hour
    ++ codes ":"
    ++ zero_padded 2 t.min
    ++ codes ":"
    ++ zero_padded 2 t.sec
    ++ codes "."
    ++ zero_padded 6 t.usec
    ++ codes " "
    ++ level_text level
    ++ codes " "

-- The second part under the lock: the line is put together in `m_buf`. `text` is all that vsnprintf
-- would print. A write behind the array is a `fault`.
unfoldable pub format_line : Bytes → (text : Bytes) → Log → Run (Bytes × Log)
format_line head text l =
    let n = length head in
    let m = length text in
    let with_head = overwrite l.m_buf 0 (snprintf 48 head ++ 0 ∷ []) in
    let with_text = overwrite with_head n (snprintf (l.m_log_buf_size - 1) text ++ 0 ∷ []) in
    let whole = overwrite with_text (n + m) (10 ∷ 0 ∷ []) in
    if ltb (n + m + 1) l.m_log_buf_size
    then done (cstr whole 0, record l { m_buf = whole })
    else fault

-- `fputs(line, m_fp)`
unfoldable pub fputs : Bytes → Log → Run Log
fputs line l = elim l.m_fp [
  | none ↦ fault
  | some path ↦ done (record l { written = l.written ++ (path, line) ∷ [] })
]

-- The end of write_log: the line goes to the queue if there is one with room, and else to the file.
unfoldable pub put_line : Bytes → Log → Run Log
unfolding fputs
put_line line l =
    if l.m_is_async
    then (elim l.m_log_queue [
      | none ↦ fault
      | some q ↦
          if full q then fputs line l else done (record l { m_log_queue = some (push line q).1 })
    ])
    else fputs line l

unfoldable pub write_log :
    (fopen : Bytes → Bool) → Time → (level : ℕ) → (text : Bytes) → Log → Run Log
unfolding rotate format_line put_line stamp
write_log fopen t level text l = do
  l1 ← rotate fopen t l
  (line, l2) ← format_line (stamp t level) text l1
  put_line line l2

-- A round of async_write_log, where pop() wakes as the list says. The first result is whether there is
-- another round; `out_of_fuel` is a thread that waits on.
unfoldable pub write_next : List (Wakeup Bytes) → Log → Run (Bool × Log)
unfolding fputs
write_next ws l = elim l.m_log_queue [
  | none ↦ fault
  | some q ↦ elim (pop ws q) [
    | BlockQueue.gives line q' ↦
        fputs line (record l { m_log_queue = some q' }) >>= λ l'. done (true, l')
    | BlockQueue.refuses q' ↦ done (false, record l { m_log_queue = some q' })
    | BlockQueue.waits q' ↦ out_of_fuel
    | BlockQueue.fault ↦ fault
  ]
]
