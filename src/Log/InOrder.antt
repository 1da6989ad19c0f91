-- ===== src/Log/InOrder.antt =====
-- log/src/log.cpp and log/include/log.h: the lines of the log, in the file and in the queue.
use my_web_server_cmake.Prelude.{
  ℕ, ◌+◌, ◌/◌, ◌≡◌, ◌≤◌, ◌<◌, ◌⊎◌, inl, inr, refl, Bool, true, false, none, some, List, [], ◌∷◌,
  ◌++◌, ap, ◌∙◌, sym, subst, length, append_assoc,
}
use mathlib.Core.List.{cons-ne-nil}
use my_web_server_cmake.Prelude.Run.{done, ◌>>=◌}
use my_web_server_cmake.Http.Text.{Bytes}
use my_web_server_cmake.Http.Text.Words.{NoNul}
use my_web_server_cmake.BlockQueue.{Wakeup, full}
use my_web_server_cmake.BlockQueue.Wait.{pop-Holds}
use my_web_server_cmake.Log.{Log, Time}
use my_web_server_cmake.Log.Write.{stamp, write_log, write_next}
use my_web_server_cmake.Log.Names.{Named, Rotated, Next-Named, rotate-Named, file_path}
use my_web_server_cmake.Log.Stamp.{stamp-NoNul}
use my_web_server_cmake.Log.Lines.{format_line-fits}
use my_web_server_cmake.Log.Queue.{
  Queued, is_full, texts, all_lines, texts-append, fputs-some, put_line-Queued,
}

-- A log that works, with the lines that wait in its queue.
pub record Working (l : Log) (queued : List Bytes) : Type 0 where
  pub day : Time
  pub named : Named day l
  pub lines : Queued l queued
  pub some_lines : 0 < l.m_split_lines

-- The line of a call of write_log.
abbrev pub line_of : Time → (level : ℕ) → (text : Bytes) → Bytes
line_of t level text = stamp t level ++ (text ++ 10 ∷ [])

-- What a call leaves: the line behind all others, or, if the queue was full, in front of those in it.
abbrev pub Logged : Log → List Bytes → Log → List Bytes → Bytes → Type 0
Logged l queued m queued' line =
    (all_lines m queued' ≡ all_lines l queued ++ line ∷ [])
    ⊎ ((is_full l ≡ true) × (texts m.written ≡ texts l.written ++ line ∷ []) × (queued' ≡ queued))

Rotated-Queued : (l m : Log) (queued : List Bytes) → Rotated l m → Queued l queued → Queued m queued
Rotated-Queued l m queued r (inl (sync, nothing)) = inl (r.is_async ∙ sync, nothing)
Rotated-Queued l m queued r (inr (q, async, here, v)) =
    inr (q, r.is_async ∙ async, r.queue ∙ here, v)

-- A call of write_log writes its line. On a log that works, where fopen() succeeds, for a text without
-- NUL that fits, with the time and the level, into `m_buf`, and a time and a level of at most 47
-- characters, write_log ends, and the log works; the line, which is the time, the level, the text and a
-- line feed, is the last of all lines in the files and the queue. But if the queue was full, it goes to
-- the file in front of the lines in the queue.
pub write_log-Logged :
    (fopen : Bytes → Bool) (t : Time) (level : ℕ) (text : Bytes) (l : Log) (queued : List Bytes)
    → ((path : Bytes) → fopen path ≡ true)
    → Working l queued
    → length (stamp t level) ≤ 47
    → length (stamp t level) + length text + 1 < l.m_log_buf_size
    → NoNul text
    → (m : Log) × (queued' : List Bytes) × (write_log fopen t level text l ≡ done m)
      × Working m queued'
      × Logged l queued m queued' (line_of t level text)
unfolding write_log
write_log-Logged fopen t level text l queued opens w short room plain =
    let (l1, e1, next, r) = rotate-Named fopen opens t l w.day w.some_lines w.named in
    let (day1, n1) = Next-Named w.day t l l1 next in
    let room1 = subst (λ s. length (stamp t level) + length text + 1 < s) (sym r.size) room in
    let (b, e2) =
      format_line-fits (stamp t level) text l1 short room1 (stamp-NoNul t level) plain in
    let l2 = record l1 { m_buf = b } in
    let q1 = Rotated-Queued l l1 queued r w.lines in
    let path = file_path day1 (l1.m_count / l1.m_split_lines) l1.dir_name l1.log_name in
    let (m, queued', e3, q3, logged, named, lines) =
      put_line-Queued (line_of t level text) l2 queued path n1.fp q1 in
    (
      m,
      queued',
      rw (write_log, e1, ◌>>=◌, e2) e3,
      record {
        day = day1;
        named = named day1 record { today = n1.today; fp = n1.fp };
        lines = q3;
        some_lines = subst (λ s. 0 < s) (sym (lines ∙ r.lines)) w.some_lines;
      },
      result l l1 m r queued' path logged,
    )
  where
    result :
        (l l1 m : Log)
        → Rotated l l1
        → (queued' : List Bytes) (path : Bytes)
        → (all_lines m queued' ≡ all_lines l1 queued ++ line_of t level text ∷ [])
          ⊎ ((is_full l1 ≡ true)
              × (m.written ≡ l1.written ++ (path, line_of t level text) ∷ [])
              × (queued' ≡ queued))
        → Logged l queued m queued' (line_of t level text)
    result l l1 m r queued' path (inl e) =
        inl (e ∙ ap (λ ws. (texts ws ++ queued) ++ line_of t level text ∷ []) r.written)
    result l l1 m r queued' path (inr (f, e, same)) = inr (
      ap (λ o. elim o [ none ↦ false | some q ↦ full q ]) (sym r.queue) ∙ f,
      ap texts e
          ∙ texts-append l1.written path (line_of t level text)
          ∙ ap (λ ws. texts ws ++ line_of t level text ∷ []) r.written,
      same,
    )

-- The thread that writes keeps the order. On a log that works, with lines in its queue, a round of
-- async_write_log ends and goes on; the oldest line of the queue is then the last of the files, and all
-- lines in the files and the queue are as before.
pub write_next-in_order :
    (ws : List (Wakeup Bytes)) (l : Log) (x : Bytes) (queued : List Bytes)
    → Working l (x ∷ queued)
    → (m : Log) × (write_next ws l ≡ done (true, m))
      × Working m queued
      × (texts m.written ≡ texts l.written ++ x ∷ [])
      × (all_lines m queued ≡ all_lines l (x ∷ queued))
unfolding write_next
write_next-in_order ws l x queued w = go w.lines
  where
    path : Bytes
    path = file_path w.day (l.m_count / l.m_split_lines) l.dir_name l.log_name

    go :
        Queued l (x ∷ queued)
        → (m : Log) × (write_next ws l ≡ done (true, m))
          × Working m queued
          × (texts m.written ≡ texts l.written ++ x ∷ [])
          × (all_lines m queued ≡ all_lines l (x ∷ queued))
    go (inl (sync, nothing)) = absurd (cons-ne-nil x queued nothing)
    go (inr (q, async, here, v)) =
        let (r, e, same, u) = pop-Holds ws q x queued v in
        let behind = texts-append l.written path x in
        (
          record l { m_log_queue = some r; written = l.written ++ (path, x) ∷ [] },
          rw
              (
                write_next,
                here,
                e,
                fputs-some x (record l { m_log_queue = some r }) path w.named.fp,
                ◌>>=◌,
              )
              refl,
          record {
            day = w.day;
            named = record { today = w.named.today; fp = w.named.fp };
            lines = inr (r, async, refl, u);
            some_lines = w.some_lines;
          },
          behind,
          ap (λ ts. ts ++ queued) behind ∙ append_assoc (texts l.written) (x ∷ []) queued,
        )
