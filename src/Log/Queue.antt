-- ===== src/Log/Queue.antt =====
-- log/src/log.cpp, the end of write_log: a line goes to the file or to the queue.
use my_web_server_cmake.Prelude.{
  ◌≡◌, ◌≢◌, ◌⊎◌, inl, inr, refl, arith, Bool, true, false, Option, none, some, List, [], ◌∷◌, ◌++◌,
  ap, ◌∙◌, sym, length, append_assoc, append-nil, if◌then◌else◌, Bool-cases,
}
use my_web_server_cmake.Prelude.Run.{Run, done, fault}
use my_web_server_cmake.Http.Text.{Bytes}
use my_web_server_cmake.BlockQueue.{BlockQueue, full, push}
use my_web_server_cmake.BlockQueue.Refine.{Holds, push-Holds}
use my_web_server_cmake.Log.{Time, Log}
use my_web_server_cmake.Log.Write.{fputs, put_line}
use my_web_server_cmake.Log.Names.{Named}

-- The queue of the log, with the lines that wait in it.
abbrev pub Queued : Log → List Bytes → Type 0
Queued l queued =
    ((l.m_is_async ≡ false) × (queued ≡ []))
    ⊎ ((q : BlockQueue Bytes) × (l.m_is_async ≡ true) × (l.m_log_queue ≡ some q) × Holds q queued)

abbrev pub is_full : Log → Bool
is_full l = elim l.m_log_queue [ none ↦ false | some q ↦ full q ]

-- All lines: those in the files, and behind them those in the queue.
abbrev pub texts : List (Bytes × Bytes) → List Bytes
texts [] = []
texts ((path, line) ∷ rest) = line ∷ texts rest

abbrev pub all_lines : Log → List Bytes → List Bytes
all_lines l queued = texts l.written ++ queued

pub texts-append :
    (ws : List (Bytes × Bytes)) (path line : Bytes)
    → texts (ws ++ (path, line) ∷ []) ≡ texts ws ++ line ∷ []
texts-append [] path line = refl
texts-append ((p, x) ∷ ws) path line = ap (λ xs. x ∷ xs) (texts-append ws path line)

not_full :
    (q : BlockQueue Bytes) (xs : List Bytes)
    → Holds q xs
    → full q ≡ false
    → length xs ≢ q.m_max_size
unfolding full
not_full q xs (h, v) e z = ground (arith, e, z, v.size)

pub fputs-some :
    (line : Bytes) (l : Log) (path : Bytes)
    → l.m_fp ≡ some path
    → fputs line l ≡ done (record l { written = l.written ++ (path, line) ∷ [] })
unfolding fputs
fputs-some line l path at =
    ap
      (λ o. elim o [
        | none ↦ fault
        | some p ↦ done (record l { written = l.written ++ (p, line) ∷ [] })
      ])
      at

module _ (line : Bytes) (l : Log) where
  to_queue : Option (BlockQueue Bytes) → Run Log
  to_queue o = elim o [
    | none ↦ fault
    | some q ↦
        if full q then fputs line l else done (record l { m_log_queue = some (push line q).1 })
  ]

  put_line-sync : l.m_is_async ≡ false → put_line line l ≡ fputs line l
  unfolding put_line to_queue
  put_line-sync e = ap (λ b. if b then to_queue l.m_log_queue else fputs line l) e

  put_line-async :
      (q : BlockQueue Bytes)
      → l.m_is_async ≡ true
      → l.m_log_queue ≡ some q
      → put_line line l
        ≡ (if full q then fputs line l else done (record l { m_log_queue = some (push line q).1 }))
  unfolding put_line to_queue
  put_line-async q e f =
      ap (λ b. if b then to_queue l.m_log_queue else fputs line l) e ∙ ap to_queue f

-- Where a line goes.
pub put_line-Queued :
    (line : Bytes) (l : Log) (queued : List Bytes) (path : Bytes)
    → l.m_fp ≡ some path
    → Queued l queued
    → (m : Log) × (queued' : List Bytes) × (put_line line l ≡ done m)
      × Queued m queued'
      × (((all_lines m queued' ≡ all_lines l queued ++ line ∷ []))
          ⊎ ((is_full l ≡ true)
              × (m.written ≡ l.written ++ (path, line) ∷ [])
              × (queued' ≡ queued)))
      × ((day : Time) → Named day l → Named day m)
      × (m.m_split_lines ≡ l.m_split_lines)
put_line-Queued line l queued path at (inl (sync, nothing)) = (
  record l { written = l.written ++ (path, line) ∷ [] },
  [],
  put_line-sync line l sync ∙ fputs-some line l path at,
  inl (sync, refl),
  inl (
      append-nil (texts (l.written ++ (path, line) ∷ []))
      ∙ texts-append l.written path line
      ∙ ap (λ xs. xs ++ line ∷ [])
          (sym (append-nil (texts l.written)) ∙ ap (λ xs. texts l.written ++ xs) (sym nothing))),
  (λ day n. record { today = n.today; fp = n.fp }),
  refl,
)
put_line-Queued line l queued path at (inr (q, async, here, v)) = elim (Bool-cases (full q)) [
  | inl no_room ↦ (
    record l { written = l.written ++ (path, line) ∷ [] },
    queued,
    put_line-async line l q async here
        ∙ ap
            (λ b.
              if b then fputs line l else done (record l { m_log_queue = some (push line q).1 }))
            no_room
        ∙ fputs-some line l path at,
    inr (q, async, here, v),
    inr (ap (λ o. elim o [ none ↦ false | some q ↦ full q ]) here ∙ no_room, refl, refl),
    (λ day n. record { today = n.today; fp = n.fp }),
    refl,
  )
  | inr room ↦ elim (push-Holds line q queued v) [
    | inl (lt, pushed, same, w) ↦ (
      record l { m_log_queue = some (push line q).1 },
      queued ++ line ∷ [],
      put_line-async line l q async here
          ∙ ap
              (λ b.
                if b then fputs line l else done (record l { m_log_queue = some (push line q).1 }))
              room,
      inr ((push line q).1, async, refl, w),
      inl (sym (append_assoc (texts l.written) queued (line ∷ []))),
      (λ day n. record { today = n.today; fp = n.fp }),
      refl,
    )
    | inr (all, refused) ↦ absurd (not_full q queued v room all)
  ]
]
