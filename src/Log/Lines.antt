-- ===== src/Log/Lines.antt =====
-- log/src/log.cpp, write_log: the line in `m_buf`.
use my_web_server_cmake.Prelude.{
  ◌+◌, ◌-◌, ◌≡◌, ◌≢◌, ◌≤◌, ◌<◌, refl, arith, [], ◌∷◌, ◌++◌, ap, ◌∙◌, sym, length, drop, take-length,
  append_assoc, length-append, lt→ltb,
}
use my_web_server_cmake.Prelude.Run.{done}
use my_web_server_cmake.Http.Text.{Bytes, cstr, overwrite}
use my_web_server_cmake.Http.Text.Words.{NoNul, All-append, take-append, cstr-append}
use my_web_server_cmake.Log.{Log}
use my_web_server_cmake.Log.Write.{format_line}

-- Bytes written behind `xs`, with something behind them.
overwrite-behind :
    (xs ys s : Bytes) → (z : Bytes) × (overwrite (xs ++ ys) (length xs) s ≡ xs ++ (s ++ z))
unfolding overwrite
overwrite-behind xs ys s =
    (_, ap (λ w. w ++ (s ++ drop (length xs + length s) (xs ++ ys))) (take-append xs ys))

-- A line is the head, the text and a line feed. With a head of at most 47 bytes, and where all of it,
-- with a NUL, fits into `m_buf`, the line that write_log makes is just that, for a head and a text
-- without NUL, and nothing but `m_buf` changes.
pub format_line-fits :
    (head text : Bytes) (l : Log)
    → length head ≤ 47
    → length head + length text + 1 < l.m_log_buf_size
    → NoNul head
    → NoNul text
    → (b : Bytes) × (format_line head text l
        ≡ done (head ++ (text ++ 10 ∷ []), record l { m_buf = b }))
unfolding format_line
format_line-fits head text l short room h k =
    let (z1, e1) = overwrite-behind [] l.m_buf (head ++ 0 ∷ []) in
    let (z2, e2) = overwrite-behind head (0 ∷ z1) (text ++ 0 ∷ []) in
    let (z3, e3) = overwrite-behind (head ++ text) (0 ∷ z2) (10 ∷ 0 ∷ []) in
    let whole_head = take-length 47 head short in
    let whole_text = take-length (l.m_log_buf_size - 1 - 1) text (omega (arith, room)) in
    let line = cstr-append [] (head ++ (text ++ 10 ∷ [])) z3 0 no_nul refl in
    let shape =
      append_assoc head text (10 ∷ 0 ∷ z3)
      ∙ ap (λ w. head ++ w) (sym (append_assoc text (10 ∷ []) (0 ∷ z3)))
      ∙ sym (append_assoc head (text ++ 10 ∷ []) (0 ∷ z3)) in
    (
      (head ++ text) ++ (10 ∷ 0 ∷ z3),
      rw
          (
            format_line,
            whole_head,
            whole_text,
            lt→ltb (length head + length text + 1) l.m_log_buf_size room,
            e1,
            append_assoc head (0 ∷ []) z1,
            e2,
            append_assoc text (0 ∷ []) z2,
            sym (append_assoc head text (0 ∷ z2)),
            sym (length-append head text),
            e3,
          )
          (ap (λ c. done (c, record l { m_buf = (head ++ text) ++ (10 ∷ 0 ∷ z3) }))
            (ap (λ w. cstr w 0) shape ∙ line)),
    )
  where
    no_nul : NoNul (head ++ (text ++ 10 ∷ []))
    no_nul =
        All-append (λ x. x ≢ 0) head (text ++ 10 ∷ []) h
          (All-append (λ x. x ≢ 0) text (10 ∷ []) k ((λ z. omega (arith, z)), tt))
