-- ===== src/Http/Line/Cut.antt =====
-- What line a call cuts out of the received bytes.
use my_web_server_cmake.Prelude.{
  ℕ, zero, suc, ◌+◌, ◌≤◌, ◌<◌, ◌≡◌, ◌≢◌, arith, refl, ◌∙◌, sym, ap, ap₂, [], ◌∷◌, ◌++◌, length, set,
  length-append, append_assoc,
}
use my_web_server_cmake.Http.Text.{Bytes, at, cr, lf, cstr}
use my_web_server_cmake.Http.Text.Words.{NoNul, at-append, set-append, cstr-append}
use my_web_server_cmake.Http.Line.{
  line_ok, line_open, LineResult, result, parse_line_step, parse_line_loop, parse_line,
}

-- A byte that is neither NUL nor a part of a line end.
abbrev pub IsPlain : ℕ → Type 0
IsPlain x = (x ≢ 0) × (x ≢ cr) × (x ≢ lf)

abbrev pub AllPlain : Bytes → Type 0
AllPlain [] = Unit {0}
AllPlain (x ∷ xs) = IsPlain x × AllPlain xs

AllPlain→NoNul : (line : Bytes) → AllPlain line → NoNul line
AllPlain→NoNul [] p = tt
AllPlain→NoNul (x ∷ line) p = (p.0.0, AllPlain→NoNul line p.1)

step-plain :
    (b : Bytes) (r c : ℕ) (rest : LineResult)
    → at b c ≢ cr
    → at b c ≢ lf
    → parse_line_step b r c rest ≡ rest
unfolding parse_line_step
step-plain b r c rest h k = ground arith

step-crlf :
    (b : Bytes) (r c : ℕ) (rest : LineResult)
    → c + 1 < r
    → at b c ≡ cr
    → at b (c + 1) ≡ lf
    → parse_line_step b r c rest ≡ result line_ok (set (set b c 0) (c + 1) 0) (c + 2)
unfolding parse_line_step
step-crlf b r c rest h e e' = ground arith

loop-crlf :
    (line before rest : Bytes) (n r c : ℕ)
    → AllPlain line
    → c ≡ length before
    → c + length line + 2 ≤ r
    → c + n ≡ r
    → parse_line_loop n (before ++ (line ++ cr ∷ lf ∷ rest)) r c
      ≡ result line_ok (before ++ (line ++ 0 ∷ 0 ∷ rest)) (c + length line + 2)
unfolding parse_line_loop at
loop-crlf [] before rest zero r c p e h k = absurd (omega arith)
loop-crlf [] before rest (suc n) r c p e h k =
    step-crlf _ r c _ (omega arith) (at-append before _ 0 c (omega arith))
      (at-append before _ 1 (c + 1) (omega arith))
    ∙ ap₂ (result line_ok)
        (ap (λ b. set b (c + 1) 0) (set-append before _ 0 c 0 (omega arith))
          ∙ set-append before _ 1 (c + 1) 0 (omega arith))
        (omega arith)
loop-crlf (x ∷ line) before rest zero r c p e h k = absurd (omega arith)
loop-crlf (x ∷ line) before rest (suc n) r c p e h k =
    step-plain _ r c _ (rw head p.0.1) (rw head p.0.2)
    ∙ ap (λ b. parse_line_loop n b r (c + 1)) (sym (append_assoc before (x ∷ []) _))
    ∙ loop-crlf line (before ++ x ∷ []) rest n r (c + 1) p.1
        (omega (arith, length-append before (x ∷ []))) (omega arith) (omega arith)
    ∙ ap₂ (result line_ok) (append_assoc before (x ∷ []) _) (omega arith)
  where
    head : at (before ++ (x ∷ line ++ cr ∷ lf ∷ rest)) c ≡ x
    head = at-append before _ 0 c (omega arith)

-- A complete line is cut out whole. Where the received bytes behind the index hold a text without
-- NUL, CR and LF and then CR LF, parse_line reports a line, overwrites just the two bytes of the line
-- end by NUL, and moves the index behind them; the C string at the old index is then that text.
pub parse_line-crlf :
    (before line rest : Bytes) (r : ℕ)
    → AllPlain line
    → length before + length line + 2 ≤ r
    → let b' = before ++ (line ++ 0 ∷ 0 ∷ rest) in
      (parse_line (before ++ (line ++ cr ∷ lf ∷ rest)) r (length before)
        ≡ result line_ok b' (length before + length line + 2))
      × (cstr b' (length before) ≡ line)
unfolding parse_line cstr
parse_line-crlf before line rest r p h = (
  loop-crlf line before rest _ r _ p refl h (omega arith),
  cstr-append before line (0 ∷ rest) _ (AllPlain→NoNul line p) refl,
)

loop-plain :
    (line before rest : Bytes) (r c : ℕ)
    → AllPlain line
    → c ≡ length before
    → c + length line ≡ r
    → parse_line_loop (length line) (before ++ (line ++ rest)) r c
      ≡ result line_open (before ++ (line ++ rest)) r
unfolding parse_line_loop at
loop-plain [] before rest r c p e h = ap (result line_open _) (omega arith)
loop-plain (x ∷ line) before rest r c p e h =
    step-plain _ r c _ (rw head p.0.1) (rw head p.0.2)
    ∙ ap (λ b. parse_line_loop (length line) b r (c + 1)) regroup
    ∙ loop-plain line (before ++ x ∷ []) rest r (c + 1) p.1
        (omega (arith, length-append before (x ∷ []))) (omega arith)
    ∙ ap (λ b. result line_open b r) (sym regroup)
  where
    head : at (before ++ (x ∷ line ++ rest)) c ≡ x
    head = at-append before _ 0 c (omega arith)

    regroup : before ++ (x ∷ line ++ rest) ≡ before ++ x ∷ [] ++ (line ++ rest)
    regroup = sym (append_assoc before (x ∷ []) _)

-- While no line end has come, parse_line reports an incomplete line, leaves the buffer as it is, and
-- moves the index to the end of the received bytes.
pub parse_line-plain :
    (before line rest : Bytes)
    → AllPlain line
    → parse_line (before ++ (line ++ rest)) (length before + length line) (length before)
      ≡ result line_open (before ++ (line ++ rest)) (length before + length line)
unfolding parse_line
parse_line-plain before line rest p =
    ap
      (λ n.
        parse_line_loop n (before ++ (line ++ rest)) (length before + length line) (length before))
      (omega arith)
    ∙ loop-plain line before rest _ _ p refl refl
