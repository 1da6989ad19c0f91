-- ===== src/Http/Line/Resume.antt =====
-- Lines that arrive in pieces.
use my_web_server_cmake.Prelude.{
  ℕ, zero, suc, ◌+◌, ◌-◌, ◌≤◌, ◌<◌, ◌≡◌, ◌⊎◌, inl, inr, arith, refl, ◌∙◌, sym, ap, length, take, [],
  ◌∷◌, ◌++◌,
}
use my_web_server_cmake.Http.Text.{Bytes, at, overwrite}
use my_web_server_cmake.Http.Line.Scan.{parse_line_loop-Within}
use my_web_server_cmake.Http.Line.{
  line_bad, line_open, LineResult, result, parse_line_step, parse_line_loop, parse_line,
}

-- What was received first, up to `r`, is still there when more has come.
abbrev pub Agree : Bytes → Bytes → ℕ → Type 0
Agree b b' r = (i : ℕ) → i < r → at b' i ≡ at b i

-- How one round on more bytes compares with the same round on fewer.
step-open :
    (b b' : Bytes) (r r' c : ℕ) (rest rest' : LineResult)
    → c < r
    → r ≤ r'
    → at b' c ≡ at b c
    → at b' (c - 1) ≡ at b (c - 1)
    → (c + 1 < r → at b' (c + 1) ≡ at b (c + 1))
    → (parse_line_step b r c rest).status ≡ line_open
    → ((parse_line_step b r c rest).check_index ≡ c)
      ⊎ ((parse_line_step b r c rest ≡ rest) × (parse_line_step b' r' c rest' ≡ rest'))
unfolding parse_line_step
step-open b b' r r' c rest rest' h k e e' e'' o = ground arith

loop_resume :
    (n m : ℕ) (b b' : Bytes) (r r' c : ℕ)
    → c + n ≡ r
    → r + m ≡ r'
    → Agree b b' r
    → (parse_line_loop n b r c).status ≡ line_open
    → let p = (parse_line_loop n b r c).check_index in
      parse_line_loop (n + m) b' r' c ≡ parse_line_loop (r' - p) b' r' p
unfolding parse_line_loop
loop_resume zero m b b' r r' c e e' same o = ap (λ k. parse_line_loop k b' r' c) (omega arith)
loop_resume (suc n) m b b' r r' c e e' same o = elim here [
  | inl stop ↦ rw stop (ap (λ k. parse_line_loop k b' r' c) (omega arith))
  | inr (on, on') ↦ rw on (
      ap (λ k. parse_line_loop k b' r' c) count
      ∙ on'
      ∙ loop_resume n m b b' r r' (c + 1) (omega arith) e' same (rw on at o))
]
  where
    count : suc n + m ≡ suc (n + m)
    count = omega arith

    here :
        ((parse_line_step b r c (parse_line_loop n b r (c + 1))).check_index ≡ c)
        ⊎ ((parse_line_step b r c (parse_line_loop n b r (c + 1)) ≡ parse_line_loop n b r (c + 1))
            × (parse_line_step b' r' c (parse_line_loop (n + m) b' r' (c + 1))
                ≡ parse_line_loop (n + m) b' r' (c + 1)))
    here =
        step-open b b' r r' c _ _ (omega arith) (omega arith) (same c (omega arith))
          (same (c - 1) (omega arith)) (same (c + 1)) o

resumed :
    (b b' : Bytes) (r r' c : ℕ)
    → c ≤ r
    → r ≤ r'
    → Agree b b' r
    → (parse_line b r c).status ≡ line_open
    → parse_line b' r' (parse_line b r c).check_index ≡ parse_line b' r' c
unfolding parse_line
resumed b b' r r' c h k same o =
    sym (loop_resume (r - c) (r' - r) b b' r r' c (omega arith) (omega arith) same o)
    ∙ ap (λ n. parse_line_loop n b' r' c) (omega arith)

-- A round that finds the line incomplete leaves the buffer.
step-open_buf :
    (b : Bytes) (r c : ℕ) (rest : LineResult)
    → (rest.status ≡ line_open → rest.buf ≡ b)
    → (parse_line_step b r c rest).status ≡ line_open
    → (parse_line_step b r c rest).buf ≡ b
unfolding parse_line_step
step-open_buf b r c rest ih o = ground (arith, ih)

loop-open_buf :
    (n : ℕ) (b : Bytes) (r c : ℕ)
    → (parse_line_loop n b r c).status ≡ line_open
    → (parse_line_loop n b r c).buf ≡ b
unfolding parse_line_loop
loop-open_buf zero b r c o = refl
loop-open_buf (suc n) b r c o = step-open_buf b r c _ (loop-open_buf n b r (c + 1)) o

at-take_append : (i r : ℕ) (b t : Bytes) → i < r → r ≤ length b → at (take r b ++ t) i ≡ at b i
unfolding at
at-take_append i zero b t h k = absurd (omega arith)
at-take_append i (suc r) [] t h k = absurd (omega arith)
at-take_append zero (suc r) (x ∷ b) t h k = refl
at-take_append (suc i) (suc r) (x ∷ b) t h k = at-take_append i r b t (omega arith) (omega arith)

at-overwrite_before :
    (i r : ℕ) (b s : Bytes) → i < r → r ≤ length b → at (overwrite b r s) i ≡ at b i
unfolding overwrite
at-overwrite_before i r b s h k = at-take_append i r b _ h k

-- A line may arrive in any two pieces. When parse_line reports an incomplete line on the `r` bytes
-- received first, and more bytes are then put behind them into the buffer that this call left, the
-- next call, which goes on from the index that the first one left, gives exactly the result, buffer
-- and index that one call gives on a buffer that all the bytes came to at once.
pub parse_line-resume :
    (b more : Bytes) (r c : ℕ)
    → c ≤ r
    → r ≤ length b
    → (parse_line b r c).status ≡ line_open
    → let first = parse_line b r c in
      parse_line (overwrite first.buf r more) (r + length more) first.check_index
      ≡ parse_line (overwrite b r more) (r + length more) c
unfolding parse_line
parse_line-resume b more r c h k o =
    ap (λ b'. parse_line (overwrite b' r more) (r + length more) (parse_line b r c).check_index)
      (loop-open_buf (r - c) b r c o)
    ∙ resumed b (overwrite b r more) r (r + length more) c h (omega arith)
        (λ i lt. at-overwrite_before i r b more lt k) o

step-bad :
    (b : Bytes) (r c : ℕ) (rest : LineResult)
    → c < r
    → (parse_line_step b r c rest).status ≡ line_bad
    → ((parse_line_step b r c rest).check_index ≡ c) ⊎ (parse_line_step b r c rest ≡ rest)
unfolding parse_line_step
step-bad b r c rest h o = ground arith

step_stays_bad :
    (b b' : Bytes) (r r' c : ℕ) (rest rest' : LineResult)
    → c < r
    → r ≤ r'
    → at b' c ≡ at b c
    → at b' (c - 1) ≡ at b (c - 1)
    → (c + 1 < r → at b' (c + 1) ≡ at b (c + 1))
    → (parse_line_step b r c rest).status ≡ line_bad
    → (parse_line_step b r c rest).check_index ≡ c
    → c < rest.check_index
    → parse_line_step b' r' c rest' ≡ result line_bad b' c
unfolding parse_line_step
step_stays_bad b b' r r' c rest rest' h k e e' e'' o stop on = ground arith

loop_stays_bad :
    (n m : ℕ) (b b' : Bytes) (r r' c : ℕ)
    → c + n ≡ r
    → r + m ≡ r'
    → Agree b b' r
    → (parse_line_loop n b r c).status ≡ line_bad
    → let p = (parse_line_loop n b r c).check_index in
      (p < r) × ((k : ℕ) → p + k ≡ r' → parse_line_loop k b' r' p ≡ result line_bad b' p)
unfolding parse_line_loop
loop_stays_bad zero m b b' r r' c e e' same o = cc
loop_stays_bad (suc n) m b b' r r' c e e' same o =
    elim (step-bad b r c (parse_line_loop n b r (c + 1)) (omega arith) o) [
      | inr on ↦ rw on (loop_stays_bad n m b b' r r' (c + 1) (omega arith) e' same (rw on at o))
      | inl stop ↦ rw stop (omega arith, still stop)
    ]
  where
    still :
        (parse_line_step b r c (parse_line_loop n b r (c + 1))).check_index ≡ c
        → (k : ℕ) → c + k ≡ r'
        → parse_line_loop k b' r' c ≡ result line_bad b' c
    still stop zero q = absurd (omega arith)
    still stop (suc k) q =
        step_stays_bad b b' r r' c _ _ (omega arith) (omega arith) (same c (omega arith))
          (same (c - 1) (omega arith)) (same (c + 1)) o stop
          (omega (arith, (parse_line_loop-Within n b r (c + 1) (omega arith)).forward))

-- A malformed line is never got over. Once parse_line reports a bad line, every later call on a
-- buffer that extends what was received reports a bad line again, and leaves the buffer and the
-- index as they are, whatever else has been received.
pub parse_line-stays_bad :
    (b b' : Bytes) (r r' c : ℕ)
    → c ≤ r
    → r ≤ r'
    → Agree b b' r
    → (parse_line b r c).status ≡ line_bad
    → let p = (parse_line b r c).check_index in parse_line b' r' p ≡ result line_bad b' p
unfolding parse_line
parse_line-stays_bad b b' r r' c h k same o =
    let (below, still) =
      loop_stays_bad (r - c) (r' - r) b b' r r' c (omega arith) (omega arith) same o in
    still _ (omega arith)
