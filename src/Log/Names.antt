-- ===== src/Log/Names.antt =====
-- log/src/log.cpp: the name of the file that is open.
use native.Mathlib.Nat.{div-add-mod', div-eq_of_lt-le, mod-lt, div-eq_of_lt}
use my_web_server_cmake.Prelude.{
  ℕ, zero, suc, ◌+◌, ◌*◌, ◌/◌, ◌%◌, ◌≡◌, ◌≢◌, ◌<◌, refl, arith, Bool, true, false, some, ◌++◌, take,
  ap, ◌∙◌, sym, ◌==◌, ==_iff, Bool-cases, inl, inr,
}
use my_web_server_cmake.Prelude.Run.{done}
use my_web_server_cmake.Http.Text.{Bytes, codes}
use my_web_server_cmake.Log.{Log, Time, zero_padded, date_prefix, day_name, part_name, rotate}
use my_web_server_cmake.Http.Text.Decimal.{dec}

-- A file is numbered from 1; the first one of a day has no number.
abbrev pub numbered : ℕ → (log_name : Bytes) → Bytes
numbered zero log_name = log_name
numbered (suc k) log_name = log_name ++ codes "." ++ dec (suc k)

-- The path of a file: directory, year, month and day with `_` behind each, name and number. The date is
-- cut to 15 bytes and the whole to 254.
abbrev pub file_path : (day : Time) → (part : ℕ) → (dir_name log_name : Bytes) → Bytes
file_path day part dir_name log_name =
    let date =
      dec day.year
      ++ codes "_"
      ++ zero_padded 2 day.month
      ++ codes "_"
      ++ zero_padded 2 day.mday
      ++ codes "_" in
    take 254 (dir_name ++ (take 15 date ++ numbered part log_name))

pub file_path-day :
    (t : Time) (dir_name log_name : Bytes)
    → day_name t dir_name log_name ≡ file_path t 0 dir_name log_name
unfolding day_name date_prefix
file_path-day t dir_name log_name = refl

file_path-part :
    (t : Time) (k : ℕ) (dir_name log_name : Bytes)
    → part_name t (suc k) dir_name log_name ≡ file_path t (suc k) dir_name log_name
unfolding part_name date_prefix
file_path-part t k dir_name log_name = refl

-- The open file is that of `day` and of the number of lines.
pub record Named (day : Time) (l : Log) : Type 0 where
  pub today : l.m_today ≡ day.mday
  pub fp : l.m_fp ≡ some (file_path day (l.m_count / l.m_split_lines) l.dir_name l.log_name)

-- Which file a line goes to that comes at `t`, when the open file is that of `day`. Only the days of
-- the month are compared.
pub data Next (day t : Time) (l m : Log) : Type 0 where
  first_of_day : day.mday ≢ t.mday → m.m_count ≡ 0 → Named t m → Next day t l m
  same_file :
      day.mday ≡ t.mday
      → (l.m_count + 1) % l.m_split_lines ≢ 0
      → m.m_count ≡ l.m_count + 1
      → m.m_fp ≡ l.m_fp
      → Named day m
      → Next day t l m
  next_part_of :
      day.mday ≡ t.mday
      → (l.m_count + 1) % l.m_split_lines ≡ 0
      → m.m_count ≡ l.m_count + 1
      → Named t m
      → Next day t l m

pub Next-Named : (day t : Time) (l m : Log) → Next day t l m → (d : Time) × Named d m
Next-Named day t l m (first_of_day ne none_yet n) = (t, n)
Next-Named day t l m (same_file e more count same n) = (day, n)
Next-Named day t l m (next_part_of e full count n) = (t, n)

-- The lines of a file: a count that is no multiple stays in the part of the one before.
module _ (count split : ℕ) (some_lines : 0 < split) where
  same_part : (count + 1) % split ≢ 0 → count / split ≡ (count + 1) / split
  same_part ne =
      let q = (count + 1) / split in
      let whole = div-add-mod' (count + 1) split in
      let small = mod-lt (count + 1) some_lines in
      let next : (q + 1) * split ≡ q * split + split = omega arith in
      div-eq_of_lt-le split (omega (arith, whole, ne)) (omega (arith, whole, small, next))

  next_part : (count + 1) % split ≡ 0 → (k : ℕ) × ((count + 1) / split ≡ suc k)
  next_part z = go ((count + 1) / split) (div-add-mod' (count + 1) split)
    where
      go : (q : ℕ) → q * split + (count + 1) % split ≡ count + 1 → (k : ℕ) × (q ≡ suc k)
      go zero e = absurd (omega (arith, e, z))
      go (suc k) e = (k, refl)

-- What rotate leaves as it was.
pub record Rotated (l m : Log) : Type 0 where
  pub queue : m.m_log_queue ≡ l.m_log_queue
  pub is_async : m.m_is_async ≡ l.m_is_async
  pub buf : m.m_buf ≡ l.m_buf
  pub size : m.m_log_buf_size ≡ l.m_log_buf_size
  pub lines : m.m_split_lines ≡ l.m_split_lines
  pub written : m.written ≡ l.written

unchanged : (l : Log) → Rotated l l
unchanged l = record {
  queue = refl;
  is_async = refl;
  buf = refl;
  size = refl;
  lines = refl;
  written = refl;
}

module _ (fopen : Bytes → Bool) (opens : (path : Bytes) → fopen path ≡ true) (t : Time) (l : Log)
    (day : Time) (some_lines : 0 < l.m_split_lines) (n : Named day l) where
  new_day :
      (l.m_today == t.mday) ≡ false
      → (m : Log) × (rotate fopen t l ≡ done m) × Next day t l m × Rotated l m
  unfolding rotate
  new_day other =
      let name = day_name t l.dir_name l.log_name in
      (
        record l { m_today = t.mday; m_count = 0; m_fp = some name },
        rw (rotate, other, n.fp, opens name) refl,
        first_of_day (λ same. ground (arith, other, n.today, same)) refl
            record {
              today = refl;
              fp =
                  ap some (file_path-day t l.dir_name l.log_name)
                  ∙ ap (λ k. some (file_path t k l.dir_name l.log_name))
                      (sym (div-eq_of_lt some_lines));
            },
        record {
          queue = refl;
          is_async = refl;
          buf = refl;
          size = refl;
          lines = refl;
          written = refl;
        },
      )

  same_day :
      (l.m_today == t.mday) ≡ true
      → ((l.m_count + 1) % l.m_split_lines == 0) ≡ false
      → (m : Log) × (rotate fopen t l ≡ done m) × Next day t l m × Rotated l m
  unfolding rotate
  same_day same more =
      let none_over : (l.m_split_lines == 0) ≡ false = ground (arith, some_lines) in
      let ne : (l.m_count + 1) % l.m_split_lines ≢ 0 = λ z. ground (arith, more, z) in
      let part = same_part l.m_count l.m_split_lines some_lines ne in
      (
        record l { m_count = l.m_count + 1 },
        rw (rotate, same, none_over, more) refl,
        same_file (sym n.today ∙ (==_iff l.m_today t.mday).0 same) ne refl refl record {
          today = n.today;
          fp = n.fp ∙ ap (λ k. some (file_path day k l.dir_name l.log_name)) part;
        },
        record {
          queue = refl;
          is_async = refl;
          buf = refl;
          size = refl;
          lines = refl;
          written = refl;
        },
      )

  full_part :
      (l.m_today == t.mday) ≡ true
      → ((l.m_count + 1) % l.m_split_lines == 0) ≡ true
      → (m : Log) × (rotate fopen t l ≡ done m) × Next day t l m × Rotated l m
  unfolding rotate
  full_part same full =
      let none_over : (l.m_split_lines == 0) ≡ false = ground (arith, some_lines) in
      let (k, part) =
        next_part l.m_count l.m_split_lines some_lines
          ((==_iff ((l.m_count + 1) % l.m_split_lines) 0).0 full) in
      let number = (l.m_count + 1) / l.m_split_lines in
      let name = part_name t number l.dir_name l.log_name in
      let today = (==_iff l.m_today t.mday).0 same in
      (
        record l { m_count = l.m_count + 1; m_fp = some name },
        rw (rotate, same, none_over, full, n.fp, opens name) refl,
        next_part_of (sym n.today ∙ today) ((==_iff _ 0).0 full) refl record {
          today = today;
          fp = ap some (
              ap (λ q. part_name t q l.dir_name l.log_name) part
              ∙ file_path-part t k l.dir_name l.log_name
              ∙ ap (λ q. file_path t q l.dir_name l.log_name) (sym part));
        },
        record {
          queue = refl;
          is_async = refl;
          buf = refl;
          size = refl;
          lines = refl;
          written = refl;
        },
      )

  -- The right file is open, as far as days of the month tell. Let the open file be that of `day` and of
  -- the number of lines, the files of a log have some lines, and fopen() succeed. Then the first part of
  -- write_log at the time `t` ends. If `t` has another day of the month, the first file of `t` is open,
  -- with no line counted. If it has the same one, one more line is counted: when that fills a file,
  -- the file of `t` with the next number is open; otherwise the file of `day` stays open, though `t` may
  -- be of another month or year.
  pub rotate-Named : (m : Log) × (rotate fopen t l ≡ done m) × Next day t l m × Rotated l m
  rotate-Named = elim (Bool-cases (l.m_today == t.mday)) [
    | inr other ↦ new_day other
    | inl same ↦ elim (Bool-cases ((l.m_count + 1) % l.m_split_lines == 0)) [
      | inr more ↦ same_day same more
      | inl full ↦ full_part same full
    ]
  ]
