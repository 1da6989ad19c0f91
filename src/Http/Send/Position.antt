-- ===== src/Http/Send/Position.antt =====
-- How far an answer has been sent, and the iovecs that belong to that.
use my_web_server_cmake.Prelude.{
  ℕ, zero, suc, ◌+◌, ◌-◌, ◌≤◌, ◌<◌, ◌≡◌, ◌⊎◌, inl, inr, arith, refl, ◌∙◌, ap, ap₂, some, [], ◌∷◌,
  ◌++◌, length, take, drop, ℤ, pos, negsuc, take-length, length-drop,
}
use my_web_server_cmake.Http.Text.{Bytes}
use my_web_server_cmake.Http.Conn.{Conn, Base, in_write_buff, in_file}
use my_web_server_cmake.Http.Send.{slice, read_base, gather, advance, mapped}

-- `k` bytes of the head `h` and the file `f` have been sent.
pub record Sending (h f : Bytes) (k : ℕ) (c : Conn) : Type 0 where
  pub within : k ≤ length h + length f
  pub room : length h ≤ length c.m_write_buff
  pub index : c.m_write_index ≡ length h
  pub buffer : take (length h) c.m_write_buff ≡ h
  pub file : c.m_file_address ≡ some f
  pub two : c.m_iv_count ≡ 2
  pub have : c.bytes_have_send ≡ pos k
  pub left : c.bytes_to_send ≡ pos (length h + length f - k)
  pub iovecs :
      ((k < length h)
        × (c.iv0.iov_base ≡ in_write_buff (pos k))
        × (c.iv0.iov_len ≡ pos (length h - k))
        × (c.iv1.iov_base ≡ in_file (pos 0))
        × (c.iv1.iov_len ≡ pos (length f)))
      ⊎ ((length h ≤ k)
          × (c.iv0.iov_len ≡ pos 0)
          × (c.iv1.iov_base ≡ in_file (pos (k - length h)))
          × (c.iv1.iov_len ≡ pos (length h + length f - k)))

-- The head goes out in at most two pieces.
abbrev pub InTwo : Bytes → ℕ → ℕ → Type 0
InTwo h k n = 0 < k → k < length h → length h ≤ k + n

pub advance-Sending :
    (h f : Bytes) (k n : ℕ) (c : Conn)
    → Sending h f k c
    → k + n ≤ length h + length f
    → InTwo h k n
    → Sending h f (k + n) (advance n c)
unfolding advance
advance-Sending h f k n c s fits two = record {
  within = fits;
  room = ground arith;
  index = ground arith;
  buffer = ground arith;
  file = ground arith;
  two = ground arith;
  have = ground arith;
  left = ground arith;
  iovecs = ground arith;
}

take-nil : (n : ℕ) → take {A = ℕ} n [] ≡ []
take-nil zero = refl
take-nil (suc n) = refl

take-drop : (m k j : ℕ) (b : Bytes) → j ≡ k + m → take m (drop k b) ≡ drop k (take j b)
take-drop m zero j b e = ap (λ n. take n b) (omega arith)
take-drop m (suc k) zero b e = absurd (omega arith)
take-drop m (suc k) (suc j) [] e = take-nil m
take-drop m (suc k) (suc j) (x ∷ b) e = take-drop m k j b (omega arith)

drop-append_le : (k : ℕ) (h f : Bytes) → k ≤ length h → drop k h ++ f ≡ drop k (h ++ f)
drop-append_le zero h f le = refl
drop-append_le (suc k) [] f le = absurd (omega arith)
drop-append_le (suc k) (x ∷ h) f le = drop-append_le k h f (omega arith)

drop-append_ge : (k : ℕ) (h f : Bytes) → length h ≤ k → drop (k - length h) f ≡ drop k (h ++ f)
drop-append_ge k [] f le = ap (λ n. drop n f) (omega arith)
drop-append_ge zero (x ∷ h) f le = absurd (omega arith)
drop-append_ge (suc k) (x ∷ h) f le =
    ap (λ n. drop n f) (omega arith) ∙ drop-append_ge k h f (omega arith)

slice-all :
    (b : Bytes) (i len : ℕ)
    → i + len ≤ length b
    → slice b (pos i) (pos len) ≡ some (take len (drop i b))
unfolding slice
slice-all b i len h = ground arith

slice-zero : (b : Bytes) (off : ℤ) → slice b off (pos 0) ≡ some []
unfolding slice
slice-zero b (pos i) = refl
slice-zero b (negsuc m) = refl

read_base-zero : (c : Conn) (base : Base) → read_base c base (pos 0) ≡ some []
unfolding read_base
read_base-zero c (in_write_buff off) = slice-zero c.m_write_buff off
read_base-zero c (in_file off) = slice-zero (mapped c.m_file_address) off

head_part :
    (h b : Bytes) (k : ℕ)
    → k < length h
    → take (length h) b ≡ h
    → take (length h - k) (drop k b) ≡ drop k h
head_part h b k lt e = take-drop (length h - k) k (length h) b (omega arith) ∙ ap (drop k) e

gather-two :
    (c : Conn) (a b : Bytes)
    → c.m_iv_count ≡ 2
    → read_base c c.iv0.iov_base c.iv0.iov_len ≡ some a
    → read_base c c.iv1.iov_base c.iv1.iov_len ≡ some b
    → gather c ≡ some (a ++ b)
unfolding gather
gather-two c a b two e f = ground arith

-- What writev is offered is just what has not been sent.
pub gather-Sending :
    (h f : Bytes) (k : ℕ) (c : Conn) → Sending h f k c → gather c ≡ some (drop k (h ++ f))
unfolding read_base
gather-Sending h f k c s = go s.iovecs
  where
    go :
        ((k < length h)
            × (c.iv0.iov_base ≡ in_write_buff (pos k))
            × (c.iv0.iov_len ≡ pos (length h - k))
            × (c.iv1.iov_base ≡ in_file (pos 0))
            × (c.iv1.iov_len ≡ pos (length f)))
          ⊎ ((length h ≤ k)
              × (c.iv0.iov_len ≡ pos 0)
              × (c.iv1.iov_base ≡ in_file (pos (k - length h)))
              × (c.iv1.iov_len ≡ pos (length h + length f - k)))
        → gather c ≡ some (drop k (h ++ f))
    go (inl (lt, b0, l0, b1, l1)) =
        gather-two c (drop k h) f s.two
          (ap₂ (read_base c) b0 l0
            ∙ slice-all c.m_write_buff k (length h - k) (omega (arith, s.room))
            ∙ ap some (head_part h c.m_write_buff k lt s.buffer))
          (ap₂ (read_base c) b1 l1
            ∙ ap (λ z. slice (mapped z) (pos 0) (pos (length f))) s.file
            ∙ slice-all f 0 (length f) (omega arith)
            ∙ ap some (take-length (length f) f (omega arith)))
        ∙ ap some (drop-append_le k h f (omega arith))
    go (inr (le, l0, b1, l1)) =
        gather-two c [] (drop k (h ++ f)) s.two
          (ap (read_base c c.iv0.iov_base) l0 ∙ read_base-zero c c.iv0.iov_base)
          (ap₂ (read_base c) b1 l1
            ∙ ap (λ z. slice (mapped z) (pos (k - length h)) (pos (length h + length f - k))) s.file
            ∙ slice-all f (k - length h) (length h + length f - k) (omega (arith, s.within))
            ∙ ap some (
                take-length _ (drop (k - length h) f) (omega (arith, length-drop (k - length h) f))
                ∙ drop-append_ge k h f le))
