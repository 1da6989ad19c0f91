-- ===== src/Log/Stamp.antt =====
-- log/src/log.cpp, write_log: the time and the level in front of a line.
use my_web_server_cmake.Prelude.{
  ℕ, zero, suc, ◌-◌, ◌≡◌, ◌≢◌, refl, arith, Bool, true, not, ◌&&◌, [], ◌∷◌, ◌++◌, length, replicate,
  ◌==◌, Bool-cases, inl, inr,
}
use my_web_server_cmake.Http.Text.{Bytes, codes}
use my_web_server_cmake.Http.Text.Words.{NoNul, All-append}
use my_web_server_cmake.Http.Text.Decimal.{dec, dec_digits, AllDigits, dec_digits-AllDigits}
use my_web_server_cmake.Log.{Time, zero_padded}
use my_web_server_cmake.Log.Write.{level_text, stamp}

abbrev no_zero : Bytes → Bool
no_zero [] = true
no_zero (x ∷ xs) = not (x == 0) && no_zero xs

plain : (s : Bytes) → no_zero s ≡ true → NoNul s
plain [] e = tt
plain (x ∷ xs) e = ((λ z. ground (arith, e, z)), plain xs (ground (arith, e)))

digits-NoNul : (s : Bytes) → AllDigits s → NoNul s
digits-NoNul [] h = tt
digits-NoNul (x ∷ s) h = ((λ z. ground (arith, h.0, z)), digits-NoNul s h.1)

dec-NoNul : (n : ℕ) → NoNul (dec n)
unfolding dec
dec-NoNul n = digits-NoNul (dec_digits 20 n) (dec_digits-AllDigits 20 n)

replicate-NoNul : (n : ℕ) → NoNul (replicate n 48)
replicate-NoNul zero = tt
replicate-NoNul (suc n) = ((λ z. omega (arith, z)), replicate-NoNul n)

zero_padded-NoNul : (w n : ℕ) → NoNul (zero_padded w n)
unfolding zero_padded
zero_padded-NoNul w n =
    All-append (λ x. x ≢ 0) (replicate (w - length (dec n)) 48) (dec n)
      (replicate-NoNul (w - length (dec n))) (dec-NoNul n)

level_text-NoNul : (level : ℕ) → NoNul (level_text level)
unfolding level_text
level_text-NoNul level = elim (Bool-cases (level == 0)) [
  | inl a ↦ rw a (plain (codes "[debug]:") refl)
  | inr b ↦ elim (Bool-cases (level == 2)) [
    | inl c ↦ rw (b, c) (plain (codes "[warn]:") refl)
    | inr d ↦ elim (Bool-cases (level == 3)) [
      | inl e ↦ rw (b, d, e) (plain (codes "[erro]:") refl)
      | inr f ↦ rw (b, d, f) (plain (codes "[info]:") refl)
    ]
  ]
]

joined : (s t : Bytes) → NoNul s → NoNul t → NoNul (s ++ t)
joined s t = All-append (λ x. x ≢ 0) s t

-- One more number or text, with a separator behind it.
one_more : (x sep s : Bytes) → NoNul x → no_zero sep ≡ true → NoNul s → NoNul (s ++ x ++ sep)
one_more x sep s h e k = joined (s ++ x) sep (joined s x k h) (plain sep e)

pub stamp-NoNul : (t : Time) (level : ℕ) → NoNul (stamp t level)
unfolding stamp
stamp-NoNul t level = one_more (level_text level) (codes " ") _ (level_text-NoNul level) refl (
    one_more (zero_padded 6 t.usec) (codes " ") _ (zero_padded-NoNul 6 t.usec) refl (
      one_more (zero_padded 2 t.sec) (codes ".") _ (zero_padded-NoNul 2 t.sec) refl (
        one_more (zero_padded 2 t.min) (codes ":") _ (zero_padded-NoNul 2 t.min) refl (
          one_more (zero_padded 2 t.hour) (codes ":") _ (zero_padded-NoNul 2 t.hour) refl (
            one_more (zero_padded 2 t.mday) (codes " ") _ (zero_padded-NoNul 2 t.mday) refl (
              one_more (zero_padded 2 t.month) (codes "-") _ (zero_padded-NoNul 2 t.month) refl
                (joined (dec t.year) (codes "-") (dec-NoNul t.year) (plain (codes "-") refl))))))))
