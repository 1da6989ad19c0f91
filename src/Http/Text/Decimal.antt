-- ===== src/Http/Text/Decimal.antt =====
-- Decimal numbers as printf writes them for `%d`, and as atol reads them.
use native.Mathlib.Nat.{pow-suc}
use my_web_server_cmake.Prelude.{
  ℕ, zero, suc, ◌+◌, ◌-◌, ◌*◌, ◌/◌, ◌%◌, ◌^◌, ◌≤◌, ◌<◌, ◌≡◌, arith, refl, ◌∙◌, ap, true, false, [],
  ◌∷◌, ◌++◌, length, length-append, ℤ, pos, negsuc, ltb, if◌then◌else◌, Bool-cases, inl, inr,
  ltb→lt, lt→ltb, ◌==◌,
}
use my_web_server_cmake.Http.Text.{
  Bytes, is_digit, is_space, digits_value, skip_space, signed_value, atol,
}
use my_web_server_cmake.Http.Text.Words.{All, All-append}

-- At most `k` digits of a number.
unfoldable pub dec_digits : ℕ → ℕ → Bytes
dec_digits zero n = []
dec_digits (suc k) n =
    let rest = dec_digits k (n / 10) ++ (48 + n % 10) ∷ [] in
    if ltb n 10 then (48 + n) ∷ [] else rest

-- `%d` of a number that is not negative. Twenty digits hold every 64-bit number.
unfoldable pub dec : ℕ → Bytes
unfolding dec_digits
dec n = dec_digits 20 n

-- `%d`
unfoldable pub int_dec : ℤ → Bytes
unfolding dec
int_dec (pos n) = dec n
int_dec (negsuc n) = 45 ∷ dec (suc n)

pub length-dec_digits : (k n : ℕ) → length (dec_digits k n) ≤ k
unfolding dec_digits
length-dec_digits zero n = omega arith
length-dec_digits (suc k) n = ground (
  arith,
  length-dec_digits k (n / 10),
  length-append (dec_digits k (n / 10)) ((48 + n % 10) ∷ []),
)

pub length-int_dec : (z : ℤ) → length (int_dec z) ≤ 21
unfolding int_dec dec
length-int_dec (pos n) = omega (arith, length-dec_digits 20 n)
length-int_dec (negsuc n) = omega (arith, length-dec_digits 20 (suc n))

abbrev pub AllDigits : Bytes → Type 0
AllDigits = All λ x. is_digit x ≡ true

pub dec_digits-AllDigits : (k n : ℕ) → AllDigits (dec_digits k n)
unfolding dec_digits
dec_digits-AllDigits zero n = tt
dec_digits-AllDigits (suc k) n = elim (Bool-cases (ltb n 10)) [
  | inl small ↦ rw small (ground (arith, ltb→lt n 10 small), tt)
  | inr large ↦ rw large (
      All-append _ (dec_digits k (n / 10)) ((48 + n % 10) ∷ []) (dec_digits-AllDigits k (n / 10))
        (ground arith, tt))
]

digits_value-append :
    (xs : Bytes) (acc d : ℕ)
    → AllDigits xs
    → d < 10
    → digits_value acc (xs ++ (48 + d) ∷ []) ≡ digits_value acc xs * 10 + d
unfolding digits_value
digits_value-append [] acc d h lt = ground arith
digits_value-append (x ∷ xs) acc d h lt =
    rw h.0 (digits_value-append xs (acc * 10 + (x - 48)) d h.1 lt)

one_digit : (n : ℕ) → n < 10 → digits_value 0 ((48 + n) ∷ []) ≡ n
unfolding digits_value
one_digit n h = ground arith

dec_digits-small : (k n : ℕ) → n < 10 → dec_digits (suc k) n ≡ (48 + n) ∷ []
unfolding dec_digits
dec_digits-small k n h = rw (lt→ltb n 10 h) refl

dec_digits-large :
    (k n : ℕ)
    → ltb n 10 ≡ false
    → dec_digits (suc k) n ≡ dec_digits k (n / 10) ++ (48 + n % 10) ∷ []
unfolding dec_digits
dec_digits-large k n h = rw h refl

digits_value-dec_digits : (k n : ℕ) → n < 10 ^ suc k → digits_value 0 (dec_digits (suc k) n) ≡ n
digits_value-dec_digits zero n h =
    rw (dec_digits-small zero n (omega arith)) (one_digit n (omega arith))
digits_value-dec_digits (suc k) n h = elim (Bool-cases (ltb n 10)) [
  | inl small ↦
      rw (dec_digits-small (suc k) n (ltb→lt n 10 small)) (one_digit n (ltb→lt n 10 small))
  | inr large ↦ rw (dec_digits-large (suc k) n large) (
      digits_value-append (dec_digits (suc k) (n / 10)) 0 (n % 10)
        (dec_digits-AllDigits (suc k) (n / 10)) (omega arith)
      ∙ omega (arith, digits_value-dec_digits k (n / 10) (omega (arith, pow-suc 10 (suc k)))))
]

head-append :
    (ys : Bytes) (d : ℕ)
    → AllDigits ys
    → is_digit d ≡ true
    → (x : ℕ) × (xs : Bytes) × (ys ++ d ∷ [] ≡ x ∷ xs) × (is_digit x ≡ true)
head-append [] d h e = (d, [], refl, e)
head-append (y ∷ ys) d h e = (y, ys ++ d ∷ [], refl, h.0)

dec_digits-head :
    (k n : ℕ) → (x : ℕ) × (xs : Bytes) × (dec_digits (suc k) n ≡ x ∷ xs) × (is_digit x ≡ true)
unfolding dec_digits
dec_digits-head k n = elim (Bool-cases (ltb n 10)) [
  | inl small ↦ (48 + n, [], rw small refl, ground (arith, ltb→lt n 10 small))
  | inr large ↦ rw large (
      head-append (dec_digits k (n / 10)) (48 + n % 10) (dec_digits-AllDigits k (n / 10))
        (ground arith))
]

digit_is_plain :
    (x : ℕ) → is_digit x ≡ true → (is_space x ≡ false) × ((x == 45) ≡ false) × ((x == 43) ≡ false)
digit_is_plain x h = ground arith

atol-digits :
    (s xs : Bytes) (x n : ℕ)
    → s ≡ x ∷ xs
    → is_digit x ≡ true
    → digits_value 0 s ≡ n
    → n < 2 ^ 63
    → atol s ≡ pos n
unfolding atol skip_space signed_value
atol-digits s xs x n e h v lt =
    let (space, minus, plus) = digit_is_plain x h in
    rw (e, space, minus, plus) (ap pos (rw (rw e at v) (omega arith)))

-- A number printed by `%d` and read by atol is the number, up to the greatest `long`.
pub atol-dec : (n : ℕ) → n < 2 ^ 63 → atol (dec n) ≡ pos n
unfolding dec
atol-dec n lt =
    let (x, xs, e, h) = dec_digits-head 19 n in
    atol-digits (dec_digits 20 n) xs x n e h (digits_value-dec_digits 19 n (omega arith)) lt
