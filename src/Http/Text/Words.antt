-- ===== src/Http/Text/Words.antt =====
-- Reading and writing C strings behind a prefix of the buffer.
use my_web_server_cmake.Prelude.{
  ℕ, zero, suc, ◌+◌, ◌≡◌, ◌≢◌, arith, refl, ◌∙◌, ap, ap₂, sym, Bool, true, false, some, none, [],
  ◌∷◌, ◌++◌, length, set, drop, take, drop-length_append, append_assoc, length-append,
}
use my_web_server_cmake.Http.Text.{
  Bytes, at, until_nul, cstr, index_of, is_blank, strpbrk_blank, shift, overwrite,
}

-- Reads and writes behind a prefix.
pub at-append : (xs ys : Bytes) (i k : ℕ) → k ≡ length xs + i → at (xs ++ ys) k ≡ at ys i
unfolding at
at-append [] ys i k e = ap (at ys) (omega arith)
at-append (x ∷ xs) ys i zero e = absurd (omega arith)
at-append (x ∷ xs) ys i (suc k) e = at-append xs ys i k (omega arith)

pub set-append :
    (xs ys : Bytes) (i k v : ℕ) → k ≡ length xs + i → set (xs ++ ys) k v ≡ xs ++ set ys i v
set-append [] ys i k v e = ap (λ j. set ys j v) (omega arith)
set-append (x ∷ xs) ys i zero v e = absurd (omega arith)
set-append (x ∷ xs) ys i (suc k) v e = ap (◌∷◌ x) (set-append xs ys i k v (omega arith))

pub drop-append : (xs ys : Bytes) (k : ℕ) → k ≡ length xs → drop k (xs ++ ys) ≡ ys
drop-append xs ys k e = rw e (drop-length_append xs ys)

pub take-append : (xs ys : Bytes) → take (length xs) (xs ++ ys) ≡ xs
take-append [] ys = refl
take-append (x ∷ xs) ys = ap (◌∷◌ x) (take-append xs ys)

-- Every byte satisfies the predicate.
abbrev pub All : (ℕ → Type 0) → Bytes → Type 0
All P [] = Unit {0}
All P (x ∷ xs) = P x × All P xs

abbrev pub NoNul : Bytes → Type 0
NoNul = All λ x. x ≢ 0

-- A word has no NUL and no blank.
abbrev pub IsWord : Bytes → Type 0
IsWord = All λ x. (x ≢ 0) × (is_blank x ≡ false)

pub IsWord→NoNul : (s : Bytes) → IsWord s → NoNul s
IsWord→NoNul [] h = tt
IsWord→NoNul (x ∷ s) h = (h.0.0, IsWord→NoNul s h.1)

pub All-append : (P : ℕ → Type 0) (s t : Bytes) → All P s → All P t → All P (s ++ t)
All-append P [] t h k = k
All-append P (x ∷ s) t h k = (h.0, All-append P s t h.1 k)

until_nul-append : (s rest : Bytes) → NoNul s → until_nul (s ++ 0 ∷ rest) ≡ s
unfolding until_nul
until_nul-append [] rest p = refl
until_nul-append (x ∷ s) rest p = ground (arith, until_nul-append s rest p.1)

-- The C string behind `before` is what stands in front of the next NUL.
pub cstr-append :
    (before s rest : Bytes) (k : ℕ)
    → NoNul s
    → k ≡ length before
    → cstr (before ++ (s ++ 0 ∷ rest)) k ≡ s
unfolding cstr
cstr-append before s rest k h e =
    ap until_nul (drop-append before _ k e) ∙ until_nul-append s rest h

pub index_of-append :
    (p : ℕ → Bool) (s rest : Bytes) (x : ℕ)
    → All (λ y. p y ≡ false) s
    → p x ≡ true
    → index_of p (s ++ x ∷ rest) ≡ some (length s)
unfolding index_of
index_of-append p [] rest x h e = rw e
index_of-append p (y ∷ s) rest x h e = rw (h.0, index_of-append p s rest x h.1 e)

pub index_of-none : (p : ℕ → Bool) (s : Bytes) → All (λ y. p y ≡ false) s → index_of p s ≡ none
unfolding index_of
index_of-none p [] h = refl
index_of-none p (y ∷ s) h = rw (h.0, index_of-none p s h.1)

IsWord-blanks : (s : Bytes) → IsWord s → All (λ y. is_blank y ≡ false) s
IsWord-blanks [] h = tt
IsWord-blanks (x ∷ s) h = (h.0.1, IsWord-blanks s h.1)

-- A word and a blank: strpbrk finds the blank.
pub strpbrk-word :
    (before s t rest : Bytes) (k : ℕ)
    → IsWord s
    → NoNul t
    → k ≡ length before
    → strpbrk_blank (before ++ ((s ++ 32 ∷ t) ++ 0 ∷ rest)) k ≡ some (k + length s)
unfolding strpbrk_blank
strpbrk-word before s t rest k h n e =
    ap (λ z. shift k (index_of is_blank z))
      (cstr-append before (s ++ 32 ∷ t) rest k
        (All-append _ s (32 ∷ t) (IsWord→NoNul s h) ((λ q. omega arith), n)) e)
    ∙ ap (shift k) (index_of-append is_blank s t 32 (IsWord-blanks s h) refl)

-- New bytes over as many old ones.
pub overwrite-append :
    (before old rest new : Bytes) (k : ℕ)
    → k ≡ length before
    → length new ≡ length old
    → overwrite (before ++ (old ++ rest)) k new ≡ before ++ (new ++ rest)
unfolding overwrite
overwrite-append before old rest new k e f = ap₂ ◌++◌ (rw e (take-append before (old ++ rest))) (
    ap (◌++◌ new) (
      ap (λ z. drop (k + length new) z) (sym (append_assoc before old rest))
      ∙ drop-append (before ++ old) rest _ (omega (arith, length-append before old))))

-- The same blank overwritten by NUL: the word is a C string of its own.
pub set-word :
    (before s t rest : Bytes) (k : ℕ)
    → k ≡ length before + length s
    → set (before ++ ((s ++ 32 ∷ t) ++ 0 ∷ rest)) k 0 ≡ before ++ (s ++ 0 ∷ (t ++ 0 ∷ rest))
set-word before s t rest k e =
    ap (λ z. set z k 0)
      (ap (◌++◌ before) (append_assoc s (32 ∷ t) (0 ∷ rest)) ∙ sym (append_assoc before s _))
    ∙ set-append (before ++ s) _ 0 k 0 (omega (arith, length-append before s))
    ∙ append_assoc before s _
