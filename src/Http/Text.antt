-- ===== src/Http/Text.antt =====
-- C strings in byte arrays, and the <string.h>, <strings.h> and <stdlib.h> functions that
-- http/src/http_conn.cpp calls on them. A pointer into an array is an index; NULL is `none`.
pub mod Words
pub mod Decimal
use Prim.Native.Char.{code}
use Prim.Native.String.{String}
use my_web_server_cmake.Prelude.{
  ℕ, suc, ◌+◌, ◌-◌, ◌*◌, ◌^◌, ◌%◌, min, Bool, true, false, ◌&&◌, ◌||◌, Option, none, some, List, [],
  ◌∷◌, ltb, leb, ◌==◌, if◌then◌else◌, get_elem?, drop, ℤ, pos, negsuc, sub_ℕ, take, ◌++◌, length,
  length-append, length-take, length-drop, ◌≤◌, ◌≡◌, arith,
}

abbrev pub Bytes : Type 0
Bytes = List ℕ

-- The bytes of a literal (all literals of the program's protocol text are ASCII).
abbrev pub codes : String → Bytes
codes String.[] = []
codes (String.◌∷◌ c s) = code c ∷ codes s

abbrev pub cr : ℕ
cr = 13

abbrev pub lf : ℕ
lf = 10

abbrev pub slash : ℕ
slash = 47

-- `b[i]`
unfoldable pub at : Bytes → ℕ → ℕ
at b i = elim (get_elem? b i) [ some x ↦ x | none ↦ 0 ]

-- The bytes in front of the first NUL.
unfoldable pub until_nul : Bytes → Bytes
until_nul [] = []
until_nul (x ∷ xs) = if x == 0 then [] else x ∷ until_nul xs

-- The C string that starts at `b + p`.
unfoldable pub cstr : Bytes → ℕ → Bytes
unfolding until_nul
cstr b p = until_nul (drop p b)

-- Blank and horizontal tab, the set of every `strpbrk` and `strspn` of the parser.
abbrev pub is_blank : ℕ → Bool
is_blank c = c == 32 || c == 9

unfoldable pub index_of : (ℕ → Bool) → Bytes → Option ℕ
index_of p [] = none
index_of p (x ∷ xs) =
    if p x then some 0 else elim (index_of p xs) [ none ↦ none | some k ↦ some (suc k) ]

-- `b + i` moved on by an offset found in its string.
abbrev pub shift : ℕ → Option ℕ → Option ℕ
shift i none = none
shift i (some k) = some (i + k)

-- strpbrk(b + i, " \t")
unfoldable pub strpbrk_blank : Bytes → ℕ → Option ℕ
unfolding index_of cstr
strpbrk_blank b i = shift i (index_of is_blank (cstr b i))

-- strchr(b + i, c) for a `c` that is not NUL
unfoldable pub strchr : Bytes → ℕ → ℕ → Option ℕ
unfolding index_of cstr
strchr b i c = shift i (index_of (λ x. x == c) (cstr b i))

unfoldable pub last_index_of : (ℕ → Bool) → Bytes → Option ℕ
last_index_of p [] = none
last_index_of p (x ∷ xs) = elim (last_index_of p xs) [
  | some k ↦ some (suc k)
  | none ↦ if p x then some 0 else none
]

-- strrchr(b + i, c) for a `c` that is not NUL
unfoldable pub strrchr : Bytes → ℕ → ℕ → Option ℕ
unfolding last_index_of cstr
strrchr b i c = shift i (last_index_of (λ x. x == c) (cstr b i))

-- strspn(s, " \t")
unfoldable pub strspn_blank : Bytes → ℕ
strspn_blank [] = 0
strspn_blank (x ∷ xs) = if is_blank x then suc (strspn_blank xs) else 0

unfoldable pub to_lower : ℕ → ℕ
to_lower c = if leb 65 c && leb c 90 then c + 32 else c

-- strcasecmp(s, t) == 0
unfoldable pub strcasecmp_eq : Bytes → Bytes → Bool
unfolding to_lower
strcasecmp_eq [] [] = true
strcasecmp_eq [] (y ∷ ys) = false
strcasecmp_eq (x ∷ xs) [] = false
strcasecmp_eq (x ∷ xs) (y ∷ ys) = to_lower x == to_lower y && strcasecmp_eq xs ys

-- strncasecmp(s, t, strlen(t)) == 0
unfoldable pub has_prefix_nocase : Bytes → Bytes → Bool
unfolding to_lower
has_prefix_nocase s [] = true
has_prefix_nocase [] (y ∷ ys) = false
has_prefix_nocase (x ∷ xs) (y ∷ ys) = to_lower x == to_lower y && has_prefix_nocase xs ys

abbrev pub is_digit : ℕ → Bool
is_digit c = leb 48 c && leb c 57

-- isspace
abbrev pub is_space : ℕ → Bool
is_space c = c == 32 || leb 9 c && leb c 13

unfoldable pub digits_value : ℕ → Bytes → ℕ
digits_value acc [] = acc
digits_value acc (x ∷ xs) =
    let rest = digits_value (acc * 10 + (x - 48)) xs in if is_digit x then rest else acc

unfoldable pub skip_space : Bytes → Bytes
skip_space [] = []
skip_space (x ∷ xs) = if is_space x then skip_space xs else x ∷ xs

-- The optional sign of a number, and what follows it.
unfoldable pub signed_value : Bytes → ℤ
unfolding digits_value
signed_value [] = pos 0
signed_value (x ∷ xs) =
    if x == 45
    then sub_ℕ 0 (min (2 ^ 63) (digits_value 0 xs))
    else if x == 43
    then pos (min (2 ^ 63 - 1) (digits_value 0 xs))
    else pos (min (2 ^ 63 - 1) (digits_value 0 (x ∷ xs)))

-- atol: a `long`, held to its range as strtol holds it
unfoldable pub atol : Bytes → ℤ
unfolding signed_value skip_space
atol s = signed_value (skip_space s)

-- A value below 2^32 read as an `int`.
abbrev pub of_bits : ℕ → ℤ
of_bits r = if ltb r (2 ^ 31) then pos r else negsuc (2 ^ 32 - 1 - r)

-- (int)x: the low 32 bits
unfoldable pub to_int : ℤ → ℤ
to_int (pos n) = of_bits (n % 2 ^ 32)
to_int (negsuc n) = of_bits (2 ^ 32 - 1 - n % 2 ^ 32)

-- The bytes `s` written over those of `b` from `i` on.
unfoldable pub overwrite : Bytes → ℕ → Bytes → Bytes
overwrite b i s = take i b ++ (s ++ drop (i + length s) b)

pub length-overwrite :
    (b : Bytes) (i : ℕ) (s : Bytes) → i + length s ≤ length b → length (overwrite b i s) ≡ length b
unfolding overwrite
length-overwrite b i s h = omega (
  arith,
  length-append (take i b) (s ++ drop (i + length s) b),
  length-append s (drop (i + length s) b),
  length-take i b,
  length-drop (i + length s) b,
)
