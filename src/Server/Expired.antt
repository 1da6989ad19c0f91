-- ===== src/Server/Expired.antt =====
-- main.cpp and timer/src/lst_timer.cpp: a list of timers in the order of their times.
use my_web_server_cmake.Prelude.{
  ℕ, ◌≡◌, ◌≤◌, refl, arith, true, false, List, [], ◌∷◌, ◌++◌, ltb, if◌then◌else◌, Bool-cases, inl,
  inr,
}
use my_web_server_cmake.Timer.Chain.{Entry}
use my_web_server_cmake.Timer.Insert.{insert}
use my_web_server_cmake.Timer.Tick.{staying, called}

-- All timers expire by `limit`, all from `limit` on.
abbrev pub AllBy : (limit : ℕ) → List Entry → Type 0
AllBy limit [] = Unit {0}
AllBy limit (e ∷ es) = (e.expire ≤ limit) × AllBy limit es

abbrev pub AllFrom : (limit : ℕ) → List Entry → Type 0
AllFrom limit [] = Unit {0}
AllFrom limit (e ∷ es) = (limit ≤ e.expire) × AllFrom limit es

abbrev pub Sorted : List Entry → Type 0
Sorted [] = Unit {0}
Sorted (e ∷ es) = AllFrom e.expire es × Sorted es

-- The timers that have not expired at `now`, and the owners of those that have.
abbrev pub alive : (now : ℕ) → List Entry → List Entry
alive now [] = []
alive now (e ∷ es) = if ltb now e.expire then e ∷ alive now es else alive now es

abbrev pub expired : (now : ℕ) → List Entry → List ℕ
expired now [] = []
expired now (e ∷ es) = if ltb now e.expire then expired now es else e.user_data ∷ expired now es

all_alive :
    (now : ℕ) (e : Entry) (es : List Entry)
    → ltb now e.expire ≡ true
    → AllFrom e.expire es
    → (alive now es ≡ es) × (expired now es ≡ [])
all_alive now e [] lt a = (refl, refl)
all_alive now e (x ∷ xs) lt a =
    let (i, j) = all_alive now e xs lt a.1 in
    let here : ltb now x.expire ≡ true = ground (arith, lt, a.0) in (rw (here, i) refl, rw here j)

-- Of timers in the order of their times, the first that is not expired ends the expired ones.
pub staying-Sorted :
    (now : ℕ) (es : List Entry)
    → Sorted es
    → (staying now es ≡ alive now es) × (called now es ≡ expired now es)
staying-Sorted now [] s = (refl, refl)
staying-Sorted now (e ∷ es) s = elim (Bool-cases (ltb now e.expire)) [
  | inl lt ↦ let (i, j) = all_alive now e es lt s.0 in (rw (lt, i) refl, rw (lt, j) refl)
  | inr ge ↦ let (i, j) = staying-Sorted now es s.1 in (rw (ge, i) refl, rw (ge, j) refl)
]

pub insert-last : (t : Entry) (es : List Entry) → AllBy t.expire es → insert t es ≡ es ++ t ∷ []
insert-last t [] a = refl
insert-last t (e ∷ es) a =
    let ge : ltb t.expire e.expire ≡ false = ground (arith, a.0) in
    rw (ge, insert-last t es a.1) refl

pub AllBy-later :
    (limit later : ℕ) (es : List Entry) → limit ≤ later → AllBy limit es → AllBy later es
AllBy-later limit later [] le a = tt
AllBy-later limit later (e ∷ es) le a = (omega (arith, a.0, le), AllBy-later limit later es le a.1)

pub AllBy-append :
    (limit : ℕ) (xs ys : List Entry) → AllBy limit xs → AllBy limit ys → AllBy limit (xs ++ ys)
AllBy-append limit [] ys a b = b
AllBy-append limit (x ∷ xs) ys a b = (a.0, AllBy-append limit xs ys a.1 b)

pub AllBy-left : (limit : ℕ) (xs ys : List Entry) → AllBy limit (xs ++ ys) → AllBy limit xs
AllBy-left limit [] ys a = tt
AllBy-left limit (x ∷ xs) ys a = (a.0, AllBy-left limit xs ys a.1)

pub AllBy-right : (limit : ℕ) (xs ys : List Entry) → AllBy limit (xs ++ ys) → AllBy limit ys
AllBy-right limit [] ys a = a
AllBy-right limit (x ∷ xs) ys a = AllBy-right limit xs ys a.1

AllFrom-remove :
    (limit : ℕ) (t : Entry) (xs ys : List Entry)
    → AllFrom limit (xs ++ t ∷ ys)
    → AllFrom limit (xs ++ ys)
AllFrom-remove limit t [] ys a = a.1
AllFrom-remove limit t (x ∷ xs) ys a = (a.0, AllFrom-remove limit t xs ys a.1)

pub Sorted-remove : (t : Entry) (xs ys : List Entry) → Sorted (xs ++ t ∷ ys) → Sorted (xs ++ ys)
Sorted-remove t [] ys s = s.1
Sorted-remove t (x ∷ xs) ys s = (AllFrom-remove x.expire t xs ys s.0, Sorted-remove t xs ys s.1)

AllFrom-last :
    (limit : ℕ) (t : Entry) (es : List Entry)
    → limit ≤ t.expire
    → AllFrom limit es
    → AllFrom limit (es ++ t ∷ [])
AllFrom-last limit t [] le a = (le, tt)
AllFrom-last limit t (e ∷ es) le a = (a.0, AllFrom-last limit t es le a.1)

pub Sorted-last :
    (t : Entry) (es : List Entry) → AllBy t.expire es → Sorted es → Sorted (es ++ t ∷ [])
Sorted-last t [] a s = (tt, tt)
Sorted-last t (e ∷ es) a s = (AllFrom-last e.expire t es a.0 s.0, Sorted-last t es a.1 s.1)

AllFrom-alive : (limit now : ℕ) (es : List Entry) → AllFrom limit es → AllFrom limit (alive now es)
AllFrom-alive limit now [] a = tt
AllFrom-alive limit now (e ∷ es) a = elim (Bool-cases (ltb now e.expire)) [
  | inl lt ↦ rw lt (a.0, AllFrom-alive limit now es a.1)
  | inr ge ↦ rw ge (AllFrom-alive limit now es a.1)
]

pub Sorted-alive : (now : ℕ) (es : List Entry) → Sorted es → Sorted (alive now es)
Sorted-alive now [] s = tt
Sorted-alive now (e ∷ es) s = elim (Bool-cases (ltb now e.expire)) [
  | inl lt ↦ rw lt (AllFrom-alive e.expire now es s.0, Sorted-alive now es s.1)
  | inr ge ↦ rw ge (Sorted-alive now es s.1)
]

pub AllBy-alive : (limit now : ℕ) (es : List Entry) → AllBy limit es → AllBy limit (alive now es)
AllBy-alive limit now [] a = tt
AllBy-alive limit now (e ∷ es) a = elim (Bool-cases (ltb now e.expire)) [
  | inl lt ↦ rw lt (a.0, AllBy-alive limit now es a.1)
  | inr ge ↦ rw ge (AllBy-alive limit now es a.1)
]
