-- ===== src/Timer/Chain.antt =====
-- timer/src/lst_timer.cpp: a stretch of the doubly linked list, as the list of its timers.
use my_web_server_cmake.Prelude.{
  ℕ, ◌≡◌, ◌≢◌, refl, arith, Bool, true, false, ◌||◌, Option, some, List, [], ◌∷◌, ◌++◌, ◌==◌, ap,
  ◌∙◌, sym,
}
use my_web_server_cmake.Timer.{UtilTimer, Heap, put}

-- A timer of the list: where it is, when it expires, and whose it is.
pub record Entry : Type 0 where
  pub ptr : ℕ
  pub expire : ℕ
  pub user_data : ℕ

abbrev pub node : (prev next : Option ℕ) → Entry → UtilTimer
node p n e = record { expire = e.expire; user_data = e.user_data; prev = p; next = n }

-- The first and the last address, or a given one if there is none.
abbrev pub first : List Entry → Option ℕ → Option ℕ
first [] after = after
first (e ∷ es) after = some e.ptr

abbrev pub last : List Entry → Option ℕ → Option ℕ
last [] before = before
last (e ∷ es) before = last es (some e.ptr)

-- From the address `before` to the address `after`, both exclusive, the timers `es` are linked.
abbrev pub Chain : Heap → (before : Option ℕ) → List Entry → (after : Option ℕ) → Type 0
Chain h before [] after = Unit {0}
Chain h before (e ∷ es) after =
    (h e.ptr ≡ some (node before (first es after) e)) × Chain h (some e.ptr) es after

abbrev pub has : ℕ → List Entry → Bool
has a [] = false
has a (e ∷ es) = (a == e.ptr) || has a es

infix 40 ◌∉◌
abbrev pub ◌∉◌ : ℕ → List Entry → Type 0
a ∉ es = has a es ≡ false

abbrev pub Distinct : List Entry → Type 0
Distinct [] = Unit {0}
Distinct (e ∷ es) = (e.ptr ∉ es) × Distinct es

-- `g` differs from `h` at most at `a` and at the timers of `es`.
abbrev pub SameOutside : ℕ → List Entry → Heap → Heap → Type 0
SameOutside a es h g = (p : ℕ) → p ≢ a → p ∉ es → g p ≡ h p

pub has-append : (a : ℕ) (xs ys : List Entry) → has a (xs ++ ys) ≡ (has a xs || has a ys)
has-append a [] ys = refl
has-append a (x ∷ xs) ys = ground (arith, has-append a xs ys)

pub first-append : (xs ys : List Entry) (a : Option ℕ) → first (xs ++ ys) a ≡ first xs (first ys a)
first-append [] ys a = refl
first-append (x ∷ xs) ys a = refl

pub last-append : (xs ys : List Entry) (b : Option ℕ) → last (xs ++ ys) b ≡ last ys (last xs b)
last-append [] ys b = refl
last-append (x ∷ xs) ys b = last-append xs ys (some x.ptr)

pub Chain-frame :
    (h g : Heap) (b a : Option ℕ) (es : List Entry)
    → ((p : ℕ) → has p es ≡ true → g p ≡ h p)
    → Chain h b es a
    → Chain g b es a
Chain-frame h g b a [] same c = tt
Chain-frame h g b a (e ∷ es) same c = (
  same e.ptr (ground arith) ∙ c.0,
  Chain-frame h g (some e.ptr) a es (λ p i. same p (ground (arith, i))) c.1,
)

pub Chain-put :
    (h : Heap) (p : ℕ) (v : Option UtilTimer) (b a : Option ℕ) (es : List Entry)
    → p ∉ es
    → Chain h b es a
    → Chain (put h p v) b es a
unfolding put
Chain-put h p v b a [] out c = tt
Chain-put h p v b a (e ∷ es) out c =
    (ground (arith, c.0, out), Chain-put h p v (some e.ptr) a es (ground (arith, out)) c.1)

pub Chain-append :
    (h : Heap) (b a : Option ℕ) (xs ys : List Entry)
    → Chain h b xs (first ys a)
    → Chain h (last xs b) ys a
    → Chain h b (xs ++ ys) a
Chain-append h b a [] ys c d = d
Chain-append h b a (x ∷ xs) ys c d = (
  c.0 ∙ ap (λ n. some (node b n x)) (sym (first-append xs ys a)),
  Chain-append h (some x.ptr) a xs ys c.1 d,
)

pub Chain-split :
    (h : Heap) (b a : Option ℕ) (xs ys : List Entry)
    → Chain h b (xs ++ ys) a
    → Chain h b xs (first ys a) × Chain h (last xs b) ys a
Chain-split h b a [] ys c = (tt, c)
Chain-split h b a (x ∷ xs) ys c =
    let (d, e) = Chain-split h (some x.ptr) a xs ys c.1 in
    ((c.0 ∙ ap (λ n. some (node b n x)) (first-append xs ys a), d), e)
