-- ===== src/Timer/Unlink.antt =====
-- timer/src/lst_timer.cpp: a timer is taken out from between others.
use my_web_server_cmake.Prelude.{
  ℕ, ◌≡◌, ◌≢◌, refl, arith, true, false, none, some, List, [], ◌∷◌, ◌++◌, ◌==◌, ◌∙◌, sym,
  Bool-cases, inl, inr, ==_iff, subst,
}
use my_web_server_cmake.Prelude.Run.{done}
use my_web_server_cmake.Timer.{Heap, set_next, set_prev, ptr_eq}
use my_web_server_cmake.Timer.Chain.{
  Entry, last, Chain, ◌∉◌, has, has-append, Distinct, Chain-frame, Chain-split,
}
use my_web_server_cmake.Timer.Cells.{set_next-last, set_prev-first, ne_of_out, out-tail, out-cons}

pub out-append : (p : ℕ) (xs ys : List Entry) → p ∉ xs → p ∉ ys → p ∉ (xs ++ ys)
out-append p xs ys o o' = ground (arith, has-append p xs ys, o, o')

pub out-left : (p : ℕ) (xs ys : List Entry) → p ∉ (xs ++ ys) → p ∉ xs
out-left p xs ys o = ground (arith, has-append p xs ys, o)

pub out-right : (p : ℕ) (xs ys : List Entry) → p ∉ (xs ++ ys) → p ∉ ys
out-right p xs ys o = ground (arith, has-append p xs ys, o)

pub Distinct-left : (xs ys : List Entry) → Distinct (xs ++ ys) → Distinct xs
Distinct-left [] ys d = tt
Distinct-left (x ∷ xs) ys d = (out-left x.ptr xs ys d.0, Distinct-left xs ys d.1)

pub Distinct-right : (xs ys : List Entry) → Distinct (xs ++ ys) → Distinct ys
Distinct-right [] ys d = d
Distinct-right (x ∷ xs) ys d = Distinct-right xs ys d.1

-- What is in the first part is not in the second.
pub apart : (p : ℕ) (xs ys : List Entry) → Distinct (xs ++ ys) → has p xs ≡ true → p ∉ ys
apart p [] ys d i = ground (arith, i)
apart p (x ∷ xs) ys d i = elim (Bool-cases (p == x.ptr)) [
  | inl e ↦ subst (λ q. q ∉ ys) (sym ((==_iff p x.ptr).0 e)) (out-right x.ptr xs ys d.0)
  | inr ne ↦ apart p xs ys d.1 (ground (arith, i, ne))
]

pub apart' : (p : ℕ) (xs ys : List Entry) → Distinct (xs ++ ys) → has p ys ≡ true → p ∉ xs
apart' p xs ys d i = elim (Bool-cases (has p xs)) [
  | inl j ↦ ground (arith, apart p xs ys d j, i)
  | inr o ↦ o
]

-- Without one of its timers the rest is still distinct, and does not hold that one.
pub Distinct-remove :
    (xs ys : List Entry) (t : Entry)
    → Distinct (xs ++ t ∷ ys)
    → Distinct (xs ++ ys) × (t.ptr ∉ (xs ++ ys))
Distinct-remove [] ys t d = (d.1, d.0)
Distinct-remove (x ∷ xs) ys t d =
    let (e, o) = Distinct-remove xs ys t d.1 in
    let out = out-right x.ptr xs (t ∷ ys) d.0 in
    let ne : t.ptr ≢ x.ptr = λ z. ne_of_out x.ptr t ys out (sym z) in
    (
      (out-append x.ptr xs ys (out-left x.ptr xs (t ∷ ys) d.0) (out-tail x.ptr t ys out), e),
      out-cons t.ptr x (xs ++ ys) ne o,
    )

pub ptr_eq-last :
    (p : ℕ) (e : Entry) (es : List Entry)
    → p ∉ (e ∷ es)
    → ptr_eq (some p) (last es (some e.ptr)) ≡ false
ptr_eq-last p e [] o = ground (arith, o)
ptr_eq-last p e (y ∷ ys) o = ptr_eq-last p y ys (out-tail p e (y ∷ ys) o)

pub ptr_eq_self : (p : ℕ) → ptr_eq (some p) (some p) ≡ true
ptr_eq_self p = (==_iff p p).1 refl

pub ptr_eq-ne : (p q : ℕ) → p ≢ q → ptr_eq (some p) (some q) ≡ false
ptr_eq-ne p q ne = ground (arith, ne)

-- The two writes that take a timer out from between others.
pub record Unlinked (h : Heap) (x y t : Entry) (xs ys : List Entry) : Type 0 where
  pub h1 : Heap
  pub h2 : Heap
  pub next_set : set_next (last (x ∷ xs) none) (some y.ptr) h ≡ done h1
  pub prev_set : set_prev (some y.ptr) (last (x ∷ xs) none) h1 ≡ done h2
  pub left1 : h1 t.ptr ≡ h t.ptr
  pub left2 : h2 t.ptr ≡ h t.ptr
  pub before : Chain h2 none (x ∷ xs) (some y.ptr)
  pub behind : Chain h2 (last (x ∷ xs) none) (y ∷ ys) none

pub unlink :
    (h : Heap) (x y t : Entry) (xs ys : List Entry)
    → Chain h none ((x ∷ xs) ++ t ∷ y ∷ ys) none
    → Distinct ((x ∷ xs) ++ t ∷ y ∷ ys)
    → Unlinked h x y t xs ys
unlink h x y t xs ys c d =
    let (c1, c2) = Chain-split h none none (x ∷ xs) (t ∷ y ∷ ys) c in
    let (rest, out) = Distinct-remove (x ∷ xs) (y ∷ ys) t d in
    let dx = Distinct-left (x ∷ xs) (t ∷ y ∷ ys) d in
    let dy = Distinct-right (x ∷ xs) (y ∷ ys) rest in
    let out_x = out-left t.ptr (x ∷ xs) (y ∷ ys) out in
    let ne = ne_of_out t.ptr y ys (out-right t.ptr (x ∷ xs) (y ∷ ys) out) in
    let (h1, e1, before, same1) = set_next-last h none (some t.ptr) (some y.ptr) x xs c1 dx in
    let behind =
      Chain-frame h h1 (some t.ptr) none (y ∷ ys)
        (λ p i. same1 p (apart' p (x ∷ xs) (y ∷ ys) rest i)) c2.1 in
    let (h2, e2, behind2, same2) =
      set_prev-first h1 (some t.ptr) (last (x ∷ xs) none) none y ys behind dy in
    record {
      h1 = h1;
      h2 = h2;
      next_set = e1;
      prev_set = e2;
      left1 = same1 t.ptr out_x;
      left2 = same2 t.ptr ne ∙ same1 t.ptr out_x;
      before =
          Chain-frame h1 h2 none (some y.ptr) (x ∷ xs)
            (λ p i. same2 p (ne_of_out p y ys (apart p (x ∷ xs) (y ∷ ys) rest i))) before;
      behind = behind2;
    }
