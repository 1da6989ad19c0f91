-- ===== src/Timer/Unique.antt =====
-- timer/src/lst_timer.cpp: a list and the sequences of timers that it may stand for.
use mathlib.Core.Option.{none-ne-some, some-injective}
use my_web_server_cmake.Prelude.{
  ℕ, ◌≡◌, refl, Option, none, some, List, [], ◌∷◌, ap, ap₂, ◌∙◌, sym, subst,
}
use my_web_server_cmake.Timer.{Heap, SortTimerLst}
use my_web_server_cmake.Timer.Chain.{Entry, node, first, Chain}
use my_web_server_cmake.Timer.Holds.{Holds}

-- Timers with the same fields are the same.
same_entry : (x y : Entry) → x.ptr ≡ y.ptr → x.expire ≡ y.expire → x.user_data ≡ y.user_data → x ≡ y
same_entry x y p e u i = record { ptr = p i; expire = e i; user_data = u i }

Chain-unique :
    (h : Heap) (b : Option ℕ) (xs ys : List Entry)
    → Chain h b xs none
    → Chain h b ys none
    → first xs none ≡ first ys none
    → xs ≡ ys
Chain-unique h b [] [] c d e = refl
Chain-unique h b [] (y ∷ ys) c d e = absurd (none-ne-some y.ptr e)
Chain-unique h b (x ∷ xs) [] c d e = absurd (none-ne-some x.ptr (sym e))
Chain-unique h b (x ∷ xs) (y ∷ ys) c d e =
    let p : x.ptr ≡ y.ptr = some-injective x.ptr y.ptr e in
    let same =
      some-injective (node b (first xs none) x) (node b (first ys none) y)
        (sym c.0 ∙ ap h p ∙ d.0) in
    let next : first xs none ≡ first ys none = ap (λ t. t.next) same in
    let d' = subst (λ q. Chain h (some q) ys none) (sym p) d.1 in
    ap₂ (λ z zs. z ∷ zs) (same_entry x y p (ap (λ t. t.expire) same) (ap (λ t. t.user_data) same))
      (Chain-unique h (some x.ptr) xs ys c.1 d' next)

pub Holds-unique : (l : SortTimerLst) (xs ys : List Entry) → Holds l xs → Holds l ys → xs ≡ ys
Holds-unique l xs ys v w = Chain-unique l.heap none xs ys v.chain w.chain (sym v.head ∙ w.head)
