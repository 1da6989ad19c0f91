-- ===== src/Timer/Destroy.antt =====
-- timer/src/lst_timer.cpp, ~sort_timer_lst.
use my_web_server_cmake.Prelude.{
  ℕ, zero, suc, ◌≡◌, ◌<◌, refl, arith, true, Option, none, some, List, [], ◌∷◌, ap, ◌∙◌, sym,
  length, Bool-cases, inl, inr, ◌==◌, ==_iff, subst,
}
use my_web_server_cmake.Prelude.Run.{done, ◌>>=◌}
use my_web_server_cmake.Timer.{Heap, SortTimerLst, put, destroy_loop, destroy}
use my_web_server_cmake.Timer.Chain.{Entry, node, first, Chain, ◌∉◌, has, Distinct, Chain-put}
use my_web_server_cmake.Timer.Cells.{put_self, put_other, load-some, free-some, ne_of_out, out-tail}
use my_web_server_cmake.Timer.Holds.{Holds}

-- The addresses of `es` are free, and no other has changed.
abbrev pub Freed : List Entry → Heap → Heap → Type 0
Freed es h g = ((p : ℕ) → has p es ≡ true → g p ≡ none) × ((p : ℕ) → p ∉ es → g p ≡ h p)

destroy_loop-Freed :
    (n : ℕ) (b : Option ℕ) (es : List Entry) (l : SortTimerLst)
    → Chain l.heap b es none
    → Distinct es
    → length es < n
    → (m : SortTimerLst) × (destroy_loop n (first es none) l ≡ done m) × Freed es l.heap m.heap
unfolding destroy_loop
destroy_loop-Freed zero b es l c d fuel = absurd (omega (arith, fuel))
destroy_loop-Freed (suc n) b [] l c d fuel = (l, refl, ((λ p i. ground (arith, i)), (λ p o. refl)))
destroy_loop-Freed (suc n) b (e ∷ es) l c d fuel =
    let h = put l.heap e.ptr none in
    let (m, eq, (gone, same)) =
      destroy_loop-Freed n (some e.ptr) es (record l { heap = h; head = first es none })
        (Chain-put l.heap e.ptr none (some e.ptr) none es d.0 c.1) d.1 (omega (arith, fuel)) in
    let cell = node b (first es none) e in
    let at = same e.ptr d.0 ∙ put_self l.heap e.ptr none in
    (
      m,
      rw (destroy_loop, load-some l.heap e.ptr cell c.0, ◌>>=◌, free-some l.heap e.ptr cell c.0) eq,
      (
        (λ p i. elim (Bool-cases (p == e.ptr)) [
          | inl z ↦ subst (λ q. m.heap q ≡ none) (sym ((==_iff p e.ptr).0 z)) at
          | inr ne ↦ gone p (ground (arith, i, ne))
        ]),
        (λ p o. same p (out-tail p e es o) ∙ put_other l.heap e.ptr p none (ne_of_out p e es o)),
      ),
    )

-- The destructor frees all timers. From a list that stands for `es`, with more rounds than there are
-- timers, it ends: every timer of the list has been freed, none twice, and no other address changed.
pub destroy-Freed :
    (n : ℕ) (es : List Entry) (l : SortTimerLst)
    → Holds l es
    → length es < n
    → (m : SortTimerLst) × (destroy n l ≡ done m) × Freed es l.heap m.heap
unfolding destroy
destroy-Freed n es l v fuel =
    let (m, eq, f) = destroy_loop-Freed n none es l v.chain v.distinct fuel in
    (m, ap (λ q. destroy_loop n q l) v.head ∙ eq, f)
