-- ===== src/Timer/Insert.antt =====
-- timer/src/lst_timer.cpp, add_timer(timer, lst_head): the walk to the place of a timer.
use my_web_server_cmake.Prelude.{
  ℕ, zero, suc, ◌≡◌, ◌≢◌, ◌<◌, refl, arith, Option, none, some, List, [], ◌∷◌, ltb, ◌∙◌, sym,
  length, if◌then◌else◌, Bool-cases, inl, inr,
}
use my_web_server_cmake.Prelude.Run.{done, ◌>>=◌}
use my_web_server_cmake.Timer.{Heap, SortTimerLst, put, load, link_last, link_between, insert_loop}
use my_web_server_cmake.Timer.Chain.{
  Entry, node, first, last, Chain, ◌∉◌, Distinct, SameOutside, Chain-put,
}
use my_web_server_cmake.Timer.Cells.{
  put_self, put_other, load-some, set_next-some, set_prev-some, ne_of_out, out-tail,
}

-- The place of a timer: in front of the first one that expires later.
abbrev pub insert : Entry → List Entry → List Entry
insert t [] = t ∷ []
insert t (e ∷ es) = if ltb t.expire e.expire then t ∷ e ∷ es else e ∷ insert t es

-- The timer is allocated, with links of no matter.
pub record IsTimer (h : Heap) (t : Entry) : Type 0 where
  pub before : Option ℕ
  pub after : Option ℕ
  pub there : h t.ptr ≡ some (node before after t)

-- After the walk from `q`, behind which `ys` were linked, and now `zs` are.
pub record Inserted (t : Entry) (b : Option ℕ) (q : Entry) (ys zs : List Entry) (l m : SortTimerLst)
    : Type 0 where
  pub chain : Chain m.heap b (q ∷ zs) none
  pub same : SameOutside t.ptr (q ∷ ys) l.heap m.heap
  pub head : m.head ≡ l.head
  pub tail : l.tail ≡ last ys (some q.ptr) → m.tail ≡ last zs (some q.ptr)

module _ (t : Entry) where
  link_last-Inserted :
      (b : Option ℕ) (q : Entry) (l : SortTimerLst)
      → IsTimer l.heap t
      → Chain l.heap b (q ∷ []) none
      → t.ptr ∉ (q ∷ [])
      → (m : SortTimerLst) × (link_last t.ptr q.ptr l ≡ done m) × Inserted t b q [] (t ∷ []) l m
  unfolding link_last
  link_last-Inserted b q l timer c out =
      let ne = ne_of_out t.ptr q [] out in
      let ne' : q.ptr ≢ t.ptr = λ z. ne (sym z) in
      let n1 = some (node b (some t.ptr) q) in
      let h1 = put l.heap q.ptr n1 in
      let n2 = some (node (some q.ptr) timer.after t) in
      let h2 = put h1 t.ptr n2 in
      let n3 = some (node (some q.ptr) none t) in
      let h3 = put h2 t.ptr n3 in
      (
        record l { heap = h3; tail = some t.ptr },
        rw
            (
              link_last,
              set_next-some l.heap q.ptr (node b none q) c.0 (some t.ptr),
              set_prev-some h1 t.ptr (node timer.before timer.after t)
                  (put_other l.heap q.ptr t.ptr n1 ne ∙ timer.there) (some q.ptr),
              set_next-some h2 t.ptr (node (some q.ptr) timer.after t) (put_self h1 t.ptr n2) none,
            )
            refl,
        record {
          chain = (
            put_other h2 t.ptr q.ptr n3 ne'
                ∙ put_other h1 t.ptr q.ptr n2 ne'
                ∙ put_self l.heap q.ptr n1,
            (put_self h2 t.ptr n3, tt),
          );
          same = λ p n o.
              put_other h2 t.ptr p n3 n
              ∙ put_other h1 t.ptr p n2 n
              ∙ put_other l.heap q.ptr p n1 (ne_of_out p q [] o);
          head = refl;
          tail = λ z. refl;
        },
      )

  link_between-Inserted :
      (b : Option ℕ) (q y : Entry) (ys : List Entry) (l : SortTimerLst)
      → IsTimer l.heap t
      → Chain l.heap b (q ∷ y ∷ ys) none
      → Distinct (q ∷ y ∷ ys)
      → t.ptr ∉ (q ∷ y ∷ ys)
      → (m : SortTimerLst) × (link_between t.ptr q.ptr y.ptr l ≡ done m)
        × Inserted t b q (y ∷ ys) (t ∷ y ∷ ys) l m
  unfolding link_between
  link_between-Inserted b q y ys l timer c d out =
      let ne = ne_of_out t.ptr q (y ∷ ys) out in
      let ne1 : q.ptr ≢ t.ptr = λ z. ne (sym z) in
      let out1 = out-tail t.ptr q (y ∷ ys) out in
      let ne2 = ne_of_out t.ptr y ys out1 in
      let ne3 : y.ptr ≢ t.ptr = λ z. ne2 (sym z) in
      let ne4 = ne_of_out q.ptr y ys d.0 in
      let ne5 : y.ptr ≢ q.ptr = λ z. ne4 (sym z) in
      let n1 = some (node b (some t.ptr) q) in
      let h1 = put l.heap q.ptr n1 in
      let n2 = some (node timer.before (some y.ptr) t) in
      let h2 = put h1 t.ptr n2 in
      let n3 = some (node (some t.ptr) (first ys none) y) in
      let h3 = put h2 y.ptr n3 in
      let n4 = some (node (some q.ptr) (some y.ptr) t) in
      let h4 = put h3 t.ptr n4 in
      let out_q = out-tail q.ptr y ys d.0 in
      let out_t = out-tail t.ptr y ys out1 in
      let rest = Chain-put h3 t.ptr n4 (some y.ptr) none ys out_t (
        Chain-put h2 y.ptr n3 (some y.ptr) none ys d.1.0 (
          Chain-put h1 t.ptr n2 (some y.ptr) none ys out_t
            (Chain-put l.heap q.ptr n1 (some y.ptr) none ys out_q c.1.1))) in
      (
        record l { heap = h4 },
        rw
            (
              link_between,
              set_next-some l.heap q.ptr (node b (some y.ptr) q) c.0 (some t.ptr),
              set_next-some h1 t.ptr (node timer.before timer.after t)
                  (put_other l.heap q.ptr t.ptr n1 ne ∙ timer.there) (some y.ptr),
              set_prev-some h2 y.ptr (node (some q.ptr) (first ys none) y)
                  (put_other h1 t.ptr y.ptr n2 ne3 ∙ put_other l.heap q.ptr y.ptr n1 ne5 ∙ c.1.0)
                  (some t.ptr),
              set_prev-some h3 t.ptr (node timer.before (some y.ptr) t)
                  (put_other h2 y.ptr t.ptr n3 ne2 ∙ put_self h1 t.ptr n2) (some q.ptr),
            )
            refl,
        record {
          chain = (
            put_other h3 t.ptr q.ptr n4 ne1
                ∙ put_other h2 y.ptr q.ptr n3 ne4
                ∙ put_other h1 t.ptr q.ptr n2 ne1
                ∙ put_self l.heap q.ptr n1,
            (put_self h3 t.ptr n4, (put_other h3 t.ptr y.ptr n4 ne3 ∙ put_self h2 y.ptr n3, rest)),
          );
          same = λ p n o.
              let o1 = out-tail p q (y ∷ ys) o in
              put_other h3 t.ptr p n4 n
              ∙ put_other h2 y.ptr p n3 (ne_of_out p y ys o1)
              ∙ put_other h1 t.ptr p n2 n
              ∙ put_other l.heap q.ptr p n1 (ne_of_out p q (y ∷ ys) o);
          head = refl;
          tail = λ z. z;
        },
      )

  pub insert_loop-Inserted :
      (n : ℕ) (b : Option ℕ) (q : Entry) (ys : List Entry) (l : SortTimerLst)
      → length ys < n
      → IsTimer l.heap t
      → Chain l.heap b (q ∷ ys) none
      → Distinct (q ∷ ys)
      → t.ptr ∉ (q ∷ ys)
      → (m : SortTimerLst) × (insert_loop n t.ptr q.ptr (first ys none) l ≡ done m)
        × Inserted t b q ys (insert t ys) l m
  unfolding insert_loop
  insert_loop-Inserted zero b q ys l fuel timer c d out = absurd (omega (arith, fuel))
  insert_loop-Inserted (suc n) b q [] l fuel timer c d out = link_last-Inserted b q l timer c out
  insert_loop-Inserted (suc n) b q (y ∷ ys) l fuel timer c d out =
      elim (Bool-cases (ltb t.expire y.expire)) [
        | inl lt ↦
            let (m, e, i) = link_between-Inserted b q y ys l timer c d out in
            (m, rw (lt_here, lt_there, ◌>>=◌, lt) e, rw lt i)
        | inr ge ↦
            let out1 = out-tail t.ptr q (y ∷ ys) out in
            let (m, e, i) =
              insert_loop-Inserted n (some q.ptr) y ys l (omega (arith, fuel)) timer c.1 d.1 out1 in
            (m, rw (lt_here, lt_there, ◌>>=◌, ge) e, rw ge (step m i))
      ]
    where
      lt_here : load l.heap (some t.ptr) ≡ done (node timer.before timer.after t)
      lt_here = load-some l.heap t.ptr (node timer.before timer.after t) timer.there

      lt_there : load l.heap (some y.ptr) ≡ done (node (some q.ptr) (first ys none) y)
      lt_there = load-some l.heap y.ptr (node (some q.ptr) (first ys none) y) c.1.0

      step :
          (m : SortTimerLst)
          → Inserted t (some q.ptr) y ys (insert t ys) l m
          → Inserted t b q (y ∷ ys) (y ∷ insert t ys) l m
      step m i = record {
        chain = (i.same q.ptr (λ z. ne_of_out t.ptr q (y ∷ ys) out (sym z)) d.0 ∙ c.0, i.chain);
        same = λ p n o. i.same p n (out-tail p q (y ∷ ys) o);
        head = i.head;
        tail = λ z. i.tail z;
      }
