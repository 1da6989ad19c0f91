-- ===== src/Timer/Adjust.antt =====
-- timer/src/lst_timer.cpp, adjust_timer: a timer whose time was changed goes on towards the tail.
use mathlib.Core.Bool.{true≢false}
use my_web_server_cmake.Prelude.{
  ℕ, ◌≡◌, ◌≤◌, ◌<◌, refl, arith, true, false, none, some, List, [], ◌∷◌, ◌++◌, ap, ◌∙◌, sym, subst,
  length, ltb, Bool-cases, inl, inr, ◌==◌, ==_iff,
}
use my_web_server_cmake.Prelude.Run.{Run, done, ◌>>=◌}
use my_web_server_cmake.Timer.{
  SortTimerLst, put, load, ptr_eq, move_head, move_within, move_timer, adjust_timer,
}
use my_web_server_cmake.Timer.Chain.{
  Entry, node, first, last, Chain, ◌∉◌, has, Distinct, Chain-put, Chain-frame, Chain-append,
  Chain-split, last-append,
}
use my_web_server_cmake.Timer.Cells.{
  put_self, load-some, set_next-some, set_prev-first, ne_of_out, out-tail,
}
use my_web_server_cmake.Timer.Insert.{insert, IsTimer}
use my_web_server_cmake.Timer.Holds.{Holds, out-insert, Distinct-insert, add_timer_after-Inserted}
use my_web_server_cmake.Timer.Unlink.{
  out-append, out-left, out-right, Distinct-left, Distinct-right, Distinct-remove, apart,
  ptr_eq_self, ptr_eq-ne, unlink,
}

Distinct-append :
    (xs ys : List Entry)
    → Distinct xs
    → Distinct ys
    → ((p : ℕ) → has p xs ≡ true → p ∉ ys)
    → Distinct (xs ++ ys)
Distinct-append [] ys d e o = e
Distinct-append (x ∷ xs) ys d e o = (
  out-append x.ptr xs ys d.0 (o x.ptr (ground arith)),
  Distinct-append xs ys d.1 e (λ p i. o p (ground (arith, i))),
)

-- With a timer moved back in the second part, the timers are still distinct.
Distinct-moved :
    (t : Entry) (xs ys : List Entry) → Distinct (xs ++ t ∷ ys) → Distinct (xs ++ insert t ys)
Distinct-moved t xs ys d =
    let (rest, out) = Distinct-remove xs ys t d in
    Distinct-append xs (insert t ys) (Distinct-left xs ys rest)
      (Distinct-insert t ys (out-right t.ptr xs ys out) (Distinct-right xs ys rest))
      (λ p i. elim (Bool-cases (p == t.ptr)) [
        | inl e ↦ absurd (
            true≢false
              (sym i ∙ subst (λ q. q ∉ xs) (sym ((==_iff p t.ptr).0 e)) (out-left t.ptr xs ys out)))
        | inr ne ↦
            out-insert p t ys (λ z. true≢false (sym ((==_iff p t.ptr).1 z) ∙ ne))
              (apart p xs ys rest i)
      ])

abbrev pub Adjusted : List Entry → Run SortTimerLst → Type 0
Adjusted es r = (m : SortTimerLst) × (r ≡ done m) × Holds m es

move_head-Holds :
    (n : ℕ) (t y : Entry) (ys : List Entry) (l : SortTimerLst)
    → Holds l (t ∷ y ∷ ys)
    → length ys < n
    → Adjusted (y ∷ insert t ys) (move_head n t.ptr l)
unfolding move_head
move_head-Holds n t y ys l v fuel =
    let (h1, e1, c1, same) =
      set_prev-first l.heap (some t.ptr) none none y ys v.chain.1 v.distinct.1 in
    let there = same t.ptr (ne_of_out t.ptr y ys v.distinct.0) ∙ v.chain.0 in
    let cell = some (node none none t) in
    let l2 : SortTimerLst = record l { heap = put h1 t.ptr cell; head = some y.ptr } in
    let timer : IsTimer l2.heap t = record {
      before = none;
      after = none;
      there = put_self h1 t.ptr cell;
    } in
    let c2 = Chain-put h1 t.ptr cell none none (y ∷ ys) v.distinct.0 c1 in
    let (m, e, i) =
      add_timer_after-Inserted t n none y ys l2 fuel timer c2 v.distinct.1 v.distinct.0 in
    let out = ne_of_out t.ptr y ys v.distinct.0 in
    (
      m,
      rw
          (
            move_head,
            v.head,
            load-some l.heap t.ptr (node none (some y.ptr) t) v.chain.0,
            ◌>>=◌,
            e1,
            set_next-some h1 t.ptr (node none (some y.ptr) t) there none,
          )
          e,
      record {
        chain = i.chain;
        distinct = (
          out-insert y.ptr t ys (λ z. out (sym z)) v.distinct.1.0,
          Distinct-insert t ys (out-tail t.ptr y ys v.distinct.0) v.distinct.1.1,
        );
        head = i.head;
        tail = i.tail v.tail;
      },
    )

move_within-Holds :
    (n : ℕ) (x t y : Entry) (xs ys : List Entry) (l : SortTimerLst)
    → Holds l ((x ∷ xs) ++ t ∷ y ∷ ys)
    → length ys < n
    → ltb t.expire y.expire ≡ false
    → Adjusted ((x ∷ xs) ++ y ∷ insert t ys) (move_within n t.ptr l)
unfolding move_within
move_within-Holds n x t y xs ys l v fuel ge =
    let (c1, c2) = Chain-split l.heap none none (x ∷ xs) (t ∷ y ∷ ys) v.chain in
    let (rest, out) = Distinct-remove (x ∷ xs) (y ∷ ys) t v.distinct in
    let out_x = out-left t.ptr (x ∷ xs) (y ∷ ys) out in
    let out_y = out-right t.ptr (x ∷ xs) (y ∷ ys) out in
    let prev = last (x ∷ xs) none in
    let u = unlink l.heap x y t xs ys v.chain v.distinct in
    let l2 : SortTimerLst = record l { heap = u.h2 } in
    let timer : IsTimer u.h2 t = record {
      before = prev;
      after = some y.ptr;
      there = u.left2 ∙ c2.0;
    } in
    let dy = Distinct-right (x ∷ xs) (y ∷ ys) rest in
    let (m, e, i) = add_timer_after-Inserted t n prev y ys l2 fuel timer u.behind dy out_y in
    let tail = v.tail ∙ last-append xs (t ∷ y ∷ ys) (some x.ptr) in
    let before =
      Chain-frame u.h2 m.heap none (some y.ptr) (x ∷ xs)
        (λ p j.
          i.same p (λ z. absurd (true≢false (sym (subst (λ q. has q (x ∷ xs) ≡ true) z j) ∙ out_x)))
            (apart p (x ∷ xs) (y ∷ ys) rest j))
        u.before in
    (
      m,
      rw
          (
            move_within,
            load-some l.heap t.ptr (node prev (some y.ptr) t) c2.0,
            ◌>>=◌,
            u.next_set,
            load-some u.h1 t.ptr (node prev (some y.ptr) t) (u.left1 ∙ c2.0),
            u.prev_set,
            load-some u.h2 t.ptr (node prev (some y.ptr) t) (u.left2 ∙ c2.0),
          )
          e,
      record {
        chain = Chain-append m.heap none none (x ∷ xs) (y ∷ insert t ys) before i.chain;
        distinct =
            subst (λ zs. Distinct ((x ∷ xs) ++ zs)) (rw ge refl)
              (Distinct-moved t (x ∷ xs) (y ∷ ys) v.distinct);
        head = i.head ∙ v.head;
        tail = i.tail tail ∙ sym (last-append xs (y ∷ insert t ys) (some x.ptr));
      },
    )

move_timer-head :
    (n p : ℕ) (l : SortTimerLst)
    → ptr_eq (some p) l.head ≡ true
    → move_timer n p l ≡ move_head n p l
unfolding move_timer
move_timer-head n p l e = rw e refl

move_timer-within :
    (n p : ℕ) (l : SortTimerLst)
    → ptr_eq (some p) l.head ≡ false
    → move_timer n p l ≡ move_within n p l
unfolding move_timer
move_timer-within n p l e = rw e refl

-- A timer whose time was put off goes back. In a list that stands for `before`, the timer with its new
-- time and `after`, adjust_timer ends, with as many rounds as `after` has timers, and the list then
-- stands for `before` and `after` with the timer in front of the first of `after` that expires later.
pub adjust_timer-Holds :
    (n : ℕ) (t : Entry) (before after : List Entry) (l : SortTimerLst)
    → Holds l (before ++ t ∷ after)
    → length after ≤ n
    → Adjusted (before ++ insert t after) (adjust_timer n (some t.ptr) l)
unfolding adjust_timer
adjust_timer-Holds n t before [] l v fuel =
    let (c1, c2) = Chain-split l.heap none none before (t ∷ []) v.chain in
    (
      l,
      rw (adjust_timer, load-some l.heap t.ptr (node (last before none) none t) c2.0, ◌>>=◌) refl,
      v,
    )
adjust_timer-Holds n t before (y ∷ ys) l v fuel = elim (Bool-cases (ltb t.expire y.expire)) [
  | inl lt ↦ (l, rw (adjust_timer, here, ◌>>=◌, there, lt) refl, rw lt v)
  | inr ge ↦ moved before v (rw (adjust_timer, here, ◌>>=◌, there, ge) refl) ge
]
  where
    cells : Chain l.heap (last before none) (t ∷ y ∷ ys) none
    cells = (Chain-split l.heap none none before (t ∷ y ∷ ys) v.chain).1

    here : load l.heap (some t.ptr) ≡ done (node (last before none) (some y.ptr) t)
    here = load-some l.heap t.ptr (node (last before none) (some y.ptr) t) cells.0

    there : load l.heap (some y.ptr) ≡ done (node (some t.ptr) (first ys none) y)
    there = load-some l.heap y.ptr (node (some t.ptr) (first ys none) y) cells.1.0

    moved :
        (b : List Entry)
        → Holds l (b ++ t ∷ y ∷ ys)
        → adjust_timer n (some t.ptr) l ≡ move_timer n t.ptr l
        → ltb t.expire y.expire ≡ false
        → Adjusted (b ++ insert t (y ∷ ys)) (adjust_timer n (some t.ptr) l)
    moved [] w eq ge =
        let (m, e, i) = move_head-Holds n t y ys l w (omega (arith, fuel)) in
        let head = ap (ptr_eq (some t.ptr)) w.head ∙ ptr_eq_self t.ptr in
        (m, eq ∙ move_timer-head n t.ptr l head ∙ e, rw ge i)
    moved (x ∷ xs) w eq ge =
        let (m, e, i) = move_within-Holds n x t y xs ys l w (omega (arith, fuel)) ge in
        let out =
          out-left t.ptr (x ∷ xs) (y ∷ ys) (Distinct-remove (x ∷ xs) (y ∷ ys) t w.distinct).1 in
        let head =
          ap (ptr_eq (some t.ptr)) w.head ∙ ptr_eq-ne t.ptr x.ptr (ne_of_out t.ptr x xs out) in
        (m, eq ∙ move_timer-within n t.ptr l head ∙ e, rw ge i)
