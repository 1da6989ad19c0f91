-- ===== src/Timer/Holds.antt =====
-- timer/src/lst_timer.cpp, add_timer(timer): the list stands for a sequence of timers.
use my_web_server_cmake.Prelude.{
  ℕ, ◌≡◌, ◌≢◌, ◌≤◌, ◌<◌, refl, arith, true, false, Option, none, some, List, [], ◌∷◌, ltb, ◌∙◌, sym,
  length, Bool-cases, inl, inr,
}
use my_web_server_cmake.Prelude.Run.{done, ◌>>=◌}
use my_web_server_cmake.Timer.{Heap, SortTimerLst, put, add_timer_after, add_before_head, add_timer}
use my_web_server_cmake.Timer.Chain.{
  Entry, node, first, last, Chain, ◌∉◌, has, Distinct, SameOutside, Chain-put,
}
use my_web_server_cmake.Timer.Cells.{
  put_self, put_other, load-some, set_next-some, set_prev-first, ne_of_out, out-tail, out-cons,
}
use my_web_server_cmake.Timer.Insert.{insert, IsTimer, Inserted, insert_loop-Inserted}

-- The tail is the last timer; of an empty list it is of no matter.
abbrev pub HasTail : Option ℕ → List Entry → Type 0
HasTail tail [] = Unit {0}
HasTail tail (e ∷ es) = tail ≡ last es (some e.ptr)

-- The list stands for the timers `es`, in this order.
pub record Holds (l : SortTimerLst) (es : List Entry) : Type 0 where
  pub chain : Chain l.heap none es none
  pub distinct : Distinct es
  pub head : l.head ≡ first es none
  pub tail : HasTail l.tail es

has-insert : (p : ℕ) (t : Entry) (es : List Entry) → has p (insert t es) ≡ has p (t ∷ es)
has-insert p t [] = refl
has-insert p t (e ∷ es) = ground (arith, has-insert p t es)

pub out-insert : (p : ℕ) (t : Entry) (es : List Entry) → p ≢ t.ptr → p ∉ es → p ∉ insert t es
out-insert p t es ne out = has-insert p t es ∙ out-cons p t es ne out

pub Distinct-insert :
    (t : Entry) (es : List Entry) → t.ptr ∉ es → Distinct es → Distinct (insert t es)
Distinct-insert t [] out d = (refl, tt)
Distinct-insert t (e ∷ es) out d = elim (Bool-cases (ltb t.expire e.expire)) [
  | inl lt ↦ rw lt (out, d)
  | inr ge ↦
      let ne : e.ptr ≢ t.ptr = λ z. ne_of_out t.ptr e es out (sym z) in
      rw ge (out-insert e.ptr t es ne d.0, Distinct-insert t es (out-tail t.ptr e es out) d.1)
]

-- The walk that starts at the head `q` of a chain.
pub add_timer_after-Inserted :
    (t : Entry) (n : ℕ) (b : Option ℕ) (q : Entry) (ys : List Entry) (l : SortTimerLst)
    → length ys < n
    → IsTimer l.heap t
    → Chain l.heap b (q ∷ ys) none
    → Distinct (q ∷ ys)
    → t.ptr ∉ (q ∷ ys)
    → (m : SortTimerLst) × (add_timer_after n t.ptr (some q.ptr) l ≡ done m)
      × Inserted t b q ys (insert t ys) l m
unfolding add_timer_after
add_timer_after-Inserted t n b q ys l fuel timer c d out =
    let (m, e, i) = insert_loop-Inserted t n b q ys l fuel timer c d out in
    (m, rw (add_timer_after, load-some l.heap q.ptr (node b (first ys none) q) c.0, ◌>>=◌) e, i)

-- A timer as `new` makes it: its links are NULL.
abbrev pub IsNew : Heap → Entry → Type 0
IsNew h t = h t.ptr ≡ some (node none none t)

add_timer-front :
    (n : ℕ) (t e : Entry) (es : List Entry) (l : SortTimerLst)
    → Holds l (e ∷ es)
    → IsNew l.heap t
    → t.ptr ∉ (e ∷ es)
    → ltb t.expire e.expire ≡ true
    → (m : SortTimerLst) × (add_before_head n t.ptr e.ptr l ≡ done m)
      × Holds m (t ∷ e ∷ es)
      × SameOutside t.ptr (e ∷ es) l.heap m.heap
unfolding add_before_head
add_timer-front n t e es l v new out lt =
    let n1 = some (node none (some e.ptr) t) in
    let h1 = put l.heap t.ptr n1 in
    let ne = ne_of_out t.ptr e es out in
    let ne' : e.ptr ≢ t.ptr = λ z. ne (sym z) in
    let (h2, eq, chain, same) =
      set_prev-first h1 none (some t.ptr) none e es
        (Chain-put l.heap t.ptr n1 none none (e ∷ es) out v.chain) v.distinct in
    (
      record l { heap = h2; head = some t.ptr },
      rw
          (
            add_before_head,
            load-some l.heap t.ptr (node none none t) new,
            load-some l.heap e.ptr (node none (first es none) e) v.chain.0,
            ◌>>=◌,
            lt,
            set_next-some l.heap t.ptr (node none none t) new (some e.ptr),
            eq,
          )
          refl,
      record {
        chain = (same t.ptr ne ∙ put_self l.heap t.ptr n1, chain);
        distinct = (out, v.distinct);
        head = refl;
        tail = v.tail;
      },
      (λ p n o. same p (ne_of_out p e es o) ∙ put_other l.heap t.ptr p n1 n),
    )

add_timer-behind :
    (n : ℕ) (t e : Entry) (es : List Entry) (l : SortTimerLst)
    → Holds l (e ∷ es)
    → IsNew l.heap t
    → t.ptr ∉ (e ∷ es)
    → length es < n
    → ltb t.expire e.expire ≡ false
    → (m : SortTimerLst) × (add_before_head n t.ptr e.ptr l ≡ done m)
      × Holds m (e ∷ insert t es)
      × SameOutside t.ptr (e ∷ es) l.heap m.heap
unfolding add_before_head
add_timer-behind n t e es l v new out fuel ge =
    let timer : IsTimer l.heap t = record { before = none; after = none; there = new } in
    let (m, eq, i) = add_timer_after-Inserted t n none e es l fuel timer v.chain v.distinct out in
    let ne : e.ptr ≢ t.ptr = λ z. ne_of_out t.ptr e es out (sym z) in
    (
      m,
      rw
          (
            add_before_head,
            load-some l.heap t.ptr (node none none t) new,
            load-some l.heap e.ptr (node none (first es none) e) v.chain.0,
            ◌>>=◌,
            ge,
          )
          eq,
      record {
        chain = i.chain;
        distinct = (
          out-insert e.ptr t es ne v.distinct.0,
          Distinct-insert t es (out-tail t.ptr e es out) v.distinct.1,
        );
        head = i.head ∙ v.head;
        tail = i.tail v.tail;
      },
      i.same,
    )

-- A timer goes to its place. Added as `new` made it to a list that stands for `es`, where the loop has
-- more rounds than there are timers, add_timer ends, and the list stands for `es` with the timer in
-- front of the first one that expires later; no other timer has changed.
pub add_timer-Holds :
    (n : ℕ) (t : Entry) (es : List Entry) (l : SortTimerLst)
    → Holds l es
    → IsNew l.heap t
    → t.ptr ∉ es
    → length es ≤ n
    → (m : SortTimerLst) × (add_timer n (some t.ptr) l ≡ done m)
      × Holds m (insert t es)
      × SameOutside t.ptr es l.heap m.heap
unfolding add_timer
add_timer-Holds n t [] l v new out fuel = (
  record l { head = some t.ptr; tail = some t.ptr },
  rw (add_timer, v.head) refl,
  record { chain = (new, tt); distinct = (refl, tt); head = refl; tail = refl },
  (λ p ne o. refl),
)
add_timer-Holds n t (e ∷ es) l v new out fuel = elim (Bool-cases (ltb t.expire e.expire)) [
  | inl lt ↦
      let (m, eq, w, same) = add_timer-front n t e es l v new out lt in
      (m, rw (add_timer, v.head) eq, rw lt w, same)
  | inr ge ↦
      let (m, eq, w, same) = add_timer-behind n t e es l v new out (omega (arith, fuel)) ge in
      (m, rw (add_timer, v.head) eq, rw ge w, same)
]
