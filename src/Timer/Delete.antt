-- ===== src/Timer/Delete.antt =====
-- timer/src/lst_timer.cpp, del_timer: its four cases.
use my_web_server_cmake.Prelude.{
  ◌≡◌, refl, none, some, List, [], ◌∷◌, ◌++◌, ◌∙◌, sym, subst, append-nil,
}
use my_web_server_cmake.Prelude.Run.{Run, done, ◌>>=◌}
use my_web_server_cmake.Timer.{SortTimerLst, put, del_head, del_tail, del_within, del_timer}
use my_web_server_cmake.Timer.Chain.{
  Entry, node, last, Chain-put, Chain-append, Chain-split, last-append,
}
use my_web_server_cmake.Timer.Cells.{
  put_self, load-some, free-some, set_next-last, set_prev-first, ne_of_out,
}
use my_web_server_cmake.Timer.Holds.{Holds}
use my_web_server_cmake.Timer.Unlink.{
  out-left, out-right, Distinct-left, Distinct-remove, ptr_eq-last, ptr_eq_self, ptr_eq-ne, unlink,
}

-- What a call of del_timer has to give.
abbrev Deleted : (t : Entry) (es : List Entry) → SortTimerLst → Run SortTimerLst → Type 0
Deleted t es l r = (m : SortTimerLst) × (r ≡ done m) × Holds m es × (m.heap t.ptr ≡ none)

del_only :
    (t : Entry) (l : SortTimerLst) → Holds l (t ∷ []) → Deleted t [] l (del_timer (some t.ptr) l)
unfolding del_timer
del_only t l v =
    let h = put l.heap t.ptr none in
    (
      record { heap = h; head = none; tail = none },
      rw
          (
            del_timer,
            v.head,
            v.tail,
            ptr_eq_self t.ptr,
            free-some l.heap t.ptr (node none none t) v.chain.0,
            ◌>>=◌,
          )
          refl,
      record { chain = tt; distinct = tt; head = refl; tail = tt },
      put_self l.heap t.ptr none,
    )

del_first :
    (t y : Entry) (ys : List Entry) (l : SortTimerLst)
    → Holds l (t ∷ y ∷ ys)
    → Deleted t (y ∷ ys) l (del_timer (some t.ptr) l)
unfolding del_timer del_head
del_first t y ys l v =
    let (h1, e1, c1, same) =
      set_prev-first l.heap (some t.ptr) none none y ys v.chain.1 v.distinct.1 in
    let there = same t.ptr (ne_of_out t.ptr y ys v.distinct.0) ∙ v.chain.0 in
    let h2 = put h1 t.ptr none in
    (
      record l { heap = h2; head = some y.ptr },
      rw
          (
            del_timer,
            v.head,
            v.tail,
            ptr_eq_self t.ptr,
            ptr_eq-last t.ptr y ys v.distinct.0,
            del_head,
            load-some l.heap t.ptr (node none (some y.ptr) t) v.chain.0,
            ◌>>=◌,
            e1,
            free-some h1 t.ptr (node none (some y.ptr) t) there,
          )
          refl,
      record {
        chain = Chain-put h1 t.ptr none none none (y ∷ ys) v.distinct.0 c1;
        distinct = v.distinct.1;
        head = refl;
        tail = v.tail;
      },
      put_self h1 t.ptr none,
    )

del_last :
    (x t : Entry) (xs : List Entry) (l : SortTimerLst)
    → Holds l ((x ∷ xs) ++ t ∷ [])
    → Deleted t (x ∷ xs) l (del_timer (some t.ptr) l)
unfolding del_timer del_tail
del_last x t xs l v =
    let (c1, c2) = Chain-split l.heap none none (x ∷ xs) (t ∷ []) v.chain in
    let (rest, out) = Distinct-remove (x ∷ xs) [] t v.distinct in
    let dx = Distinct-left (x ∷ xs) (t ∷ []) v.distinct in
    let out_x = out-left t.ptr (x ∷ xs) [] out in
    let prev = last (x ∷ xs) none in
    let (h1, e1, c3, same) = set_next-last l.heap none (some t.ptr) none x xs c1 dx in
    let there = same t.ptr out_x ∙ c2.0 in
    let h2 = put h1 t.ptr none in
    let tail = v.tail ∙ last-append xs (t ∷ []) (some x.ptr) in
    (
      record l { heap = h2; tail = prev },
      rw
          (
            del_timer,
            v.head,
            tail,
            ptr_eq-ne t.ptr x.ptr (ne_of_out t.ptr x xs out_x),
            ptr_eq_self t.ptr,
            del_tail,
            load-some l.heap t.ptr (node prev none t) c2.0,
            ◌>>=◌,
            e1,
            free-some h1 t.ptr (node prev none t) there,
          )
          refl,
      record {
        chain = Chain-put h1 t.ptr none none none (x ∷ xs) out_x c3;
        distinct = dx;
        head = v.head;
        tail = refl;
      },
      put_self h1 t.ptr none,
    )

del_middle :
    (x t y : Entry) (xs ys : List Entry) (l : SortTimerLst)
    → Holds l ((x ∷ xs) ++ t ∷ y ∷ ys)
    → Deleted t ((x ∷ xs) ++ y ∷ ys) l (del_timer (some t.ptr) l)
unfolding del_timer del_within
del_middle x t y xs ys l v =
    let (c1, c2) = Chain-split l.heap none none (x ∷ xs) (t ∷ y ∷ ys) v.chain in
    let (rest, out) = Distinct-remove (x ∷ xs) (y ∷ ys) t v.distinct in
    let out_x = out-left t.ptr (x ∷ xs) (y ∷ ys) out in
    let out_y = out-right t.ptr (x ∷ xs) (y ∷ ys) out in
    let prev = last (x ∷ xs) none in
    let u = unlink l.heap x y t xs ys v.chain v.distinct in
    let h3 = put u.h2 t.ptr none in
    let tail = v.tail ∙ last-append xs (t ∷ y ∷ ys) (some x.ptr) in
    (
      record l { heap = h3 },
      rw
          (
            del_timer,
            v.head,
            tail,
            ptr_eq-ne t.ptr x.ptr (ne_of_out t.ptr x xs out_x),
            ptr_eq-last t.ptr y ys out_y,
            del_within,
            load-some l.heap t.ptr (node prev (some y.ptr) t) c2.0,
            ◌>>=◌,
            u.next_set,
            load-some u.h1 t.ptr (node prev (some y.ptr) t) (u.left1 ∙ c2.0),
            u.prev_set,
            free-some u.h2 t.ptr (node prev (some y.ptr) t) (u.left2 ∙ c2.0),
          )
          refl,
      record {
        chain =
            Chain-append h3 none none (x ∷ xs) (y ∷ ys)
              (Chain-put u.h2 t.ptr none none (some y.ptr) (x ∷ xs) out_x u.before)
              (Chain-put u.h2 t.ptr none prev none (y ∷ ys) out_y u.behind);
        distinct = rest;
        head = v.head;
        tail = tail ∙ sym (last-append xs (y ∷ ys) (some x.ptr));
      },
      put_self u.h2 t.ptr none,
    )

-- A timer is deleted wherever it stands. From a list that stands for `before`, the timer and `after`,
-- del_timer ends, the list then stands for `before` and `after`, and the timer has been freed.
pub del_timer-Holds :
    (t : Entry) (before after : List Entry) (l : SortTimerLst)
    → Holds l (before ++ t ∷ after)
    → (m : SortTimerLst) × (del_timer (some t.ptr) l ≡ done m)
      × Holds m (before ++ after)
      × (m.heap t.ptr ≡ none)
del_timer-Holds t [] [] l v = del_only t l v
del_timer-Holds t [] (y ∷ ys) l v = del_first t y ys l v
del_timer-Holds t (x ∷ xs) (y ∷ ys) l v = del_middle x t y xs ys l v
del_timer-Holds t (x ∷ xs) [] l v =
    let (m, e, w, freed) = del_last x t xs l v in
    (m, e, subst (Holds m) (sym (append-nil (x ∷ xs))) w, freed)
