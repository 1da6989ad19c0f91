-- ===== src/Timer/Tick.antt =====
-- timer/src/lst_timer.cpp, tick: the timers at the front are called and deleted.
use my_web_server_cmake.Prelude.{
  ℕ, zero, suc, ◌≡◌, ◌<◌, refl, arith, none, some, List, [], ◌∷◌, ltb, ◌∙◌, length, if◌then◌else◌,
  Bool-cases, inl, inr, ◌==◌, ==_iff, subst, sym, true,
}
use my_web_server_cmake.Prelude.Run.{done, ◌>>=◌}
use my_web_server_cmake.Timer.{Heap, SortTimerLst, put, load, free, cut_prev, tick_loop, tick}
use my_web_server_cmake.Timer.Chain.{Entry, node, first, ◌∉◌, has, SameOutside, Chain-put}
use my_web_server_cmake.Timer.Cells.{
  put_self, put_other, load-some, free-some, set_prev-first, ne_of_out, out-tail,
}
use my_web_server_cmake.Timer.Holds.{Holds}

-- The timers that stay at the time `cur`, and the owners of those in front of them.
abbrev pub staying : (cur : ℕ) → List Entry → List Entry
staying cur [] = []
staying cur (e ∷ es) = if ltb cur e.expire then e ∷ es else staying cur es

abbrev pub called : (cur : ℕ) → List Entry → List ℕ
called cur [] = []
called cur (e ∷ es) = if ltb cur e.expire then [] else e.user_data ∷ called cur es

-- Those in front of them.
abbrev pub passed : (cur : ℕ) → List Entry → List Entry
passed cur [] = []
passed cur (e ∷ es) = if ltb cur e.expire then [] else e ∷ passed cur es

-- With the first of two or more timers freed, the rest is a list.
next_first :
    (e : Entry) (es : List Entry) (l : SortTimerLst)
    → Holds l (e ∷ es)
    → (h1 : Heap) × (cut_prev (first es none) l.heap ≡ done h1)
      × (free (some e.ptr) h1 ≡ done (put h1 e.ptr none))
      × Holds (record l { heap = put h1 e.ptr none; head = first es none }) es
      × SameOutside e.ptr es l.heap (put h1 e.ptr none)
next_first e [] l v = (
  l.heap,
  refl,
  free-some l.heap e.ptr (node none none e) v.chain.0,
  record { chain = tt; distinct = tt; head = refl; tail = tt },
  (λ p n o. put_other l.heap e.ptr p none n),
)
next_first e (y ∷ ys) l v =
    let (h1, eq, c, same) =
      set_prev-first l.heap (some e.ptr) none none y ys v.chain.1 v.distinct.1 in
    let there = same e.ptr (ne_of_out e.ptr y ys v.distinct.0) ∙ v.chain.0 in
    (
      h1,
      eq,
      free-some h1 e.ptr (node none (some y.ptr) e) there,
      record {
        chain = Chain-put h1 e.ptr none none none (y ∷ ys) v.distinct.0 c;
        distinct = v.distinct.1;
        head = refl;
        tail = v.tail;
      },
      (λ p n o. put_other h1 e.ptr p none n ∙ same p (ne_of_out p y ys o)),
    )

-- tick takes the timers off the front. With more rounds than there are timers, it ends; the list then
-- stands for what is left from the first timer that has not expired on, the callbacks were made, in
-- order, for the owners of the timers in front of that one, these timers have been freed, and no address
-- that holds no timer of the list has changed.
pub tick-Holds :
    (n cur : ℕ) (es : List Entry) (l : SortTimerLst)
    → Holds l es
    → length es < n
    → (m : SortTimerLst) × (tick n cur l ≡ done (m, called cur es))
      × Holds m (staying cur es)
      × ((p : ℕ) → has p (passed cur es) ≡ true → m.heap p ≡ none)
      × ((p : ℕ) → p ∉ es → m.heap p ≡ l.heap p)
unfolding tick tick_loop
tick-Holds zero cur es l v fuel = absurd (omega (arith, fuel))
tick-Holds (suc n) cur [] l v fuel =
    (l, rw (tick, v.head, tick_loop) refl, v, (λ p i. ground (arith, i)), (λ p o. refl))
tick-Holds (suc n) cur (e ∷ es) l v fuel = elim (Bool-cases (ltb cur e.expire)) [
  | inl lt ↦ (
    l,
    rw (tick, v.head, tick_loop, here, ◌>>=◌, lt) refl,
    rw lt v,
    (λ p. rw lt (λ i. ground (arith, i))),
    (λ p o. refl),
  )
  | inr ge ↦
      let (h1, cut, freed, w, same) = next_first e es l v in
      let l2 : SortTimerLst = record l { heap = put h1 e.ptr none; head = first es none } in
      let (m, eq, i, gone, same2) = tick-Holds n cur es l2 w (omega (arith, fuel)) in
      (
        m,
        rw (tick, v.head, tick_loop, here, ◌>>=◌, ge, cut, freed, eq) refl,
        rw ge i,
        (λ p. rw ge (λ j. elim (Bool-cases (p == e.ptr)) [
          | inl z ↦
              subst (λ q. m.heap q ≡ none) (sym ((==_iff p e.ptr).0 z))
                (same2 e.ptr v.distinct.0 ∙ put_self h1 e.ptr none)
          | inr ne ↦ gone p (ground (arith, j, ne))
        ])),
        (λ p o. same2 p (out-tail p e es o) ∙ same p (ne_of_out p e es o) (out-tail p e es o)),
      )
]
  where
    here : load l.heap (some e.ptr) ≡ done (node none (first es none) e)
    here = load-some l.heap e.ptr (node none (first es none) e) v.chain.0
