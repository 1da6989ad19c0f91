-- ===== src/Timer.antt =====
-- timer/src/lst_timer.cpp: the doubly linked list of timers. A pointer is an address of the heap, NULL
-- is `none`. Reading or writing through NULL or an address that was freed is a `fault`. The callback of
-- a timer gets its `user_data`; the calls that are made are recorded.
pub mod Chain
pub mod Cells
pub mod Insert
pub mod Unlink
pub mod Holds
pub mod Delete
pub mod Adjust
pub mod Tick
pub mod Unique
pub mod Destroy
mod Tests
use my_web_server_cmake.Prelude.{
  ℕ, zero, suc, Bool, true, false, ◌||◌, ◌&&◌, Option, none, some, List, [], ◌∷◌, ◌++◌, ltb, ◌==◌,
  if◌then◌else◌,
}
use my_web_server_cmake.Prelude.Run.{Run, done, fault, out_of_fuel, ◌>>=◌}

-- util_timer. `user_data` is an index into the array of client_data, `cb_func` is always the same.
pub record UtilTimer : Type 0 where
  pub expire : ℕ
  pub user_data : ℕ
  pub prev : Option ℕ
  pub next : Option ℕ

abbrev pub Heap : Type 0
Heap = ℕ → Option UtilTimer

pub record SortTimerLst : Type 0 where
  pub heap : Heap
  pub head : Option ℕ
  pub tail : Option ℕ

abbrev pub ptr_eq : Option ℕ → Option ℕ → Bool
ptr_eq none none = true
ptr_eq (some p) (some q) = p == q
ptr_eq _ _ = false

unfoldable pub put : Heap → ℕ → Option UtilTimer → Heap
put h p v q = if p == q then v else h q

-- `*p`
unfoldable pub load : Heap → Option ℕ → Run UtilTimer
load h none = fault
load h (some p) = elim (h p) [ none ↦ fault | some t ↦ done t ]

-- `p->next = q`, `p->prev = q`, `delete p`
unfoldable pub set_next : Option ℕ → Option ℕ → Heap → Run Heap
set_next none q h = fault
set_next (some p) q h = elim (h p) [
  | none ↦ fault
  | some t ↦ done (put h p (some (record t { next = q })))
]

unfoldable pub set_prev : Option ℕ → Option ℕ → Heap → Run Heap
set_prev none q h = fault
set_prev (some p) q h = elim (h p) [
  | none ↦ fault
  | some t ↦ done (put h p (some (record t { prev = q })))
]

unfoldable pub free : Option ℕ → Heap → Run Heap
free none h = done h
free (some p) h = elim (h p) [ none ↦ fault | some t ↦ done (put h p none) ]

-- sort_timer_lst()
unfoldable pub sort_timer_lst : Heap → SortTimerLst
sort_timer_lst h = record { heap = h; head = none; tail = none }

-- The end of the loop of add_timer: the timer becomes the last one.
unfoldable pub link_last : (timer prev : ℕ) → SortTimerLst → Run SortTimerLst
link_last timer prev l = do
  h1 ← set_next (some prev) (some timer) l.heap
  h2 ← set_prev (some timer) (some prev) h1
  h3 ← set_next (some timer) none h2
  done (record l { heap = h3; tail = some timer })

-- The body of its `if`: the timer goes between `prev` and `tmp`.
unfoldable pub link_between : (timer prev tmp : ℕ) → SortTimerLst → Run SortTimerLst
link_between timer prev tmp l = do
  h1 ← set_next (some prev) (some timer) l.heap
  h2 ← set_next (some timer) (some tmp) h1
  h3 ← set_prev (some tmp) (some timer) h2
  h4 ← set_prev (some timer) (some prev) h3
  done (record l { heap = h4 })

-- `while (tmp)`, with the number of rounds
unfoldable pub insert_loop :
    ℕ → (timer prev : ℕ) → (tmp : Option ℕ) → SortTimerLst → Run SortTimerLst
unfolding link_last link_between
insert_loop zero timer prev tmp l = out_of_fuel
insert_loop (suc n) timer prev none l = link_last timer prev l
insert_loop (suc n) timer prev (some tmp) l = do
  t ← load l.heap (some timer)
  u ← load l.heap (some tmp)
  elim (ltb t.expire u.expire) [
    | true ↦ link_between timer prev tmp l
    | false ↦ insert_loop n timer tmp u.next l
  ]

-- add_timer(timer, lst_head)
unfoldable pub add_timer_after :
    ℕ → (timer : ℕ) → (lst_head : Option ℕ) → SortTimerLst → Run SortTimerLst
unfolding insert_loop
add_timer_after fuel timer none l = fault
add_timer_after fuel timer (some prev) l = do
  p ← load l.heap (some prev)
  insert_loop fuel timer prev p.next l

-- The body of add_timer(timer) for a list that is not empty.
unfoldable pub add_before_head : ℕ → (timer head : ℕ) → SortTimerLst → Run SortTimerLst
add_before_head fuel timer head l = do
  t ← load l.heap (some timer)
  u ← load l.heap (some head)
  if ltb t.expire u.expire
      then (do
        h1 ← set_next (some timer) (some head) l.heap
        h2 ← set_prev (some head) (some timer) h1
        done (record l { heap = h2; head = some timer }))
      else add_timer_after fuel timer (some head) l

unfoldable pub add_timer : ℕ → Option ℕ → SortTimerLst → Run SortTimerLst
unfolding add_before_head
add_timer fuel none l = done l
add_timer fuel (some timer) l = elim l.head [
  | none ↦ done (record l { head = some timer; tail = some timer })
  | some head ↦ add_before_head fuel timer head l
]

-- The two ways in which adjust_timer moves a timer: from the head, and from within the list.
unfoldable pub move_head : ℕ → (timer : ℕ) → SortTimerLst → Run SortTimerLst
move_head fuel timer l = do
  u ← load l.heap l.head
  h1 ← set_prev u.next none l.heap
  h2 ← set_next (some timer) none h1
  add_timer_after fuel timer u.next (record l { heap = h2; head = u.next })

unfoldable pub move_within : ℕ → (timer : ℕ) → SortTimerLst → Run SortTimerLst
move_within fuel timer l = do
  t ← load l.heap (some timer)
  h1 ← set_next t.prev t.next l.heap
  t1 ← load h1 (some timer)
  h2 ← set_prev t1.next t1.prev h1
  t2 ← load h2 (some timer)
  add_timer_after fuel timer t2.next (record l { heap = h2 })

unfoldable pub move_timer : ℕ → (timer : ℕ) → SortTimerLst → Run SortTimerLst
unfolding move_head move_within
move_timer fuel timer l =
    if ptr_eq (some timer) l.head then move_head fuel timer l else move_within fuel timer l

unfoldable pub adjust_timer : ℕ → Option ℕ → SortTimerLst → Run SortTimerLst
adjust_timer fuel none l = done l
adjust_timer fuel (some timer) l = do
  t ← load l.heap (some timer)
  elim t.next [
    | none ↦ done l
    | some tmp ↦ load l.heap (some tmp) >>= λ u.
        if ltb t.expire u.expire then done l else move_timer fuel timer l
  ]

-- The cases of del_timer: the head, the tail, and within the list.
unfoldable pub del_head : (timer : ℕ) → SortTimerLst → Run SortTimerLst
del_head timer l = do
  u ← load l.heap l.head
  h1 ← set_prev u.next none l.heap
  h2 ← free (some timer) h1
  done (record l { heap = h2; head = u.next })

unfoldable pub del_tail : (timer : ℕ) → SortTimerLst → Run SortTimerLst
del_tail timer l = do
  u ← load l.heap l.tail
  h1 ← set_next u.prev none l.heap
  h2 ← free (some timer) h1
  done (record l { heap = h2; tail = u.prev })

unfoldable pub del_within : (timer : ℕ) → SortTimerLst → Run SortTimerLst
del_within timer l = do
  t ← load l.heap (some timer)
  h1 ← set_next t.prev t.next l.heap
  t1 ← load h1 (some timer)
  h2 ← set_prev t1.next t1.prev h1
  h3 ← free (some timer) h2
  done (record l { heap = h3 })

unfoldable pub del_timer : Option ℕ → SortTimerLst → Run SortTimerLst
unfolding del_head del_tail del_within
del_timer none l = done l
del_timer (some timer) l =
    if ptr_eq (some timer) l.head && ptr_eq (some timer) l.tail
    then (free (some timer) l.heap >>= λ h. done (record l { heap = h; head = none; tail = none }))
    else if ptr_eq (some timer) l.head
    then del_head timer l
    else if ptr_eq (some timer) l.tail
    then del_tail timer l
    else del_within timer l

-- `if (head) head->prev = NULL;`
abbrev pub cut_prev : Option ℕ → Heap → Run Heap
cut_prev none h = done h
cut_prev (some p) h = set_prev (some p) none h

-- `while (tmp)` of tick at the time `cur`. The second result is the arguments of the callback.
unfoldable pub tick_loop :
    ℕ → (cur : ℕ) → (tmp : Option ℕ) → SortTimerLst → Run (SortTimerLst × List ℕ)
tick_loop zero cur tmp l = out_of_fuel
tick_loop (suc n) cur none l = done (l, [])
tick_loop (suc n) cur (some tmp) l = do
  t ← load l.heap (some tmp)
  elim (ltb cur t.expire) [
    | true ↦ done (l, [])
    | false ↦ cut_prev t.next l.heap >>= λ h1. free (some tmp) h1 >>= λ h2.
        tick_loop n cur t.next (record l { heap = h2; head = t.next }) >>= λ (l', calls).
        done (l', t.user_data ∷ calls)
  ]

unfoldable pub tick : ℕ → (cur : ℕ) → SortTimerLst → Run (SortTimerLst × List ℕ)
unfolding tick_loop
tick fuel cur l = tick_loop fuel cur l.head l

-- ~sort_timer_lst()
unfoldable pub destroy_loop : ℕ → (tmp : Option ℕ) → SortTimerLst → Run SortTimerLst
destroy_loop zero tmp l = out_of_fuel
destroy_loop (suc n) none l = done l
destroy_loop (suc n) (some tmp) l = do
  t ← load l.heap (some tmp)
  h ← free (some tmp) l.heap
  destroy_loop n t.next (record l { heap = h; head = t.next })

unfoldable pub destroy : ℕ → SortTimerLst → Run SortTimerLst
unfolding destroy_loop
destroy fuel l = destroy_loop fuel l.head l
