-- ===== src/Timer/Tests.antt =====
-- timer/src/lst_timer.cpp on a list of two timers.
use my_web_server_cmake.Prelude.{
  ℕ, ◌≡◌, refl, true, arith, none, some, [], ◌∷◌, ◌==◌, if◌then◌else◌,
}
use my_web_server_cmake.Prelude.Run.{done}
use my_web_server_cmake.Timer.{
  Heap, SortTimerLst, add_timer, adjust_timer, del_timer, tick, destroy,
}
use my_web_server_cmake.Timer.Chain.{Entry, node, ◌∉◌, has, SameOutside}
use my_web_server_cmake.Timer.Holds.{Holds, add_timer-Holds}
use my_web_server_cmake.Timer.Delete.{del_timer-Holds}
use my_web_server_cmake.Timer.Adjust.{Adjusted, adjust_timer-Holds}
use my_web_server_cmake.Timer.Destroy.{Freed, destroy-Freed}
use my_web_server_cmake.Timer.Tick.{tick-Holds}

abbrev early : Entry
early = record { ptr = 1; expire = 15; user_data = 7 }

abbrev late : Entry
late = record { ptr = 2; expire = 20; user_data = 8 }

-- In front, between and behind.
abbrev middle : Entry
middle = record { ptr = 3; expire = 17; user_data = 9 }

abbrev two_timers : Heap
two_timers p =
    if p == 1
    then some (node none (some 2) early)
    else if p == 2
    then some (node (some 1) none late)
    else if p == 3
    then some (node none none middle)
    else none

abbrev two : SortTimerLst
two = record { heap = two_timers; head = some 1; tail = some 2 }

two-Holds : Holds two (early ∷ late ∷ [])
two-Holds = record {
  chain = (refl, (refl, tt));
  distinct = (refl, (refl, tt));
  head = refl;
  tail = refl;
}

add_timer-Holds_example :
    (m : SortTimerLst) × (add_timer 2 (some 3) two ≡ done m)
    × Holds m (early ∷ middle ∷ late ∷ [])
    × SameOutside 3 (early ∷ late ∷ []) two_timers m.heap
add_timer-Holds_example =
    add_timer-Holds 2 middle (early ∷ late ∷ []) two two-Holds refl refl (omega arith)

-- The first timer with another time.
abbrev postponed : Entry
postponed = record { ptr = 1; expire = 30; user_data = 7 }

abbrev out_of_order : SortTimerLst
out_of_order = record {
  heap = λ p. if p == 1 then some (node none (some 2) postponed) else two_timers p;
  head = some 1;
  tail = some 2;
}

out_of_order-Holds : Holds out_of_order (postponed ∷ late ∷ [])
out_of_order-Holds = record {
  chain = (refl, (refl, tt));
  distinct = (refl, (refl, tt));
  head = refl;
  tail = refl;
}

adjust_timer-Holds_example : Adjusted (late ∷ postponed ∷ []) (adjust_timer 1 (some 1) out_of_order)
adjust_timer-Holds_example =
    adjust_timer-Holds 1 postponed [] (late ∷ []) out_of_order out_of_order-Holds (omega arith)

del_timer-Holds_example :
    (m : SortTimerLst) × (del_timer (some 2) two ≡ done m)
    × Holds m (early ∷ [])
    × (m.heap 2 ≡ none)
del_timer-Holds_example = del_timer-Holds late (early ∷ []) [] two two-Holds

tick-Holds_example :
    (m : SortTimerLst) × (tick 3 18 two ≡ done (m, 7 ∷ []))
    × Holds m (late ∷ [])
    × ((p : ℕ) → has p (early ∷ []) ≡ true → m.heap p ≡ none)
    × ((p : ℕ) → p ∉ (early ∷ late ∷ []) → m.heap p ≡ two_timers p)
tick-Holds_example = tick-Holds 3 18 (early ∷ late ∷ []) two two-Holds (omega arith)

destroy-Freed_example :
    (m : SortTimerLst) × (destroy 3 two ≡ done m) × Freed (early ∷ late ∷ []) two_timers m.heap
destroy-Freed_example = destroy-Freed 3 (early ∷ late ∷ []) two two-Holds (omega arith)
