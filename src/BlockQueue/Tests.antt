-- ===== src/BlockQueue/Tests.antt =====
-- The theorems on the queue, at a queue of two places with one element, and at an empty one.
use my_web_server_cmake.Prelude.{ℕ, ◌<◌, ◌≡◌, ◌⊎◌, refl, arith, true, false, [], ◌∷◌, pos, negsuc}
use my_web_server_cmake.BlockQueue.{BlockQueue, gives, refuses, next_index, push, pop}
use my_web_server_cmake.BlockQueue.Refine.{Holds, push-Holds}
use my_web_server_cmake.BlockQueue.Wait.{pop-Holds, push-pop_woken}

abbrev one : BlockQueue ℕ
one = record {
  m_array = 5 ∷ 0 ∷ [];
  m_size = 1;
  m_max_size = 2;
  m_front = negsuc 0;
  m_back = pos 0;
}

one-Holds : Holds one (5 ∷ [])
unfolding next_index
one-Holds = (
  0,
  record {
    array = refl;
    head_in = omega arith;
    bounded = omega arith;
    size = refl;
    front = refl;
    back = refl;
    last = λ p. refl;
    stored = (refl, tt);
  },
)

abbrev none_left : BlockQueue ℕ
none_left = record {
  m_array = 5 ∷ 0 ∷ [];
  m_size = 0;
  m_max_size = 2;
  m_front = pos 0;
  m_back = pos 0;
}

none_left-Holds : Holds none_left []
unfolding next_index
none_left-Holds = (
  1,
  record {
    array = refl;
    head_in = omega arith;
    bounded = omega arith;
    size = refl;
    front = refl;
    back = refl;
    last = λ p. absurd (omega arith);
    stored = tt;
  },
)

push-Holds_example :
    ((1 < 2)
      × ((push 8 one).0 ≡ true)
      × ((push 8 one).1.m_max_size ≡ 2)
      × Holds (push 8 one).1 (5 ∷ 8 ∷ []))
    ⊎ ((one.m_size ≡ one.m_max_size) × (push 8 one ≡ (false, one)))
push-Holds_example = push-Holds 8 one (5 ∷ []) one-Holds

pop-Holds_example : (r : BlockQueue ℕ) × (pop [] one ≡ gives 5 r) × (r.m_max_size ≡ 2) × Holds r []
pop-Holds_example = pop-Holds [] one 5 [] one-Holds

push-pop_woken_example :
    ((push 8 none_left).0 ≡ true)
    × Holds (push 8 none_left).1 (8 ∷ [])
    × (pop (record { ret = 0; after = (push 8 none_left).1 } ∷ []) none_left
        ≡ refuses (push 8 none_left).1)
    × ((r : BlockQueue ℕ) × (pop [] (push 8 none_left).1 ≡ gives 8 r) × Holds r [])
push-pop_woken_example = push-pop_woken 8 [] none_left none_left-Holds
