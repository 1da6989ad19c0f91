-- ===== src/BlockQueue/Wait.antt =====
-- pop(), with the waits for an element, and front() and back().
use my_web_server_cmake.Prelude.{
  ℕ, ◌+◌, ◌-◌, ◌%◌, ◌<◌, ◌≡◌, ◌≢◌, ◌⊎◌, inl, inr, arith, refl, ◌∙◌, ap, true, false, some, List, [],
  ◌∷◌, ◌++◌, length, length-append, get_elem?, negsuc, if◌then◌else◌, leb, ◌==◌, ==_iff, Bool-cases,
}
use my_web_server_cmake.BlockQueue.{
  BlockQueue, gives, refuses, fault, Wakeup, cond_wait, take_front, push, pop, pop_timed, front,
  back, read_at,
}
use my_web_server_cmake.BlockQueue.Contents.{Stored}
use my_web_server_cmake.BlockQueue.Refine.{Holds, push-Holds, take_front-Holds}

ne_of_test : (a b : ℕ) → (a == b) ≡ false → a ≢ b
ne_of_test a b h = ground arith

module _ {ℓ} {T : Type ℓ} where
  pop-ready : (ws : List (Wakeup T)) (q : BlockQueue T) → 0 < q.m_size → pop ws q ≡ take_front q
  unfolding pop
  pop-ready [] q h = ground arith
  pop-ready (w ∷ ws) q h = ground arith

  pop-empty :
      (w : Wakeup T) (ws : List (Wakeup T)) (q : BlockQueue T)
      → q.m_size ≡ 0
      → pop (w ∷ ws) q ≡ (if w.ret == 0 then refuses w.after else pop ws w.after)
  unfolding pop cond_wait
  pop-empty w ws q h = ground arith

  size-cons : (q : BlockQueue T) (x : T) (xs : List T) → Holds q (x ∷ xs) → 0 < q.m_size
  size-cons q x xs (h, v) = omega arith

  not_empty : (q : BlockQueue T) → 0 < q.m_size → leb q.m_size 0 ≡ false
  not_empty q h = ground arith

  Stored-last :
      (a : List T) (m h k : ℕ) (xs : List T) (x : T)
      → Stored a m h k (xs ++ x ∷ [])
      → get_elem? a ((h + (k + length xs)) % m) ≡ some x
  Stored-last a m h k [] x s = ap (λ n. get_elem? a ((h + n) % m)) (omega arith) ∙ s.0
  Stored-last a m h k (y ∷ xs) x s =
      ap (λ n. get_elem? a ((h + n) % m)) (omega arith) ∙ Stored-last a m h (k + 1) xs x s.1

  -- pop() on a queue that is not empty does not wait: it gives the oldest element, and leaves the
  -- others in their order.
  pub pop-Holds :
      (ws : List (Wakeup T)) (q : BlockQueue T) (x : T) (xs : List T)
      → Holds q (x ∷ xs)
      → (r : BlockQueue T) × (pop ws q ≡ gives x r) × (r.m_max_size ≡ q.m_max_size) × Holds r xs
  pop-Holds ws q x xs v =
      let (r, e, m, w) = take_front-Holds q x xs v in
      (r, pop-ready ws q (size-cons q x xs v) ∙ e, m, w)

  -- A pop() that waits does not get the element that it is woken for. On an empty queue, let a consumer
  -- wait in pop(), and a push() put an element in and wake it, so that its pthread_cond_wait succeeds
  -- with the queue as push() left it. The push succeeds, and the queue then holds just that element;
  -- the woken pop() returns false at once and leaves the queue so, since the result of cond::wait,
  -- which is true on success, is compared with 0 as if it were an error code; and the element is only
  -- given to the next pop().
  pub push-pop_woken :
      (x : T) (ws : List (Wakeup T)) (q : BlockQueue T)
      → Holds q []
      → ((push x q).0 ≡ true)
        × Holds (push x q).1 (x ∷ [])
        × (pop (record { ret = 0; after = (push x q).1 } ∷ ws) q ≡ refuses (push x q).1)
        × ((r : BlockQueue T) × (pop ws (push x q).1 ≡ gives x r) × Holds r [])
  push-pop_woken x ws q (h, v) = elim (push-Holds x q [] (h, v)) [
    | inr (full, _) ↦ absurd (omega (arith, v.head_in))
    | inl (_, pushed, _, one) ↦
        let (r, e, _, left) = pop-Holds ws (push x q).1 x [] one in
        (pushed, one, pop-empty _ ws q v.size, (r, e, left))
  ]

  -- In pop() with a timeout, a wait that is signalled in time gives nothing, and one that runs
  -- out gives an element if there is one by then.
  pub pop_timed-woken :
      (w : Wakeup T) (q : BlockQueue T) (x : T) (xs : List T)
      → Holds q []
      → Holds w.after (x ∷ xs)
      → ((w.ret ≡ 0) × (pop_timed w q ≡ refuses w.after))
        ⊎ ((w.ret ≢ 0) × ((r : BlockQueue T) × (pop_timed w q ≡ gives x r) × Holds r xs))
  unfolding pop_timed cond_wait
  pop_timed-woken w q x xs (h, v) u = elim (Bool-cases (w.ret == 0)) [
    | inl e ↦ inl ((==_iff w.ret 0).0 e, rw (v.size, e) refl)
    | inr e ↦
        let (r, t, m, s) = take_front-Holds w.after x xs u in
        inr (
          ne_of_test w.ret 0 e,
          (r, rw (v.size, e, not_empty w.after (size-cons w.after x xs u), t) refl, s),
        )
  ]

  -- back() reads the newest element.
  pub back-Holds :
      (q : BlockQueue T) (xs : List T) (x : T) → Holds q (xs ++ x ∷ []) → back q ≡ gives x q
  unfolding back read_at
  back-Holds q xs x (h, v) =
      let more = length-append xs (x ∷ []) in
      let some_left : (q.m_size == 0) ≡ false = ground (arith, v.size, more) in
      let at_back : get_elem? q.m_array ((h + (q.m_size - 1)) % q.m_max_size) ≡ some x =
        ap (λ n. get_elem? q.m_array ((h + n) % q.m_max_size)) (omega (arith, v.size, more))
        ∙ Stored-last q.m_array q.m_max_size h 0 xs x v.stored in
      rw (some_left, v.last (omega (arith, v.size, more)), at_back) refl

  -- front() on a queue that nothing was ever taken from reads in front of the array: `m_front` is the
  -- index before the oldest element, and is -1 until the first pop().
  pub front-fault :
      (q : BlockQueue T) (x : T) (xs : List T)
      → Holds q (x ∷ xs)
      → q.m_front ≡ negsuc 0
      → front q ≡ fault
  unfolding front read_at
  front-fault q x xs v e = ground (arith, size-cons q x xs v)
