-- ===== src/BlockQueue/Refine.antt =====
-- The methods of log/include/block_queue.h on the queue as a bounded first-in first-out list.
use native.Mathlib.Nat.{mod-add-mod, mod-lt, mod-eq_of_lt}
use my_web_server_cmake.Prelude.{
  ℕ, suc, ◌+◌, ◌-◌, ◌%◌, ◌≤◌, ◌<◌, ◌≡◌, ◌⊎◌, inl, inr, arith, refl, ◌∙◌, ap, sym, true, false, some,
  List, [], ◌∷◌, ◌++◌, length, length-append, length-set, set, get_elem?, get_elem?-set_self, pos,
  negsuc, length-replicate, leb, ltb, ltb→lt, le_of_ltb, Bool-cases,
}
use my_web_server_cmake.BlockQueue.{
  BlockQueue, gives, next_index, store, push, take_front, block_queue, read_at,
}
use my_web_server_cmake.BlockQueue.Contents.{
  HoldsAt, mod-suc, next_index-pos, Stored-set, Stored-append, Stored-shift,
}

-- The queue holds the elements `xs`, oldest first.
abbrev pub Holds {ℓ} : {T : Type ℓ} → BlockQueue T → List T → Type ℓ
Holds q xs = (h : ℕ) × HoldsAt q h xs

next_index-start : (n : ℕ) → next_index (negsuc 0) (suc n) ≡ pos 0
unfolding next_index
next_index-start n = ap pos (omega arith)

module _ {ℓ} {T : Type ℓ} where
  -- A new queue is empty.
  pub block_queue-Holds :
      (d : T) (n : ℕ) → (q : BlockQueue T) × (block_queue d (pos (suc n)) ≡ some q) × Holds q []
  unfolding block_queue
  block_queue-Holds d n = (
    _,
    refl,
    (
      0,
      record {
        array = length-replicate (suc n) d;
        head_in = omega arith;
        bounded = omega arith;
        size = refl;
        front = next_index-start n;
        back = next_index-start n ∙ ap pos (omega arith);
        last = λ p. absurd (omega arith);
        stored = tt;
      },
    ),
  )

  pushed : T → BlockQueue T → (at : ℕ) → BlockQueue T
  pushed x q i = record q { m_back = pos i; m_array = set q.m_array i x; m_size = q.m_size + 1 }

  push-room :
      (x : T) (q : BlockQueue T) (h : ℕ) (xs : List T)
      → HoldsAt q h xs
      → length xs < q.m_max_size
      → push x q ≡ (true, pushed x q ((h + q.m_size) % q.m_max_size))
  unfolding push pushed store
  push-room x q h xs v lt =
      let room : leb q.m_max_size q.m_size ≡ false = ground (arith, v.size) in
      rw (room, v.back) refl

  pushed-HoldsAt :
      (x : T) (q : BlockQueue T) (h : ℕ) (xs : List T)
      → HoldsAt q h xs
      → length xs < q.m_max_size
      → HoldsAt (pushed x q ((h + q.m_size) % q.m_max_size)) h (xs ++ x ∷ [])
  unfolding pushed
  pushed-HoldsAt x q h xs v lt = record {
    array = length-set q.m_array _ x ∙ v.array;
    head_in = v.head_in;
    bounded = omega arith;
    size = omega (arith, length-append xs (x ∷ []));
    front = v.front;
    back =
        next_index-pos _ q.m_max_size
        ∙ ap pos (mod-suc (h + q.m_size) q.m_max_size ∙ ap (λ n. n % q.m_max_size) (omega arith));
    last = λ p. ap (λ n. pos ((h + n) % q.m_max_size)) (omega arith);
    stored =
        Stored-append _ q.m_max_size h 0 xs (x ∷ [])
          (Stored-set q.m_array q.m_max_size h 0 q.m_size x xs v.head_in (omega (arith, v.size))
            (omega (arith, v.size)) v.stored)
          (
            ap (get_elem? (set q.m_array ((h + q.m_size) % q.m_max_size) x)) here
                ∙ get_elem?-set_self q.m_array ((h + q.m_size) % q.m_max_size) x (
                    omega (arith, v.array, mod-lt (h + q.m_size) {m = q.m_max_size} (omega arith))),
            tt,
          );
  }
    where
      here : (h + (0 + length xs)) % q.m_max_size ≡ (h + q.m_size) % q.m_max_size
      here = ap (λ n. (h + n) % q.m_max_size) (omega (arith, v.size))

  push-full : (x : T) (q : BlockQueue T) → q.m_max_size ≤ q.m_size → push x q ≡ (false, q)
  unfolding push
  push-full x q le = ground arith

  -- push() adds at the end, or refuses a full queue. On a queue that holds `xs` it returns whether there
  -- is room: if so the queue holds `xs` with the item behind them, and if not it is left as it is.
  pub push-Holds :
      (x : T) (q : BlockQueue T) (xs : List T)
      → Holds q xs
      → ((length xs < q.m_max_size)
          × ((push x q).0 ≡ true)
          × ((push x q).1.m_max_size ≡ q.m_max_size)
          × Holds (push x q).1 (xs ++ x ∷ []))
        ⊎ ((length xs ≡ q.m_max_size) × (push x q ≡ (false, q)))
  unfolding pushed
  push-Holds x q xs (h, v) = elim (Bool-cases (ltb (length xs) q.m_max_size)) [
    | inl lt ↦
        let lt' = ltb→lt (length xs) q.m_max_size lt in
        inl (rw (push-room x q h xs v lt') (lt', refl, same, (h, pushed-HoldsAt x q h xs v lt')))
    | inr ge ↦ inr (no_room ge)
  ]
    where
      same : (pushed x q ((h + q.m_size) % q.m_max_size)).m_max_size ≡ q.m_max_size
      same = refl

      no_room :
          ltb (length xs) q.m_max_size ≡ false
          → (length xs ≡ q.m_max_size) × (push x q ≡ (false, q))
      no_room e = (
        omega (arith, le_of_ltb _ _ e, v.bounded, v.size),
        push-full x q (omega (arith, le_of_ltb _ _ e, v.size)),
      )

  taken : BlockQueue T → (at : ℕ) → BlockQueue T
  taken q h = record q { m_front = pos h; m_size = q.m_size - 1 }

  taken-HoldsAt :
      (q : BlockQueue T) (h : ℕ) (x : T) (xs : List T)
      → HoldsAt q h (x ∷ xs)
      → HoldsAt (taken q h) ((h + 1) % q.m_max_size) xs
  unfolding taken
  taken-HoldsAt q h x xs v = record {
    array = v.array;
    head_in = mod-lt (h + 1) (omega arith);
    bounded = omega arith;
    size = omega arith;
    front = next_index-pos h q.m_max_size;
    back = v.back ∙ ap pos (sym (shift (q.m_size - 1) q.m_size (omega arith)));
    last = λ p.
        v.last (omega arith) ∙ ap pos (sym (shift (q.m_size - 1 - 1) (q.m_size - 1) (omega arith)));
    stored = Stored-shift q.m_array q.m_max_size h 0 xs v.stored.1;
  }
    where
      shift :
          (i j : ℕ)
          → suc i ≡ j
          → ((h + 1) % q.m_max_size + i) % q.m_max_size ≡ (h + j) % q.m_max_size
      shift i j e = mod-add-mod (h + 1) q.m_max_size i ∙ ap (λ n. n % q.m_max_size) (omega arith)

  -- Taking from a queue that is not empty gives its oldest element and leaves the others.
  pub take_front-Holds :
      (q : BlockQueue T) (x : T) (xs : List T)
      → Holds q (x ∷ xs)
      → (r : BlockQueue T) × (take_front q ≡ gives x r) × (r.m_max_size ≡ q.m_max_size) × Holds r xs
  unfolding take_front read_at taken
  take_front-Holds q x xs (h, v) =
      (taken q h, rw (v.front, at_front) refl, refl, (_, taken-HoldsAt q h x xs v))
    where
      at_front : get_elem? q.m_array h ≡ some x
      at_front =
          ap (get_elem? q.m_array)
            (sym (mod-eq_of_lt v.head_in) ∙ ap (λ n. n % q.m_max_size) (omega arith))
          ∙ v.stored.0
