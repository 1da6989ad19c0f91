-- ===== src/BlockQueue/Contents.antt =====
-- A queue as the list of its elements, oldest first.
use native.Mathlib.Nat.{mod-eq_of_lt, mod-eq-sub-mod, mod-add-mod, add-zero}
use native.Mathlib.Decide.{dec_lt}
use my_web_server_cmake.Prelude.{
  ℕ, ◌+◌, ◌-◌, ◌%◌, ◌≤◌, ◌<◌, ◌≡◌, ◌≢◌, ◌⊎◌, inl, inr, arith, ◌∙◌, ap, sym, subst, some, List, [],
  ◌∷◌, ◌++◌, length, set, get_elem?, get_elem?-set_ne, pos,
}
use my_web_server_cmake.BlockQueue.{BlockQueue, next_index}

-- The elements `xs` stand in the array from `h + k` on, going round at `m`.
abbrev pub Stored {ℓ} : {T : Type ℓ} → List T → (m h k : ℕ) → List T → Type ℓ
Stored a m h k [] = Unit
Stored a m h k (x ∷ xs) = (get_elem? a ((h + k) % m) ≡ some x) × Stored a m h (k + 1) xs

-- The queue holds `xs`, the oldest at index `h`.
pub record HoldsAt {ℓ} {T : Type ℓ} (q : BlockQueue T) (h : ℕ) (xs : List T) : Type ℓ where
  pub array : length q.m_array ≡ q.m_max_size
  pub head_in : h < q.m_max_size
  pub bounded : q.m_size ≤ q.m_max_size
  pub size : q.m_size ≡ length xs
  pub front : next_index q.m_front q.m_max_size ≡ pos h
  pub back : next_index q.m_back q.m_max_size ≡ pos ((h + q.m_size) % q.m_max_size)
  pub last : 0 < q.m_size → q.m_back ≡ pos ((h + (q.m_size - 1)) % q.m_max_size)
  pub stored : Stored q.m_array q.m_max_size h 0 xs

-- Once round at most.
pub mod-cases : (a m : ℕ) → a < m + m → ((a < m) × (a % m ≡ a)) ⊎ ((m ≤ a) × (a % m ≡ a - m))
mod-cases a m h = elim (dec_lt a m) [
  | yes lt ↦ inl (lt, mod-eq_of_lt lt)
  | no ge ↦ inr (
    omega arith,
    mod-eq-sub-mod {n = a} {m = m} (omega arith) ∙ mod-eq_of_lt {n = a - m} {m = m} (omega arith),
  )
]

-- Two places of one window are different.
pub mod-ne : (h i j m : ℕ) → h < m → i < j → j < m → (h + i) % m ≢ (h + j) % m
mod-ne h i j m lt ij jm =
    omega (arith, mod-cases (h + i) m (omega arith), mod-cases (h + j) m (omega arith))

pub mod-suc : (a m : ℕ) → (a % m + 1) % m ≡ (a + 1) % m
mod-suc a m = mod-add-mod a m 1

pub next_index-pos : (i m : ℕ) → next_index (pos i) m ≡ pos ((i + 1) % m)
unfolding next_index
next_index-pos i m = ground arith

module _ {ℓ} {T : Type ℓ} where
  pub Stored-set :
      (a : List T) (m h k n : ℕ) (x : T) (xs : List T)
      → h < m
      → k + length xs ≤ n
      → n < m
      → Stored a m h k xs
      → Stored (set a ((h + n) % m) x) m h k xs
  Stored-set a m h k n x [] lt le nm s = tt
  Stored-set a m h k n x (y ∷ xs) lt le nm s = (
    get_elem?-set_ne a _ _ x (λ e. mod-ne h k n m lt (omega arith) nm (sym e)) ∙ s.0,
    Stored-set a m h (k + 1) n x xs lt (omega arith) nm s.1,
  )

  pub Stored-append :
      (a : List T) (m h k : ℕ) (xs ys : List T)
      → Stored a m h k xs
      → Stored a m h (k + length xs) ys
      → Stored a m h k (xs ++ ys)
  Stored-append a m h k [] ys s t = rw (add-zero k) at t
  Stored-append a m h k (x ∷ xs) ys s t =
      (s.0, Stored-append a m h (k + 1) xs ys s.1 (subst (λ n. Stored a m h n ys) (omega arith) t))

  pub Stored-shift :
      (a : List T) (m h k : ℕ) (xs : List T)
      → Stored a m h (k + 1) xs
      → Stored a m ((h + 1) % m) k xs
  Stored-shift a m h k [] s = tt
  Stored-shift a m h k (x ∷ xs) s = (
    ap (get_elem? a) (mod-add-mod (h + 1) m k ∙ ap (λ n. n % m) (omega arith)) ∙ s.0,
    Stored-shift a m h (k + 1) xs s.1,
  )
