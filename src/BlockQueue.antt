-- ===== src/BlockQueue.antt =====
-- log/include/block_queue.h: the bounded queue between the threads that log and the one that writes.
-- Each method runs under `m_mutex`, so it is one step on the fields; what other threads do while a
-- `pop` waits on the condition variable is an input.
pub mod Contents
pub mod Refine
pub mod Wait
mod Tests
use my_web_server_cmake.Prelude.{
  ℕ, zero, suc, ◌+◌, ◌-◌, ◌*◌, ◌/◌, ◌%◌, Bool, true, false, Option, none, some, List, [], ◌∷◌,
  length, set, replicate, get_elem?, ltb, leb, ◌==◌, if◌then◌else◌, ℤ, pos, negsuc, sub_ℕ, ◌+ℤ◌,
}

pub record BlockQueue {ℓ} (T : Type ℓ) : Type ℓ where
  pub m_array : List T
  pub m_size : ℕ
  pub m_max_size : ℕ
  pub m_front : ℤ
  pub m_back : ℤ

-- What a method does with the queue and its argument. `fault` is an access outside `m_array`.
pub data Result {ℓ} (T : Type ℓ) : Type ℓ where
  gives : T → BlockQueue T → Result T
  refuses : BlockQueue T → Result T
  waits : BlockQueue T → Result T
  fault : Result T

-- `%` of the source rounds to zero.
unfoldable pub rem : ℤ → ℕ → ℤ
rem (pos n) m = pos (n % m)
rem (negsuc n) m = sub_ℕ 0 (suc n % m)

-- `(i + 1) % m_max_size`
unfoldable pub next_index : ℤ → ℕ → ℤ
unfolding rem
next_index i m = rem (i +ℤ pos 1) m

-- cond::wait and cond::timewait return whether pthread_cond_wait returned 0.
unfoldable pub cond_wait : ℕ → Bool
cond_wait ret = ret == 0

-- The end of a wait: what pthread_cond_wait returned, and the queue as the other threads have left it.
pub record Wakeup {ℓ} (T : Type ℓ) : Type ℓ where
  pub ret : ℕ
  pub after : BlockQueue T

-- The time that the other pop waits until, in seconds and nanoseconds.
unfoldable pub deadline : (now_sec ms_timeout : ℕ) → ℕ × ℕ
deadline now ms = (now + ms / 1000, ms % 1000 * 1000)

module _ {ℓ} {T : Type ℓ} where
  unfoldable pub read_at : List T → ℤ → Option T
  read_at a (pos i) = get_elem? a i
  read_at a (negsuc n) = none

  -- The constructor, with the value of a new T; `none` is `exit(-1)`.
  unfoldable pub block_queue : T → ℤ → Option (BlockQueue T)
  block_queue d (pos zero) = none
  block_queue d (pos (suc n)) = some (record {
    m_size = 0;
    m_max_size = suc n;
    m_array = replicate (suc n) d;
    m_front = negsuc 0;
    m_back = negsuc 0;
  })
  block_queue d (negsuc n) = none

  unfoldable pub clear : BlockQueue T → BlockQueue T
  clear q = record q { m_size = 0; m_front = negsuc 0; m_back = negsuc 0 }

  unfoldable pub full : BlockQueue T → Bool
  full q = leb q.m_max_size q.m_size

  unfoldable pub empty : BlockQueue T → Bool
  empty q = leb q.m_size 0

  unfoldable pub size : BlockQueue T → ℕ
  size q = q.m_size

  unfoldable pub max_size : BlockQueue T → ℕ
  max_size q = q.m_max_size

  abbrev given : BlockQueue T → Option T → Result T
  given q none = fault
  given q (some x) = gives x q

  unfoldable pub front : BlockQueue T → Result T
  front q = if q.m_size == 0 then refuses q else given q (read_at q.m_array q.m_front)

  unfoldable pub back : BlockQueue T → Result T
  back q = if q.m_size == 0 then refuses q else given q (read_at q.m_array q.m_back)

  -- `m_array[m_back] = item`; a write in front of the array changes nothing here.
  unfoldable pub store : List T → ℤ → T → List T
  store a (pos i) x = set a i x
  store a (negsuc n) x = a

  unfoldable pub push : T → BlockQueue T → Bool × BlockQueue T
  push item q =
      if leb q.m_max_size q.m_size
      then (false, q)
      else let b = next_index q.m_back q.m_max_size in
        (true, record q { m_back = b; m_array = store q.m_array b item; m_size = q.m_size + 1 })

  -- The end of both pops, on a queue that is not empty.
  unfoldable pub take_front : BlockQueue T → Result T
  take_front q =
      let f = next_index q.m_front q.m_max_size in
      given (record q { m_front = f; m_size = q.m_size - 1 }) (read_at q.m_array f)

  -- pop(item). The list holds the waits that have ended; without one more the thread still waits.
  unfoldable pub pop : List (Wakeup T) → BlockQueue T → Result T
  pop [] q = if leb q.m_size 0 then waits q else take_front q
  pop (w ∷ ws) q =
      let rest = pop ws w.after in
      if leb q.m_size 0 then if cond_wait w.ret then refuses w.after else rest else take_front q

  -- pop(item, ms_timeout): at most one wait.
  unfoldable pub pop_timed : Wakeup T → BlockQueue T → Result T
  pop_timed w q =
      if leb q.m_size 0
      then if cond_wait w.ret
        then refuses w.after
        else if leb w.after.m_size 0
        then refuses w.after
        else take_front w.after
      else take_front q
