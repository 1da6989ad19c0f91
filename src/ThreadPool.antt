-- ===== src/ThreadPool.antt =====
-- threadpool/include/threadpool.h: the bounded queue of requests that the main thread fills and the
-- workers empty. A request is a pointer, NULL is `none`. The lock makes the middle part of each method
-- one step; the semaphore `m_queuesem` is its count.
pub mod Threads
pub mod Fifo
mod Tests
use my_web_server_cmake.Prelude.{
  ℕ, zero, suc, ◌+◌, ◌-◌, Bool, true, false, ◌&&◌, Option, none, some, List, [], ◌∷◌, ◌++◌, leb,
  ◌==◌, if◌then◌else◌, length, ℤ, pos, negsuc,
}

pub record ThreadPool : Type 0 where
  pub m_workqueue : List (Option ℕ)
  pub m_queuesem : ℕ
  pub m_max_request : ℕ
  pub m_threadnumber : ℕ
  pub m_shotdown : Bool

-- The loop of the constructor, where `create` and `detach` are what pthread_create and pthread_detach
-- return for each thread.
unfoldable pub start_workers : (create detach : ℕ → ℕ) → (rounds i : ℕ) → Bool
start_workers create detach zero i = true
start_workers create detach (suc n) i =
    let rest = start_workers create detach n (i + 1) in create i == 0 && detach i == 0 && rest

-- The constructor. `none` is an exception.
unfoldable pub threadpool :
    (create detach : ℕ → ℕ) → (threadnumber max_request : ℤ) → Option ThreadPool
unfolding start_workers
threadpool create detach (pos (suc n)) (pos (suc m)) =
    if start_workers create detach (suc n) 0
    then some (record {
      m_workqueue = [];
      m_queuesem = 0;
      m_max_request = suc m;
      m_threadnumber = suc n;
      m_shotdown = false;
    })
    else none
threadpool create detach _ _ = none

-- The locked part of append, before `m_queuesem.post()`.
unfoldable pub enqueue : Option ℕ → ThreadPool → Bool × ThreadPool
enqueue request p =
    if leb p.m_max_request (length p.m_workqueue)
    then (false, p)
    else (true, record p { m_workqueue = p.m_workqueue ++ request ∷ [] })

abbrev pub post : ThreadPool → ThreadPool
post p = record p { m_queuesem = p.m_queuesem + 1 }

abbrev pub post_if : Bool × ThreadPool → Bool × ThreadPool
post_if (true, p) = (true, post p)
post_if (false, p) = (false, p)

unfoldable pub append : Option ℕ → ThreadPool → Bool × ThreadPool
unfolding enqueue
append request p = post_if (enqueue request p)

-- The locked part of a round of work, behind `m_queuesem.wait()`. `none`: there was no request.
unfoldable pub take_request : ThreadPool → Option (Option ℕ × ThreadPool)
take_request p = elim p.m_workqueue [
  | [] ↦ none
  | request ∷ rest ↦ some (request, record p { m_workqueue = rest })
]

-- ~threadpool()
unfoldable pub shut_down : ThreadPool → ThreadPool
shut_down p = record p { m_shotdown = true }
