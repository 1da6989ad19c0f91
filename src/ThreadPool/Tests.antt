-- ===== src/ThreadPool/Tests.antt =====
-- The theorems on the pool, with one worker and two requests that are appended and taken.
use my_web_server_cmake.Prelude.{
  ℕ, ◌+◌, ◌≤◌, ◌≡◌, refl, arith, false, Option, some, List, [], ◌∷◌, ◌++◌, length, pos,
}
use my_web_server_cmake.ThreadPool.{ThreadPool, threadpool, enqueue, take_request}
use my_web_server_cmake.ThreadPool.Threads.{
  System, enqueues, posts, goes_on, passes_wait, takes, Reach, here, next, started,
}
use my_web_server_cmake.ThreadPool.Fifo.{
  threadpool-in_order, threadpool-take_request, threadpool-all_taken,
}

abbrev succeeds : ℕ → ℕ
succeeds i = 0

abbrev pool_of : List (Option ℕ) → ℕ → ThreadPool
pool_of queue count = record {
  m_workqueue = queue;
  m_queuesem = count;
  m_max_request = 3;
  m_threadnumber = 1;
  m_shotdown = false;
}

threadpool-made : threadpool succeeds succeeds (pos 1) (pos 3) ≡ some (pool_of [] 0)
unfolding threadpool
threadpool-made = refl

abbrev one : Option ℕ
one = some 11

abbrev queued : System
queued = record (started (pool_of (one ∷ []) 0)) { unposted = 1; accepted = one ∷ [] }

abbrev posted : System
posted = record (started (pool_of (one ∷ []) 1)) { accepted = one ∷ [] }

abbrev blocked : System
blocked = record posted { at_head = 0; waiting = 1 }

abbrev woken : System
woken = record blocked { pool = pool_of (one ∷ []) 0; waiting = 0; tickets = 1 }

abbrev served : System
served = record woken { pool = pool_of [] 0; tickets = 0; busy = one ∷ []; taken = one ∷ [] }

Reach-woken : Reach (started (pool_of [] 0)) woken
unfolding enqueue
Reach-woken =
    next
      (next
        (next (next here (enqueues one (pool_of (one ∷ []) 0) queued refl refl))
          (posts posted (omega arith) refl))
        (goes_on blocked (omega arith) refl refl))
      (passes_wait woken (omega arith) (omega arith) refl)

Reach-served : Reach (started (pool_of [] 0)) served
unfolding take_request
Reach-served = next Reach-woken (takes one (pool_of [] 0) served (omega arith) refl refl)

threadpool-in_order_example :
    (woken.taken ++ woken.pool.m_workqueue ≡ woken.accepted)
    × (length woken.pool.m_workqueue ≤ 3)
    × (woken.at_head + woken.waiting + woken.tickets + length woken.busy + woken.gone ≡ 1)
threadpool-in_order_example =
    threadpool-in_order succeeds succeeds 1 3 (pool_of [] 0) woken threadpool-made Reach-woken

threadpool-take_request_example :
    (request : Option ℕ) × (q : ThreadPool) × (take_request woken.pool ≡ some (request, q))
threadpool-take_request_example =
    threadpool-take_request succeeds succeeds 1 3 (pool_of [] 0) woken threadpool-made Reach-woken
      (omega arith)

threadpool-all_taken_example : served.taken ≡ served.accepted
threadpool-all_taken_example =
    threadpool-all_taken succeeds succeeds 1 3 (pool_of [] 0) served threadpool-made Reach-served
      (omega arith)
