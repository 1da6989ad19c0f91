-- ===== src/ThreadPool/Threads.antt =====
-- The threads around the pool: those that append, and the workers, which are counted by where in the
-- loop of work they stand.
use my_web_server_cmake.Prelude.{
  ℕ, ◌+◌, ◌-◌, ◌<◌, ◌≡◌, true, false, Option, none, some, List, [], ◌∷◌, ◌++◌,
}
use my_web_server_cmake.ThreadPool.{ThreadPool, enqueue, post, take_request, shut_down}

pub record System : Type 0 where
  pub pool : ThreadPool
  -- workers before the test of `m_shotdown`
  pub at_head : ℕ
  -- workers in `m_queuesem.wait()`
  pub waiting : ℕ
  -- workers that have passed it and have not looked into the queue
  pub tickets : ℕ
  -- the requests that workers are processing; a NULL is dropped instead
  pub busy : List (Option ℕ)
  -- workers that have ended
  pub gone : ℕ
  -- threads that have appended a request and have not called `m_queuesem.post()`
  pub unposted : ℕ
  -- all requests that append accepted, and all that workers took, in order
  pub accepted : List (Option ℕ)
  pub taken : List (Option ℕ)

pub data Step (s : System) : System → Type 0 where
  refuses :
      (request : Option ℕ) (p : ThreadPool) (t : System)
      → enqueue request s.pool ≡ (false, p)
      → t ≡ record s { pool = p }
      → Step s t
  enqueues :
      (request : Option ℕ) (p : ThreadPool) (t : System)
      → enqueue request s.pool ≡ (true, p)
      → t ≡ record s { pool = p; unposted = s.unposted + 1; accepted = s.accepted ++ request ∷ [] }
      → Step s t
  posts :
      (t : System)
      → 0 < s.unposted
      → t ≡ record s { pool = post s.pool; unposted = s.unposted - 1 }
      → Step s t
  goes_on :
      (t : System)
      → 0 < s.at_head
      → s.pool.m_shotdown ≡ false
      → t ≡ record s { at_head = s.at_head - 1; waiting = s.waiting + 1 }
      → Step s t
  ends :
      (t : System)
      → 0 < s.at_head
      → s.pool.m_shotdown ≡ true
      → t ≡ record s { at_head = s.at_head - 1; gone = s.gone + 1 }
      → Step s t
  passes_wait :
      (t : System)
      → 0 < s.waiting
      → 0 < s.pool.m_queuesem
      → t ≡ record s {
        pool = record s.pool { m_queuesem = s.pool.m_queuesem - 1 };
        waiting = s.waiting - 1;
        tickets = s.tickets + 1;
      }
      → Step s t
  takes :
      (request : Option ℕ) (p : ThreadPool) (t : System)
      → 0 < s.tickets
      → take_request s.pool ≡ some (request, p)
      → t ≡ record s {
        pool = p;
        tickets = s.tickets - 1;
        busy = request ∷ s.busy;
        taken = s.taken ++ request ∷ [];
      }
      → Step s t
  finds_none :
      (t : System)
      → 0 < s.tickets
      → take_request s.pool ≡ none
      → t ≡ record s { tickets = s.tickets - 1; at_head = s.at_head + 1 }
      → Step s t
  finishes :
      (request : Option ℕ) (before after : List (Option ℕ)) (t : System)
      → s.busy ≡ before ++ request ∷ after
      → t ≡ record s { busy = before ++ after; at_head = s.at_head + 1 }
      → Step s t
  shuts_down : (t : System) → t ≡ record s { pool = shut_down s.pool } → Step s t

pub data Reach (s : System) : System → Type 0 where
  here : Reach s s
  next : {t u : System} → Reach s t → Step t u → Reach s u

-- The constructor has started the workers, and nothing has happened yet.
abbrev pub started : ThreadPool → System
started p = record {
  pool = p;
  at_head = p.m_threadnumber;
  waiting = 0;
  tickets = 0;
  busy = [];
  gone = 0;
  unposted = 0;
  accepted = [];
  taken = [];
}
