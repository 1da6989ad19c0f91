-- ===== src/ConnectionPool/Threads.antt =====
-- Any number of threads that get and release connections at the same time. A thread is counted by
-- where it stands: between `reserve.wait()` and the lock, or between the lock and `reserve.post()`.
use my_web_server_cmake.Prelude.{ℕ, ◌+◌, ◌-◌, ◌<◌, ◌≡◌, List, [], ◌∷◌, ◌++◌, some, true}
use my_web_server_cmake.ConnectionPool.{
  ConnectionPool, take_connection, put_connection, is_exhausted, post,
}

pub record System : Type 0 where
  pub pool : ConnectionPool
  -- threads that have passed `reserve.wait()` and have no connection yet
  pub tickets : ℕ
  -- connections that threads use
  pub held : List ℕ
  -- threads that have given back a connection and have not called `reserve.post()`
  pub unposted : ℕ

pub data Step (s : System) : System → Type 0 where
  -- getConnection finds no connection and returns NULL
  finds_none : (t : System) → is_exhausted s.pool ≡ true → t ≡ s → Step s t
  -- `reserve.wait()` returns
  passes_wait :
      (t : System)
      → 0 < s.pool.reserve
      → t ≡ record s {
        pool = record s.pool { reserve = s.pool.reserve - 1 };
        tickets = s.tickets + 1;
      }
      → Step s t
  -- the locked part of getConnection
  takes :
      (con : ℕ) (p : ConnectionPool) (t : System)
      → 0 < s.tickets
      → take_connection s.pool ≡ some (con, p)
      → t ≡ record s { pool = p; tickets = s.tickets - 1; held = con ∷ s.held }
      → Step s t
  -- the locked part of releaseConnection, of a connection that is in use
  gives_back :
      (con : ℕ) (before after : List ℕ) (t : System)
      → s.held ≡ before ++ con ∷ after
      → t ≡ record s {
        pool = put_connection con s.pool;
        held = before ++ after;
        unposted = s.unposted + 1;
      }
      → Step s t
  -- `reserve.post()`
  posts :
      (t : System)
      → 0 < s.unposted
      → t ≡ record s { pool = post s.pool; unposted = s.unposted - 1 }
      → Step s t

pub data Reach (s : System) : System → Type 0 where
  here : Reach s s
  next : {t u : System} → Reach s t → Step t u → Reach s u

-- No thread is under way.
abbrev pub quiet : ConnectionPool → System
quiet p = record { pool = p; tickets = 0; held = []; unposted = 0 }
