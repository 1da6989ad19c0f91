-- ===== src/ConnectionPool/Tests.antt =====
-- The theorems on the pool, for two connections, of which a thread takes one and gives it back.
use mathlib.Core.List.{Perm}
use my_web_server_cmake.Prelude.{ℕ, ◌+◌, ◌≡◌, refl, arith, Option, some, List, [], ◌∷◌, pos}
use my_web_server_cmake.ConnectionPool.{
  ConnectionPool, new_pool, init, take_connection, put_connection,
}
use my_web_server_cmake.ConnectionPool.Threads.{
  System, Step, passes_wait, takes, gives_back, posts, Reach, here, next, quiet,
}
use my_web_server_cmake.ConnectionPool.Safety.{init-take_connection, init-given_back}

abbrev connect : ℕ → Option ℕ
connect i = some (i + 40)

abbrev pool_of : List ℕ → (reserve used free : ℕ) → ConnectionPool
pool_of l r u f = record {
  conn_list = l;
  m_max_conn = 2;
  m_cur_conn = pos u;
  m_free_conn = pos f;
  reserve = r;
}

abbrev fresh : ConnectionPool
fresh = pool_of (40 ∷ 41 ∷ []) 2 0 2

init-fresh : init connect 2 new_pool ≡ some fresh
unfolding init new_pool
init-fresh = refl

-- After `reserve.wait()`.
abbrev waited : System
waited = record { pool = pool_of (40 ∷ 41 ∷ []) 1 0 2; tickets = 1; held = []; unposted = 0 }

fresh-waited : Step (quiet fresh) waited
fresh-waited = passes_wait waited (omega arith) refl

init-take_connection_example :
    (con : ℕ) × (q : ConnectionPool) × (take_connection waited.pool ≡ some (con, q))
init-take_connection_example =
    init-take_connection connect 2 fresh waited init-fresh (next here fresh-waited) (omega arith)

abbrev used : System
used = record { pool = pool_of (41 ∷ []) 1 1 1; tickets = 0; held = 40 ∷ []; unposted = 0 }

waited-used : Step waited used
unfolding take_connection
waited-used = takes 40 used.pool used (omega arith) refl refl

abbrev returned : System
returned = record { pool = pool_of (41 ∷ 40 ∷ []) 1 0 2; tickets = 0; held = []; unposted = 1 }

used-returned : Step used returned
unfolding put_connection
used-returned = gives_back 40 [] [] returned refl refl

abbrev last : ConnectionPool
last = pool_of (41 ∷ 40 ∷ []) 2 0 2

returned-last : Step returned (quiet last)
returned-last = posts (quiet last) (omega arith) refl

fresh-last : Reach (quiet fresh) (quiet last)
fresh-last = next (next (next (next here fresh-waited) waited-used) used-returned) returned-last

init-given_back_example :
    (last.reserve ≡ 2)
    × (last.m_free_conn ≡ pos 2)
    × (last.m_cur_conn ≡ pos 0)
    × Perm last.conn_list fresh.conn_list
init-given_back_example = init-given_back connect 2 fresh last init-fresh fresh-last
