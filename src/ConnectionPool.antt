-- ===== src/ConnectionPool.antt =====
-- cgimysql/: the pool of database connections. A connection is a number, NULL is `none`. The MySQL
-- client library is a parameter. `lock` makes the middle part of each method one step; the semaphore
-- `reserve` is its count.
pub mod Threads
pub mod Safety
mod Tests
use my_web_server_cmake.Prelude.{
  ℕ, zero, suc, ◌+◌, ◌-◌, Bool, true, false, Option, none, some, List, [], ◌∷◌, ◌++◌, ltb,
  if◌then◌else◌, length, ℤ, pos, ◌+ℤ◌, ◌-ℤ◌,
}

pub record ConnectionPool : Type 0 where
  pub conn_list : List ℕ
  pub m_max_conn : ℕ
  pub m_cur_conn : ℤ
  pub m_free_conn : ℤ
  pub reserve : ℕ

-- connection_pool()
unfoldable pub new_pool : ConnectionPool
new_pool = record {
  conn_list = [];
  m_max_conn = 0;
  m_cur_conn = pos 0;
  m_free_conn = pos 0;
  reserve = 0;
}

-- The loop of init: mysql_init and mysql_real_connect for the `i`th connection give one or fail.
-- `none` is `exit(1)`.
unfoldable pub connect_all :
    (connect : ℕ → Option ℕ) → (rounds i : ℕ) → ConnectionPool → Option ConnectionPool
connect_all connect zero i p = some p
connect_all connect (suc n) i p = elim (connect i) [
  | none ↦ none
  | some con ↦
      connect_all connect n (i + 1)
        (record p { conn_list = p.conn_list ++ con ∷ []; m_free_conn = p.m_free_conn +ℤ pos 1 })
]

abbrev pub to_count : ℤ → ℕ
to_count (pos n) = n
to_count _ = 0

abbrev pub with_reserve : ConnectionPool → ConnectionPool
with_reserve p = record p { reserve = to_count p.m_free_conn; m_max_conn = to_count p.m_free_conn }

unfoldable pub init :
    (connect : ℕ → Option ℕ) → (maxconn : ℕ) → ConnectionPool → Option ConnectionPool
unfolding connect_all
init connect maxconn p = elim (connect_all connect maxconn 0 p) [
  | none ↦ none
  | some q ↦ some (with_reserve q)
]

-- The locked part of getConnection, behind `reserve.wait()`. `none`: front() of an empty list.
unfoldable pub take_connection : ConnectionPool → Option (ℕ × ConnectionPool)
take_connection p = elim p.conn_list [
  | [] ↦ none
  | con ∷ rest ↦ some (
    con,
    record p {
      conn_list = rest;
      m_free_conn = p.m_free_conn -ℤ pos 1;
      m_cur_conn = p.m_cur_conn +ℤ pos 1;
    },
  )
]

-- `0==connList.size()`, the test of getConnection, made without the lock
unfoldable pub is_exhausted : ConnectionPool → Bool
is_exhausted p = elim p.conn_list [ [] ↦ true | _ ∷ _ ↦ false ]

-- getConnection by a thread that is alone: NULL, a connection, or a wait that does not end.
pub data Got : Type 0 where
  null : Got
  got : ℕ → ConnectionPool → Got
  blocks : Got
  fault : Got

abbrev pub got_of : Option (ℕ × ConnectionPool) → Got
got_of none = fault
got_of (some (con, p)) = got con p

unfoldable pub get_connection : ConnectionPool → Got
unfolding is_exhausted take_connection
get_connection p =
    if is_exhausted p
    then null
    else if ltb 0 p.reserve
    then got_of (take_connection (record p { reserve = p.reserve - 1 }))
    else blocks

-- The locked part of releaseConnection, before `reserve.post()`.
unfoldable pub put_connection : ℕ → ConnectionPool → ConnectionPool
put_connection con p = record p {
  conn_list = p.conn_list ++ con ∷ [];
  m_free_conn = p.m_free_conn +ℤ pos 1;
  m_cur_conn = p.m_cur_conn -ℤ pos 1;
}

abbrev pub post : ConnectionPool → ConnectionPool
post p = record p { reserve = p.reserve + 1 }

unfoldable pub release_connection : Option ℕ → ConnectionPool → Bool × ConnectionPool
unfolding put_connection
release_connection none p = (false, p)
release_connection (some con) p = (true, post (put_connection con p))

-- destroyPool(), with the connections that it closes. The list is not emptied.
unfoldable pub destroy_pool : ConnectionPool → ConnectionPool × List ℕ
destroy_pool p = elim p.conn_list [
  | [] ↦ (p, [])
  | _ ∷ _ ↦ (record p { m_cur_conn = pos 0; m_free_conn = pos 0 }, p.conn_list)
]

unfoldable pub get_free_conn : ConnectionPool → ℤ
get_free_conn p = p.m_free_conn
