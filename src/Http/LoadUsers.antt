-- ===== src/Http/LoadUsers.antt =====
-- http/src/http_conn.cpp, initmysql_result, with connectionRAII of cgimysql/src/sql_connection_pool.cpp,
-- and the work of a thread of threadpool/include/threadpool.h on a request that it has taken. What the
-- MySQL library does is a parameter: `mysql_query` on a connection, 0 for success, and the rows that
-- mysql_store_result gives after a query with that result, NULL being `none`. What is printed and logged is left out.
pub mod Loaded
mod Tests
use my_web_server_cmake.Prelude.{
  ℕ, Bool, true, false, Option, none, some, List, [], ◌∷◌, if◌then◌else◌, ℤ,
}
use my_web_server_cmake.Prelude.Run.{Run, done, fault, out_of_fuel, ◌>>=◌}
use my_web_server_cmake.Http.Text.{Bytes, codes}
use my_web_server_cmake.Http.Conn.{Conn}
use my_web_server_cmake.Http.Request.{Reply}
use my_web_server_cmake.Http.Worker.{Worked, process}
use my_web_server_cmake.Http.DoRequest.{Users, bytes_eq}
use my_web_server_cmake.ConnectionPool
use my_web_server_cmake.ConnectionPool.{ConnectionPool, Got, get_connection, release_connection}

-- `users[name] = password`
unfoldable pub assign : Users → Bytes → Bytes → Users
unfolding bytes_eq
assign [] name password = (name, password) ∷ []
assign ((n, p) ∷ rest) name password =
    let rest' = assign rest name password in
    if bytes_eq n name then (n, password) ∷ rest else (n, p) ∷ rest'

-- A row of the result: the name and the password.
abbrev pub Row : Type 0
Row = Option Bytes × Option Bytes

-- `while (row = mysql_fetch_row(result))`
unfoldable pub fetch_rows : List Row → Users → Run Users
unfolding assign
fetch_rows [] users = done users
fetch_rows ((some name, some password) ∷ rest) users = fetch_rows rest (assign users name password)
fetch_rows ((_, _) ∷ rest) users = fault

-- connectionRAII around `body`, which gets the connection, NULL if the pool has none.
unfoldable pub connection_raii :
    {A : Type 0} → ConnectionPool → (body : Option ℕ → Run A) → Run (A × ConnectionPool)
connection_raii p body = elim (get_connection p) [
  | ConnectionPool.null ↦ body none >>= λ a. done (a, (release_connection none p).1)
  | ConnectionPool.got con q ↦
      body (some con) >>= λ a. done (a, (release_connection (some con) q).1)
  | ConnectionPool.blocks ↦ out_of_fuel
  | ConnectionPool.fault ↦ fault
]

abbrev pub select_users : Bytes
select_users = codes "select name,password from webdb"

module _ (mysql_query : ℕ → Bytes → ℕ)
    (mysql_store_result : (mysql result : ℕ) → Option (List Row)) where
  -- The body of initmysql_result. A failed query is only logged.
  unfoldable pub read_users : Users → Option ℕ → Run Users
  unfolding fetch_rows
  read_users users none = fault
  read_users users (some mysql) = elim (mysql_store_result mysql (mysql_query mysql select_users)) [
    | none ↦ fault
    | some rows ↦ fetch_rows rows users
  ]

  unfoldable pub initmysql_result : ConnectionPool → Users → Run (Users × ConnectionPool)
  unfolding connection_raii read_users
  initmysql_result p users = connection_raii p (read_users users)

-- The end of a round of work: `connectionRAII mysqlcon(&request->mysql, …); request->process();`
unfoldable pub serve_request :
    (do_request : Conn → Reply) → ℤ → Conn → ConnectionPool → Run (Worked × ConnectionPool)
unfolding connection_raii
serve_request do_request count request p =
    connection_raii p (λ mysql. process do_request count (record request { mysql = mysql }))
