-- ===== src/Http/LoadUsers/Tests.antt =====
-- initmysql_result on two rows of one name, with a pool of two connections.
use my_web_server_cmake.Prelude.{ℕ, ◌≡◌, ◌↔◌, refl, Option, some, List, [], ◌∷◌, pos}
use my_web_server_cmake.Prelude.Run.{done}
use my_web_server_cmake.Http.Text.{Bytes, codes}
use my_web_server_cmake.Http.DoRequest.{Users, find, sign_in}
use my_web_server_cmake.Http.LoadUsers.{Row, initmysql_result}
use my_web_server_cmake.Http.LoadUsers.Loaded.{
  rows_of, last_password, rotated, initmysql_result-sign_in,
}
use my_web_server_cmake.ConnectionPool.{ConnectionPool}

abbrev two_free : ConnectionPool
two_free = record {
  conn_list = 1 ∷ 2 ∷ [];
  m_max_conn = 2;
  m_cur_conn = pos 0;
  m_free_conn = pos 2;
  reserve = 2;
}

abbrev table : List (Bytes × Bytes)
table = (codes "ann", codes "old") ∷ (codes "ann", codes "new") ∷ []

abbrev succeeds : ℕ → Bytes → ℕ
succeeds mysql query = 0

abbrev gives_table : ℕ → ℕ → Option (List Row)
gives_table mysql result = some (rows_of table)

initmysql_result-sign_in_example :
    (users' : Users) × (initmysql_result succeeds gives_table two_free []
      ≡ done (users', rotated 1 (2 ∷ []) two_free))
    × ((name given : Bytes)
        → (sign_in users' name given ≡ codes "/welcome.html")
          ↔ (last_password table name (find [] name) ≡ some given))
initmysql_result-sign_in_example =
    initmysql_result-sign_in succeeds gives_table table [] two_free 1 1 (2 ∷ []) refl refl refl
