-- ===== src/Http/LoadUsers/Loaded.antt =====
-- http/src/http_conn.cpp, initmysql_result: the table of users, and login against it.
use mathlib.Core.Bool.{true≢false}
use my_web_server_cmake.Prelude.{
  ℕ, zero, suc, ◌≡◌, ◌↔◌, refl, arith, Bool, true, false, Option, some, List, [], ◌∷◌, ◌++◌, ap,
  ◌∙◌, sym, subst, if◌then◌else◌, Bool-cases, inl, inr, lt→ltb, ℤ, pos, negsuc, ◌+ℤ◌, ◌-ℤ◌, ◌+◌,
  ◌-◌,
}
use my_web_server_cmake.Prelude.Run.{Run, done, ◌>>=◌}
use my_web_server_cmake.Http.Text.{Bytes, codes}
use my_web_server_cmake.Http.DoRequest.{Users, bytes_eq, find, sign_in}
use my_web_server_cmake.Http.DoRequest.Accounts.{bytes_eq_refl, bytes_eq→eq, sign_in_iff}
use my_web_server_cmake.Http.LoadUsers.{
  Row, assign, fetch_rows, connection_raii, select_users, read_users, initmysql_result,
}
use my_web_server_cmake.ConnectionPool
use my_web_server_cmake.ConnectionPool.{
  ConnectionPool, Got, get_connection, is_exhausted, take_connection, release_connection,
  put_connection,
}

-- Rows without NULL.
abbrev pub rows_of : List (Bytes × Bytes) → List Row
rows_of [] = []
rows_of ((name, password) ∷ rest) = (some name, some password) ∷ rows_of rest

-- The last password that is given for a name, if there is one, and else `before`.
abbrev pub last_password :
    List (Bytes × Bytes) → (name : Bytes) → (before : Option Bytes) → Option Bytes
last_password [] name before = before
last_password ((n, p) ∷ rest) name before =
    last_password rest name (if bytes_eq n name then some p else before)

find-assign :
    (users : Users) (n p name : Bytes)
    → find (assign users n p) name ≡ (if bytes_eq n name then some p else find users name)
unfolding assign find
find-assign [] n p name = refl
find-assign ((m, q) ∷ rest) n p name = elim (Bool-cases (bytes_eq m n)) [
  | inl same ↦
      rw (same, bytes_eq→eq m n same) (if_same (bytes_eq n name) (some p) (some q) (find rest name))
  | inr other ↦
      rw (other, find-assign rest n p name)
        (elim (Bool-cases (bytes_eq m name)) [
          | inl at ↦ let ne : bytes_eq n name ≡ false = apart at other in rw (at, ne) refl
          | inr not_at ↦ rw not_at refl
        ])
]
  where
    if_same :
        (b : Bool) (x y z : Option Bytes)
        → (if b then x else z) ≡ (if b then x else (if b then y else z))
    if_same true x y z = refl
    if_same false x y z = refl

    apart : bytes_eq m name ≡ true → bytes_eq m n ≡ false → bytes_eq n name ≡ false
    apart at other = elim (Bool-cases (bytes_eq n name)) [
      | inl e ↦
          let z = bytes_eq→eq m name at ∙ sym (bytes_eq→eq n name e) in
          absurd (true≢false (sym (bytes_eq_refl m) ∙ ap (bytes_eq m) z ∙ other))
      | inr ne ↦ ne
    ]

fetch_rows-find :
    (rows : List (Bytes × Bytes)) (users : Users)
    → (users' : Users) × (fetch_rows (rows_of rows) users ≡ done users')
      × ((name : Bytes) → find users' name ≡ last_password rows name (find users name))
unfolding fetch_rows
fetch_rows-find [] users = (users, refl, (λ name. refl))
fetch_rows-find ((n, p) ∷ rest) users =
    let (users', e, f) = fetch_rows-find rest (assign users n p) in
    (users', e, (λ name. f name ∙ ap (last_password rest name) (find-assign users n p name)))

down_up : (a : ℤ) → (a -ℤ pos 1) +ℤ pos 1 ≡ a
down_up (pos zero) = refl
down_up (pos (suc n)) = ground arith
down_up (negsuc n) = ground arith

up_down : (a : ℤ) → (a +ℤ pos 1) -ℤ pos 1 ≡ a
up_down (pos n) = ground arith
up_down (negsuc zero) = refl
up_down (negsuc (suc n)) = ground arith

-- The pool after its first connection has been used.
abbrev pub rotated : (con : ℕ) → List ℕ → ConnectionPool → ConnectionPool
rotated con rest p = record p { conn_list = rest ++ con ∷ [] }

-- Whatever is done with a connection, the pool gets it back.
pub connection_raii-rotated :
    {A : Type 0}
    → (p : ConnectionPool) (con k : ℕ) (rest : List ℕ) (body : Option ℕ → Run A)
    → p.conn_list ≡ con ∷ rest
    → p.reserve ≡ suc k
    → connection_raii p body ≡ (body (some con) >>= λ a. done (a, rotated con rest p))
unfolding connection_raii get_connection is_exhausted take_connection release_connection
    put_connection
connection_raii-rotated {A} p con k rest body l r =
    subst (λ q. connection_raii q body ≡ (body (some con) >>= λ a. done (a, rotated con rest q)))
      same
      (rw (connection_raii, takes)
        (ap (λ (q : ConnectionPool). body (some con) >>= λ a. done (a, q)) same_counts))
  where
    with_first : ConnectionPool
    with_first = record p { conn_list = con ∷ rest; reserve = suc k }

    same : with_first ≡ p
    same i = record p { conn_list = sym l i; reserve = sym r i }

    taken : ConnectionPool
    taken = record {
      conn_list = rest;
      m_max_conn = p.m_max_conn;
      m_cur_conn = p.m_cur_conn +ℤ pos 1;
      m_free_conn = p.m_free_conn -ℤ pos 1;
      reserve = suc k - 1;
    }

    takes : get_connection with_first ≡ ConnectionPool.got con taken
    takes = rw (get_connection, lt→ltb 0 (suc k) (omega arith)) refl

    used : ConnectionPool
    used = record {
      conn_list = rest ++ con ∷ [];
      m_max_conn = p.m_max_conn;
      m_cur_conn = (p.m_cur_conn +ℤ pos 1) -ℤ pos 1;
      m_free_conn = (p.m_free_conn -ℤ pos 1) +ℤ pos 1;
      reserve = suc k - 1 + 1;
    }

    count : suc k - 1 + 1 ≡ suc k
    count = omega arith

    same_counts : used ≡ rotated con rest with_first
    same_counts i = record {
      conn_list = rest ++ con ∷ [];
      m_max_conn = p.m_max_conn;
      m_cur_conn = up_down p.m_cur_conn i;
      m_free_conn = down_up p.m_free_conn i;
      reserve = count i;
    }

-- Who is in the database can log in. With a free connection in the pool, and a query that gives rows
-- without NULL, initmysql_result ends; the pool is as before, but for its first connection, which is
-- now the last. Login with a name then succeeds for just the last password that the rows have for it,
-- and for a name that they do not have as it did before.
pub initmysql_result-sign_in :
    (mysql_query : ℕ → Bytes → ℕ) (mysql_store_result : ℕ → ℕ → Option (List Row))
    (rows : List (Bytes × Bytes)) (users : Users) (p : ConnectionPool) (con k : ℕ) (rest : List ℕ)
    → p.conn_list ≡ con ∷ rest
    → p.reserve ≡ suc k
    → mysql_store_result con (mysql_query con select_users) ≡ some (rows_of rows)
    → (users' : Users) × (initmysql_result mysql_query mysql_store_result p users
        ≡ done (users', rotated con rest p))
      × ((name given : Bytes)
          → (sign_in users' name given ≡ codes "/welcome.html")
            ↔ (last_password rows name (find users name) ≡ some given))
unfolding initmysql_result read_users
initmysql_result-sign_in mysql_query mysql_store_result rows users p con k rest l r found =
    let (users', e, f) = fetch_rows-find rows users in
    (
      users',
      connection_raii-rotated p con k rest (read_users mysql_query mysql_store_result users) l r
          ∙ rw (found, e, ◌>>=◌) refl,
      (λ name given.
          subst (λ o. (sign_in users' name given ≡ codes "/welcome.html") ↔ (o ≡ some given))
            (f name) (sign_in_iff users' name given)),
    )
