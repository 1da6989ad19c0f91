-- ===== src/Http/DoRequest.antt =====
-- http/src/http_conn.cpp, do_request: the account forms, the choice of the file, and its mapping.
-- The file system and the database are parameters: `stat` gives what stat() finds, `mmap` what
-- open() and an mmap() of `st_size` bytes then give, `none` for a failure of either, and `mysql_query` the result of a query, 0 for success.
pub mod Accounts
pub mod Form
pub mod Files
pub mod Fuel
pub mod Path
mod Tests
use my_web_server_cmake.Prelude.{
  ℕ, zero, suc, ◌+◌, ◌-◌, Bool, true, false, ◌&&◌, ◌||◌, not, Option, none, some, List, [], ◌∷◌,
  ltb, ◌==◌, if◌then◌else◌, length, ◌++◌, take, drop, replicate,
}
use my_web_server_cmake.Http.Text.{
  Bytes, codes, slash, at, cstr, until_nul, index_of, strrchr, overwrite,
}
use my_web_server_cmake.Http.Conn.{
  Conn, FileStat, real_file_size, HttpCode, no_resource, forbidden_request, bad_request,
  file_request,
}
use my_web_server_cmake.Http.Request.{Run, done, fault, out_of_fuel, Reply, reply, strcpy_at, ◌>>=◌}

abbrev pub doc_root : Bytes
doc_root = codes "/home/zy/WebServerCmake/root"

-- `users`: the names and passwords that are known.
abbrev pub Users : Type 0
Users = List (Bytes × Bytes)

unfoldable pub bytes_eq : Bytes → Bytes → Bool
bytes_eq [] [] = true
bytes_eq [] (y ∷ ys) = false
bytes_eq (x ∷ xs) [] = false
bytes_eq (x ∷ xs) (y ∷ ys) = x == y && bytes_eq xs ys

-- `users.find(name)`
unfoldable pub find : Users → Bytes → Option Bytes
find [] name = none
find ((n, password) ∷ rest) name = if bytes_eq n name then some password else find rest name

-- `users.insert(pair(name, password))`: nothing changes if the name is there.
unfoldable pub insert : Users → Bytes → Bytes → Users
unfolding find
insert users name password = elim (find users name) [
  | some p ↦ users
  | none ↦ users ++ (name, password) ∷ []
]

-- The bytes from `i` up to the first `stop`, and their number; `fault` if they run out of the buffer,
-- or do not fit, with a NUL, into `char[100]`.
unfoldable pub field : Bytes → ℕ → (stop : ℕ) → Run (ℕ × Bytes)
field b i stop = elim (index_of (λ x. x == stop) (drop i b)) [
  | none ↦ fault
  | some k ↦ if ltb k 100 then done (k, take k (drop i b)) else fault
]

-- The name and the password in the body `user=…&password=…` at `text`.
unfoldable pub form_fields : Bytes → (text : ℕ) → Run (Bytes × Bytes)
unfolding field
form_fields b text = do
  (k, name) ← field b (text + 5) 38
  (_, password) ← field b (text + 5 + k + 10) 0
  done (until_nul name, password)

abbrev pub sql_insert : Bytes → Bytes → Bytes
sql_insert name password =
    codes "INSERT INTO webdb(name,password) VALUES("
    ++ (codes "'" ++ (name ++ (codes "', '" ++ (password ++ codes "')"))))

module _ (mysql_query : Option ℕ → Bytes → ℕ) where
  -- Registration: the page to show, and the users after it. The text of the query has 200 bytes.
  unfoldable pub sign_up : Users → Option ℕ → Bytes → Bytes → Run (Bytes × Users)
  unfolding find insert
  sign_up users mysql name password =
      if ltb (length (sql_insert name password)) 200
      then (elim (find users name) [
        | some p ↦ done (codes "/registerError.html", users)
        | none ↦ done (
          if mysql_query mysql (sql_insert name password) == 0
              then codes "/log.html"
              else codes "/registerError.html",
          insert users name password,
        )
      ])
      else fault

-- Login: the page to show.
unfoldable pub sign_in : Users → Bytes → Bytes → Bytes
unfolding find bytes_eq
sign_in users name password = elim (find users name) [
  | none ↦ codes "/logError.html"
  | some p ↦ if bytes_eq p password then codes "/welcome.html" else codes "/logError.html"
]

-- `strncpy(b + i, s, n)`
unfoldable pub strncpy_at : Bytes → ℕ → Bytes → ℕ → Bytes
strncpy_at b i s n = overwrite b i (take n (s ++ replicate n 0))

-- The page that a digit stands for.
unfoldable pub page_of : ℕ → Option Bytes
page_of x =
    if x == 48
    then some (codes "/register.html")
    else if x == 49
    then some (codes "/log.html")
    else if x == 53
    then some (codes "/picture.html")
    else if x == 54
    then some (codes "/video.html")
    else if x == 55
    then some (codes "/fans.html")
    else none

-- `m_real_file` behind `doc_root`: a page, or the URL as far as there is room.
unfoldable pub real_file : Bytes → ℕ → (url : Bytes) → Bytes
unfolding page_of strncpy_at
real_file file x url = elim (page_of x) [
  | some page ↦ strncpy_at file (length doc_root) page (length page)
  | none ↦ strncpy_at file (length doc_root) url (real_file_size - length doc_root - 1)
]

-- MAP_FAILED: an address that is not NULL, and that no byte can be read from
abbrev pub map_failed : Bytes
map_failed = []

-- The address that mmap returns, which the code takes without a test.
unfoldable pub mapping : Option Bytes → Bytes
mapping none = map_failed
mapping (some bytes) = bytes

-- A result together with `users`.
pub record Served : Type 0 where
  pub code : HttpCode
  pub conn : Conn
  pub users : Users

module _ (mysql_query : Option ℕ → Bytes → ℕ) (stat : Bytes → Option FileStat)
    (mmap : Bytes → ℕ → Option Bytes) where
  -- The page that a form leads to.
  unfoldable pub answer_form : Users → Option ℕ → (digit : ℕ) → Bytes × Bytes → Run (Bytes × Users)
  unfolding sign_up sign_in
  answer_form users mysql digit (name, password) =
      if digit == 51
      then sign_up mysql_query users mysql name password
      else done (sign_in users name password, users)

  -- `strcpy(m_url, page)` on the URL at `u`
  abbrev pub show_page : ℕ → Conn → Bytes × Users → Run (Conn × Users)
  show_page u c (page, users) = do
    b ← strcpy_at c.m_read_buf u page
    done (record c { m_read_buf = b }, users)

  -- The body of the `if` on `cgi`: the URL without its first two bytes is copied through 200 bytes, and
  -- the form in the body is answered by a page. A request without a body has no `m_string`.
  unfoldable pub account : Users → (u digit : ℕ) → Conn → Run (Conn × Users)
  unfolding answer_form form_fields strncpy_at
  account users u digit c =
      if ltb (1 + length (cstr c.m_read_buf (u + 2))) 200
      then (elim c.m_string [
        | none ↦ fault
        | some text ↦ form_fields c.m_read_buf text >>= λ fields.
            answer_form users c.mysql digit fields
            >>= show_page u (record c {
              m_real_file =
                  strncpy_at c.m_real_file (length doc_root) (slash ∷ cstr c.m_read_buf (u + 2))
                    (real_file_size - length doc_root - 1);
            })
      ])
      else fault

  -- stat, the two tests, and the mapping.
  unfoldable pub open_file : Conn → HttpCode × Conn
  unfolding mapping
  open_file c = elim (stat (cstr c.m_real_file 0)) [
    | none ↦ (no_resource, c)
    | some s ↦
        let c' : Conn = record c { m_file_stat = s } in
        if not s.other_readable
        then (forbidden_request, c')
        else if s.is_dir
        then (bad_request, c')
        else (
          file_request,
          record c' { m_file_address = some (mapping (mmap (cstr c.m_real_file 0) s.st_size)) },
        )
  ]

  -- From the choice of the file on. `p` is the last slash of the URL that was there at first.
  unfoldable pub find_file : (u p : ℕ) → Users → Conn → Served
  unfolding open_file real_file
  find_file u p users c =
      let (code, c') = open_file (record c {
        m_real_file = real_file c.m_real_file (at c.m_read_buf (p + 1)) (cstr c.m_read_buf u);
      }) in
      record { code = code; conn = c'; users = users }

  abbrev pub is_form : Conn → ℕ → Bool
  is_form c digit = c.cgi == 1 && (digit == 50 || digit == 51)

  unfoldable pub do_request_at : Users → (u p : ℕ) → Conn → Run Served
  unfolding account find_file
  do_request_at users u p c =
      if is_form c (at c.m_read_buf (p + 1))
      then (account users u (at c.m_read_buf (p + 1)) c >>= λ (c', users').
          done (find_file u p users' c'))
      else done (find_file u p users c)

  -- `strcpy(m_real_file, doc_root)`, the last slash, and the rest. A URL without a slash has none.
  unfoldable pub do_request : Users → Conn → Run Served
  unfolding do_request_at
  do_request users c = elim c.m_url [
    | none ↦ fault
    | some u ↦ elim (strrchr c.m_read_buf u slash) [
      | none ↦ fault
      | some p ↦ strcpy_at c.m_real_file 0 doc_root >>= λ file.
          do_request_at users u p (record c { m_real_file = file })
    ]
  ]

  -- What process_read sees of it.
  unfoldable pub serve : Users → Conn → Reply
  unfolding do_request
  serve users c = do_request users c >>= λ s. reply s.code s.conn
