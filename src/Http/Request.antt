-- ===== src/Http/Request.antt =====
-- http/src/http_conn.cpp, parse_request_line, parse_headers and parse_content: from the
-- received bytes to the request. A step that the C++ program has no defined behaviour for (a string
-- function on NULL, an access outside `m_read_buf`, an `int` that overflows) is a `fault`.
pub mod RequestLine
pub mod Faults
mod Tests
pub use my_web_server_cmake.Prelude.Run.{Run, done, fault, out_of_fuel, ◌>>=◌}
use my_web_server_cmake.Prelude.{
  ℕ, zero, suc, ◌+◌, ◌-◌, ◌^◌, Bool, true, false, ◌&&◌, ◌||◌, not, Option, none, some, List, [],
  ◌∷◌, ltb, leb, ◌==◌, if◌then◌else◌, length, set, drop, ◌++◌, take, ℤ, pos, negsuc, sub_ℕ, ◌+ℤ◌,
  ltb_ℤ, leb_ℤ,
}
use my_web_server_cmake.Http.Text.{
  Bytes, codes, slash, at, cstr, strpbrk_blank, strchr, strspn_blank, strcasecmp_eq,
  has_prefix_nocase, atol, to_int, overwrite,
}
use my_web_server_cmake.Http.Conn.{
  Conn, Method, get, post, CheckState, check_state_requestline, check_state_header,
  check_state_content, HttpCode, no_request, get_request, bad_request,
}
use my_web_server_cmake.Http.Line.{LineStatus, line_ok, line_bad, line_open, parse_line}

abbrev pub Reply : Type 0
Reply = Run (HttpCode × Conn)

abbrev pub reply : HttpCode → Conn → Reply
reply code c = done (code, c)

-- `strcpy(b + i, s)` and the tail of `strcat`: the bytes of `s` and a NUL, all inside the array.
unfoldable pub strcpy_at : Bytes → ℕ → Bytes → Run Bytes
strcpy_at b i s =
    if ltb (i + length s) (length b) then done (overwrite b i (s ++ 0 ∷ [])) else fault

-- `if (strncasecmp(m_url, scheme, n) == 0) { m_url += n; m_url = strchr(m_url, '/'); }`
unfoldable pub skip_scheme : Bytes → Bytes → Option ℕ → Run (Option ℕ)
skip_scheme b scheme none = fault
skip_scheme b scheme (some u) =
    if has_prefix_nocase (cstr b u) scheme
    then done (strchr b (u + length scheme) slash)
    else done (some u)

-- The last part, at the URL that is left: it is there and absolute, and `/` stands for a page.
unfoldable pub finish_url : Option ℕ → Conn → Reply
finish_url none c = reply bad_request c
finish_url (some u) c =
    if at c.m_read_buf u == slash
    then (if length (cstr c.m_read_buf u) == 1
        then (do
          b ← strcpy_at c.m_read_buf (u + 1) (codes "judge.html")
          reply no_request (record c { m_read_buf = b; m_check_state = check_state_header }))
        else reply no_request (record c { m_check_state = check_state_header }))
    else reply bad_request c

-- The URL that starts at `u`, less the scheme and the host.
unfoldable pub parse_url : ℕ → Conn → Reply
unfolding finish_url skip_scheme
parse_url u c = do
  url ← skip_scheme c.m_read_buf (codes "http://") (some u)
  url' ← skip_scheme c.m_read_buf (codes "https://") url
  finish_url url' (record c { m_url = url' })

-- The version, behind the blank that ends the URL at `u`.
unfoldable pub parse_version : ℕ → Conn → Reply
unfolding parse_url
parse_version u c = elim (strpbrk_blank c.m_read_buf u) [
  | none ↦ reply bad_request (record c { m_version = none })
  | some v ↦
      let b = set c.m_read_buf v 0 in
      let c' : Conn = record c { m_read_buf = b; m_version = some (v + 1) } in
      if strcasecmp_eq (cstr b (v + 1)) (codes "HTTP/1.1")
      then parse_url u c'
      else reply bad_request c'
]

-- The method of a request line.
unfoldable pub parse_method : Bytes → Option (Method × Bool)
parse_method s =
    if strcasecmp_eq s (codes "GET")
    then some (get, false)
    else if strcasecmp_eq s (codes "POST")
    then some (post, true)
    else none

unfoldable pub parse_request_line : ℕ → Conn → Reply
unfolding parse_version parse_method
parse_request_line text c = elim (strpbrk_blank c.m_read_buf text) [
  | none ↦ reply bad_request (record c { m_url = none })
  | some u ↦
      let b = set c.m_read_buf u 0 in
      let c' : Conn = record c { m_read_buf = b; m_url = some (u + 1) } in
      elim (parse_method (cstr b text)) [
        | none ↦ reply bad_request c'
        | some (m, is_post) ↦
            parse_version (u + 1) (record c' { m_method = m; cgi = if is_post then 1 else c.cgi })
      ]
]

-- The value of a header: what follows its name of `n` bytes, and the blanks after it.
abbrev pub value_at : Bytes → ℕ → ℕ → ℕ
value_at b text n = text + n + strspn_blank (cstr b (text + n))

unfoldable pub parse_headers : ℕ → Conn → HttpCode × Conn
parse_headers text c =
    if at b text == 0
    then (elim c.m_content_length [
      | pos zero ↦ (get_request, c)
      | _ ↦ (no_request, record c { m_check_state = check_state_content })
    ])
    else if has_prefix_nocase (cstr b text) (codes "Connection:")
    then (
      no_request,
      if strcasecmp_eq (cstr b (value_at b text 11)) (codes "keep-alive")
          then record c { m_linger = true }
          else c,
    )
    else if has_prefix_nocase (cstr b text) (codes "Content-Length:")
    then (no_request, record c { m_content_length = to_int (atol (cstr b (value_at b text 15))) })
    else if has_prefix_nocase (cstr b text) (codes "Host:")
    then (no_request, record c { m_host = some (value_at b text 5) })
    else (no_request, c)
  where
    open c use {m_read_buf as b}

-- `b[i] = 0` at a signed index
unfoldable pub store_nul : Bytes → ℤ → Run Bytes
store_nul b (pos i) = if ltb i (length b) then done (set b i 0) else fault
store_nul b (negsuc n) = fault

-- `m_check_index + m_content_length`, an `int` that must not overflow
abbrev pub int_max : ℤ
int_max = pos (2 ^ 31 - 1)

unfoldable pub parse_content : ℕ → Conn → Reply
unfolding store_nul
parse_content text c =
    let end = pos c.m_check_index +ℤ c.m_content_length in
    if ltb_ℤ int_max end
    then fault
    else if leb_ℤ end (pos c.m_read_index)
    then (do
      b ← store_nul c.m_read_buf (pos text +ℤ c.m_content_length)
      reply get_request (record c { m_read_buf = b; m_string = some text }))
    else reply no_request c
