-- ===== src/Http/Response/Head.antt =====
-- The head of an answer in the write buffer.
use my_web_server_cmake.Prelude.{
  ℕ, ◌+◌, ◌≤◌, ◌<◌, ◌≡◌, arith, refl, Bool, true, false, [], ◌∷◌, ◌++◌, length, length-append, ℤ,
  if◌then◌else◌,
}
use my_web_server_cmake.Http.Text.{Bytes, codes}
use my_web_server_cmake.Http.Text.Decimal.{
  dec, dec_digits, length-dec_digits, int_dec, length-int_dec,
}
use my_web_server_cmake.Http.Conn.{Conn}
use my_web_server_cmake.Http.Request.{done}
use my_web_server_cmake.Http.Response.{
  crlf, add_status_line, add_content_length, add_linger, add_blank_line, add_headers,
}
use my_web_server_cmake.Http.Response.Append.{Holds, appended, add_response-Holds}

abbrev pub status_line : ℕ → Bytes → Bytes
status_line status title = codes "HTTP/1.1" ++ (32 ∷ (dec status ++ (32 ∷ (title ++ crlf))))

abbrev pub content_length_line : ℤ → Bytes
content_length_line n = codes "Content-Length:" ++ (int_dec n ++ crlf)

abbrev pub connection_line : Bool → Bytes
connection_line linger =
    codes "Connection:" ++ ((if linger then codes "keep-alive" else codes "close") ++ crlf)

-- The head of an HTTP response.
abbrev pub head : ℕ → Bytes → ℤ → Bool → Bytes
head status title n linger =
    [] ++ status_line status title ++ content_length_line n ++ connection_line linger ++ crlf

pub length-status_line :
    (status : ℕ) (title : Bytes) → length (status_line status title) ≤ 32 + length title
unfolding dec
length-status_line status title = omega (
  arith,
  length-dec_digits 20 status,
  length-append (dec_digits 20 status) (32 ∷ (title ++ crlf)),
  length-append title crlf,
)

pub length-content_length_line : (n : ℤ) → length (content_length_line n) ≤ 38
length-content_length_line n = omega (arith, length-int_dec n, length-append (int_dec n) crlf)

pub length-connection_line : (b : Bool) → length (connection_line b) ≤ 23
length-connection_line true = omega arith
length-connection_line false = omega arith

-- The connection behind the status line, and behind the headers.
abbrev pub with_status : ℕ → Bytes → Conn → Conn
with_status status title c = appended (status_line status title) c

abbrev pub with_headers : ℤ → Conn → Conn
with_headers n c =
    appended crlf (appended (connection_line c.m_linger) (appended (content_length_line n) c))

pub add_status_line-Holds :
    (status : ℕ) (title : Bytes) (c : Conn)
    → Holds [] c
    → length title < 100
    → (add_status_line status title c ≡ done (true, with_status status title c))
      × Holds ([] ++ status_line status title) (with_status status title c)
unfolding add_status_line
add_status_line-Holds status title c h small =
    add_response-Holds [] (status_line status title) c h
      (omega (arith, length-status_line status title))

module _ (s : Bytes) (n : ℤ) (c : Conn) (h : Holds s c) (small : length s < 200) where
  pub add_headers-Holds :
      (add_headers n c ≡ done (true, with_headers n c))
      × Holds (s ++ content_length_line n ++ connection_line c.m_linger ++ crlf) (with_headers n c)
  unfolding add_headers add_content_length add_linger add_blank_line
  add_headers-Holds =
      let (e1, h1) =
        add_response-Holds s (content_length_line n) c h
          (omega (arith, length-content_length_line n)) in
      let (e2, h2) =
        add_response-Holds _ (connection_line c.m_linger) (appended (content_length_line n) c) h1 (
          omega (
            arith,
            length-append s (content_length_line n),
            length-content_length_line n,
            length-connection_line c.m_linger,
          )) in
      let (e3, h3) = add_response-Holds _ crlf _ h2 (
        omega (
          arith,
          length-append (s ++ content_length_line n) (connection_line c.m_linger),
          length-append s (content_length_line n),
          length-content_length_line n,
          length-connection_line c.m_linger,
        )) in
      (rw (e1, e2, e3) refl, h3)

  pub length-headers :
      length (s ++ content_length_line n ++ connection_line c.m_linger ++ crlf) < 300
  length-headers = omega (
    arith,
    length-append (s ++ content_length_line n ++ connection_line c.m_linger) crlf,
    length-append (s ++ content_length_line n) (connection_line c.m_linger),
    length-append s (content_length_line n),
    length-content_length_line n,
    length-connection_line c.m_linger,
  )

pub length-first_line :
    (status : ℕ) (title : Bytes)
    → length title < 100
    → length ([] ++ status_line status title) < 200
length-first_line status title small = omega (arith, length-status_line status title)
