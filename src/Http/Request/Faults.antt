-- ===== src/Http/Request/Faults.antt =====
-- What parse_request_line and parse_content do outside their defined behaviour.
use my_web_server_cmake.Prelude.{
  ℕ, ◌+◌, ◌^◌, ◌≤◌, ◌<◌, ◌≡◌, ◌≢◌, arith, refl, ◌∙◌, ap, sym, Bool, true, false, some, none, [],
  ◌∷◌, ◌++◌, length, append_assoc, length-append, negsuc, ◌==◌,
}
use my_web_server_cmake.Http.Text.{
  Bytes, codes, slash, cstr, strchr, shift, index_of, strcasecmp_eq, has_prefix_nocase,
}
use my_web_server_cmake.Http.Text.Words.{All, NoNul, IsWord, cstr-append, index_of-none}
use my_web_server_cmake.Http.Conn.{Conn, Method}
use my_web_server_cmake.Http.Request.{
  fault, skip_scheme, parse_url, parse_method, parse_request_line, parse_content,
}
use my_web_server_cmake.Http.Request.RequestLine.{
  request_line, split_conn, through_method, parse_request_line-split, cstr-url, length-strcasecmp,
  length-through_method,
}

has_prefix-append :
    (s t rest : Bytes) → strcasecmp_eq s t ≡ true → has_prefix_nocase (s ++ rest) t ≡ true
unfolding strcasecmp_eq has_prefix_nocase
has_prefix-append [] [] [] e = refl
has_prefix-append [] [] (x ∷ rest) e = refl
has_prefix-append [] (y ∷ t) rest e = cc
has_prefix-append (x ∷ s) [] rest e = cc
has_prefix-append (x ∷ s) (y ∷ t) rest e = ground (arith, has_prefix-append s t rest)

no_slash : (s : Bytes) → All (λ x. x ≢ slash) s → All (λ x. (x == slash) ≡ false) s
no_slash [] h = tt
no_slash (x ∷ s) h = (ground (arith, h.0), no_slash s h.1)

strchr-none :
    (before s rest : Bytes) (k : ℕ)
    → NoNul s
    → All (λ x. x ≢ slash) s
    → k ≡ length before
    → strchr (before ++ (s ++ 0 ∷ rest)) k slash ≡ none
unfolding strchr
strchr-none before s rest k h n e =
    ap (λ z. shift k (index_of (λ x. x == slash) z)) (cstr-append before s rest k h e)
    ∙ ap (shift k) (index_of-none _ s (no_slash s n))

parse_url-fault :
    (u : ℕ) (d : Conn)
    → has_prefix_nocase (cstr d.m_read_buf u) (codes "http://") ≡ true
    → strchr d.m_read_buf (u + 7) slash ≡ none
    → parse_url u d ≡ fault
unfolding parse_url skip_scheme
parse_url-fault u d e f = rw (e, f) refl

-- A URL that names a host and no path crashes the parser. For a request line whose URL is `http://`
-- in any case, followed by a word without a slash, parse_request_line has no defined behaviour:
-- strchr finds no slash, and the test for `https://` is made on the NULL that it returned.
pub parse_request_line-host_only :
    (before meth scheme host ver rest : Bytes) (c : Conn) (m : Method) (is_post : Bool)
    → IsWord meth × IsWord (scheme ++ host) × NoNul ver
    → NoNul host
    → All (λ x. x ≢ slash) host
    → strcasecmp_eq scheme (codes "http://") ≡ true
    → parse_method meth ≡ some (m, is_post)
    → strcasecmp_eq ver (codes "HTTP/1.1") ≡ true
    → parse_request_line
        (length before)
        (record c { m_read_buf = request_line before meth (scheme ++ host) ver rest })
      ≡ fault
parse_request_line-host_only before meth scheme host ver rest c m is_post w n h s e f =
    let url = scheme ++ host in
    let pre = through_method before meth in
    let u = length before + length meth + 1 in
    let seven : length scheme ≡ 7 = length-strcasecmp scheme (codes "http://") s in
    parse_request_line-split before meth url ver rest w c m is_post e f
    ∙ parse_url-fault u (split_conn before meth url ver rest w c m is_post)
        (rw (cstr-url before meth url ver rest w)
          (has_prefix-append scheme (codes "http://") host s))
        (ap (λ b. strchr b (u + 7) slash)
            (ap (◌++◌ pre) (append_assoc scheme host _) ∙ sym (append_assoc pre scheme _))
          ∙ strchr-none (pre ++ scheme) host _ (u + 7) n h (
              omega (
                arith,
                length-append pre scheme,
                length-through_method before meth url ver rest w,
              )))

-- A negative Content-Length writes in front of the body: where the number that the client sent is
-- below minus the offset of the body, the byte is in front of `m_read_buf`.
pub parse_content-negative :
    (text k : ℕ) (c : Conn)
    → c.m_content_length ≡ negsuc k
    → text ≤ k
    → c.m_check_index ≤ c.m_read_index
    → c.m_check_index < 2 ^ 31
    → parse_content text c ≡ fault
unfolding parse_content
parse_content-negative text k c e h i j = ground arith
