-- ===== src/Http/Request/RequestLine.antt =====
-- What parse_request_line makes of a well-formed request line.
use my_web_server_cmake.Prelude.{
  ℕ, zero, suc, ◌+◌, ◌≡◌, arith, refl, ◌∙◌, ap, sym, Bool, true, some, [], ◌∷◌, ◌++◌, length, set,
  append_assoc, length-append, if◌then◌else◌, ltb, lt→ltb,
}
use my_web_server_cmake.Http.Text.{
  Bytes, at, codes, slash, cstr, strpbrk_blank, overwrite, strcasecmp_eq, has_prefix_nocase,
}
use my_web_server_cmake.Http.Text.Words.{
  All-append, NoNul, IsWord, IsWord→NoNul, cstr-append, strpbrk-word, set-word, overwrite-append,
}
use my_web_server_cmake.Http.Conn.{Conn, Method, check_state_header, no_request}
use my_web_server_cmake.Http.Request.{
  done, reply, strcpy_at, skip_scheme, finish_url, parse_url, parse_version, parse_method,
  parse_request_line,
}

-- A request line `meth url ver`, as parse_line leaves it: a NUL for the CR, and `rest` behind it.
abbrev pub request_line : (before meth url ver rest : Bytes) → Bytes
request_line before meth url ver rest = before ++ ((meth ++ 32 ∷ (url ++ 32 ∷ ver)) ++ 0 ∷ rest)

-- The method, with a NUL behind it.
abbrev pub through_method : (before meth : Bytes) → Bytes
through_method before meth = before ++ (meth ++ 0 ∷ [])

-- The same bytes with the two blanks overwritten.
abbrev pub split_line : (before meth url ver rest : Bytes) → Bytes
split_line before meth url ver rest = through_method before meth ++ (url ++ 0 ∷ (ver ++ 0 ∷ rest))

module _ (before meth url ver rest : Bytes) (words : IsWord meth × IsWord url × NoNul ver) where
  -- Where the URL and the version start.
  abbrev pub url_at : ℕ
  url_at = length before + length meth + 1

  abbrev pub version_at : ℕ
  version_at = url_at + length url + 1

  pub length-through_method : length (through_method before meth) ≡ url_at
  length-through_method =
      omega (arith, length-append before (meth ++ 0 ∷ []), length-append meth (0 ∷ []))

  first_blank :
      strpbrk_blank (request_line before meth url ver rest) (length before)
      ≡ some (length before + length meth)
  first_blank =
      strpbrk-word before meth (url ++ 32 ∷ ver) rest (length before) words.0
        (All-append _ url (32 ∷ ver) (IsWord→NoNul url words.1) ((λ q. omega arith), words.2)) refl

  first_cut :
      set (request_line before meth url ver rest) (length before + length meth) 0
      ≡ before ++ (meth ++ 0 ∷ ((url ++ 32 ∷ ver) ++ 0 ∷ rest))
  first_cut = set-word before meth (url ++ 32 ∷ ver) rest _ refl

  regroup : (z : Bytes) → before ++ (meth ++ 0 ∷ z) ≡ through_method before meth ++ z
  regroup z =
      sym (append_assoc before (meth ++ 0 ∷ []) z ∙ ap (◌++◌ before) (append_assoc meth (0 ∷ []) z))

  second_blank :
      strpbrk_blank (before ++ (meth ++ 0 ∷ ((url ++ 32 ∷ ver) ++ 0 ∷ rest))) url_at
      ≡ some (url_at + length url)
  second_blank =
      ap (λ b. strpbrk_blank b url_at) (regroup _)
      ∙ strpbrk-word (through_method before meth) url ver rest url_at words.1 words.2
          (sym length-through_method)

  second_cut :
      set (before ++ (meth ++ 0 ∷ ((url ++ 32 ∷ ver) ++ 0 ∷ rest))) (url_at + length url) 0
      ≡ split_line before meth url ver rest
  second_cut =
      ap (λ b. set b (url_at + length url) 0) (regroup _)
      ∙ set-word (through_method before meth) url ver rest _ (omega (arith, length-through_method))

  cstr-method :
      cstr (before ++ (meth ++ 0 ∷ ((url ++ 32 ∷ ver) ++ 0 ∷ rest))) (length before) ≡ meth
  cstr-method = cstr-append before meth _ _ (IsWord→NoNul meth words.0) refl

  pub cstr-url : cstr (split_line before meth url ver rest) url_at ≡ url
  cstr-url =
      cstr-append (through_method before meth) url _ _ (IsWord→NoNul url words.1)
        (sym length-through_method)

  cstr-version : cstr (split_line before meth url ver rest) version_at ≡ ver
  cstr-version =
      ap (λ b. cstr b version_at)
        (sym (
          append_assoc (through_method before meth) (url ++ 0 ∷ []) (ver ++ 0 ∷ rest)
          ∙ ap (◌++◌ (through_method before meth)) (append_assoc url (0 ∷ []) (ver ++ 0 ∷ rest))))
      ∙ cstr-append (through_method before meth ++ (url ++ 0 ∷ [])) ver rest version_at words.2 (
          omega (
            arith,
            length-through_method,
            length-append (through_method before meth) (url ++ 0 ∷ []),
            length-append url (0 ∷ []),
          ))

  -- The connection behind the version test.
  abbrev pub split_conn : Conn → Method → Bool → Conn
  split_conn c m is_post = record c {
    m_read_buf = split_line before meth url ver rest;
    m_url = some url_at;
    m_version = some version_at;
    m_method = m;
    cgi = if is_post then 1 else c.cgi;
  }

  parse_version-split :
      (c : Conn)
      → strcasecmp_eq ver (codes "HTTP/1.1") ≡ true
      → parse_version url_at
          (record c { m_read_buf = before ++ (meth ++ 0 ∷ ((url ++ 32 ∷ ver) ++ 0 ∷ rest)) })
        ≡ parse_url url_at (record c {
          m_read_buf = split_line before meth url ver rest;
          m_version = some version_at;
        })
  unfolding parse_version
  parse_version-split c f = rw (second_blank, parse_version, second_cut, cstr-version, f) refl

  -- A line of three words is split at its two blanks, and the URL is what is left to look at.
  pub parse_request_line-split :
      (c : Conn) (m : Method) (is_post : Bool)
      → parse_method meth ≡ some (m, is_post)
      → strcasecmp_eq ver (codes "HTTP/1.1") ≡ true
      → parse_request_line
          (length before)
          (record c { m_read_buf = request_line before meth url ver rest })
        ≡ parse_url url_at (split_conn c m is_post)
  unfolding parse_request_line
  parse_request_line-split c m is_post e f =
      rw (first_blank, parse_request_line, first_cut, cstr-method, e, first_cut)
        (parse_version-split
          (record c { m_url = some url_at; m_method = m; cgi = if is_post then 1 else c.cgi }) f)

at-cstr : (b : Bytes) (k x : ℕ) (s : Bytes) → cstr b k ≡ x ∷ s → at b k ≡ x
unfolding cstr at
at-cstr [] zero x s e = ground arith
at-cstr [] (suc k) x s e = ground arith
at-cstr (y ∷ b) zero x s e = ground arith
at-cstr (y ∷ b) (suc k) x s e = at-cstr b k x s e

skip_scheme-absolute :
    (b : Bytes) (u : ℕ) (path : Bytes)
    → cstr b u ≡ slash ∷ path
    → (skip_scheme b (codes "http://") (some u) ≡ done (some u))
      × (skip_scheme b (codes "https://") (some u) ≡ done (some u))
unfolding skip_scheme has_prefix_nocase
skip_scheme-absolute b u path e = (rw e refl, rw e refl)

-- Of an absolute URL nothing is skipped.
parse_url-absolute :
    (u : ℕ) (path : Bytes) (d : Conn)
    → cstr d.m_read_buf u ≡ slash ∷ path
    → parse_url u d ≡ finish_url (some u) (record d { m_url = some u })
unfolding parse_url
parse_url-absolute u path d e =
    let (http, https) = skip_scheme-absolute d.m_read_buf u path e in rw (http, https) refl

finish_url-page :
    (u p : ℕ) (path : Bytes) (d : Conn)
    → cstr d.m_read_buf u ≡ slash ∷ p ∷ path
    → finish_url (some u) d ≡ reply no_request (record d { m_check_state = check_state_header })
unfolding finish_url
finish_url-page u p path d e = ground (arith, at-cstr d.m_read_buf u slash (p ∷ path) e)

finish_url-root :
    (u : ℕ) (d : Conn) (b : Bytes)
    → cstr d.m_read_buf u ≡ slash ∷ []
    → strcpy_at d.m_read_buf (u + 1) (codes "judge.html") ≡ done b
    → finish_url (some u) d
      ≡ reply no_request (record d { m_read_buf = b; m_check_state = check_state_header })
unfolding finish_url
finish_url-root u d b e f = rw (at-cstr d.m_read_buf u slash [] e, finish_url, e, f) refl

-- A request line reaches the request as it was sent. Take a line `method url version` of words, the
-- method GET or POST in either case, the version HTTP/1.1 and the URL a slash with at least one byte
-- behind it. Then parse_request_line accepts it, records the method, marks a POST for `cgi`, points
-- `m_url` at a C string equal to the URL that was sent, goes on to the headers, and changes no byte
-- of the buffer but the two blanks.
pub parse_request_line-words :
    (before meth path ver rest : Bytes) (p : ℕ) (c : Conn) (m : Method) (is_post : Bool)
    → IsWord meth × IsWord (slash ∷ p ∷ path) × NoNul ver
    → parse_method meth ≡ some (m, is_post)
    → strcasecmp_eq ver (codes "HTTP/1.1") ≡ true
    → let url : Bytes = slash ∷ p ∷ path in
      let u = length before + length meth + 1 in
      (parse_request_line
          (length before)
          (record c { m_read_buf = request_line before meth url ver rest })
        ≡ reply no_request (record c {
          m_read_buf = split_line before meth url ver rest;
          m_url = some u;
          m_version = some (u + length url + 1);
          m_method = m;
          cgi = if is_post then 1 else c.cgi;
          m_check_state = check_state_header;
        }))
      × (cstr (split_line before meth url ver rest) u ≡ url)
parse_request_line-words before meth path ver rest p c m is_post w e f =
    let url : Bytes = slash ∷ p ∷ path in
    let text = cstr-url before meth url ver rest w in
    let d = split_conn before meth url ver rest w c m is_post in
    let u = url_at before meth url ver rest w in
    (
      parse_request_line-split before meth url ver rest w c m is_post e f
          ∙ parse_url-absolute u (p ∷ path) d text
          ∙ finish_url-page u p path d text,
      text,
    )

pub length-strcasecmp : (s t : Bytes) → strcasecmp_eq s t ≡ true → length s ≡ length t
unfolding strcasecmp_eq
length-strcasecmp [] [] e = refl
length-strcasecmp [] (y ∷ t) e = cc
length-strcasecmp (x ∷ s) [] e = cc
length-strcasecmp (x ∷ s) (y ∷ t) e = ground (arith, length-strcasecmp s t)

module _ (pre ver rest : Bytes) (len : length ver ≡ 8) where
  root_line : Bytes
  root_line = pre ++ (slash ∷ 0 ∷ (ver ++ 0 ∷ 0 ∷ rest))

  -- The URL with its slash, the eleven bytes behind it, and the rest.
  root_line-parts : root_line ≡ pre ++ (slash ∷ []) ++ ((0 ∷ (ver ++ 0 ∷ 0 ∷ [])) ++ rest)
  unfolding root_line
  root_line-parts = sym (
      append_assoc pre (slash ∷ []) _
      ∙ ap (λ z. pre ++ (slash ∷ 0 ∷ z)) (append_assoc ver (0 ∷ 0 ∷ []) rest))

  judge-fits :
      (k : ℕ) → k ≡ length pre + 1 → ltb (k + length (codes "judge.html")) (length root_line) ≡ true
  unfolding root_line
  judge-fits k e = lt→ltb _ _ (
      omega (
        arith,
        length-append pre (slash ∷ 0 ∷ (ver ++ 0 ∷ 0 ∷ rest)),
        length-append ver (0 ∷ 0 ∷ rest),
      ))

  strcpy_at-judge :
      (k : ℕ)
      → k ≡ length pre + 1
      → strcpy_at root_line k (codes "judge.html") ≡ done (pre ++ (codes "/judge.html" ++ 0 ∷ rest))
  unfolding strcpy_at
  strcpy_at-judge k e = rw (judge-fits k e) (
      ap done (
        ap (λ z. overwrite z k (codes "judge.html" ++ 0 ∷ [])) root_line-parts
        ∙ overwrite-append (pre ++ (slash ∷ [])) (0 ∷ (ver ++ 0 ∷ 0 ∷ [])) rest
            (codes "judge.html" ++ 0 ∷ []) k (omega (arith, length-append pre (slash ∷ [])))
            (omega (arith, length-append ver (0 ∷ 0 ∷ [])))
        ∙ append_assoc pre (slash ∷ []) _))

-- `judge.html` fits. For the URL `/` of a line that ended with CR LF, appending the name of the page
-- uses up just the version and the line end: the NUL behind the URL, eight bytes and two NULs. What
-- follows the line in the buffer is not touched, and `m_url` then reads `/judge.html`.
pub parse_request_line-root :
    (before meth ver rest : Bytes) (c : Conn) (m : Method) (is_post : Bool)
    → IsWord meth × NoNul ver
    → parse_method meth ≡ some (m, is_post)
    → strcasecmp_eq ver (codes "HTTP/1.1") ≡ true
    → let u = length before + length meth + 1 in
      let b' = through_method before meth ++ (codes "/judge.html" ++ 0 ∷ rest) in
      (parse_request_line
          (length before)
          (record c { m_read_buf = request_line before meth (slash ∷ []) ver (0 ∷ rest) })
        ≡ reply no_request (record c {
          m_read_buf = b';
          m_url = some u;
          m_version = some (u + 1 + 1);
          m_method = m;
          cgi = if is_post then 1 else c.cgi;
          m_check_state = check_state_header;
        }))
      × (cstr b' u ≡ codes "/judge.html")
unfolding root_line
parse_request_line-root before meth ver rest c m is_post w e f =
    let words : IsWord meth × IsWord (slash ∷ []) × NoNul ver =
      (w.0, (((λ q. omega arith), refl), tt), w.1) in
    let text = cstr-url before meth (slash ∷ []) ver (0 ∷ rest) words in
    let d = split_conn before meth (slash ∷ []) ver (0 ∷ rest) words c m is_post in
    let pre = through_method before meth in
    let u = url_at before meth (slash ∷ []) ver (0 ∷ rest) words in
    let at_url : u ≡ length pre =
      sym (length-through_method before meth (slash ∷ []) ver (0 ∷ rest) words) in
    (
      parse_request_line-split before meth (slash ∷ []) ver (0 ∷ rest) words c m is_post e f
          ∙ parse_url-absolute u [] d text
          ∙ finish_url-root u d _ text (
              strcpy_at-judge pre ver rest (length-strcasecmp ver (codes "HTTP/1.1") f) (u + 1)
                (omega arith)),
      cstr-append pre (codes "/judge.html") rest u (omega arith) at_url,
    )
