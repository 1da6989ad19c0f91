-- ===== src/Http/ProcessRead/Frame.antt =====
-- What the parsers leave alone: the indices of the received bytes, and the size of the buffer.
use my_web_server_cmake.Prelude.{
  ℕ, ◌+◌, ◌≡◌, ◌⊎◌, inl, inr, arith, refl, [], ◌∷◌, length, length-set, set, ◌++◌, length-append,
  Option, none, some, pos, negsuc, ℤ, ◌+ℤ◌, Bool-cases, Option-cases, if◌then◌else◌, ltb, ltb→lt,
}
use my_web_server_cmake.Http.Text.{
  Bytes, codes, cstr, strpbrk_blank, strchr, slash, has_prefix_nocase, overwrite, length-overwrite,
  strcasecmp_eq,
}
use my_web_server_cmake.Http.Conn.{Conn}
use my_web_server_cmake.Http.Request.{
  done, fault, out_of_fuel, Reply, strcpy_at, finish_url, skip_scheme, parse_url, parse_version,
  parse_method, parse_request_line, parse_headers, parse_content, store_nul, ◌>>=◌,
}

-- The fields that a parser of lines must not touch.
pub record Kept (c d : Conn) : Type 0 where
  pub read_index : d.m_read_index ≡ c.m_read_index
  pub check_index : d.m_check_index ≡ c.m_check_index
  pub start_line : d.m_start_line ≡ c.m_start_line
  pub buf_size : length d.m_read_buf ≡ length c.m_read_buf

-- A reply that is not for lack of fuel, and keeps them if it is one.
abbrev pub Keeps : Conn → Reply → Type 0
Keeps c (done (code, d)) = Kept c d
Keeps c fault = Unit {0}
Keeps c out_of_fuel = ⊥

strcpy_at-size :
    (b : Bytes) (i : ℕ) (s : Bytes)
    → (strcpy_at b i s ≡ fault) ⊎ ((d : Bytes) × (strcpy_at b i s ≡ done d) × (length d ≡ length b))
unfolding strcpy_at
strcpy_at-size b i s = elim (Bool-cases (ltb (i + length s) (length b))) [
  | inr out ↦ inl (rw out)
  | inl fits ↦ inr (
    overwrite b i (s ++ 0 ∷ []),
    rw fits,
    length-overwrite b i (s ++ 0 ∷ []) (omega (arith, ltb→lt _ _ fits, length-append s (0 ∷ []))),
  )
]

finish_url-Keeps : (url : Option ℕ) (c : Conn) → Keeps c (finish_url url c)
unfolding finish_url
finish_url-Keeps none c = omega arith
finish_url-Keeps (some u) c =
    ground (arith, strcpy_at-size c.m_read_buf (u + 1) (codes "judge.html"))

Kept-trans : {c d e : Conn} → Kept c d → Kept d e → Kept c e
Kept-trans k l = omega arith

Keeps-trans : {c d : Conn} (r : Reply) → Kept c d → Keeps d r → Keeps c r
Keeps-trans (done (code, e)) k l = Kept-trans k l
Keeps-trans fault k l = tt
Keeps-trans out_of_fuel k l = l

skip_scheme-Keeps :
    (b scheme : Bytes) (url : Option ℕ) (c : Conn) (k : Option ℕ → Reply)
    → ((u : Option ℕ) → Keeps c (k u))
    → Keeps c (skip_scheme b scheme url >>= k)
unfolding skip_scheme
skip_scheme-Keeps b scheme none c k h = tt
skip_scheme-Keeps b scheme (some u) c k h =
    elim (Bool-cases (has_prefix_nocase (cstr b u) scheme)) [
      | inl e ↦ rw e (h (strchr b (u + length scheme) slash))
      | inr e ↦ rw e (h (some u))
    ]

parse_url-Keeps : (u : ℕ) (c : Conn) → Keeps c (parse_url u c)
unfolding parse_url
parse_url-Keeps u c = skip_scheme-Keeps c.m_read_buf (codes "http://") (some u) c _ λ url.
    skip_scheme-Keeps c.m_read_buf (codes "https://") url c _
      λ url'. Keeps-trans _ (omega arith) (finish_url-Keeps url' (record c { m_url = url' }))

parse_version-Keeps : (u : ℕ) (c : Conn) → Keeps c (parse_version u c)
unfolding parse_version
parse_version-Keeps u c = elim (Option-cases (strpbrk_blank c.m_read_buf u)) [
  | inl e ↦ rw (e, parse_version) (omega arith)
  | inr (v, e) ↦
      let c' : Conn = record c { m_read_buf = set c.m_read_buf v 0; m_version = some (v + 1) } in
      rw (e, parse_version)
        (elim (Bool-cases
          (strcasecmp_eq (cstr (set c.m_read_buf v 0) (v + 1)) (codes "HTTP/1.1"))) [
            | inl t ↦ rw t (
                Keeps-trans (parse_url u c') (omega (arith, length-set c.m_read_buf v 0))
                  (parse_url-Keeps u c'))
            | inr t ↦ rw t (omega (arith, length-set c.m_read_buf v 0))
          ])
]

pub parse_request_line-Keeps : (text : ℕ) (c : Conn) → Keeps c (parse_request_line text c)
unfolding parse_request_line
parse_request_line-Keeps text c = elim (Option-cases (strpbrk_blank c.m_read_buf text)) [
  | inl e ↦ rw (e, parse_request_line) (omega arith)
  | inr (u, e) ↦
      let b = set c.m_read_buf u 0 in
      rw (e, parse_request_line)
        (elim (Option-cases (parse_method (cstr b text))) [
          | inl t ↦ rw (t) (omega (arith, length-set c.m_read_buf u 0))
          | inr ((m, is_post), t) ↦
              let c' : Conn = record c {
                m_read_buf = b;
                m_url = some (u + 1);
                m_method = m;
                cgi = if is_post then 1 else c.cgi;
              } in
              rw t (
                Keeps-trans (parse_version (u + 1) c') (omega (arith, length-set c.m_read_buf u 0))
                  (parse_version-Keeps (u + 1) c'))
        ])
]

pub parse_headers-Keeps : (text : ℕ) (c : Conn) → Kept c (parse_headers text c).1
unfolding parse_headers
parse_headers-Keeps text c = ground arith

store_nul-size :
    (b : Bytes) (i : ℤ)
    → (store_nul b i ≡ fault) ⊎ ((d : Bytes) × (store_nul b i ≡ done d) × (length d ≡ length b))
unfolding store_nul
store_nul-size b (pos i) = ground (arith, length-set b i 0)
store_nul-size b (negsuc n) = inl refl

pub parse_content-Keeps : (text : ℕ) (c : Conn) → Keeps c (parse_content text c)
unfolding parse_content
parse_content-Keeps text c =
    ground (arith, store_nul-size c.m_read_buf (pos text +ℤ c.m_content_length))
