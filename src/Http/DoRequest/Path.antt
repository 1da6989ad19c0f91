-- ===== src/Http/DoRequest/Path.antt =====
-- The path that do_request looks up.
use mathlib.Core.Bool.{true≢false}
use my_web_server_cmake.Prelude.{
  ℕ, zero, suc, ◌+◌, ◌≤◌, ◌≡◌, ◌⊎◌, inl, inr, arith, refl, ◌∙◌, ap, sym, subst, false, Option, none,
  some, List, if◌then◌else◌, [], ◌∷◌, ◌++◌, length, take, drop, replicate, ◌==◌, ==_iff,
  length-take, length-replicate, length-append, Option-cases, Bool-cases,
}
use my_web_server_cmake.Http.Text.{Bytes, codes, at, until_nul, strrchr, slash, cstr, overwrite}
use my_web_server_cmake.Http.Text.Words.{NoNul, cstr-append, All-append}
use my_web_server_cmake.Http.Conn.{Conn, FileStat, real_file_size}
use my_web_server_cmake.Http.Request.{Run, done, fault, strcpy_at, ◌>>=◌}
use my_web_server_cmake.Http.DoRequest.{
  doc_root, Users, Served, strncpy_at, page_of, real_file, open_file, find_file, do_request_at,
  do_request, is_form,
}

-- `m_real_file` as init() and then strcpy leave it.
abbrev pub rooted : Bytes
rooted = doc_root ++ replicate 172 0

-- The pages with their digits.
abbrev pub pages : List (ℕ × Bytes)
pages =
    (48, codes "/register.html")
    ∷ (49, codes "/log.html")
    ∷ (53, codes "/picture.html")
    ∷ (54, codes "/video.html")
    ∷ (55, codes "/fans.html")
    ∷ []

abbrev pub entry : ℕ → List (ℕ × Bytes) → Option Bytes
entry x [] = none
entry x ((y, page) ∷ rest) = if x == y then some page else entry x rest

-- What stands behind the root: the page in the list, or the URL, cut to 171 bytes.
abbrev pub target : ℕ → Bytes → Bytes
target x url = elim (entry x pages) [ some page ↦ page | none ↦ take 171 url ]

page_of-entry : (x : ℕ) → page_of x ≡ entry x pages
unfolding page_of
page_of-entry x = refl

padded :
    (n m : ℕ) (url : Bytes)
    → n ≤ m
    → (t : Bytes) × (take n (url ++ replicate m 0) ++ 0 ∷ [] ≡ take n url ++ 0 ∷ t)
padded zero m url h = ([], refl)
padded (suc n) zero url h = absurd (omega arith)
padded (suc n) (suc m) [] h = (take n (replicate m 0) ++ 0 ∷ [], refl)
padded (suc n) (suc m) (x ∷ url) h =
    let (t, e) = padded n (suc m) url (omega arith) in (t, ap (◌∷◌ x) e)

take-NoNul : (n : ℕ) (s : Bytes) → NoNul s → NoNul (take n s)
take-NoNul zero s h = tt
take-NoNul (suc n) [] h = tt
take-NoNul (suc n) (x ∷ s) h = (h.0, take-NoNul n s h.1)

until_nul-All : (s : Bytes) → NoNul (until_nul s)
unfolding until_nul
until_nul-All [] = tt
until_nul-All (x ∷ s) = elim (Bool-cases (x == 0)) [
  | inl e ↦ rw e tt
  | inr e ↦ rw e ((λ z. absurd (true≢false (sym ((==_iff x 0).1 z) ∙ e))), until_nul-All s)
]

doc_root-NoNul : NoNul doc_root
doc_root-NoNul = ground arith

filled : Bytes → Bytes
filled url = take 171 (url ++ replicate 171 0)

length-filled : (url : Bytes) → length (filled url) ≡ 171
unfolding filled
length-filled url = omega (
  arith,
  length-take 171 (url ++ replicate 171 0),
  length-append url (replicate 171 0),
  length-replicate {A = ℕ} 171 0,
)

real_file-filled :
    (x : ℕ) (url : Bytes)
    → page_of x ≡ none
    → real_file rooted x url ≡ doc_root ++ (filled url ++ 0 ∷ [])
unfolding strncpy_at overwrite filled real_file
real_file-filled x url e =
    rw (real_file, e)
      (ap (λ n. doc_root ++ (take 171 (url ++ replicate 171 0) ++ drop (28 + n) rooted))
        (length-filled url))

cstr-NoNul : (b : Bytes) (i : ℕ) → NoNul (cstr b i)
unfolding cstr
cstr-NoNul b i = until_nul-All (drop i b)

strcpy_at-rooted :
    (file : Bytes) → file ≡ replicate real_file_size 0 → strcpy_at file 0 doc_root ≡ done rooted
unfolding strcpy_at overwrite
strcpy_at-rooted file fresh = rw fresh refl

real_file-url :
    (x : ℕ) (url : Bytes)
    → NoNul url
    → page_of x ≡ none
    → cstr (real_file rooted x url) 0 ≡ doc_root ++ take 171 url
unfolding filled
real_file-url x url plain e =
    let (t, pad) = padded 171 171 url (omega arith) in
    let whole : doc_root ++ (filled url ++ 0 ∷ []) ≡ [] ++ ((doc_root ++ take 171 url) ++ 0 ∷ t) =
      ap (◌++◌ doc_root) pad in
    ap (λ b. cstr b 0) (real_file-filled x url e ∙ whole)
    ∙ cstr-append [] (doc_root ++ take 171 url) t 0
        (All-append _ doc_root (take 171 url) doc_root-NoNul (take-NoNul 171 url plain)) refl

abbrev Written : Bytes → Type 0
Written page = cstr (strncpy_at rooted 28 page (length page)) 0 ≡ doc_root ++ page

page_of-Written : (x : ℕ) (page : Bytes) → page_of x ≡ some page → Written page
unfolding page_of cstr strncpy_at overwrite
page_of-Written x page e = elim cases [
  | inl h ↦ subst Written (sym h) register
  | inr (inl h) ↦ subst Written (sym h) log
  | inr (inr (inl h)) ↦ subst Written (sym h) picture
  | inr (inr (inr (inl h))) ↦ subst Written (sym h) video
  | inr (inr (inr (inr h))) ↦ subst Written (sym h) fans
]
  where
    cases :
        (page ≡ codes "/register.html")
        ⊎ (page ≡ codes "/log.html")
        ⊎ (page ≡ codes "/picture.html")
        ⊎ (page ≡ codes "/video.html")
        ⊎ (page ≡ codes "/fans.html")
    cases = ground (arith, e)

    register : Written (codes "/register.html")
    register = refl

    log : Written (codes "/log.html")
    log = refl

    picture : Written (codes "/picture.html")
    picture = refl

    video : Written (codes "/video.html")
    video = refl

    fans : Written (codes "/fans.html")
    fans = refl

real_file-page :
    (x : ℕ) (url page : Bytes)
    → page_of x ≡ some page
    → cstr (real_file rooted x url) 0 ≡ doc_root ++ page
unfolding real_file
real_file-page x url page e = rw (real_file, e) (page_of-Written x page e)

real_file-target :
    (x : ℕ) (url : Bytes) → NoNul url → cstr (real_file rooted x url) 0 ≡ doc_root ++ target x url
real_file-target x url plain = elim (Option-cases (page_of x)) [
  | inl e ↦ rw (target, sym (page_of-entry x), e) (real_file-url x url plain e)
  | inr (page, e) ↦ rw (target, sym (page_of-entry x), e) (real_file-page x url page e)
]

elim-some :
    {A B : Type 0} (o : Option A) (a : A) (f : A → Run B)
    → o ≡ some a
    → (elim o as (λ x. Run B) [ none ↦ fault | some x ↦ f x ]) ≡ f a
elim-some {A} {B} o a f e = ap (λ o'. elim o' as (λ x. Run B) [ none ↦ fault | some x ↦ f x ]) e

module _ (mysql_query : Option ℕ → Bytes → ℕ) (stat : Bytes → Option FileStat)
    (mmap : Bytes → ℕ → Option Bytes) where
  open_file-real_file :
      (c : Conn) → (open_file mysql_query stat mmap c).1.m_real_file ≡ c.m_real_file
  unfolding open_file
  open_file-real_file c = ground arith

  find_file-target :
      (u p : ℕ) (users : Users) (c : Conn)
      → c.m_real_file ≡ rooted
      → (cstr (find_file mysql_query stat mmap u p users c).conn.m_real_file 0
          ≡ doc_root ++ target (at c.m_read_buf (p + 1)) (cstr c.m_read_buf u))
        × ((find_file mysql_query stat mmap u p users c).users ≡ users)
  unfolding find_file
  find_file-target u p users c start =
      let x = at c.m_read_buf (p + 1) in
      let url = cstr c.m_read_buf u in
      let path = ap (λ f. real_file f x url) start in
      let kept = open_file-real_file (record c { m_real_file = real_file c.m_real_file x url }) in
      (ap (λ f. cstr f 0) (kept ∙ path) ∙ real_file-target x url (cstr-NoNul c.m_read_buf u), refl)

  do_request_at-plain :
      (u p : ℕ) (users : Users) (c : Conn)
      → is_form mysql_query stat mmap c (at c.m_read_buf (p + 1)) ≡ false
      → do_request_at mysql_query stat mmap users u p c
        ≡ done (find_file mysql_query stat mmap u p users c)
  unfolding do_request_at
  do_request_at-plain u p users c no_form = rw (do_request_at, no_form) refl

  -- A request leads to its file. For a request that is no form, on a connection as init() made it,
  -- do_request ends, and the path that it looks up is the document root followed by the page that the
  -- first byte of the last component stands for in the list `pages`, or else by the URL itself, cut to
  -- 171 bytes; the table of users is left as it is.
  pub do_request-target :
      (users : Users) (u p : ℕ) (c : Conn)
      → c.m_real_file ≡ replicate real_file_size 0
      → c.m_url ≡ some u
      → strrchr c.m_read_buf u slash ≡ some p
      → is_form mysql_query stat mmap c (at c.m_read_buf (p + 1)) ≡ false
      → (s : Served) × (do_request mysql_query stat mmap users c ≡ done s)
        × (cstr s.conn.m_real_file 0
            ≡ doc_root ++ target (at c.m_read_buf (p + 1)) (cstr c.m_read_buf u))
        × (s.users ≡ users)
  unfolding do_request
  do_request-target users u p c fresh url last no_form =
      let d : Conn = record c { m_real_file = rooted } in
      let (path, kept) = find_file-target u p users d refl in
      (
        find_file mysql_query stat mmap u p users d,
        elim-some c.m_url u _ url
            ∙ elim-some (strrchr c.m_read_buf u slash) p _ last
            ∙ ap
                (λ r. r >>= λ file.
                  do_request_at mysql_query stat mmap users u p (record c { m_real_file = file }))
                (strcpy_at-rooted c.m_real_file fresh)
            ∙ do_request_at-plain u p users d no_form,
        path,
        kept,
      )
