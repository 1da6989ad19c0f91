-- ===== src/Http/DoRequest/Files.antt =====
-- Which file a request leads to, and when it is served.
use my_web_server_cmake.Prelude.{
  if◌then◌else◌, ℕ, ◌+◌, ◌≡◌, ◌≢◌, ◌⊎◌, inl, inr, arith, refl, ◌∙◌, ap, sym, subst, Bool, true,
  false, Option, none, some, length, ◌==◌, ltb,
}
use my_web_server_cmake.Http.Text.{Bytes, at, strrchr, slash, cstr}
use my_web_server_cmake.Http.Conn.{
  Conn, FileStat, HttpCode, no_request, get_request, no_resource, forbidden_request, bad_request,
  file_request, internal_error, closed_connection,
}
use my_web_server_cmake.Http.Request.{Run, done, fault, out_of_fuel, reply, strcpy_at, ◌>>=◌}
use my_web_server_cmake.Http.DoRequest.{
  doc_root, Users, Served, sql_insert, find, sign_up, account, open_file, find_file, do_request_at,
  mapping, map_failed, do_request, serve, is_form, form_fields, answer_form,
}
use my_web_server_cmake.Http.ProcessRead.{process_read}
use my_web_server_cmake.Http.ProcessRead.Terminates.{
  IsReading, IsFinal, EndsWell, process_read-EndsWell,
}
use my_web_server_cmake.Http.DoRequest.Fuel.{
  HasFuel, >>=-HasFuel, if-HasFuel, option-HasFuel, either-HasFuel, strcpy_at-HasFuel,
  form_fields-HasFuel, if-same, bind-fault,
}

module _ (mysql_query : Option ℕ → Bytes → ℕ) (stat : Bytes → Option FileStat)
    (mmap : Bytes → ℕ → Option Bytes) where
  -- A file is served as it was found: it exists, others may read it, and it is no directory. What is
  -- mapped is what mmap() of its size gave, or nothing that can be read if open() or mmap() failed.
  pub record IsServed (d : Conn) : Type 0 where
    pub found : stat (cstr d.m_real_file 0) ≡ some d.m_file_stat
    pub readable : d.m_file_stat.other_readable ≡ true
    pub no_dir : d.m_file_stat.is_dir ≡ false
    pub mapped_file :
        ((bytes : Bytes) × (mmap (cstr d.m_real_file 0) d.m_file_stat.st_size ≡ some bytes)
          × (d.m_file_address ≡ some bytes))
        ⊎ ((mmap (cstr d.m_real_file 0) d.m_file_stat.st_size ≡ none)
            × (d.m_file_address ≡ some map_failed))

  mapping_cases :
      (m : Option Bytes)
      → ((bytes : Bytes) × (m ≡ some bytes) × (mapping m ≡ bytes))
        ⊎ ((m ≡ none) × (mapping m ≡ map_failed))
  unfolding mapping
  mapping_cases none = inr (refl, refl)
  mapping_cases (some bytes) = inl (bytes, refl, refl)

  address :
      {m : Option Bytes} {a : Option Bytes}
      → ((bytes : Bytes) × (m ≡ some bytes) × (mapping m ≡ bytes))
        ⊎ ((m ≡ none) × (mapping m ≡ map_failed))
      → a ≡ some (mapping m)
      → ((bytes : Bytes) × (m ≡ some bytes) × (a ≡ some bytes))
        ⊎ ((m ≡ none) × (a ≡ some map_failed))
  address (inl (bytes, gave, e')) e = inl (bytes, gave, e ∙ ap some e')
  address (inr (failed, e')) e = inr (failed, e ∙ ap some e')

  open_file-mapping :
      (c : Conn)
      → (open_file mysql_query stat mmap c).0 ≡ file_request
      → let d = (open_file mysql_query stat mmap c).1 in
        d.m_file_address ≡ some (mapping (mmap (cstr d.m_real_file 0) d.m_file_stat.st_size))
  unfolding open_file
  open_file-mapping c e = ground (arith, e)

  open_file-IsServed :
      (c : Conn)
      → (open_file mysql_query stat mmap c).0 ≡ file_request
      → IsServed (open_file mysql_query stat mmap c).1
  unfolding open_file
  open_file-IsServed c e = record {
    found = ground (arith, e);
    readable = ground (arith, e);
    no_dir = ground (arith, e);
    mapped_file = address (mapping_cases (mmap _ _)) (open_file-mapping c e);
  }

  open_file-code : (c : Conn) → (open_file mysql_query stat mmap c).0 ≢ no_request
  unfolding open_file
  open_file-code c e = ground (arith, e)

  -- A result that open_file made, of some connection.
  abbrev Opened : Run Served → Type 0
  Opened (done s) = (d : Conn) × ((s.code, s.conn) ≡ open_file mysql_query stat mmap d)
  Opened fault = Unit {0}
  Opened out_of_fuel = ⊥

  find_file-Opened :
      (u p : ℕ) (users : Users) (c : Conn)
      → Opened (done (find_file mysql_query stat mmap u p users c))
  unfolding find_file
  find_file-Opened u p users c = (_, refl)

  bind-Opened :
      (u p : ℕ) (r : Run (Conn × Users))
      → HasFuel r
      → Opened (r >>= λ (c, users). done (find_file mysql_query stat mmap u p users c))
  bind-Opened u p (done (c, users)) h = find_file-Opened u p users c
  bind-Opened u p fault h = tt
  bind-Opened u p out_of_fuel h = h

  answer_form-HasFuel :
      (users : Users) (mysql : Option ℕ) (digit : ℕ) (name password : Bytes)
      → HasFuel (answer_form mysql_query stat mmap users mysql digit (name, password))
  unfolding answer_form sign_up
  answer_form-HasFuel users mysql digit name password =
      if-HasFuel (digit == 51) _ _
        (if-HasFuel (ltb (length (sql_insert name password)) 200) _ _
          (either-HasFuel (find users name) _ _) tt)
        tt

  account-HasFuel :
      (users : Users) (u digit : ℕ) (c : Conn)
      → HasFuel (account mysql_query stat mmap users u digit c)
  unfolding account
  account-HasFuel users u digit c =
      if-HasFuel (ltb (1 + length (cstr c.m_read_buf (u + 2))) 200) _ _
        (option-HasFuel c.m_string _ (λ text.
          >>=-HasFuel (form_fields c.m_read_buf text) _ (form_fields-HasFuel c.m_read_buf text)
            (λ fields.
              >>=-HasFuel (answer_form mysql_query stat mmap users c.mysql digit fields) _
                (answer_form-HasFuel users c.mysql digit fields.0 fields.1)
                (λ r.
                  >>=-HasFuel (strcpy_at c.m_read_buf u r.0) _
                    (strcpy_at-HasFuel c.m_read_buf u r.0) (λ b. tt)))))
        tt

  option-Opened :
      {A : Type 0} (o : Option A) (f : A → Run Served)
      → ((a : A) → Opened (f a))
      → Opened (elim o as (λ x. Run Served) [ none ↦ fault | some a ↦ f a ])
  option-Opened none f k = tt
  option-Opened (some a) f k = k a

  if-Opened : (b : Bool) (x y : Run Served) → Opened x → Opened y → Opened (if b then x else y)
  if-Opened true x y h k = h
  if-Opened false x y h k = k

  do_request_at-Opened :
      (users : Users) (u p : ℕ) (c : Conn)
      → Opened (do_request_at mysql_query stat mmap users u p c)
  unfolding do_request_at
  do_request_at-Opened users u p c =
      if-Opened (is_form mysql_query stat mmap c (at c.m_read_buf (p + 1))) _ _
        (bind-Opened u p (account mysql_query stat mmap users u (at c.m_read_buf (p + 1)) c)
          (account-HasFuel users u (at c.m_read_buf (p + 1)) c))
        (find_file-Opened u p users c)

  strcpy-Opened :
      (r : Run Bytes) (f : Bytes → Run Served)
      → HasFuel r
      → ((b : Bytes) → Opened (f b))
      → Opened (r >>= f)
  strcpy-Opened (done b) f h k = k b
  strcpy-Opened fault f h k = tt
  strcpy-Opened out_of_fuel f h k = h

  do_request-Opened : (users : Users) (c : Conn) → Opened (do_request mysql_query stat mmap users c)
  unfolding do_request
  do_request-Opened users c = option-Opened c.m_url _ (λ u.
      option-Opened (strrchr c.m_read_buf u slash) _ (λ p.
        strcpy-Opened (strcpy_at c.m_real_file 0 doc_root) _
          (strcpy_at-HasFuel c.m_real_file 0 doc_root)
          (λ file. do_request_at-Opened users u p (record c { m_real_file = file }))))

  IsServed-of_Opened :
      (r : Run Served) (s : Served)
      → Opened r
      → r ≡ done s
      → s.code ≡ file_request
      → IsServed s.conn
  IsServed-of_Opened r s o e f =
      let (d, q) = subst Opened e o in
      subst IsServed (sym (ap (λ x. x.1) q)) (open_file-IsServed d (sym (ap (λ x. x.0) q) ∙ f))

  -- Only a file that may be read is served. Where do_request returns FILE_REQUEST, stat has found the
  -- path that `m_real_file` then holds, as readable by others and as no directory, and `m_file_stat` is
  -- what it found. If open() and mmap() of the size found succeed on that path, the mapped bytes are
  -- those that mmap gave; if one of them fails, FILE_REQUEST is returned all the same, with MAP_FAILED
  -- as the address.
  pub do_request-IsServed :
      (users : Users) (c : Conn) (s : Served)
      → do_request mysql_query stat mmap users c ≡ done s
      → s.code ≡ file_request
      → IsServed s.conn
  do_request-IsServed users c s e f =
      IsServed-of_Opened (do_request mysql_query stat mmap users c) s (do_request-Opened users c) e
        f

  IsFinal-code : (code : HttpCode) (c : Conn) → code ≢ no_request → IsFinal (reply code c)
  IsFinal-code no_request c h = h refl
  IsFinal-code get_request c h = tt
  IsFinal-code bad_request c h = tt
  IsFinal-code no_resource c h = tt
  IsFinal-code forbidden_request c h = tt
  IsFinal-code file_request c h = tt
  IsFinal-code internal_error c h = tt
  IsFinal-code closed_connection c h = tt

  Opened-IsFinal : (r : Run Served) → Opened r → IsFinal (r >>= λ s. reply s.code s.conn)
  Opened-IsFinal (done s) (d, q) =
      IsFinal-code s.code s.conn (λ e. open_file-code d (sym (ap (λ x. x.0) q) ∙ e))
  Opened-IsFinal fault h = tt
  Opened-IsFinal out_of_fuel h = h

  serve-IsFinal : (users : Users) (c : Conn) → IsFinal (serve mysql_query stat mmap users c)
  unfolding serve
  serve-IsFinal users c =
      Opened-IsFinal (do_request mysql_query stat mmap users c) (do_request-Opened users c)

  -- The two state machines with the real handler. For any table of users, file system and results of
  -- the database, process_read with do_request behind it ends within its rounds, and where it asks for
  -- more bytes the indices of the connection are in order and no byte was received.
  pub serve-EndsWell :
      (users : Users) (c : Conn)
      → IsReading c
      → EndsWell c.m_read_index (process_read (serve mysql_query stat mmap users) c)
  serve-EndsWell users c reading =
      process_read-EndsWell (serve mysql_query stat mmap users) (serve-IsFinal users) c reading

  account-no_body :
      (users : Users) (u digit : ℕ) (c : Conn)
      → c.m_string ≡ none
      → account mysql_query stat mmap users u digit c ≡ fault
  unfolding account
  account-no_body users u digit c no_body =
      rw (account, no_body) (if-same (ltb (1 + length (cstr c.m_read_buf (u + 2))) 200) fault)

  do_request_at-no_body :
      (users : Users) (u p : ℕ) (c : Conn)
      → (at c.m_read_buf (p + 1) ≡ 50) ⊎ (at c.m_read_buf (p + 1) ≡ 51)
      → c.cgi ≡ 1
      → c.m_string ≡ none
      → do_request_at mysql_query stat mmap users u p c ≡ fault
  unfolding do_request_at
  do_request_at-no_body users u p c digit post no_body =
      let form : is_form mysql_query stat mmap c (at c.m_read_buf (p + 1)) ≡ true =
        ground (arith, post, digit) in
      rw (do_request_at, form, account-no_body users u (at c.m_read_buf (p + 1)) c no_body) refl

  -- A form without a body crashes. A POST whose last component starts with 2 or 3 and that came with no
  -- body has no `m_string`, and do_request reads through it.
  pub do_request-no_body :
      (users : Users) (u p : ℕ) (c : Conn)
      → c.m_url ≡ some u
      → strrchr c.m_read_buf u slash ≡ some p
      → (at c.m_read_buf (p + 1) ≡ 50) ⊎ (at c.m_read_buf (p + 1) ≡ 51)
      → c.cgi ≡ 1
      → c.m_string ≡ none
      → do_request mysql_query stat mmap users c ≡ fault
  unfolding do_request
  do_request-no_body users u p c url last digit post no_body =
      rw (do_request, url, last)
        (bind-fault (strcpy_at c.m_real_file 0 doc_root) _
          (strcpy_at-HasFuel c.m_real_file 0 doc_root)
          (λ file.
            do_request_at-no_body users u p (record c { m_real_file = file }) digit post no_body))
