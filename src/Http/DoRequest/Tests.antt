-- ===== src/Http/DoRequest/Tests.antt =====
-- The theorems on do_request, for a file system in which every file may be read, and a database that
-- takes every name.
use my_web_server_cmake.Prelude.{
  ℕ, ◌≡◌, ◌≢◌, ◌↔◌, refl, arith, false, true, Option, some, none, [], ◌∷◌, ◌++◌, replicate, take,
  ◌==◌, if◌then◌else◌,
}
use my_web_server_cmake.Http.Text.{Bytes, codes, cstr, strrchr, at, overwrite}
use my_web_server_cmake.Http.Conn.{Conn, FileStat, file_request}
use my_web_server_cmake.Http.Request.{done, strcpy_at}
use my_web_server_cmake.Http.ProcessRead.{process_read}
use my_web_server_cmake.Http.ProcessRead.Terminates.{IsReading, EndsWell}
use my_web_server_cmake.Http.DoRequest.{
  Users, Served, doc_root, find, sign_up, sign_in, form_fields, do_request, serve,
}
use my_web_server_cmake.Http.DoRequest.Accounts.{sign_up-sign_in}
use my_web_server_cmake.Http.DoRequest.Form.{form, form_fields-form}
use my_web_server_cmake.Http.DoRequest.Files.{IsServed, do_request-IsServed, serve-EndsWell}
use my_web_server_cmake.Http.DoRequest.Path.{target, do_request-target}
use my_web_server_cmake.Http.Samples.{idle}

abbrev accepts : Option ℕ → Bytes → ℕ
accepts mysql query = 0

abbrev readable : Bytes → Option FileStat
readable path = some (record { st_size = 4; is_dir = false; other_readable = true })

abbrev page : Bytes → ℕ → Option Bytes
page path st_size = if st_size == 0 then none else some (take st_size (codes "page"))

abbrev ann : Bytes
ann = codes "ann"

abbrev pw : Bytes
pw = codes "x1"

abbrev known : Users
known = (ann, pw) ∷ []

sign_up-sign_in_example :
    (users : Users) × (sign_up accepts [] none ann pw ≡ done (codes "/log.html", users))
    × ((other : Bytes) → other ≢ ann → find users other ≡ find [] other)
    × ((given : Bytes) → (sign_in users ann given ≡ codes "/welcome.html") ↔ (given ≡ pw))
unfolding find
sign_up-sign_in_example = sign_up-sign_in accepts [] none ann pw (omega arith) refl

form_fields-form_example : form_fields (7 ∷ form ann pw []) 1 ≡ done (ann, pw)
form_fields-form_example =
    form_fields-form (7 ∷ []) ann pw [] (ground arith, ground arith, ground arith)
      (omega arith, omega arith)

abbrev long_name : Bytes
long_name = replicate 100 97

-- `/a.b`
abbrev asked : Conn
asked = record idle { m_read_buf = codes "/a.b" ++ 0 ∷ []; m_url = some 0 }

asked-last : strrchr asked.m_read_buf 0 47 ≡ some 0
unfolding strrchr
asked-last = refl

asked-digit : at asked.m_read_buf 1 ≡ 97
unfolding at
asked-digit = refl

do_request-target_example :
    (s : Served) × (do_request accepts readable page known asked ≡ done s)
    × (cstr s.conn.m_real_file 0
        ≡ doc_root ++ target (at asked.m_read_buf 1) (cstr asked.m_read_buf 0))
    × (s.users ≡ known)
unfolding at
do_request-target_example =
    do_request-target accepts readable page known 0 0 asked refl refl asked-last refl

abbrev served : Served
served = record {
  code = file_request;
  conn = record asked {
    m_real_file = doc_root ++ (codes "/a.b" ++ replicate 168 0);
    m_file_stat = record { st_size = 4; is_dir = false; other_readable = true };
    m_file_address = some (codes "page");
  };
  users = known;
}

asked-served : do_request accepts readable page known asked ≡ done served
unfolding do_request strcpy_at at strrchr overwrite
asked-served = refl

do_request-IsServed_example : IsServed accepts readable page served.conn
do_request-IsServed_example =
    do_request-IsServed accepts readable page known asked served asked-served refl

-- `/2` as a POST without a body
abbrev no_body : Conn
no_body = record idle { m_read_buf = codes "/2" ++ 0 ∷ []; m_url = some 0; cgi = 1 }

no_body-last : strrchr no_body.m_read_buf 0 47 ≡ some 0
unfolding strrchr
no_body-last = refl

-- A request line and the empty line have been received.
abbrev received : Conn
received = record idle {
  m_read_buf = codes "GET /a HTTP/1.1" ++ 13 ∷ 10 ∷ 13 ∷ 10 ∷ 0 ∷ [];
  m_read_index = 19;
}

received-IsReading : IsReading received
received-IsReading = record { lines = omega arith; checked = omega arith; stored = omega arith }

serve-EndsWell_example : EndsWell 19 (process_read (serve accepts readable page known) received)
serve-EndsWell_example = serve-EndsWell accepts readable page known received received-IsReading
