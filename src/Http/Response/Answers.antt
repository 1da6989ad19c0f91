-- ===== src/Http/Response/Answers.antt =====
-- What process_write puts into the write buffer, and what it hands to write().
use my_web_server_cmake.Prelude.{
  ℕ, ◌+◌, ◌^◌, ◌%◌, ◌<◌, ◌≡◌, ◌≢◌, ◌⊎◌, inl, inr, arith, refl, ◌∙◌, ap, true, false, [], ◌++◌,
  length, take, ℤ, pos, lt→ltb, ◌==◌,
}
use my_web_server_cmake.Http.Text.{Bytes, codes, to_int}
use my_web_server_cmake.Http.Conn.{
  Conn, write_buff_size, HttpCode, bad_request, forbidden_request, file_request, internal_error,
  in_write_buff, in_file,
}
use my_web_server_cmake.Http.Request.{done}
use my_web_server_cmake.Http.Response.{
  add_content, send_buffer, answer_text, answer_file, process_write, ok_200_title, error_403_title,
  error_403_form, error_404_title, error_404_form, error_500_title, error_500_form,
}
use my_web_server_cmake.Http.Response.Append.{Holds, appended, add_response-Holds}
use my_web_server_cmake.Http.Response.Head.{
  status_line, head, with_status, with_headers, add_status_line-Holds, add_headers-Holds,
  length-headers, length-first_line,
}

-- The whole of a text answer is in the buffer, and one iovec stands for it.
pub record SendsText (response : Bytes) (c d : Conn) : Type 0 where
  pub buffer : take d.m_write_index d.m_write_buff ≡ response
  pub index : d.m_write_index ≡ length response
  pub base : d.iv0.iov_base ≡ in_write_buff (pos 0)
  pub len : d.iv0.iov_len ≡ pos (length response)
  pub one : d.m_iv_count ≡ 1
  pub to_send : d.bytes_to_send ≡ pos (length response)
  pub linger : d.m_linger ≡ c.m_linger

abbrev answer_conn : ℕ → Bytes → Bytes → Conn → Conn
answer_conn status title form c =
    let d = appended form (with_headers (pos (length form)) (with_status status title c)) in
    record d {
      iv0 = record { iov_base = in_write_buff (pos 0); iov_len = pos d.m_write_index };
      m_iv_count = 1;
      bytes_to_send = pos d.m_write_index;
    }

SendsText-of_Holds :
    (s : Bytes) (c d : Conn)
    → Holds s d
    → d.m_linger ≡ c.m_linger
    → SendsText s c (record d {
      iv0 = record { iov_base = in_write_buff (pos 0); iov_len = pos d.m_write_index };
      m_iv_count = 1;
      bytes_to_send = pos d.m_write_index;
    })
SendsText-of_Holds s c d h l = record {
  buffer = ap (λ n. take n d.m_write_buff) h.index ∙ h.text;
  index = h.index;
  base = refl;
  len = ap pos h.index;
  one = refl;
  to_send = ap pos h.index;
  linger = l;
}

answer_text-SendsText :
    (status : ℕ) (title form : Bytes) (c : Conn)
    → Holds [] c
    → length title < 100
    → length form < 100
    → (answer_text status title form c ≡ done (true, answer_conn status title form c))
      × SendsText
          (head status title (pos (length form)) c.m_linger ++ form)
          c
          (answer_conn status title form c)
unfolding answer_text send_buffer add_content
answer_text-SendsText status title form c h small small' =
    let (e1, h1) = add_status_line-Holds status title c h small in
    let short = length-first_line status title small in
    let n : ℤ = pos (length form) in
    let (e2, h2) =
      add_headers-Holds ([] ++ status_line status title) n (with_status status title c) h1 short in
    let (e3, h3) = add_response-Holds _ form (with_headers n (with_status status title c)) h2 (
      omega (
        arith,
        length-headers ([] ++ status_line status title) n (with_status status title c) h1 short,
      )) in
    (rw (e1, e2, e3) refl, SendsText-of_Holds _ c _ h3 refl)

-- The status, title and text for the results that have an error page.
abbrev pub ErrorPage : HttpCode → ℕ → Bytes → Bytes → Type 0
ErrorPage code status title form =
    ((code ≡ internal_error) × (status ≡ 500) × (title ≡ error_500_title) × (form ≡ error_500_form))
    ⊎ ((code ≡ bad_request) × (status ≡ 404) × (title ≡ error_404_title) × (form ≡ error_404_form))
    ⊎ ((code ≡ forbidden_request)
        × (status ≡ 403)
        × (title ≡ error_403_title)
        × (form ≡ error_403_form))

-- An error is answered whole. On a connection with an empty write buffer, process_write for an
-- internal error, a bad request or a forbidden one succeeds. The write buffer then holds exactly the
-- status line, Content-Length with the length of the text, Connection with keep-alive or close as
-- the request asked, the blank line and the text, not cut off; and that is what is to be sent.
pub process_write-ErrorPage :
    (code : HttpCode) (status : ℕ) (title form : Bytes) (c : Conn)
    → Holds [] c
    → ErrorPage code status title form
    → (d : Conn) × (process_write code c ≡ done (true, d))
      × SendsText (head status title (pos (length form)) c.m_linger ++ form) c d
unfolding process_write
process_write-ErrorPage code status title form c h (inl (e, s, t, f)) =
    let (g, sent) =
      answer_text-SendsText 500 error_500_title error_500_form c h (omega arith) (omega arith) in
    rw (e, s, t, f) (answer_conn 500 error_500_title error_500_form c, g, sent)
process_write-ErrorPage code status title form c h (inr (inl (e, s, t, f))) =
    let (g, sent) =
      answer_text-SendsText 404 error_404_title error_404_form c h (omega arith) (omega arith) in
    rw (e, s, t, f) (answer_conn 404 error_404_title error_404_form c, g, sent)
process_write-ErrorPage code status title form c h (inr (inr (e, s, t, f))) =
    let (g, sent) =
      answer_text-SendsText 403 error_403_title error_403_form c h (omega arith) (omega arith) in
    rw (e, s, t, f) (answer_conn 403 error_403_title error_403_form c, g, sent)

-- The head is in the buffer, and two iovecs stand for it and for the mapped file.
pub record SendsFile (h : Bytes) (c d : Conn) : Type 0 where
  pub buffer : take d.m_write_index d.m_write_buff ≡ h
  pub index : d.m_write_index ≡ length h
  pub base0 : d.iv0.iov_base ≡ in_write_buff (pos 0)
  pub len0 : d.iv0.iov_len ≡ pos (length h)
  pub base1 : d.iv1.iov_base ≡ in_file (pos 0)
  pub len1 : d.iv1.iov_len ≡ pos c.m_file_stat.st_size
  pub two : d.m_iv_count ≡ 2
  pub to_send : d.bytes_to_send ≡ pos (length h + c.m_file_stat.st_size)
  pub file : d.m_file_address ≡ c.m_file_address
  pub unsent : d.bytes_have_send ≡ c.bytes_have_send
  pub linger : d.m_linger ≡ c.m_linger
  pub room : length d.m_write_buff ≡ write_buff_size

-- `(int)n` of a number that an `int` holds
to_int-small : (n : ℕ) → n < 2 ^ 31 → to_int (pos n) ≡ pos n
unfolding to_int
to_int-small n h = let e : n % 2 ^ 32 ≡ n = omega arith in rw (e, lt→ltb n (2 ^ 31) h) refl

-- A file is announced with its true size. On a connection with an empty write buffer, for a file
-- that is not empty and stays, with the head, below 2^31 bytes, process_write succeeds: the write
-- buffer holds exactly the head of a 200 answer whose Content-Length is the size of the file, the
-- two iovecs are the head and the whole mapped file, and the bytes to send are both together.
pub process_write-file :
    (c : Conn)
    → Holds [] c
    → c.m_file_stat.st_size ≢ 0
    → c.m_file_stat.st_size + 300 < 2 ^ 31
    → (d : Conn) × (process_write file_request c ≡ done (true, d))
      × SendsFile (head 200 ok_200_title (pos c.m_file_stat.st_size) c.m_linger) c d
unfolding process_write answer_file
process_write-file c h ne small =
    let size = c.m_file_stat.st_size in
    let c1 = with_status 200 ok_200_title c in
    let c2 = with_headers (pos size) c1 in
    let (e1, h1) = add_status_line-Holds 200 ok_200_title c h (omega arith) in
    let short = length-first_line 200 ok_200_title (omega arith) in
    let (e2, h2) = add_headers-Holds _ (pos size) c1 h1 short in
    let fits = length-headers _ (pos size) c1 h1 short in
    let some_size : (size == 0) ≡ false = ground arith in
    (
      record c2 {
        m_iv_count = 2;
        iv0 = record { iov_base = in_write_buff (pos 0); iov_len = pos c2.m_write_index };
        iv1 = record { iov_base = in_file (pos 0); iov_len = pos size };
        bytes_to_send = to_int (pos (c2.m_write_index + size));
      },
      rw (e1, some_size, to_int-small size (omega arith), e2) refl,
      record {
        buffer = ap (λ n. take n c2.m_write_buff) h2.index ∙ h2.text;
        index = h2.index;
        base0 = refl;
        len0 = ap pos h2.index;
        base1 = refl;
        len1 = refl;
        two = refl;
        to_send = ap (λ n. to_int (pos (n + size))) h2.index ∙ to_int-small _ (omega (arith, fits));
        file = refl;
        unsent = refl;
        linger = refl;
        room = h2.size;
      },
    )

-- An empty file is not answered. For a file of size 0 process_write fails, although it has written
-- the 200 head and the text of an empty page: the case runs on into the default one.
pub process_write-empty_file :
    (c : Conn)
    → Holds [] c
    → c.m_file_stat.st_size ≡ 0
    → (d : Conn) × (process_write file_request c ≡ done (false, d))
      × (take d.m_write_index d.m_write_buff
          ≡ head 200 ok_200_title (pos 26) c.m_linger ++ codes "<html><body></body></html>")
unfolding process_write answer_file add_content
process_write-empty_file c h zero_size =
    let empty : (c.m_file_stat.st_size == 0) ≡ true = ground arith in
    let page = codes "<html><body></body></html>" in
    let c1 = with_status 200 ok_200_title c in
    let c2 = with_headers (pos 26) c1 in
    let (e1, h1) = add_status_line-Holds 200 ok_200_title c h (omega arith) in
    let short = length-first_line 200 ok_200_title (omega arith) in
    let (e2, h2) = add_headers-Holds _ (pos 26) c1 h1 short in
    let (e3, h3) =
      add_response-Holds _ page c2 h2 (omega (arith, length-headers _ (pos 26) c1 h1 short)) in
    (
      appended page c2,
      rw (e1, empty, e2, e3) refl,
      ap (λ n. take n (appended page c2).m_write_buff) h3.index ∙ h3.text,
    )
