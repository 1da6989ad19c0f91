-- ===== src/Http/Response/Tests.antt =====
-- The theorems on process_write at an idle connection.
use my_web_server_cmake.Prelude.{
  ℕ, ◌≡◌, refl, arith, true, false, inl, inr, [], ◌++◌, length, length-replicate, pos,
}
use my_web_server_cmake.Http.Conn.{Conn, bad_request, file_request}
use my_web_server_cmake.Http.Request.{done}
use my_web_server_cmake.Http.Response.{process_write, error_404_title, error_404_form, ok_200_title}
use my_web_server_cmake.Http.Response.Append.{Holds}
use my_web_server_cmake.Http.Response.Answers.{
  SendsText, SendsFile, process_write-ErrorPage, process_write-file,
}
use my_web_server_cmake.Http.Response.Head.{head}
use my_web_server_cmake.Http.Samples.{idle}

idle-Holds : Holds [] idle
idle-Holds = record { size = length-replicate {A = ℕ} 1024 0; index = refl; text = refl }

process_write-ErrorPage_example :
    (d : Conn) × (process_write bad_request idle ≡ done (true, d))
    × SendsText
        (head 404 error_404_title (pos (length error_404_form)) false ++ error_404_form)
        idle
        d
process_write-ErrorPage_example =
    process_write-ErrorPage bad_request 404 error_404_title error_404_form idle idle-Holds
      (inr (inl (refl, refl, refl, refl)))

process_write-file_example :
    (d : Conn) × (process_write file_request idle ≡ done (true, d))
    × SendsFile (head 200 ok_200_title (pos 3) false) idle d
process_write-file_example = process_write-file idle idle-Holds (λ e. omega arith) (omega arith)

abbrev empty_file : Conn
empty_file = record idle {
  m_file_stat = record { st_size = 0; is_dir = false; other_readable = true };
}

empty_file-Holds : Holds [] empty_file
empty_file-Holds = record { size = length-replicate {A = ℕ} 1024 0; index = refl; text = refl }
