-- ===== src/Http/Line/Tests.antt =====
-- The theorems on parse_line at `GET / HTTP/1.1`, CR LF, in one and in two pieces.
use my_web_server_cmake.Prelude.{◌≡◌, refl, arith, [], ◌∷◌, ◌++◌}
use my_web_server_cmake.Http.Text.{Bytes, codes, cr, lf, at, overwrite}
use my_web_server_cmake.Http.Line.{parse_line}
use my_web_server_cmake.Http.Line.Resume.{parse_line-resume}

abbrev line : Bytes
line = codes "GET /"

abbrev whole : Bytes
whole = line ++ cr ∷ lf ∷ []

-- Only the CR has come.
abbrev early : Bytes
early = line ++ cr ∷ 0 ∷ []

abbrev torn : Bytes
torn = codes "a" ++ lf ∷ codes "b"

parse_line-resume_example :
    parse_line
      (overwrite (parse_line early 6 0).buf 6 (lf ∷ []))
      7
      (parse_line early 6 0).check_index
    ≡ parse_line whole 7 0
unfolding parse_line at overwrite
parse_line-resume_example = parse_line-resume early (lf ∷ []) 6 0 (omega arith) (omega arith) refl
