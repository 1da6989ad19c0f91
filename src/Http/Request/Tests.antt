-- ===== src/Http/Request/Tests.antt =====
-- The theorems on the parser of requests at small requests.
use my_web_server_cmake.Prelude.{◌≡◌, refl, arith, false, some, [], ◌∷◌, pos, negsuc}
use my_web_server_cmake.Http.Text.{Bytes, codes, cstr, slash, strcasecmp_eq}
use my_web_server_cmake.Http.Text.Words.{IsWord, NoNul}
use my_web_server_cmake.Http.Conn.{Conn, get, check_state_header, no_request}
use my_web_server_cmake.Http.Request.{reply, parse_method, parse_request_line}
use my_web_server_cmake.Http.Request.RequestLine.{
  request_line, split_line, parse_request_line-words,
}
use my_web_server_cmake.Http.Samples.{idle}

abbrev meth : Bytes
meth = codes "GET"

abbrev version : Bytes
version = codes "HTTP/1.1"

abbrev path : Bytes
path = 97 ∷ []

meth-IsWord : IsWord meth
meth-IsWord = ground arith

version-NoNul : NoNul version
version-NoNul = ground arith

parse_request_line-words_example :
    (parse_request_line 0
        (record idle { m_read_buf = request_line [] meth (slash ∷ path) version [] })
      ≡ reply no_request (record idle {
        m_read_buf = split_line [] meth (slash ∷ path) version [];
        m_url = some 4;
        m_version = some 7;
        m_check_state = check_state_header;
      }))
    × (cstr (split_line [] meth (slash ∷ path) version []) 4 ≡ slash ∷ path)
unfolding parse_method strcasecmp_eq
parse_request_line-words_example =
    parse_request_line-words [] meth [] version [] 97 idle get false
      (meth-IsWord, ground arith, version-NoNul) refl refl

-- `http://h`
abbrev scheme : Bytes
scheme = codes "http://"

-- The body starts at index 13 of the 16 bytes, and is three bytes long.
abbrev full_body : Conn
full_body = record idle { m_content_length = pos 3; m_check_index = 13; m_read_index = 16 }

-- Content-Length: -14
abbrev negative : Conn
negative = record idle { m_content_length = negsuc 13; m_check_index = 13; m_read_index = 13 }
