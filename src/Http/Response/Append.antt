-- ===== src/Http/Response/Append.antt =====
-- The write buffer as the text that has been added to it.
use my_web_server_cmake.Prelude.{
  ℕ, ◌+◌, ◌-◌, ◌<◌, ◌≡◌, arith, ◌∙◌, ap, ap₂, sym, true, [], ◌∷◌, ◌++◌, length, take, length-append,
  take-length, append_assoc, drop,
}
use my_web_server_cmake.Http.Text.{Bytes, overwrite, length-overwrite}
use my_web_server_cmake.Http.Text.Words.{take-append}
use my_web_server_cmake.Http.Conn.{Conn, write_buff_size}
use my_web_server_cmake.Http.Request.{done}
use my_web_server_cmake.Http.Response.{add_response, vsnprintf}

-- The response written so far is `s`.
pub record Holds (s : Bytes) (c : Conn) : Type 0 where
  pub size : length c.m_write_buff ≡ write_buff_size
  pub index : c.m_write_index ≡ length s
  pub text : take (length s) c.m_write_buff ≡ s

-- The connection after a text that fits.
abbrev pub appended : Bytes → Conn → Conn
appended t c = record c {
  m_write_buff = overwrite c.m_write_buff c.m_write_index (t ++ 0 ∷ []);
  m_write_index = c.m_write_index + length t;
}

take-overwrite :
    (b s t rest : Bytes)
    → take (length s) b ≡ s
    → take (length s + length t) (overwrite b (length s) (t ++ rest)) ≡ s ++ t
unfolding overwrite
take-overwrite b s t rest e =
    ap (λ z. take (length s + length t) (z ++ (t ++ rest ++ behind))) e
    ∙ ap (take (length s + length t))
        (ap (◌++◌ s) (append_assoc t rest behind) ∙ sym (append_assoc s t _))
    ∙ ap (λ n. take n (s ++ t ++ (rest ++ behind))) (sym (length-append s t))
    ∙ take-append (s ++ t) (rest ++ behind)
  where
    behind : Bytes
    behind = drop (length s + length (t ++ rest)) b

appended-Holds :
    (s t : Bytes) (c : Conn)
    → Holds s c
    → length s + length t < 1023
    → Holds (s ++ t) (appended t c)
appended-Holds s t c h fits = record {
  size =
      length-overwrite c.m_write_buff c.m_write_index (t ++ 0 ∷ [])
        (omega (arith, length-append t (0 ∷ [])))
      ∙ h.size;
  index = omega (arith, length-append s t);
  text =
      ap₂ (λ n i. take n (overwrite c.m_write_buff i (t ++ 0 ∷ []))) (length-append s t) h.index
      ∙ take-overwrite c.m_write_buff s t (0 ∷ []) h.text;
}

vsnprintf-fits :
    (room : ℕ) (t : Bytes) (c : Conn)
    → length t < room
    → vsnprintf room t c
      ≡ record c { m_write_buff = overwrite c.m_write_buff c.m_write_index (t ++ 0 ∷ []) }
unfolding vsnprintf
vsnprintf-fits room t c h = ground (arith, take-length (room - 1) t (omega arith))

-- A text that leaves room for two more bytes is added whole.
pub add_response-fits :
    (t : Bytes) (c : Conn)
    → c.m_write_index + length t < 1023
    → add_response t c ≡ done (true, appended t c)
unfolding add_response
add_response-fits t c fits =
    ground (arith, vsnprintf-fits (write_buff_size - c.m_write_index - 1) t c (omega arith))

pub add_response-Holds :
    (s t : Bytes) (c : Conn)
    → Holds s c
    → length s + length t < 1023
    → (add_response t c ≡ done (true, appended t c)) × Holds (s ++ t) (appended t c)
add_response-Holds s t c h fits = (add_response-fits t c (omega arith), appended-Holds s t c h fits)
