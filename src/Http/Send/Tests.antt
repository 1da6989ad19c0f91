-- ===== src/Http/Send/Tests.antt =====
-- The theorems on write() at an answer with a head of three bytes and a file of two.
use my_web_server_cmake.Prelude.{◌≡◌, refl, arith, false, inl, inr, some, [], ◌∷◌, pos}
use my_web_server_cmake.Http.Text.{Bytes, codes}
use my_web_server_cmake.Http.Conn.{Conn, in_write_buff, in_file}
use my_web_server_cmake.Http.Send.{wrote, eagain, fault, write}
use my_web_server_cmake.Http.Send.Position.{Sending}
use my_web_server_cmake.Http.Send.Progress.{Ends, answered, write-Ends, write-finishes}
use my_web_server_cmake.Http.Send.Torn.{write-torn_head}
use my_web_server_cmake.Http.Samples.{idle}

abbrev head : Bytes
head = codes "abc"

abbrev file : Bytes
file = codes "de"

abbrev answer : Conn
answer = record idle {
  m_write_buff = codes "abc..";
  m_write_index = 3;
  m_file_address = some file;
  iv0 = record { iov_base = in_write_buff (pos 0); iov_len = pos 3 };
  iv1 = record { iov_base = in_file (pos 0); iov_len = pos 2 };
  m_iv_count = 2;
  bytes_to_send = pos 5;
  bytes_have_send = pos 0;
}

answer-Sending : Sending head file 0 answer
answer-Sending = record {
  within = omega arith;
  room = omega arith;
  index = refl;
  buffer = refl;
  file = refl;
  two = refl;
  have = refl;
  left = refl;
  iovecs = inl (omega arith, refl, refl, refl, refl);
}

write-Ends_example :
    Ends head file 0 answer (wrote 2 ∷ eagain ∷ []) (write (wrote 2 ∷ eagain ∷ []) answer [])
write-Ends_example =
    write-Ends head file (wrote 2 ∷ eagain ∷ []) 0 answer answer-Sending (omega arith)
      (ground arith)

write-finishes_example :
    (d : Conn) × (d.m_file_address ≡ some file)
    × (d.m_linger ≡ false)
    × (write (wrote 2 ∷ wrote 3 ∷ []) answer [] ≡ answered head file d)
write-finishes_example =
    write-finishes head file (wrote 2 ∷ wrote 3 ∷ []) 0 answer answer-Sending (omega arith)
      (inr (omega arith, (λ a b. omega arith), inl refl))

-- A head of five bytes, in pieces of three, one and one.
abbrev long_answer : Conn
long_answer = record answer {
  m_write_buff = codes "abcde";
  m_write_index = 5;
  iv0 = record { iov_base = in_write_buff (pos 0); iov_len = pos 5 };
  bytes_to_send = pos 7;
}

long_answer-Sending : Sending (codes "abcde") file 0 long_answer
long_answer-Sending = record {
  within = omega arith;
  room = omega arith;
  index = refl;
  buffer = refl;
  file = refl;
  two = refl;
  have = refl;
  left = refl;
  iovecs = inl (omega arith, refl, refl, refl, refl);
}

write-torn_head_example : write (wrote 3 ∷ wrote 1 ∷ wrote 1 ∷ []) long_answer [] ≡ fault
write-torn_head_example =
    write-torn_head (codes "abcde") file 3 1 1 [] long_answer long_answer-Sending (omega arith)
      (omega arith)
