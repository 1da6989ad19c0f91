-- ===== src/Http/Worker/Received.antt =====
-- http/src/http_conn.cpp, read(): the received bytes before and after it.
use my_web_server_cmake.Prelude.{
  ℕ, ◌+◌, ◌-◌, ◌≤◌, ◌<◌, ◌≡◌, arith, refl, ◌∙◌, ap, sym, true, false, some, List, [], ◌∷◌, ◌++◌,
  length, take, drop, length-append, length-take, append_assoc, append-nil, ◌==◌, leb, take-length,
}
use my_web_server_cmake.Http.Text.{Bytes, overwrite, length-overwrite}
use my_web_server_cmake.Http.Text.Words.{take-append}
use my_web_server_cmake.Http.Conn.{Conn, read_buff_size}
use my_web_server_cmake.Http.Worker.{Recv, arrived, nothing_yet, read_loop, read}

-- `new` has been read behind what `c` had, and nothing else has changed that the parser looks at.
pub record ReadMore (c d : Conn) (new : Bytes) : Type 0 where
  pub index : d.m_read_index ≡ c.m_read_index + length new
  pub size : length d.m_read_buf ≡ length c.m_read_buf
  pub within : d.m_read_index ≤ length d.m_read_buf
  pub stored : take d.m_read_index d.m_read_buf ≡ take c.m_read_index c.m_read_buf ++ new
  pub start : d.m_start_line ≡ c.m_start_line
  pub checked : d.m_check_index ≡ c.m_check_index

abbrev taken : Bytes → Conn → Bytes
taken bytes c = take (read_buff_size - c.m_read_index) bytes

abbrev read_one : Bytes → Conn → Conn
read_one got c = record c {
  m_read_buf = overwrite c.m_read_buf c.m_read_index got;
  m_read_index = c.m_read_index + length got;
}

take-overwritten :
    (b s : Bytes) (i : ℕ) → i ≤ length b → take (i + length s) (overwrite b i s) ≡ take i b ++ s
unfolding overwrite
take-overwritten b s i h =
    ap (take (i + length s)) (sym (append_assoc (take i b) s (drop (i + length s) b)))
    ∙ ap (λ n. take n ((take i b ++ s) ++ drop (i + length s) b))
        (omega (arith, length-append (take i b) s, length-take i b))
    ∙ take-append (take i b ++ s) (drop (i + length s) b)

module _ (c : Conn) (size : length c.m_read_buf ≡ read_buff_size)
    (room : c.m_read_index ≤ read_buff_size) where
  read_one-ReadMore :
      (got : Bytes) → c.m_read_index + length got ≤ read_buff_size → ReadMore c (read_one got c) got
  read_one-ReadMore got fits = record {
    index = refl;
    size = length-overwrite c.m_read_buf c.m_read_index got (omega arith);
    within = omega (arith, length-overwrite c.m_read_buf c.m_read_index got (omega arith));
    stored = take-overwritten c.m_read_buf got c.m_read_index (omega arith);
    start = refl;
    checked = refl;
  }

  read_none-ReadMore : ReadMore c c []
  read_none-ReadMore = record {
    index = omega arith;
    size = refl;
    within = omega arith;
    stored = sym (append-nil (take c.m_read_index c.m_read_buf));
    start = refl;
    checked = refl;
  }

ReadMore-trans :
    (c d e : Conn) (s t : Bytes) → ReadMore c d s → ReadMore d e t → ReadMore c e (s ++ t)
ReadMore-trans c d e s t m n = record {
  index = omega (arith, n.index, m.index, length-append s t);
  size = n.size ∙ m.size;
  within = n.within;
  stored =
      n.stored ∙ ap (λ l. l ++ t) m.stored ∙ append_assoc (take c.m_read_index c.m_read_buf) s t;
  start = n.start ∙ m.start;
  checked = n.checked ∙ m.checked;
}

-- Chunks that fit are taken whole, and put one behind the other.
abbrev pub arrivals : List Bytes → List Recv → List Recv
arrivals [] rest = rest
arrivals (s ∷ chunks) rest = arrived s ∷ arrivals chunks rest

abbrev pub joined : List Bytes → Bytes
joined [] = []
joined (s ∷ chunks) = s ++ joined chunks

abbrev pub NoneEmpty : List Bytes → Type 0
NoneEmpty [] = Unit {0}
NoneEmpty (s ∷ chunks) = (0 < length s) × NoneEmpty chunks

read_loop-arrived :
    (s : Bytes) (rest : List Recv) (c : Conn)
    → 0 < length s
    → c.m_read_index + length s ≤ read_buff_size
    → read_loop (arrived s ∷ rest) c ≡ read_loop rest (read_one s c)
unfolding read_loop
read_loop-arrived s rest c some_bytes fits =
    let all : taken s c ≡ s = take-length (read_buff_size - c.m_read_index) s (omega arith) in
    let more : (length s == 0) ≡ false = ground arith in rw (read_loop, all, more) refl

read_loop-arrivals :
    (chunks : List Bytes) (rest : List Recv) (c : Conn)
    → NoneEmpty chunks
    → length c.m_read_buf ≡ read_buff_size
    → c.m_read_index + length (joined chunks) ≤ read_buff_size
    → (d : Conn) × (read_loop (arrivals chunks (nothing_yet ∷ rest)) c ≡ some (true, d))
      × ReadMore c d (joined chunks)
unfolding read_loop
read_loop-arrivals [] rest c full size fits = (c, refl, read_none-ReadMore c size (omega arith))
read_loop-arrivals (s ∷ chunks) rest c (some_bytes, full) size fits =
    let len = length-append s (joined chunks) in
    let step = read_one-ReadMore c size (omega arith) s (omega (arith, len)) in
    let (d, e, m) =
      read_loop-arrivals chunks rest (read_one s c) full (step.size ∙ size) (omega (arith, len)) in
    (
      d,
      read_loop-arrived s (arrivals chunks (nothing_yet ∷ rest)) c some_bytes (omega (arith, len))
          ∙ e,
      ReadMore-trans c (read_one s c) d s (joined chunks) step m,
    )

-- All that arrives is received. On a connection with room left, when bytes arrive in any chunks that
-- are not empty and that the buffer has room for, and then nothing more is there, read() succeeds: the
-- received bytes are the earlier ones followed by the chunks in order, and the parser's indices are as
-- they were.
pub read-arrivals :
    (chunks : List Bytes) (rest : List Recv) (c : Conn)
    → NoneEmpty chunks
    → length c.m_read_buf ≡ read_buff_size
    → c.m_read_index < read_buff_size
    → c.m_read_index + length (joined chunks) ≤ read_buff_size
    → (d : Conn) × (read (arrivals chunks (nothing_yet ∷ rest)) c ≡ some (true, d))
      × ReadMore c d (joined chunks)
unfolding read
read-arrivals chunks rest c full size room fits =
    let open_room : leb read_buff_size c.m_read_index ≡ false = ground arith in
    let (d, e, m) = read_loop-arrivals chunks rest c full size fits in
    (d, rw (read, open_room) e, m)
