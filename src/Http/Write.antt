-- ===== src/Http/Write.antt =====
-- Http_Conn::init(), unmap and write of practice/http/httpConnection.cpp.
pub mod Laws
use study_record.Common.{
  ℕ, zero, suc, ◌+◌, ◌-◌, ◌%◌, ◌^◌, List, [], ◌∷◌, none, Option, some, Bool, true, false, leb, ltb,
  if◌then◌else◌, replicate,
}
use study_record.Common.Int.{ℤ, pos, negsuc, ◌+ℤ◌, ◌-ℤ◌, int_of_bits}
use study_record.Http.{
  read_buffer_size, write_buffer_size, check_state_requestline, get, null, Iovec, Conn,
}

-- `m_real_file` is kept as the string in it, which is empty after memset.
abbrev pub init : Conn → Conn
init c = record c {
  m_check_state = check_state_requestline;
  m_linger = false;
  m_method = get;
  m_url = none;
  m_version = none;
  m_content_length = pos 0;
  m_host = none;
  m_start_line = 0;
  m_checked_idx = 0;
  m_read_idx = 0;
  m_write_idx = 0;
  bytes_to_send = pos 0;
  bytes_have_send = pos 0;
  m_read_buf = replicate read_buffer_size 0;
  m_write_buf = replicate write_buffer_size 0;
  m_real_file = [];
}

-- A null address is left as it is.
abbrev pub unmap : Conn → Conn
unmap c = record c { m_file_address = null }

-- What writev returns: the number of bytes that it took, EAGAIN, or another error.
pub data Sent : Type 0 where
  wrote : ℕ → Sent
  would_block failed : Sent

-- The event that modfd registers.
pub data Interest : Type 0 where
  epollin epollout : Interest

-- How far write has come: it has returned, with the event that it registered if any, or it is about
-- to call writev again.
pub data Progress : Type 0 where
  returned : Bool → Option Interest → Conn → Progress
  running : Conn → Progress

-- An integer as a `size_t`.
abbrev pub to_size : ℤ → ℕ
to_size (pos n) = n
to_size (negsuc n) = 2 ^ 64 - n - 1

abbrev pub sub_size : ℕ → ℕ → ℕ
sub_size a b = (a + 2 ^ 64 - b) % 2 ^ 64

-- `iov_base += dif; iov_len -= dif;`
abbrev pub shift : Iovec → ℤ → Iovec
shift v dif = record { iov_base = v.iov_base +ℤ dif; iov_len = sub_size v.iov_len (to_size dif) }

-- The books after writev has taken `temp` bytes, up to the mark TAG.
unfoldable pub account : Conn → ℕ → Conn
account c temp =
    let left = c.bytes_to_send -ℤ pos temp in
    let have = c.bytes_have_send +ℤ pos temp in
    if leb c.m_iv_file.iov_len (to_size left)
    then record c {
      bytes_to_send = left;
      bytes_have_send = have;
      m_iv_header = record { iov_base = c.m_iv_header.iov_base; iov_len = 0 };
      m_iv_file = shift c.m_iv_file (int_of_bits (sub_size c.m_iv_file.iov_len (to_size left)));
    }
    else record c {
      bytes_to_send = left;
      bytes_have_send = have;
      m_iv_header =
          shift c.m_iv_header
            (int_of_bits (sub_size (c.m_iv_header.iov_len + c.m_iv_file.iov_len) (to_size left)));
    }

abbrev pub nothing_left : ℤ → Bool
nothing_left (pos n) = leb n 0
nothing_left (negsuc n) = true

-- All has been sent.
unfoldable pub finish : Conn → Progress
finish c =
    let c' = unmap c in
    if c'.m_linger
    then if ltb c'.m_checked_idx c'.m_read_idx
      then returned false (some epollin) c'
      else returned true (some epollin) (init c')
    else returned false (some epollin) c'

unfoldable pub write_loop : List Sent → Conn → Progress
write_loop [] c = running c
write_loop (failed ∷ rest) c = returned false none (unmap c)
write_loop (would_block ∷ rest) c = returned true (some epollout) c
write_loop (wrote temp ∷ rest) c =
    let next = write_loop rest (account c temp) in
    if nothing_left (account c temp).bytes_to_send then finish (account c temp) else next

-- `calls` lists what the calls of writev return.
unfoldable pub write : List Sent → Conn → Progress
write calls c = elim c.bytes_to_send [
  | pos n ↦ elim n [ zero ↦ returned true (some epollin) (init c) | suc m ↦ write_loop calls c ]
  | negsuc n ↦ write_loop calls c
]
