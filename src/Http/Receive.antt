-- ===== src/Http/Receive.antt =====
-- Http_Conn::read of practice/http/httpConnection.cpp: the bytes that have come go into the buffer.
pub mod Laws
mod Tests
use study_record.Common.{
  ℕ, ◌+◌, ◌-◌, List, [], ◌∷◌, Bool, true, false, leb, if◌then◌else◌, length, take,
}
use study_record.Common.Bytes.{write_at}
use study_record.Http.{read_buffer_size, Conn}

-- What a call of recv finds: bytes that wait for it (none when the peer has closed the connection),
-- of which it stores as many as it is asked for; EAGAIN; or another error.
pub data Received : Type 0 where
  got : List ℕ → Received
  would_block failed : Received

-- How far read has come: it has returned, or it is about to call recv again.
pub data Reading : Type 0 where
  returned : Bool → Conn → Reading
  running : Conn → Reading

-- The loop behind a call of recv that has stored `s`.
unfoldable pub store : (Conn → Reading) → List ℕ → Conn → Reading
store next [] c = returned false c
store next (x ∷ s) c =
    let buf = write_at c.m_read_buf c.m_read_idx (x ∷ s) in
    next (record c { m_read_buf = buf; m_read_idx = c.m_read_idx + length (x ∷ s) })

unfoldable pub read_loop : List Received → Conn → Reading
read_loop [] c = running c
read_loop (would_block ∷ rest) c = returned true c
read_loop (failed ∷ rest) c = returned false c
read_loop (got s ∷ rest) c = store (read_loop rest) (take (read_buffer_size - c.m_read_idx) s) c

-- `calls` lists what the calls of recv find.
unfoldable pub read : List Received → Conn → Reading
read calls c = if leb read_buffer_size c.m_read_idx then returned false c else read_loop calls c
