-- ===== src/Http/Receive/Tests.antt =====
-- Runs of Http_Conn::read of practice/http/httpConnection.cpp.
use study_record.Common.{
  ℕ, ◌-◌, ◌≡◌, refl, List, [], ◌∷◌, ◌++◌, map, true, false, codes, take, replicate, arith,
}
use study_record.Common.Bytes.{write_at}
use study_record.Http.{Conn, read_buffer_size}
use study_record.Http.Samples.{received}
use study_record.Http.Receive.{got, would_block, returned, read}
use study_record.Http.Receive.Laws.{conn_of, Grown, joined, read_bounds, read_collects, read_full}

-- A connection that has read "GE", with its whole buffer.
abbrev begun : Conn
begun = record (received (codes "GE")) {
  m_read_buf = codes "GE" ++ replicate (read_buffer_size - 2) 0;
}

abbrev pieces : List (List ℕ)
pieces = codes "T " ∷ codes "/" ∷ []

read_bounds_example :
    Grown begun (conn_of (read (got (codes "T ") ∷ got (codes "/") ∷ would_block ∷ []) begun))
read_bounds_example =
    read_bounds (got (codes "T ") ∷ got (codes "/") ∷ would_block ∷ []) begun (omega arith)

read_collects_example :
    (buf : List ℕ) × (read (map got pieces ++ would_block ∷ []) begun
      ≡ returned true (record begun { m_read_buf = buf; m_read_idx = 5 }))
    × (take 5 buf ≡ codes "GE" ++ joined pieces)
read_collects_example = read_collects pieces [] begun (omega arith) refl (omega arith) (omega arith)

-- One byte below the end of the buffer.
abbrev nearly_full : Conn
nearly_full = record begun { m_read_idx = 2047 }

read_full_example :
    read (map got ((7 ∷ []) ∷ []) ++ got (codes "X") ∷ []) nearly_full
    ≡ returned false (record nearly_full {
      m_read_buf = write_at nearly_full.m_read_buf 2047 (7 ∷ []);
      m_read_idx = 2048;
    })
read_full_example = read_full ((7 ∷ []) ∷ []) [] nearly_full (codes "X") (omega arith) refl refl
