-- ===== src/Http/Headers/Tests.antt =====
-- Header lines read by parse_headers of practice/http/httpConnection.cpp.
use study_record.Common.{◌≡◌, refl, ◌++◌, [], ◌∷◌, codes, arith}
use study_record.Common.Int.{pos}
use study_record.Common.CString.{same_nocase}
use study_record.Http.{no_request, Conn}
use study_record.Http.Samples.{received}
use study_record.Http.Respond.{decimal}
use study_record.Http.Headers.{parse_headers}
use study_record.Http.Headers.Laws.{IsHeader, parse_headers_content_length}

abbrev length_line : Conn
length_line = received (codes "content-length: 42" ++ 0 ∷ [])

length_line-IsHeader :
    IsHeader length_line.m_read_buf 0
      (codes "Content-Length:")
      (codes "content-length:")
      (codes " ")
      (decimal 42)
unfolding same_nocase decimal
length_line-IsHeader = record { shape = refl; same = refl; blank = refl; start = refl }

parse_headers_content_length_example :
    parse_headers length_line 0 ≡ (no_request, record length_line { m_content_length = pos 42 })
parse_headers_content_length_example =
    parse_headers_content_length length_line 0 42 (codes "content-length:") (codes " ")
      length_line-IsHeader (omega arith)

abbrev connection_line : Conn
connection_line = received (codes "Connection:  Keep-Alive" ++ 0 ∷ [])

connection_line-IsHeader :
    IsHeader connection_line.m_read_buf 0
      (codes "Connection:")
      (codes "Connection:")
      (codes "  ")
      (codes "Keep-Alive")
unfolding same_nocase
connection_line-IsHeader = record { shape = refl; same = refl; blank = refl; start = refl }

abbrev host_line : Conn
host_line = received (codes "Host: a.b" ++ 0 ∷ [])

host_line-IsHeader :
    IsHeader host_line.m_read_buf 0 (codes "Host:") (codes "Host:") (codes " ") (codes "a.b")
unfolding same_nocase
host_line-IsHeader = record { shape = refl; same = refl; blank = refl; start = refl }
