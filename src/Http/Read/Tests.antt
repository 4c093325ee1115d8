-- ===== src/Http/Read/Tests.antt =====
-- Headers with a Content-Length, read by process_read of practice/http/httpConnection.cpp.
use study_record.Common.{◌≡◌, refl, true, ◌++◌, all, codes, arith}
use study_record.Common.Run.{fault}
use study_record.Common.Int.{negsuc}
use study_record.Http.{Conn, check_state_header, check_state_content}
use study_record.Http.Line.Laws.{is_plain}
use study_record.Http.Respond.{decimal}
use study_record.Http.Samples.{crlf, received, files}
use study_record.Http.Line.{parse_line}
use study_record.Http.RequestLine.{
  parse_request_line, parse_method, parse_version, parse_url, strip_scheme,
}
use study_record.Common.CString.{
  strpbrk_blank, strspn_blank, strchr, same_nocase, starts_nocase, find_index, count_while,
}
use study_record.Http.Headers.{parse_headers, int_of_atol}
use study_record.Http.Content.{parse_content}
use study_record.Http.Read.{round, process_read_loop, process_read}
use study_record.Http.Read.Crash.{process_read_negative_length}

-- The rest of the headers has been read, and the empty line is next.
abbrev negative : Conn
negative = record (received (codes "body")) {
  m_check_state = check_state_content;
  m_content_length = negsuc 98;
}

process_read_negative_length_example : process_read files negative ≡ fault
process_read_negative_length_example =
    process_read_negative_length files negative 98 refl refl (omega arith) (omega arith)
      (omega arith)

-- The whole request.
negative_request :
    process_read files
      (received (codes "GET / HTTP/1.1" ++ crlf ++ codes "Content-Length: -99" ++ crlf ++ crlf))
    ≡ fault
unfolding process_read process_read_loop round parse_line parse_request_line parse_method
    parse_version parse_url strip_scheme parse_headers int_of_atol parse_content strpbrk_blank
    strspn_blank strchr same_nocase starts_nocase find_index count_while
negative_request = refl

-- A header line of which eight bytes have been checked, with the empty line behind it.
abbrev length_header : Conn
length_header = record (received (codes "Content-Length: 42" ++ crlf ++ crlf)) {
  m_check_state = check_state_header;
  m_checked_idx = 8;
}

length_header_read : all is_plain (codes "Content-Length:" ++ (codes " " ++ decimal 42)) ≡ true
unfolding decimal
length_header_read = refl
