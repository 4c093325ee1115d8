-- ===== src/Http/Tests.antt =====
-- Tests of the request parser, and its theorems at sample connections.
use study_record.Common.{
  zero, suc, ℕ, ◌≤◌, ◌<◌, ◌≡◌, ◌≢◌, refl, List, [], ◌∷◌, ◌++◌, some, true, codes, length, drop,
  replicate, arith,
}
use study_record.Common.Run.{Run, ok, fault, out_of_fuel, Ends, ◌>>=◌}
use study_record.Common.Int.{pos, negsuc}
use study_record.Common.CString.{
  text_at, strpbrk_blank, strspn_blank, strchr, same_nocase, starts_nocase, find_index, count_while,
}
use study_record.Http.{HttpCode, no_request, file_request, line_ok, check_state_content, Conn}
use study_record.Http.Samples.{received, files, get_home, crlf}
use study_record.Http.Line.{parse_line}
use study_record.Http.Line.Laws.{Extends, NoLineEnd}
use study_record.Http.Line.Complete.{parse_line_bounds, parse_line-resume, parse_line_complete}
use study_record.Http.RequestLine.{
  strip_scheme, parse_url, parse_version, parse_method, parse_request_line,
}
use study_record.Http.RequestLine.Laws.{no_blank, IsWords}
use study_record.Http.RequestLine.Url.{
  IsAccepted, parse_request_line_path, parse_request_line_no_path,
}
use study_record.Http.Headers.{int_of_atol, parse_headers}
use study_record.Http.Content.{parse_content, do_request}
use study_record.Http.Read.{round, process_read_loop, process_read}
use study_record.Http.Read.Ends.{Within, process_read_ends}
use study_record.Http.Read.Stuck.{process_read_content_split, process_read_bad_line}

abbrev outcome : Run (HttpCode × Conn) → Run (HttpCode × List ℕ)
outcome r = r >>= λ (code, c). ok (code, c.m_real_file)

get_home_served :
    outcome (process_read files (received get_home)) ≡ ok (file_request, codes "./home.html")
unfolding process_read process_read_loop round parse_line parse_request_line parse_method
    parse_version parse_url strip_scheme parse_headers int_of_atol parse_content do_request
    strpbrk_blank strspn_blank strchr same_nocase starts_nocase find_index count_while
get_home_served = refl

atol_values :
    (int_of_atol (codes " 42 ") ≡ pos 42)
    × (int_of_atol (codes "-5") ≡ negsuc 4)
    × (int_of_atol (codes "x") ≡ pos 0)
unfolding int_of_atol
atol_values = (refl, refl, refl)

abbrev line_conn : Conn
line_conn = received (codes "ab" ++ crlf ++ codes "c")

parse_line_bounds_example :
    (0 ≤ (parse_line line_conn).1.m_checked_idx)
    × ((parse_line line_conn).1.m_checked_idx ≤ 5)
    × (length (parse_line line_conn).1.m_read_buf ≡ 13)
    × ((parse_line line_conn).0 ≡ line_ok → 0 < (parse_line line_conn).1.m_checked_idx)
parse_line_bounds_example = parse_line_bounds line_conn (omega arith)

-- Only "ab\r" has come.
abbrev partial_conn : Conn
partial_conn = record line_conn { m_read_idx = 3 }

-- What the buffer holds when "xyz" has come behind it.
abbrev later_buf : List ℕ
later_buf = codes "ab" ++ 13 ∷ codes "xyz" ++ replicate 7 0

later_buf-Extends : Extends partial_conn.m_read_buf later_buf 3
later_buf-Extends zero h = refl
later_buf-Extends (suc zero) h = refl
later_buf-Extends (suc (suc zero)) h = refl
later_buf-Extends (suc (suc (suc i))) h = absurd (omega arith)

parse_line-resume_example :
    parse_line (record (parse_line partial_conn).1 { m_read_buf = later_buf; m_read_idx = 6 })
    ≡ parse_line (record partial_conn { m_read_buf = later_buf; m_read_idx = 6 })
unfolding parse_line
parse_line-resume_example =
    parse_line-resume partial_conn later_buf 6 (omega arith) (omega arith) later_buf-Extends refl

parse_line_complete_example :
    ((parse_line line_conn).0 ≡ line_ok)
    × (text_at (parse_line line_conn).1.m_read_buf 0 ≡ codes "ab")
    × ((parse_line line_conn).1.m_checked_idx ≡ 4)
    × (drop (parse_line line_conn).1.m_checked_idx (parse_line line_conn).1.m_read_buf
        ≡ codes "c" ++ replicate 8 0)
parse_line_complete_example =
    parse_line_complete line_conn (codes "ab") (codes "c" ++ replicate 8 0) refl refl (omega arith)
      (omega arith) (omega arith)

abbrev words : List ℕ → List ℕ → Conn
words method url = received (method ++ 32 ∷ (url ++ 32 ∷ codes "HTTP/1.1"))

spaced :
    (method url : List ℕ) {line : List ℕ}
    → line ≡ method ++ 32 ∷ (url ++ 32 ∷ codes "HTTP/1.1")
    → no_blank method ≡ true
    → no_blank url ≡ true
    → url ≢ []
    → IsWords line method url (codes "HTTP/1.1")
spaced method url e p q r = record {
  sep = 32;
  gap = [];
  sep' = 32;
  gap' = [];
  shape = e;
  method_word = p;
  sep_blank = refl;
  gap_blank = refl;
  url_word = q;
  url_some = r;
  sep'_blank = refl;
  gap'_blank = refl;
  version_start = refl;
}

path_words :
    IsWords
      (text_at (words (codes "get") (codes "/a")).m_read_buf 0)
      (codes "get")
      (codes "/a")
      (codes "HTTP/1.1")
path_words = spaced (codes "get") (codes "/a") refl refl refl (λ e. cc)

parse_request_line_path_example :
    Ends (IsAccepted (codes "/a")) (parse_request_line (words (codes "get") (codes "/a")) 0)
unfolding same_nocase
parse_request_line_path_example =
    parse_request_line_path (words (codes "get") (codes "/a")) 0 (codes "get") (codes "/a")
      (codes "HTTP/1.1") path_words refl refl (codes "a") refl

absolute_words :
    IsWords
      (text_at (words (codes "GET") (codes "HTTP://h/a")).m_read_buf 0)
      (codes "GET")
      (codes "HTTP://h/a")
      (codes "HTTP/1.1")
absolute_words = spaced (codes "GET") (codes "HTTP://h/a") refl refl refl (λ e. cc)

host_words :
    IsWords
      (text_at (words (codes "GET") (codes "http://h")).m_read_buf 0)
      (codes "GET")
      (codes "http://h")
      (codes "HTTP/1.1")
host_words = spaced (codes "GET") (codes "http://h") refl refl refl (λ e. cc)

parse_request_line_no_path_example :
    parse_request_line (words (codes "GET") (codes "http://h")) 0 ≡ fault
unfolding same_nocase
parse_request_line_no_path_example =
    parse_request_line_no_path (words (codes "GET") (codes "http://h")) 0 (codes "GET")
      (codes "http://h") (codes "HTTP/1.1") host_words refl refl (codes "http://") (codes "h") refl
      refl refl

post_words :
    IsWords
      (text_at (words (codes "POST") (codes "/a")).m_read_buf 0)
      (codes "POST")
      (codes "/a")
      (codes "HTTP/1.1")
post_words = spaced (codes "POST") (codes "/a") refl refl refl (λ e. cc)

process_read_ends_example :
    (process_read files (received get_home) ≢ out_of_fuel)
    × ((code : HttpCode) (c : Conn)
        → process_read files (received get_home) ≡ ok (code, c)
        → Within (received get_home) c)
process_read_ends_example = process_read_ends files (received get_home) (omega arith)

-- A body of four bytes, of which two have come, and a buffer in which the other two have followed.
abbrev body_conn : Conn
body_conn = record (received (codes "ab")) {
  m_read_buf = codes "ab" ++ replicate 10 0;
  m_check_state = check_state_content;
  m_content_length = pos 4;
  m_url = some 5;
}

abbrev body_buf : List ℕ
body_buf = codes "abcd" ++ replicate 8 0

body_buf-Extends : Extends body_conn.m_read_buf body_buf 2
body_buf-Extends zero h = refl
body_buf-Extends (suc zero) h = refl
body_buf-Extends (suc (suc i)) h = absurd (omega arith)

body_plain : NoLineEnd body_buf 0 4
body_plain zero h k = refl
body_plain (suc zero) h k = refl
body_plain (suc (suc zero)) h k = refl
body_plain (suc (suc (suc zero))) h k = refl
body_plain (suc (suc (suc (suc i)))) h k = absurd (omega arith)

process_read_content_split_example :
    (c1 : Conn) × (c2 : Conn) × (process_read files body_conn ≡ ok (no_request, c1))
    × (process_read files (record c1 { m_read_buf = body_buf; m_read_idx = 4 })
        ≡ ok (no_request, c2))
process_read_content_split_example =
    process_read_content_split files body_conn 4 body_buf 4 refl refl (omega arith) (omega arith)
      (omega arith) (omega arith) (omega arith) body_buf-Extends body_plain

-- "\rx" and, a little later, "y\n".
abbrev bad_conn : Conn
bad_conn = record (received (13 ∷ codes "x")) { m_read_buf = 13 ∷ codes "x" ++ replicate 10 0 }

abbrev bad_buf : List ℕ
bad_buf = 13 ∷ codes "xy" ++ 10 ∷ replicate 8 0

bad_buf-Extends : Extends bad_conn.m_read_buf bad_buf 2
bad_buf-Extends zero h = refl
bad_buf-Extends (suc zero) h = refl
bad_buf-Extends (suc (suc i)) h = absurd (omega arith)

process_read_bad_line_example :
    (end : ℕ) × (process_read files bad_conn
      ≡ ok (no_request, record bad_conn { m_checked_idx = end }))
    × (process_read files
          (record bad_conn { m_read_buf = bad_buf; m_checked_idx = end; m_read_idx = 4 })
        ≡ ok (
          no_request,
          record bad_conn { m_read_buf = bad_buf; m_checked_idx = end; m_read_idx = 4 },
        ))
unfolding parse_line
process_read_bad_line_example =
    process_read_bad_line files bad_conn bad_buf 4 (omega arith) (omega arith) bad_buf-Extends refl
      refl
