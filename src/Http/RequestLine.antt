-- ===== src/Http/RequestLine.antt =====
-- Http_Conn::parse_request_line of practice/http/httpConnection.cpp. `text` points at the line.
pub mod Laws
pub mod Url
use study_record.Common.{
  ℕ, ◌+◌, List, Option, none, some, Bool, not, ◌&&◌, ◌==◌, if◌then◌else◌, codes, length, get_or,
  set,
}
use study_record.Common.Run.{Run, ok, fault, ◌>>=◌}
use study_record.Common.CString.{
  text_at, strpbrk_blank, strspn_blank, strchr, same_nocase, starts_nocase,
}
use study_record.Http.{HttpCode, no_request, bad_request, check_state_header, get, Conn}

-- `if(strncasecmp(url, scheme, n) == 0){ url += n; url = strchr(url, '/'); }`
unfoldable pub strip_scheme : List ℕ → List ℕ → ℕ → Option ℕ
strip_scheme buf scheme url =
    if starts_nocase (text_at buf url) scheme
    then strchr buf (url + length scheme) b'/'
    else some url

-- From the first strncasecmp: strchr may leave a null pointer, which the second strncasecmp reads.
unfoldable pub parse_url : Conn → ℕ → Run (HttpCode × Conn)
parse_url c start = elim (strip_scheme c.m_read_buf (codes "http://") start) [
  | none ↦ fault
  | some url ↦ elim (strip_scheme c.m_read_buf (codes "https://") url) [
    | none ↦ ok (bad_request, record c { m_url = none })
    | some path ↦
        if get_or c.m_read_buf path 0 == b'/'
        then ok (no_request, record c { m_url = some path; m_check_state = check_state_header })
        else ok (bad_request, record c { m_url = some path })
  ]
]

abbrev pub is_version : List ℕ → Bool
is_version v =
    not (not (same_nocase v (codes "HTTP/1.1")) && not (same_nocase v (codes "HTTP/1.0")))

-- From the second strpbrk, with `m_url` at `url`.
unfoldable pub parse_version : Conn → ℕ → Run (HttpCode × Conn)
parse_version c url = elim (strpbrk_blank c.m_read_buf url) [
  | none ↦ ok (bad_request, record c { m_version = none })
  | some end ↦
      let buf = set c.m_read_buf end 0 in
      let version = end + 1 + strspn_blank buf (end + 1) in
      let c' = record c { m_read_buf = buf; m_version = some version } in
      if not (is_version (text_at buf version)) then ok (bad_request, c') else parse_url c' url
]

-- From the test of the method, with `m_url` at `url`.
unfoldable pub parse_method : Conn → ℕ → ℕ → Run (HttpCode × Conn)
parse_method c text url =
    if same_nocase (text_at c.m_read_buf text) (codes "GET")
    then (let url' = url + strspn_blank c.m_read_buf url in
        parse_version (record c { m_method = get; m_url = some url' }) url')
    else ok (bad_request, c)

unfoldable pub parse_request_line : Conn → ℕ → Run (HttpCode × Conn)
parse_request_line c text = elim (strpbrk_blank c.m_read_buf text) [
  | none ↦ ok (bad_request, record c { m_url = none })
  | some end ↦
      parse_method (record c { m_read_buf = set c.m_read_buf end 0; m_url = some (end + 1) }) text
        (end + 1)
]
