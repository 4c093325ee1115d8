-- ===== src/Http/Respond.antt =====
-- The response: add_response to process_write of practice/http/httpConnection.cpp.
-- A call of add_response with a format is given the text that vsnprintf makes of it.
pub mod Laws
pub mod Pages
use study_record.Common.{
  ℕ, zero, suc, ◌+◌, ◌-◌, ◌*◌, ◌/◌, ◌%◌, List, [], ◌∷◌, ◌++◌, Bool, true, false, leb, ltb, ◌==◌,
  not, if◌then◌else◌, codes, length, set, take,
}
use study_record.Common.Bytes.{write_at}
use study_record.Common.Int.{ℤ, pos, negsuc, int_of_bits}
use study_record.Http.{
  HttpCode, internal_error, no_resource, forbidden_request, file_request, write_buffer_size, Iovec,
  Conn,
}

-- vsnprintf(buf + i, n, …): at most n - 1 bytes and a NUL; nothing if n is 0.
vsnprintf : List ℕ → ℕ → ℕ → List ℕ → List ℕ
unfolding write_at
vsnprintf buf i n s = if n == 0 then buf else write_at buf i (take (n - 1) s ++ 0 ∷ [])

pub add_response : Conn → List ℕ → Bool × Conn
unfolding vsnprintf
add_response c s =
    if leb write_buffer_size c.m_write_idx
    then (false, c)
    else (let room = write_buffer_size - c.m_write_idx - 1 in
        let c' = record c { m_write_buf = vsnprintf c.m_write_buf c.m_write_idx room s } in
        if leb room (length s)
        then (false, c')
        else (true, record c' { m_write_idx = c.m_write_idx + length s }))

-- "%d"; the fuel is more than the number of digits.
unfoldable pub decimal_loop : ℕ → ℕ → List ℕ
decimal_loop zero n = []
decimal_loop (suc k) n = elim (ltb n 10) [
  | true ↦ (b'0' + n) ∷ []
  | false ↦ decimal_loop k (n / 10) ++ (b'0' + n % 10) ∷ []
]

unfoldable pub decimal : ℕ → List ℕ
unfolding decimal_loop
decimal n = decimal_loop (n + 1) n

abbrev pub decimal_int : ℤ → List ℕ
decimal_int (pos n) = decimal n
decimal_int (negsuc n) = b'-' ∷ decimal (suc n)

abbrev pub crlf : List ℕ
crlf = 13 ∷ 10 ∷ []

abbrev pub status_line : ℕ → List ℕ → List ℕ
status_line status title = codes "HTTP/1.0" ++ (32 ∷ (decimal status ++ (32 ∷ (title ++ crlf))))

abbrev pub content_length_line : ℤ → List ℕ
content_length_line n = codes "Content-Length:" ++ (decimal_int n ++ crlf)

abbrev pub linger_line : Bool → List ℕ
linger_line linger =
    codes "Connection:" ++ ((if linger then codes "keep-alive" else codes "close") ++ crlf)

abbrev pub add_status_line : Conn → ℕ → List ℕ → Bool × Conn
add_status_line c status title = add_response c (status_line status title)

abbrev pub add_content_length : Conn → ℤ → Bool × Conn
add_content_length c n = add_response c (content_length_line n)

abbrev pub add_linger : Conn → Bool × Conn
add_linger c = add_response c (linger_line c.m_linger)

abbrev pub add_blank_line : Conn → Bool × Conn
add_blank_line c = add_response c crlf

-- `p() && q()` for functions that change the connection.
and_then : Bool × Conn → (Conn → Bool × Conn) → Bool × Conn
and_then (true, c) next = next c
and_then (false, c) next = (false, c)

pub add_headers : Conn → ℤ → Bool × Conn
unfolding and_then
add_headers c n = and_then (and_then (add_content_length c n) add_linger) add_blank_line

abbrev pub add_content : Conn → List ℕ → Bool × Conn
add_content c content = add_response c content

abbrev pub error_403_form : List ℕ
error_403_form = codes "You do not have permission to get file from this server." ++ 10 ∷ []

abbrev pub error_404_form : List ℕ
error_404_form = codes "Thre requested file was not found on this server." ++ 10 ∷ []

abbrev pub error_500_form : List ℕ
error_500_form = codes "There was an unusual problem serving the requested file." ++ 10 ∷ []

abbrev pub ok_string : List ℕ
ok_string = codes "<html><body></body></html>"

-- The end of process_write: the header is all there is to send.
abbrev pub send_header : Conn → Conn
send_header c = record c {
  m_iv_header = record { iov_base = pos 0; iov_len = c.m_write_idx };
  m_iv_count = 1;
  bytes_to_send = pos c.m_write_idx;
}

-- A status line, headers and a text of the program's own.
pub add_page : Conn → ℕ → List ℕ → List ℕ → Bool × Conn
add_page c status title form =
    let c1 = (add_status_line c status title).1 in
    let c2 = (add_headers c1 (pos (length form))).1 in
    let (added, c3) = add_content c2 form in if added then (true, send_header c3) else (false, c3)

-- The headers of a file that is not empty, and both parts to send; `int` takes the low 32 bits.
pub add_file : Conn → Bool × Conn
add_file c =
    let size = c.m_file_stat.st_size in
    let c1 = (add_status_line c 200 (codes "OK")).1 in
    let c2 = (add_headers c1 (int_of_bits size)).1 in
    (
      true,
      record c2 {
        m_iv_header = record { iov_base = pos 0; iov_len = c2.m_write_idx };
        m_iv_file = record { iov_base = pos 0; iov_len = size };
        m_iv_count = 2;
        bytes_to_send = int_of_bits (c2.m_write_idx + size);
      },
    )

unfoldable pub process_write : Conn → HttpCode → Bool × Conn
unfolding add_page add_file add_headers add_response
process_write c internal_error = add_page c 500 (codes "Internal Error") error_500_form
process_write c no_resource = add_page c 404 (codes "Not Found") error_404_form
process_write c forbidden_request = add_page c 403 (codes "Forbidden") error_403_form
process_write c file_request =
    if not (c.m_file_stat.st_size == 0) then add_file c else add_page c 200 (codes "OK") ok_string
process_write c _ = (false, c)
