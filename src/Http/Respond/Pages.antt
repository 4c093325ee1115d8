-- ===== src/Http/Respond/Pages.antt =====
-- The whole responses of process_write: the program's own pages, and the head of a file.
use study_record.Common.{
  ℕ, zero, suc, ◌+◌, ◌-◌, ◌/◌, ◌%◌, ◌^◌, ◌≤◌, ◌<◌, ◌≡◌, refl, ap, List, [], ◌∷◌, ◌++◌, Bool, true,
  false, Option, some, none, not, ◌==◌, codes, length, take, length-append, arith,
}
use mathlib.Core.Path.{subst}
use native.Mathlib.Nat.{pow-suc}
use study_record.Common.Int.{ℤ, pos, int_of_bits}
use study_record.Http.{
  HttpCode, internal_error, no_resource, forbidden_request, file_request, write_buffer_size, Conn,
}
use study_record.Http.Respond.{
  add_page, process_write, decimal_loop, decimal, status_line, content_length_line, linger_line,
  crlf, error_403_form, error_404_form, error_500_form, ok_string, send_header,
}
use study_record.Http.Respond.Laws.{
  Holds, with_text, add_response-append, add_headers-append, page, headers,
}

length-headers :
    (linger : Bool) (first : List ℕ) (n : ℤ)
    → length (headers linger first n)
      ≡ length first + length (content_length_line n) + length (linger_line linger) + 2
length-headers linger first n =
    let s1 = content_length_line n in
    let s2 = linger_line linger in
    omega (
      arith,
      length-append first s1,
      length-append (first ++ s1) s2,
      length-append ((first ++ s1) ++ s2) crlf,
    )

first-le-headers :
    (linger : Bool) (first : List ℕ) (n : ℤ) → length first ≤ length (headers linger first n)
first-le-headers linger first n = omega (arith, length-headers linger first n)

module _ (c : Conn) (buf : List ℕ) (idx : ℕ) (h : Holds buf idx []) where
  add_page-sends :
      (status : ℕ) (title form : List ℕ)
      → length (page c.m_linger status title form) < write_buffer_size - 1
      → (buf' : List ℕ) × (end : ℕ) × (add_page (with_text c buf idx) status title form
          ≡ (true, send_header (with_text c buf' end)))
        × Holds buf' end (page c.m_linger status title form)
  unfolding add_page
  add_page-sends status title form fits =
      let first = status_line status title in
      let n = pos (length form) in
      let head = headers c.m_linger first n in
      let l1 = length-append head form in
      let l2 = first-le-headers c.m_linger first n in
      let (b1, e1, h1) = add_response-append c buf idx [] first h (omega arith) in
      let (b2, i2, e2, h2) =
        add_headers-append c b1 (idx + length first) first n h1 (omega arith) in
      let (b3, e3, h3) = add_response-append c b2 i2 head form h2 (omega arith) in
      (b3, i2 + length form, rw (e1, e2, e3) refl, h3)

-- The page for each outcome that has one of its own.
pub record Page : Type 0 where
  pub status : ℕ
  pub title : List ℕ
  pub form : List ℕ

abbrev pub error_page : HttpCode → Option Page
error_page internal_error =
    some (record { status = 500; title = codes "Internal Error"; form = error_500_form })
error_page no_resource =
    some (record { status = 404; title = codes "Not Found"; form = error_404_form })
error_page forbidden_request =
    some (record { status = 403; title = codes "Forbidden"; form = error_403_form })
error_page _ = none

-- The connection is about to send exactly `text` from its write buffer.
abbrev pub Sends : List ℕ → Conn → Type 0
Sends text c =
    (take c.m_write_idx c.m_write_buf ≡ text)
    × (c.m_iv_header.iov_base ≡ pos 0)
    × (c.m_iv_header.iov_len ≡ length text)
    × (c.m_iv_count ≡ 1)
    × (c.bytes_to_send ≡ pos (length text))

add_page-Sends :
    (c : Conn) (status : ℕ) (title form : List ℕ)
    → Holds c.m_write_buf c.m_write_idx []
    → length (page c.m_linger status title form) < write_buffer_size - 1
    → (c' : Conn) × (add_page c status title form ≡ (true, c'))
      × Sends (page c.m_linger status title form) c'
add_page-Sends c status title form h fits =
    let (buf, end, run, holds) =
      add_page-sends c c.m_write_buf c.m_write_idx h status title form fits in
    (
      send_header (with_text c buf end),
      run,
      (holds.bytes, refl, holds.count, refl, ap pos holds.count),
    )

fits_500 :
    (linger : Bool)
    → length (page linger 500 (codes "Internal Error") error_500_form) < write_buffer_size - 1
unfolding decimal
fits_500 true = omega arith
fits_500 false = omega arith

fits_404 :
    (linger : Bool)
    → length (page linger 404 (codes "Not Found") error_404_form) < write_buffer_size - 1
unfolding decimal
fits_404 true = omega arith
fits_404 false = omega arith

fits_403 :
    (linger : Bool)
    → length (page linger 403 (codes "Forbidden") error_403_form) < write_buffer_size - 1
unfolding decimal
fits_403 true = omega arith
fits_403 false = omega arith

fits_200 : (linger : Bool) → length (page linger 200 (codes "OK") ok_string) < write_buffer_size - 1
unfolding decimal
fits_200 true = omega arith
fits_200 false = omega arith

empty-Holds :
    (c : Conn)
    → c.m_write_idx ≡ 0
    → length c.m_write_buf ≡ write_buffer_size
    → Holds c.m_write_buf c.m_write_idx []
empty-Holds c i b = record { count = i; bytes = ap (λ k. take k c.m_write_buf) i; size = b }

some_inj : {p q : Page} → some p ≡ some q → p ≡ q
some_inj e = cc

-- process_write returns true with this page to send.
abbrev pub Answers : Conn → HttpCode → Page → Type 0
Answers c code p =
    (c' : Conn) × (process_write c code ≡ (true, c'))
    × Sends (page c.m_linger p.status p.title p.form) c'

-- From an empty write buffer, each outcome that has a page of its own (500, 404 and 403) is answered:
-- process_write returns true, and what the connection then sends is the status line, the length of
-- the page's text, the keep-alive choice, a blank line and the text, with nothing lost or added.
pub process_write_page :
    (c : Conn) (code : HttpCode) (p : Page)
    → c.m_write_idx ≡ 0
    → length c.m_write_buf ≡ write_buffer_size
    → error_page code ≡ some p
    → Answers c code p
unfolding process_write
process_write_page c internal_error p i b e = subst (Answers c internal_error) (some_inj e) (
    add_page-Sends c 500 (codes "Internal Error") error_500_form (empty-Holds c i b)
      (fits_500 c.m_linger))
process_write_page c no_resource p i b e = subst (Answers c no_resource) (some_inj e) (
    add_page-Sends c 404 (codes "Not Found") error_404_form (empty-Holds c i b)
      (fits_404 c.m_linger))
process_write_page c forbidden_request p i b e = subst (Answers c forbidden_request) (some_inj e) (
    add_page-Sends c 403 (codes "Forbidden") error_403_form (empty-Holds c i b)
      (fits_403 c.m_linger))
process_write_page c _ p i b e = cc

-- An empty file is answered by a page of 200 OK with an empty body of HTML.
pub process_write_empty_file :
    (c : Conn)
    → c.m_write_idx ≡ 0
    → length c.m_write_buf ≡ write_buffer_size
    → c.m_file_stat.st_size ≡ 0
    → Answers c file_request (record { status = 200; title = codes "OK"; form = ok_string })
unfolding process_write
process_write_empty_file c i b e =
    let (c', run, sends) =
      add_page-Sends c 200 (codes "OK") ok_string (empty-Holds c i b) (fits_200 c.m_linger) in
    let empty : not (c.m_file_stat.st_size == 0) ≡ false = ground arith in (c', rw empty run, sends)

decimal_loop-length_le : (k d n : ℕ) → n < 10 ^ d → 0 < d → length (decimal_loop k n) ≤ d
unfolding decimal_loop
decimal_loop-length_le zero d n h p = omega arith
decimal_loop-length_le (suc k) zero n h p = absurd (omega arith)
decimal_loop-length_le (suc k) (suc zero) n h p = ground arith
decimal_loop-length_le (suc k) (suc (suc d)) n h p =
    let power = pow-suc 10 (suc d) in
    let smaller : n / 10 < 10 ^ suc d = omega arith in
    ground (
      arith,
      decimal_loop-length_le k (suc d) (n / 10) smaller,
      length-append (decimal_loop k (n / 10)) ((b'0' + n % 10) ∷ []),
    )

length-decimal_le : (d n : ℕ) → n < 10 ^ suc d → length (decimal n) ≤ suc d
unfolding decimal
length-decimal_le d n h = decimal_loop-length_le (n + 1) (suc d) n h (omega arith)

length-status_200 : length (status_line 200 (codes "OK")) ≡ 17
unfolding decimal
length-status_200 = refl

length-linger_line : (linger : Bool) → length (linger_line linger) ≤ 23
length-linger_line true = omega arith
length-linger_line false = omega arith

file_head_fits :
    (linger : Bool) (size : ℕ)
    → size < 10 ^ 10
    → length (headers linger (status_line 200 (codes "OK")) (pos size)) < write_buffer_size - 1
file_head_fits linger size h =
    let digits = length-append (decimal size) crlf in
    omega (
      arith,
      length-headers linger (status_line 200 (codes "OK")) (pos size),
      length-status_200,
      length-linger_line linger,
      length-decimal_le 9 size h,
      digits,
    )

-- The head of a file that is not empty.
abbrev pub file_head : Bool → ℕ → List ℕ
file_head linger size = headers linger (status_line 200 (codes "OK")) (pos size)

-- A file that is not empty, of a size that fits an `int` with the head: process_write returns true,
-- the write buffer holds exactly the head, whose Content-Length is the file's size, and the two
-- parts to send are the head and the whole file.
pub process_write_file :
    (c : Conn)
    → c.m_write_idx ≡ 0
    → length c.m_write_buf ≡ write_buffer_size
    → 0 < c.m_file_stat.st_size
    → c.m_file_stat.st_size + write_buffer_size < 2 ^ 31
    → (c' : Conn) × (process_write c file_request ≡ (true, c'))
      × (take c'.m_write_idx c'.m_write_buf ≡ file_head c.m_linger c.m_file_stat.st_size)
      × (c'.m_iv_header ≡ record { iov_base = pos 0; iov_len = c'.m_write_idx })
      × (c'.m_iv_file ≡ record { iov_base = pos 0; iov_len = c.m_file_stat.st_size })
      × (c'.m_iv_count ≡ 2)
      × (c'.bytes_to_send
          ≡ pos (length (file_head c.m_linger c.m_file_stat.st_size) + c.m_file_stat.st_size))
unfolding process_write
process_write_file c i b p q =
    let size = c.m_file_stat.st_size in
    let first = status_line 200 (codes "OK") in
    let fits = file_head_fits c.m_linger size (omega arith) in
    let below = first-le-headers c.m_linger first (pos size) in
    let (b1, e1, h1) =
      add_response-append c c.m_write_buf c.m_write_idx [] first (empty-Holds c i b)
        (omega arith) in
    let (b2, i2, e2, h2) =
      add_headers-append c b1 (c.m_write_idx + length first) first (pos size) h1 fits in
    let full : not (size == 0) ≡ true = ground arith in
    let count = h2.count in
    let int_size : int_of_bits size ≡ pos size = ground arith in
    let int_total : int_of_bits (i2 + size) ≡ pos (length (file_head c.m_linger size) + size) =
      ground arith in
    (
      record (with_text c b2 i2) {
        m_iv_header = record { iov_base = pos 0; iov_len = i2 };
        m_iv_file = record { iov_base = pos 0; iov_len = size };
        m_iv_count = 2;
        bytes_to_send = int_of_bits (i2 + size);
      },
      rw (full, e1, int_size, e2) refl,
      h2.bytes,
      refl,
      refl,
      refl,
      int_total,
    )
