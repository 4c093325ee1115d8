-- ===== src/Http/Headers.antt =====
-- Http_Conn::parse_headers of practice/http/httpConnection.cpp. `text` points at the line.
pub mod Laws
mod Tests
use study_record.Common.{
  ℕ, ◌+◌, ◌-◌, ◌*◌, ◌^◌, List, [], ◌∷◌, some, Bool, true, false, ◌&&◌, ◌||◌, not, leb, ◌==◌,
  if◌then◌else◌, codes, length, get_or,
}
use Prim.Native.Nat.{min}
use study_record.Common.Int.{ℤ, pos, negsuc, int_of_bits}
use study_record.Common.CString.{text_at, strspn_blank, same_nocase, starts_nocase}
use study_record.Http.{HttpCode, no_request, get_request, check_state_content, Conn}

-- The value of the digits that a string begins with.
unfoldable pub digits_value : ℕ → List ℕ → ℕ
digits_value acc [] = acc
digits_value acc (c ∷ s) =
    if leb b'0' c && leb c b'9' then digits_value (acc * 10 + (c - b'0')) s else acc

unfoldable pub skip_space : List ℕ → List ℕ
skip_space [] = []
skip_space (c ∷ s) = if c == 32 || (leb 9 c && leb c 13) then skip_space s else c ∷ s

-- The bits of a `long`: a value out of range is the nearest in range, as strtol has it.
unfoldable pub atol_sign : List ℕ → ℕ
atol_sign [] = 0
atol_sign (c ∷ s) =
    if c == b'-'
    then 2 ^ 64 - min (digits_value 0 s) (2 ^ 63)
    else if c == b'+'
    then min (digits_value 0 s) (2 ^ 63 - 1)
    else min (digits_value 0 (c ∷ s)) (2 ^ 63 - 1)

-- `int n = atol(s)`
unfoldable pub int_of_atol : List ℕ → ℤ
unfolding digits_value skip_space atol_sign
int_of_atol s = int_of_bits (atol_sign (skip_space s))

zero_int : ℤ → Bool
zero_int (pos n) = n == 0
zero_int (negsuc n) = false

-- Past a header's name and the blanks that follow it.
abbrev pub value_of : Conn → ℕ → List ℕ → ℕ
value_of c text name = text + length name + strspn_blank c.m_read_buf (text + length name)

unfoldable pub parse_headers : Conn → ℕ → HttpCode × Conn
unfolding zero_int
parse_headers c text =
    if get_or c.m_read_buf text 0 == 0
    then if not (zero_int c.m_content_length)
      then (no_request, record c { m_check_state = check_state_content })
      else (get_request, c)
    else if starts_nocase (text_at c.m_read_buf text) (codes "Connection:")
    then if same_nocase (text_at c.m_read_buf (value_of c text (codes "Connection:")))
        (codes "keep-alive")
      then (no_request, record c { m_linger = true })
      else (no_request, c)
    else if starts_nocase (text_at c.m_read_buf text) (codes "Content-Length:")
    then (
      no_request,
      record c {
        m_content_length =
            int_of_atol (text_at c.m_read_buf (value_of c text (codes "Content-Length:")));
      },
    )
    else if starts_nocase (text_at c.m_read_buf text) (codes "Host:")
    then (no_request, record c { m_host = some (value_of c text (codes "Host:")) })
    else (no_request, c)
