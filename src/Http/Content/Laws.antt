-- ===== src/Http/Content/Laws.antt =====
-- Where parse_content of practice/http/httpConnection.cpp ends the body.
use study_record.Common.{ℕ, ◌^◌, ◌≤◌, ◌<◌, ◌≡◌, arith}
use study_record.Common.Run.{fault}
use study_record.Common.Int.{negsuc}
use study_record.Http.{Conn}
use study_record.Http.Content.{parse_content}

-- A negative length passes the test of the bytes read, and the end of the body is then a byte
-- before its start, which lies before the buffer if the length is beyond the body's place.
pub parse_content_negative :
    (c : Conn) (text n : ℕ)
    → c.m_content_length ≡ negsuc n
    → text ≤ n
    → c.m_checked_idx ≤ c.m_read_idx
    → c.m_read_idx < 2 ^ 31
    → parse_content c text ≡ fault
unfolding parse_content
parse_content_negative c text n e h le r = rw e (ground arith)
