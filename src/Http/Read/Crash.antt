-- ===== src/Http/Read/Crash.antt =====
-- Requests that make process_read of practice/http/httpConnection.cpp write outside its buffer.
use study_record.Common.{ℕ, suc, ◌-◌, ◌*◌, ap, ◌∙◌, true, ◌&&◌, ◌^◌, ◌≤◌, ◌<◌, ◌≡◌, arith}
use study_record.Common.Run.{fault, ◌>>=◌}
use study_record.Common.Int.{negsuc}
use study_record.Http.{check_state_content, line_ok, FileSystem, Conn}
use study_record.Http.Content.Laws.{parse_content_negative}
use study_record.Http.Read.{is_content, after_content, after_round, process_read_loop, process_read}
use study_record.Http.Read.Stuck.{two_rounds, loop-skips_line, started, round-content}

-- A negative Content-Length that is larger than the place of the body crashes the server, or
-- writes a byte before the read buffer.
pub process_read_negative_length :
    (fs : FileSystem) (c : Conn) (n : ℕ)
    → c.m_check_state ≡ check_state_content
    → c.m_content_length ≡ negsuc n
    → c.m_start_line ≤ n
    → c.m_checked_idx ≤ c.m_read_idx
    → c.m_read_idx < 2 ^ 31
    → process_read fs c ≡ fault
unfolding process_read after_content
process_read_negative_length fs c n st e h le r =
    let d = 2 * (c.m_read_idx - c.m_checked_idx) in
    let next = process_read_loop (suc d) fs in
    let body = parse_content_negative (started fs c) c.m_start_line n e h (omega arith) r in
    ap (λ f. process_read_loop f fs line_ok c) (two_rounds (c.m_read_idx - c.m_checked_idx))
    ∙ loop-skips_line (suc d) fs line_ok c (ap (λ t. is_content t && true) st)
    ∙ ap (λ m. m >>= after_round next)
        (round-content fs c st ∙ ap (λ m. m >>= after_content fs) body)
