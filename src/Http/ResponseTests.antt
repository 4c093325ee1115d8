-- ===== src/Http/ResponseTests.antt =====
-- The theorems about responses at sample connections.
use study_record.Common.{
  ℕ, ◌+◌, ◌≡◌, ◌↔◌, refl, ◌∷◌, ◌++◌, true, false, codes, length, take, replicate, arith,
}
use study_record.Common.Int.{pos}
use study_record.Http.{file_request, write_buffer_size, Conn}
use study_record.Http.Samples.{received, get_home}
use study_record.Http.Respond.{decimal, process_write, error_404_form}
use study_record.Http.Respond.Laws.{page}
use study_record.Http.Respond.Pages.{file_head, process_write_file}
use study_record.Http.Write.{account}
use study_record.Http.Write.Laws.{IsRest, account_part}

abbrev ready : Conn
ready = record (received get_home) { m_write_buf = replicate write_buffer_size 0 }

page_404 :
    page false 404 (codes "Not Found") error_404_form
    ≡ codes "HTTP/1.0 404 Not Found"
      ++ 13 ∷ 10 ∷ codes "Content-Length:50"
      ++ 13 ∷ 10 ∷ codes "Connection:close"
      ++ 13 ∷ 10 ∷ 13 ∷ 10 ∷ error_404_form
unfolding decimal
page_404 = refl

abbrev no_bytes : Conn
no_bytes = record ready {
  m_file_stat = record { readable_by_others = true; is_dir = false; st_size = 0 };
}

process_write_file_example :
    (c : Conn) × (process_write ready file_request ≡ (true, c))
    × (take c.m_write_idx c.m_write_buf ≡ file_head false 2)
    × (c.m_iv_header ≡ record { iov_base = pos 0; iov_len = c.m_write_idx })
    × (c.m_iv_file ≡ record { iov_base = pos 0; iov_len = 2 })
    × (c.m_iv_count ≡ 2)
    × (c.bytes_to_send ≡ pos (length (file_head false 2) + 2))
process_write_file_example = process_write_file ready refl refl (omega arith) (omega arith)

-- A head of ten bytes and a file of twenty.
abbrev sending : Conn
sending = record ready {
  m_iv_header = record { iov_base = pos 0; iov_len = 10 };
  m_iv_file = record { iov_base = pos 0; iov_len = 20 };
  bytes_to_send = pos 30;
}

account_part_example :
    IsRest 10 20 4 (account sending 4).m_iv_header (account sending 4).m_iv_file
    ↔ (◌≡◌ {A = ℕ} 4 10)
account_part_example =
    account_part 10 20 4 sending (record { head = refl; file = refl; total = refl }) (omega arith)
      (omega arith) (omega arith)
