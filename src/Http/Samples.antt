-- ===== src/Http/Samples.antt =====
-- Sample connections for the tests.
use study_record.Common.{ℕ, List, [], ◌∷◌, ◌++◌, none, some, true, false, codes, length, replicate}
use study_record.Common.Int.{pos}
use study_record.Http.{
  check_state_requestline, get, null, mapped, FileStat, FileSystem, Iovec, Conn,
}

abbrev pub no_iov : Iovec
no_iov = record { iov_base = pos 0; iov_len = 0 }

abbrev pub file_stat : FileStat
file_stat = record { readable_by_others = true; is_dir = false; st_size = 2 }

-- A connection that has read these bytes.
abbrev pub received : List ℕ → Conn
received bytes = record {
  m_read_buf = bytes ++ replicate 8 0;
  m_read_idx = length bytes;
  m_checked_idx = 0;
  m_start_line = 0;
  m_write_buf = [];
  m_write_idx = 0;
  m_check_state = check_state_requestline;
  m_method = get;
  m_real_file = [];
  m_url = none;
  m_version = none;
  m_host = none;
  m_content_length = pos 0;
  m_linger = false;
  m_file_address = null;
  m_file_stat = file_stat;
  m_iv_header = no_iov;
  m_iv_file = no_iov;
  m_iv_count = 0;
  bytes_to_send = pos 0;
  bytes_have_send = pos 0;
}

abbrev pub files : FileSystem
files = record { stat = λ _. some file_stat; open_mmap = λ _ _. mapped (codes "hi") }

abbrev pub crlf : List ℕ
crlf = 13 ∷ 10 ∷ []

abbrev pub get_home : List ℕ
get_home =
    codes "GET /home.html HTTP/1.1"
    ++ crlf
    ++ codes "Host: a"
    ++ crlf
    ++ codes "Connection: keep-alive"
    ++ crlf
    ++ crlf
