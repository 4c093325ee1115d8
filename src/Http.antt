-- ===== src/Http.antt =====
-- practice/http/httpConnection.h: the state of one HTTP connection.
-- `char *` fields that point into the read buffer are indices into it, `none` for a null pointer.
pub mod Line
pub mod Samples
mod Tests
mod ResponseTests
pub mod RequestLine
pub mod Headers
pub mod Content
pub mod Receive
pub mod Read
pub mod Respond
pub mod Write
pub mod Numbers
pub mod Process
use study_record.Common.{ℕ, List, Option, Bool}
use study_record.Common.Int.{ℤ}

abbrev pub filename_len : ℕ
filename_len = 200

abbrev pub read_buffer_size : ℕ
read_buffer_size = 2048

abbrev pub write_buffer_size : ℕ
write_buffer_size = 1024

pub data CheckState : Type 0 where
  check_state_requestline check_state_header check_state_content : CheckState

pub data LineStatus : Type 0 where
  line_ok line_bad line_open : LineStatus

pub data HttpCode : Type 0 where
  no_request get_request bad_request no_resource forbidden_request : HttpCode
  file_request internal_error closed_connection : HttpCode

pub data Method : Type 0 where
  get post head put delete trace options connect patch : Method

-- The parts of `struct stat` that the code reads: two bits of `st_mode`, and `st_size`.
pub record FileStat : Type 0 where
  pub readable_by_others : Bool
  pub is_dir : Bool
  pub st_size : ℕ

-- What `m_file_address` holds: a null pointer, MAP_FAILED, or the address of a mapped file.
pub data Address : Type 0 where
  null map_failed : Address
  mapped : List ℕ → Address

-- The operating system's part of do_request: `stat` on a path, and the open and mmap that follow it.
pub record FileSystem : Type 0 where
  pub stat : List ℕ → Option FileStat
  pub open_mmap : List ℕ → ℕ → Address

-- An element of `m_iv`: how far its base lies from the start of the object that it points into
-- (the write buffer for the first, the mapped file for the second), and its `size_t` length.
pub record Iovec : Type 0 where
  pub iov_base : ℤ
  pub iov_len : ℕ

pub record Conn : Type 0 where
  pub m_read_buf : List ℕ
  pub m_read_idx : ℕ
  pub m_checked_idx : ℕ
  pub m_start_line : ℕ
  pub m_write_buf : List ℕ
  pub m_write_idx : ℕ
  pub m_check_state : CheckState
  pub m_method : Method
  pub m_real_file : List ℕ
  pub m_url : Option ℕ
  pub m_version : Option ℕ
  pub m_host : Option ℕ
  pub m_content_length : ℤ
  pub m_linger : Bool
  pub m_file_address : Address
  pub m_file_stat : FileStat
  pub m_iv_header : Iovec
  pub m_iv_file : Iovec
  pub m_iv_count : ℕ
  pub bytes_to_send : ℤ
  pub bytes_have_send : ℤ
