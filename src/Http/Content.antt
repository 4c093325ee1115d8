-- ===== src/Http/Content.antt =====
-- Http_Conn::parse_content and do_request of practice/http/httpConnection.cpp.
pub mod Laws
use study_record.Common.{
  ℕ, ◌-◌, ◌^◌, List, ◌∷◌, none, some, not, ltb, if◌then◌else◌, length, set, take,
}
use study_record.Common.Run.{Run, ok, fault, ◌>>=◌, deref}
use study_record.Common.CString.{text_at}
use study_record.Common.Int.{ℤ, pos, negsuc, ◌+ℤ◌, leb_ℤ}
use study_record.Http.{
  HttpCode, no_request, get_request, no_resource, forbidden_request, bad_request, file_request,
  filename_len, FileSystem, Conn,
}

-- `buf[at] = '\0'` at any integer: outside the array this is undefined behaviour.
unfoldable pub clear_at : List ℕ → ℤ → Run (List ℕ)
clear_at buf (pos at) = if ltb at (length buf) then ok (set buf at 0) else fault
clear_at buf (negsuc at) = fault

-- The sum of two `int` is undefined behaviour beyond their range.
unfoldable pub parse_content : Conn → ℕ → Run (HttpCode × Conn)
unfolding clear_at
parse_content c text =
    let needed = c.m_content_length +ℤ pos c.m_checked_idx in
    if leb_ℤ (pos (2 ^ 31)) needed
    then fault
    else if leb_ℤ needed (pos c.m_read_idx)
    then (do
      buf ← clear_at c.m_read_buf (pos text +ℤ c.m_content_length)
      ok (get_request, record c { m_read_buf = buf }))
    else ok (no_request, c)

-- strcpy(m_real_file, ".") and strncpy of the URL behind it; init() has cleared the array, so that
-- the name ends there. The string is kept, without the array's unused bytes.
abbrev pub real_file : List ℕ → List ℕ
real_file url = b'.' ∷ take (filename_len - 1 - 1) url

unfoldable pub do_request : FileSystem → Conn → Run (HttpCode × Conn)
do_request fs c = do
  url ← deref c.m_url
  let name = real_file (text_at c.m_read_buf url)
  let c1 = record c { m_real_file = name }
  elim (fs.stat name) [
    | none ↦ ok (no_resource, c1)
    | some st ↦
        let c2 = record c1 { m_file_stat = st } in
        if not st.readable_by_others
        then ok (forbidden_request, c2)
        else if st.is_dir
        then ok (bad_request, c2)
        else ok (file_request, record c2 { m_file_address = fs.open_mmap name st.st_size })
  ]
