-- ===== src/Http/Read/Progress.antt =====
-- process_read ends, and what each of its parts leaves of the indices and of the buffer's size.
use study_record.Common.{
  ℕ, ◌≡◌, refl, ◌∙◌, inl, inr, true, false, List, not, Option-cases, length, set, length-set, codes,
  arith,
}
use study_record.Common.Run.{Partial, ended, faulted, Partial-bind, Partial-if, Run, ok, ◌>>=◌}
use study_record.Common.Int.{◌+ℤ◌, ℤ, pos, negsuc}
use study_record.Common.CString.{text_at, strpbrk_blank, same_nocase}
use study_record.Http.{
  HttpCode, bad_request, get_request, CheckState, check_state_requestline, check_state_header,
  check_state_content, FileSystem, Conn,
}
use study_record.Http.RequestLine.{
  strip_scheme, parse_url, parse_version, parse_method, parse_request_line,
}
use study_record.Http.Headers.{parse_headers}
use study_record.Http.Content.{clear_at, real_file, parse_content, do_request}
use study_record.Http.Read.{
  Round, return, again, by_state, after_headers, after_content, after_request_line, round,
  is_content, is_ok,
}

clear_at-length :
    (buf : List ℕ) (at : ℤ) → Partial (λ buf'. length buf' ≡ length buf) (clear_at buf at)
unfolding clear_at
clear_at-length buf (pos at) = Partial-if _ (ended (length-set buf at 0)) faulted
clear_at-length buf (negsuc at) = faulted

-- The parser's indices and the size of its buffer have these values.
abbrev pub Has : (read_idx checked_idx size : ℕ) → Conn → Type 0
Has i j n c = (c.m_read_idx ≡ i) × (c.m_checked_idx ≡ j) × (length c.m_read_buf ≡ n)

abbrev pub Keeps : (read_idx checked_idx size : ℕ) → Run (HttpCode × Conn) → Type 0
Keeps i j n = Partial (λ r. Has i j n r.1)

module _ (i j n : ℕ) where
  parse_url-Keeps : (c : Conn) (url : ℕ) → Has i j n c → Keeps i j n (parse_url c url)
  unfolding parse_url
  parse_url-Keeps c url h = elim (Option-cases (strip_scheme c.m_read_buf (codes "http://") url)) [
    | inl e ↦ rw (e, parse_url) faulted
    | inr (u, e) ↦ elim (Option-cases (strip_scheme c.m_read_buf (codes "https://") u)) [
      | inl f ↦ rw (e, parse_url, f) (ended h)
      | inr (v, f) ↦ rw (e, parse_url, f) (Partial-if _ (ended h) (ended h))
    ]
  ]

  Has-cut :
      (c : Conn) (u : ℕ) → Has i j n c → Has i j n (record c { m_read_buf = set c.m_read_buf u 0 })
  Has-cut c u h = (h.0, h.1, length-set c.m_read_buf u 0 ∙ h.2)

  parse_version-Keeps : (c : Conn) (url : ℕ) → Has i j n c → Keeps i j n (parse_version c url)
  unfolding parse_version
  parse_version-Keeps c url h = elim (Option-cases (strpbrk_blank c.m_read_buf url)) [
    | inl e ↦ rw (e, parse_version) (ended h)
    | inr (u, e) ↦
        rw (e, parse_version)
          (Partial-if _ (ended (Has-cut c u h)) (parse_url-Keeps _ url (Has-cut c u h)))
  ]

  parse_request_line-Keeps :
      (c : Conn) (text : ℕ) → Has i j n c → Keeps i j n (parse_request_line c text)
  unfolding parse_request_line parse_method
  parse_request_line-Keeps c text h = elim (Option-cases (strpbrk_blank c.m_read_buf text)) [
    | inl e ↦ rw (e, parse_request_line) (ended h)
    | inr (u, e) ↦
        rw (e, parse_request_line)
          (Partial-if (same_nocase (text_at (set c.m_read_buf u 0) text) (codes "GET"))
            (parse_version-Keeps _ _ (Has-cut c u h)) (ended (Has-cut c u h)))
  ]

  parse_headers-Has : (c : Conn) (text : ℕ) → Has i j n c → Has i j n (parse_headers c text).1
  unfolding parse_headers
  parse_headers-Has c text h = ground arith

  parse_content-Keeps : (c : Conn) (text : ℕ) → Has i j n c → Keeps i j n (parse_content c text)
  unfolding parse_content
  parse_content-Keeps c text h = Partial-if _ faulted (
      Partial-if _
        (Partial-bind (clear_at-length c.m_read_buf (pos text +ℤ c.m_content_length))
          λ buf size. ended (h.0, h.1, size ∙ h.2))
        (ended h))

  do_request-Keeps : (fs : FileSystem) (c : Conn) → Has i j n c → Keeps i j n (do_request fs c)
  unfolding do_request
  do_request-Keeps fs c h = elim (Option-cases c.m_url) [
    | inl e ↦ rw e faulted
    | inr (url, e) ↦ elim (Option-cases (fs.stat (real_file (text_at c.m_read_buf url)))) [
      | inl f ↦ rw (e, f) (ended h)
      | inr (st, f) ↦
          rw (e, f)
            (Partial-if (not st.readable_by_others) (ended h)
              (Partial-if st.is_dir (ended h) (ended h)))
    ]
  ]

  -- A round keeps them too; after a round in the content state the next one parses a line first.
  abbrev pub RoundKeeps : CheckState → Round → Type 0
  RoundKeeps s (return code c) = Has i j n c
  RoundKeeps s (again st c) = Has i j n c × (is_content s ≡ true → is_ok st ≡ false)

  answer :
      (s : CheckState) (fs : FileSystem) (c : Conn)
      → Has i j n c
      → Partial (RoundKeeps s) (do_request fs c >>= λ (code, c'). ok (return code c'))
  answer s fs c h = Partial-bind (do_request-Keeps fs c h) λ r k. ended k

  after_request_line-Keeps :
      (code : HttpCode) (c : Conn)
      → Has i j n c
      → RoundKeeps check_state_requestline (after_request_line (code, c))
  unfolding after_request_line
  after_request_line-Keeps bad_request c h = h
  after_request_line-Keeps _ c h = (h, λ e. cc)

  after_headers-Keeps :
      (fs : FileSystem) (code : HttpCode) (c : Conn)
      → Has i j n c
      → Partial (RoundKeeps check_state_header) (after_headers fs (code, c))
  unfolding after_headers
  after_headers-Keeps fs bad_request c h = ended h
  after_headers-Keeps fs get_request c h = answer check_state_header fs c h
  after_headers-Keeps fs _ c h = ended (h, λ e. cc)

  after_content-Keeps :
      (fs : FileSystem) (code : HttpCode) (c : Conn)
      → Has i j n c
      → Partial (RoundKeeps check_state_content) (after_content fs (code, c))
  unfolding after_content
  after_content-Keeps fs get_request c h = answer check_state_content fs c h
  after_content-Keeps fs _ c h = ended (h, λ e. refl)

  by_state-Keeps :
      (fs : FileSystem) (s : CheckState) (c : Conn) (text : ℕ)
      → Has i j n c
      → Partial (RoundKeeps s) (by_state fs s c text)
  unfolding by_state
  by_state-Keeps fs check_state_requestline c text h =
      Partial-bind (parse_request_line-Keeps c text h)
        λ (code, c') k. ended (after_request_line-Keeps code c' k)
  by_state-Keeps fs check_state_header c text h =
      after_headers-Keeps fs (parse_headers c text).0 (parse_headers c text).1
        (parse_headers-Has c text h)
  by_state-Keeps fs check_state_content c text h =
      Partial-bind (parse_content-Keeps c text h) λ (code, c') k. after_content-Keeps fs code c' k

  pub round-Keeps :
      (fs : FileSystem) (c : Conn) → Has i j n c → Partial (RoundKeeps c.m_check_state) (round fs c)
  unfolding round
  round-Keeps fs c h =
      by_state-Keeps fs c.m_check_state (record c { m_start_line = c.m_checked_idx }) c.m_start_line
        h
