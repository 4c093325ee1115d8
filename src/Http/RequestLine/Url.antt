-- ===== src/Http/RequestLine/Url.antt =====
-- The request target: a path, an absolute address with a path, and one without.
use study_record.Common.{
  ℕ, ◌+◌, ◌≡◌, refl, ◌∙◌, List, ◌∷◌, ◌++◌, some, none, Bool, true, false, not, ◌&&◌, ◌==◌, inl, inr,
  Bool-cases, codes, length, set, all,
}
use study_record.Common.Run.{ok, fault, Ends}
use study_record.Common.CString.{text_at, strchr, same_nocase, starts_nocase}
use study_record.Common.CString.Laws.{
  text_at-add_append, find_index-append, find_index-none, get_or_of_text,
}
use study_record.Common.CString.Laws.{starts_nocase-append}
use study_record.Http.{HttpCode, no_request, bad_request, check_state_header, get, Conn}
use study_record.Http.RequestLine.{strip_scheme, parse_url, is_version, parse_request_line}
use study_record.Http.RequestLine.Laws.{IsWords, at_version, url_text, parse_request_line-words}

-- A byte that is no '/'.
abbrev pub not_slash : ℕ → Bool
not_slash c = not (c == b'/')

pub strip_scheme-path :
    (buf scheme : List ℕ) (url : ℕ) (rest scheme' : List ℕ)
    → text_at buf url ≡ b'/' ∷ rest
    → scheme ≡ b'h' ∷ scheme'
    → strip_scheme buf scheme url ≡ some url
unfolding strip_scheme starts_nocase
strip_scheme-path buf scheme url rest scheme' e p = rw (e, p) refl

module _ (buf scheme : List ℕ) (url : ℕ) (word host : List ℕ)
    (same : same_nocase word scheme ≡ true) (plain : all not_slash host ≡ true) where
  strip_scheme-host :
      (rest : List ℕ)
      → text_at buf url ≡ word ++ (host ++ b'/' ∷ rest)
      → (strip_scheme buf scheme url ≡ some (url + length scheme + length host))
        × (text_at buf (url + length scheme + length host) ≡ b'/' ∷ rest)
  unfolding strip_scheme strchr
  strip_scheme-host rest e =
      let (start, size) = starts_nocase-append word scheme (host ++ b'/' ∷ rest) same in
      let behind : text_at buf (url + length scheme) ≡ host ++ b'/' ∷ rest =
        rw (← size) (text_at-add_append buf url word (host ++ b'/' ∷ rest) e) in
      (
        rw (e, start, behind, find_index-append (λ c. c == b'/') host b'/' rest plain refl) refl,
        text_at-add_append buf (url + length scheme) host (b'/' ∷ rest) behind,
      )

  strip_scheme-no_path : text_at buf url ≡ word ++ host → strip_scheme buf scheme url ≡ none
  unfolding strip_scheme strchr
  strip_scheme-no_path e =
      let (start, size) = starts_nocase-append word scheme host same in
      let behind : text_at buf (url + length scheme) ≡ host =
        rw (← size) (text_at-add_append buf url word host e) in
      rw (e, start, behind, find_index-none (λ c. c == b'/') host plain) refl

-- The state after a request line whose target is the path at `path`.
abbrev pub accepted : Conn → ℕ → Conn
accepted c path = record c { m_url = some path; m_check_state = check_state_header }

parse_url-path :
    (c : Conn) (url : ℕ) (rest : List ℕ)
    → text_at c.m_read_buf url ≡ b'/' ∷ rest
    → parse_url c url ≡ ok (no_request, accepted c url)
unfolding parse_url
parse_url-path c url rest e =
    rw
      (
        strip_scheme-path c.m_read_buf (codes "http://") url rest _ e refl,
        parse_url,
        strip_scheme-path c.m_read_buf (codes "https://") url rest _ e refl,
        get_or_of_text c.m_read_buf url b'/' e,
      )
      refl

parse_url-absolute :
    (c : Conn) (url : ℕ) (word host rest : List ℕ)
    → same_nocase word (codes "http://") ≡ true
    → all not_slash host ≡ true
    → text_at c.m_read_buf url ≡ word ++ (host ++ b'/' ∷ rest)
    → (path : ℕ) × (parse_url c url ≡ ok (no_request, accepted c path))
      × (text_at c.m_read_buf path ≡ b'/' ∷ rest)
unfolding parse_url
parse_url-absolute c url word host rest same plain e =
    let (found, text) =
      strip_scheme-host c.m_read_buf (codes "http://") url word host same plain rest e in
    let path = url + 7 + length host in
    (
      path,
      rw
          (
            found,
            parse_url,
            strip_scheme-path c.m_read_buf (codes "https://") path rest _ text refl,
            get_or_of_text c.m_read_buf path b'/' text,
          )
          refl,
      text,
    )

parse_url-no_path :
    (c : Conn) (url : ℕ) (word host : List ℕ)
    → same_nocase word (codes "http://") ≡ true
    → all not_slash host ≡ true
    → text_at c.m_read_buf url ≡ word ++ host
    → parse_url c url ≡ fault
unfolding parse_url
parse_url-no_path c url word host same plain e =
    rw (strip_scheme-no_path c.m_read_buf (codes "http://") url word host same plain e, parse_url)
      refl

-- What a good request line leaves: the headers are read next, the method is GET, and `m_url` points
-- at the string `path`.
abbrev pub IsAccepted : List ℕ → HttpCode × Conn → Type 0
IsAccepted path (code, c) =
    (code ≡ no_request)
    × (c.m_check_state ≡ check_state_header)
    × (c.m_method ≡ get)
    × (p : ℕ) × (c.m_url ≡ some p)
    × (text_at c.m_read_buf p ≡ path)

module _ (c : Conn) (text : ℕ) (method url version : List ℕ)
    (w : IsWords (text_at c.m_read_buf text) method url version) where
  module _ (get_method : same_nocase method (codes "GET") ≡ true)
      (known : is_version version ≡ true) where
    to_parse_url :
        parse_request_line c text
        ≡ parse_url
            (at_version c text method url version w)
            (text + length method + 1 + length w.gap)
    to_parse_url =
        parse_request_line-words c text method url version w ∙ rw (get_method, known) refl

    -- A line of three words, GET in any case, a path that begins with '/' and HTTP/1.0 or HTTP/1.1,
    -- however many blanks stand between them, is accepted with `m_url` at the path.
    pub parse_request_line_path :
        (rest : List ℕ) → url ≡ b'/' ∷ rest → Ends (IsAccepted url) (parse_request_line c text)
    parse_request_line_path rest e =
        let at = url_text c text method url version w in
        let target = text + length method + 1 + length w.gap in
        (
          (no_request, accepted (at_version c text method url version w) target),
          to_parse_url
              ∙ parse_url-path (at_version c text method url version w) target rest (at ∙ e),
          (refl, refl, refl, target, refl, at),
        )

    -- So is one whose target is "http://" in any case, a host and a path: `m_url` is at the path.
    pub parse_request_line_absolute :
        (word host rest : List ℕ)
        → url ≡ word ++ (host ++ b'/' ∷ rest)
        → same_nocase word (codes "http://") ≡ true
        → all not_slash host ≡ true
        → Ends (IsAccepted (b'/' ∷ rest)) (parse_request_line c text)
    parse_request_line_absolute word host rest e same plain =
        let at = url_text c text method url version w in
        let target = text + length method + 1 + length w.gap in
        let (path, run, text') =
          parse_url-absolute (at_version c text method url version w) target word host rest same
            plain (at ∙ e) in
        (
          (no_request, accepted (at_version c text method url version w) path),
          to_parse_url ∙ run,
          (refl, refl, refl, path, refl, text'),
        )

    -- A line of three words whose method is GET in any case, whose version is HTTP/1.0 or HTTP/1.1, and
    -- whose target is "http://" in any case and a host without a '/': strchr returns a null pointer,
    -- which the next strncasecmp reads.
    pub parse_request_line_no_path :
        (word host : List ℕ)
        → url ≡ word ++ host
        → same_nocase word (codes "http://") ≡ true
        → all not_slash host ≡ true
        → parse_request_line c text ≡ fault
    parse_request_line_no_path word host e same plain =
        let at = url_text c text method url version w in
        to_parse_url
        ∙ parse_url-no_path (at_version c text method url version w)
            (text + length method + 1 + length w.gap) word host same plain (at ∙ e)

  -- A line of three words with another method or another version is refused, and the state of the
  -- parser stays.
  pub parse_request_line_refuses :
      (same_nocase method (codes "GET") && is_version version) ≡ false
      → Ends
          (λ (code, c'). (code ≡ bad_request) × (c'.m_check_state ≡ c.m_check_state))
          (parse_request_line c text)
  parse_request_line_refuses bad =
      let words = parse_request_line-words c text method url version w in
      elim (Bool-cases (same_nocase method (codes "GET"))) [
        | inl yes_get ↦ (
          (bad_request, at_version c text method url version w),
          words ∙ rw (yes_get, rw yes_get at bad) refl,
          (refl, refl),
        )
        | inr no_get ↦ (
          (
            bad_request,
            record c {
              m_read_buf = set c.m_read_buf (text + length method) 0;
              m_url = some (text + length method + 1);
            },
          ),
          words ∙ rw no_get refl,
          (refl, refl),
        )
      ]
