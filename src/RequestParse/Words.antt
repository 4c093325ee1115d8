-- ===== src/RequestParse/Words.antt =====
-- The words of a request line, as mine/practice/httpRequestParse.cpp reads them.
use study_record.Common.{
  ℕ, ◌+◌, ◌≤◌, ◌≡◌, ◌∙◌, refl, ap, List, ◌∷◌, ◌++◌, true, codes, length, length-append, set, drop,
  drop-set_lt, arith,
}
use study_record.Common.CString.{is_blank, text_at, same_nocase}
use study_record.Common.CString.Laws.{starts_not, get_or_of_text}
use study_record.Http.RequestLine.Laws.{
  IsWords, strpbrk_blank-append, word_cut, skip, next_word, starts_not-url,
}
use study_record.Http.RequestLine.Url.{strip_scheme-path}
use study_record.RequestParse.{
  CheckState, check_state_header, no_request, parse_uri, parse_version, parse_requestline,
}

module _ (buf : List ℕ) (temp : ℕ) (st : CheckState) (method url version rest : List ℕ)
    (w : IsWords (text_at buf temp) method url version) (path : url ≡ b'/' ∷ rest)
    (is_get : same_nocase method (codes "GET") ≡ true)
    (is_version : same_nocase version (codes "HTTP/1.1") ≡ true) where
  open w use {sep, gap, sep', gap'}

  abbrev tail : List ℕ
  tail = url ++ sep' ∷ (gap' ++ version)

  abbrev end : ℕ
  end = temp + length method

  abbrev uri : ℕ
  uri = end + 1 + length gap

  abbrev end' : ℕ
  end' = uri + length url

  abbrev buf1 : List ℕ
  buf1 = set buf end 0

  abbrev pub cut_line : List ℕ
  cut_line = set buf1 end' 0

  tail_start : starts_not is_blank tail ≡ true
  tail_start = starts_not-url url (sep' ∷ (gap' ++ version)) w.url_word w.url_some

  tail_text : text_at buf1 uri ≡ tail
  tail_text = next_word buf temp method sep gap tail w.shape w.gap_blank tail_start

  parse_uri_path : parse_uri cut_line uri st ≡ (no_request, cut_line, check_state_header)
  unfolding parse_uri
  parse_uri_path =
      let here =
        word_cut buf1 uri url sep' gap' version tail_text w.gap'_blank w.version_start ∙ path in
      rw
        (
          parse_uri,
          strip_scheme-path cut_line (codes "http://") uri rest _ here refl,
          get_or_of_text cut_line uri b'/' here,
        )
        refl

  parse_version_known : parse_version buf1 uri st ≡ (no_request, cut_line, check_state_header)
  unfolding parse_version
  parse_version_known =
      let second =
        strpbrk_blank-append buf1 uri url sep' (gap' ++ version) tail_text w.url_word
          w.sep'_blank in
      let skipped = skip buf1 uri url sep' gap' version tail_text w.gap'_blank w.version_start in
      let found = next_word buf1 uri url sep' gap' version tail_text w.gap'_blank w.version_start in
      rw (second, parse_version, skipped, found, is_version) parse_uri_path

  pub parse_requestline_path :
      parse_requestline buf temp st ≡ (no_request, cut_line, check_state_header)
  unfolding parse_requestline
  parse_requestline_path =
      let first =
        strpbrk_blank-append buf temp method sep (gap ++ tail) w.shape w.method_word w.sep_blank in
      let word = word_cut buf temp method sep gap tail w.shape w.gap_blank tail_start in
      let skipped = skip buf temp method sep gap tail w.shape w.gap_blank tail_start in
      rw (first, parse_requestline, word, is_get, skipped) parse_version_known

  -- What stands behind the line is left as it is.
  pub drop-cut_line : (j : ℕ) → temp + length (text_at buf temp) ≤ j → drop j cut_line ≡ drop j buf
  drop-cut_line j le =
      drop-set_lt buf1 end' j 0 (omega (arith, inside))
      ∙ drop-set_lt buf end j 0 (omega (arith, inside))
    where
      inside :
          length (text_at buf temp)
          ≡ length method + (1 + (length gap + (length url + (1 + (length gap' + length version)))))
      inside =
          ap length w.shape
          ∙ omega (
            arith,
            length-append method (sep ∷ (gap ++ tail)),
            length-append gap tail,
            length-append url (sep' ∷ (gap' ++ version)),
            length-append gap' version,
          )
