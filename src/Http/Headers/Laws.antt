-- ===== src/Http/Headers/Laws.antt =====
-- What parse_headers of practice/http/httpConnection.cpp takes from a header line.
use study_record.Common.{
  ℕ, ◌+◌, ◌^◌, ◌<◌, ◌≡◌, ◌∙◌, refl, ap, some, List, [], ◌∷◌, ◌++◌, true, false, if◌then◌else◌, ◌==◌,
  all, length, codes, get_or, arith,
}
use study_record.Common.Int.{pos}
use study_record.Common.CString.{
  text_at, is_blank, strspn_blank, same_nocase, starts_nocase, count_while,
}
use study_record.Common.CString.Laws.{
  text_at-add_append, get_or_of_text, starts_not, count_while-append, starts_nocase-append,
  starts_nocase-overlap,
}
use study_record.Http.{no_request, Conn}
use study_record.Http.Headers.{value_of, int_of_atol, parse_headers}
use study_record.Http.Numbers.{int_of_atol-decimal}
use study_record.Http.Respond.{decimal}

-- The line at `text`: the name as the code compares it, blanks, and the value.
pub record IsHeader (buf : List ℕ) (text : ℕ) (target name blanks value : List ℕ) : Type 0 where
  pub shape : text_at buf text ≡ name ++ (blanks ++ value)
  pub same : same_nocase name target ≡ true
  pub blank : all is_blank blanks ≡ true
  pub start : starts_not is_blank value ≡ true

module _ (c : Conn) (text : ℕ) (target name blanks value : List ℕ)
    (h : IsHeader c.m_read_buf text target name blanks value) where
  starts : starts_nocase (text_at c.m_read_buf text) target ≡ true
  starts =
      ap (λ t. starts_nocase t target) h.shape
      ∙ (starts_nocase-append name target (blanks ++ value) h.same).0

  value_text : text_at c.m_read_buf (value_of c text target) ≡ value
  unfolding strspn_blank
  value_text =
      let e : text + length target ≡ text + length name =
        omega (arith, (starts_nocase-append name target (blanks ++ value) h.same).1) in
      let after_name = text_at-add_append c.m_read_buf text name (blanks ++ value) h.shape in
      let skipped : strspn_blank c.m_read_buf (text + length name) ≡ length blanks =
        ap (count_while is_blank) after_name
        ∙ count_while-append is_blank blanks value h.blank h.start in
      ap (λ k. text_at c.m_read_buf (k + strspn_blank c.m_read_buf k)) e
      ∙ ap (λ k. text_at c.m_read_buf (text + length name + k)) skipped
      ∙ text_at-add_append c.m_read_buf (text + length name) blanks value after_name

first_byte :
    (c : Conn) (text t : ℕ) (target name : List ℕ) {blanks value : List ℕ}
    → IsHeader c.m_read_buf text (t ∷ target) name blanks value
    → (t == 0) ≡ false
    → (get_or c.m_read_buf text 0 == 0) ≡ false
unfolding same_nocase
first_byte c text t target [] h z = absurd (ground (arith, h.same))
first_byte c text t target (x ∷ name) h z =
    let first = get_or_of_text c.m_read_buf text x h.shape in ground (arith, h.same, first)

-- Content-Length, in any case, sets the length to the number that stands behind it.
pub parse_headers_content_length :
    (c : Conn) (text n : ℕ) (name blanks : List ℕ)
    → IsHeader c.m_read_buf text (codes "Content-Length:") name blanks (decimal n)
    → n < 2 ^ 31
    → parse_headers c text ≡ (no_request, record c { m_content_length = pos n })
unfolding parse_headers
parse_headers_content_length c text n name blanks h lt =
    let target = codes "Content-Length:" in
    let here = starts c text target name blanks (decimal n) h in
    let other =
      starts_nocase-overlap (text_at c.m_read_buf text) target (codes "Connection:") here refl in
    let number : int_of_atol (text_at c.m_read_buf (value_of c text target)) ≡ pos n =
      ap int_of_atol (value_text c text target name blanks (decimal n) h)
      ∙ int_of_atol-decimal n lt in
    rw (first_byte c text _ _ name h refl, other, here)
      (ap (λ k. (no_request, record c { m_content_length = k })) number)

-- Connection, in any case, asks to keep the connection exactly if "keep-alive" stands behind it.
pub parse_headers_connection :
    (c : Conn) (text : ℕ) (name blanks value : List ℕ)
    → IsHeader c.m_read_buf text (codes "Connection:") name blanks value
    → parse_headers c text ≡ (
        if same_nocase value (codes "keep-alive")
        then (no_request, record c { m_linger = true })
        else (no_request, c))
unfolding parse_headers
parse_headers_connection c text name blanks value h =
    let target = codes "Connection:" in
    let here = starts c text target name blanks value h in
    let found = value_text c text target name blanks value h in
    rw (first_byte c text _ _ name h refl, here)
      (ap
        (λ v.
          if same_nocase v (codes "keep-alive")
          then (no_request, record c { m_linger = true })
          else (no_request, c))
        found)

-- Host, in any case, leaves m_host at the text behind it.
pub parse_headers_host :
    (c : Conn) (text : ℕ) (name blanks value : List ℕ)
    → IsHeader c.m_read_buf text (codes "Host:") name blanks value
    → (host : ℕ) × (parse_headers c text ≡ (no_request, record c { m_host = some host }))
      × (text_at c.m_read_buf host ≡ value)
unfolding parse_headers
parse_headers_host c text name blanks value h =
    let target = codes "Host:" in
    let here = starts c text target name blanks value h in
    let line = text_at c.m_read_buf text in
    let other = starts_nocase-overlap line target (codes "Connection:") here refl in
    let other' = starts_nocase-overlap line target (codes "Content-Length:") here refl in
    (
      value_of c text target,
      rw (first_byte c text _ _ name h refl, other, other', here) refl,
      value_text c text target name blanks value h,
    )
