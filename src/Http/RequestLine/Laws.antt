-- ===== src/Http/RequestLine/Laws.antt =====
-- parse_request_line on the words of a line.
use study_record.Common.{
  ℕ, ◌+◌, ◌≡◌, ◌≢◌, refl, ◌∙◌, List, [], ◌∷◌, ◌++◌, some, Bool, true, false, not, if◌then◌else◌,
  codes, length, set, all, arith,
}
use study_record.Common.Run.{ok}
use study_record.Common.CString.{is_blank, text_at, strpbrk_blank, strspn_blank, same_nocase}
use study_record.Common.CString.Laws.{
  text_at-add_append, text_at-add_cons, text_at-set_append, text_at-set_lt, find_index-append,
  starts_not, count_while-append,
}
use study_record.Http.{bad_request, get, Conn}
use study_record.Http.RequestLine.{
  parse_url, is_version, parse_version, parse_method, parse_request_line,
}

abbrev pub no_blank : List ℕ → Bool
no_blank = all (λ c. not (is_blank c))

pub strpbrk_blank-append :
    (buf : List ℕ) (i : ℕ) (xs : List ℕ) (c : ℕ) (ys : List ℕ)
    → text_at buf i ≡ xs ++ c ∷ ys
    → no_blank xs ≡ true
    → is_blank c ≡ true
    → strpbrk_blank buf i ≡ some (i + length xs)
unfolding strpbrk_blank
strpbrk_blank-append buf i xs c ys e p q = rw (e, find_index-append is_blank xs c ys p q) refl

strspn_blank-append :
    (buf : List ℕ) (i : ℕ) (xs ys : List ℕ)
    → text_at buf i ≡ xs ++ ys
    → all is_blank xs ≡ true
    → starts_not is_blank ys ≡ true
    → strspn_blank buf i ≡ length xs
unfolding strspn_blank
strspn_blank-append buf i xs ys e p q = rw e (count_while-append is_blank xs ys p q)

-- A word, a blank that ends it, and the blanks that follow: what the parser does at each of them.
module _ (buf : List ℕ) (i : ℕ) (word : List ℕ) (c : ℕ) (pad rest : List ℕ)
    (e : text_at buf i ≡ word ++ c ∷ (pad ++ rest)) (p : all is_blank pad ≡ true)
    (q : starts_not is_blank rest ≡ true) where
  abbrev pub cut : List ℕ
  cut = set buf (i + length word) 0

  pub word_cut : text_at cut i ≡ word
  word_cut = text_at-set_append buf i word (pad ++ rest) c e

  behind : text_at cut (i + length word + 1) ≡ pad ++ rest
  behind =
      text_at-set_lt buf (i + length word) (i + length word + 1) 0 (omega arith)
      ∙ text_at-add_cons buf i word c (pad ++ rest) e

  pub skip : strspn_blank cut (i + length word + 1) ≡ length pad
  skip = strspn_blank-append cut (i + length word + 1) pad rest behind p q

  pub next_word : text_at cut (i + length word + 1 + length pad) ≡ rest
  next_word = text_at-add_append cut (i + length word + 1) pad rest behind

pub not-if {ℓ} : {A : Type ℓ} (x y : A) (b : Bool) → (if not b then x else y) ≡ (if b then y else x)
not-if x y true = refl
not-if x y false = refl

-- `line` is a method, a request target and a version, each behind one or more blanks.
pub record IsWords (line method url version : List ℕ) : Type 0 where
  pub sep : ℕ
  pub gap : List ℕ
  pub sep' : ℕ
  pub gap' : List ℕ
  pub shape : line ≡ method ++ sep ∷ (gap ++ (url ++ sep' ∷ (gap' ++ version)))
  pub method_word : no_blank method ≡ true
  pub sep_blank : is_blank sep ≡ true
  pub gap_blank : all is_blank gap ≡ true
  pub url_word : no_blank url ≡ true
  pub url_some : url ≢ []
  pub sep'_blank : is_blank sep' ≡ true
  pub gap'_blank : all is_blank gap' ≡ true
  pub version_start : starts_not is_blank version ≡ true

pub starts_not-url :
    (url s : List ℕ) → no_blank url ≡ true → url ≢ [] → starts_not is_blank (url ++ s) ≡ true
starts_not-url [] s p q = absurd (q refl)
starts_not-url (x ∷ url) s p q = ground arith

module _ (c : Conn) (text : ℕ) (method url version : List ℕ)
    (w : IsWords (text_at c.m_read_buf text) method url version) where
  open w use {sep, gap, sep', gap'}

  abbrev tail : List ℕ
  tail = url ++ sep' ∷ (gap' ++ version)

  abbrev end : ℕ
  end = text + length method

  abbrev target : ℕ
  target = end + 1 + length gap

  abbrev end' : ℕ
  end' = target + length url

  abbrev buf1 : List ℕ
  buf1 = set c.m_read_buf end 0

  abbrev buf2 : List ℕ
  buf2 = set buf1 end' 0

  tail_start : starts_not is_blank tail ≡ true
  tail_start = starts_not-url url (sep' ∷ (gap' ++ version)) w.url_word w.url_some

  -- The state in which the version has been found.
  abbrev pub at_version : Conn
  at_version = record c {
    m_read_buf = buf2;
    m_method = get;
    m_url = some target;
    m_version = some (end' + 1 + length gap');
  }

  first_word : strpbrk_blank c.m_read_buf text ≡ some end
  first_word =
      strpbrk_blank-append c.m_read_buf text method sep (gap ++ tail) w.shape w.method_word
        w.sep_blank

  tail_text : text_at buf1 target ≡ tail
  tail_text = next_word c.m_read_buf text method sep gap tail w.shape w.gap_blank tail_start

  second_word : strpbrk_blank buf1 target ≡ some end'
  second_word =
      strpbrk_blank-append buf1 target url sep' (gap' ++ version) tail_text w.url_word w.sep'_blank

  pub url_text : text_at buf2 target ≡ url
  url_text = word_cut buf1 target url sep' gap' version tail_text w.gap'_blank w.version_start

  version_step :
      (m : Conn)
      → m.m_read_buf ≡ buf1
      → parse_version m target ≡ (
          let m' = record m { m_read_buf = buf2; m_version = some (end' + 1 + length gap') } in
          if is_version version then parse_url m' target else ok (bad_request, m'))
  unfolding parse_version
  version_step m e =
      let skipped = skip buf1 target url sep' gap' version tail_text w.gap'_blank w.version_start in
      let found =
        next_word buf1 target url sep' gap' version tail_text w.gap'_blank w.version_start in
      rw (e, second_word, parse_version, e, skipped, found, not-if _ _ (is_version version))

  -- On such a line the code reads exactly the three words: a method other than GET and a version
  -- other than 1.0 and 1.1 are refused, and the target is left to parse_url.
  pub parse_request_line-words : parse_request_line c text ≡ (
      if same_nocase method (codes "GET")
      then if is_version version then parse_url at_version target else ok (bad_request, at_version)
      else ok (bad_request, record c { m_read_buf = buf1; m_url = some (end + 1) }))
  unfolding parse_request_line parse_method
  parse_request_line-words =
      let word = word_cut c.m_read_buf text method sep gap tail w.shape w.gap_blank tail_start in
      let skipped = skip c.m_read_buf text method sep gap tail w.shape w.gap_blank tail_start in
      rw (first_word, parse_request_line, word, skipped)
        (rw
          (version_step (record c { m_read_buf = buf1; m_method = get; m_url = some target }) refl))
