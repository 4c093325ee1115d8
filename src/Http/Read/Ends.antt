-- ===== src/Http/Read/Ends.antt =====
-- process_read ends on every buffer, inside the bytes that were read.
use study_record.Common.{
  ℕ, zero, suc, ◌+◌, ◌-◌, ◌*◌, ◌≤◌, ◌<◌, ◌≡◌, ◌≢◌, refl, ◌∙◌, inl, inr, true, ◌&&◌, if◌then◌else◌,
  Bool-cases, length, arith,
}
use study_record.Common.Run.{
  ok, out_of_fuel, Partial, ended, Partial-bind, Partial-map, Partial-ends, Partial-ne,
}
use study_record.Http.{HttpCode, LineStatus, line_ok, CheckState, FileSystem, Conn}
use study_record.Http.Line.{parse_line}
use study_record.Http.Line.Complete.{parse_line_bounds}
use study_record.Http.Read.{return, again, is_content, is_ok, process_read_loop, process_read}
use study_record.Http.Read.Progress.{round-Keeps}

-- The state after reading on from `c`: the checked index lies between its old value and the end of
-- the bytes read, and neither that end nor the buffer's size has changed.
abbrev pub Within : Conn → Conn → Type 0
Within c c' =
    (c'.m_read_idx ≡ c.m_read_idx)
    × (c.m_checked_idx ≤ c'.m_checked_idx)
    × (c'.m_checked_idx ≤ c.m_read_idx)
    × (length c'.m_read_buf ≡ length c.m_read_buf)

-- One if the next round reads no line.
abbrev weight : CheckState → LineStatus → ℕ
weight s st = if is_content s && is_ok st then 1 else 0

weight-le : (s : CheckState) (st : LineStatus) → weight s st ≤ 1
weight-le s st = ground arith

parse_line-Within : (c : Conn) → c.m_checked_idx ≤ c.m_read_idx → Within c (parse_line c).1
unfolding parse_line
parse_line-Within c h = let b = parse_line_bounds c h in (refl, b.0, b.1, b.2)

parse_line-moved :
    (c : Conn)
    → c.m_checked_idx ≤ c.m_read_idx
    → is_ok (parse_line c).0 ≡ true
    → c.m_checked_idx < (parse_line c).1.m_checked_idx
parse_line-moved c h e = (parse_line_bounds c h).3 (ground arith)

-- Bounds that hold after reading on from a state hold after reading on from an earlier one.
Within-trans : (a b c : Conn) → Within a b → Within b c → Within a c
Within-trans a b c h k = (k.0 ∙ h.0, omega arith, omega arith, k.3 ∙ h.3)

process_read_loop-Within :
    (k : ℕ) (fs : FileSystem) (st : LineStatus) (c : Conn)
    → c.m_checked_idx ≤ c.m_read_idx
    → 2 * (c.m_read_idx - c.m_checked_idx) + weight c.m_check_state st < k
    → Partial (λ r. Within c r.1) (process_read_loop k fs st c)
unfolding process_read_loop
process_read_loop-Within zero fs st c h f = absurd (omega arith)
process_read_loop-Within (suc k) fs st c h f =
    elim (Bool-cases (is_content c.m_check_state && is_ok st)) [
      | inl skip ↦ rw skip (
          Partial-bind
            (round-Keeps c.m_read_idx c.m_checked_idx (length c.m_read_buf) fs c (refl, refl, refl))
            (elim [
              | return code c' ↦ λ b. ended (b.0, omega arith, omega arith, b.2)
              | again st' c' ↦ λ (b, parse_next).
                  Partial-map (process_read_loop-Within k fs st' c' (omega arith) (ground arith))
                    λ r w. Within-trans c c' r.1 (b.0, omega arith, omega arith, b.2) w
            ]))
      | inr line ↦ rw line (elim (Bool-cases (is_ok (parse_line c).0)) [
        | inl good ↦
            let d = (parse_line c).1 in
            let moved = parse_line-moved c h good in
            let w0 = parse_line-Within c h in
            rw good (
              Partial-bind
                (round-Keeps d.m_read_idx d.m_checked_idx (length d.m_read_buf) fs d
                  (refl, refl, refl))
                (elim [
                  | return code c' ↦ λ b. ended (b.0 ∙ w0.0, omega arith, omega arith, b.2 ∙ w0.3)
                  | again st' c' ↦ λ (b, parse_next).
                      Partial-map
                        (process_read_loop-Within k fs st' c' (omega arith)
                          (omega (arith, weight-le c'.m_check_state st')))
                        λ r w.
                          Within-trans c c' r.1 (b.0 ∙ w0.0, omega arith, omega arith, b.2 ∙ w0.3) w
                ]))
        | inr stop ↦ rw stop (ended (parse_line-Within c h))
      ])
    ]

-- On every connection whose checked index is within the bytes read, process_read ends: the loop never
-- outlasts twice the unchecked bytes plus two rounds, and if the run returns, the checked index has
-- not moved back nor past the bytes read, which are as many as before, and so is the buffer's size.
pub process_read_ends :
    (fs : FileSystem) (c : Conn)
    → c.m_checked_idx ≤ c.m_read_idx
    → (process_read fs c ≢ out_of_fuel)
      × ((code : HttpCode) (c' : Conn) → process_read fs c ≡ ok (code, c') → Within c c')
unfolding process_read
process_read_ends fs c h =
    let run : Partial (λ r. Within c r.1) (process_read fs c) =
      process_read_loop-Within (2 * (c.m_read_idx - c.m_checked_idx) + 2) fs line_ok c h
        (omega (arith, weight-le c.m_check_state line_ok)) in
    (Partial-ne run, λ code c' e. Partial-ends (code, c') run e)
