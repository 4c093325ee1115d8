-- ===== src/Http/Receive/Laws.antt =====
-- What Http_Conn::read of practice/http/httpConnection.cpp leaves in the buffer.
use study_record.Common.{
  ℕ, zero, suc, ◌+◌, ◌-◌, ◌≤◌, ◌<◌, ◌≡◌, ◌∙◌, refl, sym, ap, List, [], ◌∷◌, ◌++◌, inl, inr,
  Bool-cases, Bool, true, false, all, map, ltb, leb, length, length-append, append-nil, set, take,
  arith,
}
use study_record.Common.Bytes.{
  write_at, length-write_at, take-whole, take-write_at, write_at-append,
}
use study_record.Http.{read_buffer_size, Conn}
use study_record.Http.Receive.{
  Received, got, would_block, failed, Reading, returned, running, store, read_loop, read,
}

abbrev pub conn_of : Reading → Conn
conn_of (returned b c) = c
conn_of (running c) = c

-- Of the connection, nothing but the bytes behind those that had come has changed.
pub record Grown (c c' : Conn) : Type 0 where
  pub kept : take c.m_read_idx c'.m_read_buf ≡ take c.m_read_idx c.m_read_buf
  pub size : length c'.m_read_buf ≡ length c.m_read_buf
  pub forward : c.m_read_idx ≤ c'.m_read_idx
  pub within : c'.m_read_idx ≤ read_buffer_size
  pub others : c' ≡ record c { m_read_buf = c'.m_read_buf; m_read_idx = c'.m_read_idx }

abbrev with_bytes : Conn → List ℕ → ℕ → Conn
with_bytes c buf idx = record c { m_read_buf = buf; m_read_idx = idx }

length-take : (n : ℕ) (s : List ℕ) → length (take n s) ≤ n
length-take zero s = omega arith
length-take (suc n) [] = omega arith
length-take (suc n) (x ∷ s) = omega (arith, length-take n s)

store-Grown :
    (next : Conn → Reading) (c : Conn) (buf : List ℕ) (idx : ℕ) (s : List ℕ)
    → take c.m_read_idx buf ≡ take c.m_read_idx c.m_read_buf
    → length buf ≡ length c.m_read_buf
    → c.m_read_idx ≤ idx
    → idx + length s ≤ read_buffer_size
    → (take c.m_read_idx (write_at buf idx s) ≡ take c.m_read_idx c.m_read_buf
        → length (write_at buf idx s) ≡ length c.m_read_buf
        → Grown c (conn_of (next (with_bytes c (write_at buf idx s) (idx + length s)))))
    → Grown c (conn_of (store next s (with_bytes c buf idx)))
unfolding store
store-Grown next c buf idx [] k z f w later = record {
  kept = k;
  size = z;
  forward = f;
  within = omega (arith, w);
  others = refl;
}
store-Grown next c buf idx (x ∷ s) k z f w later =
    later (take-write_at (x ∷ s) buf c.m_read_idx idx f ∙ k) (length-write_at (x ∷ s) buf idx ∙ z)

read_loop-Grown :
    (calls : List Received) (c : Conn) (buf : List ℕ) (idx : ℕ)
    → take c.m_read_idx buf ≡ take c.m_read_idx c.m_read_buf
    → length buf ≡ length c.m_read_buf
    → c.m_read_idx ≤ idx
    → idx ≤ read_buffer_size
    → Grown c (conn_of (read_loop calls (with_bytes c buf idx)))
unfolding read_loop
read_loop-Grown (got s ∷ rest) c buf idx k z f w =
    let t = take (read_buffer_size - idx) s in
    let fits = length-take (read_buffer_size - idx) s in
    store-Grown (read_loop rest) c buf idx t k z f (omega (arith, w, fits)) λ k' z'.
      read_loop-Grown rest c (write_at buf idx t) (idx + length t) k' z' (omega (arith, f))
        (omega (arith, w, fits))
read_loop-Grown [] c buf idx k z f w = record {
  kept = k;
  size = z;
  forward = f;
  within = w;
  others = refl;
}
read_loop-Grown (would_block ∷ rest) c buf idx k z f w = record {
  kept = k;
  size = z;
  forward = f;
  within = w;
  others = refl;
}
read_loop-Grown (failed ∷ rest) c buf idx k z f w = record {
  kept = k;
  size = z;
  forward = f;
  within = w;
  others = refl;
}

-- With an index within the buffer, and whatever the calls of recv find, read keeps the buffer's size
-- and the bytes that had come, never moves m_read_idx back or past the buffer, and changes nothing else
-- of the connection.
pub read_bounds :
    (calls : List Received) (c : Conn)
    → c.m_read_idx ≤ read_buffer_size
    → Grown c (conn_of (read calls c))
unfolding read
read_bounds calls c le = elim (Bool-cases (leb read_buffer_size c.m_read_idx)) [
  | inl full ↦
      rw full
        (record { kept = refl; size = refl; forward = omega arith; within = le; others = refl })
  | inr room ↦
      rw room (read_loop-Grown calls c c.m_read_buf c.m_read_idx refl refl (omega arith) le)
]

abbrev pub joined : List (List ℕ) → List ℕ
joined [] = []
joined (s ∷ pieces) = s ++ joined pieces

abbrev pub is_piece : List ℕ → Bool
is_piece s = ltb 0 (length s)

write_at-write_at :
    (s t buf : List ℕ) (i : ℕ)
    → write_at (write_at buf i s) (i + length s) t ≡ write_at buf i (s ++ t)
unfolding write_at
write_at-write_at [] t buf i = ap (λ k. write_at buf k t) (omega arith)
write_at-write_at (x ∷ s) t buf i =
    let e : i + suc (length s) ≡ i + 1 + length s = omega arith in
    rw e (write_at-write_at s t (set buf i x) (i + 1))

read_loop-pieces :
    (pieces : List (List ℕ)) (rest : List Received) (c : Conn) (buf : List ℕ) (idx : ℕ)
    → all is_piece pieces ≡ true
    → idx + length (joined pieces) ≤ read_buffer_size
    → read_loop (map got pieces ++ rest) (with_bytes c buf idx)
      ≡ read_loop rest
          (with_bytes c (write_at buf idx (joined pieces)) (idx + length (joined pieces)))
unfolding read_loop store write_at
read_loop-pieces [] rest c buf idx h room =
    ap (λ k. read_loop rest (with_bytes c buf k)) (omega arith)
read_loop-pieces ((x ∷ s) ∷ pieces) rest c buf idx h room =
    let t = joined pieces in
    let size = length-append (x ∷ s) t in
    let next = read_loop (map got pieces ++ rest) in
    let e : idx + suc (length s) + length t ≡ idx + length ((x ∷ s) ++ t) = omega (arith, size) in
    ap (λ p. store next p (with_bytes c buf idx))
      (take-whole (read_buffer_size - idx) (x ∷ s) (omega (arith, room, size)))
    ∙ read_loop-pieces pieces rest c (write_at buf idx (x ∷ s)) (idx + suc (length s))
        (ground arith) (omega (arith, room, size))
    ∙ ap (λ b. read_loop rest (with_bytes c b (idx + suc (length s) + length t)))
        (write_at-write_at (x ∷ s) t buf idx)
    ∙ ap (λ k. read_loop rest (with_bytes c (write_at buf idx ((x ∷ s) ++ t)) k)) e
read_loop-pieces ([] ∷ pieces) rest c buf idx h room = absurd (ground arith)

module _ (pieces : List (List ℕ)) (rest : List Received) (c : Conn) where
  -- Pieces that are not empty, and for which there is room behind the bytes that had come, both in the
  -- buffer and below READ_BUFFER_SIZE, stand one after the other behind those bytes when recv would
  -- block next: read returns true, with m_read_idx behind the last.
  pub read_collects :
      c.m_read_idx < read_buffer_size
      → all is_piece pieces ≡ true
      → c.m_read_idx + length (joined pieces) ≤ length c.m_read_buf
      → c.m_read_idx + length (joined pieces) ≤ read_buffer_size
      → (buf : List ℕ) × (read (map got pieces ++ would_block ∷ rest) c
          ≡ returned true
              (record c { m_read_buf = buf; m_read_idx = c.m_read_idx + length (joined pieces) }))
        × (take (c.m_read_idx + length (joined pieces)) buf
            ≡ take c.m_read_idx c.m_read_buf ++ joined pieces)
  unfolding read read_loop
  read_collects lt h room le =
      let t = joined pieces in
      let open_ : leb read_buffer_size c.m_read_idx ≡ false = ground arith in
      (
        write_at c.m_read_buf c.m_read_idx t,
        rw open_ (read_loop-pieces pieces (would_block ∷ rest) c c.m_read_buf c.m_read_idx h le),
        ap (λ s. take (c.m_read_idx + length t) (write_at c.m_read_buf c.m_read_idx s))
              (sym (append-nil t))
            ∙ write_at-append t [] c.m_read_buf c.m_read_idx (c.m_read_idx + length t) refl room,
      )

  -- Pieces that are not empty fill the buffer to READ_BUFFER_SIZE exactly, and more bytes wait, `s`:
  -- recv is then asked for no byte, and read takes its 0 for the end of the connection and returns
  -- false, as it does when the peer has closed it.
  pub read_full :
      (s : List ℕ)
      → c.m_read_idx < read_buffer_size
      → all is_piece pieces ≡ true
      → c.m_read_idx + length (joined pieces) ≡ read_buffer_size
      → read (map got pieces ++ got s ∷ rest) c
        ≡ returned false (record c {
          m_read_buf = write_at c.m_read_buf c.m_read_idx (joined pieces);
          m_read_idx = c.m_read_idx + length (joined pieces);
        })
  unfolding read read_loop store
  read_full s lt h e =
      let open_ : leb read_buffer_size c.m_read_idx ≡ false = ground arith in
      let none_left : read_buffer_size - (c.m_read_idx + length (joined pieces)) ≡ 0 =
        omega arith in
      rw open_ (
        read_loop-pieces pieces (got s ∷ rest) c c.m_read_buf c.m_read_idx h (omega (arith, e))
        ∙ ap
            (λ n. store (read_loop rest) (take n s) (
              with_bytes c (write_at c.m_read_buf c.m_read_idx (joined pieces))
                (c.m_read_idx + length (joined pieces))))
            none_left)
