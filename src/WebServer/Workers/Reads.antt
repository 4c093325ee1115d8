-- ===== src/WebServer/Workers/Reads.antt =====
-- What read of practice/http/httpConnection.cpp leaves of the checked index.
use study_record.Common.{
  ◌-◌, ℕ, ◌≤◌, List, [], ◌∷◌, Bool, true, false, leb, take, if◌then◌else◌, arith,
}
use study_record.Http.{read_buffer_size, Conn}
use study_record.Http.Receive.{Reading, Received}
use study_record.Http.Receive

-- read leaves the checked index within the bytes read.
abbrev pub IsChecked : Reading → Type 0
IsChecked (Receive.returned b c) = c.m_checked_idx ≤ c.m_read_idx
IsChecked (Receive.running c) = c.m_checked_idx ≤ c.m_read_idx

store-IsChecked :
    (next : Conn → Reading) (s : List ℕ) (c : Conn)
    → c.m_checked_idx ≤ c.m_read_idx
    → ((c' : Conn) → c'.m_checked_idx ≤ c'.m_read_idx → IsChecked (next c'))
    → IsChecked (Receive.store next s c)
unfolding Receive.store
store-IsChecked next [] c le later = le
store-IsChecked next (x ∷ s) c le later = later _ (omega (arith, le))

read_loop-IsChecked :
    (calls : List Received) (c : Conn)
    → c.m_checked_idx ≤ c.m_read_idx
    → IsChecked (Receive.read_loop calls c)
unfolding Receive.read_loop
read_loop-IsChecked [] c le = le
read_loop-IsChecked (Receive.would_block ∷ rest) c le = le
read_loop-IsChecked (Receive.failed ∷ rest) c le = le
read_loop-IsChecked (Receive.got s ∷ rest) c le =
    store-IsChecked (Receive.read_loop rest) (take (read_buffer_size - c.m_read_idx) s) c le
      (λ c' le'. read_loop-IsChecked rest c' le')

pub read-IsChecked :
    (calls : List Received) (c : Conn)
    → c.m_checked_idx ≤ c.m_read_idx
    → IsChecked (Receive.read calls c)
unfolding Receive.read
read-IsChecked calls c le = either (leb read_buffer_size c.m_read_idx)
  where
    either :
        (b : Bool) → IsChecked (if b then Receive.returned false c else Receive.read_loop calls c)
    either true = le
    either false = read_loop-IsChecked calls c le
