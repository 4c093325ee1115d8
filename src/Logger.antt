-- ===== src/Logger.antt =====
-- practice/log/logger.cpp: messages go to a file at once, or through a queue that writer threads
-- empty.
pub mod Laws
pub mod Order
pub mod Stop
mod Tests
use study_record.Common.{
  ℕ, ◌+◌, ◌<◌, ◌≡◌, List, [], ◌∷◌, ◌++◌, length, Bool, true, false, ◌&&◌, not, if◌then◌else◌,
}
use study_record.Common.Threads.{update}

-- The BlockQueue is the list of its messages and its size (BlockQueue/Order shows that it is one), and
-- `ofs` the list of what has been written to the file. `adding` has the messages of the threads that
-- are in addItem, behind its test of stop. `added` has every message that has been taken in, in order;
-- the code does not keep it.
pub record Logger (A : Type 0) : Type 0 where
  pub ofs : List A
  pub is_open : Bool
  pub write_thread_count : ℕ
  pub block_queue : List A
  pub block_queue_size : ℕ
  pub stop_logger : Bool
  pub async_mode : Bool
  pub adding : List A
  pub added : List A

-- The constructor.
abbrev pub create : {A : Type 0} → Logger A
create = record {
  ofs = [];
  is_open = false;
  write_thread_count = 0;
  block_queue = [];
  block_queue_size = 0;
  stop_logger = false;
  async_mode = false;
  adding = [];
  added = [];
}

-- init, up to the start of the writers.
unfoldable pub init : {A : Type 0} → Bool → Bool → ℕ → ℕ → Logger A → Logger A
init set_async_mode stop_logger write_thread_count block_queue_size l =
    if stop_logger then record l { stop_logger = true; async_mode = set_async_mode } else record l {
      stop_logger = false;
      async_mode = set_async_mode;
      is_open = true;
      write_thread_count = if set_async_mode then write_thread_count else 0;
      block_queue_size = if set_async_mode then block_queue_size else l.block_queue_size;
    }

-- Where a writer stands in worker: before the test of its loop, before remove, or with a message
-- that it has taken.
pub data Pc (A : Type 0) : Type 0 where
  testing removing : Pc A
  writing : A → Pc A
  ended : Pc A

abbrev pub is_empty : {A : Type 0} → List A → Bool
is_empty [] = true
is_empty (x ∷ xs) = false

-- A step of a writer. A write to a file that is not open changes nothing, but writers run only after
-- init has opened it.
pub data Move {A : Type 0} (l : Logger A) : Pc A → Logger A → Pc A → Type 0 where
  go_on : (l.stop_logger && is_empty l.block_queue) ≡ false → Move l testing l removing
  leave : (l.stop_logger && is_empty l.block_queue) ≡ true → Move l testing l ended
  remove :
      {x : A} {xs : List A}
      → l.block_queue ≡ x ∷ xs
      → Move l removing (record l { block_queue = xs }) (writing x)
  write_log : {x : A} → Move l (writing x) (record l { ofs = l.ofs ++ x ∷ [] }) testing

-- What any thread may do: addItem, with the message behind its time, and stop. Between addItem's test
-- of stop and the insert into the queue, which waits for room, or the write to the file, other threads
-- may take any steps.
pub data Call {A : Type 0} (l : Logger A) : Logger A → Type 0 where
  add_stopped : (x : A) → l.stop_logger ≡ true → Call l l
  begin_add : (x : A) → l.stop_logger ≡ false → Call l (record l { adding = l.adding ++ x ∷ [] })
  add_async :
      (x : A) (before after : List A)
      → l.adding ≡ before ++ x ∷ after
      → l.async_mode ≡ true
      → length l.block_queue < l.block_queue_size
      → Call l (record l {
        block_queue = l.block_queue ++ x ∷ [];
        adding = before ++ after;
        added = l.added ++ x ∷ [];
      })
  add_sync :
      (x : A) (before after : List A)
      → l.adding ≡ before ++ x ∷ after
      → l.async_mode ≡ false
      → Call l
          (record l { ofs = l.ofs ++ x ∷ []; adding = before ++ after; added = l.added ++ x ∷ [] })
  stop : Call l (record l { stop_logger = true })

-- The logger and its writers, as many as `write_thread_count`.
pub record System (A : Type 0) : Type 0 where
  pub logger : Logger A
  pub pc : ℕ → Pc A

pub data Step {A : Type 0} (s : System A) : System A → Type 0 where
  writer :
      (i : ℕ) {l : Logger A} {p : Pc A}
      → i < s.logger.write_thread_count
      → Move s.logger (s.pc i) l p
      → Step s (record { logger = l; pc = update s.pc i p })
  caller : {l : Logger A} → Call s.logger l → Step s (record s { logger = l })

-- From an init that does not stop the logger.
pub data Reach {A : Type 0} (set_async_mode : Bool) (write_thread_count block_queue_size : ℕ)
    : System A → Type 0 where
  start : Reach set_async_mode write_thread_count block_queue_size (record {
    logger = init set_async_mode false write_thread_count block_queue_size create;
    pc = λ i. testing;
  })
  later :
      {s t : System A}
      → Reach set_async_mode write_thread_count block_queue_size s
      → Step s t
      → Reach set_async_mode write_thread_count block_queue_size t
