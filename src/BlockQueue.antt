-- ===== src/BlockQueue.antt =====
-- practice/log/blockQueue.h: the bounded queue of the logger, used by many threads at once.
mod Contents
pub mod Invariant
mod Order
mod Tests
use study_record.Common.{
  ℕ, suc, ◌+◌, ◌-◌, ◌%◌, ◌^◌, ◌<◌, List, Bool, true, false, ◌==◌, get_or, set, replicate,
}
use study_record.Common.Threads.{update}

-- `buf[i]` before any insert holds a default value, which `empty_item` stands for.
pub record BlockQueue (A : Type 0) : Type 0 where
  pub buf : List A
  pub max_size : ℕ
  pub front : ℕ
  pub rear : ℕ
  pub mutex : ℕ
  pub slots : ℕ
  pub items : ℕ

-- The constructor and init().
abbrev pub init : {A : Type 0} → A → ℕ → BlockQueue A
init empty_item size = record {
  buf = replicate size empty_item;
  max_size = size;
  front = 0;
  rear = 0;
  mutex = 1;
  slots = size;
  items = 0;
}

-- empty(), by the value of the semaphore `slots`.
unfoldable pub empty : {A : Type 0} → BlockQueue A → Bool
empty q = q.slots == q.max_size

-- `buf[(++(rear)) % max_size] = item`
unfoldable pub store : {A : Type 0} → BlockQueue A → A → BlockQueue A
store q x = record q { rear = q.rear + 1; buf = set q.buf ((q.rear + 1) % q.max_size) x }

-- `item = buf[++(front) % max_size]`: the item, and the queue behind it. What the moved-from entry
-- holds is not specified, and is never read.
unfoldable pub load : {A : Type 0} → A → BlockQueue A → A × BlockQueue A
load empty_item q =
    (get_or q.buf ((q.front + 1) % q.max_size) empty_item, record q { front = q.front + 1 })

-- Where a thread stands in insert or remove, with the item that it carries.
pub data Pc (A : Type 0) : Type 0 where
  idle : Pc A
  wait_slots : A → Pc A
  insert_lock : A → Pc A
  storing : A → Pc A
  insert_unlock : Pc A
  post_items : Pc A
  wait_items : Pc A
  remove_lock : Pc A
  loading : Pc A
  remove_unlock : A → Pc A
  post_slots : A → Pc A

-- One step of one thread. A sem_wait passes only if the semaphore is above zero. The increments of
-- `rear` and `front` are defined behaviour while they stay within `int`.
pub data Move {A : Type 0} (empty_item : A) (q : BlockQueue A)
    : Pc A → BlockQueue A → Pc A → Type 0 where
  call_insert : (x : A) → Move empty_item q idle q (wait_slots x)
  take_slot :
      {x : A}
      → 0 < q.slots
      → Move empty_item q (wait_slots x) (record q { slots = q.slots - 1 }) (insert_lock x)
  lock_insert :
      {x : A}
      → 0 < q.mutex
      → Move empty_item q (insert_lock x) (record q { mutex = q.mutex - 1 }) (storing x)
  put : {x : A} → q.rear + 1 < 2 ^ 31 → Move empty_item q (storing x) (store q x) insert_unlock
  unlock_insert : Move empty_item q insert_unlock (record q { mutex = q.mutex + 1 }) post_items
  give_item : Move empty_item q post_items (record q { items = q.items + 1 }) idle
  call_remove : Move empty_item q idle q wait_items
  take_item :
      0 < q.items → Move empty_item q wait_items (record q { items = q.items - 1 }) remove_lock
  lock_remove :
      0 < q.mutex → Move empty_item q remove_lock (record q { mutex = q.mutex - 1 }) loading
  get :
      q.front + 1 < 2 ^ 31
      → Move empty_item q loading (load empty_item q).1 (remove_unlock (load empty_item q).0)
  unlock_remove :
      {x : A}
      → Move empty_item q (remove_unlock x) (record q { mutex = q.mutex + 1 }) (post_slots x)
  give_slot : {x : A} → Move empty_item q (post_slots x) (record q { slots = q.slots + 1 }) idle

-- The queue and its `n` threads, which take their steps in any order.
pub record System (A : Type 0) : Type 0 where
  pub queue : BlockQueue A
  pub pc : ℕ → Pc A

pub data Step {A : Type 0} (empty_item : A) (n : ℕ) (s : System A) : System A → Type 0 where
  pick :
      (i : ℕ) {q : BlockQueue A} {p : Pc A}
      → i < n
      → Move empty_item s.queue (s.pc i) q p
      → Step empty_item n s (record { queue = q; pc = update s.pc i p })

pub data Reach {A : Type 0} (empty_item : A) (n size : ℕ) : System A → Type 0 where
  start : Reach empty_item n size (record { queue = init empty_item size; pc = λ _. idle })
  later :
      {s t : System A}
      → Reach empty_item n size s
      → Step empty_item n s t
      → Reach empty_item n size t
