-- ===== src/WebServer/Workers/Turns.antt =====
-- The main thread of practice/web_server/webServer.cpp and the workers take turns.
use study_record.Common.{ℕ, ◌≤◌, ◌≡◌, ◌≢◌, List, true, false}
use study_record.Common.Run.{Run, ok, fault, ◌>>=◌}
use study_record.Http.Receive
use study_record.Http.Write
use study_record.Http.Process.{Answers}
use study_record.Http.Read.{process_read}
use study_record.WebServer.{Server, task_of}
use study_record.WebServer.Loop.{Flags, Event, deal_event, after_events}
use study_record.WebServer.Invariant.{IsServer}
use study_record.WebServer.Transfer.{is_read, is_written}
use study_record.WebServer.Events.{IsAdmitted}
use study_record.WebServer.Workers.{work}
use study_record.WebServer.Workers.Tasks.{parsed, is_write}

-- What a worker's task finds: an entry of `users` that init was called on, whose checked index is within
-- the bytes read, results of recv and writev that last until read and write return, and, unless it is
-- to write, a connection on which process_read is free of undefined behaviour.
pub record IsReady (fd : ℕ) (a : Answers) (s : Server) : Type 0 where
  pub known : s.initialised fd ≡ true
  pub checked : (s.users fd).conn.m_checked_idx ≤ (s.users fd).conn.m_read_idx
  pub read : is_read (Receive.read a.received (s.users fd).conn) ≡ true
  pub written : is_written (Write.write a.sent (s.users fd).conn) ≡ true
  pub parses :
      is_write (task_of fd s) ≡ false → process_read a.files (parsed a (task_of fd s)) ≢ fault

-- What can come next: the main thread deals with an event, or with what has to be done behind the events
-- of a round, or a worker takes up a connection.
pub data Due (nofile : ℕ) (s : Server) : Type 0 where
  event : (e : Event) → IsAdmitted nofile e s → Due nofile s
  round_end : Due nofile s
  task : (fd : ℕ) (a : Answers) → IsReady fd a s → Due nofile s

-- One turn, which is not interrupted.
unfoldable pub take_turn : {nofile : ℕ} → Flags → (s : Server) → Due nofile s → Run (Flags × Server)
take_turn f s (event e h) = deal_event e (f, s)
take_turn f s round_end = after_events (f, s)
take_turn f s (task fd a h) = work fd a s >>= λ s'. ok (f, s')

-- Any number of turns, in any order.
pub data Turns (nofile : ℕ) (r : Flags × Server) : Flags × Server → Type 0 where
  none_taken : Turns nofile r r
  then_turn :
      {f : Flags} {s : Server} {r' : Flags × Server}
      → Turns nofile r (f, s)
      → (d : Due nofile s) → take_turn f s d ≡ ok r'
      → Turns nofile r r'

abbrev Agrees : Flags × Server → Type 0
Agrees (f, s) = (ts : ℕ → List ℕ) × IsServer s ts
