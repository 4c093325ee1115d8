-- ===== src/WebServer/Tests.antt =====
-- Runs of the main thread of practice/web_server/webServer.cpp.
use study_record.Common.{
  ℕ, ◌<◌, ◌≡◌, refl, List, [], ◌∷◌, Option, some, true, false, ◌==◌, codes, arith,
}
use study_record.Common.Run.{ok}
use study_record.Common.Int.{pos}
use study_record.Common.Threads.{update, update-all}
use study_record.TimeWheel.Due.{due}
use study_record.Http.Samples.{received, files}
use study_record.Http.Receive.{would_block, read, read_loop}
use study_record.Http.Write.{write}
use study_record.Http.Process.{is_closed, Answers}
use study_record.Http.Read.{process_read, process_read_loop}
use study_record.Http.Line.{parse_line}
use study_record.WebServer.{User, Server, max_fd, create, init, deal_connection}
use study_record.WebServer.Start.{no_lists, create-IsServer}
use study_record.WebServer.Workers.{work}
use study_record.WebServer.Workers.Tasks.{work-Serves}
use study_record.WebServer.Workers.Turns.{IsReady, Due, task, Turns}
use study_record.WebServer.Loop.{Flags, Event, Wait, events, tick_timers}
use study_record.WebServer.Invariant.{IsServer, IsServer-conn}
use study_record.WebServer.Close.{Serves}
use study_record.WebServer.Open.{deal_connection_lem}
use study_record.WebServer.Idle.{tick_times, idle_closed}

-- The server before the first connection, on the descriptors 3 and 4.
abbrev new_server : Server
new_server = init 3 4 false (create (λ fd. received []))

new_server-IsServer : IsServer new_server no_lists
new_server-IsServer = create-IsServer (λ fd. received []) 3 4 false

-- The connection 5 with the timer 1.
abbrev connected :
    (s' : Server) × (ts' : ℕ → List ℕ) × (deal_connection (some 5) 1 new_server ≡ ok s')
    × IsServer s' ts'
    × ((s'.users 5).m_sockfd ≡ pos 5)
    × ((s'.users 5).timer ≡ some 1)
    × (due s'.tw 1 ≡ 3)
    × ((i : ℕ) → (5 == i) ≡ false → s'.users i ≡ new_server.users i)
connected =
    deal_connection_lem new_server no_lists new_server-IsServer 1 refl 5 (omega arith) refl refl

idle_closed_example :
    (s1 : Server) × (s2 : Server) × (tick_times 3 connected.0 ≡ ok s1)
    × (s1.users 5 ≡ connected.0.users 5)
    × (tick_timers s1 ≡ ok s2)
    × (is_closed (s2.users 5).m_sockfd ≡ true)
idle_closed_example = idle_closed 3 connected.0 connected.1 5 1 connected.3 connected.5 connected.6

-- A client connects, and then an alarm comes.
abbrev reported : ℕ → Option ℕ → List ℕ → Event
reported fd accepted signals = record {
  sockfd = fd;
  epollin = true;
  epollout = false;
  epollhup = false;
  epollerr = false;
  epollrdhup = false;
  accepted = accepted;
  timer = 1;
  signals = signals;
  received = would_block ∷ [];
  sent = [];
}

abbrev started : Flags
started = record { timeout = false; stop_server = false }

abbrev waits : List Wait
waits = events (reported 3 (some 5) [] ∷ []) ∷ []

-- The entry 5 had a connection that has read the first bytes of a request and has been closed since.
abbrev begun : User
begun = record (new_server.users 5) { conn = received (codes "GET") }

abbrev asked_server : Server
asked_server = record new_server {
  users = update new_server.users 5 begun;
  initialised = update new_server.initialised 5 true;
}

asked_server-IsServer : IsServer asked_server no_lists
asked_server-IsServer =
    IsServer-conn (record new_server { initialised = update new_server.initialised 5 true })
      no_lists 5 begun new_server.effects used (omega arith) refl refl
  where
    used :
        IsServer (record new_server { initialised = update new_server.initialised 5 true }) no_lists
    used = record {
      wheel = new_server-IsServer.wheel;
      owned = λ n t h. cc;
      timed = λ fd t h. cc;
      expected = λ t h. cc;
      outside = λ n t h. refl;
      once = refl;
      shut = λ fd. refl;
      named =
          update-all (λ i b. b ≡ true → i < max_fd) new_server.initialised 5 true (λ e. omega arith)
            (λ i d e. cc);
      set = λ fd t h. cc;
      count = new_server-IsServer.count;
    }

abbrev answers : Answers
answers = record { received = would_block ∷ []; sent = []; files = files }

asked_server-IsReady : IsReady 5 answers asked_server
unfolding read read_loop write process_read process_read_loop parse_line
asked_server-IsReady = record {
  known = refl;
  checked = omega arith;
  read = refl;
  written = refl;
  parses = λ h e. cc;
}

work-Serves_example : Serves (work 5 answers asked_server)
work-Serves_example =
    work-Serves asked_server no_lists 5 answers asked_server-IsServer asked_server-IsReady.known
      asked_server-IsReady.checked asked_server-IsReady.read asked_server-IsReady.written
      asked_server-IsReady.parses

abbrev due_task : Due 1024 asked_server
due_task = task 5 answers asked_server-IsReady
