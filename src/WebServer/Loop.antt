-- ===== src/WebServer/Loop.antt =====
-- eventloop of practice/web_server/webServer.cpp, with deal_signal.
use study_record.Common.{
  ℕ, ◌+◌, List, [], ◌∷◌, all, Option, Bool, true, false, ◌==◌, ◌&&◌, ◌||◌, if◌then◌else◌,
}
use study_record.Common.Run.{Run, ok, fault, ◌>>=◌}
use study_record.TimeWheel
use study_record.Http.Receive.{Received}
use study_record.Http.Write.{Sent}
use study_record.WebServer.{
  Server, time_slot, max_fd, alarm, emit, timer_cb_func, deal_connection, deal_err, deal_close,
  deal_read, deal_write,
}

-- SIGALRM, SIGINT and SIGTERM, as on Linux.
abbrev pub sigalrm : ℕ
sigalrm = 14

abbrev pub sigint : ℕ
sigint = 2

abbrev pub sigterm : ℕ
sigterm = 15

-- `timeout` and `stop_server`
pub record Flags : Type 0 where
  pub timeout : Bool
  pub stop_server : Bool

abbrev pub by_signal : ℕ → Flags → Flags
by_signal sig f =
    if sig == sigalrm
    then record f { timeout = true }
    else if sig == sigint
    then record f { stop_server = true }
    else if sig == sigterm
    then record f { stop_server = true }
    else f

unfoldable pub signal_loop : List ℕ → Flags → Flags
signal_loop [] f = f
signal_loop (sig ∷ rest) f = signal_loop rest (by_signal sig f)

-- The bytes that recv stores, none for a result that is not above zero. What is returned is only
-- logged.
unfoldable pub deal_signal : List ℕ → Flags → Bool × Flags
deal_signal [] f = (false, f)
deal_signal (sig ∷ rest) f = (true, signal_loop (sig ∷ rest) f)

-- What epoll reports of a descriptor, with the system's answers to the calls that handle it: the
-- descriptor that accept returns, the address that `new` returns for a timer, and the results of
-- recv and of writev.
pub record Event : Type 0 where
  pub sockfd : ℕ
  pub epollin : Bool
  pub epollout : Bool
  pub epollhup : Bool
  pub epollerr : Bool
  pub epollrdhup : Bool
  pub accepted : Option ℕ
  pub timer : ℕ
  pub signals : List ℕ
  pub received : List Received
  pub sent : List Sent

-- An event of a connection.
unfoldable pub deal_user : Event → Server → Run Server
deal_user e s =
    if e.epollhup || e.epollerr
    then deal_err e.sockfd s
    else if e.epollrdhup
    then deal_close e.sockfd s
    else if e.epollin
    then deal_read e.received e.sockfd s
    else if e.epollout
    then deal_write e.sent e.sockfd s
    else ok s

-- The body of the loop over the events.
unfoldable pub deal_event : Event → Flags × Server → Run (Flags × Server)
deal_event e (f, s) =
    if e.sockfd == s.listen_fd
    then (deal_connection e.accepted e.timer s >>= λ s'. ok (f, s'))
    else if e.sockfd == s.signal_fd && e.epollin
    then ok ((deal_signal e.signals f).1, s)
    else (deal_user e s >>= λ s'. ok (f, s'))

unfoldable pub deal_events : List Event → Flags × Server → Run (Flags × Server)
deal_events [] r = ok r
deal_events (e ∷ rest) r = deal_event e r >>= deal_events rest

-- cb_func of the timers that tick calls, in order. They are called in the midst of tick, but
-- neither reads nor writes what the other does.
unfoldable pub callbacks : List ℕ → Server → Server
callbacks [] s = s
callbacks (fd ∷ rest) s = callbacks rest (timer_cb_func fd s)

-- `tw.tick()`. A callback reads `m_sockfd` of its connection. The slot holds fewer timers than `users` has entries.
unfoldable pub tick_timers : Server → Run Server
tick_timers s = TimeWheel.tick (max_fd + 1) s.tw >>= λ (fired, w).
    if all s.initialised fired then ok (callbacks fired (record s { tw = w })) else fault

unfoldable pub after_events : Flags × Server → Run (Flags × Server)
after_events (f, s) =
    if f.timeout
    then (tick_timers s >>= λ s'. ok (record f { timeout = false }, emit (alarm time_slot) s'))
    else ok (f, s)

-- What epoll_wait returns: events, EINTR, or another error.
pub data Wait : Type 0 where
  events : List Event → Wait
  interrupted failed : Wait

-- How far the loop has come: it has ended, or it is about to call epoll_wait again.
pub data Serving : Type 0 where
  ended : Server → Serving
  waiting : Flags → Server → Serving

unfoldable pub round : Wait → Flags × Server → Run (Flags × Server)
round (events es) r = deal_events es r >>= after_events
round interrupted r = after_events r
round failed r = ok r

-- The loop, over what the calls of epoll_wait return.
unfoldable pub eventloop_from : List Wait → Flags × Server → Run Serving
eventloop_from [] (f, s) = if f.stop_server then ok (ended s) else ok (waiting f s)
eventloop_from (failed ∷ rest) (f, s) = ok (ended s)
eventloop_from (w ∷ rest) (f, s) =
    if f.stop_server then ok (ended s) else (round w (f, s) >>= eventloop_from rest)

abbrev pub eventloop : List Wait → Server → Run Serving
eventloop waits s = eventloop_from waits (record { timeout = false; stop_server = false }, s)
