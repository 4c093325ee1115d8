-- ===== src/WebServer/Events.antt =====
-- The loop over the events in practice/web_server/webServer.cpp.
use study_record.Common.{
  ℕ, ◌<◌, ◌≤◌, arith, ◌≡◌, refl, List, [], ◌∷◌, ◌++◌, some, Bool, true, false, ◌==◌, ◌&&◌, ◌||◌,
  inl, inr, Bool-cases, if◌then◌else◌,
}
use study_record.Common.Run.{Run, ok, ◌>>=◌}
use study_record.Http.Receive
use study_record.Http.Write
use study_record.Http.Process.{is_closed}
use study_record.WebServer.{Server, max_fd, alarm, time_slot, emit, deal_connection}
use study_record.WebServer.Loop.{
  Flags, deal_signal, Event, deal_user, deal_event, after_events, Wait, events, interrupted, failed,
  Serving, ended, waiting, round,
}
use study_record.WebServer.Invariant.{IsServer, IsServer-effects}
use study_record.WebServer.Close.{Serves, close_user_lem}
use study_record.WebServer.Open.{deal_connection-Serves}
use study_record.WebServer.Transfer.{is_read, is_written, deal_read-Serves, deal_write-Serves}
use study_record.WebServer.Timers.{tick_timers-Serves}

-- What the kernel and `new` promise of an event. epoll reports only descriptors that were registered:
-- the listening one, the signals' one, of which it reports that it can be read, and those that init
-- of a connection has registered. accept returns a descriptor below the limit `nofile` of the process
-- (RLIMIT_NOFILE) that is not in use, a new timer is at an address that is not, and the lists of results
-- last until read and write return.
pub record IsAdmitted (nofile : ℕ) (e : Event) (s : Server) : Type 0 where
  pub registered :
      (e.sockfd == s.listen_fd) ≡ false
      → (e.sockfd == s.signal_fd && e.epollin) ≡ false
      → s.initialised e.sockfd ≡ true
  pub fresh :
      (fd : ℕ) → e.accepted ≡ some fd → (fd < nofile) × (is_closed (s.users fd).m_sockfd ≡ true)
  pub unused : s.tw.links.live e.timer ≡ false
  pub read : is_read (Receive.read e.received (s.users e.sockfd).conn) ≡ true
  pub written : is_written (Write.write e.sent (s.users e.sockfd).conn) ≡ true

abbrev pub AreAdmitted : ℕ → List Event → Flags × Server → Type 0
AreAdmitted nofile [] r = Unit {0}
AreAdmitted nofile (e ∷ rest) (f, s) =
    IsAdmitted nofile e s
    × ((r : Flags × Server) → deal_event e (f, s) ≡ ok r → AreAdmitted nofile rest r)

abbrev AreAdmittedAt : ℕ → Wait → Flags × Server → Type 0
AreAdmittedAt nofile (events es) r = AreAdmitted nofile es r
AreAdmittedAt nofile interrupted r = Unit {0}
AreAdmittedAt nofile failed r = Unit {0}

abbrev pub AreAdmittedAll : ℕ → List Wait → Flags × Server → Type 0
AreAdmittedAll nofile [] r = Unit {0}
AreAdmittedAll nofile (w ∷ rest) r =
    AreAdmittedAt nofile w r
    × ((r' : Flags × Server) → round w r ≡ ok r' → AreAdmittedAll nofile rest r')

abbrev pub ServesOn : Run (Flags × Server) → Type 0
ServesOn r = (f : Flags) × (s : Server) × (ts : ℕ → List ℕ) × (r ≡ ok (f, s)) × IsServer s ts

pub with_flags : (f : Flags) (r : Run Server) → Serves r → ServesOn (r >>= λ s. ok (f, s))
with_flags f r (s, ts, run, v) = (f, s, ts, rw run refl, v)

module _ (nofile : ℕ) (few : nofile ≤ max_fd) (e : Event) (f : Flags) (s : Server) (ts : ℕ → List ℕ)
    (v : IsServer s ts) (a : IsAdmitted nofile e s) where
  deal_user-Serves : s.initialised e.sockfd ≡ true → Serves (deal_user e s)
  unfolding deal_user
  deal_user-Serves known =
      let (s', ts', run, shape, _, _, _) = close_user_lem s ts e.sockfd v known in
      let read = deal_read-Serves s ts e.sockfd v known e.received a.read in
      let written = deal_write-Serves s ts e.sockfd v known e.sent a.written in
      if_Serves (e.epollhup || e.epollerr) (s', ts', run, shape)
        (if_Serves e.epollrdhup (s', ts', run, shape)
          (if_Serves e.epollin read (if_Serves e.epollout written (s, ts, refl, v))))
    where
      if_Serves :
          {r r' : Run Server} (b : Bool) → Serves r → Serves r' → Serves (if b then r else r')
      if_Serves true p q = p
      if_Serves false p q = q

  pub deal_event-ServesOn : ServesOn (deal_event e (f, s))
  unfolding deal_event
  deal_event-ServesOn = elim (Bool-cases (e.sockfd == s.listen_fd)) [
    | inl h ↦ rw h (
        with_flags f (deal_connection e.accepted e.timer s) (
          deal_connection-Serves s ts v e.timer a.unused e.accepted
            (λ fd g. (omega (arith, few, (a.fresh fd g).0), (a.fresh fd g).1))))
    | inr h ↦ rw h (elim (Bool-cases (e.sockfd == s.signal_fd && e.epollin)) [
      | inl k ↦ rw k ((deal_signal e.signals f).1, s, ts, refl, v)
      | inr k ↦ rw k (with_flags f (deal_user e s) (deal_user-Serves (a.registered h k)))
    ])
  ]

pub after_events-ServesOn :
    (f : Flags) (s : Server) (ts : ℕ → List ℕ) → IsServer s ts → ServesOn (after_events (f, s))
unfolding after_events
after_events-ServesOn f s ts v = elim (Bool-cases f.timeout) [
  | inl h ↦
      let (s1, ts1, run, v1) = tick_timers-Serves s ts v in
      (
        record f { timeout = false },
        emit (alarm time_slot) s1,
        ts1,
        rw (h, run) refl,
        IsServer-effects s1 ts1 (s1.effects ++ alarm time_slot ∷ []) v1,
      )
  | inr h ↦ (f, s, ts, rw h refl, v)
]

abbrev pub server_of : Serving → Server
server_of (ended s) = s
server_of (waiting f s) = s

abbrev pub ServesAll : Run Serving → Type 0
ServesAll r = (e : Serving) × (ts : ℕ → List ℕ) × (r ≡ ok e) × IsServer (server_of e) ts
