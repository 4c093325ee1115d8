-- ===== src/WebServer/Start.antt =====
-- The server that the constructor and init of practice/web_server/webServer.cpp leave.
use study_record.Common.{ℕ, ◌≡◌, refl, List, [], Bool, arith}
use study_record.Common.Int.{pos}
use study_record.Common.Threads.{count_if-none}
use study_record.Http.{Conn}
use study_record.WebServer.{max_fd, create, init}
use study_record.WebServer.Invariant.{is_open, IsServer}

abbrev pub no_lists : ℕ → List ℕ
no_lists n = []

pub create-IsServer :
    (conns : ℕ → Conn) (listen_fd signal_fd : ℕ) (set_reactor_mode : Bool)
    → IsServer (init listen_fd signal_fd set_reactor_mode (create conns)) no_lists
create-IsServer conns listen_fd signal_fd set_reactor_mode = record {
  wheel = record {
    heads = λ n. refl;
    linked = λ n. tt;
    distinct = λ n. refl;
    places = λ n t h. cc;
    range = λ n t h. cc;
    cursor = omega arith;
  };
  owned = λ n t h. cc;
  timed = λ fd t h. cc;
  expected = λ t h. cc;
  outside = λ n t h. refl;
  once = refl;
  shut = λ fd. refl;
  named = λ fd h. cc;
  set = λ fd t h. cc;
  count = none_open (count_if-none is_open max_fd (create conns).users (λ fd. refl));
}
  where
    none_open : {n : ℕ} → n ≡ 0 → pos 0 ≡ pos n
    none_open e = rw e refl
