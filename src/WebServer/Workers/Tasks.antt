-- ===== src/WebServer/Workers/Tasks.antt =====
-- A worker's task keeps timers and connections of practice/web_server/webServer.cpp in agreement.
use study_record.Common.{
  ℕ, ◌&&◌, ◌≢◌, Bool-cases, arith, if◌then◌else◌, ◌<◌, ◌≤◌, ◌≡◌, ◌∙◌, refl, sym, ap, subst, List,
  [], ◌∷◌, ◌++◌, append_assoc, append-nil, Option, none, some, Bool, true, false, ◌==◌, inl, inr,
}
use study_record.Common.Run.{
  Run, Ends, ok, fault, out_of_fuel, ok-injective, ◌>>=◌, Partial, ended, faulted, Partial-bind,
  Partial-if,
}
use study_record.Common.Threads.{update, update_self, update-update}
use study_record.TimeWheel.{Wheel}
use study_record.TimeWheel.Set.{del_timer_lem}
use study_record.Http.{HttpCode, no_request, Conn}
use study_record.Http.Read.{process_read}
use study_record.Http.Write.{Interest, epollin, epollout, Progress}
use study_record.Http.Write
use study_record.Http.Receive.{Reading, Received}
use study_record.Http.Receive
use study_record.Http.Receive.Laws.{conn_of}
use study_record.Http.Respond.{process_write}
use study_record.Http.Read.Ends.{process_read_ends}
use study_record.WebServer.Transfer.{is_read, is_written}
use study_record.Http.Process
use study_record.Http.Process.{
  Call, removefd, modfd, del_timer, Task, Answers, is_closed, drop_timer, close_conn, close_unless,
  register, register_if, write_task, read_task, respond, process,
}
use study_record.WebServer.{User, Server, Effect, call, max_fd, task_of, user_of, perform, put_task}
use study_record.WebServer.Invariant.{is_none, IsServer, IsServer-conn, IsServer-effects}
use study_record.WebServer.Close.{
  Serves, in_bounds, timer_held, close-open, closed_user, close_user_lem, timer_cases,
}
use study_record.WebServer.Workers.{work}
use study_record.WebServer.Workers.Reads.{IsChecked, read-IsChecked}
use study_record.WebServer.Workers.Calls.{
  with_users, perform-nil, perform-modfd, perform_closing, close_conn-shut, shut_task, shut_user,
  close_conn-timed, perform-with_users, perform-append, close_unless-conn, Partial-any,
}

module _ (s : Server) (fd : ℕ) (lt : fd < max_fd) (known : s.initialised fd ≡ true) where
  -- The server once a task has been put back and its calls have been made.
  abbrev settled : Task → Wheel → List Effect → Server
  settled t w e = record s {
    users = update s.users fd (user_of t);
    m_user_count = t.m_user_count;
    tw = w;
    effects = e;
  }

  -- The task can be put back, and leaves a server whose timers and connections agree.
  pub record IsTask (t : Task) : Type 0 where
    pub wheel : Wheel
    pub lists : ℕ → List ℕ
    pub effects : List Effect
    pub run : put_task fd s t ≡ ok (settled t wheel effects)
    pub shape : IsServer (settled t wheel effects) lists

  task_of-IsTask : (ts : ℕ → List ℕ) → IsServer s ts → IsTask (task_of fd s)
  task_of-IsTask ts v = record {
    wheel = s.tw;
    lists = ts;
    effects = s.effects;
    run = perform-nil (settled (task_of fd s) s.tw s.effects);
    shape = IsServer-conn s ts fd (s.users fd) s.effects v lt refl refl;
  }

  -- The calls that a task makes further.
  further :
      (t t' : Task) (more : List Call) (v : IsTask t)
      → t'.calls ≡ t.calls ++ more
      → put_task fd s t' ≡ perform more (settled t' v.wheel v.effects)
  further t t' more v e =
      let users = update s.users fd (user_of t') in
      ap (λ calls. perform calls (with_users users t'.m_user_count s)) e
      ∙ perform-append t.calls more (with_users users t'.m_user_count s)
      ∙ ap (λ r. r >>= perform more)
          (perform-with_users t.calls (with_users (update s.users fd (user_of t)) t.m_user_count s)
              users t'.m_user_count
            ∙ ap (λ r. r >>= λ s'. ok (with_users users t'.m_user_count s')) v.run)

  conn-IsTask : (t : Task) (c : Conn) → IsTask t → IsTask (record t { conn = c })
  conn-IsTask t c v = record {
    wheel = v.wheel;
    lists = v.lists;
    effects = v.effects;
    run =
        further t (record t { conn = c }) [] v (sym (append-nil t.calls))
        ∙ perform-nil (settled (record t { conn = c }) v.wheel v.effects);
    shape =
        subst
          (λ users.
            IsServer (record (settled (record t { conn = c }) v.wheel v.effects) { users = users })
              v.lists)
          (update-update s.users fd (user_of t) (user_of (record t { conn = c })))
          (IsServer-conn (settled t v.wheel v.effects) v.lists fd (user_of (record t { conn = c }))
            v.effects v.shape lt (sym (ap (λ u. u.m_sockfd) (update_self s.users fd (user_of t))))
            (sym (ap (λ u. u.timer) (update_self s.users fd (user_of t)))));
  }

  register-IsTask : (t : Task) (e : Interest) → IsTask t → IsTask (register e t)
  register-IsTask t e v = record {
    wheel = v.wheel;
    lists = v.lists;
    effects = v.effects ++ call (modfd t.m_sockfd e) ∷ [];
    run =
        further t (register e t) (modfd t.m_sockfd e ∷ []) v refl
        ∙ perform-modfd t.m_sockfd e (settled t v.wheel v.effects);
    shape =
        IsServer-effects (settled t v.wheel v.effects) v.lists
          (v.effects ++ call (modfd t.m_sockfd e) ∷ []) v.shape;
  }

  one_update :
      (t : Task) (p : ℕ) (u : User)
      → u ≡ user_of (shut_task p t)
      → update (update s.users fd (user_of t)) fd u ≡ update s.users fd (user_of (shut_task p t))
  one_update t p u e = update-update s.users fd (user_of t) u ∙ ap (update s.users fd) e

  shut_task-IsTask : (t : Task) (p : ℕ) → t.timer ≡ some p → IsTask t → IsTask (shut_task p t)
  shut_task-IsTask t p e v =
      let s1 = settled t v.wheel v.effects in
      let timed : (s1.users fd).timer ≡ some p =
        ap (λ u. u.timer) (update_self s.users fd (user_of t)) ∙ e in
      let (mine, owner) = timer_held s1 v.lists fd v.shape known p timed in
      let (w', run, _, _, _, _) = del_timer_lem v.wheel v.lists v.shape.wheel p mine in
      let (log, closes) = close-open s1 v.lists fd v.shape known p w' timed run in
      let (s2, ts2, closes', shape, _, _, _) = close_user_lem s1 v.lists fd v.shape known in
      let (log', made) =
        perform_closing t.m_sockfd p w' (settled (shut_task p t) v.wheel v.effects) run in
      let same = ok-injective (sym closes' ∙ closes) in
      record {
        wheel = w';
        lists = ts2;
        effects = log';
        run =
            further t (shut_task p t) (removefd t.m_sockfd ∷ del_timer p ∷ []) v
              (append_assoc t.calls (removefd t.m_sockfd ∷ []) (del_timer p ∷ []))
            ∙ made;
        shape = IsServer-effects (settled (shut_task p t) w' log) ts2 log' (
            subst
              (λ users. IsServer (record (settled (shut_task p t) w' log) { users = users }) ts2)
              (one_update t p (closed_user s1 v.lists fd v.shape known)
                (ap shut_user (update_self s.users fd (user_of t))))
              (subst (λ s'. IsServer s' ts2) same shape));
      }

  close_conn-IsTask : (t : Task) → IsTask t → IsTask (close_conn t)
  close_conn-IsTask t v =
      let s1 = settled t v.wheel v.effects in
      let here = update_self s.users fd (user_of t) in
      let agrees : is_closed t.m_sockfd ≡ is_none t.timer =
        sym (ap (λ u. is_closed u.m_sockfd) here)
        ∙ v.shape.shut fd
        ∙ ap (λ u. is_none u.timer) here in
      elim (timer_cases t.timer) [
        | inl e ↦ subst IsTask (sym (close_conn-shut t (agrees ∙ ap is_none e) e)) v
        | inr (p, e) ↦
            subst IsTask (sym (close_conn-timed t p (agrees ∙ ap is_none e) e))
              (shut_task-IsTask t p e v)
      ]

  close_unless-IsTask : (b : Bool) (t : Task) → IsTask t → IsTask (close_unless b t)
  close_unless-IsTask true t v = v
  close_unless-IsTask false t v = close_conn-IsTask t v

  register_if-IsTask : (e : Option Interest) (t : Task) → IsTask t → IsTask (register_if e t)
  register_if-IsTask none t v = v
  register_if-IsTask (some e) t v = register-IsTask t e v

  write_task-IsTask :
      (t : Task) (r : Progress) → is_written r ≡ true → IsTask t → Partial IsTask (write_task t r)
  unfolding write_task
  write_task-IsTask t (Write.returned b e c) h v = ended (
      close_unless-IsTask b (register_if e (record t { conn = c }))
        (register_if-IsTask e (record t { conn = c }) (conn-IsTask t c v)))
  write_task-IsTask t (Write.running c) h v = cc

  after_read-IsTask :
      (t : Task) (code : HttpCode) (c : Conn) → IsTask t → IsTask (Process.after_read t (code, c))
  unfolding Process.after_read
  after_read-IsTask t no_request c v =
      register-IsTask (record t { conn = c }) epollin (conn-IsTask t c v)
  after_read-IsTask t code c v =
      let (b, c') = process_write c code in
      register-IsTask (close_unless b (record t { conn = c' })) epollout
        (close_unless-IsTask b (record t { conn = c' }) (conn-IsTask t c' v))

  respond-IsTask :
      (a : Answers) (t : Task)
      → t.conn.m_checked_idx ≤ t.conn.m_read_idx
      → IsTask t
      → Partial IsTask (respond a t)
  unfolding respond
  respond-IsTask a t le v =
      let (ends, within) = process_read_ends a.files t.conn le in
      Partial-bind (Partial-any (process_read a.files t.conn) ends)
        λ r w. ended (after_read-IsTask t r.0 r.1 v)

  read_task-IsTask :
      (t : Task) (r : Reading)
      → is_read r ≡ true
      → IsChecked r
      → IsTask t
      → Partial (λ t'. IsTask t' × (t'.conn.m_checked_idx ≤ t'.conn.m_read_idx)) (read_task t r)
  unfolding read_task
  read_task-IsTask t (Receive.returned b c) h le v = ended (
    close_unless-IsTask b (record t { conn = c }) (conn-IsTask t c v),
    subst (λ c'. c'.m_checked_idx ≤ c'.m_read_idx)
        (sym (close_unless-conn b (record t { conn = c }))) le,
  )
  read_task-IsTask t (Receive.running c) h le v = cc

  process-IsTask :
      (a : Answers) (t : Task)
      → t.conn.m_checked_idx ≤ t.conn.m_read_idx
      → is_read (Receive.read a.received t.conn) ≡ true
      → is_written (Write.write a.sent t.conn) ≡ true
      → IsTask t
      → Partial IsTask (process a t)
  unfolding process
  process-IsTask a t le read written v =
      Partial-if (t.actor_mode == 0)
        (Partial-if (t.task_state == 1) (write_task-IsTask t (Write.write a.sent t.conn) written v)
          (Partial-bind
            (read_task-IsTask t (Receive.read a.received t.conn) read
              (read-IsChecked a.received t.conn le) v)
            λ t' (v', le'). respond-IsTask a t' le' v'))
        (respond-IsTask a t le v)

-- The connection that process hands to process_read: in the reactor mode, what read leaves of it.
abbrev pub parsed : Answers → Task → Conn
parsed a t = if t.actor_mode == 0 then conn_of (Receive.read a.received t.conn) else t.conn

-- The task is to write, so that nothing is parsed.
abbrev pub is_write : Task → Bool
is_write t = t.actor_mode == 0 && t.task_state == 1

respond_ne : (a : Answers) (t : Task) → process_read a.files t.conn ≢ fault → respond a t ≢ fault
unfolding respond
respond_ne a t = bind_ne (process_read a.files t.conn)
  where
    bind_ne :
        (r : Run (HttpCode × Conn)) → r ≢ fault → (r >>= λ x. ok (Process.after_read t x)) ≢ fault
    bind_ne (ok x) h e = cc
    bind_ne fault h e = h refl
    bind_ne out_of_fuel h e = cc

write_task_ne : (t : Task) (r : Progress) → write_task t r ≢ fault
unfolding write_task
write_task_ne t (Write.returned b e c) h = cc
write_task_ne t (Write.running c) h = cc

read_respond_ne :
    (a : Answers) (t : Task) (r : Reading)
    → process_read a.files (conn_of r) ≢ fault
    → (read_task t r >>= respond a) ≢ fault
unfolding read_task
read_respond_ne a t (Receive.returned b c) h e =
    respond_ne a (close_unless b (record t { conn = c }))
      (subst (λ c'. process_read a.files c' ≢ fault)
        (sym (close_unless-conn b (record t { conn = c }))) h)
      e
read_respond_ne a t (Receive.running c) h e = cc

process_ne :
    (a : Answers) (t : Task)
    → (is_write t ≡ false → process_read a.files (parsed a t) ≢ fault)
    → process a t ≢ fault
unfolding process
process_ne a t parses = elim (Bool-cases (t.actor_mode == 0)) [
  | inl reactor ↦ elim (Bool-cases (t.task_state == 1)) [
    | inl writes ↦ rw (reactor, writes) (write_task_ne t (Write.write a.sent t.conn))
    | inr reads ↦
        rw (reactor, reads)
          (read_respond_ne a t (Receive.read a.received t.conn)
            (rw reactor at (parses (ground arith))))
  ]
  | inr proactor ↦ rw proactor (respond_ne a t (rw proactor at (parses (ground arith))))
]

total : {P : Task → Type 0} {r : Run Task} → Partial P r → r ≢ fault → Ends P r
total (ended p) h = (_, refl, p)
total faulted h = absurd (h refl)

-- A worker takes up a connection of a server whose timers and connections agree: an entry of `users` that
-- init was called on, with the checked index within the bytes read, and results of recv and writev that
-- last until read and write return. Unless the task is to write, process_read has to be free of undefined
-- behaviour on the connection that process hands to it. Then in either mode, and whether the connection is
-- still open or not, the task ends, every access to a timer is defined, and it leaves a server whose
-- timers and connections agree.
pub work-Serves :
    (s : Server) (ts : ℕ → List ℕ) (fd : ℕ) (a : Answers)
    → IsServer s ts
    → s.initialised fd ≡ true
    → (s.users fd).conn.m_checked_idx ≤ (s.users fd).conn.m_read_idx
    → is_read (Receive.read a.received (s.users fd).conn) ≡ true
    → is_written (Write.write a.sent (s.users fd).conn) ≡ true
    → (is_write (task_of fd s) ≡ false → process_read a.files (parsed a (task_of fd s)) ≢ fault)
    → Serves (work fd a s)
unfolding work
work-Serves s ts fd a v known le read written parses =
    let lt = v.named fd known in
    let (t, run, w) =
      total
        (process-IsTask s fd lt known a (task_of fd s) le read written
          (task_of-IsTask s fd lt known ts v))
        (process_ne a (task_of fd s) parses) in
    (
      settled s fd lt known t w.wheel w.effects,
      w.lists,
      rw (in_bounds s ts fd v known, run) w.run,
      w.shape,
    )
