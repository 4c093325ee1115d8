-- ===== src/WebServer/Transfer.antt =====
-- deal_read and deal_write of practice/web_server/webServer.cpp.
use study_record.Common.{
  ℕ, ◌≡◌, ◌∙◌, refl, List, [], ◌∷◌, ◌++◌, Option, none, some, Bool, true, false, ◌==◌, ltb, ◌&&◌,
  inl, inr, Bool-cases, arith,
}
use study_record.Common.Int.{negsuc}
use study_record.Common.Run.{ok}
use study_record.Common.Threads.{update, update_self, update-update}
use study_record.Http.{Conn}
use study_record.Http.Receive.{Received, Reading}
use study_record.Http.Receive
use study_record.Http.Write.{Sent, Interest, Progress}
use study_record.Http.Write
use study_record.Http.Process.{modfd, is_closed, close_conn, register_if}
use study_record.WebServer.{
  Server, Effect, call, append, max_fd, perform, put_task, task_of, close_user, append_state,
  after_read, deal_read, after_write, deal_write,
}
use study_record.WebServer.Invariant.{IsServer, IsServer-conn}
use study_record.WebServer.Close.{Serves, close_user_lem}
use study_record.WebServer.Adjust.{timer_update_lem}

-- read and write have returned.
abbrev pub is_read : Reading → Bool
is_read (Receive.returned b c) = true
is_read (Receive.running c) = false

abbrev pub is_written : Progress → Bool
is_written (Write.returned b e c) = true
is_written (Write.running c) = false

-- The log after the registration for what write waits for.
abbrev registered : Option Interest → ℕ → Server → List Effect
registered none fd s = s.effects
registered (some e) fd s = s.effects ++ call (modfd (s.users fd).m_sockfd e) ∷ []

-- The entry with the connection that read or write leaves.
abbrev with_conn : ℕ → Conn → List Effect → Server → Server
with_conn fd c log s = record s {
  users = update s.users fd (record (s.users fd) { conn = c });
  effects = log;
}

module _ (s : Server) (ts : ℕ → List ℕ) (fd : ℕ) (v : IsServer s ts)
    (known : s.initialised fd ≡ true) where
  in_bounds : (ltb fd max_fd && s.initialised fd) ≡ true
  in_bounds = ground (arith, v.named fd known)

  with_conn-IsServer : (c : Conn) (log : List Effect) → IsServer (with_conn fd c log s) ts
  with_conn-IsServer c log =
      IsServer-conn s ts fd (record (s.users fd) { conn = c }) log v (v.named fd known) refl refl

  after_read-Serves : (r : Reading) → is_read r ≡ true → Serves (after_read fd s r)
  unfolding after_read
  after_read-Serves (Receive.running c) h = cc
  after_read-Serves (Receive.returned true c) h = (
    with_conn fd c (s.effects ++ append fd ∷ []) s,
    ts,
    refl,
    with_conn-IsServer c (s.effects ++ append fd ∷ []),
  )
  after_read-Serves (Receive.returned false c) h =
      let (s', ts', run, shape, _, _, _) =
        close_user_lem (with_conn fd c s.effects s) ts fd (with_conn-IsServer c s.effects) known in
      (s', ts', run, shape)

  after_write-kept :
      (e : Option Interest) (c : Conn)
      → after_write fd s (Write.returned true e c) ≡ ok (with_conn fd c (registered e fd s) s)
  unfolding after_write perform
  after_write-kept none c = refl
  after_write-kept (some e) c = refl

  -- close_conn reads the entry that has just been written.
  closed-with :
      (e : Option Interest) (c : Conn) (timer : Option ℕ) (b : Bool)
      → (s.users fd).timer ≡ timer
      → is_closed (s.users fd).m_sockfd ≡ b
      → put_task fd s (close_conn (register_if e (record (task_of fd s) { conn = c })))
        ≡ close_user fd (with_conn fd c (registered e fd s) s)
  unfolding perform close_conn
  closed-with none c none true f g =
      rw
        (
          update_self s.users fd (record (s.users fd) { conn = c }),
          in_bounds,
          f,
          g,
          update-update s.users fd (record (s.users fd) { conn = c; timer = none })
              (record (s.users fd) { conn = c; timer = none }),
        )
        refl
  closed-with none c none false f g =
      rw
        (
          update_self s.users fd (record (s.users fd) { conn = c }),
          in_bounds,
          f,
          g,
          update-update s.users fd (record (s.users fd) { conn = c; timer = none })
              (record (s.users fd) { conn = c; m_sockfd = negsuc 0; timer = none }),
        )
        refl
  closed-with none c (some t) true f g =
      rw
        (
          update_self s.users fd (record (s.users fd) { conn = c }),
          in_bounds,
          f,
          g,
          update-update s.users fd (record (s.users fd) { conn = c; timer = some t })
              (record (s.users fd) { conn = c; timer = none }),
        )
        refl
  closed-with none c (some t) false f g =
      rw
        (
          update_self s.users fd (record (s.users fd) { conn = c }),
          in_bounds,
          f,
          g,
          update-update s.users fd (record (s.users fd) { conn = c; timer = some t })
              (record (s.users fd) { conn = c; m_sockfd = negsuc 0; timer = none }),
        )
        refl
  closed-with (some e) c none true f g =
      rw
        (
          update_self s.users fd (record (s.users fd) { conn = c }),
          in_bounds,
          f,
          g,
          update-update s.users fd (record (s.users fd) { conn = c; timer = none })
              (record (s.users fd) { conn = c; timer = none }),
        )
        refl
  closed-with (some e) c none false f g =
      rw
        (
          update_self s.users fd (record (s.users fd) { conn = c }),
          in_bounds,
          f,
          g,
          update-update s.users fd (record (s.users fd) { conn = c; timer = none })
              (record (s.users fd) { conn = c; m_sockfd = negsuc 0; timer = none }),
        )
        refl
  closed-with (some e) c (some t) true f g =
      rw
        (
          update_self s.users fd (record (s.users fd) { conn = c }),
          in_bounds,
          f,
          g,
          update-update s.users fd (record (s.users fd) { conn = c; timer = some t })
              (record (s.users fd) { conn = c; timer = none }),
        )
        refl
  closed-with (some e) c (some t) false f g =
      rw
        (
          update_self s.users fd (record (s.users fd) { conn = c }),
          in_bounds,
          f,
          g,
          update-update s.users fd (record (s.users fd) { conn = c; timer = some t })
              (record (s.users fd) { conn = c; m_sockfd = negsuc 0; timer = none }),
        )
        refl

  after_write-closed :
      (e : Option Interest) (c : Conn)
      → after_write fd s (Write.returned false e c)
        ≡ close_user fd (with_conn fd c (registered e fd s) s)
  unfolding after_write
  after_write-closed e c =
      closed-with e c (s.users fd).timer (is_closed (s.users fd).m_sockfd) refl refl

  after_write-Serves : (p : Progress) → is_written p ≡ true → Serves (after_write fd s p)
  after_write-Serves (Write.running c) h = cc
  after_write-Serves (Write.returned true e c) h = (
    with_conn fd c (registered e fd s) s,
    ts,
    after_write-kept e c,
    with_conn-IsServer c (registered e fd s),
  )
  after_write-Serves (Write.returned false e c) h =
      let (s', ts', run, shape, _, _, _) =
        close_user_lem (with_conn fd c (registered e fd s) s) ts fd
          (with_conn-IsServer c (registered e fd s)) known in
      (s', ts', after_write-closed e c ∙ run, shape)

module _ (s : Server) (ts : ℕ → List ℕ) (fd : ℕ) (v : IsServer s ts)
    (known : s.initialised fd ≡ true) where
  -- A connection that can be read has its timer adjusted; in the proactor mode what has come is read,
  -- and the connection goes to the workers or is closed.
  pub deal_read-Serves :
      (received : List Received)
      → is_read (Receive.read received (s.users fd).conn) ≡ true
      → Serves (deal_read received fd s)
  unfolding deal_read
  deal_read-Serves received answered =
      let (w', ts', run, shape) = timer_update_lem s ts fd v known in
      let s1 = record s { tw = w' } in
      elim (Bool-cases (s.actor_mode == 0)) [
        | inl e ↦ (
          append_state fd 0 s1,
          ts',
          rw (run, e) refl,
          IsServer-conn s1 ts' fd (record (s1.users fd) { task_state = 0 })
              (s1.effects ++ append fd ∷ []) shape (shape.named fd known) refl refl,
        )
        | inr e ↦
            let (s', ts2, run', shape') =
              after_read-Serves s1 ts' fd shape known (Receive.read received (s.users fd).conn)
                answered in
            (s', ts2, rw (run, e) run', shape')
      ]

  pub deal_write-Serves :
      (sent : List Sent)
      → is_written (Write.write sent (s.users fd).conn) ≡ true
      → Serves (deal_write sent fd s)
  unfolding deal_write
  deal_write-Serves sent answered =
      let (w', ts', run, shape) = timer_update_lem s ts fd v known in
      let s1 = record s { tw = w' } in
      elim (Bool-cases (s.actor_mode == 0)) [
        | inl e ↦ (
          append_state fd 1 s1,
          ts',
          rw (run, e) refl,
          IsServer-conn s1 ts' fd (record (s1.users fd) { task_state = 1 })
              (s1.effects ++ append fd ∷ []) shape (shape.named fd known) refl refl,
        )
        | inr e ↦
            let (s', ts2, run', shape') =
              after_write-Serves s1 ts' fd shape known (Write.write sent (s.users fd).conn)
                answered in
            (s', ts2, rw (run, e) run', shape')
      ]
