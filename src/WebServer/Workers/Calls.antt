-- ===== src/WebServer/Workers/Calls.antt =====
-- The calls of a worker's task to epoll and to the time wheel, one after another.
use study_record.Common.{
  ℕ, ◌≤◌, ◌≡◌, ◌≢◌, refl, List, [], ◌∷◌, ◌++◌, Option, none, some, Bool, true, false, if◌then◌else◌,
  arith,
}
use study_record.Common.Int.{ℤ, pos, negsuc, ◌-ℤ◌}
use study_record.Common.Run.{Run, ok, fault, out_of_fuel, ◌>>=◌, Partial, ended, faulted}
use study_record.TimeWheel.{Wheel}
use study_record.TimeWheel
use study_record.Http.Write.{Interest}
use study_record.Http.Process.{
  Call, removefd, modfd, del_timer, Task, is_closed, drop_timer, close_conn, close_unless,
}
use study_record.WebServer.{User, Server, Effect, call, perform}

abbrev pub with_users : (ℕ → User) → ℤ → Server → Server
with_users users count s = record s { users = users; m_user_count = count }

pub perform-nil : (s : Server) → perform [] s ≡ ok s
unfolding perform
perform-nil s = refl

pub perform-modfd :
    (fd : ℤ) (e : Interest) (s : Server)
    → perform (modfd fd e ∷ []) s ≡ ok (record s { effects = s.effects ++ call (modfd fd e) ∷ [] })
unfolding perform
perform-modfd fd e s = refl

pub perform_closing :
    (fd : ℤ) (p : ℕ) (w' : Wheel) (s : Server)
    → TimeWheel.del_timer (some p) s.tw ≡ ok w'
    → (e : List Effect) × (perform (removefd fd ∷ del_timer p ∷ []) s
        ≡ ok (record s { tw = w'; effects = e }))
unfolding perform
perform_closing fd p w' s run =
    ((s.effects ++ call (removefd fd) ∷ []) ++ call (del_timer p) ∷ [], rw run refl)

pub close_conn-shut : (t : Task) → is_closed t.m_sockfd ≡ true → t.timer ≡ none → close_conn t ≡ t
unfolding close_conn
close_conn-shut t shut e = rw (shut, e) refl

-- The task after close_conn, on an open connection with a timer.
abbrev pub shut_task : ℕ → Task → Task
shut_task p t = record t {
  m_sockfd = negsuc 0;
  timer = none;
  m_user_count = t.m_user_count -ℤ pos 1;
  calls = (t.calls ++ removefd t.m_sockfd ∷ []) ++ del_timer p ∷ [];
}

abbrev pub shut_user : User → User
shut_user u = record u { m_sockfd = negsuc 0; timer = none }

pub close_conn-timed :
    (t : Task) (p : ℕ)
    → is_closed t.m_sockfd ≡ false
    → t.timer ≡ some p
    → close_conn t ≡ shut_task p t
unfolding close_conn
close_conn-timed t p open_conn e = rw (open_conn, e) refl

bind-inside :
    (r : Run Wheel) (f f' : Wheel → Run Server) (g : Server → Run Server)
    → ((w : Wheel) → f w ≡ (f' w >>= g))
    → (r >>= f) ≡ ((r >>= f') >>= g)
bind-inside (ok w) f f' g h = h w
bind-inside fault f f' g h = refl
bind-inside out_of_fuel f f' g h = refl

-- What the calls do to the wheel does not depend on the connections.
pub perform-with_users :
    (calls : List Call) (s : Server) (users : ℕ → User) (count : ℤ)
    → perform calls (with_users users count s)
      ≡ (perform calls s >>= λ s'. ok (with_users users count s'))
unfolding perform
perform-with_users [] s users count = refl
perform-with_users (del_timer t ∷ calls) s users count =
    let s1 = record s { effects = s.effects ++ call (del_timer t) ∷ [] } in
    bind-inside (TimeWheel.del_timer (some t) s.tw)
      (λ w. perform calls (with_users users count (record s1 { tw = w })))
      (λ w. perform calls (record s1 { tw = w })) (λ s'. ok (with_users users count s'))
      (λ w. perform-with_users calls (record s1 { tw = w }) users count)
perform-with_users (removefd fd ∷ calls) s users count =
    perform-with_users calls (record s { effects = s.effects ++ call (removefd fd) ∷ [] }) users
      count
perform-with_users (modfd fd e ∷ calls) s users count =
    perform-with_users calls (record s { effects = s.effects ++ call (modfd fd e) ∷ [] }) users
      count

pub perform-append :
    (xs ys : List Call) (s : Server) → perform (xs ++ ys) s ≡ (perform xs s >>= perform ys)
unfolding perform
perform-append [] ys s = refl
perform-append (del_timer t ∷ xs) ys s =
    let s1 = record s { effects = s.effects ++ call (del_timer t) ∷ [] } in
    bind-inside (TimeWheel.del_timer (some t) s.tw) (λ w. perform (xs ++ ys) (record s1 { tw = w }))
      (λ w. perform xs (record s1 { tw = w })) (perform ys)
      (λ w. perform-append xs ys (record s1 { tw = w }))
perform-append (removefd fd ∷ xs) ys s =
    perform-append xs ys (record s { effects = s.effects ++ call (removefd fd) ∷ [] })
perform-append (modfd fd e ∷ xs) ys s =
    perform-append xs ys (record s { effects = s.effects ++ call (modfd fd e) ∷ [] })

close_conn-conn : (t : Task) → (close_conn t).conn ≡ t.conn
unfolding close_conn
close_conn-conn t = either (is_closed t.m_sockfd) t.timer
  where
    dropped : (timer : Option ℕ) (t' : Task) → (drop_timer timer t').conn ≡ t'.conn
    dropped none t' = refl
    dropped (some p) t' = refl

    shut : Bool → Task
    shut b = if b then t else record t {
      m_sockfd = negsuc 0;
      m_user_count = t.m_user_count -ℤ pos 1;
      calls = t.calls ++ removefd t.m_sockfd ∷ [];
    }

    either : (b : Bool) (timer : Option ℕ) → (drop_timer timer (shut b)).conn ≡ t.conn
    either true timer = dropped timer (shut true)
    either false timer = dropped timer (shut false)

pub close_unless-conn : (b : Bool) (t : Task) → (close_unless b t).conn ≡ t.conn
close_unless-conn true t = refl
close_unless-conn false t = close_conn-conn t

pub Partial-any {ℓ} : {A : Type ℓ} (r : Run A) → r ≢ out_of_fuel → Partial (λ a. 0 ≤ 0) r
Partial-any (ok a) h = ended (omega arith)
Partial-any fault h = faulted
Partial-any out_of_fuel h = absurd (h refl)
