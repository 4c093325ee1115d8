-- ===== src/WebServer/Invariant.antt =====
-- What holds between the connections of practice/web_server/webServer.cpp and the timers of its wheel.
use study_record.Common.{
  ℕ, ◌+◌, ◌-◌, ◌<◌, ◌≡◌, ◌∙◌, refl, sym, ap, List, [], ◌∷◌, Option, none, some, Bool, true, false,
  ◌==◌, ==_iff, not, ◌⊎◌, inl, inr, Bool-cases, if◌then◌else◌, arith,
}
use study_record.Common.Int.{ℤ, pos, ◌-ℤ◌}
use study_record.Common.Threads.{
  update, update_other, update-all, count_if, count_if-update, count_if-pos,
}
use study_record.Common.Links.{has, is_distinct}
use study_record.Common.Links.Laws.{distinct_cons}
use study_record.TimeWheel.Invariant.{IsWheel}
use study_record.Http.Process.{is_closed}
use study_record.WebServer.{User, Server, Effect, max_fd}

abbrev pub is_open : User → Bool
is_open u = not (is_closed u.m_sockfd)

abbrev pub is_none : Option ℕ → Bool
is_none none = true
is_none (some t) = false

-- The timer names an entry of `users` whose timer it is.
abbrev pub Owned : Server → ℕ → Type 0
Owned s t = (s.tw.user_data t < max_fd) × ((s.users (s.tw.user_data t)).timer ≡ some t)

abbrev pub Somewhere : (ℕ → List ℕ) → ℕ → Type 0
Somewhere ts t = (n : ℕ) × (has t (ts n) ≡ true)

-- Each timer of the wheel is that of one connection, the connections that are open are those that
-- have a timer, their number is `m_user_count`, and only entries of `users` that init was called on have
-- a timer. The timers `todo` have been deleted, and their
-- connections are still to be closed.
pub record IsPending (s : Server) (ts : ℕ → List ℕ) (todo : List ℕ) : Type 0 where
  pub wheel : IsWheel s.tw ts
  pub owned : (n t : ℕ) → has t (ts n) ≡ true → Owned s t
  pub timed :
      (fd t : ℕ)
      → (s.users fd).timer ≡ some t
      → (Somewhere ts t ⊎ (has t todo ≡ true)) × (s.tw.user_data t ≡ fd)
  pub expected : (t : ℕ) → has t todo ≡ true → Owned s t
  pub outside : (n t : ℕ) → has t todo ≡ true → has t (ts n) ≡ false
  pub once : is_distinct todo ≡ true
  pub shut : (fd : ℕ) → is_closed (s.users fd).m_sockfd ≡ is_none (s.users fd).timer
  pub named : (fd : ℕ) → s.initialised fd ≡ true → fd < max_fd
  pub set : (fd t : ℕ) → (s.users fd).timer ≡ some t → s.initialised fd ≡ true
  pub count : s.m_user_count ≡ pos (count_if is_open max_fd s.users)

abbrev pub IsServer : Server → (ℕ → List ℕ) → Type 0
IsServer s ts = IsPending s ts []

-- A change of a connection that keeps its socket and its timer, and any log.
pub IsServer-conn :
    (s : Server) (ts : ℕ → List ℕ) (fd : ℕ) (u : User) (e : List Effect)
    → IsServer s ts
    → fd < max_fd
    → u.m_sockfd ≡ (s.users fd).m_sockfd
    → u.timer ≡ (s.users fd).timer
    → IsServer (record s { users = update s.users fd u; effects = e }) ts
IsServer-conn s ts fd u e v lt sock tim = record {
  wheel = v.wheel;
  owned = λ n t h. ((v.owned n t h).0, same (s.tw.user_data t) ∙ (v.owned n t h).1);
  timed = λ fd' t h. v.timed fd' t (sym (same fd') ∙ h);
  expected = λ t h. cc;
  outside = λ n t h. cc;
  once = refl;
  shut =
      update-all (λ i x. is_closed x.m_sockfd ≡ is_none x.timer) s.users fd u
        (ap is_closed sock ∙ v.shut fd ∙ sym (ap is_none tim)) (λ i d. v.shut i);
  named = v.named;
  set = λ i t h. v.set i t (sym (same i) ∙ h);
  count = v.count ∙ ap pos (kept (count_if-update is_open max_fd s.users fd u lt));
}
  where
    same : (i : ℕ) → (update s.users fd u i).timer ≡ (s.users i).timer
    same = update-all (λ i x. x.timer ≡ (s.users i).timer) s.users fd u tim (λ i d. refl)

    opens : is_open u ≡ is_open (s.users fd)
    opens = ap (λ p. not (is_closed p)) sock

    kept :
        count_if is_open max_fd (update s.users fd u) + (if is_open (s.users fd) then 1 else 0)
          ≡ count_if is_open max_fd s.users + (if is_open u then 1 else 0)
        → count_if is_open max_fd s.users ≡ count_if is_open max_fd (update s.users fd u)
    kept h = ground (arith, opens)

pub one_less : (n : ℕ) → 0 < n → pos n -ℤ pos 1 ≡ pos (n - 1)
one_less n h = ground arith

some-injective : (a b : ℕ) → ◌≡◌ {A = Option ℕ} (some a) (some b) → a ≡ b
some-injective a b e = cc

-- The connection of a timer that has been deleted is closed.
module _ (s : Server) (ts : ℕ → List ℕ) (t : ℕ) (todo : List ℕ)
    (v : IsPending s ts (t ∷ todo)) where
  abbrev fd : ℕ
  fd = s.tw.user_data t

  first-Owned : Owned s t
  first-Owned = v.expected t (ground (arith, ==_iff t t))

  open_fd : is_closed (s.users fd).m_sockfd ≡ false
  open_fd = v.shut fd ∙ ap is_none first-Owned.1

  -- A timer of the same connection is the same timer.
  apart : (u : ℕ) → (u == t) ≡ false → Owned s u → (fd == s.tw.user_data u) ≡ false
  apart u d o = elim (Bool-cases (fd == s.tw.user_data u)) [
    | inl e ↦
        let same : fd ≡ s.tw.user_data u = ground arith in
        absurd (
          ground (
            arith,
            some-injective u t (sym o.1 ∙ sym (ap (λ i. (s.users i).timer) same) ∙ first-Owned.1),
          ))
    | inr e ↦ e
  ]

  not_first : (u n : ℕ) → has u (ts n) ≡ true → (u == t) ≡ false
  not_first u n h = elim (Bool-cases (u == t)) [
    | inl e ↦
        let same : u ≡ t = ground arith in
        absurd (
          ground (
            arith,
            v.outside n t (ground (arith, ==_iff t t)),
            sym (ap (λ k. has k (ts n)) same) ∙ h,
          ))
    | inr e ↦ e
  ]

  still-Owned :
      (x : User) (c : ℤ) (e : List Effect) (u : ℕ)
      → (u == t) ≡ false
      → Owned s u
      → Owned (record s { users = update s.users fd x; m_user_count = c; effects = e }) u
  still-Owned x c e u d o =
      (o.0, ap (λ y. y.timer) (update_other s.users fd (s.tw.user_data u) x (apart u d o)) ∙ o.1)

  pub IsPending-close :
      (x : User) (e : List Effect)
      → is_closed x.m_sockfd ≡ true
      → x.timer ≡ none
      → IsPending
          (record s {
            users = update s.users fd x;
            m_user_count = s.m_user_count -ℤ pos 1;
            effects = e;
          })
          ts
          todo
  IsPending-close x e closed gone = record {
    wheel = v.wheel;
    owned = λ n u h. still-Owned x (s.m_user_count -ℤ pos 1) e u (not_first u n h) (v.owned n u h);
    timed =
        update-all
          (λ i y.
            (u : ℕ)
            → y.timer ≡ some u
            → (Somewhere ts u ⊎ (has u todo ≡ true)) × (s.tw.user_data u ≡ i))
          s.users fd x (λ u h. absurd (no_timer u (sym gone ∙ h)))
          (λ i d u h. (other i d u h (v.timed i u h).0, (v.timed i u h).1));
    expected = λ u h.
        still-Owned x (s.m_user_count -ℤ pos 1) e u (later u h) (v.expected u (ground arith));
    outside = λ n u h. v.outside n u (ground arith);
    once = (distinct_cons t todo v.once).1;
    shut =
        update-all (λ i y. is_closed y.m_sockfd ≡ is_none y.timer) s.users fd x
          (closed ∙ sym (ap is_none gone)) (λ i d. v.shut i);
    named = v.named;
    set =
        update-all (λ i y. (u : ℕ) → y.timer ≡ some u → s.initialised i ≡ true) s.users fd x
          (λ u h. absurd (no_timer u (sym gone ∙ h))) (λ i d u h. v.set i u h);
    count =
        fewer (count_if-update is_open max_fd s.users fd x first-Owned.0)
          (count_if-pos is_open max_fd s.users fd first-Owned.0 (ap not open_fd));
  }
    where
      no_timer : (u : ℕ) → ◌≡◌ {A = Option ℕ} none (some u) → ⊥
      no_timer u e = cc

      later : (u : ℕ) → has u todo ≡ true → (u == t) ≡ false
      later u h = elim (Bool-cases (u == t)) [
        | inl e' ↦
            let same : u ≡ t = ground arith in
            absurd
              (ground (arith, (distinct_cons t todo v.once).0, sym (ap (λ k. has k todo) same) ∙ h))
        | inr e' ↦ e'
      ]

      other :
          (i : ℕ)
          → (fd == i) ≡ false
          → (u : ℕ) → (s.users i).timer ≡ some u
          → Somewhere ts u ⊎ (has u (t ∷ todo) ≡ true)
          → Somewhere ts u ⊎ (has u todo ≡ true)
      other i d u h (inl p) = inl p
      other i d u h (inr p) = inr (elim (Bool-cases (u == t)) [
        | inl e' ↦
            let same : u ≡ t = ground arith in
            absurd (ground (arith, sym (ap s.tw.user_data same) ∙ (v.timed i u h).1))
        | inr e' ↦ ground arith
      ])

      fewer :
          count_if is_open max_fd (update s.users fd x) + (if is_open (s.users fd) then 1 else 0)
            ≡ count_if is_open max_fd s.users + (if is_open x then 1 else 0)
          → 0 < count_if is_open max_fd s.users
          → s.m_user_count -ℤ pos 1 ≡ pos (count_if is_open max_fd (update s.users fd x))
      fewer h some_open =
          ap (λ c. c -ℤ pos 1) v.count
          ∙ one_less (count_if is_open max_fd s.users) some_open
          ∙ ap pos (ground (arith, open_fd, closed))

pub IsServer-effects :
    (s : Server) (ts : ℕ → List ℕ) (e : List Effect)
    → IsServer s ts
    → IsServer (record s { effects = e }) ts
IsServer-effects s ts e v = record {
  wheel = v.wheel;
  owned = v.owned;
  timed = v.timed;
  expected = v.expected;
  outside = v.outside;
  once = v.once;
  shut = v.shut;
  named = v.named;
  set = v.set;
  count = v.count;
}
