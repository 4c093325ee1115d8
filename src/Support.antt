-- ===== src/Support.antt =====
-- practice/src/support.cpp: the functions that open sockets and register descriptors.
pub mod Laws
mod Tests
use study_record.Common.{
  ℕ, List, [], ◌∷◌, Option, none, some, Bool, true, false, ◌&&◌, ◌||◌, not, if◌then◌else◌,
}
use study_record.Common.Int.{ℤ, pos, negsuc}
use study_record.Common.Run.{Run, ok, fault}
use study_record.Common.Threads.{update}
use study_record.Common.Links.{without}

-- An address that getaddrinfo finds, with what the calls for it return: the descriptor of socket, and
-- whether bind, connect and the close that follows a failure succeed.
pub record Address : Type 0 where
  pub socket : Option ℕ
  pub bind : Bool
  pub connect : Bool
  pub close : Bool

-- How a loop over the addresses ends: at one whose descriptor is taken, by the return from a failed
-- close, or behind the last. With it stand the descriptors that are open.
pub data Search : Type 0 where
  found : ℕ → List ℕ → Search
  returned : List ℕ → Search
  exhausted : List ℕ → Search

-- The loop of open_listenfd. What it closes is not the socket but the descriptor `listenfd < 0`,
-- which is 0.
unfoldable pub listen_loop : List Address → List ℕ → Search
listen_loop [] fds = exhausted fds
listen_loop (p ∷ rest) fds = elim p.socket [
  | none ↦ listen_loop rest fds
  | some listenfd ↦ elim p.bind [
    | true ↦ found listenfd (listenfd ∷ fds)
    | false ↦ elim p.close [
      | true ↦ listen_loop rest (without 0 (listenfd ∷ fds))
      | false ↦ returned (without 0 (listenfd ∷ fds))
    ]
  ]
]

-- From `freeaddrinfo(listp);` on. `listens` is whether listen succeeds.
unfoldable pub after_listen_loop : Bool → Bool → Search → ℤ × List ℕ
after_listen_loop is_tcp listens (found listenfd fds) =
    if is_tcp && not listens then (negsuc 0, without listenfd fds) else (pos listenfd, fds)
after_listen_loop is_tcp listens (returned fds) = (negsuc 0, fds)
after_listen_loop is_tcp listens (exhausted fds) = (negsuc 0, fds)

-- The result and the descriptors that are open. `addresses` is what getaddrinfo finds, none if it
-- fails.
unfoldable pub open_listenfd : Bool → Option (List Address) → Bool → List ℕ → ℤ × List ℕ
open_listenfd is_tcp none listens fds = (negsuc 1, fds)
open_listenfd is_tcp (some addresses) listens fds =
    after_listen_loop is_tcp listens (listen_loop addresses fds)

-- The loop of open_clientfd.
unfoldable pub client_loop : Bool → List Address → List ℕ → Search
client_loop is_tcp [] fds = exhausted fds
client_loop is_tcp (p ∷ rest) fds = elim p.socket [
  | none ↦ client_loop is_tcp rest fds
  | some clientfd ↦ elim (not is_tcp || p.connect) [
    | true ↦ found clientfd (clientfd ∷ fds)
    | false ↦ elim p.close [
      | true ↦ client_loop is_tcp rest (without clientfd (clientfd ∷ fds))
      | false ↦ returned (without clientfd (clientfd ∷ fds))
    ]
  ]
]

abbrev pub after_client_loop : Search → ℤ × List ℕ
after_client_loop (found clientfd fds) = (pos clientfd, fds)
after_client_loop (returned fds) = (negsuc 0, fds)
after_client_loop (exhausted fds) = (negsuc 0, fds)

-- A failure of getaddrinfo is printed, and the loop then starts at a pointer that was never set.
unfoldable pub open_clientfd : Bool → Option (List Address) → List ℕ → Run (ℤ × List ℕ)
open_clientfd is_tcp none fds = fault
open_clientfd is_tcp (some addresses) fds =
    ok (after_client_loop (client_loop is_tcp addresses fds))

-- The bits of `epoll_event::events`, and a descriptor's status flag O_NONBLOCK.
pub record Mask : Type 0 where
  pub epollin : Bool
  pub epollout : Bool
  pub epollrdhup : Bool
  pub epollet : Bool
  pub epolloneshot : Bool

-- What epoll watches, with O_NONBLOCK of each descriptor.
pub record Watched : Type 0 where
  pub events : ℕ → Option Mask
  pub nonblocking : ℕ → Bool

abbrev pub empty_mask : Mask
empty_mask = record {
  epollin = false;
  epollout = false;
  epollrdhup = false;
  epollet = false;
  epolloneshot = false;
}

-- setnonblocking(fd)
abbrev pub setnonblocking : ℕ → Watched → Watched
setnonblocking fd w = record w { nonblocking = update w.nonblocking fd true }

-- The mask that addfd asks for.
abbrev pub add_mask : Bool → Bool → Mask
add_mask enable_et enable_oneshot = record empty_mask {
  epollin = true;
  epollrdhup = true;
  epollet = enable_et;
  epolloneshot = enable_oneshot;
}

-- EPOLL_CTL_ADD fails for a descriptor that is watched, and nothing looks at its result.
unfoldable pub addfd : ℕ → Bool → Bool → Watched → Watched
addfd fd enable_et enable_oneshot w = setnonblocking fd (elim (w.events fd) [
  | none ↦ record w { events = update w.events fd (some (add_mask enable_et enable_oneshot)) }
  | some m ↦ w
])

-- The mask that modfd asks for, beside the events `ev`.
abbrev pub mod_mask : Mask → Bool → Mask
mod_mask ev enable_et = record ev {
  epollet = ev.epollet || enable_et;
  epolloneshot = true;
  epollrdhup = true;
}

-- EPOLL_CTL_MOD fails for a descriptor that is not watched.
unfoldable pub modfd : ℕ → Mask → Bool → Watched → Watched
modfd fd ev enable_et w = elim (w.events fd) [
  | none ↦ w
  | some m ↦ record w { events = update w.events fd (some (mod_mask ev enable_et)) }
]

-- EPOLL_CTL_DEL, and close.
unfoldable pub removefd : ℕ → Watched → Watched
removefd fd w = record w { events = update w.events fd none }
