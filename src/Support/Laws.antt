-- ===== src/Support/Laws.antt =====
-- Which descriptors the functions of practice/src/support.cpp leave open.
use study_record.Common.{
  ℕ, ◌≡◌, refl, ap, List, [], ◌∷◌, Option, none, some, Bool, true, false, ◌==◌, ==_iff, ◌⊎◌, inl,
  inr, Bool-cases, ◌||◌, not, arith,
}
use study_record.Common.Int.{ℤ, pos, negsuc}
use study_record.Common.Run.{ok}
use study_record.Common.Links.{has, without}
use study_record.Support.{
  Address, found, returned, listen_loop, after_listen_loop, open_listenfd, client_loop,
  after_client_loop, open_clientfd,
}

-- One descriptor more, which is returned, or none.
abbrev pub IsClean : List ℕ → ℤ × List ℕ → Type 0
IsClean fds r = ((fd : ℕ) × (r ≡ (pos fd, fd ∷ fds))) ⊎ (r ≡ (negsuc 0, fds))

without_first : (x : ℕ) (xs : List ℕ) → without x (x ∷ xs) ≡ xs
without_first x xs = rw ((==_iff x x).1 refl) refl

client_loop-IsClean :
    (is_tcp : Bool) (addresses : List Address) (fds : List ℕ)
    → IsClean fds (after_client_loop (client_loop is_tcp addresses fds))
unfolding client_loop
client_loop-IsClean is_tcp [] fds = inr refl
client_loop-IsClean is_tcp (p ∷ rest) fds =
    by_socket p.socket (not is_tcp || p.connect) p.close (client_loop-IsClean is_tcp rest fds)
  where
    by_socket :
        (s : Option ℕ) (c d : Bool)
        → IsClean fds (after_client_loop (client_loop is_tcp rest fds))
        → IsClean fds (
            after_client_loop (elim s [
              | none ↦ client_loop is_tcp rest fds
              | some clientfd ↦ elim c [
                | true ↦ found clientfd (clientfd ∷ fds)
                | false ↦ elim d [
                  | true ↦ client_loop is_tcp rest (without clientfd (clientfd ∷ fds))
                  | false ↦ returned (without clientfd (clientfd ∷ fds))
                ]
              ]
            ]))
    by_socket none c d next = next
    by_socket (some fd) true d next = inl (fd, refl)
    by_socket (some fd) false true next = rw (without_first fd fds) next
    by_socket (some fd) false false next = inr (ap (λ xs. (negsuc 0, xs)) (without_first fd fds))

-- Whatever socket, connect and close return for the addresses that getaddrinfo finds, open_clientfd
-- returns a descriptor with no other one left open beside those before, or -1 with none.
pub open_clientfd-IsClean :
    (is_tcp : Bool) (addresses : List Address) (fds : List ℕ)
    → (r : ℤ × List ℕ) × (open_clientfd is_tcp (some addresses) fds ≡ ok r) × IsClean fds r
unfolding open_clientfd
open_clientfd-IsClean is_tcp addresses fds = (
  after_client_loop (client_loop is_tcp addresses fds),
  refl,
  client_loop-IsClean is_tcp addresses fds,
)

-- Addresses in use: each socket is opened, and bind fails.
abbrev pub in_use : List ℕ → List Address
in_use [] = []
in_use (s ∷ sockets) =
    record { socket = some s; bind = false; connect = false; close = true } ∷ in_use sockets

has-without_other :
    (a t : ℕ) (xs : List ℕ) → (a == t) ≡ false → has a xs ≡ true → has a (without t xs) ≡ true
has-without_other a t [] d h = h
has-without_other a t (x ∷ xs) d h =
    ground (arith, ==_iff a x, ==_iff t x, has-without_other a t xs)

open_before :
    (sockets : List ℕ) (is_tcp listens : Bool) (fds : List ℕ) (s : ℕ)
    → (s == 0) ≡ false
    → has s fds ≡ true
    → has s (after_listen_loop is_tcp listens (listen_loop (in_use sockets) fds)).1 ≡ true
unfolding listen_loop after_listen_loop
open_before [] is_tcp listens fds s d h = h
open_before (x ∷ sockets) is_tcp listens fds s d h =
    open_before sockets is_tcp listens (without 0 (x ∷ fds)) s d
      (has-without_other s 0 (x ∷ fds) d (ground arith))

open_after :
    (sockets : List ℕ) (is_tcp listens : Bool) (fds : List ℕ) (s : ℕ)
    → (s == 0) ≡ false
    → has s sockets ≡ true
    → has s (after_listen_loop is_tcp listens (listen_loop (in_use sockets) fds)).1 ≡ true
unfolding listen_loop after_listen_loop
open_after [] is_tcp listens fds s d h = cc
open_after (x ∷ sockets) is_tcp listens fds s d h = elim (Bool-cases (s == x)) [
  | inl e ↦
      open_before sockets is_tcp listens (without 0 (x ∷ fds)) s d
        (has-without_other s 0 (x ∷ fds) d (ground arith))
  | inr e ↦ open_after sockets is_tcp listens (without 0 (x ∷ fds)) s d (ground arith)
]

no_address :
    (sockets : List ℕ) (is_tcp listens : Bool) (fds : List ℕ)
    → (after_listen_loop is_tcp listens (listen_loop (in_use sockets) fds)).0 ≡ negsuc 0
unfolding listen_loop after_listen_loop
no_address [] is_tcp listens fds = refl
no_address (x ∷ sockets) is_tcp listens fds =
    no_address sockets is_tcp listens (without 0 (x ∷ fds))

-- When no address can be bound and the calls of close succeed, open_listenfd returns -1, and each
-- socket that it has opened, other than 0, is still open.
pub open_listenfd_leaks :
    (sockets : List ℕ) (is_tcp listens : Bool) (fds : List ℕ)
    → ((open_listenfd is_tcp (some (in_use sockets)) listens fds).0 ≡ negsuc 0)
      × ((s : ℕ)
          → (s == 0) ≡ false
          → has s sockets ≡ true
          → has s (open_listenfd is_tcp (some (in_use sockets)) listens fds).1 ≡ true)
unfolding open_listenfd
open_listenfd_leaks sockets is_tcp listens fds =
    (no_address sockets is_tcp listens fds, open_after sockets is_tcp listens fds)
