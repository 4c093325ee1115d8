-- ===== src/Support/Tests.antt =====
-- Runs of practice/src/support.cpp.
use study_record.Common.{ℕ, ◌≡◌, refl, List, [], ◌∷◌, some, true, false}
use study_record.Common.Int.{ℤ, negsuc}
use study_record.Common.Run.{ok}
use study_record.Support.{Address, listen_loop, after_listen_loop, open_listenfd, open_clientfd}
use study_record.Support.Laws.{IsClean, in_use, open_clientfd-IsClean}

-- The first address refuses the connection, the second takes it.
abbrev addresses : List Address
addresses =
    record { socket = some 5; bind = true; connect = false; close = true }
    ∷ record { socket = some 5; bind = true; connect = true; close = true }
    ∷ []

open_clientfd-IsClean_example :
    (r : ℤ × List ℕ) × (open_clientfd true (some addresses) (0 ∷ 1 ∷ 2 ∷ []) ≡ ok r)
    × IsClean (0 ∷ 1 ∷ 2 ∷ []) r
open_clientfd-IsClean_example = open_clientfd-IsClean true addresses (0 ∷ 1 ∷ 2 ∷ [])

-- The sockets 5 and 6 stay open, and standard input is closed.
listen_in_use :
    open_listenfd true (some (in_use (5 ∷ 6 ∷ []))) true (0 ∷ 1 ∷ 2 ∷ [])
    ≡ (negsuc 0, 6 ∷ 5 ∷ 1 ∷ 2 ∷ [])
unfolding open_listenfd listen_loop after_listen_loop
listen_in_use = refl
