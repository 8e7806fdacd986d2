-- ===== src/Socket/Tests.antt =====
-- Runs of the start and the end of the sockets library of src/Socket.cpp.
use ucxx.Base.{◌≡◌, refl, [], ◌∷◌, ℕ}
use ucxx.Socket.WinSock.{fresh, initialize_win_sock, initialize, cleanup, run}

running : ℕ
unfolding initialize_win_sock initialize cleanup run
running = 0

runs :
    ((cleanup (run (0 ∷ 0 ∷ []) fresh)).cleanups ≡ 0)
    × ((cleanup (run (10091 ∷ 0 ∷ []) fresh)).cleanups ≡ 1)
unfolding running
runs = (refl, refl)
