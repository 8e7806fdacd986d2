-- ===== src/Socket/WinSock.antt =====
-- src/Socket.cpp under WIN32: the start of the sockets library of Windows, and its end. A program
-- runs initialize() when it starts (s_wsaInitializer) and in each constructor of a socket, and
-- cleanup() when it ends.
use ucxx.Base.{
  ℕ, suc, ◌+◌, ◌≡◌, refl, List, [], ◌∷◌, Bool, true, false, not, if◌then◌else◌, ◌==◌, All, length,
  arith, ap, ◌∙◌,
}

-- s_winSockInitialized, and how often WSAStartup has been called, has succeeded, and WSACleanup has
-- been called.
pub record WinSock : Type 0 where
  pub initialized : Bool
  pub startups : ℕ
  pub started : ℕ
  pub cleanups : ℕ

abbrev pub fresh : WinSock
fresh = record { initialized = false; startups = 0; started = 0; cleanups = 0 }

-- `result` is what WSAStartup returns: 0 for success.
unfoldable pub initialize_win_sock : ℕ → WinSock → WinSock
initialize_win_sock result w = record w {
  initialized = not (result == 0);
  startups = suc w.startups;
  started = if result == 0 then suc w.started else w.started;
}

-- Socket::initialize
unfoldable pub initialize : ℕ → WinSock → WinSock
initialize result w = if w.initialized then w else initialize_win_sock result w

-- Socket::cleanup
unfoldable pub cleanup : WinSock → WinSock
cleanup w = if w.initialized then record w { cleanups = suc w.cleanups } else w

-- The initializer of the program and the constructors of the sockets, with what WSAStartup returns
-- to each if it is called there.
unfoldable pub run : List ℕ → WinSock → WinSock
run [] w = w
run (result ∷ results) w = run results (initialize result w)

run_succeeding :
    (results : List ℕ) (w : WinSock)
    → All (λ r. r ≡ 0) results
    → w.initialized ≡ false
    → ((run results w).initialized ≡ false)
      × ((run results w).started ≡ w.started + length results)
      × ((run results w).cleanups ≡ w.cleanups)
unfolding run initialize initialize_win_sock
run_succeeding [] w ok off = (off, omega arith, refl)
run_succeeding (result ∷ results) w (now, later) off =
    let step = run_succeeding results (initialize_win_sock result w) later (ground arith) in
    rw off (step.0, ground (arith, step.1), step.2)

run_initialized :
    (results : List ℕ) (a b c : ℕ)
    → run results (record { initialized = true; startups = a; started = b; cleanups = c })
      ≡ record { initialized = true; startups = a; started = b; cleanups = c }
unfolding run initialize
run_initialized [] a b c = refl
run_initialized (result ∷ results) a b c = run_initialized results a b c

-- The flag is set when WSAStartup fails. If it succeeds each time, it is called again by every
-- socket and WSACleanup never; if it fails the first time, it is not called again, and WSACleanup
-- is called all the same.
pub cleanup-run :
    (result : ℕ) (results : List ℕ)
    → (result ≡ 0
        → All (λ r. r ≡ 0) results
        → ((cleanup (run (result ∷ results) fresh)).started ≡ suc (length results))
          × ((cleanup (run (result ∷ results) fresh)).cleanups ≡ 0))
      × ((result == 0) ≡ false
          → ((cleanup (run (result ∷ results) fresh)).startups ≡ 1)
            × ((cleanup (run (result ∷ results) fresh)).started ≡ 0)
            × ((cleanup (run (result ∷ results) fresh)).cleanups ≡ 1))
unfolding run initialize initialize_win_sock cleanup
cleanup-run result results = (
  λ zero_first zeros.
      let (off, started, cleanups) =
        run_succeeding results (initialize_win_sock result fresh) zeros (ground arith) in
      rw off (ground (arith, started), cleanups),
  λ fails.
      let failed : initialize_win_sock result fresh
          ≡ record { initialized = true; startups = 1; started = 0; cleanups = 0 } =
        rw fails refl in
      let whole : run (result ∷ results) fresh
          ≡ record { initialized = true; startups = 1; started = 0; cleanups = 0 } =
        ap (run results) failed ∙ run_initialized results 1 0 0 in
      (
        ap (λ w. (cleanup w).startups) whole,
        ap (λ w. (cleanup w).started) whole,
        ap (λ w. (cleanup w).cleanups) whole,
      ),
)
