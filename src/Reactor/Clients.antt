-- ===== src/Reactor/Clients.antt =====
-- The list of clients of MyReactor/reactor.cpp, that the loop of `main` fills and the workers empty.
-- What holds `g_clientmutex` is one step; `g_bStop` is read and written without it, in steps of
-- their own. What a worker does with a client is Reactor/Session.
pub mod Queued
use c_project.Prelude.{
  ℕ, ◌+◌, ◌-◌, ◌<◌, ◌≡◌, Bool, true, false, Option, none, some, List, [], ◌∷◌, ◌++◌, get_elem?, map,
  set, replicate, if◌then◌else◌,
}
use c_project.Prelude.Sums.{sum}

abbrev pub worker_thread_num : ℕ
worker_thread_num = 5

-- Where a worker is: before the test of `g_bStop`, before the lock, in `pthread_cond_wait`, behind
-- it, with a client, or behind `return`.
pub data Worker : Type 0 where
  at_loop : Worker
  at_lock : Worker
  waiting : Worker
  woken : Worker
  serving : (clientfd : ℕ) → Worker
  ended : Worker

pub record Reactor : Type 0 where
  pub workers : List Worker
  pub list_clients : List ℕ
  pub stop : Bool
  -- The calls of `pthread_cond_signal (&g_cond)` that are due.
  pub signals : ℕ
  -- The history: the clients that were put into the list, and those that a worker took.
  pub queued : List ℕ
  pub taken : List ℕ

unfoldable pub start : Reactor
start = record {
  workers = replicate worker_thread_num at_loop;
  list_clients = [];
  stop = false;
  signals = 0;
  queued = [];
  taken = [];
}

abbrev pub place : Worker → ℕ → Reactor → Reactor
place w i r = record r { workers = set r.workers i w }

-- `while (!g_bStop)`
unfoldable pub loop_test : ℕ → Reactor → Reactor
loop_test i r = if r.stop then place ended i r else place at_lock i r

-- The inner `while`, and the first client taken.
unfoldable pub take_client : ℕ → List ℕ → Reactor → Reactor
take_client i [] r = place waiting i r
take_client i (fd ∷ clients) r = record (place (serving fd) i r) {
  list_clients = clients;
  taken = r.taken ++ fd ∷ [];
}

unfoldable pub enter : ℕ → Reactor → Reactor
enter i r = take_client i r.list_clients r

-- Behind `pthread_cond_wait`.
unfoldable pub return_from_wait : ℕ → Reactor → Reactor
return_from_wait i r = if r.stop then place ended i r else take_client i r.list_clients r

-- The loop of `main`, at an event of a client.
unfoldable pub push_client : ℕ → Reactor → Reactor
push_client fd r = record r {
  list_clients = r.list_clients ++ fd ∷ [];
  queued = r.queued ++ fd ∷ [];
  signals = r.signals + 1;
}

unfoldable pub signal : ℕ → Reactor → Reactor
signal i r = record (place woken i r) { signals = r.signals - 1 }

unfoldable pub signal_no_one : Reactor → Reactor
signal_no_one r = record r { signals = r.signals - 1 }

-- `prog_exit`
unfoldable pub prog_exit : Reactor → Reactor
prog_exit r = record r { stop = true }

abbrev pub wake : Worker → Worker
wake at_loop = at_loop
wake at_lock = at_lock
wake waiting = woken
wake woken = woken
wake (serving clientfd) = serving clientfd
wake ended = ended

unfoldable pub broadcast : Reactor → Reactor
broadcast r = record r { workers = map wake r.workers }

abbrev pub is_waiting : Worker → ℕ
is_waiting at_loop = 0
is_waiting at_lock = 0
is_waiting waiting = 1
is_waiting woken = 0
is_waiting (serving clientfd) = 0
is_waiting ended = 0

abbrev pub is_woken : Worker → ℕ
is_woken at_loop = 0
is_woken at_lock = 0
is_woken waiting = 0
is_woken woken = 1
is_woken (serving clientfd) = 0
is_woken ended = 0

-- What is reached in any order of the steps; `pthread_cond_wait` may return without a signal.
pub data Reach : Reactor → Type 0 where
  starts : Reach start
  tests :
      {r : Reactor} (i : ℕ) → Reach r → get_elem? r.workers i ≡ some at_loop → Reach (loop_test i r)
  enters :
      {r : Reactor} (i : ℕ) → Reach r → get_elem? r.workers i ≡ some at_lock → Reach (enter i r)
  returns :
      {r : Reactor} (i : ℕ)
      → Reach r
      → get_elem? r.workers i ≡ some woken
      → Reach (return_from_wait i r)
  serves :
      {r : Reactor} (i clientfd : ℕ)
      → Reach r
      → get_elem? r.workers i ≡ some (serving clientfd)
      → Reach (place at_loop i r)
  pushes : {r : Reactor} (fd : ℕ) → Reach r → Reach (push_client fd r)
  signals_one :
      {r : Reactor} (i : ℕ)
      → Reach r
      → 0 < r.signals
      → get_elem? r.workers i ≡ some waiting
      → Reach (signal i r)
  signals_none :
      {r : Reactor}
      → Reach r
      → 0 < r.signals
      → sum is_waiting r.workers ≡ 0
      → Reach (signal_no_one r)
  wakes :
      {r : Reactor} (i : ℕ)
      → Reach r
      → get_elem? r.workers i ≡ some waiting
      → Reach (place woken i r)
  exits : {r : Reactor} → Reach r → Reach (prog_exit r)
  broadcasts : {r : Reactor} → Reach r → Reach (broadcast r)
