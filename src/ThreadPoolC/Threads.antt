-- ===== src/ThreadPoolC/Threads.antt =====
-- `ThreadPool` of ThreadPoolC/ThreadPool.cpp: its static fields, what a thread does between two
-- reads of a shared field, `addTask`, `stopAll` and `getTaskSize`. The list of tasks is read and
-- written under `mutex`, and `shutdown` without it, so the reads of `shutdown` are steps apart.
-- `none` is a lock that another thread holds, a call that returns -1, or a read at the front of an
-- empty list.
use c_project.Prelude.{
  ℕ, ◌+◌, ◌-◌, Bool, true, false, ◌&&◌, not, Option, none, some, List, [], ◌∷◌, ◌++◌, ◌==◌, map,
  set, length, replicate, if◌then◌else◌,
}

-- Where a thread is in `threadFunc`: before the lock (or woken, and before the lock again), at the
-- condition of the inner `while`, at `pthread_cond_wait`, in it, at `if (shutdown)`, in
-- `task->run ()` and behind `pthread_exit`.
pub data Thread : Type 0 where
  outside : Thread
  testing : Thread
  falling : Thread
  waiting : Thread
  checking : Thread
  running : (task : ℕ) → Thread
  exited : Thread

-- How far `stopAll` is.
pub data Stopper : Type 0 where
  not_called : Stopper
  shutdown_set : Stopper
  joining : Stopper

pub record ThreadPool : Type 0 where
  pub threads : List Thread
  pub task_list : List ℕ
  pub shutdown : Bool
  -- Whether a thread holds `mutex`.
  pub locked : Bool
  -- The calls of `pthread_cond_signal` that are due.
  pub signals : ℕ
  pub stopper : Stopper
  -- The history: the tasks that `addTask` took and those that a thread took.
  pub added : List ℕ
  pub started : List ℕ

unfoldable pub create : (thread_num : ℕ) → ThreadPool
create thread_num = record {
  threads = replicate thread_num outside;
  task_list = [];
  shutdown = false;
  locked = false;
  signals = 0;
  stopper = not_called;
  added = [];
  started = [];
}

abbrev pub place : Thread → ℕ → ThreadPool → ThreadPool
place t i p = record p { threads = set p.threads i t }

unfoldable pub lock : ℕ → ThreadPool → Option ThreadPool
lock i p = if p.locked then none else some (record (place testing i p) { locked = true })

-- The condition of the inner `while`.
unfoldable pub test_wait : ℕ → ThreadPool → ThreadPool
test_wait i p =
    if length p.task_list == 0 && not p.shutdown then place falling i p else place checking i p

-- `pthread_cond_wait` gives the mutex back.
unfoldable pub cond_wait : ℕ → ThreadPool → ThreadPool
cond_wait i p = record (place waiting i p) { locked = false }

abbrev pub take_front : ℕ → List ℕ → ThreadPool → Option ThreadPool
take_front i [] p = none
take_front i (t ∷ rest) p = some (record (place (running t) i p) {
  task_list = rest;
  started = p.started ++ t ∷ [];
  locked = false;
})

-- `if (shutdown)`, with the exit, or with the first task taken and the mutex given back.
unfoldable pub check_shutdown : ℕ → ThreadPool → Option ThreadPool
check_shutdown i p =
    if p.shutdown
    then some (record (place exited i p) { locked = false })
    else take_front i p.task_list p

unfoldable pub run_task : ℕ → ThreadPool → ThreadPool
run_task i p = place outside i p

-- `addTask`, up to the signal.
unfoldable pub add_task : (task : ℕ) → ThreadPool → Option ThreadPool
add_task task p =
    if p.locked
    then none
    else some (record p {
      task_list = p.task_list ++ task ∷ [];
      added = p.added ++ task ∷ [];
      signals = p.signals + 1;
    })

-- `pthread_cond_signal`, which wakes thread `i`, and where no thread waits.
unfoldable pub signal : (i : ℕ) → ThreadPool → ThreadPool
signal i p = record (place outside i p) { signals = p.signals - 1 }

unfoldable pub signal_no_one : ThreadPool → ThreadPool
signal_no_one p = record p { signals = p.signals - 1 }

-- `stopAll`, up to the broadcast.
unfoldable pub stop_all : ThreadPool → Option ThreadPool
stop_all p =
    if p.shutdown then none else some (record p { shutdown = true; stopper = shutdown_set })

abbrev pub wake : Thread → Thread
wake outside = outside
wake testing = testing
wake falling = falling
wake waiting = outside
wake checking = checking
wake (running task) = running task
wake exited = exited

unfoldable pub broadcast : ThreadPool → ThreadPool
broadcast p = record p { threads = map wake p.threads; stopper = joining }

unfoldable pub get_task_size : ThreadPool → Option ℕ
get_task_size p = if p.locked then none else some (length p.task_list)

-- What is counted of the threads: those that hold the mutex, and those of one place.
abbrev pub holds : Thread → ℕ
holds outside = 0
holds testing = 1
holds falling = 1
holds waiting = 0
holds checking = 1
holds (running task) = 0
holds exited = 0

abbrev pub is_waiting : Thread → ℕ
is_waiting outside = 0
is_waiting testing = 0
is_waiting falling = 0
is_waiting waiting = 1
is_waiting checking = 0
is_waiting (running task) = 0
is_waiting exited = 0

abbrev pub is_checking : Thread → ℕ
is_checking outside = 0
is_checking testing = 0
is_checking falling = 0
is_checking waiting = 0
is_checking checking = 1
is_checking (running task) = 0
is_checking exited = 0

abbrev pub is_alive : Thread → ℕ
is_alive outside = 1
is_alive testing = 1
is_alive falling = 1
is_alive waiting = 1
is_alive checking = 1
is_alive (running task) = 1
is_alive exited = 0
