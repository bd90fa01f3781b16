-- ===== src/ThreadPoolCpp/Workers.antt =====
-- `ThreadPool` of ThreadPoolCpp/ThreadPool.h: its fields, what a worker does in one critical section,
-- `enqueue` and the destructor. A section that holds `queue_mutex` is one step: all code that reads
-- or writes `tasks` and `stop` holds it. `notify_one` and `notify_all` stand behind their sections,
-- so other steps can come before them.
-- `none` is the exception of `enqueue`, or a read at the front of an empty queue.
use c_project.Prelude.{
  ℕ, ◌+◌, ◌-◌, Bool, true, false, ◌&&◌, ◌||◌, not, Option, none, some, List, [], ◌∷◌, ◌++◌, map,
  set, replicate, if◌then◌else◌,
}

-- Where a worker is: before the lock, in `condition.wait`, in `task ()` or behind `return`.
pub data Worker : Type 0 where
  ready : Worker
  waiting : Worker
  running : (task : ℕ) → Worker
  ended : Worker

-- How far the destructor is.
pub data Destructor : Type 0 where
  not_called : Destructor
  stop_set : Destructor
  joining : Destructor

pub record ThreadPool : Type 0 where
  pub workers : List Worker
  pub tasks : List ℕ
  pub stop : Bool
  -- The calls of `notify_one` that are due.
  pub notices : ℕ
  pub destructor : Destructor
  -- The history: the tasks that `enqueue` took, those that a worker took, and those that are done.
  pub accepted : List ℕ
  pub started : List ℕ
  pub finished : List ℕ

unfoldable pub create : (threads : ℕ) → ThreadPool
create threads = record {
  workers = replicate threads ready;
  tasks = [];
  stop = false;
  notices = 0;
  destructor = not_called;
  accepted = [];
  started = [];
  finished = [];
}

abbrev pub place : Worker → ℕ → ThreadPool → ThreadPool
place w i p = record p { workers = set p.workers i w }

abbrev pub is_empty : List ℕ → Bool
is_empty [] = true
is_empty (t ∷ tasks) = false

-- `task = move (tasks.front ()); tasks.pop ()`
abbrev pub take_front : ℕ → List ℕ → ThreadPool → Option ThreadPool
take_front i [] p = none
take_front i (t ∷ rest) p =
    some (record (place (running t) i p) { tasks = rest; started = p.started ++ t ∷ [] })

-- The critical section of worker `i`.
unfoldable pub worker_section : ℕ → ThreadPool → Option ThreadPool
worker_section i p =
    if p.stop || not (is_empty p.tasks)
    then (if p.stop && is_empty p.tasks then some (place ended i p) else take_front i p.tasks p)
    else some (place waiting i p)

-- `task ()` is over, and the loop begins again.
unfoldable pub finish : (i task : ℕ) → ThreadPool → ThreadPool
finish i task p = record (place ready i p) { finished = task ∷ p.finished }

unfoldable pub enqueue : (task : ℕ) → ThreadPool → Option ThreadPool
enqueue task p =
    if p.stop
    then none
    else some (record p {
      tasks = p.tasks ++ task ∷ [];
      accepted = p.accepted ++ task ∷ [];
      notices = p.notices + 1;
    })

-- `notify_one`, which wakes the waiting worker `i`, and where no worker waits.
unfoldable pub notify_one : (i : ℕ) → ThreadPool → ThreadPool
notify_one i p = record (place ready i p) { notices = p.notices - 1 }

unfoldable pub notify_no_one : ThreadPool → ThreadPool
notify_no_one p = record p { notices = p.notices - 1 }

unfoldable pub set_stop : ThreadPool → ThreadPool
set_stop p = record p { stop = true; destructor = stop_set }

abbrev pub wake : Worker → Worker
wake ready = ready
wake waiting = ready
wake (running task) = running task
wake ended = ended

unfoldable pub notify_all : ThreadPool → ThreadPool
notify_all p = record p { workers = map wake p.workers; destructor = joining }

-- What is counted of the workers.
abbrev pub is_ready : Worker → ℕ
is_ready ready = 1
is_ready waiting = 0
is_ready (running task) = 0
is_ready ended = 0

abbrev pub is_waiting : Worker → ℕ
is_waiting ready = 0
is_waiting waiting = 1
is_waiting (running task) = 0
is_waiting ended = 0

abbrev pub is_ended : Worker → ℕ
is_ended ready = 0
is_ended waiting = 0
is_ended (running task) = 0
is_ended ended = 1
