-- ===== src/ThreadPoolC/Steps.antt =====
-- The steps of the thread pool of ThreadPoolC/ThreadPool.cpp, and the branches of its code.
use mathlib.Core.Path.{subst}
use c_project.Prelude.{
  ℕ, ◌+◌, ◌<◌, ◌≡◌, refl, sym, ap, ◌⊎◌, inl, inr, Bool, true, false, ◌&&◌, not, none, some, List,
  [], ◌∷◌, ◌++◌, ◌==◌, get_elem?, length, if◌then◌else◌, some-injective, arith,
}
use c_project.Prelude.Sums.{sum}
use c_project.ThreadPoolC.Threads.{
  outside, testing, falling, waiting, checking, running, exited, shutdown_set, ThreadPool, place,
  lock, test_wait, cond_wait, take_front, check_shutdown, run_task, add_task, signal, signal_no_one,
  stop_all, broadcast, is_waiting,
}

-- What the threads of the pool and `stopAll` do.
pub data Step : ThreadPool → ThreadPool → Type 0 where
  locks :
      {p q : ThreadPool} (i : ℕ)
      → get_elem? p.threads i ≡ some outside
      → lock i p ≡ some q
      → Step p q
  tests : {p : ThreadPool} (i : ℕ) → get_elem? p.threads i ≡ some testing → Step p (test_wait i p)
  waits : {p : ThreadPool} (i : ℕ) → get_elem? p.threads i ≡ some falling → Step p (cond_wait i p)
  checks :
      {p q : ThreadPool} (i : ℕ)
      → get_elem? p.threads i ≡ some checking
      → check_shutdown i p ≡ some q
      → Step p q
  runs :
      {p : ThreadPool} (i task : ℕ)
      → get_elem? p.threads i ≡ some (running task)
      → Step p (run_task i p)
  signals_one :
      {p : ThreadPool} (i : ℕ)
      → 0 < p.signals
      → get_elem? p.threads i ≡ some waiting
      → Step p (signal i p)
  signals_none :
      {p : ThreadPool} → 0 < p.signals → sum is_waiting p.threads ≡ 0 → Step p (signal_no_one p)
  stops : {p q : ThreadPool} → stop_all p ≡ some q → Step p q
  broadcasts : {p : ThreadPool} → p.stopper ≡ shutdown_set → Step p (broadcast p)

-- What is reached when others add tasks, and `pthread_cond_wait` may return without a signal.
pub data Reach (p : ThreadPool) : ThreadPool → Type 0 where
  here : Reach p p
  next : {q r : ThreadPool} → Reach p q → Step q r → Reach p r
  adds : {q r : ThreadPool} (task : ℕ) → Reach p q → add_task task q ≡ some r → Reach p r
  woken :
      {q : ThreadPool} (i : ℕ)
      → Reach p q
      → get_elem? q.threads i ≡ some waiting
      → Reach p (place outside i q)

-- A call that goes through where a flag is not set.
if_open :
    (b : Bool) (p : ThreadPool) {q : ThreadPool}
    → (if b then none else some p) ≡ some q
    → (b ≡ false) × (q ≡ p)
if_open true p e = ground arith
if_open false p e = (refl, some-injective (sym e))

pub lock-cases :
    (i : ℕ) (p : ThreadPool) {q : ThreadPool}
    → lock i p ≡ some q
    → (p.locked ≡ false) × (q ≡ record (place testing i p) { locked = true })
unfolding lock
lock-cases i p e = if_open p.locked _ e

pub add_task-cases :
    (task : ℕ) (p : ThreadPool) {q : ThreadPool}
    → add_task task p ≡ some q
    → (p.locked ≡ false)
      × (q ≡ record p {
        task_list = p.task_list ++ task ∷ [];
        added = p.added ++ task ∷ [];
        signals = p.signals + 1;
      })
unfolding add_task
add_task-cases task p e = if_open p.locked _ e

pub stop_all-cases :
    (p : ThreadPool) {q : ThreadPool}
    → stop_all p ≡ some q
    → (p.shutdown ≡ false) × (q ≡ record p { shutdown = true; stopper = shutdown_set })
unfolding stop_all
stop_all-cases p e = if_open p.shutdown _ e

-- The outcomes of the test of the inner `while`, and of `if (shutdown)`.
pub data Tested (i : ℕ) (p : ThreadPool) : ThreadPool → Type 0 where
  falls : p.shutdown ≡ false → p.task_list ≡ [] → Tested i p (place falling i p)
  passes : (p.shutdown ≡ true) ⊎ (0 < length p.task_list) → Tested i p (place checking i p)

pub data Checked (i : ℕ) (p : ThreadPool) : ThreadPool → Type 0 where
  leaves : p.shutdown ≡ true → Checked i p (record (place exited i p) { locked = false })
  takes :
      (task : ℕ) (rest : List ℕ)
      → p.shutdown ≡ false
      → p.task_list ≡ task ∷ rest
      → Checked i p (record (place (running task) i p) {
        task_list = rest;
        started = p.started ++ task ∷ [];
        locked = false;
      })

some_tasks : (t : ℕ) (tasks : List ℕ) → (length (t ∷ tasks) == 0) ≡ false
some_tasks t tasks = ground arith

test_on-Tested :
    (i : ℕ) (p : ThreadPool) (shutdown : Bool) (tasks : List ℕ)
    → p.shutdown ≡ shutdown
    → p.task_list ≡ tasks
    → Tested i p
        (if length tasks == 0 && not shutdown then place falling i p else place checking i p)
test_on-Tested i p true [] s e = passes (inl s)
test_on-Tested i p false [] s e = falls s e
test_on-Tested i p true (t ∷ tasks) s e = rw (some_tasks t tasks) (passes (inl s))
test_on-Tested i p false (t ∷ tasks) s e =
    rw (some_tasks t tasks) (passes (inr (let l = ap length e in omega arith)))

pub test_wait-Tested : (i : ℕ) (p : ThreadPool) → Tested i p (test_wait i p)
unfolding test_wait
test_wait-Tested i p = test_on-Tested i p p.shutdown p.task_list refl refl

check_on-Checked :
    (i : ℕ) (p : ThreadPool) {q : ThreadPool} (shutdown : Bool) (tasks : List ℕ)
    → p.shutdown ≡ shutdown
    → p.task_list ≡ tasks
    → (if shutdown
        then some (record (place exited i p) { locked = false })
        else take_front i tasks p)
      ≡ some q
    → Checked i p q
check_on-Checked i p true tasks s e h = subst (Checked i p) (some-injective h) (leaves s)
check_on-Checked i p false [] s e h = absurd (ground arith)
check_on-Checked i p false (t ∷ rest) s e h =
    subst (Checked i p) (some-injective h) (takes t rest s e)

pub check_shutdown-Checked :
    (i : ℕ) (p : ThreadPool) {q : ThreadPool} → check_shutdown i p ≡ some q → Checked i p q
unfolding check_shutdown
check_shutdown-Checked i p h = check_on-Checked i p p.shutdown p.task_list refl refl h
