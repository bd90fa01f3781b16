-- ===== src/ThreadPoolCpp/Drain.antt =====
-- The destructor of ThreadPoolCpp/ThreadPool.h: once `stop` is set, the steps come to an end, and at
-- the end every worker has returned and every task is done.
use c_project.ThreadPoolCpp.Invariant.{
  Orderly, is_running, stop_at, waiting_late, Step-Orderly, woken-Orderly, Reach-Orderly,
}
use mathlib.Core.List.{append-nil}
use c_project.Prelude.{
  ℕ, suc, ◌+◌, ◌*◌, ◌≤◌, ◌<◌, ◌≡◌, refl, sym, ap, ◌∙◌, true, some, get_elem?, length, arith, ◌⊎◌,
  inl, inr, Bool-cases, ◌==◌, [], ◌++◌,
}
use c_project.Prelude.Sums.{
  sum, sum-set, sum-map_le, count, sum_le, sum_complement, sum_pos, le_sum,
}
use c_project.ThreadPoolCpp.Workers.{
  Worker, ready, waiting, running, ended, Destructor, not_called, stop_set, joining, ThreadPool,
  finish, notify_one, notify_no_one, set_stop, notify_all, wake, place, create, is_waiting,
  is_ended,
}
use c_project.ThreadPoolCpp.Steps.{
  Step, section, finishes, enqueues, notifies, notifies_no_one, stops, notifies_all, Section,
  sleeps, ends, takes, worker_section-Section, Section-of, enqueue-cases, Reach,
}

-- How many steps a worker can still take by itself, at most.
abbrev pub worker_steps : Worker → ℕ
worker_steps ready = 1
worker_steps waiting = 2
worker_steps (running task) = 2
worker_steps ended = 0

abbrev pub destructor_steps : Destructor → ℕ
destructor_steps not_called = 2
destructor_steps stop_set = 1
destructor_steps joining = 0

abbrev pub steps_left : ThreadPool → ℕ
steps_left p =
    sum worker_steps p.workers + 2 * length p.tasks + p.notices + destructor_steps p.destructor

Section-steps_left :
    (i : ℕ) (p : ThreadPool) {q : ThreadPool}
    → get_elem? p.workers i ≡ some ready
    → Section i p q
    → p.stop ≡ true
    → (q.stop ≡ true) × (steps_left q < steps_left p)
Section-steps_left i p at (sleeps open_now no_task) s =
    absurd (let e = sym s ∙ open_now in ground arith)
Section-steps_left i p at (ends stop_now no_task) s =
    let w = sum-set worker_steps p.workers i ended at in (s, omega arith)
Section-steps_left i p at (takes task rest e) s =
    let w = sum-set worker_steps p.workers i (running task) at in
    let l = ap length e in (s, omega arith)

wake-worker_steps : (w : Worker) → worker_steps (wake w) ≤ worker_steps w
wake-worker_steps ready = omega arith
wake-worker_steps waiting = omega arith
wake-worker_steps (running task) = omega arith
wake-worker_steps ended = omega arith

-- With `stop` set, each step brings the pool nearer to its end.
Step-steps_left :
    {p q : ThreadPool} → Step p q → p.stop ≡ true → (q.stop ≡ true) × (steps_left q < steps_left p)
unfolding finish notify_one notify_no_one set_stop notify_all
Step-steps_left (section {p = p} i at e) s = Section-steps_left i p at (Section-of i p e) s
Step-steps_left (finishes {p = p} i task at) s =
    let w = sum-set worker_steps p.workers i ready at in (s, omega arith)
Step-steps_left (enqueues {p = p} task e) s =
    absurd (let c = sym s ∙ (enqueue-cases task p e).0 in ground arith)
Step-steps_left (notifies {p = p} i due at) s =
    let w = sum-set worker_steps p.workers i ready at in (s, omega arith)
Step-steps_left (notifies_no_one due none_waits) s = (s, omega arith)
Step-steps_left (stops e) s = (refl, let d = ap destructor_steps e in omega arith)
Step-steps_left (notifies_all {p = p} e) s =
    let w = sum-map_le worker_steps worker_steps wake p.workers wake-worker_steps in
    let d = ap destructor_steps e in (s, omega arith)

-- A run of so many steps, in which `wait` may return without a notice too.
pub data Run (p : ThreadPool) : ℕ → ThreadPool → Type 0 where
  start : Run p 0 p
  more : {n : ℕ} {q r : ThreadPool} → Run p n q → Step q r → Run p (suc n) r
  more_woken :
      {n : ℕ} {q : ThreadPool} (i : ℕ)
      → Run p n q
      → get_elem? q.workers i ≡ some waiting
      → Run p (suc n) (place ready i q)

Run-steps_left :
    {p : ThreadPool} {n : ℕ} {q : ThreadPool}
    → Run p n q
    → p.stop ≡ true
    → (q.stop ≡ true) × (n + steps_left q ≤ steps_left p)
Run-steps_left start s = (s, omega arith)
Run-steps_left (more run step) s =
    let (t, bound) = Run-steps_left run s in
    let (u, less) = Step-steps_left step t in (u, omega arith)
Run-steps_left (more_woken {q = q} i run at) s =
    let (t, bound) = Run-steps_left run s in
    let w = sum-set worker_steps q.workers i ready at in (t, omega arith)

Run-Orderly : {p : ThreadPool} {n : ℕ} {q : ThreadPool} → Run p n q → Orderly p → Orderly q
Run-Orderly start v = v
Run-Orderly (more run step) v = Step-Orderly step (Run-Orderly run v)
Run-Orderly (more_woken {q = q} i run at) v =
    woken-Orderly i q.notices q at (omega arith) (Run-Orderly run v)

abbrev pub is_alive : Worker → ℕ
is_alive ready = 1
is_alive waiting = 1
is_alive (running task) = 1
is_alive ended = 0

-- Where `join` returns for every worker.
abbrev pub Joined : ThreadPool → Type 0
Joined p = (p.destructor ≡ joining) × (sum is_alive p.workers ≡ 0)

-- A worker that does not wait has a step.
worker-Step :
    (i : ℕ) (w : Worker) (p : ThreadPool)
    → get_elem? p.workers i ≡ some w
    → 0 < is_alive w
    → is_waiting w ≡ 0
    → (q : ThreadPool) × Step p q
worker-Step i ready p at h e =
    let (q, gives, s) = worker_section-Section i p in (q, section i at gives)
worker-Step i waiting p at h e = absurd (omega arith)
worker-Step i (running task) p at h e = (_, finishes i task at)
worker-Step i ended p at h e = absurd (omega arith)

-- The phase of the destructor is taken with the equation that the field has.
progress_at :
    (d : Destructor) (p : ThreadPool)
    → p.destructor ≡ d
    → stop_at d ≡ true
    → Orderly p
    → Joined p ⊎ ((q : ThreadPool) × Step p q)
progress_at not_called p e s v = absurd (ground arith)
progress_at stop_set p e s v = inr (_, notifies_all e)
progress_at joining p e s v = elim (Bool-cases (0 == sum is_alive p.workers)) [
  | inl none_left ↦ inl (e, ground arith)
  | inr some_left ↦
      let (i, w, at, alive) = sum_pos is_alive p.workers (ground arith) in
      let none_waits = ap (λ k. waiting_late k p.workers) (sym e) ∙ v.late in
      let awake = le_sum is_waiting p.workers i at in inr (worker-Step i w p at alive (omega arith))
]

-- In every order of the steps that workers, clients and the destructor of a new pool can take, and
-- with `wait` that returns without a notice: once `stop` is set, no run is longer than
-- `steps_left`, twice the workers and the tasks that are left and a little more; and where a run
-- stops, the destructor has joined every worker, or another step is there that does not rest on a
-- `wait` without a notice.
pub Run-Joined :
    (threads n : ℕ) {p q : ThreadPool}
    → Reach (create threads) p
    → p.stop ≡ true
    → Run p n q
    → (n ≤ steps_left p) × (Joined q ⊎ ((r : ThreadPool) × Step q r))
Run-Joined threads n {q = q} r s run =
    let (t, bound) = Run-steps_left run s in
    let v = Run-Orderly run (Reach-Orderly threads r) in
    (omega arith, progress_at q.destructor q refl (sym v.stopped ∙ t) v)

worker_complement : (w : Worker) → is_ended w + is_alive w ≡ 1
worker_complement ready = refl
worker_complement waiting = refl
worker_complement (running task) = refl
worker_complement ended = refl

is_running_le : (t : ℕ) (w : Worker) → is_running t w ≤ is_alive w
is_running_le t ready = omega arith
is_running_le t waiting = omega arith
is_running_le t (running task) = ground arith
is_running_le t ended = omega arith

-- When the destructor of a pool with a worker has joined all of them, in whatever order the steps
-- came, no task is left in the queue, the tasks were started in the order in which they were
-- accepted, and each is done as often as it was accepted.
pub Joined-finished :
    (threads : ℕ) {p : ThreadPool}
    → Reach (create threads) p
    → Joined p
    → 0 < length p.workers
    → (p.tasks ≡ [])
      × (p.started ≡ p.accepted)
      × ((task : ℕ) → count task p.finished ≡ count task p.accepted)
Joined-finished threads {p = p} r (e, none_left) some_worker =
    let v = Reach-Orderly threads r in
    let all = sum_complement is_ended is_alive p.workers worker_complement in
    let empty = (v.closed (omega arith)).1 in
    let same : p.accepted ≡ p.started =
      v.order ∙ ap (λ l. p.started ++ l) empty ∙ append-nil p.started in
    (
      empty,
      sym same,
      λ t.
          let c = v.counted t in
          let none_runs = sum_le (is_running t) is_alive p.workers (is_running_le t) in
          let s = ap (count t) same in omega arith,
    )
