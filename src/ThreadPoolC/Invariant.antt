-- ===== src/ThreadPoolC/Invariant.antt =====
-- What holds after every step of the thread pool of ThreadPoolC/ThreadPool.cpp: at most one thread
-- holds the mutex, the tasks are taken in order, and no read is at the front of an empty list.
use mathlib.Core.List.{append_assoc}
use mathlib.Core.Path.{subst}
use c_project.Prelude.{
  ℕ, ◌-◌, ◌≤◌, ◌<◌, ◌≡◌, ◌≢◌, refl, sym, ap, ◌∙◌, ◌⊎◌, inl, inr, Bool, true, false, none, some,
  List, [], ◌∷◌, ◌++◌, get_elem?, set, length, length-append, arith, if◌then◌else◌,
}
use c_project.Prelude.Sums.{sum, sum-set, sum_le, le_sum, sum-map_eq, sum-replicate_zero}
use c_project.ThreadPoolC.Threads.{
  Thread, outside, testing, falling, waiting, checking, running, exited, Stopper, not_called,
  shutdown_set, joining, ThreadPool, create, place, lock, cond_wait, check_shutdown, take_front,
  run_task, add_task, signal, signal_no_one, stop_all, broadcast, wake, holds, is_checking,
}
use c_project.ThreadPoolC.Steps.{
  Step, locks, tests, waits, checks, runs, signals_one, signals_none, stops, broadcasts, Reach,
  here, next, adds, woken, lock-cases, add_task-cases, stop_all-cases, Tested, falls, passes,
  test_wait-Tested, Checked, leaves, takes, check_shutdown-Checked,
}

abbrev pub held : Bool → ℕ
held true = 1
held false = 0

abbrev pub shutdown_at : Stopper → Bool
shutdown_at not_called = false
shutdown_at shutdown_set = true
shutdown_at joining = true

pub record Guarded (p : ThreadPool) : Type 0 where
  pub order : p.added ≡ p.started ++ p.task_list
  -- One thread is between lock and unlock where the mutex is held, and none where it is free.
  pub exclusive : sum holds p.threads ≡ held p.locked
  -- Who has passed the inner `while` finds a task, or the end of the pool.
  pub passed : 0 < sum is_checking p.threads → (p.shutdown ≡ true) ⊎ (0 < length p.task_list)
  pub stopped : p.shutdown ≡ shutdown_at p.stopper

held_le : (b : Bool) → held b ≤ 1
held_le true = omega arith
held_le false = omega arith

is_checking_le : (t : Thread) → is_checking t ≤ holds t
is_checking_le outside = omega arith
is_checking_le testing = omega arith
is_checking_le falling = omega arith
is_checking_le waiting = omega arith
is_checking_le checking = omega arith
is_checking_le (running task) = omega arith
is_checking_le exited = omega arith

-- A thread that is in no section moves to another place in none.
module _ (i : ℕ) (p : ThreadPool) {t : Thread} (u : Thread)
    (at : get_elem? p.threads i ≡ some t) where
  moved-Guarded :
      (n : ℕ)
      → holds u ≡ holds t
      → is_checking u ≤ is_checking t
      → Guarded p
      → Guarded (record (place u i p) { signals = n })
  moved-Guarded n e c v =
      let h = sum-set holds p.threads i u at in
      let k = sum-set is_checking p.threads i u at in
      record {
        order = v.order;
        exclusive = let before = v.exclusive in omega arith;
        passed = λ some_checks. v.passed (omega arith);
        stopped = v.stopped;
      }

  -- The holder of the mutex gives it back.
  unlocked :
      holds t ≡ 1
      → holds u ≡ 0
      → Guarded p
      → (sum holds (set p.threads i u) ≡ 0) × (sum is_checking (set p.threads i u) ≡ 0)
  unlocked one gone v =
      let h = sum-set holds p.threads i u at in
      let c = sum_le is_checking holds (set p.threads i u) is_checking_le in
      let b = held_le p.locked in let before = v.exclusive in (omega arith, omega arith)

  unlocked-Guarded :
      holds t ≡ 1 → holds u ≡ 0 → Guarded p → Guarded (record (place u i p) { locked = false })
  unlocked-Guarded one gone v =
      let (h, c) = unlocked one gone v in
      record {
        order = v.order;
        exclusive = h;
        passed = λ some_checks. absurd (omega arith);
        stopped = v.stopped;
      }

lock-Guarded :
    (i : ℕ) (p : ThreadPool) {q : ThreadPool}
    → get_elem? p.threads i ≡ some outside
    → lock i p ≡ some q
    → Guarded p
    → Guarded q
lock-Guarded i p at e v =
    let (free, gives) = lock-cases i p e in
    let h = sum-set holds p.threads i testing at in
    let k = sum-set is_checking p.threads i testing at in
    subst Guarded (sym gives) (record {
      order = v.order;
      exclusive = let before = v.exclusive ∙ ap held free in omega arith;
      passed = λ some_checks. v.passed (omega arith);
      stopped = v.stopped;
    })

Tested-Guarded :
    (i : ℕ) (p : ThreadPool) {q : ThreadPool}
    → get_elem? p.threads i ≡ some testing
    → Tested i p q
    → Guarded p
    → Guarded q
Tested-Guarded i p at (falls s e) v = moved-Guarded i p falling at p.signals refl (omega arith) v
Tested-Guarded i p at (passes why) v =
    let h = sum-set holds p.threads i checking at in
    record {
      order = v.order;
      exclusive = let before = v.exclusive in omega arith;
      passed = λ some_checks. why;
      stopped = v.stopped;
    }

Checked-Guarded :
    (i : ℕ) (p : ThreadPool) {q : ThreadPool}
    → get_elem? p.threads i ≡ some checking
    → Checked i p q
    → Guarded p
    → Guarded q
Checked-Guarded i p at (leaves s) v = unlocked-Guarded i p exited at refl refl v
Checked-Guarded i p at (takes task rest s e) v =
    let (h, c) = unlocked i p (running task) at refl refl v in
    record {
      order = v.order ∙ ap (λ l. p.started ++ l) e ∙ sym (append_assoc p.started (task ∷ []) rest);
      exclusive = h;
      passed = λ some_checks. absurd (omega arith);
      stopped = v.stopped;
    }

add_task-Guarded :
    (task : ℕ) (p : ThreadPool) {q : ThreadPool} → add_task task p ≡ some q → Guarded p → Guarded q
add_task-Guarded task p e v =
    let (free, gives) = add_task-cases task p e in
    subst Guarded (sym gives) (record {
      order = ap (λ l. l ++ task ∷ []) v.order ∙ append_assoc p.started p.task_list (task ∷ []);
      exclusive = v.exclusive;
      passed = λ some_checks. inr (let l = length-append p.task_list (task ∷ []) in omega arith);
      stopped = v.stopped;
    })

wake-holds : (t : Thread) → holds (wake t) ≡ holds t
wake-holds outside = refl
wake-holds testing = refl
wake-holds falling = refl
wake-holds waiting = refl
wake-holds checking = refl
wake-holds (running task) = refl
wake-holds exited = refl

wake-is_checking : (t : Thread) → is_checking (wake t) ≡ is_checking t
wake-is_checking outside = refl
wake-is_checking testing = refl
wake-is_checking falling = refl
wake-is_checking waiting = refl
wake-is_checking checking = refl
wake-is_checking (running task) = refl
wake-is_checking exited = refl

broadcast-Guarded : (p : ThreadPool) → p.stopper ≡ shutdown_set → Guarded p → Guarded (broadcast p)
unfolding broadcast
broadcast-Guarded p e v = record {
  order = v.order;
  exclusive = sum-map_eq holds holds wake p.threads wake-holds ∙ v.exclusive;
  passed = λ some_checks.
      let same = sum-map_eq is_checking is_checking wake p.threads wake-is_checking in
      v.passed (omega arith);
  stopped = v.stopped ∙ ap shutdown_at e;
}

stop_all-Guarded : (p : ThreadPool) {q : ThreadPool} → stop_all p ≡ some q → Guarded p → Guarded q
stop_all-Guarded p e v =
    let (open_now, gives) = stop_all-cases p e in
    subst Guarded (sym gives) (record {
      order = v.order;
      exclusive = v.exclusive;
      passed = λ some_checks. inl refl;
      stopped = refl;
    })

pub Step-Guarded : {p q : ThreadPool} → Step p q → Guarded p → Guarded q
unfolding cond_wait run_task signal signal_no_one
Step-Guarded (locks {p = p} i at e) v = lock-Guarded i p at e v
Step-Guarded (tests {p = p} i at) v = Tested-Guarded i p at (test_wait-Tested i p) v
Step-Guarded (waits {p = p} i at) v = unlocked-Guarded i p waiting at refl refl v
Step-Guarded (checks {p = p} i at e) v = Checked-Guarded i p at (check_shutdown-Checked i p e) v
Step-Guarded (runs {p = p} i task at) v =
    moved-Guarded i p outside at p.signals refl (omega arith) v
Step-Guarded (signals_one {p = p} i due at) v =
    moved-Guarded i p outside at (p.signals - 1) refl (omega arith) v
Step-Guarded (signals_none due none_waits) v = record {
  order = v.order;
  exclusive = v.exclusive;
  passed = v.passed;
  stopped = v.stopped;
}
Step-Guarded (stops {p = p} e) v = stop_all-Guarded p e v
Step-Guarded (broadcasts {p = p} e) v = broadcast-Guarded p e v

create-Guarded : (thread_num : ℕ) → Guarded (create thread_num)
unfolding create
create-Guarded thread_num = record {
  order = refl;
  exclusive = sum-replicate_zero holds thread_num outside refl;
  passed = λ some_checks.
      absurd
        (let none_checks = sum-replicate_zero is_checking thread_num outside refl in omega arith);
  stopped = refl;
}

-- In every state that a new pool reaches, in any order of its steps: the tasks added are those
-- started, and behind them those in the list, in their order; exactly one thread is between lock
-- and unlock when the mutex is held, and none when it is free; and a thread that has passed the
-- inner `while` finds a task in the list, unless `shutdown` is set.
pub Reach-Guarded : (thread_num : ℕ) {p : ThreadPool} → Reach (create thread_num) p → Guarded p
Reach-Guarded thread_num here = create-Guarded thread_num
Reach-Guarded thread_num (next r s) = Step-Guarded s (Reach-Guarded thread_num r)
Reach-Guarded thread_num (adds {q = q} task r e) =
    add_task-Guarded task q e (Reach-Guarded thread_num r)
Reach-Guarded thread_num (woken {q = q} i r at) =
    moved-Guarded i q outside at q.signals refl (omega arith) (Reach-Guarded thread_num r)

check_on-Goes :
    (i : ℕ) (p : ThreadPool) (shutdown : Bool) (tasks : List ℕ)
    → (shutdown ≡ true) ⊎ (0 < length tasks)
    → (if shutdown
        then some (record (place exited i p) { locked = false })
        else take_front i tasks p)
      ≢ none
check_on-Goes i p true tasks h e = ground arith
check_on-Goes i p false [] h e = ground arith
check_on-Goes i p false (t ∷ rest) h e = ground arith

-- A thread that has passed the inner `while` does not read at the front of an empty list.
pub check_shutdown-Goes :
    (thread_num i : ℕ) {p : ThreadPool}
    → Reach (create thread_num) p
    → get_elem? p.threads i ≡ some checking
    → check_shutdown i p ≢ none
unfolding check_shutdown
check_shutdown-Goes thread_num i {p = p} r at =
    let v = Reach-Guarded thread_num r in
    check_on-Goes i p p.shutdown p.task_list
      (v.passed (let one = le_sum is_checking p.threads i at in omega arith))
