-- ===== src/ThreadPoolC/Ending.antt =====
-- The end of `stopAll` of ThreadPoolC/ThreadPool.cpp: from when `shutdown` is set, the steps come to
-- an end, no task is started any more, and either every thread has ended or one sleeps.
use mathlib.Core.Path.{subst}
use c_project.Prelude.{
  ℕ, ◌+◌, ◌≤◌, ◌<◌, ◌≡◌, refl, sym, ap, ◌∙◌, ◌⊎◌, inl, inr, Bool, true, false, ◌==◌, Bool-cases,
  Option-cases, some, get_elem?, arith,
}
use c_project.Prelude.Sums.{sum, sum-set, sum_le_add, sum_pos, sum-map_le}
use c_project.ThreadPoolC.Threads.{
  Thread, outside, testing, falling, waiting, checking, running, exited, Stopper, not_called,
  shutdown_set, joining, ThreadPool, create, place, lock, cond_wait, check_shutdown, run_task,
  signal, signal_no_one, broadcast, wake, holds, is_waiting, is_alive,
}
use c_project.ThreadPoolC.Steps.{
  Step, locks, tests, waits, checks, runs, signals_one, signals_none, stops, broadcasts, Reach,
  lock-cases, stop_all-cases, Tested, falls, passes, test_wait-Tested, Checked, leaves, takes,
  check_shutdown-Checked,
}
use c_project.ThreadPoolC.Invariant.{shutdown_at, held, Reach-Guarded, check_shutdown-Goes}
use c_project.ThreadPoolC.Stopping.{Run, start, more, Run-Reach, Asleep}

-- How many steps a thread can still take, at most.
abbrev pub thread_steps : Thread → ℕ
thread_steps outside = 3
thread_steps testing = 2
thread_steps falling = 5
thread_steps waiting = 4
thread_steps checking = 1
thread_steps (running task) = 4
thread_steps exited = 0

abbrev pub stopper_steps : Stopper → ℕ
stopper_steps not_called = 2
stopper_steps shutdown_set = 1
stopper_steps joining = 0

abbrev pub steps_left : ThreadPool → ℕ
steps_left p = sum thread_steps p.threads + p.signals + stopper_steps p.stopper

-- The pool is shut down, has started what it had, and is nearer to its end.
abbrev Nearer : ThreadPool → ThreadPool → Type 0
Nearer p q = (q.shutdown ≡ true) × (q.started ≡ p.started) × (steps_left q < steps_left p)

lock-Nearer :
    (i : ℕ) (p : ThreadPool) {q : ThreadPool}
    → get_elem? p.threads i ≡ some outside
    → lock i p ≡ some q
    → p.shutdown ≡ true
    → Nearer p q
lock-Nearer i p at e s =
    let w = sum-set thread_steps p.threads i testing at in
    subst (Nearer p) (sym (lock-cases i p e).1) (s, refl, omega arith)

Tested-Nearer :
    (i : ℕ) (p : ThreadPool) {q : ThreadPool}
    → get_elem? p.threads i ≡ some testing
    → Tested i p q
    → p.shutdown ≡ true
    → Nearer p q
Tested-Nearer i p at (falls open_now e) s = absurd (let c = sym s ∙ open_now in ground arith)
Tested-Nearer i p at (passes why) s =
    let w = sum-set thread_steps p.threads i checking at in (s, refl, omega arith)

Checked-Nearer :
    (i : ℕ) (p : ThreadPool) {q : ThreadPool}
    → get_elem? p.threads i ≡ some checking
    → Checked i p q
    → p.shutdown ≡ true
    → Nearer p q
Checked-Nearer i p at (leaves t) s =
    let w = sum-set thread_steps p.threads i exited at in (s, refl, omega arith)
Checked-Nearer i p at (takes task rest open_now e) s =
    absurd (let c = sym s ∙ open_now in ground arith)

wake-thread_steps : (t : Thread) → thread_steps (wake t) ≤ thread_steps t
wake-thread_steps outside = omega arith
wake-thread_steps testing = omega arith
wake-thread_steps falling = omega arith
wake-thread_steps waiting = omega arith
wake-thread_steps checking = omega arith
wake-thread_steps (running task) = omega arith
wake-thread_steps exited = omega arith

Step-Nearer : {p q : ThreadPool} → Step p q → p.shutdown ≡ true → Nearer p q
unfolding cond_wait run_task signal signal_no_one broadcast
Step-Nearer (locks {p = p} i at e) s = lock-Nearer i p at e s
Step-Nearer (tests {p = p} i at) s = Tested-Nearer i p at (test_wait-Tested i p) s
Step-Nearer (waits {p = p} i at) s =
    let w = sum-set thread_steps p.threads i waiting at in (s, refl, omega arith)
Step-Nearer (checks {p = p} i at e) s = Checked-Nearer i p at (check_shutdown-Checked i p e) s
Step-Nearer (runs {p = p} i task at) s =
    let w = sum-set thread_steps p.threads i outside at in (s, refl, omega arith)
Step-Nearer (signals_one {p = p} i due at) s =
    let w = sum-set thread_steps p.threads i outside at in (s, refl, omega arith)
Step-Nearer (signals_none due none_waits) s = (s, refl, omega arith)
Step-Nearer (stops {p = p} e) s = absurd (let c = sym s ∙ (stop_all-cases p e).0 in ground arith)
Step-Nearer (broadcasts {p = p} e) s =
    let w = sum-map_le thread_steps thread_steps wake p.threads wake-thread_steps in
    let d = ap stopper_steps e in (s, refl, omega arith)

Run-Nearer :
    {p : ThreadPool} {n : ℕ} {q : ThreadPool}
    → Run p n q
    → p.shutdown ≡ true
    → (q.shutdown ≡ true) × (q.started ≡ p.started) × (n + steps_left q ≤ steps_left p)
Run-Nearer start s = (s, refl, omega arith)
Run-Nearer (more run step) s =
    let (t, same, bound) = Run-Nearer run s in
    let (u, same_too, less) = Step-Nearer step t in (u, same_too ∙ same, omega arith)

-- Where `pthread_join` returns for every thread.
abbrev pub Joined : ThreadPool → Type 0
Joined p = (p.stopper ≡ joining) × (sum is_alive p.threads ≡ 0)

abbrev Onward : ThreadPool → Type 0
Onward p = (q : ThreadPool) × Step p q

-- The holder of the mutex has a step.
holder-Onward :
    (thread_num i : ℕ) (t : Thread) (p : ThreadPool)
    → Reach (create thread_num) p
    → get_elem? p.threads i ≡ some t
    → 0 < holds t
    → Onward p
holder-Onward thread_num i outside p r at h = absurd (omega arith)
holder-Onward thread_num i testing p r at h = (_, tests i at)
holder-Onward thread_num i falling p r at h = (_, waits i at)
holder-Onward thread_num i waiting p r at h = absurd (omega arith)
holder-Onward thread_num i checking p r at h = elim (Option-cases (check_shutdown i p)) [
  | inl fault ↦ absurd (check_shutdown-Goes thread_num i r at fault)
  | inr (q, gives) ↦ (q, checks i at gives)
]
holder-Onward thread_num i (running task) p r at h = absurd (omega arith)
holder-Onward thread_num i exited p r at h = absurd (omega arith)

-- Who can go on while no thread holds the mutex.
abbrev is_free : Thread → ℕ
is_free outside = 1
is_free testing = 0
is_free falling = 0
is_free waiting = 0
is_free checking = 0
is_free (running task) = 1
is_free exited = 0

lock_open : (i : ℕ) (p : ThreadPool) → p.locked ≡ false → (q : ThreadPool) × (lock i p ≡ some q)
unfolding lock
lock_open i p free = (record (place testing i p) { locked = true }, rw free refl)

free-Onward :
    (i : ℕ) (t : Thread) (p : ThreadPool)
    → p.locked ≡ false
    → get_elem? p.threads i ≡ some t
    → 0 < is_free t
    → Onward p
free-Onward i outside p free at h = let (q, gives) = lock_open i p free in (q, locks i at gives)
free-Onward i testing p free at h = absurd (omega arith)
free-Onward i falling p free at h = absurd (omega arith)
free-Onward i waiting p free at h = absurd (omega arith)
free-Onward i checking p free at h = absurd (omega arith)
free-Onward i (running task) p free at h = (_, runs i task at)
free-Onward i exited p free at h = absurd (omega arith)

waiting_of : (t : Thread) → 0 < is_waiting t → t ≡ waiting
waiting_of outside h = absurd (omega arith)
waiting_of testing h = absurd (omega arith)
waiting_of falling h = absurd (omega arith)
waiting_of waiting h = refl
waiting_of checking h = absurd (omega arith)
waiting_of (running task) h = absurd (omega arith)
waiting_of exited h = absurd (omega arith)

abbrev other : Thread → ℕ
other t = holds t + is_waiting t

free_of : (locked : Bool) → held locked ≡ 0 → locked ≡ false
free_of true e = absurd (omega arith)
free_of false e = refl

alive_split : (t : Thread) → is_alive t ≤ is_free t + other t
alive_split outside = omega arith
alive_split testing = omega arith
alive_split falling = omega arith
alive_split waiting = omega arith
alive_split checking = omega arith
alive_split (running task) = omega arith
alive_split exited = omega arith

-- Where the pool may be at the end of a run.
abbrev pub End : ThreadPool → Type 0
End p = Joined p ⊎ (((i : ℕ) × Asleep i p) ⊎ ((q : ThreadPool) × Step p q))

-- After the broadcast, with the number of the alive threads split by what they can do.
joining-End :
    (thread_num : ℕ) (p : ThreadPool) → Reach (create thread_num) p → p.stopper ≡ joining → End p
joining-End thread_num p r e = elim (Bool-cases (0 == sum holds p.threads)) [
  | inr one_holds ↦
      let (i, t, at, h) = sum_pos holds p.threads (ground arith) in
      inr (inr (holder-Onward thread_num i t p r at h))
  | inl none_holds ↦ elim (Bool-cases (0 == sum is_free p.threads)) [
    | inr one_free ↦
        let (i, t, at, h) = sum_pos is_free p.threads (ground arith) in
        inr (
          inr (
            free-Onward i t p
              (free_of p.locked
                (let v = Reach-Guarded thread_num r in let x = v.exclusive in ground arith))
              at h))
    | inl none_free ↦ elim (Bool-cases (0 == sum is_waiting p.threads)) [
      | inl none_waits ↦
          let split = sum_le_add is_alive is_free other p.threads alive_split in
          let rest = sum_le_add other holds is_waiting p.threads (λ t. omega arith) in
          inl (e, ground arith)
      | inr one_waits ↦
          let (i, t, at, h) = sum_pos is_waiting p.threads (ground arith) in
          let still : get_elem? p.threads i ≡ some waiting = at ∙ ap some (waiting_of t h) in
          elim (Bool-cases (0 == p.signals)) [
            | inl none_due ↦ inr (
                inl
                  (i, record { broadcast_done = e; waits_still = still; no_signal = ground arith }))
            | inr one_due ↦ inr (inr (_, signals_one i (ground arith) still))
          ]
    ]
  ]
]

End-at :
    (thread_num : ℕ) (s : Stopper) (p : ThreadPool)
    → Reach (create thread_num) p
    → p.stopper ≡ s
    → shutdown_at s ≡ true
    → End p
End-at thread_num not_called p r e s = absurd (ground arith)
End-at thread_num shutdown_set p r e s = inr (inr (_, broadcasts e))
End-at thread_num joining p r e s = joining-End thread_num p r e

-- In every state that a new pool reaches in which `shutdown` is set: no run of its threads and of
-- `stopAll` is longer than `steps_left`, no task is started in it, and where it stops, every thread
-- has ended, or another step is there, or a thread waits behind the broadcast with no signal due.
pub Run-End :
    (thread_num n : ℕ) {p q : ThreadPool}
    → Reach (create thread_num) p
    → p.shutdown ≡ true
    → Run p n q
    → (n ≤ steps_left p) × (q.started ≡ p.started) × End q
Run-End thread_num n {q = q} r s run =
    let (t, same, bound) = Run-Nearer run s in
    let v = Reach-Guarded thread_num (Run-Reach r run) in
    (omega arith, same, End-at thread_num q.stopper q (Run-Reach r run) refl (sym v.stopped ∙ t))
