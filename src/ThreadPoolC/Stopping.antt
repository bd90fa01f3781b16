-- ===== src/ThreadPoolC/Stopping.antt =====
-- What `stopAll` of ThreadPoolC/ThreadPool.cpp comes to: the threads end, or one of them sleeps
-- behind the broadcast.
use mathlib.Core.Path.{subst}
use c_project.Prelude.{
  ℕ, suc, ◌<◌, ◌≡◌, ◌≢◌, refl, sym, ap, ◌∙◌, inl, inr, Bool, true, false, ◌==◌, Bool-cases, some,
  List, get_elem?, get_elem?-set_ne, set, arith, some-injective,
}
use c_project.Prelude.Sums.{sum, le_sum}
use c_project.ThreadPoolC.Threads.{
  Thread, outside, testing, falling, waiting, checking, running, exited, joining, ThreadPool,
  create, place, cond_wait, run_task, is_waiting, is_alive,
}
use c_project.ThreadPoolC.Steps.{
  Step, locks, tests, waits, checks, runs, signals_one, signals_none, stops, broadcasts, Reach,
  next, lock-cases, stop_all-cases, Tested, falls, passes, test_wait-Tested, Checked, leaves, takes,
  check_shutdown-Checked,
}
use c_project.ThreadPoolC.Invariant.{Guarded, shutdown_at, Reach-Guarded}

-- So many steps of the threads and of `stopAll`, in which no task is added.
pub data Run (p : ThreadPool) : ℕ → ThreadPool → Type 0 where
  start : Run p 0 p
  more : {n : ℕ} {q r : ThreadPool} → Run p n q → Step q r → Run p (suc n) r

pub Run-Reach : {o p : ThreadPool} {n : ℕ} {q : ThreadPool} → Reach o p → Run p n q → Reach o q
Run-Reach r start = r
Run-Reach r (more run s) = next (Run-Reach r run) s

-- Thread `i` waits, and no wakeup is to come.
pub record Asleep (i : ℕ) (p : ThreadPool) : Type 0 where
  pub broadcast_done : p.stopper ≡ joining
  pub waits_still : get_elem? p.threads i ≡ some waiting
  pub no_signal : p.signals ≡ 0

-- Another thread's step leaves a waiting one where it is.
waits-set :
    (threads : List Thread) (i j : ℕ) {t : Thread} (u : Thread)
    → get_elem? threads j ≡ some t
    → is_waiting t ≡ 0
    → get_elem? threads i ≡ some waiting
    → get_elem? (set threads j u) i ≡ some waiting
waits-set threads i j u at none_waits w = elim (Bool-cases (j == i)) [
  | inl same ↦
      let e : j ≡ i = ground arith in
      absurd (
        let c = ap is_waiting (some-injective (sym at ∙ ap (get_elem? threads) e ∙ w)) in
        omega arith)
  | inr other ↦ let e : j ≢ i = ground arith in get_elem?-set_ne threads u e ∙ w
]

module _ (i j : ℕ) (p : ThreadPool) {t : Thread} (u : Thread)
    (at : get_elem? p.threads j ≡ some t) where
  moved-Asleep :
      (locked : Bool) (task_list started : List ℕ)
      → is_waiting t ≡ 0
      → Asleep i p
      → Asleep i
          (record (place u j p) { locked = locked; task_list = task_list; started = started })
  moved-Asleep locked task_list started none_waits a = record {
    broadcast_done = a.broadcast_done;
    waits_still = waits-set p.threads i j u at none_waits a.waits_still;
    no_signal = a.no_signal;
  }

Tested-Asleep :
    (i j : ℕ) (p : ThreadPool) {q : ThreadPool}
    → get_elem? p.threads j ≡ some testing
    → Tested j p q
    → Asleep i p
    → Asleep i q
Tested-Asleep i j p at (falls s e) a =
    moved-Asleep i j p falling at p.locked p.task_list p.started refl a
Tested-Asleep i j p at (passes why) a =
    moved-Asleep i j p checking at p.locked p.task_list p.started refl a

Checked-Asleep :
    (i j : ℕ) (p : ThreadPool) {q : ThreadPool}
    → get_elem? p.threads j ≡ some checking
    → Checked j p q
    → Asleep i p
    → Asleep i q
Checked-Asleep i j p at (leaves s) a =
    moved-Asleep i j p exited at false p.task_list p.started refl a
Checked-Asleep i j p at (takes task rest s e) a =
    moved-Asleep i j p (running task) at false rest _ refl a

Step-Asleep : (i : ℕ) {p q : ThreadPool} → Guarded p → Step p q → Asleep i p → Asleep i q
unfolding cond_wait run_task
Step-Asleep i v (locks {p = p} j at e) a =
    subst (Asleep i) (sym (lock-cases j p e).1)
      (moved-Asleep i j p testing at true p.task_list p.started refl a)
Step-Asleep i v (tests {p = p} j at) a = Tested-Asleep i j p at (test_wait-Tested j p) a
Step-Asleep i v (waits {p = p} j at) a =
    moved-Asleep i j p waiting at false p.task_list p.started refl a
Step-Asleep i v (checks {p = p} j at e) a = Checked-Asleep i j p at (check_shutdown-Checked j p e) a
Step-Asleep i v (runs {p = p} j task at) a =
    moved-Asleep i j p outside at p.locked p.task_list p.started refl a
Step-Asleep i v (signals_one j due at) a = absurd (let s = a.no_signal in omega arith)
Step-Asleep i v (signals_none due none_waits) a = absurd (let s = a.no_signal in omega arith)
Step-Asleep i v (stops {p = p} e) a = absurd (
    let s = sym (stop_all-cases p e).0 ∙ v.stopped ∙ ap shutdown_at a.broadcast_done in
    ground arith)
Step-Asleep i v (broadcasts e) a = absurd (let s = sym e ∙ a.broadcast_done in ground arith)

Run-Asleep_on :
    (thread_num i : ℕ) {p : ThreadPool} {n : ℕ} {q : ThreadPool}
    → Reach (create thread_num) p
    → Asleep i p
    → Run p n q
    → Asleep i q
Run-Asleep_on thread_num i r a start = a
Run-Asleep_on thread_num i r a (more run s) =
    Step-Asleep i (Reach-Guarded thread_num (Run-Reach r run)) s
      (Run-Asleep_on thread_num i r a run)

-- In every state that a new pool reaches, by its threads, by `stopAll`, by others that add tasks
-- and by waits that return without a signal, in which `stopAll` has broadcast, a thread waits and
-- no signal is due: whatever its threads do, while no task is added and no wait returns without a
-- signal, that thread waits on, so that `stopAll` does not come to the end of its joins.
pub Run-Asleep :
    (thread_num i n : ℕ) {p q : ThreadPool}
    → Reach (create thread_num) p
    → Asleep i p
    → Run p n q
    → Asleep i q × (0 < sum is_alive q.threads)
Run-Asleep thread_num i n {q = q} r a run =
    let b = Run-Asleep_on thread_num i r a run in
    let w = b.waits_still in (b, le_sum is_alive q.threads i w)
