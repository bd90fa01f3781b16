-- ===== src/ThreadPoolCpp/Invariant.antt =====
-- What holds after every step of the thread pool of ThreadPoolCpp/ThreadPool.h: the order of the
-- tasks, what the workers do with them, and that no wakeup is lost.
use mathlib.Core.List.{append_assoc}
use mathlib.Core.Path.{subst}
use c_project.Prelude.{
  ℕ, ◌+◌, ◌-◌, ◌≤◌, ◌<◌, ◌≡◌, refl, sym, ap, ◌∙◌, ◌⊎◌, inl, inr, Bool, true, false, some, List, [],
  ◌∷◌, ◌++◌, get_elem?, set, length, length-append, arith,
}
use c_project.Prelude.Sums.{
  sum, is, count, sum-append, sum-set, sum-map_eq, sum-map_zero, sum-replicate_zero,
}
use c_project.ThreadPoolCpp.Workers.{
  Worker, ready, waiting, running, ended, Destructor, not_called, stop_set, joining, ThreadPool,
  create, place, finish, enqueue, notify_one, notify_no_one, set_stop, notify_all, wake, is_ready,
  is_waiting, is_ended,
}
use c_project.ThreadPoolCpp.Steps.{
  Step, section, finishes, enqueues, notifies, notifies_no_one, stops, notifies_all, Reach, here,
  next, woken, Section, sleeps, ends, takes, Section-of, enqueue-cases,
}

abbrev pub is_running : ℕ → Worker → ℕ
is_running task ready = 0
is_running task waiting = 0
is_running task (running t) = is task t
is_running task ended = 0

abbrev pub stop_at : Destructor → Bool
stop_at not_called = false
stop_at stop_set = true
stop_at joining = true

-- How many workers wait though the destructor has woken them all.
abbrev pub waiting_late : Destructor → List Worker → ℕ
waiting_late not_called workers = 0
waiting_late stop_set workers = 0
waiting_late joining workers = sum is_waiting workers

pub record Orderly (p : ThreadPool) : Type 0 where
  -- The tasks are taken in the order in which they came.
  pub order : p.accepted ≡ p.started ++ p.tasks
  -- What was started is under way or done, as often as it was started.
  pub counted :
      (task : ℕ) → count task p.started ≡ count task p.finished + sum (is_running task) p.workers
  -- No wakeup is lost: for every task that waits there is a notice or a worker on its way to the
  -- lock, unless no worker waits.
  pub awake : (length p.tasks ≤ p.notices + sum is_ready p.workers) ⊎ (sum is_waiting p.workers ≡ 0)
  -- A worker ends only when the pool is stopped and no task is left.
  pub closed : 0 < sum is_ended p.workers → (p.stop ≡ true) × (p.tasks ≡ [])
  pub stopped : p.stop ≡ stop_at p.destructor
  pub late : waiting_late p.destructor p.workers ≡ 0

late-set :
    (d : Destructor) (workers : List Worker) (i : ℕ) {w : Worker} (v : Worker)
    → get_elem? workers i ≡ some w
    → is_waiting v ≡ 0
    → waiting_late d workers ≡ 0
    → waiting_late d (set workers i v) ≡ 0
late-set not_called workers i v at e h = refl
late-set stop_set workers i v at e h = refl
late-set joining workers i v at e h = let moved = sum-set is_waiting workers i v at in omega arith

late_open :
    (d : Destructor) (workers : List Worker) → stop_at d ≡ false → waiting_late d workers ≡ 0
late_open not_called workers e = refl
late_open stop_set workers e = absurd (ground arith)
late_open joining workers e = absurd (ground arith)

Section-Orderly :
    (i : ℕ) (p : ThreadPool) {q : ThreadPool}
    → get_elem? p.workers i ≡ some ready
    → Section i p q
    → Orderly p
    → Orderly q
Section-Orderly i p at (sleeps open_now no_task) v =
    let w = sum-set is_waiting p.workers i waiting at in
    let r = sum-set is_ready p.workers i waiting at in
    let e = sum-set is_ended p.workers i waiting at in
    record {
      order = v.order;
      counted = λ t.
          let m = sum-set (is_running t) p.workers i waiting at in
          let c = v.counted t in omega arith;
      awake = inl (rw no_task (omega arith));
      closed = λ h. v.closed (omega arith);
      stopped = v.stopped;
      late = late_open p.destructor _ (sym v.stopped ∙ open_now);
    }
Section-Orderly i p at (ends stop_now no_task) v =
    let w = sum-set is_waiting p.workers i ended at in
    let r = sum-set is_ready p.workers i ended at in
    record {
      order = v.order;
      counted = λ t.
          let m = sum-set (is_running t) p.workers i ended at in let c = v.counted t in omega arith;
      awake = inl (rw no_task (omega arith));
      closed = λ h. (stop_now, no_task);
      stopped = v.stopped;
      late = late-set p.destructor p.workers i ended at refl v.late;
    }
Section-Orderly i p at (takes task rest e) v =
    let w = sum-set is_waiting p.workers i (running task) at in
    let r = sum-set is_ready p.workers i (running task) at in
    let d = sum-set is_ended p.workers i (running task) at in
    record {
      order = v.order ∙ ap (λ l. p.started ++ l) e ∙ sym (append_assoc p.started (task ∷ []) rest);
      counted = λ t.
          let m = sum-set (is_running t) p.workers i (running task) at in
          let c = v.counted t in let a = sum-append (is t) p.started (task ∷ []) in omega arith;
      awake = elim v.awake [
        | inl some_awake ↦ let l = ap length e in inl (omega arith)
        | inr none_waits ↦ inr (omega arith)
      ];
      closed = λ h.
          let l = v.closed (omega arith) in
          absurd
            (let n : 0 ≡ length (task ∷ rest) = sym (ap length l.1) ∙ ap length e in omega arith);
      stopped = v.stopped;
      late = late-set p.destructor p.workers i (running task) at refl v.late;
    }

-- A waiting worker goes back to the lock, with or without a notice.
pub woken-Orderly :
    (i n : ℕ) (p : ThreadPool)
    → get_elem? p.workers i ≡ some waiting
    → p.notices ≤ n + 1
    → Orderly p
    → Orderly (record (place ready i p) { notices = n })
woken-Orderly i n p at enough v =
    let w = sum-set is_waiting p.workers i ready at in
    let r = sum-set is_ready p.workers i ready at in
    let d = sum-set is_ended p.workers i ready at in
    record {
      order = v.order;
      counted = λ t.
          let m = sum-set (is_running t) p.workers i ready at in let c = v.counted t in omega arith;
      awake = elim v.awake [
        | inl some_awake ↦ inl (omega arith)
        | inr none_waits ↦ inr (omega arith)
      ];
      closed = λ h. v.closed (omega arith);
      stopped = v.stopped;
      late = late-set p.destructor p.workers i ready at refl v.late;
    }

enqueue-Orderly :
    (task : ℕ) (p : ThreadPool) {q : ThreadPool} → enqueue task p ≡ some q → Orderly p → Orderly q
enqueue-Orderly task p e v =
    let (open_now, gives) = enqueue-cases task p e in
    let l = length-append p.tasks (task ∷ []) in
    subst Orderly (sym gives) (record {
      order = ap (λ l. l ++ task ∷ []) v.order ∙ append_assoc p.started p.tasks (task ∷ []);
      counted = v.counted;
      awake = elim v.awake [ inl some_awake ↦ inl (omega arith) | inr none_waits ↦ inr none_waits ];
      closed = λ h. absurd (let s = v.closed h in ground arith);
      stopped = v.stopped;
      late = v.late;
    })

wake-is_running : (t : ℕ) (w : Worker) → is_running t (wake w) ≡ is_running t w
wake-is_running t ready = refl
wake-is_running t waiting = refl
wake-is_running t (running task) = refl
wake-is_running t ended = refl

wake-is_ended : (w : Worker) → is_ended (wake w) ≡ is_ended w
wake-is_ended ready = refl
wake-is_ended waiting = refl
wake-is_ended (running task) = refl
wake-is_ended ended = refl

wake-is_waiting : (w : Worker) → is_waiting (wake w) ≡ 0
wake-is_waiting ready = refl
wake-is_waiting waiting = refl
wake-is_waiting (running task) = refl
wake-is_waiting ended = refl

notify_all-Orderly : (p : ThreadPool) → p.destructor ≡ stop_set → Orderly p → Orderly (notify_all p)
unfolding notify_all
notify_all-Orderly p e v =
    let none_waits = sum-map_zero is_waiting wake p.workers wake-is_waiting in
    record {
      order = v.order;
      counted = λ t.
          v.counted t
          ∙ ap (λ n. count t p.finished + n)
              (sym (sum-map_eq (is_running t) (is_running t) wake p.workers (wake-is_running t)));
      awake = inr none_waits;
      closed = λ h.
          let same = sum-map_eq is_ended is_ended wake p.workers wake-is_ended in
          v.closed (omega arith);
      stopped = v.stopped ∙ ap stop_at e;
      late = none_waits;
    }

pub Step-Orderly : {p q : ThreadPool} → Step p q → Orderly p → Orderly q
unfolding finish notify_one notify_no_one set_stop
Step-Orderly (section {p = p} i at e) v = Section-Orderly i p at (Section-of i p e) v
Step-Orderly (finishes {p = p} i task at) v =
    let w = sum-set is_waiting p.workers i ready at in
    let r = sum-set is_ready p.workers i ready at in
    let d = sum-set is_ended p.workers i ready at in
    record {
      order = v.order;
      counted = λ t.
          let m = sum-set (is_running t) p.workers i ready at in let c = v.counted t in omega arith;
      awake = elim v.awake [
        | inl some_awake ↦ inl (omega arith)
        | inr none_waits ↦ inr (omega arith)
      ];
      closed = λ h. v.closed (omega arith);
      stopped = v.stopped;
      late = late-set p.destructor p.workers i ready at refl v.late;
    }
Step-Orderly (enqueues {p = p} task e) v = enqueue-Orderly task p e v
Step-Orderly (notifies {p = p} i due at) v = woken-Orderly i (p.notices - 1) p at (omega arith) v
Step-Orderly (notifies_no_one due none_waits) v = record {
  order = v.order;
  counted = v.counted;
  awake = inr none_waits;
  closed = v.closed;
  stopped = v.stopped;
  late = v.late;
}
Step-Orderly (stops e) v = record {
  order = v.order;
  counted = v.counted;
  awake = v.awake;
  closed = λ h. (refl, (v.closed h).1);
  stopped = refl;
  late = refl;
}
Step-Orderly (notifies_all {p = p} e) v = notify_all-Orderly p e v

create-Orderly : (threads : ℕ) → Orderly (create threads)
unfolding create
create-Orderly threads = record {
  order = refl;
  counted =
      λ t. let none_runs = sum-replicate_zero (is_running t) threads ready refl in omega arith;
  awake = inl (omega arith);
  closed =
      λ h. absurd (let none_ended = sum-replicate_zero is_ended threads ready refl in omega arith);
  stopped = refl;
  late = refl;
}

-- In every state that a new pool reaches, in any order of its steps: the tasks accepted are those
-- started, and behind them those that wait, in their order; each was started as often as it is
-- under way or done; there is a notice or a worker on its way to the lock for every task that
-- waits, unless no worker waits; a worker has ended only if the pool is stopped and no task is
-- left; and none waits behind the destructor's `notify_all`.
pub Reach-Orderly : (threads : ℕ) {p : ThreadPool} → Reach (create threads) p → Orderly p
Reach-Orderly threads here = create-Orderly threads
Reach-Orderly threads (next r s) = Step-Orderly s (Reach-Orderly threads r)
Reach-Orderly threads (woken {q = q} i r at) =
    woken-Orderly i q.notices q at (omega arith) (Reach-Orderly threads r)
