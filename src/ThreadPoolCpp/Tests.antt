-- ===== src/ThreadPoolCpp/Tests.antt =====
-- Runs of the thread pool of ThreadPoolCpp/ThreadPool.h: one worker, a task, and the destructor that
-- is called while the task runs.
use c_project.Prelude.Sums.{count}
use c_project.Prelude.{ℕ, ◌≤◌, ◌⊎◌, ◌≡◌, refl, none, [], ◌∷◌, arith, true}
use c_project.ThreadPoolCpp.Workers.{
  ThreadPool, create, worker_section, finish, enqueue, notify_no_one, set_stop, notify_all,
  stop_set, joining, running, ended, ready, notify_one,
}
use c_project.ThreadPoolCpp.Steps.{
  Step, section, finishes, enqueues, notifies, notifies_no_one, stops, notifies_all, Reach, here,
  next,
}
use c_project.ThreadPoolCpp.Invariant.{Reach-Orderly, Orderly}
use c_project.ThreadPoolCpp.Drain.{
  Run, start, more, Joined, Run-Joined, Joined-finished, steps_left,
}

-- The worker runs task 5 when the destructor sets `stop`.
abbrev busy : ThreadPool
busy = record {
  workers = running 5 ∷ [];
  tasks = [];
  stop = true;
  notices = 1;
  destructor = stop_set;
  accepted = 5 ∷ [];
  started = 5 ∷ [];
  finished = [];
}

busy-reached : Reach (create 1) busy
unfolding create enqueue worker_section set_stop
busy-reached = next (next (next here (enqueues 5 refl)) (section 0 refl refl)) (stops refl)

abbrev over : ThreadPool
over = record busy { workers = ended ∷ []; notices = 0; destructor = joining; finished = 5 ∷ [] }

to_the_end : Run busy 4 over
unfolding finish notify_no_one notify_all worker_section
to_the_end =
    more
      (more (more (more start (finishes 0 5 refl)) (notifies_no_one (omega arith) refl))
        (notifies_all refl))
      (section 0 refl refl)

over-reached : Reach (create 1) over
unfolding finish notify_no_one notify_all worker_section
over-reached =
    next
      (next (next (next busy-reached (finishes 0 5 refl)) (notifies_no_one (omega arith) refl))
        (notifies_all refl))
      (section 0 refl refl)

-- A stopped pool takes no task.
enqueue-busy : enqueue 7 busy ≡ none
unfolding enqueue
enqueue-busy = refl

sleeps_and_wakes :
    Reach (create 1) (record (create 1) { workers = ready ∷ []; tasks = 5 ∷ []; accepted = 5 ∷ [] })
unfolding create worker_section enqueue notify_one
sleeps_and_wakes =
    next (next (next here (section 0 refl refl)) (enqueues 5 refl)) (notifies 0 (omega arith) refl)

Run-Joined_example : (4 ≤ steps_left busy) × (Joined over ⊎ ((r : ThreadPool) × Step over r))
Run-Joined_example = Run-Joined 1 4 busy-reached refl to_the_end

Joined-finished_example :
    (over.tasks ≡ [])
    × (over.started ≡ over.accepted)
    × ((task : ℕ) → count task over.finished ≡ count task over.accepted)
Joined-finished_example = Joined-finished 1 over-reached (refl, refl) (omega arith)

Reach-Orderly_example : Orderly over
Reach-Orderly_example = Reach-Orderly 1 over-reached
