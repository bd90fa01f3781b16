-- ===== src/ThreadPoolC/Tests.antt =====
-- Runs of the thread pool of ThreadPoolC/ThreadPool.cpp with one thread: `stopAll` while the thread
-- is between the test of the inner `while` and `pthread_cond_wait`, and while it waits.
use c_project.Prelude.{◌≤◌, ◌<◌, ◌≡◌, refl, true, false, none, some, [], ◌∷◌}
use c_project.Prelude.Sums.{sum}
use c_project.ThreadPoolC.Threads.{
  ThreadPool, create, lock, test_wait, cond_wait, check_shutdown, add_task, stop_all, broadcast,
  get_task_size, falling, waiting, exited, joining, checking, shutdown_set, is_alive,
}
use c_project.ThreadPoolC.Steps.{
  locks, tests, waits, checks, stops, broadcasts, Reach, here, next, adds,
}
use c_project.ThreadPoolC.Invariant.{Guarded, Reach-Guarded}
use c_project.ThreadPoolC.Stopping.{Run, start, more, Asleep, Run-Asleep}
use c_project.ThreadPoolC.Ending.{steps_left, End, Run-End}

-- The thread has seen no task and no shutdown, and does not wait yet, when `stopAll` is called.
abbrev caught : ThreadPool
caught = record (create 1) {
  threads = falling ∷ [];
  locked = true;
  shutdown = true;
  stopper = shutdown_set;
}

caught-reached : Reach (create 1) caught
unfolding create lock test_wait stop_all
caught-reached = next (next (next here (locks 0 refl refl)) (tests 0 refl)) (stops refl)

abbrev asleep : ThreadPool
asleep = record caught { threads = waiting ∷ []; locked = false; stopper = joining }

asleep-reached : Reach (create 1) asleep
unfolding create broadcast cond_wait
asleep-reached = next (next caught-reached (broadcasts refl)) (waits 0 refl)

asleep-Asleep : Asleep 0 asleep
unfolding create
asleep-Asleep = record { broadcast_done = refl; waits_still = refl; no_signal = refl }

Run-Asleep_example : Asleep 0 asleep × (0 < sum is_alive asleep.threads)
Run-Asleep_example = Run-Asleep 1 0 0 asleep-reached asleep-Asleep start

-- A thread that waits when `stopAll` is called ends.
abbrev waits_first : ThreadPool
waits_first = record caught { threads = waiting ∷ []; locked = false }

waits_first-reached : Reach (create 1) waits_first
unfolding create lock test_wait cond_wait stop_all
waits_first-reached =
    next (next (next (next here (locks 0 refl refl)) (tests 0 refl)) (waits 0 refl)) (stops refl)

abbrev ends : ThreadPool
ends = record waits_first { threads = exited ∷ []; stopper = joining }

waits_first-ends : Run waits_first 4 ends
unfolding create broadcast lock test_wait check_shutdown
waits_first-ends =
    more (more (more (more start (broadcasts refl)) (locks 0 refl refl)) (tests 0 refl))
      (checks 0 refl refl)

Run-End_example : (4 ≤ steps_left waits_first) × (ends.started ≡ waits_first.started) × End ends
Run-End_example = Run-End 1 4 waits_first-reached refl waits_first-ends

-- A task comes while the thread is on its way.
abbrev task_there : ThreadPool
task_there = record (create 1) {
  threads = checking ∷ [];
  locked = true;
  task_list = 5 ∷ [];
  added = 5 ∷ [];
  signals = 1;
}

task_there-reached : Reach (create 1) task_there
unfolding create add_task lock test_wait
task_there-reached = next (next (adds 5 here refl) (locks 0 refl refl)) (tests 0 refl)

Reach-Guarded_example : Guarded task_there
Reach-Guarded_example = Reach-Guarded 1 task_there-reached

-- The number of tasks waits for the mutex; a second `stopAll` returns at once, and a task that is
-- added behind it is taken into the list.
size_locked : get_task_size task_there ≡ none
unfolding get_task_size
size_locked = refl

size_free : get_task_size (record task_there { locked = false }) ≡ some 1
unfolding get_task_size
size_free = refl

stop_twice : stop_all caught ≡ none
unfolding stop_all
stop_twice = refl

add_late : add_task 6 ends ≡ some (record ends { task_list = 6 ∷ []; added = 6 ∷ []; signals = 1 })
unfolding add_task create
add_late = refl
