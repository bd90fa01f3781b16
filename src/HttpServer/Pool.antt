-- ===== src/HttpServer/Pool.antt =====
-- `threadpool<T>` of HttpServer/threadpool.h, with the semaphore and the lock of locker.h: a queue of
-- requests, the threads that empty it, and those that fill it. What happens between `lock` and
-- `unlock` is one step, since no other thread is in such a part then; `post`, `wait` and `process`
-- stand outside, and are steps of their own. A request is a number, 0 the null pointer.
pub mod Invariant
use c_project.Prelude.{
  ℕ, ◌+◌, ◌-◌, ◌<◌, ◌≡◌, Bool, true, false, List, [], ◌∷◌, ◌++◌, ltb, ◌==◌, if◌then◌else◌, length,
}

-- `waiting`, `woken`, `busy` and `ended` count the threads at `m_queuestat.wait ()`, between it and
-- `lock`, in `process`, and behind the loop; `posting` counts the calls of `append` between `unlock`
-- and `post`. `accepted` and `taken` are the requests pushed and popped so far, in order.
pub record Pool : Type 0 where
  pub max_requests : ℕ
  pub queue : List ℕ
  pub semaphore : ℕ
  pub stop : Bool
  pub destroyed : Bool
  pub posting : ℕ
  pub waiting : ℕ
  pub woken : ℕ
  pub busy : ℕ
  pub ended : ℕ
  pub accepted : List ℕ
  pub taken : List ℕ

-- The constructor starts every thread; it throws for a number that is not positive.
unfoldable pub create : ℕ → ℕ → Pool
create thread_number max_requests = record {
  max_requests = max_requests;
  queue = [];
  semaphore = 0;
  stop = false;
  destroyed = false;
  posting = 0;
  waiting = thread_number;
  woken = 0;
  busy = 0;
  ended = 0;
  accepted = [];
  taken = [];
}

-- `append` up to its `unlock`.
unfoldable pub append : ℕ → Pool → Bool × Pool
append request p = if ltb p.max_requests (length p.queue) then (false, p) else (
  true,
  record p {
    queue = p.queue ++ request ∷ [];
    posting = p.posting + 1;
    accepted = p.accepted ++ request ∷ [];
  },
)

unfoldable pub post : Pool → Pool
post p = record p { posting = p.posting - 1; semaphore = p.semaphore + 1 }

unfoldable pub wait : Pool → Pool
wait p = record p { semaphore = p.semaphore - 1; waiting = p.waiting - 1; woken = p.woken + 1 }

-- The test of the loop, by a thread that has left the three counted places.
unfoldable pub next_round : Pool → Pool
next_round p =
    if p.stop then record p { ended = p.ended + 1 } else record p { waiting = p.waiting + 1 }

-- `run` from `lock` to `unlock`, and on to `process` or to the next round.
unfoldable pub pop_from : List ℕ → Pool → Pool
pop_from [] p = next_round (record p { woken = p.woken - 1 })
pop_from (request ∷ rest) p =
    let p = record p { woken = p.woken - 1; queue = rest; taken = p.taken ++ request ∷ [] } in
    if request == 0 then next_round p else record p { busy = p.busy + 1 }

unfoldable pub pop : Pool → Pool
pop p = pop_from p.queue p

-- The end of `process`.
unfoldable pub finish : Pool → Pool
finish p = next_round (record p { busy = p.busy - 1 })

-- The destructor's `m_stop = true`, and what its closing brace does: the semaphore, the lock and the
-- list are destroyed, though the threads, which are detached and not waited for, may still use them.
unfoldable pub shut : Pool → Pool
shut p = record p { stop = true }

unfoldable pub destroy : Pool → Pool
destroy p = record p { destroyed = true }

pub data Step (p : Pool) : Pool → Type 0 where
  appends : (request : ℕ) → Step p (append request p).1
  posts : 0 < p.posting → Step p (post p)
  waits : 0 < p.waiting → 0 < p.semaphore → Step p (wait p)
  pops : 0 < p.woken → Step p (pop p)
  finishes : 0 < p.busy → Step p (finish p)
  shuts : Step p (shut p)
  destroys : p.stop ≡ true → Step p (destroy p)

-- A step on a pool that is destroyed is undefined: a run ends there.
pub data Reach (p : Pool) : Pool → Type 0 where
  here : Reach p p
  next : {q r : Pool} → Reach p q → q.destroyed ≡ false → Step q r → Reach p r
