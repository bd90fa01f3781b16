-- ===== src/ThreadSem.antt =====
-- The producer and the consumer of Thread/threadSem.c on a ring of ten places, with two semaphores.
-- Each call of a semaphore, and what is done between two of them, is a step.
-- `none` is a semaphore at zero, or an index outside the ring.
pub mod Ring
pub mod Tests
use c_project.Prelude.{
  ℕ, ◌+◌, ◌-◌, ◌%◌, ◌≡◌, Option, none, some, List, [], ◌∷◌, ◌++◌, ◌==◌, get_elem?, set, replicate,
  if◌then◌else◌,
}
use c_project.Prelude.Options.{◌>>=◌}

abbrev pub len : ℕ
len = 10

-- Before `sem_wait`, with a unit of the semaphore, and before `sem_post`.
pub data Stage : Type 0 where
  waits : Stage
  works : Stage
  posts : Stage

pub record Shared : Type 0 where
  pub blank : ℕ
  pub full : ℕ
  pub my_queue : List ℕ
  -- The producer, with its index, and the consumer with its own.
  pub producer : Stage
  pub p : ℕ
  pub consumer : Stage
  pub c : ℕ
  -- The history: what was written, and what was read.
  pub produced : List ℕ
  pub consumed : List ℕ

unfoldable pub start : Shared
start = record {
  blank = len;
  full = 0;
  my_queue = replicate len 0;
  producer = waits;
  p = 0;
  consumer = waits;
  c = 0;
  produced = [];
  consumed = [];
}

unfoldable pub wait_blank : Shared → Option Shared
wait_blank s =
    if s.blank == 0 then none else some (record s { blank = s.blank - 1; producer = works })

unfoldable pub produce : ℕ → Shared → Shared
produce num s = record s {
  my_queue = set s.my_queue s.p num;
  produced = s.produced ++ num ∷ [];
  producer = posts;
}

unfoldable pub post_full : Shared → Shared
post_full s = record s { full = s.full + 1; p = (s.p + 1) % len; producer = waits }

unfoldable pub wait_full : Shared → Option Shared
wait_full s = if s.full == 0 then none else some (record s { full = s.full - 1; consumer = works })

unfoldable pub consume : Shared → Option Shared
consume s = do
  num ← get_elem? s.my_queue s.c
  some (record s {
    my_queue = set s.my_queue s.c 0;
    consumed = s.consumed ++ num ∷ [];
    consumer = posts;
  })

unfoldable pub post_blank : Shared → Shared
post_blank s = record s { blank = s.blank + 1; c = (s.c + 1) % len; consumer = waits }

-- What is reached in any order of the steps of the two.
pub data Reach : Shared → Type 0 where
  starts : Reach start
  waits_blank : {s t : Shared} → Reach s → s.producer ≡ waits → wait_blank s ≡ some t → Reach t
  produces : {s : Shared} (num : ℕ) → Reach s → s.producer ≡ works → Reach (produce num s)
  posts_full : {s : Shared} → Reach s → s.producer ≡ posts → Reach (post_full s)
  waits_full : {s t : Shared} → Reach s → s.consumer ≡ waits → wait_full s ≡ some t → Reach t
  consumes : {s t : Shared} → Reach s → s.consumer ≡ works → consume s ≡ some t → Reach t
  posts_blank : {s : Shared} → Reach s → s.consumer ≡ posts → Reach (post_blank s)
