-- ===== src/ThreadSem/Tests.antt =====
-- A run of Thread/threadSem.c: two numbers are written, and one is read.
use c_project.Prelude.{ℕ, refl, List, [], ◌∷◌}
use c_project.ThreadSem.{
  Shared, posts, start, wait_blank, produce, post_full, wait_full, consume, Reach, starts,
  waits_blank, produces, posts_full, waits_full, consumes,
}
use c_project.ThreadSem.Ring.{IsRing, Reach-IsRing}

abbrev one_read : Shared
one_read = record start {
  blank = 8;
  full = 0;
  my_queue = 0 ∷ 8 ∷ 0 ∷ 0 ∷ 0 ∷ 0 ∷ 0 ∷ 0 ∷ 0 ∷ 0 ∷ [];
  producer = posts;
  p = 1;
  consumer = posts;
  produced = 7 ∷ 8 ∷ [];
  consumed = 7 ∷ [];
}

one_read-Reach : Reach one_read
unfolding start wait_blank produce post_full wait_full consume
one_read-Reach =
    consumes
      (waits_full
        (produces 8
          (waits_blank (posts_full (produces 7 (waits_blank starts refl refl) refl) refl) refl refl)
          refl)
        refl refl)
      refl refl

Reach-IsRing_example : (pending : List ℕ) × IsRing one_read pending
Reach-IsRing_example = Reach-IsRing one_read-Reach
