-- ===== src/LeakDetector/Reported.antt =====
-- The static objects of LeakDetector/LeakDetector.h report once.
use c_project.Prelude.{
  ℕ, zero, suc, ◌+◌, ◌-◌, ◌%◌, ◌^◌, ◌<◌, ◌≡◌, refl, ap, ◌∙◌, false, some, List, [], ◌∷◌, ◌==◌,
  arith,
}
use c_project.Heap.{Ptr}
use c_project.LeakDetector.{
  Detector, Counter, enter, report, leave, no_object, enter_all, leave_all, leak_detector,
}

abbrev pub objects : ℕ → List ℕ → Counter
objects n reports = record { call_cnt = n; reports = reports }

-- Each file that includes the header has an object.
enter_all_lem : (n : ℕ) → n < 2 ^ 32 → enter_all n no_object ≡ objects n []
unfolding enter_all enter
enter_all_lem zero h = refl
enter_all_lem (suc n) h =
    let fits : (n + 1) % 2 ^ 32 ≡ suc n = omega arith in
    ap enter (enter_all_lem n (omega arith)) ∙ ap (λ k. objects k []) fits

leave_more :
    (root : Ptr) (fuel : ℕ) (d : Detector) (n : ℕ)
    → suc (suc n) < 2 ^ 32
    → leave root fuel d (objects (suc (suc n)) []) ≡ some (objects (suc n) [])
unfolding leave
leave_more root fuel d n h =
    let one_less : (suc (suc n) + 2 ^ 32 - 1) % 2 ^ 32 ≡ suc n = omega arith in
    let more : (suc n == 0) ≡ false = ground arith in rw (one_less, more) refl

leave_last :
    (root : Ptr) (fuel cnt : ℕ) (d : Detector)
    → leak_detector root fuel d ≡ some cnt
    → leave root fuel d (objects 1 []) ≡ some (objects 0 (cnt ∷ []))
unfolding leave report
leave_last root fuel cnt d e = rw e refl

leave_all_lem :
    (root : Ptr) (fuel cnt : ℕ) (d : Detector) (n : ℕ)
    → suc n < 2 ^ 32
    → leak_detector root fuel d ≡ some cnt
    → leave_all root fuel d (suc n) (objects (suc n) []) ≡ some (objects 0 (cnt ∷ []))
unfolding leave_all
leave_all_lem root fuel cnt d zero h e = rw (leave_last root fuel cnt d e) refl
leave_all_lem root fuel cnt d (suc n) h e =
    rw (leave_more root fuel d n h) (leave_all_lem root fuel cnt d n (omega arith) e)

-- However many objects there are, fewer than 2^32 and one at least: when all of them have been made
-- and destroyed, one report has been made, with the number of the leaks.
pub leave_all-enter_all :
    (root : Ptr) (fuel cnt n : ℕ) (d : Detector)
    → suc n < 2 ^ 32
    → leak_detector root fuel d ≡ some cnt
    → leave_all root fuel d (suc n) (enter_all (suc n) no_object) ≡ some (objects 0 (cnt ∷ []))
leave_all-enter_all root fuel cnt n d h e =
    ap (leave_all root fuel d (suc n)) (enter_all_lem (suc n) h)
    ∙ leave_all_lem root fuel cnt d n h e
