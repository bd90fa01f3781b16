-- ===== src/QueueService/System/Ending.antt =====
-- That `run` of queue_system.h comes to an end, and the runs of `simulate` in a row.
use c_project.QueueService.System.Order.{Ordered, departures}
use mathlib.Core.Path.{subst}
use c_project.Prelude.{
  ℕ, ◌+◌, ◌-◌, ◌*◌, ◌≤◌, ◌≡◌, refl, sym, ap, ◌∙◌, inl, Option, none, some, List, [], ◌∷◌, length,
  arith,
}
use c_project.Prelude.Sums.{sum}
use c_project.QueueService.System.{
  Event, event, arrival, QueueSystem, Draw, init, run_loop, run, simulate, end_run,
}
use c_project.QueueService.System.Invariant.{Ready, turn-Ready}
use c_project.QueueService.System.Weights.{
  event_weight, is_zero, work_left, type_weight_pos, turn-work_left,
}

run_loop-ends :
    (draws : List Draw) (o : Option Event) (now : ℕ) (s : QueueSystem)
    → s.current_event ≡ o
    → Ready now o s
    → work_left o s + 3 * sum is_zero draws ≤ length draws
    → (t : QueueSystem) × (run_loop draws o s ≡ some t)
      × (t.current_event ≡ none)
      × (t.total_service_time ≡ s.total_service_time)
unfolding run_loop
run_loop-ends draws none now s e v enough = (s, refl, e, refl)
run_loop-ends [] (some f) now s e v enough =
    absurd (let w = type_weight_pos s.total_service_time f.occur_time f.event_type in omega arith)
run_loop-ends (d ∷ draws) (some f) now s e v enough =
    let (t, turned, w) = turn-Ready d f now s v in
    let (same, less) = turn-work_left d f s turned in
    let (u, looped, over, same_too) =
      run_loop-ends draws t.current_event f.occur_time t refl w (omega arith) in
    (u, rw turned looped, over, same_too ∙ same)

-- Nobody waits, and nothing is planned.
abbrev pub IsClear : QueueSystem → Type 0
IsClear s = (s.customer_list ≡ []) × (s.event_list ≡ [])

init-Ready :
    (first : ℕ) (s : QueueSystem) → IsClear s → Ready 0 (some (event first arrival)) (init first s)
unfolding init departures
init-Ready first s (nobody, nothing) = (
  omega arith,
  record {
    matched = λ i. let none_planned = ap (departures i) nothing in omega arith;
    waits = inl nobody;
    ordered = subst (Ordered first) (sym nothing) tt;
  },
)

-- A run of a system in which nobody waits and nothing is planned ends, with no event left, where
-- there are draws enough: for each unit of time from the first arrival to the closing time three,
-- three more, and three for each draw of the interval zero, after which the next customer comes at
-- the same time.
pub run-ends :
    (first : ℕ) (draws : List Draw) (s : QueueSystem)
    → IsClear s
    → 3 * (s.total_service_time - first) + 3 + 3 * sum is_zero draws ≤ length draws
    → (t : QueueSystem) × (run first draws s ≡ some t)
      × (t.current_event ≡ none)
      × (t.total_service_time ≡ s.total_service_time)
unfolding run init
run-ends first draws s (nobody, nothing) enough =
    let events = ap (sum (event_weight s.total_service_time)) nothing in
    let customers = ap length nobody in
    run_loop-ends draws (some (event first arrival)) 0 (init first s) refl
      (init-Ready first s (nobody, nothing)) (omega arith)

-- Each run has draws enough.
abbrev pub HasDraws : (total : ℕ) → List (ℕ × List Draw) → Type 0
HasDraws total [] = Unit
HasDraws total ((first, draws) ∷ runs) =
    (3 * (total - first) + 3 + 3 * sum is_zero draws ≤ length draws) × HasDraws total runs

pub simulate-ends :
    (runs : List (ℕ × List Draw)) (s : QueueSystem)
    → IsClear s
    → HasDraws s.total_service_time runs
    → (t : QueueSystem) × (simulate runs s ≡ some t) × IsClear t
unfolding simulate end_run
simulate-ends [] s clear enough = (s, refl, clear)
simulate-ends ((first, draws) ∷ runs) s clear (enough, more) =
    let (t, goes, over, same) = run-ends first draws s clear enough in
    let (u, rest, clear_then) =
      simulate-ends runs (end_run t) (refl, refl) (subst (λ n. HasDraws n runs) (sym same) more) in
    (u, rw goes rest, clear_then)
