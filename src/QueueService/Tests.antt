-- ===== src/QueueService/Tests.antt =====
-- Runs of QueueServiceSystem at concrete inputs.
use c_project.QueueService.System.Ending.{run-ends}
use c_project.Prelude.{
  ℕ, ◌≡◌, ◌==◌, refl, if◌then◌else◌, none, some, List, [], ◌∷◌, arith, replicate,
}
use c_project.Heap.{null, node, Heap, Chain}
use c_project.QueueService.Queue.{Queue, enqueue, dequeue, order_enqueue}
use c_project.QueueService.Queue.Fifo.{IsFifo, enqueue-snoc, dequeue-cons}
use c_project.QueueService.Queue.Ordered.{
  insert, IsSorted, IsEvents, insert-IsSorted, order_enqueue-insert,
}
use c_project.QueueService.System.{Customer, customer, Draw, create, run, QueueSystem}
use c_project.QueueService.System.Invariant.{Ready, run-Ready}

-- A queue with its head node at 1, which holds 0, and one node at 2, which holds 7.
abbrev one : Queue
one = record { front = 1; back = 2 }

abbrev heap : Heap ℕ
heap p = if p == 1 then some (node 0 2) else if p == 2 then some (node 7 null) else none

abbrev empty : Queue
empty = record { front = 1; back = 1 }

abbrev empty_heap : Heap ℕ
empty_heap p = if p == 1 then some (node 0 null) else none

one-Chain : Chain heap ((1, 0) ∷ (2, 7) ∷ [])
one-Chain = (omega arith, refl, refl, (omega arith, refl, refl, tt))

one-IsFifo : IsFifo heap one 0 ((2, 7) ∷ [])
one-IsFifo = record { chain = one-Chain; back_last = refl }

empty-IsFifo : IsFifo empty_heap empty 0 []
empty-IsFifo = record { chain = (omega arith, refl, refl, tt); back_last = refl }

enqueue-snoc_example :
    (q' : Queue) × (h' : Heap ℕ) × (enqueue 3 (node 9 null) one heap ≡ some (q', h'))
    × (q'.front ≡ 1)
    × IsFifo h' q' 0 ((2, 7) ∷ (3, 9) ∷ [])
enqueue-snoc_example = enqueue-snoc heap one 0 ((2, 7) ∷ []) 3 9 (omega arith) refl one-IsFifo

dequeue-cons_example :
    (q' : Queue) × (h' : Heap ℕ) × (dequeue one heap ≡ some (2, q', h'))
    × (q'.front ≡ 1)
    × IsFifo h' q' 0 []
dequeue-cons_example = dequeue-cons heap one 0 2 7 [] one-IsFifo

abbrev key : ℕ → ℕ
key n = n

order_enqueue-insert_example :
    (h' : Heap ℕ) × (order_enqueue key 2 3 4 (node 5 null) one heap ≡ some (one, h'))
    × IsEvents key h' one 0 (insert key (3, 5) ((2, 7) ∷ []))
order_enqueue-insert_example =
    order_enqueue-insert key 2 3 4 5 heap one 0 (2, 7) [] (omega arith) (omega arith) refl
      (record { chain = one-Chain; back_in = refl })

insert-IsSorted_example : IsSorted key (insert key (3, 5) ((2, 7) ∷ []))
insert-IsSorted_example = insert-IsSorted key 3 5 ((2, 7) ∷ []) tt

abbrev nobody : Customer
nobody = customer 0 0

abbrev draws : List Draw
draws = record { interval = 2; duration = 9 } ∷ record { interval = 4; duration = 3 } ∷ []

run-Ready_example :
    (t : QueueSystem) × (later : ℕ) × (run 1 draws (create nobody 20 1) ≡ some t)
    × Ready later t.current_event t
run-Ready_example = run-Ready nobody 20 1 1 draws

-- Six draws are enough where the bank closes one unit of time after the first customer.
abbrev six_draws : List Draw
six_draws = replicate 6 (record { interval = 2; duration = 9 })

run-ends_example :
    (t : QueueSystem) × (run 1 six_draws (create nobody 2 1) ≡ some t)
    × (t.current_event ≡ none)
    × (t.total_service_time ≡ 2)
unfolding create
run-ends_example = run-ends 1 six_draws (create nobody 2 1) (refl, refl) (omega arith)
