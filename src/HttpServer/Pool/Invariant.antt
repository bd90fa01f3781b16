-- ===== src/HttpServer/Pool/Invariant.antt =====
-- What holds in every state of the pool that its threads can reach.
use mathlib.Core.List.{append_assoc}
use c_project.Prelude.{
  ℕ, suc, ◌+◌, ◌-◌, ◌≤◌, ◌<◌, ◌≡◌, refl, sym, ap, ◌∙◌, inl, inr, Bool-cases, List, [], ◌∷◌, ◌++◌,
  ltb, ◌==◌, length, length-append, arith,
}
use c_project.HttpServer.Pool.{
  Pool, create, append, post, wait, next_round, pop_from, pop, finish, shut, Step, appends, posts,
  waits, pops, finishes, shuts, Reach, here, next, destroy, destroys,
}

-- Every request in the queue has a unit of the semaphore, a post under way or a woken thread of its
-- own; the requests leave in the order of their arrival; the threads are all somewhere.
pub record Inv (threads : ℕ) (p : Pool) : Type 0 where
  pub covered : p.semaphore + p.posting + p.woken ≡ length p.queue
  pub ordered : p.taken ++ p.queue ≡ p.accepted
  pub bounded : length p.queue ≤ p.max_requests + 1
  pub counted : p.waiting + p.woken + p.busy + p.ended ≡ threads

module _ (threads : ℕ) (p : Pool) where
  append-Inv : (request : ℕ) → Inv threads p → Inv threads (append request p).1
  unfolding append
  append-Inv request i = elim (Bool-cases (ltb p.max_requests (length p.queue))) [
    | inl full ↦ rw full i
    | inr room ↦ rw room (record {
      covered = omega (arith, length-append p.queue (request ∷ []), i.covered);
      ordered =
          sym (append_assoc p.taken p.queue (request ∷ [])) ∙ ap (λ l. l ++ request ∷ []) i.ordered;
      bounded = ground (arith, length-append p.queue (request ∷ []));
      counted = i.counted;
    })
  ]

  next_round-Inv :
      (q : Pool)
      → q.semaphore + q.posting + q.woken ≡ length q.queue
      → q.taken ++ q.queue ≡ q.accepted
      → length q.queue ≤ q.max_requests + 1
      → suc (q.waiting + q.woken + q.busy + q.ended) ≡ threads
      → Inv threads (next_round q)
  unfolding next_round
  next_round-Inv q covered ordered bounded counted = ground arith

  pop_from-Inv :
      (queue : List ℕ)
      → p.queue ≡ queue
      → 0 < p.woken
      → Inv threads p
      → Inv threads (pop_from queue p)
  unfolding pop_from
  pop_from-Inv [] e woken i = absurd (omega (arith, i.covered, ap length e))
  pop_from-Inv (request ∷ rest) e woken i = elim (Bool-cases (request == 0)) [
    | inl null ↦ rw null (next_round-Inv _ covered ordered bounded (omega (arith, i.counted)))
    | inr real ↦ rw real (record {
      covered = covered;
      ordered = ordered;
      bounded = bounded;
      counted = omega (arith, i.counted);
    })
  ]
    where
      covered : p.semaphore + p.posting + (p.woken - 1) ≡ length rest
      covered = omega (arith, i.covered, ap length e)

      ordered : (p.taken ++ request ∷ []) ++ rest ≡ p.accepted
      ordered =
          append_assoc p.taken (request ∷ []) rest ∙ ap (λ q. p.taken ++ q) (sym e) ∙ i.ordered

      bounded : length rest ≤ p.max_requests + 1
      bounded = omega (arith, i.bounded, ap length e)

-- Every step of a producer, of a worker or of the destructor keeps the invariant.
pub Step-Inv : {threads : ℕ} {p q : Pool} → Step p q → Inv threads p → Inv threads q
unfolding post wait pop finish shut destroy
Step-Inv {threads} {p} (appends request) i = append-Inv threads p request i
Step-Inv (posts h) i = ground arith
Step-Inv (waits h k) i = ground arith
Step-Inv {threads} {p} (pops h) i = pop_from-Inv threads p p.queue refl h i
Step-Inv {threads} {p} (finishes h) i =
    next_round-Inv threads p _ i.covered i.ordered i.bounded (omega (arith, i.counted))
Step-Inv shuts i = ground arith
Step-Inv (destroys h) i = ground arith

create-Inv : (threads max_requests : ℕ) → Inv threads (create threads max_requests)
unfolding create
create-Inv threads max_requests = ground arith

-- In every state that producers, workers and the destructor of a pool reach from a new one, in any
-- order of their steps, up to the destruction of the members, behind which nothing is defined: the
-- units of the semaphore, the posts under way and the woken threads together are as many as the
-- requests in the queue; the requests taken, and behind them those that wait, are those accepted,
-- in their order; the queue holds at most one request more than `max_requests`; and the threads
-- that wait, are woken, are busy or have ended are as many as were started.
pub Reach-Inv :
    (threads max_requests : ℕ) {p : Pool} → Reach (create threads max_requests) p → Inv threads p
Reach-Inv threads max_requests here = create-Inv threads max_requests
Reach-Inv threads max_requests (next r alive s) = Step-Inv s (Reach-Inv threads max_requests r)

-- In every state reached from a new pool in which a thread has passed `wait`, the queue is not
-- empty, and `pop` takes its first request, and puts it behind those taken before.
pub pop-finds :
    (threads max_requests : ℕ) {p : Pool}
    → Reach (create threads max_requests) p
    → 0 < p.woken
    → (request : ℕ) × (p.queue ≡ request ∷ (pop p).queue)
      × ((pop p).taken ≡ p.taken ++ request ∷ [])
unfolding pop pop_from next_round
pop-finds threads max_requests {p} r woken = found p.queue refl
  where
    open (Reach-Inv threads max_requests r) use {covered}

    found :
        (queue : List ℕ)
        → p.queue ≡ queue
        → (request : ℕ) × (queue ≡ request ∷ (pop_from queue p).queue)
          × ((pop_from queue p).taken ≡ p.taken ++ request ∷ [])
    found [] e = absurd (omega (arith, covered, ap length e))
    found (request ∷ rest) e = (request, ground arith, ground arith)
