-- ===== src/ThreadPoolCpp/Steps.antt =====
-- The steps of the thread pool of ThreadPoolCpp/ThreadPool.h, which come in any order, and the
-- outcomes of a critical section.
use mathlib.Core.Path.{subst}
use c_project.Prelude.{
  ℕ, ◌+◌, ◌<◌, ◌≡◌, refl, sym, ◌∙◌, Bool, true, false, ◌&&◌, ◌||◌, not, if◌then◌else◌, Option, none,
  some, List, [], ◌∷◌, ◌++◌, get_elem?, arith, some-injective,
}
use c_project.Prelude.Sums.{sum}
use c_project.ThreadPoolCpp.Workers.{
  ready, waiting, running, ended, not_called, stop_set, ThreadPool, place, is_empty, take_front,
  worker_section, finish, enqueue, notify_one, notify_no_one, set_stop, notify_all, is_waiting,
}

pub data Step : ThreadPool → ThreadPool → Type 0 where
  section :
      {p q : ThreadPool} (i : ℕ)
      → get_elem? p.workers i ≡ some ready
      → worker_section i p ≡ some q
      → Step p q
  finishes :
      {p : ThreadPool} (i task : ℕ)
      → get_elem? p.workers i ≡ some (running task)
      → Step p (finish i task p)
  enqueues : {p q : ThreadPool} (task : ℕ) → enqueue task p ≡ some q → Step p q
  notifies :
      {p : ThreadPool} (i : ℕ)
      → 0 < p.notices
      → get_elem? p.workers i ≡ some waiting
      → Step p (notify_one i p)
  notifies_no_one :
      {p : ThreadPool} → 0 < p.notices → sum is_waiting p.workers ≡ 0 → Step p (notify_no_one p)
  stops : {p : ThreadPool} → p.destructor ≡ not_called → Step p (set_stop p)
  notifies_all : {p : ThreadPool} → p.destructor ≡ stop_set → Step p (notify_all p)

-- What is reached by steps, and by `wait` that returns without a notice.
pub data Reach (p : ThreadPool) : ThreadPool → Type 0 where
  here : Reach p p
  next : {q r : ThreadPool} → Reach p q → Step q r → Reach p r
  woken :
      {q : ThreadPool} (i : ℕ)
      → Reach p q
      → get_elem? q.workers i ≡ some waiting
      → Reach p (place ready i q)

-- The three outcomes of a critical section.
pub data Section (i : ℕ) (p : ThreadPool) : ThreadPool → Type 0 where
  sleeps : p.stop ≡ false → p.tasks ≡ [] → Section i p (place waiting i p)
  ends : p.stop ≡ true → p.tasks ≡ [] → Section i p (place ended i p)
  takes :
      (task : ℕ) (rest : List ℕ)
      → p.tasks ≡ task ∷ rest
      → Section i p
          (record (place (running task) i p) { tasks = rest; started = p.started ++ task ∷ [] })

-- What the section gives on the values of the two fields.
section_on : (i : ℕ) (p : ThreadPool) → Bool → List ℕ → Option ThreadPool
section_on i p stop tasks =
    if stop || not (is_empty tasks)
    then (if stop && is_empty tasks then some (place ended i p) else take_front i tasks p)
    else some (place waiting i p)

section_on-Section :
    (i : ℕ) (p : ThreadPool) (stop : Bool) (tasks : List ℕ)
    → p.stop ≡ stop
    → p.tasks ≡ tasks
    → (q : ThreadPool) × (section_on i p stop tasks ≡ some q) × Section i p q
unfolding section_on
section_on-Section i p false [] s e = (_, refl, sleeps s e)
section_on-Section i p true [] s e = (_, refl, ends s e)
section_on-Section i p false (t ∷ rest) s e = (_, refl, takes t rest e)
section_on-Section i p true (t ∷ rest) s e = (_, refl, takes t rest e)

pub worker_section-Section :
    (i : ℕ) (p : ThreadPool) → (q : ThreadPool) × (worker_section i p ≡ some q) × Section i p q
unfolding worker_section section_on
worker_section-Section i p = section_on-Section i p p.stop p.tasks refl refl

pub Section-of :
    (i : ℕ) (p : ThreadPool) {q : ThreadPool} → worker_section i p ≡ some q → Section i p q
Section-of i p e =
    let (r, gives, s) = worker_section-Section i p in
    subst (Section i p) (some-injective (sym gives ∙ e)) s

accepted_if :
    (stop : Bool) (p : ThreadPool) {q : ThreadPool}
    → (if stop then none else some p) ≡ some q
    → (stop ≡ false) × (q ≡ p)
accepted_if true p e = ground arith
accepted_if false p e = (refl, some-injective (sym e))

pub enqueue-cases :
    (task : ℕ) (p : ThreadPool) {q : ThreadPool}
    → enqueue task p ≡ some q
    → (p.stop ≡ false)
      × (q ≡ record p {
        tasks = p.tasks ++ task ∷ [];
        accepted = p.accepted ++ task ∷ [];
        notices = p.notices + 1;
      })
unfolding enqueue
enqueue-cases task p e = accepted_if p.stop _ e
