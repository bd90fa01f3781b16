-- ===== src/QueueService/System/Order.antt =====
-- What `orderEnqueue` does to a list of events: to its order, and to the departures in it.
use c_project.Prelude.{
  ℕ, ◌+◌, ◌≤◌, ◌≡◌, refl, inl, inr, Bool-cases, if◌then◌else◌, List, [], ◌∷◌, ◌==◌, ltb, arith,
}
use c_project.QueueService.System.{Event, EventType, arrival, departure, insert_event}

-- No event is before `now`, and none before the one ahead of it.
abbrev pub Ordered : ℕ → List Event → Type 0
Ordered now [] = Unit {0}
Ordered now (e ∷ events) = (now ≤ e.occur_time) × Ordered e.occur_time events

pub insert_event-Ordered :
    (e : Event) (now : ℕ) (events : List Event)
    → now ≤ e.occur_time
    → Ordered now events
    → Ordered now (insert_event e events)
unfolding insert_event
insert_event-Ordered e now [] at o = (at, tt)
insert_event-Ordered e now (f ∷ events) at (first, o) =
    elim (Bool-cases (ltb f.occur_time e.occur_time)) [
      | inl earlier ↦
          rw earlier (first, insert_event-Ordered e f.occur_time events (ground arith) o)
      | inr later ↦ rw later (at, (ground arith, o))
    ]

abbrev pub departs : ℕ → EventType → ℕ
departs i arrival = 0
departs i (departure j) = if j == i then 1 else 0

-- How many departures from window `i` a list holds.
unfoldable pub departures : ℕ → List Event → ℕ
departures i [] = 0
departures i (e ∷ events) = departs i e.event_type + departures i events

pub departures-insert_event :
    (i : ℕ) (e : Event) (events : List Event)
    → departures i (insert_event e events) ≡ departs i e.event_type + departures i events
unfolding insert_event departures
departures-insert_event i e [] = refl
departures-insert_event i e (f ∷ events) = elim (Bool-cases (ltb f.occur_time e.occur_time)) [
  | inl earlier ↦ rw earlier (omega (arith, departures-insert_event i e events))
  | inr later ↦ rw later refl
]
