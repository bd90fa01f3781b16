-- ===== src/QueueService/System/Weights.antt =====
-- How many events a system of queue_system.h can still come to, and that each round takes off one.
use mathlib.Core.Path.{subst}
use c_project.Prelude.{
  ℕ, ◌+◌, ◌-◌, ◌*◌, ◌≤◌, ◌≡◌, refl, sym, ap, ◌∙◌, inl, inr, Bool-cases, Option-cases, Option, none,
  some, some-injective, List, [], ◌∷◌, ◌++◌, ◌==◌, ltb, if◌then◌else◌, get_elem?, length,
  length-append, arith,
}
use c_project.Prelude.Options.{◌>>=◌}
use c_project.Prelude.Int.{pos, ◌+ℤ◌, ◌-ℤ◌}
use c_project.Prelude.Sums.{sum}
use c_project.QueueService.System.{
  Event, event, EventType, arrival, departure, Customer, customer, ServiceWindow, QueueSystem, Draw,
  insert_event, order_enqueue, get_idle_service_window, serve_next, serve_at, assign, next_arrival,
  join, customer_arrived, release, customer_departure, handle, dequeue_event, next_event, turn,
}

-- How many events an event can still lead to, at most: an arrival one more for each unit of time
-- that is left, and with each of them a service and its departure.
abbrev pub type_weight : (total now : ℕ) → EventType → ℕ
type_weight total now arrival = 3 * (total - now) + 3
type_weight total now (departure i) = 1

abbrev pub event_weight : (total : ℕ) → Event → ℕ
event_weight total e = type_weight total e.occur_time e.event_type

-- The events that are planned and the customers who wait.
abbrev pub weight : QueueSystem → ℕ
weight s = sum (event_weight s.total_service_time) s.event_list + 2 * length s.customer_list

sum-insert_event :
    (f : Event → ℕ) (e : Event) (events : List Event)
    → sum f (insert_event e events) ≡ f e + sum f events
unfolding insert_event
sum-insert_event f e [] = refl
sum-insert_event f e (d ∷ events) = elim (Bool-cases (ltb d.occur_time e.occur_time)) [
  | inl earlier ↦ rw earlier (omega (arith, sum-insert_event f e events))
  | inr later ↦ rw later refl
]

-- The system that a handler leaves has no more than so much weight, and the same closing time.
abbrev Within : ℕ → (total : ℕ) → Option QueueSystem → Type 0
Within bound total r =
    (t : QueueSystem) → r ≡ some t → (t.total_service_time ≡ total) × (weight t ≤ bound)

none-Within : (bound total : ℕ) → Within bound total none
none-Within bound total t e = ground arith

some-Within :
    (bound total : ℕ) (s : QueueSystem)
    → s.total_service_time ≡ total
    → weight s ≤ bound
    → Within bound total (some s)
some-Within bound total s e h t gives =
    subst (λ t. (t.total_service_time ≡ total) × (weight t ≤ bound)) (some-injective gives) (e, h)

serve_next-Within :
    (i now : ℕ) (w : ServiceWindow) (customers : List Customer) (s : QueueSystem)
    → s.customer_list ≡ customers
    → Within (weight s) s.total_service_time (serve_next i now w customers s)
unfolding serve_next order_enqueue
serve_next-Within i now w [] s e = none-Within _ _
serve_next-Within i now w (c ∷ rest) s e = some-Within _ _ _ refl (
    let more =
      sum-insert_event (event_weight s.total_service_time) (event (now + c.duration) (departure i))
        s.event_list in
    let l = ap length e in omega arith)

bind-Within :
    {A : Type 0} (bound total : ℕ) (o : Option A) (f : A → Option QueueSystem)
    → ((a : A) → Within bound total (f a))
    → Within bound total (o >>= f)
bind-Within bound total none f h = none-Within bound total
bind-Within bound total (some a) f h = h a

assign-Within :
    (o : Option ℕ) (now : ℕ) (s : QueueSystem)
    → Within (weight s) s.total_service_time (assign o now s)
unfolding assign serve_at
assign-Within none now s = some-Within _ _ s refl (omega arith)
assign-Within (some i) now s =
    bind-Within _ _ (get_elem? s.windows i) _
      (λ w. serve_next-Within i now w s.customer_list s refl)

-- The next arrival, if it comes before the closing time.
weight-next_arrival :
    (time : ℕ) (s : QueueSystem)
    → weight (next_arrival time s)
      ≤ weight s
        + (if ltb time s.total_service_time then 3 * (s.total_service_time - time) + 3 else 0)
unfolding next_arrival order_enqueue
weight-next_arrival time s = elim (Bool-cases (ltb time s.total_service_time)) [
  | inl early ↦
      let more =
        sum-insert_event (event_weight s.total_service_time) (event time arrival) s.event_list in
      rw early (omega arith)
  | inr late ↦ rw late (omega arith)
]

total-next_arrival :
    (time : ℕ) (s : QueueSystem) → (next_arrival time s).total_service_time ≡ s.total_service_time
unfolding next_arrival order_enqueue
total-next_arrival time s = elim (Bool-cases (ltb time s.total_service_time)) [
  | inl early ↦ rw early refl
  | inr late ↦ rw late refl
]

-- A draw of the interval zero lets the next customer come at the same time.
abbrev pub is_zero : Draw → ℕ
is_zero d = if d.interval == 0 then 1 else 0

next_arrival_cost :
    (now interval total : ℕ)
    → (if ltb (now + interval) total then 3 * (total - (now + interval)) + 3 else 0)
      ≤ 3 * (total - now) + 3 * (if interval == 0 then 1 else 0)
next_arrival_cost now interval total = ground arith

customer_arrived-Within :
    (d : Draw) (now : ℕ) (s : QueueSystem)
    → Within
        (weight s + 3 * (s.total_service_time - now) + 2 + 3 * is_zero d)
        s.total_service_time
        (customer_arrived d now s)
unfolding customer_arrived join
customer_arrived-Within d now s t gives =
    let counted = record s { total_customer_num = s.total_customer_num + 1 } in
    let planned = next_arrival (now + d.interval) counted in
    let joined = record planned {
      customer_list = planned.customer_list ++ customer d.duration now ∷ [];
    } in
    let (same, h) = assign-Within (get_idle_service_window joined) now joined t gives in
    let l = length-append planned.customer_list (customer d.duration now ∷ []) in
    let more : weight joined ≡ weight planned + 2 = omega arith in
    let p : weight planned
        ≤ weight s
          + (if ltb (now + d.interval) s.total_service_time
              then 3 * (s.total_service_time - (now + d.interval)) + 3
              else 0) =
      weight-next_arrival (now + d.interval) counted in
    let cost = next_arrival_cost now d.interval s.total_service_time in
    (same ∙ total-next_arrival (now + d.interval) counted, omega arith)

release-Within :
    (i now : ℕ) (w : ServiceWindow) (customers : List Customer) (s : QueueSystem)
    → s.customer_list ≡ customers
    → Within (weight s) s.total_service_time (release i now w customers s)
unfolding release
release-Within i now w [] s e = some-Within _ _ _ refl (omega arith)
release-Within i now w (c ∷ rest) s e = serve_next-Within i now w (c ∷ rest) s e

customer_departure-Within :
    (i now : ℕ) (s : QueueSystem)
    → Within (weight s) s.total_service_time (customer_departure i now s)
unfolding customer_departure
customer_departure-Within i now s = elim (Bool-cases (ltb now s.total_service_time)) [
  | inl early ↦ rw early (
      bind-Within _ _ (get_elem? s.windows i) _ (λ w.
        release-Within i now w s.customer_list
          (record s {
            total_customer_stay_time =
                s.total_customer_stay_time +ℤ (pos now -ℤ pos w.served.arrive_time);
          })
          refl))
  | inr late ↦ rw late (some-Within _ _ s refl (omega arith))
]

-- What is still to come with the current event.
abbrev pub work_left : Option Event → QueueSystem → ℕ
work_left none s = weight s
work_left (some e) s = event_weight s.total_service_time e + weight s

handle-Within :
    (d : Draw) (now : ℕ) (k : EventType) (s : QueueSystem)
    → Within
        (type_weight s.total_service_time now k + weight s + 3 * is_zero d - 1)
        s.total_service_time
        (handle d now k s)
unfolding handle
handle-Within d now arrival s t gives =
    let (same, h) = customer_arrived-Within d now s t gives in (same, omega arith)
handle-Within d now (departure i) s t gives =
    let (same, h) = customer_departure-Within i now s t gives in (same, omega arith)

dequeue_event-work_left :
    (events : List Event) (s : QueueSystem)
    → s.event_list ≡ events
    → (work_left (dequeue_event events s).current_event (dequeue_event events s) ≡ weight s)
      × ((dequeue_event events s).total_service_time ≡ s.total_service_time)
unfolding dequeue_event
dequeue_event-work_left [] s e = (refl, refl)
dequeue_event-work_left (f ∷ events) s e =
    let split = ap (sum (event_weight s.total_service_time)) e in (omega arith, refl)

pub type_weight_pos : (total now : ℕ) (k : EventType) → 1 ≤ type_weight total now k
type_weight_pos total now arrival = omega arith
type_weight_pos total now (departure i) = omega arith

-- A round of the loop takes off one at least, but for the draws of the interval zero.
pub turn-work_left :
    (d : Draw) (e : Event) (s : QueueSystem) {t : QueueSystem}
    → turn d e s ≡ some t
    → (t.total_service_time ≡ s.total_service_time)
      × (work_left t.current_event t + 1 ≤ work_left (some e) s + 3 * is_zero d)
unfolding turn next_event
turn-work_left d e s {t = t} gives = elim (Option-cases (handle d e.occur_time e.event_type s)) [
  | inl fault ↦ absurd (
      let x = ap (λ o. o >>= (λ u. some (dequeue_event u.event_list u))) fault in
      let y = sym x ∙ gives in ground arith)
  | inr (u, handled) ↦
      let (same, h) = handle-Within d e.occur_time e.event_type s u handled in
      let (l, same_too) = dequeue_event-work_left u.event_list u refl in
      let w = type_weight_pos s.total_service_time e.occur_time e.event_type in
      let is_t : dequeue_event u.event_list u ≡ t =
        some-injective
          (sym (ap (λ o. o >>= (λ u. some (dequeue_event u.event_list u))) handled) ∙ gives) in
      subst
        (λ t.
          (t.total_service_time ≡ s.total_service_time)
          × (work_left t.current_event t + 1 ≤ work_left (some e) s + 3 * is_zero d))
        is_t (same_too ∙ same, omega arith)
]
