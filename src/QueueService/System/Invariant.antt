-- ===== src/QueueService/System/Invariant.antt =====
-- What holds of the windows, the customers and the events whenever an event is handled.
use mathlib.Core.Path.{subst}
use c_project.Prelude.{
  ℕ, ◌+◌, ◌≤◌, ◌≡◌, ◌≢◌, refl, sym, ap, ◌∙◌, ◌⊎◌, inl, inr, Bool-cases, Option, none, some, List,
  [], ◌∷◌, ◌++◌, ◌==◌, ltb, get_elem?, get_elem?-some, set, get_elem?-set_self, get_elem?-set_ne,
  lt_of_get_elem?, arith,
}
use c_project.Prelude.Int.{pos, ◌+ℤ◌, ◌-ℤ◌}
use c_project.QueueService.System.{
  Event, event, EventType, arrival, departure, Customer, customer, ServiceWindow, serve_customer,
  set_idle, QueueSystem, Draw, create, init, order_enqueue, find_idle, get_idle_service_window,
  serve_next, serve_at, assign, next_arrival, join, customer_arrived, release, customer_departure,
  handle, dequeue_event, next_event, turn, run_loop, run,
}
use c_project.QueueService.System.Order.{
  Ordered, insert_event-Ordered, departs, departures, departures-insert_event,
}
use c_project.QueueService.System.Windows.{
  busy, busy_window, busy_window_le, find_idle_zero, window_there, find_idle-set,
}

-- `held` counts the departures of each window that the event under way stands for.
pub record Inv (now : ℕ) (held : ℕ → ℕ) (s : QueueSystem) : Type 0 where
  -- A departure that is planned is that of a window that serves, one for each.
  pub matched : (i : ℕ) → held i + departures i s.event_list ≤ busy s.windows i
  -- A customer waits only when no window is idle.
  pub waits : (s.customer_list ≡ []) ⊎ (find_idle 0 s.windows ≡ none)
  pub ordered : Ordered now s.event_list

abbrev pub nothing_held : ℕ → ℕ
nothing_held i = 0

-- The handler goes through, and leaves the invariant with nothing held.
abbrev Goes : ℕ → Option QueueSystem → Type 0
Goes now r = (t : QueueSystem) × (r ≡ some t) × Inv now nothing_held t

set-matched :
    (windows : List ServiceWindow) (i j n : ℕ) (w v : ServiceWindow)
    → get_elem? windows i ≡ some w
    → (j ≡ i → n ≤ busy_window (some v))
    → (j ≢ i → n ≤ busy windows j)
    → n ≤ busy (set windows i v) j
set-matched windows i j n w v there same other = elim (Bool-cases (j == i)) [
  | inl is_true ↦
      let e : j ≡ i = ground arith in
      rw (e, get_elem?-set_self windows i v (lt_of_get_elem? windows i there)) (same e)
  | inr is_false ↦
      let e : i ≢ j = ground arith in rw (get_elem?-set_ne windows v e) (other (λ x. e (sym x)))
]

-- A window whose departure is under way has no other planned.
planned_none :
    (i now : ℕ) (s : QueueSystem)
    → Inv now (λ j. departs j (departure i)) s
    → departures i s.event_list ≡ 0
planned_none i now s v =
    let before = v.matched i in let bound = busy_window_le (get_elem? s.windows i) in ground arith

module _ (i now : ℕ) (w : ServiceWindow) (s : QueueSystem) where
  serve_next-Goes :
      (c : Customer) (rest : List Customer)
      → get_elem? s.windows i ≡ some w
      → departures i s.event_list ≡ 0
      → ((j : ℕ) → departures j s.event_list ≤ busy s.windows j)
      → (rest ≡ []) ⊎ (find_idle 0 s.windows ≡ none)
      → Ordered now s.event_list
      → Goes now (serve_next i now w (c ∷ rest) s)
  unfolding serve_next order_enqueue serve_customer
  serve_next-Goes c rest there free matched waits ordered = (
    _,
    refl,
    record {
      matched = λ j.
          let leaves =
            departures-insert_event j (event (now + c.duration) (departure i)) s.event_list in
          rw leaves (
            set-matched s.windows i j _ w (serve_customer c w) there
              (λ e. let none_yet = ap (λ x. departures x s.event_list) e ∙ free in ground arith)
              (λ e. let before = matched j in ground arith));
      waits = elim waits [
        | inl e ↦ inl e
        | inr full ↦ inr (find_idle-set 0 s.windows i (serve_customer c w) full refl)
      ];
      ordered = insert_event-Ordered _ now s.event_list (omega arith) ordered;
    },
  )

  release-Goes :
      (customers : List Customer)
      → s.customer_list ≡ customers
      → get_elem? s.windows i ≡ some w
      → Inv now (λ j. departs j (departure i)) s
      → Goes now (release i now w customers s)
  unfolding release set_idle
  release-Goes [] empty there v = (
    _,
    refl,
    record {
      matched = λ j.
          set-matched s.windows i j _ w (set_idle w) there
            (λ e.
              let planned = ap (λ x. departures x s.event_list) e ∙ planned_none i now s v in
              ground arith)
            (λ e. let before = v.matched j in ground arith);
      waits = inl empty;
      ordered = v.ordered;
    },
  )
  release-Goes (c ∷ rest) full there v =
      serve_next-Goes c rest there (planned_none i now s v)
        (λ j. let before = v.matched j in ground arith)
        (elim v.waits [ inl e ↦ absurd (cc (sym full ∙ e)) | inr busy_all ↦ inr busy_all ])
        v.ordered

customer_departure-Goes :
    (i now : ℕ) (s : QueueSystem)
    → Inv now (λ j. departs j (departure i)) s
    → Goes now (customer_departure i now s)
unfolding customer_departure
customer_departure-Goes i now s v = elim (Bool-cases (ltb now s.total_service_time)) [
  | inl open_now ↦
      let (w, there) =
        get_elem?-some s.windows i
          (window_there s.windows i (let before = v.matched i in ground arith)) in
      let counted = record s {
        total_customer_stay_time =
            s.total_customer_stay_time +ℤ (pos now -ℤ pos w.served.arrive_time);
      } in
      rw (open_now, there)
        (release-Goes i now w counted s.customer_list refl there
          (record { matched = v.matched; waits = v.waits; ordered = v.ordered }))
  | inr closed ↦ rw closed (
    s,
    refl,
    record {
      matched = λ j. let before = v.matched j in ground arith;
      waits = v.waits;
      ordered = v.ordered;
    },
  )
]

next_arrival-Inv :
    (time now : ℕ) (s : QueueSystem)
    → now ≤ time
    → Inv now nothing_held s
    → Inv now nothing_held (next_arrival time s)
unfolding next_arrival order_enqueue
next_arrival-Inv time now s at v = elim (Bool-cases (ltb time s.total_service_time)) [
  | inl open_then ↦ rw open_then (record {
    matched = λ i.
        rw (departures-insert_event i (event time arrival) s.event_list)
          (let before = v.matched i in ground arith);
    waits = v.waits;
    ordered = insert_event-Ordered (event time arrival) now s.event_list at v.ordered;
  })
  | inr closed ↦ rw closed v
]

-- A new customer takes the idle window, if there is one, and has found no other waiting then.
assign-Goes :
    (c : Customer) (now : ℕ) (s : QueueSystem) (o : Option ℕ)
    → find_idle 0 s.windows ≡ o
    → Inv now nothing_held s
    → Goes now (assign o now (join c s))
unfolding assign join serve_at
assign-Goes c now s none e v =
    (join c s, refl, record { matched = v.matched; waits = inr e; ordered = v.ordered })
assign-Goes c now s (some i) e v =
    let (w, there, free) = find_idle_zero s.windows i e in
    let idle_now : busy s.windows i ≡ 0 = rw (there, free) refl in
    let before = v.matched i in
    let alone : (s.customer_list ++ c ∷ []) ≡ c ∷ [] = elim v.waits [
      | inl empty ↦ ap (λ l. l ++ c ∷ []) empty
      | inr full ↦ absurd (cc (sym full ∙ e))
    ] in
    rw there (
      subst (λ l. Goes now (serve_next i now w l (join c s))) (sym alone)
        (serve_next-Goes i now w (join c s) c [] there (ground arith)
          (λ j. let planned = v.matched j in ground arith) (inl refl) v.ordered))

customer_arrived-Goes :
    (d : Draw) (now : ℕ) (s : QueueSystem)
    → Inv now nothing_held s
    → Goes now (customer_arrived d now s)
unfolding customer_arrived get_idle_service_window join
customer_arrived-Goes d now s v =
    let counted = record s { total_customer_num = s.total_customer_num + 1 } in
    let planned = next_arrival (now + d.interval) counted in
    assign-Goes (customer d.duration now) now planned (find_idle 0 planned.windows) refl (
      next_arrival-Inv (now + d.interval) now counted (omega arith)
        (record { matched = v.matched; waits = v.waits; ordered = v.ordered }))

handle-Goes :
    (d : Draw) (now : ℕ) (k : EventType) (s : QueueSystem)
    → Inv now (λ i. departs i k) s
    → Goes now (handle d now k s)
unfolding handle
handle-Goes d now arrival s v = customer_arrived-Goes d now s v
handle-Goes d now (departure i) s v = customer_departure-Goes i now s v

-- The invariant of the loop of `run`: it holds with the departure of the current event counted, and
-- no event of the list is before the current one, which is not before `now`.
abbrev pub Ready : ℕ → Option Event → QueueSystem → Type 0
Ready now none s = Inv now nothing_held s
Ready now (some e) s = (now ≤ e.occur_time) × Inv e.occur_time (λ i. departs i e.event_type) s

dequeue_event-Ready :
    (events : List Event) (now : ℕ) (s : QueueSystem)
    → s.event_list ≡ events
    → Inv now nothing_held s
    → Ready now (dequeue_event events s).current_event (dequeue_event events s)
unfolding dequeue_event departures
dequeue_event-Ready [] now s e v = record {
  matched = v.matched;
  waits = v.waits;
  ordered = v.ordered;
}
dequeue_event-Ready (f ∷ events) now s e v =
    let o = subst (Ordered now) e v.ordered in
    (
      o.0,
      record {
        matched = λ i. let before = v.matched i in let split = ap (departures i) e in ground arith;
        waits = v.waits;
        ordered = o.1;
      },
    )

-- One round of the loop of `run` goes through, the next event is not before this one, and the
-- invariant of the loop is kept.
pub turn-Ready :
    (d : Draw) (e : Event) (now : ℕ) (s : QueueSystem)
    → Ready now (some e) s
    → (t : QueueSystem) × (turn d e s ≡ some t) × Ready e.occur_time t.current_event t
unfolding turn next_event
turn-Ready d e now s (later, v) =
    let (t, goes, w) = handle-Goes d e.occur_time e.event_type s v in
    (next_event t, rw goes refl, dequeue_event-Ready t.event_list e.occur_time t refl w)

run_loop-Ready :
    (draws : List Draw) (o : Option Event) (now : ℕ) (s : QueueSystem)
    → s.current_event ≡ o
    → Ready now o s
    → (t : QueueSystem) × (later : ℕ) × (run_loop draws o s ≡ some t)
      × Ready later t.current_event t
unfolding run_loop
run_loop-Ready draws none now s e v = (s, now, refl, subst (λ o. Ready now o s) (sym e) v)
run_loop-Ready [] (some f) now s e v = (s, now, refl, subst (λ o. Ready now o s) (sym e) v)
run_loop-Ready (d ∷ draws) (some f) now s e v =
    let (t, turned, w) = turn-Ready d f now s v in
    let (u, later, looped, x) = run_loop-Ready draws t.current_event f.occur_time t refl w in
    (u, later, rw turned looped, x)

-- From a new system, whatever the draws and the first arrival are, `run` goes through every event
-- that it is given draws for, without a read through a null pointer or behind the windows. When it
-- stops, the planned departures of each window, the current event's included, are at most one, and
-- none for an idle window; a customer waits only when no window is idle; the events of the list are
-- in the order of time, none before the current event.
pub run-Ready :
    (c : Customer) (total_service_time window_num first : ℕ) (draws : List Draw)
    → (t : QueueSystem) × (later : ℕ) × (run first draws (create c total_service_time window_num)
        ≡ some t)
      × Ready later t.current_event t
unfolding run create init departures
run-Ready c total_service_time window_num first draws =
    run_loop-Ready draws (some (event first arrival)) 0
      (init first (create c total_service_time window_num)) refl
      (omega arith, record { matched = λ i. omega arith; waits = inl refl; ordered = tt })
