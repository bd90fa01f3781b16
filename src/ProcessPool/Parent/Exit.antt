-- ===== src/ProcessPool/Parent/Exit.antt =====
-- When the parent of the pool stops, and where it sends connections.
use c_project.Prelude.{
  ℕ, zero, suc, ◌<◌, ◌≡◌, refl, ap, ◌∙◌, ◌⊎◌, inl, inr, Bool, Bool-cases, true, false, some, List,
  [], ◌∷◌, ◌++◌, if◌then◌else◌, get_elem?, lt_of_get_elem?, length, arith,
}
use c_project.Prelude.Options.{◌>>=◌}
use c_project.Signals.{Signal, sigchld, sigterm, sigint, other_signal}
use c_project.ProcessPool.Parent.{
  Process, Parent, send, start, create, is_live, is_live_at, hand_out, new_connection, reap,
  reap_all, any_live, child_ended, handle_signal, handle_signals, Event, on_listenfd, on_sig_pipe,
  other_event, handle_event, handle_events, Answer, failure, events, run_parent,
}
use c_project.ProcessPool.Parent.Choice.{choose-Found, mod-next_place, next_place}

pub record IsValid (p : Parent) : Type 0 where
  pub numbered : length p.m_sub_process ≡ p.m_process_number
  pub counter : p.sub_process_counter < p.m_process_number
  -- The parent stops only when every child has exited.
  pub stops : p.m_stop ≡ true → any_live p.m_sub_process ≡ false

any_live-dead :
    (processes : List Process)
    → ((j : ℕ) → j < length processes → is_live_at processes j ≡ false)
    → any_live processes ≡ false
unfolding any_live
any_live-dead [] dead = refl
any_live-dead (c ∷ rest) dead =
    let first = dead 0 (omega arith) in
    rw (first, any_live-dead rest (λ j h. dead (suc j) (omega arith)))

get_elem?-live :
    (processes : List Process) (i : ℕ)
    → is_live_at processes i ≡ true
    → (c : Process) × (get_elem? processes i ≡ some c) × (is_live c ≡ true)
get_elem?-live [] i live = ground arith
get_elem?-live (c ∷ rest) zero live = (c, refl, live)
get_elem?-live (c ∷ rest) (suc i) live = get_elem?-live rest i live

-- A connection goes to a child that has not exited, by one message on its pipe, and the next one
-- starts to look behind that child.
abbrev pub HandedOut : Parent → Bool × Parent → Type 0
HandedOut p r =
    (i : ℕ) × (c : Process) × (get_elem? p.m_sub_process i ≡ some c)
    × (is_live c ≡ true)
    × (r ≡ (
      true,
      record p {
        sub_process_counter = next_place p.m_process_number i;
        calls = p.calls ++ send c.m_pipe ∷ [];
      },
    ))

-- Every child has exited, and the parent stops.
abbrev pub Stopped : Parent → Bool × Parent → Type 0
Stopped p r = (any_live p.m_sub_process ≡ false) × (r ≡ (false, record p { m_stop = true }))

-- In a valid state a new connection is handed, by one message on its pipe, to a child that has not
-- exited, and the counter moves to the place behind that child; or no child is live, the parent
-- stops and the loop over the events is left. The search for the child ends within as many rounds
-- as there are processes.
pub new_connection-HandedOut :
    (p : Parent)
    → IsValid p
    → (r : Bool × Parent) × (new_connection p ≡ some r) × (HandedOut p r ⊎ Stopped p r)
unfolding new_connection hand_out
new_connection-HandedOut p v =
    let n = p.m_process_number in
    let at = p.sub_process_counter in
    let (k, chosen, (inside, found)) =
      choose-Found n at v.counter p.m_sub_process n at v.counter (ground arith)
        (λ j h x. ground arith) in
    elim found [
      | inl live ↦
          let (c, there, is) = get_elem?-live p.m_sub_process k live in
          (_, rw (chosen, live, mod-next_place n k inside, there) refl, inl (k, c, there, is, refl))
      | inr (same, dead) ↦
          let none_live =
            any_live-dead p.m_sub_process (λ j h. dead j (omega (arith, v.numbered))) in
          (_, rw (chosen, dead k inside) refl, inr (none_live, refl))
    ]

length-reap :
    (pid : ℕ) (processes : List Process) → length (reap pid processes).0 ≡ length processes
unfolding reap
length-reap pid [] = refl
length-reap pid (c ∷ rest) = ground (arith, length-reap pid rest)

-- What reaping leaves alone.
record Kept (p q : Parent) : Type 0 where
  numbers : length q.m_sub_process ≡ length p.m_sub_process
  counts : q.m_process_number ≡ p.m_process_number
  places : q.sub_process_counter ≡ p.sub_process_counter

reap_all-Kept : (pids : List ℕ) (p : Parent) → Kept p (reap_all pids p)
unfolding reap_all
reap_all-Kept [] p = record { numbers = refl; counts = refl; places = refl }
reap_all-Kept (pid ∷ pids) p =
    let k = reap_all-Kept pids _ in
    record {
      numbers = k.numbers ∙ length-reap pid p.m_sub_process;
      counts = k.counts;
      places = k.places;
    }

handle_signal-IsValid : (s : Signal) (p : Parent) → IsValid p → IsValid (handle_signal s p)
unfolding handle_signal child_ended
handle_signal-IsValid (sigchld pids) p v =
    let k = reap_all-Kept pids p in
    record {
      numbered = omega (arith, v.numbered, k.numbers, k.counts);
      counter = omega (arith, v.counter, k.counts, k.places);
      stops = λ e. ground arith;
    }
handle_signal-IsValid sigterm p v = v
handle_signal-IsValid sigint p v = record {
  numbered = v.numbered;
  counter = v.counter;
  stops = v.stops;
}
handle_signal-IsValid other_signal p v = v

handle_signals-IsValid : (l : List Signal) (p : Parent) → IsValid p → IsValid (handle_signals l p)
unfolding handle_signals
handle_signals-IsValid [] p v = v
handle_signals-IsValid (s ∷ l) p v =
    handle_signals-IsValid l (handle_signal s p) (handle_signal-IsValid s p v)

handed-IsValid :
    (p : Parent) (r : Bool × Parent) → IsValid p → HandedOut p r ⊎ Stopped p r → IsValid r.1
handed-IsValid p r v (inl (i, c, there, live, e)) = rw e (record {
  numbered = v.numbered;
  counter = let at = lt_of_get_elem? p.m_sub_process i there in let n = v.numbered in ground arith;
  stops = v.stops;
})
handed-IsValid p r v (inr (dead, e)) =
    rw e (record { numbered = v.numbered; counter = v.counter; stops = λ x. dead })

handle_event-IsValid :
    (e : Event) (p : Parent)
    → IsValid p
    → (r : Bool × Parent) × (handle_event e p ≡ some r) × IsValid r.1
unfolding handle_event
handle_event-IsValid on_listenfd p v =
    let (r, goes, which) = new_connection-HandedOut p v in (r, goes, handed-IsValid p r v which)
handle_event-IsValid (on_sig_pipe l) p v = (_, refl, handle_signals-IsValid l p v)
handle_event-IsValid other_event p v = (_, refl, v)

handle_events-IsValid :
    (l : List Event) (r : Bool × Parent)
    → IsValid r.1
    → (q : Parent) × (handle_events l r ≡ some q) × IsValid q
unfolding handle_events
handle_events-IsValid [] (b, p) v = (p, refl, v)
handle_events-IsValid (e ∷ l) (false, p) v = (p, refl, v)
handle_events-IsValid (e ∷ l) (true, p) v =
    let (r, goes, w) = handle_event-IsValid e p v in
    let (q, rest, x) = handle_events-IsValid l r w in (q, rw goes rest, x)

-- From a state in which the counter names one of the processes and the parent has stopped only if
-- no child is live, the parent's loop goes through whatever `epoll_wait` and the pipes give it, and
-- leaves such a state.
pub run_parent-IsValid :
    (answers : List Answer) (p : Parent)
    → IsValid p
    → (q : Parent) × (run_parent answers p ≡ some q) × IsValid q
unfolding run_parent
run_parent-IsValid [] p v = (p, refl, v)
run_parent-IsValid (failure ∷ answers) p v = (p, refl, v)
run_parent-IsValid (events l ∷ answers) p v = elim (Bool-cases p.m_stop) [
  | inl stopped ↦ (
    p,
    ap (λ b. if b then some p else handle_events l (true, p) >>= run_parent answers) stopped,
    v,
  )
  | inr goes_on ↦
      let (q, goes, w) = handle_events-IsValid l (true, p) v in
      let (u, rest, x) = run_parent-IsValid answers q w in
      (
        u,
        ap (λ b. if b then some p else handle_events l (true, p) >>= run_parent answers) goes_on
            ∙ ap (λ r. r >>= run_parent answers) goes
            ∙ rest,
        x,
      )
]

length-start : (forked : List (ℕ × ℕ)) → length (start forked) ≡ length forked
unfolding start
length-start [] = refl
length-start ((pid, pipe) ∷ rest) = ap suc (length-start rest)

pub create-IsValid : (forked : List (ℕ × ℕ)) → 0 < length forked → IsValid (create forked)
unfolding create
create-IsValid forked some_child = record {
  numbered = length-start forked;
  counter = some_child;
  stops = λ e. ground arith;
}
