-- ===== src/ProcessPool/Tests.antt =====
-- Runs of ProcessPool at concrete inputs.
use c_project.Prelude.{ℕ, ◌+◌, ◌≡◌, ◌⊎◌, ◌||◌, Bool, false, some, List, [], ◌∷◌, arith}
use c_project.Signals.{sigchld, sigterm}
use c_project.ProcessPool.Child.{
  Child, Event, noticed, on_pipe, on_client, on_sig_pipe, handle_events,
}
use c_project.ProcessPool.Child.Stop.{interrupts, handle_events-stop}
use c_project.ProcessPool.Parent.{
  Parent, create, new_connection, on_listenfd, on_sig_pipe as on_signals, Answer, events,
  run_parent,
}
use c_project.ProcessPool.Parent.Exit.{
  IsValid, create-IsValid, HandedOut, Stopped, new_connection-HandedOut, run_parent-IsValid,
}

-- Two children, with the pids 70 and 71.
abbrev two : Parent
two = create ((70, 4) ∷ (71, 6) ∷ [])

two-IsValid : IsValid two
two-IsValid = create-IsValid ((70, 4) ∷ (71, 6) ∷ []) (omega arith)

new_connection-HandedOut_example :
    (r : Bool × Parent) × (new_connection two ≡ some r) × (HandedOut two r ⊎ Stopped two r)
new_connection-HandedOut_example = new_connection-HandedOut two two-IsValid

-- A connection, the end of both children, and another connection.
abbrev answers : List Answer
answers =
    events (on_listenfd ∷ on_signals (sigchld (71 ∷ 70 ∷ []) ∷ []) ∷ [])
    ∷ events (on_listenfd ∷ [])
    ∷ []

run_parent-IsValid_example : (q : Parent) × (run_parent answers two ≡ some q) × IsValid q
run_parent-IsValid_example = run_parent-IsValid answers two two-IsValid

-- A connection counts the calls of `process`; the parent sends SIGTERM.
abbrev child : Child ℕ
child = record { m_stop = false; users = λ fd. 0 }

abbrev opened : ℕ → ℕ → ℕ
opened fd n = 0

abbrev counts : ℕ → ℕ
counts n = n + 1

abbrev some_events : List Event
some_events = on_pipe noticed (some 9) ∷ on_client 9 ∷ on_sig_pipe (sigterm ∷ []) ∷ []

handle_events-stop_example :
    (handle_events opened counts some_events child).m_stop ≡ (false || interrupts some_events)
handle_events-stop_example = handle_events-stop opened counts some_events child
