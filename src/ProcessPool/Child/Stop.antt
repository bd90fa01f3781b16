-- ===== src/ProcessPool/Child/Stop.antt =====
-- What stops a child of the pool, and what changes a connection.
use c_project.Prelude.{
  ℕ, ◌≡◌, refl, ap, ◌∙◌, Bool, true, false, ◌||◌, Option, none, some, List, [], ◌∷◌, ◌==◌, arith,
}
use c_project.Signals.{Signal, sigchld, sigterm, sigint, other_signal}
use c_project.ProcessPool.Child.{
  Child, Message, failed, ended, noticed, Event, on_pipe, on_sig_pipe, on_client, other_event,
  accept_user, on_message, handle_signal, handle_signals, handle_event, handle_events,
}

-- Whether SIGINT is among the signals.
abbrev pub is_sigint : Signal → Bool
is_sigint (sigchld pids) = false
is_sigint sigterm = false
is_sigint sigint = true
is_sigint other_signal = false

abbrev pub has_sigint : List Signal → Bool
has_sigint [] = false
has_sigint (s ∷ signals) = is_sigint s || has_sigint signals

abbrev pub interrupts : List Event → Bool
interrupts [] = false
interrupts (on_pipe message accepted ∷ es) = interrupts es
interrupts (on_sig_pipe signals ∷ es) = has_sigint signals || interrupts es
interrupts (on_client sockfd ∷ es) = interrupts es
interrupts (other_event ∷ es) = interrupts es

-- Whether an event is about the connection `j`.
abbrev pub accepts : Option ℕ → ℕ → Bool
accepts none j = false
accepts (some connfd) j = j == connfd

abbrev pub touches : ℕ → List Event → Bool
touches j [] = false
touches j (on_pipe message accepted ∷ es) = accepts accepted j || touches j es
touches j (on_sig_pipe signals ∷ es) = touches j es
touches j (on_client sockfd ∷ es) = (j == sockfd) || touches j es
touches j (other_event ∷ es) = touches j es

module _ {A : Type 0} (init : ℕ → A → A) (process : A → A) where
  signals-stop :
      (signals : List Signal) (c : Child A)
      → (handle_signals init process signals c).m_stop ≡ (c.m_stop || has_sigint signals)
  unfolding handle_signals handle_signal
  signals-stop [] c = ground arith
  signals-stop (sigchld pids ∷ signals) c = signals-stop signals c
  signals-stop (sigterm ∷ signals) c = signals-stop signals c
  signals-stop (sigint ∷ signals) c =
      signals-stop signals (record c { m_stop = true }) ∙ ground arith
  signals-stop (other_signal ∷ signals) c = signals-stop signals c

  signals-users :
      (signals : List Signal) (c : Child A)
      → (handle_signals init process signals c).users ≡ c.users
  unfolding handle_signals handle_signal
  signals-users [] c = refl
  signals-users (sigchld pids ∷ signals) c = signals-users signals c
  signals-users (sigterm ∷ signals) c = signals-users signals c
  signals-users (sigint ∷ signals) c = signals-users signals (record c { m_stop = true })
  signals-users (other_signal ∷ signals) c = signals-users signals c

  message-stop :
      (m : Message) (accepted : Option ℕ) (c : Child A)
      → (on_message init process m accepted c).m_stop ≡ c.m_stop
  unfolding on_message accept_user
  message-stop failed accepted c = refl
  message-stop ended accepted c = refl
  message-stop noticed none c = refl
  message-stop noticed (some connfd) c = refl

  message-users :
      (m : Message) (accepted : Option ℕ) (c : Child A) (j : ℕ)
      → accepts accepted j ≡ false
      → (on_message init process m accepted c).users j ≡ c.users j
  unfolding on_message accept_user
  message-users failed accepted c j other = refl
  message-users ended accepted c j other = refl
  message-users noticed none c j other = refl
  message-users noticed (some connfd) c j other = ground arith

  -- After the events that a child of the pool handles, its stop flag is set if and only if it was
  -- set before or SIGINT is among the signals: the SIGTERM that the parent sends to its children
  -- does not stop one.
  pub handle_events-stop :
      (es : List Event) (c : Child A)
      → (handle_events init process es c).m_stop ≡ (c.m_stop || interrupts es)
  unfolding handle_events handle_event
  handle_events-stop [] c = ground arith
  handle_events-stop (on_pipe m accepted ∷ es) c =
      handle_events-stop es (on_message init process m accepted c)
      ∙ ap (λ b. b || interrupts es) (message-stop m accepted c)
  handle_events-stop (on_sig_pipe signals ∷ es) c =
      handle_events-stop es (handle_signals init process signals c)
      ∙ ap (λ b. b || interrupts es) (signals-stop signals c)
      ∙ ground arith
  handle_events-stop (on_client sockfd ∷ es) c = handle_events-stop es _
  handle_events-stop (other_event ∷ es) c = handle_events-stop es c

  -- The connections of a child of the pool that no event is about, neither as the one accepted nor
  -- as the one that is readable, stay as they are, whatever `init` and `process` do.
  pub handle_events-users :
      (es : List Event) (c : Child A) (j : ℕ)
      → touches j es ≡ false
      → (handle_events init process es c).users j ≡ c.users j
  unfolding handle_events handle_event
  handle_events-users [] c j other = refl
  handle_events-users (on_pipe m accepted ∷ es) c j other =
      handle_events-users es (on_message init process m accepted c) j (ground arith)
      ∙ message-users m accepted c j (ground arith)
  handle_events-users (on_sig_pipe signals ∷ es) c j other =
      handle_events-users es (handle_signals init process signals c) j other
      ∙ ap (λ u. u j) (signals-users signals c)
  handle_events-users (on_client sockfd ∷ es) c j other =
      handle_events-users es _ j (ground arith) ∙ ground arith
  handle_events-users (other_event ∷ es) c j other = handle_events-users es c j other
