-- ===== src/ProcessPool/Child.antt =====
-- `run_child` of ProcessPool/processpool.h. The class `T` of the connections is a parameter: its
-- state, its `init` for a descriptor, and its `process`. What `recv` and `accept` answer are
-- arguments.
pub mod Stop
use c_project.Prelude.{ℕ, Bool, true, false, Option, none, some, List, [], ◌∷◌, ◌==◌, if◌then◌else◌}
use c_project.Signals.{Signal, sigchld, sigterm, sigint, other_signal}

pub record Child (A : Type 0) : Type 0 where
  pub m_stop : Bool
  pub users : ℕ → A

-- What `recv` gives for the message of the parent: an error other than EAGAIN, the end of the
-- stream, or anything else, EAGAIN included.
pub data Message : Type 0 where
  failed ended : Message
  noticed : Message

pub data Event : Type 0 where
  -- with what `accept` would return
  on_pipe : Message → Option ℕ → Event
  on_sig_pipe : List Signal → Event
  on_client : (sockfd : ℕ) → Event
  other_event : Event

pub data Answer : Type 0 where
  failure : Answer
  events : List Event → Answer

module _ {A : Type 0} (init : ℕ → A → A) (process : A → A) where
  abbrev pub put : (ℕ → A) → ℕ → A → ℕ → A
  put users i a j = if j == i then a else users j

  pub accept_user : Option ℕ → Child A → Child A
  accept_user none c = c
  accept_user (some connfd) c = record c {
    users = put c.users connfd (init connfd (c.users connfd));
  }

  pub on_message : Message → Option ℕ → Child A → Child A
  on_message failed accepted c = c
  on_message ended accepted c = c
  on_message noticed accepted c = accept_user accepted c

  pub handle_signal : Signal → Child A → Child A
  handle_signal (sigchld pids) c = c
  handle_signal sigterm c = c
  handle_signal sigint c = record c { m_stop = true }
  handle_signal other_signal c = c

  pub handle_signals : List Signal → Child A → Child A
  handle_signals [] c = c
  handle_signals (s ∷ signals) c = handle_signals signals (handle_signal s c)

  pub handle_event : Event → Child A → Child A
  handle_event (on_pipe message accepted) c = on_message message accepted c
  handle_event (on_sig_pipe signals) c = handle_signals signals c
  handle_event (on_client sockfd) c = record c {
    users = put c.users sockfd (process (c.users sockfd));
  }
  handle_event other_event c = c

  pub handle_events : List Event → Child A → Child A
  handle_events [] c = c
  handle_events (e ∷ es) c = handle_events es (handle_event e c)

  -- The `while`, for as many answers of `epoll_wait` as are given.
  pub run_child : List Answer → Child A → Child A
  run_child [] c = c
  run_child (failure ∷ answers) c = c
  run_child (events es ∷ answers) c =
      let rest = run_child answers (handle_events es c) in if c.m_stop then c else rest
