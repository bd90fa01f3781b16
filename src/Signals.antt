-- ===== src/Signals.antt =====
-- What the servers of ProcessPool and ChatRoom read from the pipe that `sig_handler` writes to.
use c_project.Prelude.{ℕ, List}

-- A signal, with what `waitpid` answers in turn where SIGCHLD is handled.
pub data Signal : Type 0 where
  sigchld : (pids : List ℕ) → Signal
  sigterm : Signal
  sigint : Signal
  other_signal : Signal
