-- ===== src/ProcessPool/Parent.antt =====
-- `run_parent` of ProcessPool/processpool.h, and the constructor as far as the parent goes. What
-- `fork`, `epoll_wait`, `recv` and `waitpid` answer are arguments; the calls that the parent makes
-- are recorded.
pub mod Choice
pub mod Exit
use c_project.Prelude.{
  ℕ, zero, suc, ◌+◌, ◌%◌, Bool, true, false, Option, none, some, List, [], ◌∷◌, ◌++◌, ◌==◌,
  if◌then◌else◌, get_elem?, ◌||◌, not, length,
}
use c_project.Prelude.Options.{◌>>=◌}
use c_project.Signals.{Signal, sigchld, sigterm, sigint, other_signal}

-- `m_pid` is `none` for -1; `m_pipe` is the parent's end, `m_pipefd[0]`.
pub record Process : Type 0 where
  pub m_pid : Option ℕ
  pub m_pipe : ℕ

pub data Call : Type 0 where
  send : (pipe : ℕ) → Call
  close : (pipe : ℕ) → Call
  kill : (pid : ℕ) → Call

pub record Parent : Type 0 where
  pub m_process_number : ℕ
  pub m_stop : Bool
  pub m_sub_process : List Process
  pub sub_process_counter : ℕ
  pub calls : List Call

-- The processes that the rounds of the constructor leave to the parent.
pub start : List (ℕ × ℕ) → List Process
start [] = []
start ((pid, pipe) ∷ rest) = record { m_pid = some pid; m_pipe = pipe } ∷ start rest

-- The parent's part of the constructor: `forked` holds the pid and the pipe of each round.
unfoldable pub create : (forked : List (ℕ × ℕ)) → Parent
create forked = record {
  m_process_number = length forked;
  m_stop = false;
  m_sub_process = start forked;
  sub_process_counter = 0;
  calls = [];
}

abbrev pub is_live_pid : Option ℕ → Bool
is_live_pid none = false
is_live_pid (some pid) = true

abbrev pub is_live : Process → Bool
is_live c = is_live_pid c.m_pid

-- `m_sub_process[i].m_pid != -1`
abbrev pub is_live_at : List Process → ℕ → Bool
is_live_at [] i = false
is_live_at (c ∷ rest) zero = is_live c
is_live_at (c ∷ rest) (suc i) = is_live_at rest i

-- The `do`: `none` when the fuel is out.
pub choose : (fuel n counter i : ℕ) → List Process → Option ℕ
choose zero n counter i processes = none
choose (suc fuel) n counter i processes =
    if is_live_at processes i
    then some i
    else (let j = (i + 1) % n in if j == counter then some j else choose fuel n counter j processes)

abbrev pub pipe_of : Option Process → List Call
pipe_of none = []
pipe_of (some c) = send c.m_pipe ∷ []

-- What follows the `do`: whether the loop over the events goes on, and the state.
unfoldable pub hand_out : (i : ℕ) → Parent → Bool × Parent
hand_out i p =
    if is_live_at p.m_sub_process i
    then (
      true,
      record p {
        sub_process_counter = (i + 1) % p.m_process_number;
        calls = p.calls ++ pipe_of (get_elem? p.m_sub_process i);
      },
    )
    else (false, record p { m_stop = true })

abbrev pub hand_out_chosen : Option ℕ → Parent → Option (Bool × Parent)
hand_out_chosen none p = none
hand_out_chosen (some i) p = some (hand_out i p)

-- The branch for `m_listenfd`.
unfoldable pub new_connection : Parent → Option (Bool × Parent)
new_connection p =
    hand_out_chosen
      (choose p.m_process_number p.m_process_number p.sub_process_counter p.sub_process_counter
        p.m_sub_process)
      p

abbrev pub has_pid : Option ℕ → ℕ → Bool
has_pid none pid = false
has_pid (some own) pid = own == pid

-- The `for` over the processes for one answer of `waitpid`.
pub reap : (pid : ℕ) → List Process → List Process × List Call
reap pid [] = ([], [])
reap pid (c ∷ rest) =
    let (rest', closed) = reap pid rest in
    if has_pid c.m_pid pid
    then (record c { m_pid = none } ∷ rest', close c.m_pipe ∷ closed)
    else (c ∷ rest', closed)

pub reap_all : (pids : List ℕ) → Parent → Parent
reap_all [] p = p
reap_all (pid ∷ pids) p =
    let (processes, closed) = reap pid p.m_sub_process in
    reap_all pids (record p { m_sub_process = processes; calls = p.calls ++ closed })

pub any_live : List Process → Bool
any_live [] = false
any_live (c ∷ rest) = is_live c || any_live rest

unfoldable pub child_ended : (pids : List ℕ) → Parent → Parent
child_ended pids p = let p = reap_all pids p in record p { m_stop = not (any_live p.m_sub_process) }

abbrev pub kill_pid : Option ℕ → List Call
kill_pid none = []
kill_pid (some pid) = kill pid ∷ []

pub kill_all : List Process → List Call
kill_all [] = []
kill_all (c ∷ rest) = kill_pid c.m_pid ++ kill_all rest

pub handle_signal : Signal → Parent → Parent
handle_signal (sigchld pids) p = child_ended pids p
handle_signal sigterm p = p
handle_signal sigint p = record p { calls = p.calls ++ kill_all p.m_sub_process }
handle_signal other_signal p = p

pub handle_signals : List Signal → Parent → Parent
handle_signals [] p = p
handle_signals (s ∷ signals) p = handle_signals signals (handle_signal s p)

-- An event: on `m_listenfd`; readable on the signals' pipe, with what `recv` gave, empty for an
-- answer that is not positive; any other.
pub data Event : Type 0 where
  on_listenfd : Event
  on_sig_pipe : List Signal → Event
  other_event : Event

pub handle_event : Event → Parent → Option (Bool × Parent)
handle_event on_listenfd p = new_connection p
handle_event (on_sig_pipe signals) p = some (true, handle_signals signals p)
handle_event other_event p = some (true, p)

-- The `for` over the events, which the `break` leaves.
pub handle_events : List Event → Bool × Parent → Option Parent
handle_events [] (goes_on, p) = some p
handle_events (e ∷ events) (false, p) = some p
handle_events (e ∷ events) (true, p) = do r ← handle_event e p; handle_events events r

-- What `epoll_wait` answers: a failure, or events, none for an interrupted call.
pub data Answer : Type 0 where
  failure : Answer
  events : List Event → Answer

-- The `while`, for as many answers as are given.
pub run_parent : List Answer → Parent → Option Parent
run_parent [] p = some p
run_parent (failure ∷ answers) p = some p
run_parent (events es ∷ answers) p =
    if p.m_stop then some p else handle_events es (true, p) >>= run_parent answers
