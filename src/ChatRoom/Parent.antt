-- ===== src/ChatRoom/Parent.antt =====
-- The loop of `main` in ChatRoom/MPserver.c: the table of the users and of the children. What
-- `accept`, `fork`, `recv` and `waitpid` answer are arguments; a pid and a descriptor are numbers.
pub mod Table
use c_project.Prelude.{
  ℕ, zero, suc, ◌+◌, ◌-◌, Bool, true, false, Option, none, some, List, [], ◌∷◌, ◌++◌, ◌==◌, leb,
  ltb, not, ◌&&◌, if◌then◌else◌,
}
use c_project.Signals.{Signal, sigchld, sigterm, sigint, other_signal}

abbrev pub user_limit : ℕ
user_limit = 3

-- `client_data`, `pipe` its `pipefd[0]`.
pub record Client : Type 0 where
  pub connfd : ℕ
  pub pid : ℕ
  pub pipe : ℕ

pub data Call : Type 0 where
  -- `send (connfd, "too many users")`
  refuse : (connfd : ℕ) → Call
  close : (fd : ℕ) → Call
  addfd : (fd : ℕ) → Call
  removefd : (fd : ℕ) → Call
  kill : (pid : ℕ) → Call
  -- `send (pipe, child)`
  send : (pipe : ℕ) → (child : ℕ) → Call
  -- `run_child (idx)` in the child `pid`
  run_child : (pid : ℕ) → (idx : ℕ) → Call

-- An array is a function of its index; `none` is -1.
pub record Server : Type 0 where
  pub user_counter : ℕ
  pub users : ℕ → Client
  pub sub_process : ℕ → Option ℕ
  pub stop_server : Bool
  pub terminate : Bool
  pub calls : List Call

abbrev pub update : {A : Type 0} → (ℕ → A) → ℕ → A → ℕ → A
update a i v j = if j == i then v else a j

unfoldable pub start : (ℕ → Client) → Server
start memory = record {
  user_counter = 0;
  users = memory;
  sub_process = λ pid. none;
  stop_server = false;
  terminate = false;
  calls = [];
}

-- The parent's part behind `fork`, for a new user at `user_counter`.
unfoldable pub add_user : Client → Server → Server
add_user c s = record s {
  users = update s.users s.user_counter c;
  sub_process = update s.sub_process c.pid (some s.user_counter);
  user_counter = s.user_counter + 1;
  calls = s.calls ++ run_child c.pid s.user_counter ∷ close c.connfd ∷ addfd c.pipe ∷ [];
}

-- A connection, with the socket pair and what `fork` returned, `none` for an error. The entry is
-- written before `fork`, all but its pid.
unfoldable pub new_connection : (connfd pipe : ℕ) → Option ℕ → Server → Server
new_connection connfd pipe forked s =
    if leb user_limit s.user_counter
    then record s { calls = s.calls ++ refuse connfd ∷ close connfd ∷ [] }
    else elim forked [
      | none ↦ record s {
        users =
            update s.users s.user_counter
              (record (s.users s.user_counter) { connfd = connfd; pipe = pipe });
        calls = s.calls ++ close connfd ∷ [];
      }
      | some pid ↦ add_user (record { connfd = connfd; pid = pid; pipe = pipe }) s
    ]

-- `users[del_user] = users[--user_counter]` and what stands round it.
unfoldable pub delete_user : (del_user : ℕ) → Server → Server
delete_user del_user s =
    let last = s.user_counter - 1 in
    let moved = s.users last in
    record s {
      users = update s.users del_user moved;
      sub_process = update s.sub_process moved.pid (some del_user);
      user_counter = last;
      calls = s.calls ++ removefd (s.users del_user).pipe ∷ close (s.users del_user).pipe ∷ [];
    }

-- `del_user < 0 || del_user > USER_LIMIT`
abbrev pub delete_found : Option ℕ → Server → Server
delete_found none s = s
delete_found (some del_user) s = if ltb user_limit del_user then s else delete_user del_user s

-- One answer of `waitpid`.
unfoldable pub reap : (pid : ℕ) → Server → Server
reap pid s =
    delete_found (s.sub_process pid) (record s { sub_process = update s.sub_process pid none })

pub reap_all : List ℕ → Server → Server
reap_all [] s = s
reap_all (pid ∷ pids) s = reap_all pids (reap pid s)

unfoldable pub child_ended : List ℕ → Server → Server
child_ended pids s =
    let s = reap_all pids s in
    if s.terminate && (s.user_counter == 0) then record s { stop_server = true } else s

-- `kill` for the first `n` users, in their order.
pub kill_users : (n : ℕ) → (ℕ → Client) → List Call
kill_users zero users = []
kill_users (suc n) users = kill_users n users ++ kill (users n).pid ∷ []

-- SIGTERM falls through to SIGINT.
unfoldable pub interrupt : Server → Server
interrupt s =
    if s.user_counter == 0
    then record s { stop_server = true }
    else record s { terminate = true; calls = s.calls ++ kill_users s.user_counter s.users }

pub handle_signal : Signal → Server → Server
handle_signal (sigchld pids) s = child_ended pids s
handle_signal sigterm s = interrupt s
handle_signal sigint s = interrupt s
handle_signal other_signal s = s

pub handle_signals : List Signal → Server → Server
handle_signals [] s = s
handle_signals (g ∷ signals) s = handle_signals signals (handle_signal g s)

-- The `for` that tells the other children.
pub forward : (n sockfd child : ℕ) → (ℕ → Client) → List Call
forward zero sockfd child users = []
forward (suc n) sockfd child users =
    forward n sockfd child users
    ++ (if (users n).pipe == sockfd then [] else send (users n).pipe child ∷ [])

unfoldable pub child_message : (sockfd child : ℕ) → Server → Server
child_message sockfd child s = record s {
  calls = s.calls ++ forward s.user_counter sockfd child s.users;
}

-- An event, with what `accept` and `recv` gave where they gave something.
pub data Event : Type 0 where
  connection : (connfd pipe : ℕ) → (forked : Option ℕ) → Event
  signals : List Signal → Event
  message : (sockfd child : ℕ) → Event
  other_event : Event

pub handle_event : Event → Server → Server
handle_event (connection connfd pipe forked) s = new_connection connfd pipe forked s
handle_event (signals l) s = handle_signals l s
handle_event (message sockfd child) s = child_message sockfd child s
handle_event other_event s = s

pub handle_events : List Event → Server → Server
handle_events [] s = s
handle_events (e ∷ events) s = handle_events events (handle_event e s)

-- The `while`, for as many answers of `epoll_wait` as are given; `none` is its failure.
pub run : List (Option (List Event)) → Server → Server
run [] s = s
run (none ∷ answers) s = s
run (some events ∷ answers) s =
    let rest = run answers (handle_events events s) in if s.stop_server then s else rest
