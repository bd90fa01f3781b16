-- ===== src/ChatRoom/Child.antt =====
-- `run_child` of ChatRoom/MPserver.c: the child of one client, and the memory that all share. What
-- `epoll_wait` and `recv` answer are arguments.
pub mod Memory
use c_project.Prelude.{
  ℕ, ◌+◌, ◌*◌, Bool, true, false, List, [], ◌∷◌, ◌++◌, if◌then◌else◌, length, take, drop, replicate,
  overwrite,
}

abbrev pub buffer_size : ℕ
buffer_size = 1024

abbrev pub user_limit : ℕ
user_limit = 3

pub data Call : Type 0 where
  -- To the parent, the number of the client.
  notify : (idx : ℕ) → Call
  -- To the client.
  deliver : (bytes : List ℕ) → Call

pub record Child : Type 0 where
  pub idx : ℕ
  pub share_mem : List ℕ
  pub stop_child : Bool
  pub calls : List Call

-- What `recv` answers: an error other than EAGAIN, EAGAIN, the end of the stream, or a value.
pub data Received (A : Type 0) : Type 0 where
  failed : Received A
  again : Received A
  closed : Received A
  received : A → Received A

-- `memset` of the part of the client `idx`.
unfoldable pub clear_part : ℕ → List ℕ → List ℕ
clear_part idx mem = overwrite mem (idx * buffer_size) (replicate buffer_size 0)

unfoldable pub part : ℕ → List ℕ → List ℕ
part idx mem = take buffer_size (drop (idx * buffer_size) mem)

-- Data of the client; `recv` gives at most `BUFFER_SIZE - 1` bytes.
pub on_client : Received (List ℕ) → Child → Child
on_client r c = after r (record c { share_mem = clear_part c.idx c.share_mem })
  where
    after : Received (List ℕ) → Child → Child
    after failed c = record c { stop_child = true }
    after again c = c
    after closed c = record c { stop_child = true }
    after (received bytes) c = record c {
      share_mem = overwrite c.share_mem (c.idx * buffer_size) bytes;
      calls = c.calls ++ notify c.idx ∷ [];
    }

-- A number from the parent.
pub on_pipe : Received ℕ → Child → Child
on_pipe failed c = record c { stop_child = true }
on_pipe again c = c
on_pipe closed c = record c { stop_child = true }
on_pipe (received client) c = record c { calls = c.calls ++ deliver (part client c.share_mem) ∷ [] }

pub data Event : Type 0 where
  client_ready : Received (List ℕ) → Event
  pipe_ready : Received ℕ → Event
  other_event : Event

pub handle_event : Event → Child → Child
handle_event (client_ready r) c = on_client r c
handle_event (pipe_ready r) c = on_pipe r c
handle_event other_event c = c

pub handle_events : List Event → Child → Child
handle_events [] c = c
handle_events (e ∷ events) c = handle_events events (handle_event e c)

-- `epoll_wait`: a failure, or events.
pub data Answer : Type 0 where
  failure : Answer
  events : List Event → Answer

-- The `while`, for as many answers as are given.
pub run_child : List Answer → Child → Child
run_child [] c = c
run_child (failure ∷ answers) c = c
run_child (events l ∷ answers) c =
    let rest = run_child answers (handle_events l c) in if c.stop_child then c else rest
