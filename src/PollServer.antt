-- ===== src/PollServer.antt =====
-- `main` of ChatRoom/server.c, the chat server of one process: the table `fds` that `poll` reads and
-- writes, the users, and the `for` over the table. `users` is indexed by the descriptor; that a
-- descriptor lies below `FD_LIMIT` is not looked at. Of the bits of `events` and `revents` there are
-- the four that the code names. The texts of the sends and the closes are recorded, the last first.
-- `none` is an index outside `fds`, the descriptor -1 as an index, a count of users below zero, or
-- answers that are out.
pub mod Slots
pub mod Branches
pub mod Turns
pub mod Rounds
pub mod Messages
pub mod Tests
use c_project.Prelude.{
  ℕ, zero, suc, ◌+◌, ◌-◌, Bool, true, false, ◌&&◌, Option, none, some, List, [], ◌∷◌, ◌==◌, leb,
  ltb, if◌then◌else◌, get_elem?, set, overwrite, replicate,
}
use c_project.Prelude.Options.{◌>>=◌}

abbrev pub user_limit : ℕ
user_limit = 2

abbrev pub buffer_size : ℕ
buffer_size = 64

-- The bits POLLIN, POLLOUT, POLLRDHUP and POLLERR.
pub record Bits : Type 0 where
  pub pollin : Bool
  pub pollout : Bool
  pub pollrdhup : Bool
  pub pollerr : Bool

abbrev pub no_bits : Bits
no_bits = record { pollin = false; pollout = false; pollrdhup = false; pollerr = false }

pub record Pollfd : Type 0 where
  -- -1 is `none`.
  pub fd : Option ℕ
  pub events : Bits
  pub revents : Bits

-- `write_buf` points to the `buf` of a descriptor.
pub record ClientData : Type 0 where
  pub address : ℕ
  pub write_buf : Option ℕ
  pub buf : List ℕ

pub data Output : Type 0 where
  sends : (fd : ℕ) → (text : List ℕ) → Output
  too_many_users : (fd : ℕ) → Output
  closes : (fd : ℕ) → Output

pub record Server : Type 0 where
  pub listenfd : ℕ
  pub fds : List Pollfd
  pub user_counter : ℕ
  pub users : ℕ → ClientData
  pub output : List Output

abbrev pub unused : Pollfd
unused = record { fd = none; events = no_bits; revents = no_bits }

-- The events of `fds[0]` are POLLIN and POLLERR. What `new` leaves in `users` is an argument.
unfoldable pub start : (listenfd : ℕ) → (ℕ → ClientData) → Server
start listenfd users = record {
  listenfd = listenfd;
  fds =
      record {
        fd = some listenfd;
        events = record { pollin = true; pollout = false; pollrdhup = false; pollerr = true };
        revents = no_bits;
      }
      ∷ replicate user_limit unused;
  user_counter = 0;
  users = users;
  output = [];
}

-- What `recv` gives: an error, with whether it is EAGAIN, the end, or bytes.
pub data Received : Type 0 where
  failed : (again : Bool) → Received
  ended : Received
  bytes : List ℕ → Received

-- The answers of one round of the `for`: that of `accept`, a descriptor and an address, and that of
-- `recv`. A round takes one of them at most.
pub record Answer : Type 0 where
  pub accepted : Option (ℕ × ℕ)
  pub received : Received

unfoldable pub update : ℕ → ClientData → (ℕ → ClientData) → ℕ → ClientData
update fd c users j = if j == fd then c else users j

abbrev pub user_events : Bits
user_events = record { pollin = true; pollout = false; pollrdhup = true; pollerr = true }

unfoldable pub add_user : (connfd address : ℕ) → Server → Server
add_user connfd address s = record s {
  user_counter = s.user_counter + 1;
  users = update connfd (record (s.users connfd) { address = address }) s.users;
  fds =
      set s.fds (s.user_counter + 1)
        (record { fd = some connfd; events = user_events; revents = no_bits });
}

pub new_connection : Option (ℕ × ℕ) → Server → Server
new_connection none s = s
new_connection (some (connfd, address)) s =
    if leb user_limit s.user_counter
    then record s { output = closes connfd ∷ too_many_users connfd ∷ s.output }
    else add_user connfd address s

-- `users[fds[i].fd] = users[fds[user_counter].fd]`, the close, `fds[i] = fds[user_counter]` and
-- `user_counter--`, where the descriptors are `a` and `b`.
unfoldable pub fill_slot : (i : ℕ) → (last : Pollfd) → (a b : ℕ) → Server → Server
fill_slot i last a b s = record s {
  users = update a (s.users b) s.users;
  output = closes a ∷ s.output;
  fds = set s.fds i last;
  user_counter = s.user_counter - 1;
}

pub move_last : ℕ → Pollfd → Option ℕ → Option ℕ → Server → Option Server
move_last i last none b s = none
move_last i last (some a) none s = none
move_last i last (some a) (some b) s =
    if 0 == s.user_counter then none else some (fill_slot i last a b s)

unfoldable pub drop_user : ℕ → Pollfd → Server → Option Server
drop_user i p s = do last ← get_elem? s.fds s.user_counter; move_last i last p.fd last.fd s

-- `events |= ~POLLIN; events |= POLLOUT`
abbrev pub write_bits : Bits → Bits
write_bits e = record { pollin = e.pollin; pollout = true; pollrdhup = true; pollerr = true }

-- `events |= ~POLLOUT; events |= POLLIN`
abbrev pub read_bits : Bits → Bits
read_bits e = record { pollin = true; pollout = e.pollout; pollrdhup = true; pollerr = true }

abbrev pub set_write_buf : (fd : ℕ) → Option ℕ → (ℕ → ClientData) → ℕ → ClientData
set_write_buf fd write_buf users = update fd (record (users fd) { write_buf = write_buf }) users

unfoldable pub mark : (connfd j : ℕ) → Pollfd → (fd : ℕ) → Server → Server
mark connfd j p fd s = record s {
  fds = set s.fds j (record p { events = write_bits p.events });
  users = set_write_buf fd (some connfd) s.users;
}

-- One round of the inner `for`, at slot `j`.
pub notify_fd : (connfd j : ℕ) → Pollfd → Option ℕ → Server → Option Server
notify_fd connfd j p none s = none
notify_fd connfd j p (some fd) s = some (if fd == connfd then s else mark connfd j p fd s)

unfoldable pub notify_at : (connfd j : ℕ) → Server → Option Server
notify_at connfd j s = do p ← get_elem? s.fds j; notify_fd connfd j p p.fd s

-- So many rounds of the inner `for`, from slot `j` on.
pub notify_others : (connfd rounds j : ℕ) → Server → Option Server
notify_others connfd zero j s = some s
notify_others connfd (suc rounds) j s = do
  s ← notify_at connfd j s
  notify_others connfd rounds (j + 1) s

abbrev pub set_buf : (fd : ℕ) → List ℕ → Server → Server
set_buf fd text s = record s {
  users =
      update fd (record (s.users fd) { buf = overwrite (replicate buffer_size 0) 0 text }) s.users;
}

-- The branch of POLLIN on a user: the next index, and the server.
pub on_received : ℕ → Pollfd → (connfd : ℕ) → Received → Server → Option (ℕ × Server)
on_received i p connfd (failed true) s = some (i + 1, set_buf connfd [] s)
on_received i p connfd (failed false) s = do s ← drop_user i p (set_buf connfd [] s); some (i, s)
on_received i p connfd ended s = some (i + 1, set_buf connfd [] s)
on_received i p connfd (bytes text) s = do
  s ← notify_others connfd s.user_counter 1 (set_buf connfd text s)
  some (i + 1, s)

-- What `strlen` takes of a buffer.
pub until_nul : List ℕ → List ℕ
until_nul [] = []
until_nul (b ∷ text) = if b == 0 then [] else b ∷ until_nul text

-- The branch of POLLOUT.
pub send_from : ℕ → Pollfd → (connfd : ℕ) → Option ℕ → Server → Server
send_from i p connfd none s = s
send_from i p connfd (some owner) s = record s {
  output = sends connfd (until_nul (s.users owner).buf) ∷ s.output;
  users = set_write_buf connfd none s.users;
  fds = set s.fds i (record p { events = read_bits p.events });
}

abbrev pub is_fd : ℕ → Option ℕ → Bool
is_fd listenfd none = false
is_fd listenfd (some fd) = fd == listenfd

-- One round of the `for` over `fds`: the next index, and the server. Where a slot is filled with the
-- last one, `i--` and `++i` leave the index.
unfoldable pub turn_on : Answer → ℕ → Pollfd → Server → Option (ℕ × Server)
turn_on a i p s =
    if is_fd s.listenfd p.fd && p.revents.pollin
    then some (i + 1, new_connection a.accepted s)
    else (if p.revents.pollerr
        then some (i + 1, s)
        else (if p.revents.pollrdhup
            then (do s ← drop_user i p s; some (i, s))
            else (if p.revents.pollin
                then (do connfd ← p.fd; on_received i p connfd a.received s)
                else (if p.revents.pollout
                    then (do
                      connfd ← p.fd
                      some (i + 1, send_from i p connfd (s.users connfd).write_buf s))
                    else some (i + 1, s)))))

unfoldable pub turn : Answer → ℕ → Server → Option (ℕ × Server)
turn a i s = do p ← get_elem? s.fds i; turn_on a i p s

-- The `for`, for as many rounds as there are answers at most.
pub scan : List Answer → ℕ → Server → Option Server
scan [] i s = if ltb i (s.user_counter + 1) then none else some s
scan (a ∷ answers) i s =
    if ltb i (s.user_counter + 1)
    then (do next ← turn a i s; scan answers next.0 next.1)
    else some s

-- `poll` writes the bits of the slots it is given.
pub set_revents : List Bits → List Pollfd → List Pollfd
set_revents bits [] = []
set_revents [] (p ∷ fds) = p ∷ fds
set_revents (b ∷ bits) (p ∷ fds) = record p { revents = b } ∷ set_revents bits fds

-- What `poll` gives, with the answers of the `for` that follows.
pub data Poll : Type 0 where
  poll_failed : Poll
  polled : (bits : List Bits) → List Answer → Poll

-- The `while`, for as many calls of `poll` as are given.
pub run : List Poll → Server → Option Server
run [] s = some s
run (poll_failed ∷ polls) s = some s
run (polled bits answers ∷ polls) s = do
  s ← scan answers 0 (record s { fds = set_revents bits s.fds })
  run polls s
