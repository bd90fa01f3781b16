-- ===== src/PollServer/Tests.antt =====
-- Runs of ChatRoom/server.c: two clients come, a third is refused, and one writes to the other.
use c_project.Prelude.{
  ℕ, ◌≤◌, ◌≡◌, refl, ap, true, Option, none, some, List, [], ◌∷◌, arith, zero, suc, ◌==◌,
  if◌then◌else◌, replicate, some-injective,
}
use c_project.PollServer.{
  Bits, no_bits, Pollfd, ClientData, Output, sends, too_many_users, closes, Server, start, Answer,
  ended, bytes, new_connection, drop_user, on_received, send_from, until_nul, Poll, polled, run,
  user_events, scan, turn, turn_on, add_user, update, notify_others, notify_at, notify_fd, mark,
  set_revents,
}
use c_project.PollServer.Slots.{At, IsUser}
use c_project.PollServer.Branches.{IsValid, Fresh}
use c_project.PollServer.Turns.{AllFresh}
use c_project.PollServer.Rounds.{CanPoll, run-IsValid}
use c_project.PollServer.Messages.{drop_user-sends, on_received-sends}

abbrev blank : ℕ → ClientData
blank fd = record { address = 0; write_buf = none; buf = [] }

abbrev in_bit : Bits
in_bit = record no_bits { pollin = true }

abbrev out_bit : Bits
out_bit = record no_bits { pollout = true }

abbrev idle_answer : Answer
idle_answer = record { accepted = none; received = ended }

abbrev answers_of : Answer → List Answer
answers_of a =
    a ∷ idle_answer ∷ idle_answer ∷ idle_answer ∷ idle_answer ∷ idle_answer ∷ idle_answer
    ∷ idle_answer ∷ []

abbrev comes : ℕ → Poll
comes fd =
    polled (in_bit ∷ no_bits ∷ no_bits ∷ [])
      (answers_of (record { accepted = some (fd, 9); received = ended }))

-- Users 5 and 6 come, 7 is refused, 5 writes "hi", and 6 is sent it.
abbrev talk : List Poll
talk =
    comes 5
    ∷ comes 6
    ∷ comes 7
    ∷ polled (no_bits ∷ in_bit ∷ no_bits ∷ []) (
        idle_answer
        ∷ record { accepted = none; received = bytes (104 ∷ 105 ∷ []) }
        ∷ answers_of idle_answer)
    ∷ polled (no_bits ∷ no_bits ∷ out_bit ∷ []) (answers_of idle_answer)
    ∷ []

abbrev output_of : Option Server → List Output
output_of none = []
output_of (some s) = s.output

talk_output :
    output_of (run talk (start 3 blank))
    ≡ sends 6 (104 ∷ 105 ∷ []) ∷ closes 7 ∷ too_many_users 7 ∷ []
unfolding run start scan turn turn_on new_connection add_user update on_received send_from
    notify_others notify_at notify_fd mark set_revents until_nul
talk_output = refl

idle_answer-Fresh : Fresh 3 idle_answer
idle_answer-Fresh connfd address e = ground arith

idle-AllFresh : (n : ℕ) → AllFresh 3 (replicate n idle_answer)
idle-AllFresh zero = tt
idle-AllFresh (suc n) = (idle_answer-Fresh, idle-AllFresh n)

first_comes : CanPoll 3 (comes 5 ∷ [])
first_comes = (
  (refl, refl),
  (
    (λ connfd address e. let same : 5 ≡ connfd = ap (λ p. p.0) (some-injective e) in omega arith),
    idle-AllFresh 7,
  ),
  omega arith,
  tt,
)

run-IsValid_example : (t : Server) × (run (comes 5 ∷ []) (start 3 blank) ≡ some t) × IsValid t
run-IsValid_example = run-IsValid 3 blank (comes 5 ∷ []) first_comes

-- Users 5 and 6, and a text of 5 that 6 is still to be sent.
abbrev user_slot : ℕ → Pollfd
user_slot fd = record { fd = some fd; events = user_events; revents = no_bits }

abbrev pair : Server
pair = record (start 3 blank) {
  fds = record { fd = some 3; events = in_bit; revents = no_bits } ∷ user_slot 5 ∷ user_slot 6 ∷ [];
  user_counter = 2;
}

abbrev waiting_pair : Server
waiting_pair = record pair {
  users =
      λ fd. record { address = 0; write_buf = if fd == 6 then some 5 else none; buf = fd ∷ 0 ∷ [] };
}

pair-IsValid : IsValid pair
unfolding start
pair-IsValid = record {
  size = refl;
  few = omega arith;
  listener = (_, refl, record { has_listenfd = refl; never_hangs_up = refl; never_writes = refl });
  user = user_at;
}
  where
    user_at : (j : ℕ) → 1 ≤ j → j ≤ 2 → At (IsUser 3) pair.fds j
    user_at zero h k = absurd (omega arith)
    user_at (suc zero) h k = (
      _,
      refl,
      record { fd_of = 5; has_fd = refl; not_listenfd = λ e. omega arith; reads = refl },
    )
    user_at (suc (suc zero)) h k = (
      _,
      refl,
      record { fd_of = 6; has_fd = refl; not_listenfd = λ e. omega arith; reads = refl },
    )
    user_at (suc (suc (suc j))) h k = absurd (omega arith)

on_received-sends_example :
    (t : Server) × (on_received 1 (user_slot 5) 5 (bytes (104 ∷ 105 ∷ [])) pair ≡ some (2, t))
    × At (λ r. (r.fd ≡ some 6) × (r.events.pollout ≡ true)) t.fds 2
    × ((r : Pollfd)
        → (send_from 2 r 6 (t.users 6).write_buf t).output
          ≡ sends 6 (until_nul (104 ∷ 105 ∷ [])) ∷ [])
unfolding start
on_received-sends_example =
    on_received-sends 1 2 5 6 (user_slot 5) (user_slot 6) (104 ∷ 105 ∷ []) pair pair-IsValid
      (omega arith) (omega arith) refl refl (λ e. omega arith) (omega arith)

drop_user-sends_example :
    (t : Server) × (drop_user 1 (user_slot 5) waiting_pair ≡ some t)
    × ((send_from 1 (user_slot 6) 6 (t.users 6).write_buf t).output
        ≡ sends 6 (until_nul (6 ∷ 0 ∷ [])) ∷ t.output)
unfolding start
drop_user-sends_example =
    drop_user-sends 1 5 6 (user_slot 5) (user_slot 6) waiting_pair refl refl refl (λ e. omega arith)
      (omega arith) refl

-- The text that user 6 is sent is the own one.
own_text : until_nul (6 ∷ 0 ∷ []) ≡ 6 ∷ []
unfolding until_nul
own_text = refl
