-- ===== src/ChatRoom/Tests.antt =====
-- Runs of ChatRoom at concrete inputs.
use c_project.Prelude.{
  ℕ, ◌-◌, ◌*◌, ◌≡◌, refl, false, some, [], ◌∷◌, ◌++◌, length-replicate, replicate, arith,
}
use c_project.ChatRoom.Child.{
  Child, received, client_ready, other_event, handle_events, on_client, on_pipe, part, deliver,
  buffer_size, user_limit,
}
use c_project.ChatRoom.Child.Memory.{handle_events-part, deliver-sent}
use c_project.ChatRoom.Parent.{
  Client, Server, start, new_connection, add_user, reap, run_child, close, addfd,
}
use c_project.ChatRoom.Parent.Table.{
  IsTable, Reach, here, next, connects, Reach-IsTable, new_connection-shared,
}

-- The child of client 0, of two.
abbrev child : Child
child = record {
  idx = 0;
  share_mem = replicate (user_limit * buffer_size) 0;
  stop_child = false;
  calls = [];
}

abbrev other_child : Child
other_child = record child {
  idx = 1;
  share_mem = (on_client (received (104 ∷ 105 ∷ [])) child).share_mem;
}

handle_events-part_example :
    part 1
      (handle_events (client_ready (received (104 ∷ 105 ∷ [])) ∷ other_event ∷ []) child).share_mem
    ≡ part 1 child.share_mem
handle_events-part_example =
    handle_events-part 1 (client_ready (received (104 ∷ 105 ∷ [])) ∷ other_event ∷ []) child
      (omega arith, (tt, tt)) (omega arith)

deliver-sent_example :
    (on_pipe (received 0) other_child).calls
    ≡ [] ++ deliver ((104 ∷ 105 ∷ []) ++ replicate (buffer_size - 2) 0) ∷ []
deliver-sent_example =
    deliver-sent (104 ∷ 105 ∷ []) child other_child (omega arith)
      (length-replicate {A = ℕ} (user_limit * buffer_size) 0) (omega arith) refl

abbrev memory : ℕ → Client
memory i = record { connfd = 0; pid = 0; pipe = 0 }

-- Two clients, served by the children 70 and 71.
abbrev two : Server
two = new_connection 7 8 (some 71) (new_connection 5 6 (some 70) (start memory))

Reach-two : Reach (start memory) two
unfolding start new_connection add_user
Reach-two =
    next (next here (connects 5 6 70 (λ j h e. omega (arith, h))))
      (connects 7 8 71 (λ j h. ground arith))

Reach-IsTable_example : IsTable two
Reach-IsTable_example = Reach-IsTable memory Reach-two

new_connection-shared_example :
    (((reap (two.users 0).pid two).users 0) ≡ two.users (two.user_counter - 1))
    × ((new_connection 9 10 (some 72) (reap (two.users 0).pid two)).calls
        ≡ (reap (two.users 0).pid two).calls
          ++ run_child 72 (two.user_counter - 1) ∷ close 9 ∷ addfd 10 ∷ [])
unfolding start new_connection add_user
new_connection-shared_example =
    new_connection-shared 0 9 10 72 two Reach-IsTable_example (omega arith)
