-- ===== src/Reactor/Session/Replies.antt =====
-- A client of MyReactor/reactor.cpp gets the time and its own text back.
use c_project.Prelude.{ℕ, ◌≤◌, ◌≡◌, ap, ◌∙◌, some, List, ◌++◌, length, arith}
use c_project.Prelude.Options.{◌>>=◌}
use c_project.Reactor.Session.{Sent, Tm, time_stamp, sent, replied, reply, serve_client}
use c_project.Reactor.Session.Pieces.{Short, pieces, flatten, read_all-flatten}
use c_project.Reactor.Session.Sends.{Willing, takes, send_all-sent}

time_stamp_pos : (now : Tm) (text : List ℕ) → 1 ≤ length (time_stamp now ++ text)
unfolding time_stamp
time_stamp_pos now text = omega arith

-- Where a client's text arrives in pieces of fewer than ten bytes, none of them NUL, and then no
-- more is there, no `send` fails, each takes a byte at least, and they are as many as the reply has
-- bytes: the worker reads all the pieces and sends, in whatever parts, the time and the whole text,
-- once and in order.
pub serve_client-replied :
    (now : Tm) (texts : List (List ℕ)) (answers : List Sent)
    → Short texts
    → Willing answers
    → length (time_stamp now ++ flatten texts) ≤ takes answers
    → serve_client now (pieces texts) answers
      ≡ some (replied (sent (time_stamp now ++ flatten texts)))
unfolding serve_client
serve_client-replied now texts answers short w enough =
    ap (λ o. o >>= (λ r. some (reply now answers r))) (read_all-flatten texts short)
    ∙ ap (λ s. some (replied s))
        (send_all-sent answers (time_stamp now ++ flatten texts) w
          (time_stamp_pos now (flatten texts)) enough)
