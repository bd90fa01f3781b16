-- ===== src/Reactor/Tests.antt =====
-- Runs of MyReactor/reactor.cpp.
use c_project.Reactor.Session.Sends.{Willing}
use c_project.Prelude.{ℕ, ◌≡◌, refl, none, some, [], ◌∷◌, ◌++◌, map, replicate, arith, zero, suc}
use c_project.HttpServer.CString.{codes}
use c_project.HttpServer.Response.{decimal}
use c_project.Reactor.Session.{
  bytes, took, Tm, time_stamp, two_digits, read_all, replied, sent, serve_client,
}
use c_project.Reactor.Session.Pieces.{pieces, read_all-full}
use c_project.Reactor.Session.Replies.{serve_client-replied}
use c_project.Reactor.Clients.{Reactor, start, at_loop, serving}
use c_project.Reactor.Clients.Queued.{Queued}

abbrev now : Tm
now = record { tm_year = 126; tm_mon = 0; tm_mday = 9; tm_hour = 10; tm_min = 5; tm_sec = 0 }

stamp : time_stamp now ≡ codes "[2026-01-09 10:05:00]server reply: "
unfolding time_stamp two_digits decimal
stamp = refl

took-Willing : (n : ℕ) → Willing (replicate n (took 1))
took-Willing zero = tt
took-Willing (suc n) = (omega arith, took-Willing n)

serve_client-replied_example :
    serve_client now (pieces (codes "hel" ∷ codes "lo" ∷ [])) (replicate 50 (took 1))
    ≡ some (replied (sent (time_stamp now ++ codes "hello")))
unfolding time_stamp two_digits decimal
serve_client-replied_example =
    serve_client-replied now (codes "hel" ∷ codes "lo" ∷ []) (replicate 50 (took 1))
      ((refl, (refl, (refl, tt))), omega arith, ((refl, (refl, tt)), omega arith, tt))
      (took-Willing 50) (omega arith)

read_all-full_example :
    read_all (map bytes (codes "ab" ∷ []) ++ bytes (codes "0123456789") ∷ []) [] ≡ none
read_all-full_example =
    read_all-full (codes "ab" ∷ []) (codes "0123456789") [] [] ((refl, (refl, tt)), omega arith, tt)
      (refl, (refl, (refl, (refl, (refl, (refl, (refl, (refl, (refl, (refl, tt)))))))))) refl

-- A client comes, and a worker takes it.
abbrev one_served : Reactor
one_served = record start {
  workers = serving 8 ∷ at_loop ∷ at_loop ∷ at_loop ∷ at_loop ∷ [];
  queued = 8 ∷ [];
  taken = 8 ∷ [];
  signals = 1;
}
