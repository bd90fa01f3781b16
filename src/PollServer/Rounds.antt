-- ===== src/PollServer/Rounds.antt =====
-- The `while` of ChatRoom/server.c, from the start.
use mathlib.Core.Path.{subst}
use c_project.Prelude.{
  some-injective, ℕ, zero, suc, ◌≤◌, ◌≡◌, refl, sym, ap, ◌∙◌, false, some, List, [], ◌∷◌, length,
  arith,
}
use c_project.PollServer.{
  Bits, Pollfd, Server, ClientData, Poll, poll_failed, polled, set_revents, start, run,
}
use c_project.PollServer.Slots.{IsListener, At, IsTable}
use c_project.PollServer.Branches.{IsValid}
use c_project.PollServer.Turns.{AllFresh, scan-IsValid}

length-set_revents :
    (bits : List Bits) (fds : List Pollfd) → length (set_revents bits fds) ≡ length fds
unfolding set_revents
length-set_revents bits [] = refl
length-set_revents [] (p ∷ fds) = refl
length-set_revents (b ∷ bits) (p ∷ fds) = ap suc (length-set_revents bits fds)

-- What does not depend on `revents` is kept.
At-set_revents :
    {P : Pollfd → Type 0} (bits : List Bits) (fds : List Pollfd) (j : ℕ)
    → ((p : Pollfd) (b : Bits) → P p → P (record p { revents = b }))
    → At P fds j
    → At P (set_revents bits fds) j
unfolding set_revents
At-set_revents {P = P} bits [] j keep (p, at, h) = (p, at, h)
At-set_revents [] (q ∷ fds) j keep h = h
At-set_revents {P = P} (b ∷ bits) (q ∷ fds) zero keep (p, at, h) =
    (_, refl, keep q b (subst P (sym (some-injective at)) h))
At-set_revents (b ∷ bits) (q ∷ fds) (suc j) keep h = At-set_revents bits fds j keep h

-- The bits that `poll` gives the listener are among those it asks for.
abbrev pub Asked : List Bits → Type 0
Asked [] = Unit
Asked (b ∷ bits) = (b.pollrdhup ≡ false) × (b.pollout ≡ false)

IsListener-set_revents :
    (listenfd : ℕ) (bits : List Bits) (fds : List Pollfd)
    → Asked bits
    → At (IsListener listenfd) fds 0
    → At (IsListener listenfd) (set_revents bits fds) 0
unfolding set_revents
IsListener-set_revents listenfd bits [] asked h = h
IsListener-set_revents listenfd [] (p ∷ fds) asked h = h
IsListener-set_revents listenfd (b ∷ bits) (q ∷ fds) asked (p, at, h) = (
  _,
  refl,
  record {
    has_listenfd = ap (λ x. x.fd) (some-injective at) ∙ h.has_listenfd;
    never_hangs_up = asked.0;
    never_writes = asked.1;
  },
)

set_revents-IsTable :
    (listenfd n : ℕ) (bits : List Bits) (fds : List Pollfd)
    → Asked bits
    → IsTable listenfd n fds
    → IsTable listenfd n (set_revents bits fds)
set_revents-IsTable listenfd n bits fds asked t = record {
  size = length-set_revents bits fds ∙ t.size;
  few = t.few;
  listener = IsListener-set_revents listenfd bits fds asked t.listener;
  user = λ j h k.
      At-set_revents bits fds j
        (λ p b u. record {
          fd_of = u.fd_of;
          has_fd = u.has_fd;
          not_listenfd = u.not_listenfd;
          reads = u.reads;
        })
        (t.user j h k);
}

-- What `poll`, and `accept` after it, can give.
abbrev pub CanPoll : ℕ → List Poll → Type 0
CanPoll listenfd [] = Unit
CanPoll listenfd (poll_failed ∷ polls) = CanPoll listenfd polls
CanPoll listenfd (polled bits answers ∷ polls) =
    Asked bits × AllFresh listenfd answers × (8 ≤ length answers) × CanPoll listenfd polls

run-IsValid_from :
    (polls : List Poll) (s : Server)
    → CanPoll s.listenfd polls
    → IsValid s
    → (t : Server) × (run polls s ≡ some t) × IsValid t
unfolding run
run-IsValid_from [] s can v = (s, refl, v)
run-IsValid_from (poll_failed ∷ polls) s can v = (s, refl, v)
run-IsValid_from (polled bits answers ∷ polls) s (asked, fresh, enough, can) v =
    let polled_now = record s { fds = set_revents bits s.fds } in
    let (t, ends, w, l) =
      scan-IsValid answers polled_now fresh enough
        (set_revents-IsTable s.listenfd s.user_counter bits s.fds asked v) in
    let (u, goes, x) = run-IsValid_from polls t (subst (λ n. CanPoll n polls) (sym l) can) w in
    (u, rw ends goes, x)

start-IsValid : (listenfd : ℕ) (users : ℕ → ClientData) → IsValid (start listenfd users)
unfolding start
start-IsValid listenfd users = record {
  size = refl;
  few = omega arith;
  listener = (_, refl, record { has_listenfd = refl; never_hangs_up = refl; never_writes = refl });
  user = λ j h k. absurd (omega arith);
}

-- From the start, whatever `poll` reports, as long as it gives the listener only what it asks for,
-- whatever `recv` gives, and with `accept` that does not give the listener's descriptor: every
-- `for` over the table, in which an index is visited again when a user leaves and the table grows
-- when one comes, ends within eight rounds, without an index outside the table or the descriptor
-- -1; then there are at most two users, each with a descriptor that is not the listener's, and each
-- still with POLLIN among its events.
pub run-IsValid :
    (listenfd : ℕ) (users : ℕ → ClientData) (polls : List Poll)
    → CanPoll listenfd polls
    → (t : Server) × (run polls (start listenfd users) ≡ some t) × IsValid t
unfolding start
run-IsValid listenfd users polls can =
    run-IsValid_from polls (start listenfd users) can (start-IsValid listenfd users)
