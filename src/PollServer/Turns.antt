-- ===== src/PollServer/Turns.antt =====
-- The `for` over the table of ChatRoom/server.c, in which an index may be visited again and the
-- count of users changes: no round leaves the table, and the loop ends.
use mathlib.Core.Path.{subst}
use c_project.Prelude.{
  ℕ, zero, suc, ◌+◌, ◌≤◌, ◌≡◌, ◌≢◌, refl, sym, ap, ◌∙◌, inl, inr, Bool-cases, ◌&&◌, ==→eq, ==_refl,
  if◌then◌else◌, Bool, true, false, Option, some, List, [], ◌∷◌, ltb, length, arith,
}
use c_project.Prelude.Options.{◌>>=◌}
use c_project.PollServer.{
  Pollfd, Server, Answer, on_received, send_from, is_fd, turn_on, turn, scan,
}
use c_project.PollServer.Slots.{IsUser, IsListener}
use c_project.PollServer.Branches.{
  IsValid, Fresh, rounds_left, Goes, drop_user-IsValid, new_connection-Keeps, on_received-Goes,
  send_from-Keeps,
}

if-Goes :
    (b : Bool) (i : ℕ) (s : Server) (q r : Option (ℕ × Server))
    → (b ≡ true → Goes i s q)
    → (b ≡ false → Goes i s r)
    → Goes i s (if b then q else r)
if-Goes true i s q r h k = h refl
if-Goes false i s q r h k = k refl

-- A round that leaves the table goes on to the next index.
next-Goes : (i : ℕ) (s : Server) → i ≤ s.user_counter → IsValid s → Goes i s (some (i + 1, s))
next-Goes i s below v = (_, _, refl, v, refl, omega arith, let f = v.few in omega arith)

and_true : (b c : Bool) → (b && c) ≡ true → b ≡ true
and_true true c e = refl
and_true false c e = absurd (ground arith)

not_listener :
    (listenfd fd : ℕ) (o : Option ℕ) → o ≡ some fd → fd ≢ listenfd → is_fd listenfd o ≢ true
not_listener listenfd fd o e ne h =
    absurd (ne (==→eq fd listenfd (sym (ap (is_fd listenfd) e) ∙ h)))

user-Goes :
    (a : Answer) (i : ℕ) (p : Pollfd) (s : Server)
    → 1 ≤ i
    → i ≤ s.user_counter
    → IsUser s.listenfd p
    → IsValid s
    → Goes i s (turn_on a i p s)
unfolding turn_on
user-Goes a i p s from below u v =
    if-Goes (is_fd s.listenfd p.fd && p.revents.pollin) i s _ _
      (λ e. absurd (not_listener s.listenfd u.fd_of p.fd u.has_fd u.not_listenfd (and_true _ _ e)))
      (λ e.
        if-Goes p.revents.pollerr i s _ _ (λ e. next-Goes i s below v)
          (λ e.
            if-Goes p.revents.pollrdhup i s _ _
              (λ e.
                let (t, gone, w, l, n) = drop_user-IsValid i p s from below u v in
                (i, t, rw gone refl, w, l, omega arith, omega arith))
              (λ e.
                if-Goes p.revents.pollin i s _ _
                  (λ e.
                    subst (λ o. Goes i s (o >>= (λ connfd. on_received i p connfd a.received s)))
                      (sym u.has_fd) (on_received-Goes i p a.received s from below u v))
                  (λ e.
                    if-Goes p.revents.pollout i s _ _
                      (λ e.
                        let (w, l, n) =
                          send_from-Keeps i p u.fd_of (s.users u.fd_of).write_buf s from below u
                            v in
                        subst
                          (λ o. Goes i s (
                            o >>= (λ connfd.
                              some ((i + 1, send_from i p connfd (s.users connfd).write_buf s)))))
                          (sym u.has_fd)
                          (_, _, refl, w, l, omega arith, let f = v.few in omega arith))
                      (λ e. next-Goes i s below v)))))

listener-Goes :
    (a : Answer) (p : Pollfd) (s : Server)
    → Fresh s.listenfd a
    → IsListener s.listenfd p
    → IsValid s
    → Goes 0 s (turn_on a 0 p s)
unfolding turn_on
listener-Goes a p s fresh q v =
    let here : is_fd s.listenfd p.fd ≡ true =
      ap (is_fd s.listenfd) q.has_listenfd ∙ ==_refl s.listenfd in
    let next = next-Goes 0 s (omega arith) v in
    if-Goes (is_fd s.listenfd p.fd && p.revents.pollin) 0 s _ _
      (λ e.
        let (w, l, more, few) = new_connection-Keeps a.accepted s fresh v in
        (_, _, refl, w, l, omega arith, omega arith))
      (λ e.
        if-Goes p.revents.pollerr 0 s _ _ (λ e. next)
          (λ hup.
            if-Goes p.revents.pollrdhup 0 s _ _
              (λ hup. absurd (let n = q.never_hangs_up in ground arith))
              (λ hup.
                if-Goes p.revents.pollin 0 s _ _
                  (λ reads.
                    absurd (let both = ap (λ b. b && p.revents.pollin) here in ground arith))
                  (λ reads.
                    if-Goes p.revents.pollout 0 s _ _
                      (λ writes. absurd (let n = q.never_writes in ground arith))
                      (λ writes. next)))))

turn-Goes :
    (a : Answer) (i : ℕ) (s : Server)
    → Fresh s.listenfd a
    → i ≤ s.user_counter
    → IsValid s
    → Goes i s (turn a i s)
unfolding turn
turn-Goes a zero s fresh below v =
    let (p, at, q) = v.listener in
    subst (λ o. Goes 0 s (o >>= (λ q. turn_on a 0 q s))) (sym at) (listener-Goes a p s fresh q v)
turn-Goes a (suc i) s fresh below v =
    let (p, at, u) = v.user (suc i) (omega arith) below in
    subst (λ o. Goes (suc i) s (o >>= (λ q. turn_on a (suc i) q s))) (sym at)
      (user-Goes a (suc i) p s (omega arith) below u v)

-- Every answer is one that `accept` can give.
abbrev pub AllFresh : ℕ → List Answer → Type 0
AllFresh listenfd [] = Unit
AllFresh listenfd (a ∷ answers) = Fresh listenfd a × AllFresh listenfd answers

scan-IsValid_from :
    (answers : List Answer) (i : ℕ) (s : Server)
    → AllFresh s.listenfd answers
    → i ≤ s.user_counter + 1
    → rounds_left i s ≤ length answers
    → IsValid s
    → (t : Server) × (scan answers i s ≡ some t) × IsValid t × (t.listenfd ≡ s.listenfd)
unfolding scan
scan-IsValid_from [] i s fresh below enough v =
    let over : ltb i (s.user_counter + 1) ≡ false = ground arith in (s, rw over refl, v, refl)
scan-IsValid_from (a ∷ answers) i s (f, fresh) below enough v =
    elim (Bool-cases (ltb i (s.user_counter + 1))) [
      | inr over ↦ (s, rw over refl, v, refl)
      | inl inside ↦
          let (j, t, goes, w, l, next, less) = turn-Goes a i s f (ground arith) v in
          let (u, ends, x, m) =
            scan-IsValid_from answers j t (subst (λ n. AllFresh n answers) (sym l) fresh) next
              (omega arith) w in
          (u, rw (inside, goes) ends, x, m ∙ l)
    ]

pub scan-IsValid :
    (answers : List Answer) (s : Server)
    → AllFresh s.listenfd answers
    → 8 ≤ length answers
    → IsValid s
    → (t : Server) × (scan answers 0 s ≡ some t) × IsValid t × (t.listenfd ≡ s.listenfd)
scan-IsValid answers s fresh enough v =
    scan-IsValid_from answers 0 s fresh (omega arith) (let f = v.few in omega arith) v
