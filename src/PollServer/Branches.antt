-- ===== src/PollServer/Branches.antt =====
-- The branches of the `for` over the table of ChatRoom/server.c: each keeps the table.
use c_project.Prelude.{
  ℕ, zero, suc, ◌+◌, ◌-◌, ◌*◌, ◌≤◌, ◌<◌, ◌≡◌, ◌≢◌, refl, ap, ◌∙◌, inl, inr, Bool-cases,
  if◌then◌else◌, Bool, true, false, Option, none, some, [], ◌==◌, leb, get_elem?, arith,
}
use c_project.Prelude.Options.{◌>>=◌}
use c_project.PollServer.{
  Pollfd, Server, Answer, Received, failed, ended, bytes, user_limit, new_connection, add_user,
  move_last, fill_slot, mark, write_bits, read_bits, drop_user, notify_fd, notify_at, notify_others,
  set_buf, on_received, send_from,
}
use c_project.PollServer.Slots.{IsUser, IsTable, set-IsTable, add-IsTable, drop-IsTable}

abbrev pub IsValid : Server → Type 0
IsValid s = IsTable s.listenfd s.user_counter s.fds

-- `accept` does not give the descriptor of the listener, which is open.
abbrev pub Fresh : ℕ → Answer → Type 0
Fresh listenfd a = (connfd address : ℕ) → a.accepted ≡ some (connfd, address) → connfd ≢ listenfd

-- The rounds that may be left at index `i`.
abbrev pub rounds_left : ℕ → Server → ℕ
rounds_left i s = 2 * (3 - i) + s.user_counter

-- A round goes through, and is one less.
abbrev pub Goes : ℕ → Server → Option (ℕ × Server) → Type 0
Goes i s r =
    (j : ℕ) × (t : Server) × (r ≡ some (j, t))
    × IsValid t
    × (t.listenfd ≡ s.listenfd)
    × (j ≤ t.user_counter + 1)
    × (rounds_left j t < rounds_left i s)

move_last_lem :
    (i a b : ℕ) (last : Pollfd) (s : Server) (o r : Option ℕ)
    → o ≡ some a
    → r ≡ some b
    → 1 ≤ s.user_counter
    → move_last i last o r s ≡ some (fill_slot i last a b s)
unfolding move_last
move_last_lem i a b last s o r e f some_user =
    let n : (0 == s.user_counter) ≡ false = ground arith in rw (e, f, n) refl

pub drop_user_lem :
    (i : ℕ) (p : Pollfd) (s : Server) {a b : ℕ} {last : Pollfd}
    → p.fd ≡ some a
    → get_elem? s.fds s.user_counter ≡ some last
    → last.fd ≡ some b
    → 1 ≤ s.user_counter
    → drop_user i p s ≡ some (fill_slot i last a b s)
unfolding drop_user
drop_user_lem i p s {a = a} {b = b} {last = last} e at f some_user =
    ap (λ o. o >>= (λ q. move_last i q p.fd q.fd s)) at
    ∙ move_last_lem i a b last s p.fd last.fd e f some_user

pub drop_user-IsValid :
    (i : ℕ) (p : Pollfd) (s : Server)
    → 1 ≤ i
    → i ≤ s.user_counter
    → IsUser s.listenfd p
    → IsValid s
    → (t : Server) × (drop_user i p s ≡ some t)
      × IsValid t
      × (t.listenfd ≡ s.listenfd)
      × (t.user_counter + 1 ≡ s.user_counter)
unfolding fill_slot
drop_user-IsValid i p s from below u v =
    let (last, at, l) = v.user s.user_counter (omega arith) (omega arith) in
    (
      fill_slot i last u.fd_of l.fd_of s,
      drop_user_lem i p s u.has_fd at l.has_fd (omega arith),
      drop-IsTable s.listenfd s.user_counter s.fds i last from below at l v,
      refl,
      omega arith,
    )

pub notify_at_lem :
    (connfd j fd : ℕ) (s : Server) {p : Pollfd}
    → get_elem? s.fds j ≡ some p
    → p.fd ≡ some fd
    → notify_at connfd j s ≡ some (if fd == connfd then s else mark connfd j p fd s)
unfolding notify_at notify_fd
notify_at_lem connfd j fd s {p = p} at e =
    ap (λ o. o >>= (λ q. notify_fd connfd j q q.fd s)) at ∙ ap (λ o. notify_fd connfd j p o s) e

marked-IsUser :
    (listenfd : ℕ) (p : Pollfd)
    → IsUser listenfd p
    → IsUser listenfd (record p { events = write_bits p.events })
marked-IsUser listenfd p u = record {
  fd_of = u.fd_of;
  has_fd = u.has_fd;
  not_listenfd = u.not_listenfd;
  reads = u.reads;
}

-- What a step of a round keeps beside the validity.
abbrev pub Keeps : Server → Server → Type 0
Keeps s t = IsValid t × (t.listenfd ≡ s.listenfd) × (t.user_counter ≡ s.user_counter)

if-Keeps : (b : Bool) (s t u : Server) → Keeps s t → Keeps s u → Keeps s (if b then t else u)
if-Keeps true s t u h k = h
if-Keeps false s t u h k = k

pub notify_at-Keeps :
    (connfd j : ℕ) (s : Server)
    → 1 ≤ j
    → j ≤ s.user_counter
    → IsValid s
    → (t : Server) × (notify_at connfd j s ≡ some t) × Keeps s t
unfolding mark
notify_at-Keeps connfd j s from below v =
    let (p, at, u) = v.user j from below in
    (
      _,
      notify_at_lem connfd j u.fd_of s at u.has_fd,
      if-Keeps (u.fd_of == connfd) s s (mark connfd j p u.fd_of s) (v, refl, refl)
          (
            set-IsTable s.listenfd s.user_counter s.fds j
                (record p { events = write_bits p.events }) from below
                (marked-IsUser s.listenfd p u) v,
            refl,
            refl,
          ),
    )

notify_others-Keeps :
    (connfd rounds j : ℕ) (s : Server)
    → 1 ≤ j
    → j + rounds ≤ s.user_counter + 1
    → IsValid s
    → (t : Server) × (notify_others connfd rounds j s ≡ some t) × Keeps s t
unfolding notify_others
notify_others-Keeps connfd zero j s from below v = (s, refl, (v, refl, refl))
notify_others-Keeps connfd (suc rounds) j s from below v =
    let (t, one, (v1, l1, n1)) = notify_at-Keeps connfd j s from (omega arith) v in
    let (u, rest, (v2, l2, n2)) =
      notify_others-Keeps connfd rounds (j + 1) t (omega arith) (omega arith) v1 in
    (u, rw one rest, (v2, l2 ∙ l1, n2 ∙ n1))

-- A round at the listener.
pub new_connection-Keeps :
    (o : Option (ℕ × ℕ)) (s : Server)
    → ((connfd address : ℕ) → o ≡ some (connfd, address) → connfd ≢ s.listenfd)
    → IsValid s
    → IsValid (new_connection o s)
      × ((new_connection o s).listenfd ≡ s.listenfd)
      × (s.user_counter ≤ (new_connection o s).user_counter)
      × ((new_connection o s).user_counter ≤ s.user_counter + 1)
unfolding new_connection add_user
new_connection-Keeps none s fresh v = (v, refl, omega arith, omega arith)
new_connection-Keeps (some (connfd, address)) s fresh v =
    elim (Bool-cases (leb user_limit s.user_counter)) [
      | inl full ↦ rw full (v, refl, omega arith, omega arith)
      | inr room ↦ rw room (
        add-IsTable s.listenfd s.user_counter s.fds _ (ground arith)
            (record {
              fd_of = connfd;
              has_fd = refl;
              not_listenfd = fresh connfd address refl;
              reads = refl;
            })
            v,
        refl,
        omega arith,
        omega arith,
      )
    ]

pub on_received-Goes :
    (i : ℕ) (p : Pollfd) (r : Received) (s : Server)
    → 1 ≤ i
    → i ≤ s.user_counter
    → (u : IsUser s.listenfd p) → IsValid s
    → Goes i s (on_received i p u.fd_of r s)
unfolding on_received
on_received-Goes i p (failed true) s from below u v =
    (_, _, refl, v, refl, omega arith, let f = v.few in omega arith)
on_received-Goes i p (failed false) s from below u v =
    let (t, gone, w, l, n) = drop_user-IsValid i p (set_buf u.fd_of [] s) from below u v in
    (i, t, rw gone refl, w, l, omega arith, omega arith)
on_received-Goes i p ended s from below u v =
    (_, _, refl, v, refl, omega arith, let f = v.few in omega arith)
on_received-Goes i p (bytes text) s from below u v =
    let (t, told, (w, l, n)) =
      notify_others-Keeps u.fd_of s.user_counter 1 (set_buf u.fd_of text s) (omega arith)
        (omega arith) v in
    (i + 1, t, rw told refl, w, l, omega arith, let f = v.few in omega arith)

pub send_from-Keeps :
    (i : ℕ) (p : Pollfd) (connfd : ℕ) (o : Option ℕ) (s : Server)
    → 1 ≤ i
    → i ≤ s.user_counter
    → IsUser s.listenfd p
    → IsValid s
    → Keeps s (send_from i p connfd o s)
unfolding send_from
send_from-Keeps i p connfd none s from below u v = (v, refl, refl)
send_from-Keeps i p connfd (some owner) s from below u v = (
  set-IsTable s.listenfd s.user_counter s.fds i (record p { events = read_bits p.events }) from
      below
      (record { fd_of = u.fd_of; has_fd = u.has_fd; not_listenfd = u.not_listenfd; reads = refl })
      v,
  refl,
  refl,
)
