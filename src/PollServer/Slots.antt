-- ===== src/PollServer/Slots.antt =====
-- The table `fds` of ChatRoom/server.c: the listener in front, then the users, one for each count.
use c_project.Prelude.{
  ℕ, ◌+◌, ◌-◌, ◌≤◌, ◌<◌, ◌≡◌, ◌≢◌, sym, ap, ◌∙◌, inl, inr, Bool-cases, true, false, some, List,
  ◌==◌, get_elem?, get_elem?-set_self, get_elem?-set_ne, set, length, length-set, arith,
}
use c_project.PollServer.{Pollfd, user_limit}

-- A user's slot: a descriptor that is not the listener's, with POLLIN among the events.
pub record IsUser (listenfd : ℕ) (p : Pollfd) : Type 0 where
  pub fd_of : ℕ
  pub has_fd : p.fd ≡ some fd_of
  pub not_listenfd : fd_of ≢ listenfd
  pub reads : p.events.pollin ≡ true

pub record IsListener (listenfd : ℕ) (p : Pollfd) : Type 0 where
  pub has_listenfd : p.fd ≡ some listenfd
  -- `poll` reports what is asked for, errors and hang-ups of POLLHUP only.
  pub never_hangs_up : p.revents.pollrdhup ≡ false
  pub never_writes : p.revents.pollout ≡ false

-- Slot `j` exists and holds what is asked.
abbrev pub At : (Pollfd → Type 0) → List Pollfd → ℕ → Type 0
At P fds j = (p : Pollfd) × (get_elem? fds j ≡ some p) × P p

pub record IsTable (listenfd user_counter : ℕ) (fds : List Pollfd) : Type 0 where
  pub size : length fds ≡ 3
  pub few : user_counter ≤ user_limit
  pub listener : At (IsListener listenfd) fds 0
  pub user : (j : ℕ) → 1 ≤ j → j ≤ user_counter → At (IsUser listenfd) fds j

-- A slot that is written, and the others.
pub At-set :
    {P : Pollfd → Type 0} (fds : List Pollfd) (i j : ℕ) (q : Pollfd)
    → i < length fds
    → (j ≡ i → P q)
    → (j ≢ i → At P fds j)
    → At P (set fds i q) j
At-set {P = P} fds i j q inside same other = elim (Bool-cases (j == i)) [
  | inl is_true ↦
      let e : j ≡ i = ground arith in
      (q, ap (get_elem? (set fds i q)) e ∙ get_elem?-set_self fds i q inside, same e)
  | inr is_false ↦
      let e : i ≢ j = ground arith in
      let (p, at, h) = other (λ x. e (sym x)) in (p, get_elem?-set_ne fds q e ∙ at, h)
]

module _ (listenfd n : ℕ) (fds : List Pollfd) where
  -- A user's slot is written with a user.
  pub set-IsTable :
      (i : ℕ) (q : Pollfd)
      → 1 ≤ i
      → i ≤ n
      → IsUser listenfd q
      → IsTable listenfd n fds
      → IsTable listenfd n (set fds i q)
  set-IsTable i q from below u t = record {
    size = length-set fds i q ∙ t.size;
    few = t.few;
    listener =
        At-set fds i 0 q (let s = t.size in let f = t.few in omega arith)
          (λ e. absurd (omega arith)) (λ e. t.listener);
    user = λ j h k.
        At-set fds i j q (let s = t.size in let f = t.few in omega arith) (λ e. u)
          (λ e. t.user j h k);
  }

  pub add-IsTable :
      (q : Pollfd)
      → n < user_limit
      → IsUser listenfd q
      → IsTable listenfd n fds
      → IsTable listenfd (n + 1) (set fds (n + 1) q)
  add-IsTable q room u t = record {
    size = length-set fds (n + 1) q ∙ t.size;
    few = omega arith;
    listener =
        At-set fds (n + 1) 0 q (let s = t.size in omega arith) (λ e. absurd (omega arith))
          (λ e. t.listener);
    user = λ j h k.
        At-set fds (n + 1) j q (let s = t.size in omega arith) (λ e. u)
          (λ e. t.user j h (omega arith));
  }

  -- The last user takes the place of user `i`.
  pub drop-IsTable :
      (i : ℕ) (last : Pollfd)
      → 1 ≤ i
      → i ≤ n
      → get_elem? fds n ≡ some last
      → IsUser listenfd last
      → IsTable listenfd n fds
      → IsTable listenfd (n - 1) (set fds i last)
  drop-IsTable i last from below at u t = record {
    size = length-set fds i last ∙ t.size;
    few = let f = t.few in omega arith;
    listener =
        At-set fds i 0 last (let s = t.size in let f = t.few in omega arith)
          (λ e. absurd (omega arith)) (λ e. t.listener);
    user = λ j h k.
        At-set fds i j last (let s = t.size in let f = t.few in omega arith) (λ e. u)
          (λ e. t.user j h (omega arith));
  }
