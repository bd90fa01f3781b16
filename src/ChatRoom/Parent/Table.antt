-- ===== src/ChatRoom/Parent/Table.antt =====
-- The table of the users and that of the children, and how they keep together.
use mathlib.Core.Path.{subst}
use c_project.Prelude.{
  ℕ, ◌+◌, ◌-◌, ◌≤◌, ◌<◌, ◌≡◌, ◌≢◌, refl, sym, ap, ◌∙◌, inl, inr, Bool-cases, false, ◌&&◌, Option,
  none, some, List, [], ◌∷◌, ◌++◌, ◌==◌, leb, ltb, if◌then◌else◌, arith, some-injective,
}
use c_project.ChatRoom.Parent.{
  Client, Server, user_limit, update, start, add_user, new_connection, delete_user, delete_found,
  reap, child_ended, interrupt, child_message, reap_all, run_child, close, addfd,
}

-- Every user is found under the pid of its child, and there are at most `USER_LIMIT` of them.
pub record IsTable (s : Server) : Type 0 where
  pub bounded : s.user_counter ≤ user_limit
  pub found : (j : ℕ) → j < s.user_counter → s.sub_process (s.users j).pid ≡ some j

-- Two users have two children, since the children's table gives one user for each.
distinct :
    (s : Server) (i j : ℕ)
    → IsTable s
    → i < s.user_counter
    → j < s.user_counter
    → (s.users i).pid ≡ (s.users j).pid
    → some i ≡ some j
distinct s i j t hi hj e = sym (t.found i hi) ∙ ap s.sub_process e ∙ t.found j hj

update_at : {A : Type 0} (a : ℕ → A) {i j : ℕ} (v : A) → j ≡ i → update a i v j ≡ v
update_at a v e = ground arith

update_ne : {A : Type 0} (a : ℕ → A) {i j : ℕ} (v : A) → j ≢ i → update a i v j ≡ a j
update_ne a v ne = ground arith

add_user-IsTable :
    (c : Client) (s : Server)
    → s.user_counter < user_limit
    → ((j : ℕ) → j < s.user_counter → (s.users j).pid ≢ c.pid)
    → IsTable s
    → IsTable (add_user c s)
unfolding add_user
add_user-IsTable c s room fresh t = record { bounded = ground arith; found = λ j h. at j h }
  where
    n : ℕ
    n = s.user_counter

    at :
        (j : ℕ)
        → j < n + 1
        → update s.sub_process c.pid (some n) (update s.users n c j).pid ≡ some j
    at j h = elim (Bool-cases (j == n)) [
      | inl last ↦
          let e : j ≡ n = ground arith in
          ap (λ u. update s.sub_process c.pid (some n) u.pid) (update_at s.users c e)
          ∙ update_at s.sub_process (some n) refl
          ∙ ap some (sym e)
      | inr before ↦
          let ne : j ≢ n = ground arith in
          ap (λ u. update s.sub_process c.pid (some n) u.pid) (update_ne s.users c ne)
          ∙ update_ne s.sub_process (some n) (fresh j (omega arith))
          ∙ t.found j (omega arith)
    ]

-- When the child of a user has ended, the last user takes its place.
delete_user-IsTable :
    (i : ℕ) (s : Server)
    → i < s.user_counter
    → IsTable s
    → IsTable (delete_user i (record s { sub_process = update s.sub_process (s.users i).pid none }))
unfolding delete_user
delete_user-IsTable i s inside t = record {
  bounded = omega (arith, t.bounded);
  found = λ j h. at j h;
}
  where
    last : ℕ
    last = s.user_counter - 1

    sub : ℕ → Option ℕ
    sub = update s.sub_process (s.users i).pid none

    at :
        (j : ℕ)
        → j < s.user_counter - 1
        → update sub (s.users last).pid (some i) (update s.users i (s.users last) j).pid ≡ some j
    at j h = elim (Bool-cases (j == i)) [
      | inl here ↦
          let e : j ≡ i = ground arith in
          ap (λ u. update sub (s.users last).pid (some i) u.pid)
            (update_at s.users (s.users last) e)
          ∙ update_at sub {i = (s.users last).pid} (some i) refl
          ∙ ap some (sym e)
      | inr other ↦
          let ne : j ≢ i = ground arith in
          let inside_j : j < s.user_counter = omega arith in
          ap (λ u. update sub (s.users last).pid (some i) u.pid)
            (update_ne s.users (s.users last) ne)
          ∙ update_ne sub {i = (s.users last).pid} {j = (s.users j).pid} (some i)
              (λ e. ne_last j h (some-injective (distinct s j last t inside_j (omega arith) e)))
          ∙ update_ne s.sub_process {i = (s.users i).pid} {j = (s.users j).pid} none
              (λ e. ne (some-injective (distinct s j i t inside_j inside e)))
          ∙ t.found j inside_j
    ]
      where
        ne_last : (j : ℕ) → j < s.user_counter - 1 → j ≢ s.user_counter - 1
        ne_last j h e = omega arith

pub reap-IsTable :
    (i : ℕ) (s : Server)
    → i < s.user_counter
    → IsTable s
    → (reap (s.users i).pid s
        ≡ delete_user i (record s { sub_process = update s.sub_process (s.users i).pid none }))
      × IsTable (reap (s.users i).pid s)
unfolding reap
reap-IsTable i s inside t =
    let limit : ltb user_limit i ≡ false = let b = t.bounded in ground arith in
    let e =
      ap
        (λ o. delete_found o (record s { sub_process = update s.sub_process (s.users i).pid none }))
        (t.found i inside)
      ∙ ap
          (λ b.
            if b
            then record s { sub_process = update s.sub_process (s.users i).pid none }
            else delete_user i
                (record s { sub_process = update s.sub_process (s.users i).pid none }))
          limit in
    (e, subst IsTable (sym e) (delete_user-IsTable i s inside t))

-- The answers of `waitpid` are pids of users, each of those that are left.
abbrev pub Ended : List ℕ → Server → Type 0
Ended [] s = Unit {0}
Ended (pid ∷ pids) s =
    ((i : ℕ) × (i < s.user_counter) × ((s.users i).pid ≡ pid)) × Ended pids (reap pid s)

-- What the parent may do: a connection, whose child is not that of a user; the end of children; a
-- signal; a message of a child.
pub data Step (s : Server) : Server → Type 0 where
  connects :
      (connfd pipe pid : ℕ)
      → ((j : ℕ) → j < s.user_counter → (s.users j).pid ≢ pid)
      → Step s (new_connection connfd pipe (some pid) s)
  fork_fails : (connfd pipe : ℕ) → Step s (new_connection connfd pipe none s)
  children_end : (pids : List ℕ) → Ended pids s → Step s (child_ended pids s)
  interrupted : Step s (interrupt s)
  forwards : (sockfd child : ℕ) → Step s (child_message sockfd child s)

pub data Reach (s : Server) : Server → Type 0 where
  here : Reach s s
  next : {t u : Server} → Reach s t → Step t u → Reach s u

new_connection-IsTable :
    (connfd pipe pid : ℕ) (s : Server)
    → ((j : ℕ) → j < s.user_counter → (s.users j).pid ≢ pid)
    → IsTable s
    → IsTable (new_connection connfd pipe (some pid) s)
unfolding new_connection
new_connection-IsTable connfd pipe pid s fresh t =
    elim (Bool-cases (leb user_limit s.user_counter)) [
      | inl full ↦ rw full (record { bounded = t.bounded; found = t.found })
      | inr room ↦ rw room (add_user-IsTable _ s (ground arith) fresh t)
    ]

fork_fails-IsTable :
    (connfd pipe : ℕ) (s : Server) → IsTable s → IsTable (new_connection connfd pipe none s)
unfolding new_connection
fork_fails-IsTable connfd pipe s t = elim (Bool-cases (leb user_limit s.user_counter)) [
  | inl full ↦ rw full (record { bounded = t.bounded; found = t.found })
  | inr room ↦ rw room (record {
    bounded = t.bounded;
    found = λ j h.
        ap (λ u. s.sub_process u.pid) (update_ne s.users _ (λ e. omega (arith, e, h)))
        ∙ t.found j h;
  })
]

reap_all-IsTable :
    (pids : List ℕ) (s : Server) → Ended pids s → IsTable s → IsTable (reap_all pids s)
unfolding reap_all
reap_all-IsTable [] s ended t = t
reap_all-IsTable (pid ∷ pids) s ((i, inside, e), ended) t =
    reap_all-IsTable pids (reap pid s) ended
      (subst (λ p. IsTable (reap p s)) e (reap-IsTable i s inside t).1)

child_ended-IsTable :
    (pids : List ℕ) (s : Server) → Ended pids s → IsTable s → IsTable (child_ended pids s)
unfolding child_ended
child_ended-IsTable pids s ended t =
    let u = reap_all-IsTable pids s ended t in
    let q = reap_all pids s in
    elim (Bool-cases (q.terminate && (q.user_counter == 0))) [
      | inl all ↦ rw all (record { bounded = u.bounded; found = u.found })
      | inr some_left ↦ rw some_left u
    ]

interrupt-IsTable : (s : Server) → IsTable s → IsTable (interrupt s)
unfolding interrupt
interrupt-IsTable s t = elim (Bool-cases (s.user_counter == 0)) [
  | inl no_user ↦ rw no_user (record { bounded = t.bounded; found = t.found })
  | inr users ↦ rw users (record { bounded = t.bounded; found = t.found })
]

Step-IsTable : {s q : Server} → Step s q → IsTable s → IsTable q
unfolding child_message
Step-IsTable {s} (connects connfd pipe pid fresh) t =
    new_connection-IsTable connfd pipe pid s fresh t
Step-IsTable {s} (fork_fails connfd pipe) t = fork_fails-IsTable connfd pipe s t
Step-IsTable {s} (children_end pids ended) t = child_ended-IsTable pids s ended t
Step-IsTable {s} interrupted t = interrupt-IsTable s t
Step-IsTable (forwards sockfd child) t = record { bounded = t.bounded; found = t.found }

pub Reach-IsTable : (memory : ℕ → Client) {s : Server} → Reach (start memory) s → IsTable s
unfolding start
Reach-IsTable memory here = record { bounded = omega arith; found = λ j h. absurd (omega arith) }
Reach-IsTable memory (next r s) = Step-IsTable s (Reach-IsTable memory r)

-- In a state with the table's invariant, when the child of a user other than the last has ended,
-- the last user stands in its place, and the next client is served by a child started with the
-- number one below the former count of users, the place that the moved user has left.
pub new_connection-shared :
    (i connfd pipe pid : ℕ) (s : Server)
    → IsTable s
    → i + 1 < s.user_counter
    → (((reap (s.users i).pid s).users i) ≡ s.users (s.user_counter - 1))
      × ((new_connection connfd pipe (some pid) (reap (s.users i).pid s)).calls
          ≡ (reap (s.users i).pid s).calls
            ++ run_child pid (s.user_counter - 1) ∷ close connfd ∷ addfd pipe ∷ [])
unfolding new_connection add_user delete_user
new_connection-shared i connfd pipe pid s t inside =
    let (e, u) = reap-IsTable i s (omega arith) t in
    let room : leb user_limit (s.user_counter - 1) ≡ false = let b = t.bounded in ground arith in
    rw e (update_at s.users (s.users (s.user_counter - 1)) refl, rw room refl)
