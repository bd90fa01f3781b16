-- ===== src/PollServer/Messages.antt =====
-- What the users of ChatRoom/server.c are sent: a text that one writes reaches the others, unless
-- its sender hangs up first.
use mathlib.Core.Path.{subst}
use c_project.Prelude.{
  ℕ, zero, suc, ◌+◌, ◌≤◌, ◌<◌, ◌≡◌, ◌≢◌, refl, sym, ap, ◌∙◌, ◌⊎◌, inl, inr, Bool-cases, ==→eq,
  ==→ne, if◌then◌else◌, ◌==◌, Bool, true, false, Option, some, some-injective, List, [], ◌∷◌,
  get_elem?, lt_of_get_elem?, overwrite, replicate, length, arith, ==_refl,
}
use c_project.PollServer.{
  Pollfd, Server, ClientData, sends, bytes, buffer_size, update, fill_slot, mark, set_write_buf,
  drop_user, notify_at, notify_others, set_buf, on_received, send_from, until_nul,
}
use c_project.PollServer.Slots.{At, At-set}
use c_project.PollServer.Branches.{IsValid, Keeps, drop_user_lem, notify_at_lem, notify_at-Keeps}

until_nul-overwrite :
    (n : ℕ) (text : List ℕ)
    → length text ≤ n
    → until_nul (overwrite (replicate n 0) 0 text) ≡ until_nul text
unfolding until_nul
until_nul-overwrite zero [] h = refl
until_nul-overwrite zero (b ∷ text) h = absurd (omega arith)
until_nul-overwrite (suc n) [] h = refl
until_nul-overwrite (suc n) (b ∷ text) h = rw (until_nul-overwrite n text (omega arith)) refl

update_at : (fd : ℕ) (c : ClientData) (users : ℕ → ClientData) → update fd c users fd ≡ c
unfolding update
update_at fd c users = rw (==_refl fd) refl

update_ne :
    (fd j : ℕ) (c : ClientData) (users : ℕ → ClientData) → j ≢ fd → update fd c users j ≡ users j
unfolding update
update_ne fd j c users ne = let e : (j == fd) ≡ false = ground arith in rw e refl

-- User `g`, at slot `j`, is told that `f` has a text for it.
record Told (f g j : ℕ) (s : Server) : Type 0 where
  asks : At (λ q. (q.fd ≡ some g) × (q.events.pollout ≡ true)) s.fds j
  pending : (s.users g).write_buf ≡ some f

-- Slot `j` is that of `g`.
abbrev Here : ℕ → ℕ → Server → Type 0
Here g j s = At (λ q. q.fd ≡ some g) s.fds j

-- The text stays, and nothing is sent.
abbrev Same : ℕ → Server → Server → Type 0
Same f s t = ((t.users f).buf ≡ (s.users f).buf) × (t.output ≡ s.output)

module _ (f g j k h : ℕ) (p : Pollfd) (s : Server) (at : get_elem? s.fds k ≡ some p)
    (owner : p.fd ≡ some h) where
  mark-Same : h ≢ f → Same f s (mark f k p h s)
  unfolding mark
  mark-Same ne = (ap (λ c. c.buf) (update_ne h f _ s.users (λ e. ne (sym e))), refl)

  inside : k < length s.fds
  inside = lt_of_get_elem? s.fds k at

  for_g : h ≡ g → ((mark f k p h s).users g).write_buf ≡ some f
  unfolding mark
  for_g same =
      ap (λ n. (set_write_buf h (some f) s.users n).write_buf) (sym same)
      ∙ ap (λ c. c.write_buf) (update_at h (record (s.users h) { write_buf = some f }) s.users)

  mark_self : k ≡ j → h ≡ g → Told f g j (mark f k p h s)
  unfolding mark
  mark_self e same = record {
    asks =
        At-set s.fds k j _ inside (λ here. (owner ∙ ap some same, refl))
          (λ ne. absurd (ne (sym e)));
    pending = for_g same;
  }

  mark-Here : Here g j s → Here g j (mark f k p h s)
  unfolding mark
  mark-Here (q, there, fd) =
      At-set s.fds k j _ inside
        (λ e. ap (λ x. x.fd) (some-injective (sym at ∙ ap (get_elem? s.fds) (sym e) ∙ there)) ∙ fd)
        (λ ne. (q, there, fd))

  mark-Told : Told f g j s → Told f g j (mark f k p h s)
  unfolding mark
  mark-Told told =
      let (q, there, (fd, out)) = told.asks in
      record {
        asks =
            At-set s.fds k j _ inside
              (λ e. (
                ap (λ x. x.fd) (some-injective (sym at ∙ ap (get_elem? s.fds) (sym e) ∙ there))
                    ∙ fd,
                refl,
              ))
              (λ ne. told.asks);
        pending = elim (Bool-cases (h == g)) [
          | inl is_true ↦ for_g (==→eq h g is_true)
          | inr is_false ↦
              ap (λ c. c.write_buf) (update_ne h g _ s.users (λ e. ==→ne h g is_false (sym e)))
              ∙ told.pending
        ];
      }

module _ (f g j : ℕ) (apart : g ≢ f) where
  -- One round of the inner loop, at slot `k`.
  notify_at-tells :
      (k : ℕ) (s : Server)
      → 1 ≤ k
      → k ≤ s.user_counter
      → IsValid s
      → Here g j s
      → (t : Server) × (notify_at f k s ≡ some t)
        × Keeps s t
        × Same f s t
        × Here g j t
        × ((k ≡ j) ⊎ Told f g j s → Told f g j t)
  notify_at-tells k s from below v here =
      let (p, at, u) = v.user k from below in
      let h = u.fd_of in
      let (t, goes, keeps) = notify_at-Keeps f k s from below v in
      let same_fd : k ≡ j → h ≡ g = λ e. some-injective (
        sym u.has_fd
        ∙ ap (λ x. x.fd) (some-injective (sym at ∙ ap (get_elem? s.fds) e ∙ here.1))
        ∙ here.2) in
      let branch : Bool → Option Server = λ b. some (if b then s else mark f k p h s) in
      elim (Bool-cases (h == f)) [
        | inl own ↦ (
          s,
          notify_at_lem f k h s at u.has_fd ∙ ap branch own,
          (v, refl, refl),
          (refl, refl),
          here,
          λ told. elim told [
            | inl e ↦ absurd (apart (sym (same_fd e) ∙ ==→eq h f own))
            | inr before ↦ before
          ],
        )
        | inr others ↦
            let gives = notify_at_lem f k h s at u.has_fd ∙ ap branch others in
            (
              mark f k p h s,
              gives,
              subst (Keeps s) (some-injective (sym goes ∙ gives)) keeps,
              mark-Same f g j k h p s at u.has_fd (==→ne h f others),
              mark-Here f g j k h p s at u.has_fd here,
              λ told. elim told [
                | inl e ↦ mark_self f g j k h p s at u.has_fd e (same_fd e)
                | inr before ↦ mark-Told f g j k h p s at u.has_fd before
              ],
            )
      ]

  notify_others-tells :
      (rounds k : ℕ) (s : Server)
      → 1 ≤ k
      → k + rounds ≤ s.user_counter + 1
      → IsValid s
      → Here g j s
      → ((k ≤ j) × (j < k + rounds)) ⊎ Told f g j s
      → (t : Server) × (notify_others f rounds k s ≡ some t) × Same f s t × Told f g j t
  unfolding notify_others
  notify_others-tells zero k s from below v here told =
      (s, refl, (refl, refl), elim told [ inl range ↦ absurd (omega arith) | inr before ↦ before ])
  notify_others-tells (suc rounds) k s from below v here told =
      let (t, one, (v1, l1, n1), (b1, o1), here1, tells) =
        notify_at-tells k s from (omega arith) v here in
      let (u, rest, (b2, o2), done) =
        notify_others-tells rounds (k + 1) t (omega arith) (omega arith) v1 here1 (elim told [
          | inr before ↦ inr (tells (inr before))
          | inl range ↦ elim (Bool-cases (k == j)) [
            | inl now ↦ inr (tells (inl (==→eq k j now)))
            | inr later ↦ inl (let ne = ==→ne k j later in omega arith, omega arith)
          ]
        ]) in
      (u, rw one rest, (b2 ∙ b1, o2 ∙ o1), done)

-- In a valid table, a text of fewer than `BUFFER_SIZE` bytes that the descriptor `f` writes is kept
-- for every user with another descriptor: its slot then asks for POLLOUT, and what it is sent, when
-- that comes before anything else, is the text up to a NUL.
pub on_received-sends :
    (i j f g : ℕ) (p q : Pollfd) (text : List ℕ) (s : Server)
    → IsValid s
    → 1 ≤ j
    → j ≤ s.user_counter
    → get_elem? s.fds j ≡ some q
    → q.fd ≡ some g
    → g ≢ f
    → length text < buffer_size
    → (t : Server) × (on_received i p f (bytes text) s ≡ some (i + 1, t))
      × At (λ r. (r.fd ≡ some g) × (r.events.pollout ≡ true)) t.fds j
      × ((r : Pollfd)
          → (send_from j r g (t.users g).write_buf t).output ≡ sends g (until_nul text) ∷ s.output)
unfolding on_received send_from
on_received-sends i j f g p q text s v from below at fd apart few =
    let read = set_buf f text s in
    let (t, goes, (kept, quiet), told) =
      notify_others-tells f g j apart s.user_counter 1 read (omega arith) (omega arith) v
        (q, at, fd) (inl (from, omega arith)) in
    let own : (read.users f).buf ≡ overwrite (replicate buffer_size 0) 0 text =
      ap (λ c. c.buf) (update_at f _ s.users) in
    let what : until_nul (t.users f).buf ≡ until_nul text =
      ap until_nul (kept ∙ own) ∙ until_nul-overwrite buffer_size text (omega arith) in
    (
      t,
      rw goes refl,
      told.asks,
      λ r.
          ap (λ o. (send_from j r g o t).output) told.pending
          ∙ ap (λ x. sends g x ∷ t.output) what
          ∙ ap (λ o. sends g (until_nul text) ∷ o) quiet,
    )

-- Where the last user of the table, not the one that leaves, is still to be sent the text of the
-- one that leaves, it is sent what stands in its own buffer: its entry is copied over that of the
-- one that leaves, and the text is read there.
pub drop_user-sends :
    (i a b : ℕ) (p last : Pollfd) (s : Server)
    → p.fd ≡ some a
    → get_elem? s.fds s.user_counter ≡ some last
    → last.fd ≡ some b
    → b ≢ a
    → 1 ≤ s.user_counter
    → (s.users b).write_buf ≡ some a
    → (t : Server) × (drop_user i p s ≡ some t)
      × ((send_from i last b (t.users b).write_buf t).output
          ≡ sends b (until_nul (s.users b).buf) ∷ t.output)
unfolding send_from fill_slot
drop_user-sends i a b p last s e at owner ne some_user pending =
    let left = fill_slot i last a b s in
    let same : left.users b ≡ s.users b = update_ne a b (s.users b) s.users ne in
    let to : (left.users b).write_buf ≡ some a = ap (λ c. c.write_buf) same ∙ pending in
    let text : (left.users a).buf ≡ (s.users b).buf =
      ap (λ c. c.buf) (update_at a (s.users b) s.users) in
    (
      left,
      drop_user_lem i p s e at owner some_user,
      ap (λ o. (send_from i last b o left).output) to
          ∙ ap (λ t. sends b (until_nul t) ∷ left.output) text,
    )
