-- ===== src/ChatRoom/Child/Memory.antt =====
-- What the children of the chat server do to the memory that they share.
use c_project.Prelude.{
  ℕ, zero, suc, ◌+◌, ◌-◌, ◌*◌, ◌≤◌, ◌<◌, ◌≡◌, ◌≢◌, refl, sym, ap, ◌∙◌, inl, inr, List, [], ◌∷◌,
  ◌++◌, length, length-replicate, take, drop, replicate, overwrite, ltb, Bool-cases, arith,
}
use c_project.ChatRoom.Child.{
  Child, buffer_size, user_limit, failed, again, closed, received, clear_part, part, on_client,
  on_pipe, Event, client_ready, pipe_ready, other_event, handle_event, handle_events, deliver,
}

module _ {A : Type 0} where
  drop-overwrite :
      (xs : List A) (i n : ℕ) (s : List A)
      → i + length s ≤ n
      → drop n (overwrite xs i s) ≡ drop n xs
  drop-overwrite [] i n s h = refl
  drop-overwrite (x ∷ xs) zero n [] h = refl
  drop-overwrite (x ∷ xs) zero zero (y ∷ s) h = absurd (omega arith)
  drop-overwrite (x ∷ xs) zero (suc n) (y ∷ s) h = drop-overwrite xs zero n s (omega arith)
  drop-overwrite (x ∷ xs) (suc i) zero s h = absurd (omega arith)
  drop-overwrite (x ∷ xs) (suc i) (suc n) s h = drop-overwrite xs i n s (omega arith)

  take-drop-overwrite :
      (xs : List A) (i n m : ℕ) (s : List A)
      → n + m ≤ i
      → take m (drop n (overwrite xs i s)) ≡ take m (drop n xs)
  take-drop-overwrite xs i n zero s h = refl
  take-drop-overwrite [] i n (suc m) s h = refl
  take-drop-overwrite (x ∷ xs) zero n (suc m) s h = absurd (omega arith)
  take-drop-overwrite (x ∷ xs) (suc i) zero (suc m) s h =
      ap (λ t. x ∷ t) (take-drop-overwrite xs i zero m s (omega arith))
  take-drop-overwrite (x ∷ xs) (suc i) (suc n) (suc m) s h =
      take-drop-overwrite xs i n (suc m) s (omega arith)

  take-filled :
      (xs : List A) (m : ℕ) (a : A)
      → m ≤ length xs
      → take m (overwrite xs 0 (replicate m a)) ≡ replicate m a
  take-filled xs zero a h = refl
  take-filled [] (suc m) a h = absurd (omega arith)
  take-filled (x ∷ xs) (suc m) a h = ap (λ t. a ∷ t) (take-filled xs m a (omega arith))

  -- Zeros that are cleared first, and bytes written over their beginning.
  take-drop-written :
      (xs : List A) (i m : ℕ) (a : A) (s : List A)
      → i + m ≤ length xs
      → length s ≤ m
      → take m (drop i (overwrite (overwrite xs i (replicate m a)) i s))
        ≡ s ++ replicate (m - length s) a
  take-drop-written [] zero zero a [] h k = refl
  take-drop-written [] zero zero a (y ∷ s) h k = absurd (omega arith)
  take-drop-written [] zero (suc m) a s h k = absurd (omega arith)
  take-drop-written [] (suc i) m a s h k = absurd (omega arith)
  take-drop-written (x ∷ xs) zero zero a [] h k = refl
  take-drop-written (x ∷ xs) zero zero a (y ∷ s) h k = absurd (omega arith)
  take-drop-written (x ∷ xs) zero (suc m) a [] h k =
      let all : suc m - 0 ≡ suc m = omega arith in rw (all, take-filled xs m a (omega arith)) refl
  take-drop-written (x ∷ xs) zero (suc m) a (y ∷ s) h k =
      let less : suc m - suc (length s) ≡ m - length s = omega arith in
      rw less (ap (λ t. y ∷ t) (take-drop-written xs zero m a s (omega arith) (omega arith)))
  take-drop-written (x ∷ xs) (suc i) m a s h k =
      take-drop-written xs i m a s (omega arith) (omega arith)

part-overwrite :
    (mem : List ℕ) (i j : ℕ) (s : List ℕ)
    → i ≢ j
    → length s ≤ buffer_size
    → part j (overwrite mem (i * buffer_size) s) ≡ part j mem
unfolding part
part-overwrite mem i j s ne short = elim (Bool-cases (ltb i j)) [
  | inl below ↦
      let less : i < j = ground arith in
      ap (take buffer_size) (drop-overwrite mem (i * buffer_size) (j * buffer_size) s (omega arith))
  | inr above ↦
      let less : j < i = ground arith in
      take-drop-overwrite mem (i * buffer_size) (j * buffer_size) buffer_size s (omega arith)
]

-- `recv` gives at most the bytes it was asked for.
abbrev pub IsShort : Event → Type 0
IsShort (client_ready (received bytes)) = length bytes < buffer_size
IsShort (client_ready failed) = Unit {0}
IsShort (client_ready again) = Unit {0}
IsShort (client_ready closed) = Unit {0}
IsShort (pipe_ready r) = Unit {0}
IsShort other_event = Unit {0}

abbrev pub AllShort : List Event → Type 0
AllShort [] = Unit {0}
AllShort (e ∷ events) = IsShort e × AllShort events

-- A handler keeps the child's number, and every part of the memory but its own.
record Keeps (j : ℕ) (c d : Child) : Type 0 where
  same_idx : d.idx ≡ c.idx
  same_part : part j d.share_mem ≡ part j c.share_mem

clear-Keeps :
    (j : ℕ) (c : Child) → c.idx ≢ j → part j (clear_part c.idx c.share_mem) ≡ part j c.share_mem
unfolding clear_part
clear-Keeps j c ne =
    part-overwrite c.share_mem c.idx j (replicate buffer_size 0) ne
      (omega (arith, length-replicate {A = ℕ} buffer_size 0))

handle_event-Keeps :
    (j : ℕ) (e : Event) (c : Child) → IsShort e → c.idx ≢ j → Keeps j c (handle_event e c)
unfolding handle_event on_client on_pipe
handle_event-Keeps j (client_ready failed) c h ne = record {
  same_idx = refl;
  same_part = clear-Keeps j c ne;
}
handle_event-Keeps j (client_ready again) c h ne = record {
  same_idx = refl;
  same_part = clear-Keeps j c ne;
}
handle_event-Keeps j (client_ready closed) c h ne = record {
  same_idx = refl;
  same_part = clear-Keeps j c ne;
}
handle_event-Keeps j (client_ready (received bytes)) c h ne = record {
  same_idx = refl;
  same_part =
      part-overwrite (clear_part c.idx c.share_mem) c.idx j bytes ne (omega arith)
      ∙ clear-Keeps j c ne;
}
handle_event-Keeps j (pipe_ready failed) c h ne = record { same_idx = refl; same_part = refl }
handle_event-Keeps j (pipe_ready again) c h ne = record { same_idx = refl; same_part = refl }
handle_event-Keeps j (pipe_ready closed) c h ne = record { same_idx = refl; same_part = refl }
handle_event-Keeps j (pipe_ready (received n)) c h ne = record { same_idx = refl; same_part = refl }
handle_event-Keeps j other_event c h ne = record { same_idx = refl; same_part = refl }

-- Whatever events a child handles, where `recv` gives fewer than `BUFFER_SIZE` bytes of the client,
-- the part of the shared memory of every client with another number stays as it is.
pub handle_events-part :
    (j : ℕ) (events : List Event) (c : Child)
    → AllShort events
    → c.idx ≢ j
    → part j (handle_events events c).share_mem ≡ part j c.share_mem
unfolding handle_events
handle_events-part j [] c h ne = refl
handle_events-part j (e ∷ events) c (short, h) ne =
    let k = handle_event-Keeps j e c short ne in
    handle_events-part j events (handle_event e c) h (λ x. ne (sym k.same_idx ∙ x)) ∙ k.same_part

-- The bytes that one child reads from its client, fewer than `BUFFER_SIZE`, into a shared memory of
-- full size, are what another child that sees the same memory and is told the first one's number
-- sends to its own client, filled up with zeros to `BUFFER_SIZE`.
pub deliver-sent :
    (bytes : List ℕ) (c d : Child)
    → length bytes < buffer_size
    → length c.share_mem ≡ user_limit * buffer_size
    → c.idx < user_limit
    → d.share_mem ≡ (on_client (received bytes) c).share_mem
    → (on_pipe (received c.idx) d).calls
      ≡ d.calls ++ deliver (bytes ++ replicate (buffer_size - length bytes) 0) ∷ []
unfolding on_client on_pipe part clear_part
deliver-sent bytes c d short size inside same =
    ap (λ m. d.calls ++ deliver (part c.idx m) ∷ []) same
    ∙ ap (λ l. d.calls ++ deliver l ∷ [])
        (take-drop-written c.share_mem (c.idx * buffer_size) buffer_size 0 bytes (omega arith)
          (omega arith))
