-- ===== src/Reactor/Session/Sends.antt =====
-- What the sending of MyReactor/reactor.cpp gives to a client.
use mathlib.Core.Path.{subst}
use mathlib.Core.List.{append_assoc, append-nil}
use c_project.Prelude.{
  ℕ, zero, suc, ◌≤◌, ◌≡◌, refl, sym, ap, ◌∙◌, List, [], ◌∷◌, ◌++◌, if◌then◌else◌, length,
  length-drop, take, drop, arith,
}
use c_project.Reactor.Session.{
  Sent, full, broken, took, Sending, sent, dropped, sending, send_all, is_empty,
}

take-drop : (n : ℕ) (text : List ℕ) → take n text ++ drop n text ≡ text
take-drop zero text = refl
take-drop (suc n) [] = refl
take-drop (suc n) (b ∷ text) = ap (λ t. b ∷ t) (take-drop n text)

-- Every byte is sent, or on its way, once and in its order.
abbrev pub InOrder : List ℕ → Sending → Type 0
InOrder text (sent got) = got ≡ text
InOrder text (dropped got) = (rest : List ℕ) × (got ++ rest ≡ text)
InOrder text (sending got rest) = got ++ rest ≡ text

if-InOrder :
    (n : ℕ) (got text : List ℕ) (whole : List ℕ) (rest : Sending)
    → got ++ text ≡ whole
    → InOrder whole rest
    → InOrder whole (if is_empty text then sent got else rest)
if-InOrder n got [] whole rest e h = sym (append-nil got) ∙ e
if-InOrder n got (b ∷ text) whole rest e h = h

send_all-InOrder_from :
    (answers : List Sent) (got text whole : List ℕ)
    → got ++ text ≡ whole
    → InOrder whole (send_all answers got text)
unfolding send_all
send_all-InOrder_from [] got text whole e = e
send_all-InOrder_from (full ∷ answers) got text whole e =
    send_all-InOrder_from answers got text whole e
send_all-InOrder_from (broken ∷ answers) got text whole e = (text, e)
send_all-InOrder_from (took n ∷ answers) got text whole e =
    let split : (got ++ take n text) ++ drop n text ≡ whole =
      append_assoc got (take n text) (drop n text) ∙ ap (λ t. got ++ t) (take-drop n text) ∙ e in
    if-InOrder n (got ++ take n text) (drop n text) whole _ split
      (send_all-InOrder_from answers (got ++ take n text) (drop n text) whole split)

pub send_all-InOrder :
    (answers : List Sent) (text : List ℕ) → InOrder text (send_all answers [] text)
send_all-InOrder answers text = send_all-InOrder_from answers [] text text refl

-- No answer is an error, and a byte at least is taken, if any.
abbrev pub Willing : List Sent → Type 0
Willing [] = Unit
Willing (full ∷ answers) = Willing answers
Willing (broken ∷ answers) = ⊥
Willing (took n ∷ answers) = (1 ≤ n) × Willing answers

-- How often bytes are taken.
abbrev pub takes : List Sent → ℕ
takes [] = 0
takes (full ∷ answers) = takes answers
takes (broken ∷ answers) = takes answers
takes (took n ∷ answers) = suc (takes answers)

-- The sending is over.
abbrev pub IsSent : Sending → Type 0
IsSent s = (got : List ℕ) × (s ≡ sent got)

if-IsSent :
    (got text : List ℕ) (rest : Sending)
    → (1 ≤ length text → IsSent rest)
    → IsSent (if is_empty text then sent got else rest)
if-IsSent got [] rest h = (got, refl)
if-IsSent got (b ∷ text) rest h = h (omega arith)

send_all-IsSent :
    (answers : List Sent) (got text : List ℕ)
    → Willing answers
    → 1 ≤ length text
    → length text ≤ takes answers
    → IsSent (send_all answers got text)
unfolding send_all
send_all-IsSent [] got text w some_text enough = absurd (omega arith)
send_all-IsSent (full ∷ answers) got text w some_text enough =
    send_all-IsSent answers got text w some_text enough
send_all-IsSent (broken ∷ answers) got text w some_text enough = absurd w
send_all-IsSent (took n ∷ answers) got text (one, w) some_text enough =
    if-IsSent (got ++ take n text) (drop n text) _ (λ more.
      send_all-IsSent answers (got ++ take n text) (drop n text) w more
        (let l = length-drop n text in omega arith))

pub send_all-sent :
    (answers : List Sent) (text : List ℕ)
    → Willing answers
    → 1 ≤ length text
    → length text ≤ takes answers
    → send_all answers [] text ≡ sent text
send_all-sent answers text w some_text enough =
    let (got, e) = send_all-IsSent answers [] text w some_text enough in
    let all : got ≡ text = subst (InOrder text) e (send_all-InOrder answers text) in e ∙ ap sent all
