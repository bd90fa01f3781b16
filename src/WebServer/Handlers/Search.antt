-- ===== src/WebServer/Handlers/Search.antt =====
-- The searches of WebServer/handler.h in a path, and the path without all dots but the last one.
use c_project.Prelude.{
  ℕ, zero, suc, ◌+◌, ◌≤◌, ◌≡◌, refl, ap, ◌∙◌, inl, inr, Bool, true, false, Bool-cases, ==→eq,
  ==_refl, ◌&&◌, none, some, [], ◌∷◌, ◌++◌, ◌==◌, if◌then◌else◌, length, arith,
}
use c_project.WebServer.Parser.{Text, has_char}
use c_project.WebServer.Parser.Lines.{Free, Free-uncons}
use c_project.WebServer.Handlers.{dot, find, rfind, last_of, erase}

-- A dot stays where no other is behind it.
unfoldable pub strip_dots : Text → Text
strip_dots [] = []
strip_dots (c ∷ text) =
    let rest = strip_dots text in if c == dot && has_char dot text then rest else c ∷ rest

pub find-append :
    (sep from : ℕ) (before text : Text)
    → from ≤ length before
    → Free sep before
    → find sep from (before ++ sep ∷ text) ≡ some (length before)
unfolding find
find-append sep zero [] text h free = rw (==_refl sep) refl
find-append sep zero (c ∷ before) text h free =
    let (ne, rest) = Free-uncons sep c before free in
    rw (ne, find-append sep zero before text (omega arith) rest) refl
find-append sep (suc from) [] text h free = absurd (omega arith)
find-append sep (suc from) (c ∷ before) text h free =
    let (ne, rest) = Free-uncons sep c before free in
    rw (find-append sep from before text (omega arith) rest) refl

pub find-Free : (sep from : ℕ) (text : Text) → Free sep text → find sep from text ≡ none
unfolding find
find-Free sep zero [] free = refl
find-Free sep zero (c ∷ text) free =
    let (ne, rest) = Free-uncons sep c text free in rw (ne, find-Free sep zero text rest) refl
find-Free sep (suc from) [] free = refl
find-Free sep (suc from) (c ∷ text) free =
    let (ne, rest) = Free-uncons sep c text free in rw (find-Free sep from text rest) refl

rfind-Free : (sep : ℕ) (text : Text) → Free sep text → rfind sep text ≡ none
unfolding rfind
rfind-Free sep [] free = refl
rfind-Free sep (c ∷ text) free =
    let (ne, rest) = Free-uncons sep c text free in rw (rfind-Free sep text rest, ne) refl

pub rfind-append :
    (sep : ℕ) (before text : Text) (pos : ℕ)
    → rfind sep text ≡ some pos
    → rfind sep (before ++ text) ≡ some (length before + pos)
unfolding rfind
rfind-append sep [] text pos e = e ∙ ap some (omega arith)
rfind-append sep (c ∷ before) text pos e =
    ap (last_of (c == sep)) (rfind-append sep before text pos e) ∙ ap some (omega arith)

if_true : (b c : Bool) → (if b then true else c) ≡ true → c ≡ false → b ≡ true
if_true true c h free = refl
if_true false c h free = absurd (ground arith)

if_false : (b c : Bool) → (if b then true else c) ≡ true → b ≡ false → c ≡ true
if_false true c h e = absurd (ground arith)
if_false false c h e = h

has_here :
    (sep c : ℕ) (text : Text) → has_char sep (c ∷ text) ≡ true → Free sep text → (c == sep) ≡ true
unfolding has_char
has_here sep c text h free = if_true (c == sep) _ h free

has_rest :
    (sep c : ℕ) (text : Text)
    → has_char sep (c ∷ text) ≡ true
    → (c == sep) ≡ false
    → has_char sep text ≡ true
unfolding has_char
has_rest sep c text h e = if_false (c == sep) _ h e

pub rfind-has :
    (sep : ℕ) (text : Text) → has_char sep text ≡ true → (pos : ℕ) × (rfind sep text ≡ some pos)
unfolding rfind has_char
rfind-has sep [] h = absurd (ground arith)
rfind-has sep (c ∷ text) h = elim (Bool-cases (has_char sep text)) [
  | inl more ↦ let (pos, e) = rfind-has sep text more in (suc pos, ap (last_of (c == sep)) e)
  | inr free ↦
      let here : (c == sep) ≡ true = has_here sep c text h free in
      (0, ap (last_of (c == sep)) (rfind-Free sep text free) ∙ ap (λ b. last_of b none) here)
]

pub erase-append :
    (before text : Text) (c : ℕ) → erase (length before) (before ++ c ∷ text) ≡ before ++ text
unfolding erase
erase-append [] text c = refl
erase-append (b ∷ before) text c = ap (λ t. b ∷ t) (erase-append before text c)

-- The first dot.
pub split_first :
    (sep : ℕ) (text : Text)
    → has_char sep text ≡ true
    → (before : Text) × (behind : Text) × (text ≡ before ++ sep ∷ behind) × Free sep before
unfolding has_char
split_first sep [] h = absurd (ground arith)
split_first sep (c ∷ text) h = elim (Bool-cases (c == sep)) [
  | inl is_sep ↦ ([], text, ap (λ x. x ∷ text) (==→eq c sep is_sep), refl)
  | inr other ↦
      let (before, behind, e, free) = split_first sep text (has_rest sep c text h other) in
      (c ∷ before, behind, ap (λ t. c ∷ t) e, rw other free)
]

pub strip_dots-Free : (text : Text) → Free dot text → strip_dots text ≡ text
unfolding strip_dots
strip_dots-Free [] free = refl
strip_dots-Free (c ∷ text) free =
    let (ne, rest) = Free-uncons dot c text free in rw (ne, strip_dots-Free text rest) refl

pub strip_dots-append :
    (before text : Text) → Free dot before → strip_dots (before ++ text) ≡ before ++ strip_dots text
unfolding strip_dots
strip_dots-append [] text free = refl
strip_dots-append (c ∷ before) text free =
    let (ne, rest) = Free-uncons dot c before free in
    rw (ne, strip_dots-append before text rest) refl

pub rfind-cons :
    (text : Text) (pos : ℕ) → rfind dot text ≡ some pos → rfind dot (dot ∷ text) ≡ some (suc pos)
unfolding rfind
rfind-cons text pos e = ap (last_of (dot == dot)) e

pub rfind-last : (text : Text) → Free dot text → rfind dot (dot ∷ text) ≡ some 0
unfolding rfind
rfind-last text free = ap (last_of (dot == dot)) (rfind-Free dot text free)

has_char-append :
    (sep : ℕ) (before text : Text) → has_char sep text ≡ true → has_char sep (before ++ text) ≡ true
unfolding has_char
has_char-append sep [] text h = h
has_char-append sep (b ∷ before) text h = elim (Bool-cases (b == sep)) [
  | inl is_true ↦ rw is_true refl
  | inr is_false ↦ rw is_false (has_char-append sep before text h)
]

-- The first dot goes where another is behind it, and stays where none is.
pub strip_dots-more :
    (text : Text) → has_char dot text ≡ true → strip_dots (dot ∷ text) ≡ strip_dots text
unfolding strip_dots
strip_dots-more text h = rw h refl

pub strip_dots-last : (text : Text) → Free dot text → strip_dots (dot ∷ text) ≡ dot ∷ text
unfolding strip_dots
strip_dots-last text free = rw free (ap (λ t. dot ∷ t) (strip_dots-Free text free))
