-- ===== src/Reactor/Session/Pieces.antt =====
-- What the reading of MyReactor/reactor.cpp makes of the bytes of a client.
use mathlib.Core.List.{append_assoc, append-nil}
use c_project.Prelude.{
  ℕ, zero, suc, ◌<◌, ◌≡◌, refl, sym, ap, ◌∙◌, false, none, some, List, [], ◌∷◌, ◌++◌, ◌==◌,
  overwrite, replicate, length, arith, map,
}
use c_project.Reactor.Session.{
  buff_size, Received, would_block, bytes, c_string, fill, message, read_all,
}

-- No byte is NUL.
abbrev pub NoNul : List ℕ → Type 0
NoNul [] = Unit
NoNul (b ∷ text) = ((b == 0) ≡ false) × NoNul text

-- The text lies in the buffer with a NUL behind it, or fills it.
c_string-overwrite :
    (n : ℕ) (text : List ℕ)
    → NoNul text
    → length text < n
    → c_string (overwrite (replicate n 0) 0 text) ≡ some text
unfolding c_string
c_string-overwrite zero text h k = absurd (omega arith)
c_string-overwrite (suc n) [] h k = refl
c_string-overwrite (suc n) (b ∷ text) (ne, h) k =
    rw (ne, c_string-overwrite n text h (omega arith)) refl

c_string-full :
    (n : ℕ) (text : List ℕ)
    → NoNul text
    → length text ≡ n
    → c_string (overwrite (replicate n 0) 0 text) ≡ none
unfolding c_string
c_string-full zero text h k = refl
c_string-full (suc n) [] h k = absurd (omega arith)
c_string-full (suc n) (b ∷ text) (ne, h) k = rw (ne, c_string-full n text h (omega arith)) refl

-- The answers of `recv` for some pieces of text, up to where there is no more.
abbrev pub pieces : List (List ℕ) → List Received
pieces [] = would_block ∷ []
pieces (text ∷ texts) = bytes text ∷ pieces texts

abbrev pub flatten : List (List ℕ) → List ℕ
flatten [] = []
flatten (text ∷ texts) = text ++ flatten texts

-- Pieces that leave room for a NUL.
abbrev pub Short : List (List ℕ) → Type 0
Short [] = Unit
Short (text ∷ texts) = NoNul text × (length text < buff_size) × Short texts

read_all-from :
    (texts : List (List ℕ)) (before : List ℕ)
    → Short texts
    → read_all (pieces texts) before ≡ some (message (before ++ flatten texts))
unfolding read_all fill
read_all-from [] before h = ap (λ t. some (message t)) (sym (append-nil before))
read_all-from (text ∷ texts) before (no_nul, short, more) =
    rw (c_string-overwrite buff_size text no_nul short) (
      read_all-from texts (before ++ text) more
      ∙ ap (λ t. some (message t)) (append_assoc before text (flatten texts)))

pub read_all-flatten :
    (texts : List (List ℕ))
    → Short texts
    → read_all (pieces texts) [] ≡ some (message (flatten texts))
read_all-flatten texts h = read_all-from texts [] h

-- Behind pieces of fewer than ten bytes, a piece of ten bytes, none of them NUL, makes the worker
-- read behind its buffer, whatever comes then.
pub read_all-full :
    (texts : List (List ℕ)) (text : List ℕ) (answers : List Received) (before : List ℕ)
    → Short texts
    → NoNul text
    → length text ≡ buff_size
    → read_all (map bytes texts ++ bytes text ∷ answers) before ≡ none
unfolding read_all fill
read_all-full [] text answers before h no_nul whole =
    rw (c_string-full buff_size text no_nul whole) refl
read_all-full (t ∷ texts) text answers before (nn, short, more) no_nul whole =
    rw (c_string-overwrite buff_size t nn short)
      (read_all-full texts text answers (before ++ t) more no_nul whole)
