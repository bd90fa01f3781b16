-- ===== src/WebServer/Parser/Ends.antt =====
-- `parse_request` on a text that holds the empty line that `async_read_until` waits for.
use mathlib.Core.Path.{subst}
use c_project.Prelude.{
  ℕ, zero, suc, ◌≤◌, ◌≡◌, ◌≢◌, refl, sym, ap, ◌∙◌, inl, inr, Bool-cases, ==→eq, Option, none, some,
  [], ◌∷◌, ◌++◌, ◌==◌, length, length-append, arith,
}
use c_project.WebServer.Parser.{
  Text, lf, cr, pop_back, match_header, has_char, getline, split_at, Request, parsed, popped_empty,
  ran_out, read_headers, HeaderLine, no_line, no_match, pair, header_line, add_header,
  on_request_line, on_first_line, parse_request,
}
use c_project.WebServer.Parser.Lines.{Free, Free-uncons, read_headers-after_line, after_line}

-- A line that is empty but for its carriage return is among the lines.
pub data HasBlank : Text → Type 0 where
  here : (rest : Text) → HasBlank (cr ∷ lf ∷ rest)
  later : (line rest : Text) → Free lf line → HasBlank rest → HasBlank (line ++ lf ∷ rest)

getline-lf : (line rest : Text) → Free lf line → getline (line ++ lf ∷ rest) ≡ (line, rest)
unfolding getline
getline-lf [] rest h = refl
getline-lf (c ∷ line) rest h =
    let (ne, free) = Free-uncons lf c line h in rw (ne, getline-lf line rest free) refl

parsed_apart : {r : Request} {rest : Text} → parsed r rest ≢ ran_out
parsed_apart e = ground arith

popped_apart : popped_empty ≢ ran_out
popped_apart e = ground arith

after_line-Ends :
    (fuel : ℕ) (l : HeaderLine) (rest : Text) (r : Request)
    → ((r : Request) → read_headers fuel rest r ≢ ran_out)
    → after_line fuel l rest r ≢ ran_out
after_line-Ends fuel no_line rest r go = popped_apart
after_line-Ends fuel no_match rest r go = parsed_apart
after_line-Ends fuel (pair key value) rest r go = go (add_header key value r)

-- The loop on a text that begins with a line.
line-Ends :
    (fuel : ℕ) (line rest : Text) (r : Request)
    → Free lf line
    → ((r : Request) → read_headers fuel rest r ≢ ran_out)
    → read_headers (suc fuel) (line ++ lf ∷ rest) r ≢ ran_out
line-Ends fuel [] rest r free go e = after_line-Ends fuel (header_line []) rest r go (
    sym (
      read_headers-after_line fuel lf rest r
      ∙ ap (λ p. after_line fuel (header_line p.0) p.1 r) (getline-lf [] rest free))
    ∙ e)
line-Ends fuel (c ∷ line) rest r free go e =
    after_line-Ends fuel (header_line (c ∷ line)) rest r go (
      sym (
        read_headers-after_line fuel c (line ++ lf ∷ rest) r
        ∙ ap (λ p. after_line fuel (header_line p.0) p.1 r) (getline-lf (c ∷ line) rest free))
      ∙ e)

blank-Ends :
    (fuel : ℕ) (rest : Text) (r : Request) → read_headers (suc fuel) (cr ∷ lf ∷ rest) r ≢ ran_out
unfolding read_headers getline header_line pop_back match_header split_at
blank-Ends fuel rest r e = parsed_apart e

read_headers-Ends :
    {stream : Text}
    → HasBlank stream
    → (fuel : ℕ) (r : Request) → length stream ≤ fuel
    → read_headers fuel stream r ≢ ran_out
read_headers-Ends (here rest) zero r h = absurd (omega arith)
read_headers-Ends (here rest) (suc fuel) r h = blank-Ends fuel rest r
read_headers-Ends (later line rest free b) zero r h =
    absurd (let l = length-append line (lf ∷ rest) in omega arith)
read_headers-Ends (later line rest free b) (suc fuel) r h =
    line-Ends fuel line rest r free
      (λ s. read_headers-Ends b fuel s (let l = length-append line (lf ∷ rest) in omega arith))

-- The first line of a text with an empty line behind a line, and what follows.
cut :
    (before behind : Text)
    → (line : Text) × (rest : Text) × (before ++ cr ∷ lf ∷ cr ∷ lf ∷ behind ≡ line ++ lf ∷ rest)
      × Free lf line
      × HasBlank rest
unfolding has_char
cut [] behind = (cr ∷ [], cr ∷ lf ∷ behind, refl, refl, here behind)
cut (c ∷ before) behind =
    let (line, rest, e, free, b) = cut before behind in
    elim (Bool-cases (c == lf)) [
      | inl is_lf ↦ (
        [],
        before ++ cr ∷ lf ∷ cr ∷ lf ∷ behind,
        ap (λ x. x ∷ (before ++ cr ∷ lf ∷ cr ∷ lf ∷ behind)) (==→eq c lf is_lf),
        refl,
        subst HasBlank (sym e) (later line rest free b),
      )
      | inr other ↦ (c ∷ line, rest, ap (λ t. c ∷ t) e, rw other free, b)
    ]

on_request_line-Ends :
    (o : Option (Text × Text × Text)) (rest : Text)
    → HasBlank rest
    → on_request_line o rest ≢ ran_out
unfolding on_request_line
on_request_line-Ends none rest b = parsed_apart
on_request_line-Ends (some (method, path, version)) rest b =
    read_headers-Ends b (length rest) _ (omega arith)

on_first_line-Ends : (line rest : Text) → HasBlank rest → on_first_line (line, rest) ≢ ran_out
unfolding on_first_line
on_first_line-Ends [] rest b = popped_apart
on_first_line-Ends (c ∷ line) rest b = on_request_line-Ends _ rest b

-- On a buffer that holds two line ends in a row, as `async_read_until` leaves it, no `getline` of
-- `parse_request` is called at the end of the buffer.
pub parse_request-Ends :
    (before behind : Text) → parse_request (before ++ cr ∷ lf ∷ cr ∷ lf ∷ behind) ≢ ran_out
unfolding parse_request
parse_request-Ends before behind e =
    let (line, rest, split, free, b) = cut before behind in
    on_first_line-Ends line rest b (
      sym (ap (λ t. on_first_line (getline t)) split ∙ ap on_first_line (getline-lf line rest free))
      ∙ e)
